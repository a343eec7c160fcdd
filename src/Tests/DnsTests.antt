-- ===== src/Tests/DnsTests.antt =====
-- Names, records, zones and reverse lookups.
use domudns.Prelude.{◌≡◌, ◌↔◌, refl, true, false, ◌&&◌, none, All}
use domudns.Assoc.{lookup, insert}
use domudns.Text.{Text, codes, split, join, trim_suffix, has_suffix, lower_byte}
use domudns.Dns.CharClass.{is_valid_label_char}
use domudns.Dns.Label.{
  is_valid_label, is_valid_relative_record_name, is_valid_hostname, is_valid_fqdn, is_valid_domain,
}
use domudns.Dns.Label.Grammar.{IsName, is_valid_domain_iff}
use domudns.Dns.Record.{Record, RecordType, is_alias, is_cname}
use domudns.Dns.Validator.{
  validate_type, validate_record, validate_records, validate_zone, name_pairs, some_conflict,
}
use domudns.Dns.Validator.Zones.{named, validate_zone_sound}
use domudns.Dns.Zone.{Zone, Soa, Date}
use domudns.Tests.Samples.{parse_url, net, zone, record_of}

validating : Unit {0}
unfolding split join trim_suffix has_suffix lower_byte is_valid_label_char is_valid_label
    is_valid_relative_record_name is_valid_hostname is_valid_fqdn is_valid_domain validate_type
    validate_record validate_records validate_zone name_pairs some_conflict lookup
validating = tt

is_valid_domain_iff_example :
    (is_valid_domain (codes "example.com") ≡ true) ↔ IsName false (codes "example.com")
is_valid_domain_iff_example = is_valid_domain_iff (codes "example.com")

abbrev plain_zone : Zone
plain_zone = record zone { domain = codes "example.com" }

validate_zone_sound_example :
    (is_valid_domain plain_zone.domain ≡ true)
    × All (λ r. validate_record net parse_url r plain_zone.domain ≡ none) plain_zone.records
    × ((n : Text)
        → (named is_alias n plain_zone.records && named is_cname n plain_zone.records) ≡ false)
unfolding validating insert
validate_zone_sound_example = validate_zone_sound net parse_url plain_zone refl

abbrev pointer : Text → Record
pointer name = record_of name RecordType.ptr (codes "www.example.com")

abbrev may_first : Date
may_first = record { year = 2025; month = 5; day = 1 }

abbrev soa : Soa
soa = record {
  mname = codes "ns1.example.com";
  rname = codes "hostmaster.example.com";
  serial = 2025040107;
  refresh = 3600;
  retry = 1800;
  expire = 604800;
  minimum = 300;
}
