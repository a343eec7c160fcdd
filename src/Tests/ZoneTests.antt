-- ===== src/Tests/ZoneTests.antt =====
-- The zones: which one answers, with what.
use domudns.Prelude.{
  ◌≡◌, refl, true, false, not, ◌&&◌, [], ◌∷◌, none, some, is_some, length, ◌==◌, ltb, text_beq,
  arith, if◌then◌else◌,
}
use domudns.Assoc.{lookup}
use domudns.Text.{Text, codes, split, join, normalize_name, trim_suffix, has_suffix, lower_byte}
use domudns.Mdns.{
  Rr, Rdata, class_inet, type_cname, type_a, type_mx, rcode_name_error, rcode_success,
}
use domudns.Dns.Label.{apex}
use domudns.Zones.{find_zone, find_by_name, find_parent}
use domudns.Zones.Find.{IsZoneOf, find_zone-IsLongest}
use domudns.Zones.Match.{scan_record, match_zone_records, rec_name, has_type}
use domudns.Zones.Match.Rules.{chosen, match_zone_records-chosen}
use domudns.Dns.CharClass.{is_valid_label_char}
use domudns.Dns.Label.{
  is_valid_label, is_valid_relative_record_name, is_valid_hostname, is_valid_fqdn,
}
use domudns.Dns.Validator.{validate_type, validate_record}
use domudns.Net.{v4, octets}
use domudns.Zones.Chain.{follow, chain_from, zone_fqdn}
use domudns.Zones.Chain.Path.{Ends, follow-Ends}
use domudns.Zones.Chain.Seen.{HasTrail, follow-HasTrail}
use domudns.Zones.Response.{generate_response, answer_part}
use domudns.Zones.Response.NameError.{name_known, name_error_iff}
use domudns.Zones.Rr.{record_to_rr, records_to_rrs, is_soa}
use domudns.Zones.Rr.Wire.{IsOwner, is_served, NumbersKept, accepted_is_served, accepted_on_wire}
use domudns.Tests.Samples.{
  lib, parse_ip, parse_url, net, zone, manager, mail, ask, blank, type_name,
}

texts : Unit {0}
unfolding split join normalize_name trim_suffix has_suffix lower_byte
texts = tt

zones : Unit {0}
unfolding texts lookup find_by_name find_parent find_zone
zones = tt

-- What ValidateRecord computes with.
accepting : Unit {0}
unfolding texts is_valid_label_char is_valid_label is_valid_relative_record_name is_valid_hostname
    is_valid_fqdn validate_type validate_record
accepting = tt

abbrev mail_rr : Rr
mail_rr = record {
  hdr = record {
    name = codes "mail.Example.com.";
    rrtype = type_mx;
    class = class_inet;
    ttl = 300;
  };
  rdata = Rdata.mx 10 (codes "www.example.com.");
}

-- A CNAME of the zone is chased to the address behind it.
chased :
    (generate_response lib parse_ip blank
      (ask (codes "shop.example.com.") type_a)
      zone
      (codes "shop")).msg.answer
    ≡ record {
      hdr = record { name = codes "shop.Example.com."; rrtype = type_cname; class = 1; ttl = 300 };
      rdata = Rdata.cname (codes "www.example.com.");
    }
      ∷ record {
        hdr = record { name = codes "www.Example.com."; rrtype = type_a; class = 1; ttl = 300 };
        rdata = Rdata.a (v4 (octets 192 168 1 7));
      }
      ∷ []
unfolding texts generate_response answer_part match_zone_records scan_record rec_name has_type
    records_to_rrs record_to_rr zone_fqdn follow chain_from
chased = refl

abbrev upper : Text
upper = codes "WWW.Example.COM."

found_www : find_zone manager [] upper ≡ some (zone, codes "www")
unfolding zones
found_www = refl

found_apex : find_zone manager [] (codes "example.com") ≡ some (zone, codes "@")
unfolding zones
found_apex = refl

not_found : find_zone manager [] (codes "example.org") ≡ none
unfolding zones
not_found = refl

find_zone-IsLongest_example : IsZoneOf manager [] upper (find_zone manager [] upper)
find_zone-IsLongest_example = find_zone-IsLongest manager [] upper

match_zone_records-chosen_example :
    match_zone_records type_name (codes "www") type_a zone.records
    ≡ chosen type_name (codes "www") type_a zone.records
match_zone_records-chosen_example =
    match_zone_records-chosen type_name (codes "www") type_a zone.records

name_error_iff_example :
    ((generate_response lib parse_ip blank
        (ask (codes "a.b.example.com.") type_a)
        zone
        (codes "a.b")).msg.rcode
      ≡ (if not (text_beq (codes "a.b") apex) && not (name_known lib parse_ip zone (codes "a.b"))
          then rcode_name_error
          else rcode_success))
    × (((generate_response lib parse_ip blank
              (ask (codes "a.b.example.com.") type_a)
              zone
              (codes "a.b")).msg.rcode
            == rcode_name_error
          && not (
              length
                (generate_response lib parse_ip blank
                  (ask (codes "a.b.example.com.") type_a)
                  zone
                  (codes "a.b")).msg.answer
              == 0))
        ≡ false)
    × ((generate_response lib parse_ip blank
          (ask (codes "a.b.example.com.") type_a)
          zone
          (codes "a.b")).msg.authoritative
        ≡ true)
name_error_iff_example =
    name_error_iff lib parse_ip blank (ask (codes "a.b.example.com.") type_a) zone (codes "a.b")

follow-Ends_example :
    Ends lib parse_ip zone type_a
      (codes "shop.example.com")
      (follow lib parse_ip zone type_a 8 (codes "shop.example.com") [])
follow-Ends_example = follow-Ends lib parse_ip zone type_a 8 (codes "shop.example.com") []

follow-HasTrail_example :
    HasTrail lib parse_ip zone type_a 8 []
      (follow lib parse_ip zone type_a 8 (codes "shop.example.com") [])
follow-HasTrail_example = follow-HasTrail lib parse_ip zone type_a 8 (codes "shop.example.com") []

accepted_is_served_example :
    is_some (record_to_rr lib parse_ip zone mail (codes "mail"))
    ≡ is_served mail.rtype mail (text_beq (codes "mail") apex)
unfolding accepting
accepted_is_served_example =
    accepted_is_served lib net parse_url mail (codes "example.com") zone (codes "mail") refl

accepted_on_wire_example :
    NumbersKept mail.rtype mail mail_rr
    × (mail_rr.hdr.class ≡ class_inet)
    × IsOwner lib zone (codes "mail") mail_rr.hdr.name
    × (mail_rr.hdr.ttl
        ≡ (if ltb 0 0 && not (is_soa mail.rtype) then 0 else if 300 == 0 then 3600 else 300))
unfolding accepting record_to_rr texts
accepted_on_wire_example =
    accepted_on_wire lib net parse_url mail (codes "example.com") zone (codes "mail") mail_rr 0 300
      refl refl refl (omega arith) refl (omega arith)
