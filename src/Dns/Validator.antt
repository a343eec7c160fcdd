-- ===== src/Dns/Validator.antt =====
-- ValidateRecord and ValidateZone (internal/dns/validator.go). `none` is the nil error; an error
-- keeps what it is about and drops the text that is printed.
pub mod Records
pub mod Zones
use domudns.Prelude.{
  ℕ, zero, suc, ◌+◌, ◌-◌, ◌*◌, Bool, true, false, not, ◌&&◌, ◌||◌, List, [], ◌∷◌, length, Option,
  none, some, ltb, leb, ◌==◌, is_some, text_beq, text_eq, if◌then◌else◌,
}
use domudns.Prelude.Int.{ℤ, pos, negsuc, int_ltb, int_gtb}
use domudns.Assoc.{lookup, insert}
use domudns.Text.{
  Text, codes, comma, dot_text, has_suffix, split, to_lower, trim_space, trim_suffix,
}
use domudns.Net.{Ip, NetParsers}
use domudns.Dns.Label.{apex, is_valid_relative_record_name, is_valid_fqdn, is_valid_domain}
use domudns.Dns.Record.{Record, RecordType, is_alias, is_cname}
use domudns.Dns.Uri.{Url, is_valid_uri}
use domudns.Dns.Zone.{Zone}

pub data Error : Type 0 where
  zone_nil empty_domain invalid_domain empty_name invalid_label : Error
  zone_ttl override_negative override_low override_high alias_conflict : Error
  ttl_negative ttl_low unsupported_type invalid_ipv4 invalid_ipv6 : Error
  cname_at_apex dname_at_apex invalid_mx_priority txt_too_long empty_soa : Error
  srv_weight srv_port ptr_is_ip ptr_octet ptr_nibble : Error
  invalid_caa caa_tag caa_flags invalid_uri fwd_not_apex invalid_fwd : Error

abbrev pub min_record_ttl : ℕ
min_record_ttl = 300

-- `z < 0 || z > hi`
abbrev pub outside : ℤ → ℕ → Bool
outside z hi = int_ltb z 0 || int_gtb z hi

unfoldable pub digits_value : ℕ → Text → Option ℕ
digits_value n [] = some n
digits_value n (c ∷ s) =
    let rest = digits_value (n * 10 + (c - b'0')) s in
    if leb b'0' c && leb c b'9' then rest else none

unfoldable pub negate : ℕ → ℤ
negate zero = pos zero
negate (suc n) = negsuc n

-- strconv.Atoi without its limit: what does not fit an `int` is an error there, and here a number
-- that the caller refuses too.
unfoldable pub atoi : Text → Option ℤ
unfolding digits_value negate
atoi [] = none
atoi (c ∷ []) = elim (digits_value 0 (c ∷ [])) [ none ↦ none | some n ↦ some (pos n) ]
atoi (c ∷ d ∷ s) =
    if c == b'-'
    then elim (digits_value 0 (d ∷ s)) [ none ↦ none | some n ↦ some (negate n) ]
    else if c == b'+'
    then elim (digits_value 0 (d ∷ s)) [ none ↦ none | some n ↦ some (pos n) ]
    else elim (digits_value 0 (c ∷ d ∷ s)) [ none ↦ none | some n ↦ some (pos n) ]

unfoldable pub is_valid_ipv4_octet : Text → Bool
unfolding atoi
is_valid_ipv4_octet s = elim (atoi s) [ none ↦ false | some n ↦ not (outside n 255) ]

unfoldable pub is_valid_ipv6_nibble : Text → Bool
is_valid_ipv6_nibble [] = false
is_valid_ipv6_nibble (c ∷ []) = (leb b'0' c && leb c b'9') || (leb b'a' c && leb c b'f')
is_valid_ipv6_nibble (c ∷ d ∷ s) = false

abbrev pub is_caa_tag : Text → Bool
is_caa_tag tag =
    text_beq tag (codes "issue") || text_beq tag (codes "issuewild") || text_beq tag (codes "iodef")

-- `namePairs`: whether a name has an ALIAS and whether it has a CNAME
unfoldable pub name_pairs : List Record → List (Text × (Bool × Bool)) → List (Text × (Bool × Bool))
name_pairs [] pairs = pairs
name_pairs (r ∷ rs) pairs =
    let old : Bool × Bool = elim (lookup r.name pairs) [ none ↦ (false, false) | some p ↦ p ] in
    name_pairs rs (insert r.name (is_alias r || old.0, is_cname r || old.1) pairs)

unfoldable pub some_conflict : List (Text × (Bool × Bool)) → Bool
some_conflict [] = false
some_conflict ((n, p) ∷ pairs) = (p.0 && p.1) || some_conflict pairs

module _ (net : NetParsers) (parse_url : Text → Option Url) where
  -- one server of an FWD value: an address or a name, with a port or without
  unfoldable pub is_fwd_server : Text → Bool
  is_fwd_server part =
      let s = trim_space part in
      let host : Text = elim (net.split_host s) [ none ↦ s | some h ↦ h ] in
      is_some (net.parse_ip host) || is_valid_fqdn host

  unfoldable pub all_fwd_servers : List Text → Bool
  all_fwd_servers [] = true
  all_fwd_servers (s ∷ ss) =
      let rest = all_fwd_servers ss in if is_fwd_server s then rest else false

  -- `recordValidators[record.Type]`; a type that is not in the table is refused.
  unfoldable pub validate_type : RecordType → Record → Text → Option Error
  validate_type RecordType.a r zone = elim (net.parse_ip r.value) [
    | none ↦ some invalid_ipv4
    | some ip ↦ elim ip [ Ip.v4 n ↦ none | Ip.v6 n ↦ some invalid_ipv4 ]
  ]
  validate_type RecordType.aaaa r zone = elim (net.parse_ip r.value) [
    | none ↦ some invalid_ipv6
    | some ip ↦ elim ip [ Ip.v4 n ↦ some invalid_ipv6 | Ip.v6 n ↦ none ]
  ]
  validate_type RecordType.cname r zone =
      if text_beq r.name apex
      then some cname_at_apex
      else if not (is_valid_fqdn r.value)
      then some invalid_domain
      else none
  validate_type RecordType.mx r zone =
      if outside r.priority 65535
      then some invalid_mx_priority
      else if not (is_valid_fqdn r.value)
      then some invalid_domain
      else none
  validate_type RecordType.txt r zone = if ltb 255 (length r.value) then some txt_too_long else none
  validate_type RecordType.ns r zone =
      if not (is_valid_fqdn r.value) then some invalid_domain else none
  validate_type RecordType.soa r zone = if length r.value == 0 then some empty_soa else none
  validate_type RecordType.srv r zone =
      if outside r.priority 65535
      then some invalid_mx_priority
      else if outside r.weight 65535
      then some srv_weight
      else if outside r.port 65535
      then some srv_port
      else if not (is_valid_fqdn r.value)
      then some invalid_domain
      else none
  validate_type RecordType.ptr r zone =
      if is_some (net.parse_ip r.value)
      then some ptr_is_ip
      else if not (is_valid_fqdn r.value)
      then some invalid_domain
      else if (has_suffix zone (codes "in-addr.arpa") && not (text_beq r.name apex))
          && not (is_valid_ipv4_octet r.name)
      then some ptr_octet
      else if (has_suffix zone (codes "ip6.arpa") && not (text_beq r.name apex))
          && not (is_valid_ipv6_nibble r.name)
      then some ptr_nibble
      else none
  validate_type RecordType.caa r zone =
      if length r.value == 0
      then some invalid_caa
      else if not (is_caa_tag (to_lower (trim_space r.tag)))
      then some caa_tag
      else if outside r.priority 255
      then some caa_flags
      else if ltb 255 (length r.value)
      then some txt_too_long
      else none
  validate_type RecordType.dname r zone =
      if text_beq r.name apex
      then some dname_at_apex
      else if not (is_valid_fqdn r.value)
      then some invalid_domain
      else none
  validate_type RecordType.spf r zone = if ltb 255 (length r.value) then some txt_too_long else none
  validate_type RecordType.uri r zone =
      if outside r.priority 65535
      then some invalid_mx_priority
      else if (length r.value == 0) || not (is_valid_uri net.parse_ip parse_url r.value)
      then some invalid_uri
      else none
  validate_type RecordType.alias r zone =
      if not (is_valid_fqdn r.value) then some invalid_domain else none
  validate_type RecordType.fwd r zone =
      if not (text_beq r.name apex)
      then some fwd_not_apex
      else if length r.value == 0
      then some invalid_fwd
      else if not (all_fwd_servers (split r.value comma))
      then some invalid_fwd
      else none
  validate_type (RecordType.other t) r zone = some unsupported_type

  unfoldable pub validate_record : Record → Text → Option Error
  validate_record r zone =
      if length r.name == 0
      then some empty_name
      else if not (is_valid_relative_record_name r.name)
      then some invalid_label
      else if int_ltb r.ttl 0
      then some ttl_negative
      else if int_gtb r.ttl 0 && int_ltb r.ttl min_record_ttl
      then some ttl_low
      else validate_type r.rtype r zone

  unfoldable pub validate_records : List Record → Text → Option Error
  validate_records [] zone = none
  validate_records (r ∷ rs) zone =
      let rest = validate_records rs zone in
      elim (validate_record r zone) [ some e ↦ some e | none ↦ rest ]

  -- `none` is the nil zone.
  unfoldable pub validate_zone : Option Zone → Option Error
  validate_zone none = some zone_nil
  validate_zone (some z) =
      if length z.domain == 0
      then some empty_domain
      else if not (is_valid_domain z.domain)
      then some invalid_domain
      else if int_gtb z.ttl 0 && int_ltb z.ttl 300
      then some zone_ttl
      else if int_ltb z.ttl_override 0
      then some override_negative
      else if int_gtb z.ttl_override 0 && int_ltb z.ttl_override 60
      then some override_low
      else if int_gtb z.ttl_override 604800
      then some override_high
      else if some_conflict (name_pairs z.records [])
      then some alias_conflict
      else validate_records z.records z.domain
