-- ===== src/Dns/Validator/Records.antt =====
-- What ValidateRecord guarantees of a record that it accepts.
use domudns.Prelude.{
  ℕ, ◌≤◌, ◌≡◌, ◌≢◌, ◌⊎◌, refl, true, false, ◌&&◌, length, Option, Option-cases, inl, inr, none,
  some, text_beq_iff, arith,
}
use domudns.Prelude.Int.{ℤ, pos, negsuc, int_ltb, int_gtb, InRange}
use domudns.Text.{Text}
use domudns.Net.{NetParsers, v4, v6}
use domudns.Dns.Label.{apex, is_valid_relative_record_name, is_valid_fqdn}
use domudns.Dns.Record.{Record, RecordType}
use domudns.Dns.Uri.{Url}
use domudns.Dns.Validator.{outside, min_record_ttl, validate_type, validate_record}

pub inside : (z : ℤ) (hi : ℕ) → outside z hi ≡ false → InRange 0 hi z
inside (pos n) hi h = (n, refl, omega arith, ground arith)
inside (negsuc n) hi h = absurd (ground arith)

-- The fields that a record's type bounds, and where the record may stand.
abbrev pub TypeRules : NetParsers → RecordType → Record → Type 0
TypeRules net RecordType.cname r = (r.name ≢ apex) × (is_valid_fqdn r.value ≡ true)
TypeRules net RecordType.dname r = (r.name ≢ apex) × (is_valid_fqdn r.value ≡ true)
TypeRules net RecordType.fwd r = (r.name ≡ apex) × (1 ≤ length r.value)
TypeRules net RecordType.mx r = InRange 0 65535 r.priority × (is_valid_fqdn r.value ≡ true)
TypeRules net RecordType.srv r =
    InRange 0 65535 r.priority
    × InRange 0 65535 r.weight
    × InRange 0 65535 r.port
    × (is_valid_fqdn r.value ≡ true)
TypeRules net RecordType.caa r =
    InRange 0 255 r.priority × (1 ≤ length r.value) × (length r.value ≤ 255)
TypeRules net RecordType.uri r = InRange 0 65535 r.priority × (1 ≤ length r.value)
TypeRules net RecordType.txt r = length r.value ≤ 255
TypeRules net RecordType.spf r = length r.value ≤ 255
TypeRules net RecordType.soa r = 1 ≤ length r.value
TypeRules net (RecordType.other t) r = ⊥
TypeRules net RecordType.a r = (n : ℕ) × (net.parse_ip r.value ≡ some (v4 n))
TypeRules net RecordType.aaaa r = (n : ℕ) × (net.parse_ip r.value ≡ some (v6 n))
TypeRules net RecordType.ns r = is_valid_fqdn r.value ≡ true
TypeRules net RecordType.alias r = is_valid_fqdn r.value ≡ true
TypeRules net RecordType.ptr r = (net.parse_ip r.value ≡ none) × (is_valid_fqdn r.value ≡ true)

abbrev pub AcceptedTtl : ℤ → Type 0
AcceptedTtl z = (n : ℕ) × (z ≡ pos n) × ((n ≡ 0) ⊎ (min_record_ttl ≤ n))

accepted_ttl :
    (z : ℤ)
    → int_ltb z 0 ≡ false
    → (int_gtb z 0 && int_ltb z min_record_ttl) ≡ false
    → AcceptedTtl z
accepted_ttl (pos n) h k = (n, refl, ground arith)
accepted_ttl (negsuc n) h k = absurd (ground arith)

module _ (net : NetParsers) (parse_url : Text → Option Url) where
  address_v4 :
      (r : Record) (zone : Text)
      → validate_type net parse_url RecordType.a r zone ≡ none
      → (n : ℕ) × (net.parse_ip r.value ≡ some (v4 n))
  unfolding validate_type
  address_v4 r zone h = elim (Option-cases (net.parse_ip r.value)) [
    | inl missing ↦ absurd (ground arith)
    | inr (v4 n, found) ↦ (n, found)
    | inr (v6 n, found) ↦ absurd (ground arith)
  ]

  address_v6 :
      (r : Record) (zone : Text)
      → validate_type net parse_url RecordType.aaaa r zone ≡ none
      → (n : ℕ) × (net.parse_ip r.value ≡ some (v6 n))
  unfolding validate_type
  address_v6 r zone h = elim (Option-cases (net.parse_ip r.value)) [
    | inl missing ↦ absurd (ground arith)
    | inr (v4 n, found) ↦ absurd (ground arith)
    | inr (v6 n, found) ↦ (n, found)
  ]

  no_address :
      (r : Record) (zone : Text)
      → validate_type net parse_url RecordType.ptr r zone ≡ none
      → net.parse_ip r.value ≡ none
  unfolding validate_type
  no_address r zone h = elim (Option-cases (net.parse_ip r.value)) [
    | inl missing ↦ missing
    | inr (ip, found) ↦ absurd (ground arith)
  ]

  type_rules :
      (t : RecordType) (r : Record) (zone : Text)
      → validate_type net parse_url t r zone ≡ none
      → TypeRules net t r
  unfolding validate_type
  type_rules RecordType.a r zone h = address_v4 r zone h
  type_rules RecordType.cname r zone h = ground (arith, text_beq_iff r.name apex)
  type_rules RecordType.dname r zone h = ground (arith, text_beq_iff r.name apex)
  type_rules RecordType.fwd r zone h = ground (arith, text_beq_iff r.name apex)
  type_rules RecordType.mx r zone h = (inside r.priority 65535 (ground arith), ground arith)
  type_rules RecordType.srv r zone h = (
    inside r.priority 65535 (ground arith),
    inside r.weight 65535 (ground arith),
    inside r.port 65535 (ground arith),
    ground arith,
  )
  type_rules RecordType.caa r zone h =
      (inside r.priority 255 (ground arith), ground arith, ground arith)
  type_rules RecordType.uri r zone h = (inside r.priority 65535 (ground arith), ground arith)
  type_rules RecordType.txt r zone h = ground arith
  type_rules RecordType.spf r zone h = ground arith
  type_rules RecordType.soa r zone h = ground arith
  type_rules (RecordType.other t) r zone h = cc
  type_rules RecordType.aaaa r zone h = address_v6 r zone h
  type_rules RecordType.ns r zone h = ground arith
  type_rules RecordType.ptr r zone h = (no_address r zone h, ground arith)
  type_rules RecordType.alias r zone h = ground arith

  -- A record that ValidateRecord accepts has a valid relative name and a TTL of 0 or at least 300,
  -- and keeps the rules of its type: CNAME and DNAME never stand at the apex and FWD only there, the
  -- numbers of MX, SRV, CAA and URI fit their fields on the wire, texts have at most 255 bytes, the
  -- value of A and AAAA is an address of its family, a PTR points to a host name and no address, the
  -- targets of CNAME, DNAME, MX, SRV, NS and ALIAS are host names, and no type outside the table passes.
  pub validate_record_sound :
      (r : Record) (zone : Text)
      → validate_record net parse_url r zone ≡ none
      → (is_valid_relative_record_name r.name ≡ true) × AcceptedTtl r.ttl × TypeRules net r.rtype r
  unfolding validate_record
  validate_record_sound r zone h = (
    ground arith,
    accepted_ttl r.ttl (ground arith) (ground arith),
    type_rules r.rtype r zone (ground arith),
  )
