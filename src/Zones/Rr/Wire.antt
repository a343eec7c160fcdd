-- ===== src/Zones/Rr/Wire.antt =====
-- What a record that passed validation looks like on the wire.
use domudns.Prelude.{
  ℕ, ◌^◌, ◌<◌, ◌≡◌, ◌≢◌, ◌⊎◌, inl, inr, Bool-cases, text_beq_iff, ◌∷◌, ◌++◌, refl, ◌∙◌, Bool, true,
  false, not, ◌&&◌, length, Option, none, some, is_some, ltb, leb, ◌==◌, text_beq, if◌then◌else◌,
  arith,
}
use domudns.Prelude.Int.{ℤ, pos}
use native.Mathlib.Nat.{mod-eq_of_lt}
use domudns.Text.{Text, codes, dot}
use domudns.Net.{NetParsers}
use domudns.Mdns.{Mdns, Rr, Rdata, Header, class_inet}
use domudns.Dns.Label.{apex}
use domudns.Dns.Record.{Record, RecordType}
use domudns.Dns.Uri.{Url}
use domudns.Dns.Validator.{validate_record, validate_type}
use domudns.Dns.Validator.Records.{TypeRules, validate_record_sound}
use domudns.Dns.Zone.{Zone}
use domudns.Zones.Rr.{owner_name, wrap, fields, build_rr, record_to_rr, answer_ttl, is_soa}

-- The accepted records that are served at a name below the apex or at it.
abbrev pub is_served : RecordType → Record → Bool → Bool
is_served RecordType.cname r at_apex = not at_apex
is_served RecordType.soa r at_apex = leb 7 (length (fields r.value))
is_served RecordType.fwd r at_apex = false
is_served RecordType.alias r at_apex = false
is_served RecordType.spf r at_apex = false
is_served RecordType.uri r at_apex = false
is_served (RecordType.other t) r at_apex = false
is_served _ r at_apex = true

-- The numbers of a record as they are stored.
abbrev pub NumbersKept : RecordType → Record → Rr → Type 0
NumbersKept RecordType.mx r rr =
    (p : ℕ) × (target : Text) × (r.priority ≡ pos p) × (rr.rdata ≡ Rdata.mx p target)
NumbersKept RecordType.srv r rr =
    (p w q : ℕ) × (target : Text) × (r.priority ≡ pos p)
    × (r.weight ≡ pos w)
    × (r.port ≡ pos q)
    × (rr.rdata ≡ Rdata.srv p w q target)
NumbersKept RecordType.caa r rr =
    (p : ℕ) × (r.priority ≡ pos p) × (rr.rdata ≡ Rdata.caa p r.tag r.value)
NumbersKept _ r rr = Unit

-- The owner of a record: the zone's domain for "@", and otherwise the name below it, both with the
-- dot at the end that dns.Fqdn adds.
abbrev pub IsOwner : Mdns → Zone → Text → Text → Type 0
IsOwner lib zone sub owner =
    ((sub ≡ codes "@") × (owner ≡ lib.fqdn zone.domain))
    ⊎ ((sub ≢ codes "@") × (owner ≡ lib.fqdn (sub ++ (dot ∷ zone.domain))))

wrap_small : (m n : ℕ) (z : ℤ) → z ≡ pos n → n < m → wrap m z ≡ n
wrap_small m n z e h = rw e (mod-eq_of_lt h)

module _ (lib : Mdns) (net : NetParsers) (parse_url : Text → Option Url) where
  build_served :
      (t : RecordType) (h : Header) (r : Record) (zone : Text) (at_apex : Bool)
      → validate_type net parse_url t r zone ≡ none
      → is_some (build_rr lib net.parse_ip t h r at_apex) ≡ is_served t r at_apex
  unfolding validate_type build_rr
  build_served RecordType.a h r zone at_apex v = ground arith
  build_served RecordType.aaaa h r zone at_apex v = ground arith
  build_served RecordType.cname h r zone at_apex v = ground arith
  build_served RecordType.soa h r zone at_apex v = ground arith
  build_served _ h r zone at_apex v = refl

  -- A record that ValidateRecord accepts is turned into a resource record unless its type is FWD,
  -- ALIAS, SPF or URI, or it is a CNAME asked for at the apex or a SOA of fewer than seven fields:
  -- then, and only then, nothing of it is served.
  pub accepted_is_served :
      (r : Record) (domain : Text) (zone : Zone) (sub : Text)
      → validate_record net parse_url r domain ≡ none
      → is_some (record_to_rr lib net.parse_ip zone r sub) ≡ is_served r.rtype r (text_beq sub apex)
  unfolding validate_record record_to_rr
  accepted_is_served r domain zone sub v = build_served r.rtype _ r domain _ (ground arith)

  numbers_kept :
      (t : RecordType) (h : Header) (r : Record) (at_apex : Bool) (rr : Rr)
      → TypeRules net t r
      → build_rr lib net.parse_ip t h r at_apex ≡ some rr
      → NumbersKept t r rr
  unfolding build_rr
  numbers_kept RecordType.mx h r at_apex rr rules b =
      let p = rules.0.0 in
      (
        p,
        lib.fqdn r.value,
        rules.0.1,
        ground (arith, wrap_small (2 ^ 16) p r.priority rules.0.1 (omega arith)),
      )
  numbers_kept RecordType.srv h r at_apex rr rules b =
      let p = rules.0.0 in
      let w = rules.1.0 in
      let q = rules.2.0 in
      (
        p,
        w,
        q,
        lib.fqdn r.value,
        rules.0.1,
        rules.1.1,
        rules.2.1,
        ground (
          arith,
          wrap_small (2 ^ 16) p r.priority rules.0.1 (omega arith),
          wrap_small (2 ^ 16) w r.weight rules.1.1 (omega arith),
          wrap_small (2 ^ 16) q r.port rules.2.1 (omega arith),
        ),
      )
  numbers_kept RecordType.caa h r at_apex rr rules b =
      let p = rules.0.0 in
      (p, rules.0.1, ground (arith, wrap_small (2 ^ 8) p r.priority rules.0.1 (omega arith)))
  numbers_kept _ h r at_apex rr rules b = tt

  header_kept :
      (t : RecordType) (h : Header) (r : Record) (at_apex : Bool) (rr : Rr)
      → build_rr lib net.parse_ip t h r at_apex ≡ some rr
      → (rr.hdr.ttl ≡ h.ttl) × (rr.hdr.class ≡ h.class) × (rr.hdr.name ≡ h.name)
  unfolding build_rr
  header_kept RecordType.a h r at_apex rr b = ground arith
  header_kept RecordType.aaaa h r at_apex rr b = ground arith
  header_kept RecordType.cname h r at_apex rr b = ground arith
  header_kept RecordType.soa h r at_apex rr b = ground arith
  header_kept _ h r at_apex rr b = ground arith

  owner :
      (zone : Zone) (sub name : Text)
      → name ≡ owner_name lib net.parse_ip zone sub
      → IsOwner lib zone sub name
  owner zone sub name e = elim (Bool-cases (text_beq sub apex)) [
    | inl at_apex ↦ inl ((text_beq_iff sub apex).0 at_apex, e ∙ rw at_apex refl)
    | inr below ↦ inr (ground (arith, text_beq_iff sub apex), e ∙ rw below refl)
  ]

  ttl_rule :
      (r : Record) (zone : Zone) (o n : ℕ)
      → zone.ttl_override ≡ pos o
      → o < 2 ^ 32
      → r.ttl ≡ pos n
      → n < 2 ^ 32
      → answer_ttl zone r
        ≡ (if ltb 0 o && not (is_soa r.rtype) then o else if n == 0 then 3600 else n)
  unfolding answer_ttl
  ttl_rule r zone o n p ho q hn =
      ground (arith, wrap_small (2 ^ 32) o zone.ttl_override p ho, wrap_small (2 ^ 32) n r.ttl q hn)

  -- The resource record of an accepted record is of class IN and owned by the zone's domain, if it is
  -- asked for at "@", and by the name below the domain otherwise, and an
  -- MX, SRV or CAA record carries the stored numbers, with none cut to the width of its field. Its
  -- TTL, where the stored TTL `n` and the zone's override `o` fit 32 bits, is the override if there
  -- is one and the type is not SOA, else 3600 for a stored 0, else the stored TTL.
  pub accepted_on_wire :
      (r : Record) (domain : Text) (zone : Zone) (sub : Text) (rr : Rr) (o n : ℕ)
      → validate_record net parse_url r domain ≡ none
      → record_to_rr lib net.parse_ip zone r sub ≡ some rr
      → zone.ttl_override ≡ pos o
      → o < 2 ^ 32
      → r.ttl ≡ pos n
      → n < 2 ^ 32
      → NumbersKept r.rtype r rr
        × (rr.hdr.class ≡ class_inet)
        × IsOwner lib zone sub rr.hdr.name
        × (rr.hdr.ttl ≡ (if ltb 0 o && not (is_soa r.rtype) then o else if n == 0 then 3600 else n))
  unfolding record_to_rr
  accepted_on_wire r domain zone sub rr o n v b p ho q hn =
      let (ttl, class, name) = header_kept r.rtype _ r (text_beq sub apex) rr b in
      (
        numbers_kept r.rtype _ r (text_beq sub apex) rr
            (validate_record_sound net parse_url r domain v).2 b,
        class,
        owner zone sub rr.hdr.name name,
        ttl ∙ ttl_rule r zone o n p ho q hn,
      )
