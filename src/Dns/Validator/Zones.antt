-- ===== src/Dns/Validator/Zones.antt =====
-- What ValidateZone guarantees of the records of a zone taken together.
use domudns.Prelude.{
  ◌≡◌, refl, Bool, true, false, ◌&&◌, ◌||◌, List, [], ◌∷◌, Option, none, some, All, text_eq,
  text_beq, text_beq_iff, arith,
}
use domudns.Assoc.{lookup, insert, lookup-insert}
use domudns.Text.{Text}
use domudns.Net.{NetParsers}
use domudns.Dns.Label.{is_valid_domain}
use domudns.Dns.Record.{Record, is_alias, is_cname}
use domudns.Dns.Uri.{Url}
use domudns.Dns.Zone.{Zone}
use domudns.Dns.Validator.{
  validate_record, validate_records, validate_zone, name_pairs, some_conflict,
}

abbrev Pairs : Type 0
Pairs = List (Text × (Bool × Bool))

-- Whether some record of a name passes a test.
abbrev pub named : (Record → Bool) → Text → List Record → Bool
named p n [] = false
named p n (r ∷ rs) = (text_beq r.name n && p r) || named p n rs

abbrev flag_of : Option (Bool × Bool) → Bool × Bool
flag_of none = (false, false)
flag_of (some p) = p

-- The table holds, for each name, whether a record so far is an ALIAS, and whether one is a CNAME.
name_pairs-named :
    (rs : List Record) (pairs : Pairs) (n : Text)
    → ((flag_of (lookup n (name_pairs rs pairs))).0
        ≡ (named is_alias n rs || (flag_of (lookup n pairs)).0))
      × ((flag_of (lookup n (name_pairs rs pairs))).1
          ≡ (named is_cname n rs || (flag_of (lookup n pairs)).1))
unfolding name_pairs
name_pairs-named [] pairs n = (refl, refl)
name_pairs-named (r ∷ rs) pairs n =
    let old : Bool × Bool = elim (lookup r.name pairs) [ none ↦ (false, false) | some p ↦ p ] in
    let next = insert r.name (is_alias r || old.0, is_cname r || old.1) pairs in
    ground (
      arith,
      text_beq_iff r.name n,
      name_pairs-named rs next n,
      lookup-insert r.name n (is_alias r || old.0, is_cname r || old.1) pairs,
    )

no_conflict :
    (pairs : Pairs) (n : Text)
    → some_conflict pairs ≡ false
    → ((flag_of (lookup n pairs)).0 && (flag_of (lookup n pairs)).1) ≡ false
unfolding some_conflict lookup
no_conflict [] n h = refl
no_conflict ((m, p) ∷ pairs) n h = ground (arith, no_conflict pairs n)

module _ (net : NetParsers) (parse_url : Text → Option Url) where
  validate_records-All :
      (rs : List Record) (zone : Text)
      → validate_records net parse_url rs zone ≡ none
      → All (λ r. validate_record net parse_url r zone ≡ none) rs
  unfolding validate_records
  validate_records-All [] zone h = tt
  validate_records-All (r ∷ rs) zone h = (ground arith, validate_records-All rs zone (ground arith))

  -- A zone that ValidateZone accepts has a valid domain, every record of it passes ValidateRecord
  -- in that domain, and no name has both an ALIAS and a CNAME.
  pub validate_zone_sound :
      (z : Zone)
      → validate_zone net parse_url (some z) ≡ none
      → (is_valid_domain z.domain ≡ true)
        × All (λ r. validate_record net parse_url r z.domain ≡ none) z.records
        × ((n : Text) → (named is_alias n z.records && named is_cname n z.records) ≡ false)
  unfolding validate_zone lookup
  validate_zone_sound z h = (
    ground arith,
    validate_records-All z.records z.domain (ground arith),
    λ n. ground (arith, name_pairs-named z.records [] n, no_conflict (name_pairs z.records []) n),
  )
