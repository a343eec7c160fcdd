-- ===== src/Zones/Match/Exact.antt =====
-- The precedence of exact names over wildcards (RFC 1034, section 4.3.3).
use domudns.Prelude.{
  ℕ, ◌≡◌, Bool, true, false, List, [], select-All_of, select-none, All, All-append, any, text_beq,
  if◌then◌else◌, arith,
}
use domudns.Text.{Text, dot, contains_byte}
use domudns.Dns.Label.{apex}
use domudns.Dns.Record.{Record}
use domudns.Zones.Match.{Matched, star, rec_name, is_cname_or_any, match_zone_records}
use domudns.Zones.Match.Rules

-- Every record of an outcome satisfies a predicate.
abbrev pub Everywhere : (Record → Type 0) → Matched → Type 0
Everywhere P m = All P m.matched × All P m.cname × All P m.alias

module _ (type_to_string : ℕ → Text) (sub : Text) (qtype : ℕ)
    (below : text_beq sub apex ≡ false) where
  abbrev At : Record → Type 0
  At r = text_beq (rec_name r) sub ≡ true

  abbrev Star : Record → Type 0
  Star r = (text_beq (rec_name r) star ≡ true) × (contains_byte sub dot ≡ false)

  -- Where a record of the zone stands at the queried name itself, all that matchZoneRecords selects
  -- stands at that name, whatever wildcards the zone has.
  pub exact_wins :
      (rs : List Record)
      → any (λ r. text_beq (rec_name r) sub) rs ≡ true
      → Everywhere
          (λ r. text_beq (rec_name r) sub ≡ true)
          (match_zone_records type_to_string sub qtype rs)
  exact_wins rs h =
      rw (Rules.match_zone_records-chosen type_to_string sub qtype rs, below, h)
        (
          select-All_of At (Rules.matches type_to_string sub qtype) (λ r e. ground arith) rs,
          select-All_of At (Rules.chases type_to_string sub qtype) (λ r e. ground arith) rs,
          select-All_of At (Rules.aliases type_to_string sub qtype) (λ r e. ground arith) rs,
        )

  -- Where no record of the zone stands at the queried name, all that matchZoneRecords selects are
  -- `*` records, and it selects one only for a name of one label.
  pub star_otherwise :
      (rs : List Record)
      → any (λ r. text_beq (rec_name r) sub) rs ≡ false
      → Everywhere
          (λ r. (text_beq (rec_name r) star ≡ true) × (contains_byte sub dot ≡ false))
          (match_zone_records type_to_string sub qtype rs)
  star_otherwise rs h =
      let none_of = λ (q : Record → Bool) (imp : (r : Record) → q r ≡ true → At r).
        select-none (λ r. text_beq (rec_name r) sub) q imp rs h in
      let starred = λ (q : Record → Bool) (imp : (r : Record) → q r ≡ true → Star r).
        select-All_of Star q imp rs in
      rw
        (
          Rules.match_zone_records-chosen type_to_string sub qtype rs,
          below,
          h,
          none_of (Rules.matches type_to_string sub qtype) (λ r e. ground arith),
          none_of (Rules.chases type_to_string sub qtype) (λ r e. ground arith),
          none_of (Rules.aliases type_to_string sub qtype) (λ r e. ground arith),
        )
        (
          All-append Star _ _
              (with_cname (is_cname_or_any qtype) _
                (starred (Rules.wild_cname type_to_string sub qtype) (λ r e. ground arith)))
              (starred (Rules.wild type_to_string sub qtype) (λ r e. ground arith)),
          starred (Rules.wild_cname type_to_string sub qtype) (λ r e. ground arith),
          starred (Rules.wild_alias type_to_string sub qtype) (λ r e. ground arith),
        )
    where
      with_cname : (b : Bool) (l : List Record) → All Star l → All Star (if b then l else [])
      with_cname true l a = a
      with_cname false l a = tt
