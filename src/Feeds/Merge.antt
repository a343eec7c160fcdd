-- ===== src/Feeds/Merge.antt =====
-- What is left of a list of blocked names, and what a parsed list holds.
use domudns.Prelude.{
  ◌≡◌, refl, ap, Bool, false, not, ◌||◌, ◌&&◌, List, [], ◌∷◌, ◌++◌, any, All, All-append, length,
  ◌==◌, text_beq, text_beq_iff, arith, Option, Option-cases, Bool-cases, inl, inr,
}
use domudns.Text.{Text, codes, dot, has_prefix, has_suffix, trim_space}
use domudns.Zones.Rr.{fields}
use domudns.Dns.Label.{normalize_domain}
use domudns.Feeds.{
  add_domain, add_domains, add_fields, add_line, allowed_set, is_allowed, member, merge, merge_from,
  normalize_name_or_none, parse_lines,
}

-- Some entry of the list has this normal form.
abbrev pub names : Text → List Text → Bool
names d list = any (λ x. text_beq (normalize_domain x) d) list

merged :
    (d : Text) (blocked allowed : List Text)
    → member d (merge_from blocked allowed)
      ≡ (names d blocked && (not (length d == 0) && not (is_allowed d allowed)))
unfolding merge_from
merged d [] allowed = refl
merged d (b ∷ blocked) allowed = ground (
  arith,
  merged d blocked allowed,
  text_beq_iff (normalize_domain b) d,
  ap (λ t. is_allowed t allowed),
  ap {A = Text} (λ t. length t == 0),
)

covered :
    (d : Text) (allowed : List Text)
    → is_allowed d (allowed_set allowed)
      ≡ any
          (λ a.
            not (length (normalize_domain a) == 0)
            && (text_beq d (normalize_domain a) || has_suffix d (dot ∷ normalize_domain a)))
          allowed
unfolding is_allowed allowed_set
covered d [] = refl
covered d (a ∷ allowed) = ground (
  arith,
  covered d allowed,
  text_beq_iff (normalize_domain a) d,
  text_beq_iff d (normalize_domain a),
)

-- Merge keeps a name exactly when it is the normal form of a blocked entry, is not empty, and is
-- neither the normal form of an allowed entry nor a name below one.
pub merge-allowed :
    (d : Text) (blocked allowed : List Text)
    → member d (merge blocked allowed) ≡ (
        names d blocked
        && (not (length d == 0)
            && not (
                any
                  (λ a.
                    not (length (normalize_domain a) == 0)
                    && (text_beq d (normalize_domain a) || has_suffix d (dot ∷ normalize_domain a)))
                  allowed)))
unfolding merge
merge-allowed d blocked allowed =
    ground (arith, merged d blocked (allowed_set allowed), covered d allowed)

-- No name of the list stands behind itself.
abbrev pub Apart : List Text → Type 0
Apart [] = Unit
Apart (d ∷ ds) = (member d ds ≡ false) × Apart ds

-- A name that a list of blocked names may hold.
abbrev pub IsBlockable : Text → Type 0
IsBlockable d = ((length d == 0) ≡ false) × (text_beq d (codes "localhost") ≡ false)

member-append :
    (d e : Text) (ds : List Text) → member d (ds ++ e ∷ []) ≡ (member d ds || text_beq e d)
member-append d e [] = ground arith
member-append d e (x ∷ ds) = ground (arith, member-append d e ds)

Apart-append : (d : Text) (ds : List Text) → Apart ds → member d ds ≡ false → Apart (ds ++ d ∷ [])
Apart-append d [] a h = (refl, tt)
Apart-append d (e ∷ ds) (new, a) h =
    ground (arith, member-append e d ds, text_beq_iff e d, text_beq_iff d e, Apart-append d ds a)

abbrev pub IsParsed : List Text → Type 0
IsParsed domains = Apart domains × All IsBlockable domains

normalized-IsBlockable :
    (t : Text)
    → (length (normalize_name_or_none t) == 0) ≡ false
    → IsBlockable (normalize_name_or_none t)
unfolding normalize_name_or_none
normalized-IsBlockable t h =
    elim (Bool-cases
      ((length (normalize_domain t) == 0) || text_beq (normalize_domain t) (codes "localhost"))) [
        | inl dropped ↦ absurd (ground arith)
        | inr kept ↦ ground arith
      ]

add_domain-IsParsed :
    (domains : List Text) (t : Text) → IsParsed domains → IsParsed (add_domain domains t)
unfolding add_domain
add_domain-IsParsed domains t (apart, fine) =
    let d = normalize_name_or_none t in
    elim (Bool-cases ((length d == 0) || member d domains)) [
      | inl known ↦ rw (known, add_domain) (apart, fine)
      | inr new ↦
          rw (new, add_domain)
            (
              Apart-append d domains apart (ground arith),
              All-append IsBlockable domains (d ∷ []) (normalized-IsBlockable t (ground arith), tt)
                  fine,
            )
    ]

add_domains-IsParsed :
    (domains ts : List Text) → IsParsed domains → IsParsed (add_domains domains ts)
unfolding add_domains
add_domains-IsParsed domains [] good = good
add_domains-IsParsed domains (t ∷ ts) good =
    add_domains-IsParsed (add_domain domains t) ts (add_domain-IsParsed domains t good)

add_fields-IsParsed : (domains fs : List Text) → IsParsed domains → IsParsed (add_fields domains fs)
unfolding add_fields
add_fields-IsParsed domains [] good = good
add_fields-IsParsed domains (f ∷ []) good = add_domain-IsParsed domains f good
add_fields-IsParsed domains (f ∷ g ∷ fs) good = add_domains-IsParsed domains (g ∷ fs) good

module _ (adblock : Text → Option Text) where
  add_line-IsParsed :
      (domains : List Text) (text : Text)
      → IsParsed domains
      → IsParsed (add_line adblock domains text)
  unfolding add_line
  add_line-IsParsed domains text good =
      let line = trim_space text in
      elim (Bool-cases ((length line == 0) || has_prefix line (codes "#"))) [
        | inl skipped ↦ rw (skipped, add_line) good
        | inr read ↦ elim (Option-cases (adblock line)) [
          | inl plain ↦ rw (read, plain, add_line) (add_fields-IsParsed domains (fields line) good)
          | inr (name, rule) ↦ rw (read, rule, add_line) (add_domain-IsParsed domains name good)
        ]
      ]

  -- A parsed list holds no name twice, no empty name and not `localhost`, whatever its lines are.
  pub parse_lines-IsParsed :
      (domains ls : List Text) → IsParsed domains → IsParsed (parse_lines adblock domains ls)
  unfolding parse_lines
  parse_lines-IsParsed domains [] good = good
  parse_lines-IsParsed domains (l ∷ ls) good =
      parse_lines-IsParsed (add_line adblock domains l) ls (add_line-IsParsed domains l good)
