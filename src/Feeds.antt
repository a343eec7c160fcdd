-- ===== src/Feeds.antt =====
-- The lists that a block list is made of (internal/blocklist/parser.go and merge.go). The lines of a
-- list and the match of the pattern for adblock rules, with its first group, are parameters.
pub mod Merge
use domudns.Prelude.{
  Bool, not, ◌||◌, List, [], ◌∷◌, ◌++◌, any, length, ◌==◌, Option, none, some, text_beq,
  if◌then◌else◌,
}
use domudns.Text.{Text, codes, dot, has_prefix, has_suffix, trim_space}
use domudns.Dns.Label.{normalize_domain}
use domudns.Zones.Rr.{fields}

abbrev pub member : Text → List Text → Bool
member d set = any (λ s. text_beq s d) set

-- The name in normal form, empty for `localhost`.
unfoldable pub normalize_name_or_none : Text → Text
normalize_name_or_none text =
    let domain = normalize_domain text in
    if (length domain == 0) || text_beq domain (codes "localhost") then [] else domain

-- `seen` has the names of `domains`.
unfoldable pub add_domain : List Text → Text → List Text
add_domain domains text =
    let d = normalize_name_or_none text in
    if (length d == 0) || member d domains then domains else domains ++ d ∷ []

unfoldable pub add_domains : List Text → List Text → List Text
add_domains domains [] = domains
add_domains domains (t ∷ ts) = add_domains (add_domain domains t) ts

-- The fields of a line: a name alone, or names behind an address.
unfoldable pub add_fields : List Text → List Text → List Text
add_fields domains [] = domains
add_fields domains (f ∷ []) = add_domain domains f
add_fields domains (f ∷ g ∷ fs) = add_domains domains (g ∷ fs)

module _ (adblock : Text → Option Text) where
  unfoldable pub add_line : List Text → Text → List Text
  add_line domains text =
      let line = trim_space text in
      if (length line == 0) || has_prefix line (codes "#") then domains else elim (adblock line) [
        | some name ↦ add_domain domains name
        | none ↦ add_fields domains (fields line)
      ]

  -- ParseHostsOrDomains from the names found so far
  unfoldable pub parse_lines : List Text → List Text → List Text
  parse_lines domains [] = domains
  parse_lines domains (l ∷ ls) = parse_lines (add_line domains l) ls

-- `allowedSet`
unfoldable pub allowed_set : List Text → List Text
allowed_set [] = []
allowed_set (a ∷ allowed) =
    let d = normalize_domain a in
    let rest = allowed_set allowed in if length d == 0 then rest else d ∷ rest

unfoldable pub is_allowed : Text → List Text → Bool
is_allowed domain allowed =
    member domain allowed || any (λ a. text_beq domain a || has_suffix domain (dot ∷ a)) allowed

-- the loop over `blocked`
unfoldable pub merge_from : List Text → List Text → List Text
merge_from [] allowed = []
merge_from (b ∷ blocked) allowed =
    let d = normalize_domain b in
    let rest = merge_from blocked allowed in
    if length d == 0 then rest else if is_allowed d allowed then rest else d ∷ rest

unfoldable pub merge : List Text → List Text → List Text
merge blocked allowed = merge_from blocked (allowed_set allowed)
