-- ===== src/Text/Parts.antt =====
-- Splitting a name at a separator, and joining the parts.
use domudns.Prelude.{
  ℕ, ◌≡◌, ◌≢◌, refl, ap, ◌∙◌, false, List, [], ◌∷◌, ◌++◌, append_assoc, All, arith, ◌==◌,
  Bool-cases, inl, inr,
}
use domudns.Text.{Text, split, join, cons_head, contains_byte}

join-cons_head :
    (c : ℕ) (ps : List Text) (sep : ℕ) → ps ≢ [] → join (cons_head c ps) sep ≡ c ∷ join ps sep
unfolding join
join-cons_head c [] sep h = absurd (h refl)
join-cons_head c (p ∷ []) sep h = refl
join-cons_head c (p ∷ q ∷ ps) sep h = refl

cons_head-ne-nil : (c : ℕ) (ps : List Text) → cons_head c ps ≢ []
cons_head-ne-nil c [] e = cc
cons_head-ne-nil c (p ∷ ps) e = cc

pub split-ne-nil : (s : Text) (sep : ℕ) → split s sep ≢ []
unfolding split
split-ne-nil [] sep e = cc
split-ne-nil (c ∷ s) sep e = ground (arith, cons_head-ne-nil c (split s sep))

join_empty_head : (ps : List Text) (sep : ℕ) → ps ≢ [] → join ([] ∷ ps) sep ≡ sep ∷ join ps sep
unfolding join
join_empty_head [] sep h = absurd (h refl)
join_empty_head (p ∷ ps) sep h = refl

-- Joining the parts of a split gives the text back.
pub join-split : (s : Text) (sep : ℕ) → join (split s sep) sep ≡ s
unfolding split
join-split [] sep = unfold join in refl
join-split (c ∷ s) sep = ground (
  arith,
  join-split s sep,
  join-cons_head c (split s sep) sep (split-ne-nil s sep),
  join_empty_head (split s sep) sep (split-ne-nil s sep),
)

-- A join of two groups of parts, each not empty, has the separator between them.
pub join-append :
    (ps qs : List Text) (sep : ℕ)
    → ps ≢ []
    → qs ≢ []
    → join (ps ++ qs) sep ≡ join ps sep ++ (sep ∷ join qs sep)
unfolding join
join-append [] qs sep hp hq = absurd (hp refl)
join-append (p ∷ []) [] sep hp hq = absurd (hq refl)
join-append (p ∷ []) (q ∷ qs) sep hp hq = refl
join-append (p ∷ p' ∷ ps) qs sep hp hq = rw (join-append (p' ∷ ps) qs sep (cc) hq, append_assoc)

All-cons_head :
    (c sep : ℕ) (ps : List Text)
    → (c == sep) ≡ false
    → All (λ p. contains_byte p sep ≡ false) ps
    → All (λ p. contains_byte p sep ≡ false) (cons_head c ps)
All-cons_head c sep [] h a = ground arith
All-cons_head c sep (p ∷ ps) h a = ground arith

-- No part of a split holds the separator.
pub split-All : (s : Text) (sep : ℕ) → All (λ p. contains_byte p sep ≡ false) (split s sep)
unfolding split
split-All [] sep = (refl, tt)
split-All (c ∷ s) sep = elim (Bool-cases (c == sep)) [
  | inl h ↦ rw h (refl, split-All s sep)
  | inr h ↦ rw h (All-cons_head c sep (split s sep) h (split-All s sep))
]

pub split_of_lacking : (p : Text) (sep : ℕ) → contains_byte p sep ≡ false → split p sep ≡ p ∷ []
unfolding split
split_of_lacking [] sep h = refl
split_of_lacking (c ∷ p) sep h = ground (arith, split_of_lacking p sep)

pub split_at_sep :
    (p s : Text) (sep : ℕ)
    → contains_byte p sep ≡ false
    → split (p ++ (sep ∷ s)) sep ≡ p ∷ split s sep
unfolding split
split_at_sep [] s sep h = ground arith
split_at_sep (c ∷ p) s sep h = ground (arith, split_at_sep p s sep)

-- Splitting a join gives the parts back, if there is one and none holds the separator.
pub split-join :
    (ps : List Text) (sep : ℕ)
    → ps ≢ []
    → All (λ p. contains_byte p sep ≡ false) ps
    → split (join ps sep) sep ≡ ps
unfolding join
split-join [] sep h a = absurd (h refl)
split-join (p ∷ []) sep h a = split_of_lacking p sep a.0
split-join (p ∷ q ∷ ps) sep h a =
    split_at_sep p (join (q ∷ ps) sep) sep a.0 ∙ ap (◌∷◌ p) (split-join (q ∷ ps) sep (cc) a.1)
