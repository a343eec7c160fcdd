-- ===== src/Blocklist/Flat.antt =====
-- What the flat sets of the block list hold, in terms of the sources that they are built from.
use domudns.Prelude.{
  ℕ, ◌≡◌, refl, sym, ap, ◌∙◌, Bool, false, not, ◌&&◌, ◌||◌, List, [], ◌∷◌, any, length, ◌==◌,
  text_beq, text_beq_iff, text_eq, if◌then◌else◌, Bool-cases, inl, inr, arith,
}
use domudns.Assoc.{insert, has_key, lookup-insert, has_key-insert}
use domudns.Text.{Text}
use domudns.Blocklist.{DomainSet, UrlDomainEntry, add_domains, add_url_sets, cat_set}

-- A disjunction over two lists, in either order.
module _ {κ} {B : Type κ} where
  pub any-or : (f g : B → Bool) (ys : List B) → any (λ y. f y || g y) ys ≡ (any f ys || any g ys)
  any-or f g [] = refl
  any-or f g (y ∷ ys) = ground (arith, any-or f g ys)

  any-none : (ys : List B) → any (λ y. false) ys ≡ false
  any-none [] = refl
  any-none (y ∷ ys) = any-none ys

  pub any-any {ℓ} :
      {A : Type ℓ} (f : A → B → Bool) (xs : List A) (ys : List B)
      → any (λ x. any (f x) ys) xs ≡ any (λ y. any (λ x. f x y) xs) ys
  any-any f [] ys = sym (any-none ys)
  any-any f (x ∷ xs) ys =
      ap (λ b. any (f x) ys || b) (any-any f xs ys)
      ∙ sym (any-or (f x) (λ y. any (λ x. f x y) xs) ys)

pub any-ext {ℓ} :
    {A : Type ℓ} (f g : A → Bool) (xs : List A) → ((x : A) → f x ≡ g x) → any f xs ≡ any g xs
any-ext f g [] h = refl
any-ext f g (x ∷ xs) h = ground (arith, h x, any-ext f g xs h)

pub has_key-add_domains :
    (d : Text) (domains set : DomainSet)
    → has_key d (add_domains domains set) ≡ (has_key d domains || has_key d set)
unfolding add_domains has_key
has_key-add_domains d [] set = refl
has_key-add_domains d ((e, u) ∷ domains) set =
    ground (arith, has_key-add_domains d domains (insert e tt set), has_key-insert e d tt set)

cat_set-insert :
    (k c : Text) (set : DomainSet) (cats : List (Text × DomainSet))
    → cat_set c (insert k set cats) ≡ (if text_beq k c then set else cat_set c cats)
cat_set-insert k c set cats = ground (arith, lookup-insert k c set cats)

-- A list without a category holds the name.
abbrev pub lists_plain : Text → UrlDomainEntry → Bool
lists_plain d e = (length e.category == 0) && has_key d e.domains

-- A list of a category holds the name.
abbrev pub lists_in : Text → Text → UrlDomainEntry → Bool
lists_in d c e = not (length e.category == 0) && (text_beq e.category c && has_key d e.domains)

pub has_key-uncategorised :
    (d : Text) (es : List (ℕ × UrlDomainEntry)) (uncat : DomainSet) (cats : List (Text × DomainSet))
    → has_key d (add_url_sets es uncat cats).0
      ≡ (has_key d uncat || any (λ p. lists_plain d p.1) es)
unfolding add_url_sets
has_key-uncategorised d [] uncat cats = ground arith
has_key-uncategorised d ((id, e) ∷ es) uncat cats = ground (
  arith,
  has_key-uncategorised d es (if length e.category == 0 then add_domains e.domains uncat else uncat)
      (if length e.category == 0
        then cats
        else insert e.category (add_domains e.domains (cat_set e.category cats)) cats),
  has_key-add_domains d e.domains uncat,
)

cat_after :
    (d c : Text) (e : UrlDomainEntry) (cats : List (Text × DomainSet))
    → has_key d (
        cat_set c (
          if length e.category == 0
          then cats
          else insert e.category (add_domains e.domains (cat_set e.category cats)) cats))
      ≡ (has_key d (cat_set c cats) || lists_in d c e)
cat_after d c e cats = elim (Bool-cases (length e.category == 0)) [
  | inl plain ↦ rw plain (ground arith)
  | inr named ↦
      rw (named, cat_set-insert e.category c (add_domains e.domains (cat_set e.category cats)) cats)
        (elim (Bool-cases (text_beq e.category c)) [
          | inl same ↦
              let at_c : e.category ≡ c = (text_beq_iff e.category c).0 same in
              ground (
                arith,
                same,
                has_key-add_domains d e.domains (cat_set e.category cats),
                ap (λ k. has_key d (cat_set k cats)) at_c,
              )
          | inr other ↦ ground (arith, other)
        ])
]

pub has_key-category :
    (d c : Text) (es : List (ℕ × UrlDomainEntry)) (uncat : DomainSet)
    (cats : List (Text × DomainSet))
    → has_key d (cat_set c (add_url_sets es uncat cats).1)
      ≡ (has_key d (cat_set c cats) || any (λ p. lists_in d c p.1) es)
unfolding add_url_sets
has_key-category d c [] uncat cats = ground arith
has_key-category d c ((id, e) ∷ es) uncat cats =
    let merged = add_domains e.domains (cat_set e.category cats) in
    let uncat' = if length e.category == 0 then add_domains e.domains uncat else uncat in
    let cats' = if length e.category == 0 then cats else insert e.category merged cats in
    has_key-category d c es uncat' cats'
    ∙ (ap (λ b. b || any (λ p. lists_in d c p.1) es) (cat_after d c e cats) ∙ (ground arith))
