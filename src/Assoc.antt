-- ===== src/Assoc.antt =====
-- Go's maps as association lists with one entry for a key; `insert` replaces an entry in its place.
-- A set is a map to `Unit`. Where the program ranges over a map, the list's order is the order of
-- the iteration, which Go leaves open.
use domudns.Prelude.{
  ◌+◌, ◌≤◌, ◌≡◌, refl, Bool, true, false, ◌||◌, List, [], ◌∷◌, length, Option, none, some, Eq,
  arith, Bool-cases, inl, inr, if◌then◌else◌,
}

module _ {ℓ κ} {K : Type ℓ} {V : Type κ} ⦃e : Eq K⦄ where
  -- m[k]
  unfoldable pub lookup : K → List (K × V) → Option V
  lookup k [] = none
  lookup k ((j, v) ∷ m) = if e.beq j k then some v else lookup k m

  -- m[k] = v
  unfoldable pub insert : K → V → List (K × V) → List (K × V)
  insert k v [] = (k, v) ∷ []
  insert k v ((j, w) ∷ m) = if e.beq j k then (k, v) ∷ m else (j, w) ∷ insert k v m

  -- delete(m, k)
  unfoldable pub erase : K → List (K × V) → List (K × V)
  erase k [] = []
  erase k ((j, v) ∷ m) = let rest = erase k m in if e.beq j k then rest else (j, v) ∷ rest

  -- _, ok := m[k]
  unfoldable pub has_key : K → List (K × V) → Bool
  has_key k [] = false
  has_key k ((j, v) ∷ m) = e.beq j k || has_key k m

  -- No key occurs twice.
  abbrev pub Distinct : List (K × V) → Type 0
  Distinct [] = Unit
  Distinct ((k, v) ∷ m) = (has_key k m ≡ false) × Distinct m

  pub lookup-insert :
      (k j : K) (v : V) (m : List (K × V))
      → lookup j (insert k v m) ≡ (if e.beq k j then some v else lookup j m)
  unfolding lookup insert
  lookup-insert k j v [] = refl
  lookup-insert k j v ((i, w) ∷ m) =
      ground (arith, e.beq_iff k j, e.beq_iff i k, e.beq_iff i j, lookup-insert k j v m)

  pub lookup-erase :
      (k j : K) (m : List (K × V)) → lookup j (erase k m) ≡ (if e.beq k j then none else lookup j m)
  unfolding lookup erase
  lookup-erase k j [] = ground arith
  lookup-erase k j ((i, w) ∷ m) =
      ground (arith, e.beq_iff k j, e.beq_iff i k, e.beq_iff i j, lookup-erase k j m)

  pub has_key-insert :
      (k j : K) (v : V) (m : List (K × V)) → has_key j (insert k v m) ≡ (e.beq k j || has_key j m)
  unfolding has_key insert
  has_key-insert k j v [] = refl
  has_key-insert k j v ((i, w) ∷ m) =
      ground (arith, e.beq_iff k j, e.beq_iff i k, e.beq_iff i j, has_key-insert k j v m)

  pub has_key-erase :
      (k j : K) (m : List (K × V))
      → has_key j (erase k m) ≡ (if e.beq k j then false else has_key j m)
  unfolding has_key erase
  has_key-erase k j [] = ground arith
  has_key-erase k j ((i, w) ∷ m) =
      ground (arith, e.beq_iff k j, e.beq_iff i k, e.beq_iff i j, has_key-erase k j m)

  pub lookup-eq-none : (k : K) (m : List (K × V)) → has_key k m ≡ false → lookup k m ≡ none
  unfolding lookup has_key
  lookup-eq-none k [] h = refl
  lookup-eq-none k ((j, v) ∷ m) h = ground (arith, lookup-eq-none k m)

  pub lookup-eq-some :
      (k : K) (m : List (K × V)) → has_key k m ≡ true → (v : V) × (lookup k m ≡ some v)
  unfolding lookup has_key
  lookup-eq-some k [] h = absurd (ground arith)
  lookup-eq-some k ((j, v) ∷ m) h = elim (Bool-cases (e.beq j k)) [
    | inl same ↦ (v, rw same)
    | inr other ↦ rw other (lookup-eq-some k m (rw other at h))
  ]

  pub insert-Distinct : (k : K) (v : V) (m : List (K × V)) → Distinct m → Distinct (insert k v m)
  unfolding insert has_key
  insert-Distinct k v [] d = (refl, tt)
  insert-Distinct k v ((j, w) ∷ m) d =
      ground (arith, e.beq_iff j k, e.beq_iff k j, has_key-insert k j v m, insert-Distinct k v m)

  pub erase-Distinct : (k : K) (m : List (K × V)) → Distinct m → Distinct (erase k m)
  unfolding erase has_key
  erase-Distinct k [] d = tt
  erase-Distinct k ((j, w) ∷ m) d = ground (arith, has_key-erase k j m, erase-Distinct k m)

  pub erase_absent : (k : K) (m : List (K × V)) → has_key k m ≡ false → erase k m ≡ m
  unfolding erase has_key
  erase_absent k [] h = refl
  erase_absent k ((j, v) ∷ m) h = ground (arith, erase_absent k m)

  pub length-erase-le : (k : K) (m : List (K × V)) → length (erase k m) ≤ length m
  unfolding erase
  length-erase-le k [] = omega arith
  length-erase-le k ((j, v) ∷ m) = ground (arith, length-erase-le k m)

  pub length-erase :
      (k : K) (m : List (K × V))
      → Distinct m
      → has_key k m ≡ true
      → length (erase k m) + 1 ≡ length m
  unfolding erase has_key
  length-erase k [] d h = absurd (ground arith)
  length-erase k ((j, v) ∷ m) d h =
      ground (arith, e.beq_iff j k, erase_absent k m, length-erase k m d.1)

  pub length-insert :
      (k : K) (v : V) (m : List (K × V))
      → length (insert k v m) ≡ (if has_key k m then length m else length m + 1)
  unfolding insert has_key
  length-insert k v [] = ground arith
  length-insert k v ((j, w) ∷ m) = ground (arith, length-insert k v m)
