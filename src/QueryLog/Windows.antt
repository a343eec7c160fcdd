-- ===== src/QueryLog/Windows.antt =====
-- The last elements of a list, and a list that is written at one place.
use domudns.Prelude.{
  ℕ, zero, suc, ◌+◌, ◌-◌, ◌≤◌, ◌<◌, ◌≡◌, refl, sym, ap, ◌∙◌, List, [], ◌∷◌, ◌++◌, length, take,
  drop, set, length-append, length-drop, arith,
}

module _ {ℓ} {A : Type ℓ} where
  -- The last `n` elements, or all of a shorter list.
  abbrev pub newest : ℕ → List A → List A
  newest n xs = drop (length xs - n) xs

  drop-nil : (k : ℕ) → drop {A = A} k [] ≡ []
  drop-nil zero = refl
  drop-nil (suc k) = refl

  drop-drop : (j k : ℕ) (xs : List A) → drop j (drop k xs) ≡ drop (k + j) xs
  drop-drop j zero xs = let e : j ≡ 0 + j = omega arith in ap (λ m. drop m xs) e
  drop-drop j (suc k) [] = drop-nil j ∙ sym (drop-nil (suc k + j))
  drop-drop j (suc k) (x ∷ xs) =
      let e : suc (k + j) ≡ suc k + j = omega arith in
      drop-drop j k xs ∙ ap (λ m. drop m (x ∷ xs)) e

  pub drop-append : (k : ℕ) (xs ys : List A) → k ≤ length xs → drop k (xs ++ ys) ≡ drop k xs ++ ys
  drop-append zero xs ys h = refl
  drop-append (suc k) [] ys h = absurd (omega arith)
  drop-append (suc k) (x ∷ xs) ys h = drop-append k xs ys (omega arith)

  -- What an earlier cut removed, a later one would have.
  pub newest-append : (n : ℕ) (xs ys : List A) → newest n (newest n xs ++ ys) ≡ newest n (xs ++ ys)
  newest-append n xs ys =
      let k = length xs - n in
      let cut = drop-append k xs ys (omega arith) in
      rw (sym cut, drop-drop)
        (ap (λ m. drop m (xs ++ ys)) (omega (arith, length-append xs ys, length-drop k (xs ++ ys))))

  pub newest-all : (n : ℕ) (xs : List A) → length xs ≤ n → newest n xs ≡ xs
  newest-all n xs h = let none_cut : length xs - n ≡ 0 = omega arith in ap (λ m. drop m xs) none_cut

  pub take-set : (i : ℕ) (v : A) (xs : List A) → take i (set xs i v) ≡ take i xs
  take-set zero v xs = refl
  take-set (suc i) v [] = refl
  take-set (suc i) v (x ∷ xs) = ap (◌∷◌ x) (take-set i v xs)

  pub take-suc-set :
      (i : ℕ) (v : A) (xs : List A)
      → i < length xs
      → take (suc i) (set xs i v) ≡ take i xs ++ v ∷ []
  take-suc-set zero v [] h = absurd (omega arith)
  take-suc-set zero v (x ∷ xs) h = refl
  take-suc-set (suc i) v [] h = absurd (omega arith)
  take-suc-set (suc i) v (x ∷ xs) h = ap (◌∷◌ x) (take-suc-set i v xs (omega arith))

  pub drop-suc-set : (i : ℕ) (v : A) (xs : List A) → drop (suc i) (set xs i v) ≡ drop (suc i) xs
  drop-suc-set zero v [] = refl
  drop-suc-set zero v (x ∷ xs) = refl
  drop-suc-set (suc i) v [] = refl
  drop-suc-set (suc i) v (x ∷ xs) = drop-suc-set i v xs

  pub take_whole : (n : ℕ) (xs : List A) → n ≡ length xs → take n xs ≡ xs
  take_whole zero [] h = refl
  take_whole zero (x ∷ xs) h = absurd (omega arith)
  take_whole (suc n) [] h = absurd (omega arith)
  take_whole (suc n) (x ∷ xs) h = ap (◌∷◌ x) (take_whole n xs (omega arith))

  pub drop_whole : (n : ℕ) (xs : List A) → n ≡ length xs → drop n xs ≡ []
  drop_whole zero [] h = refl
  drop_whole zero (x ∷ xs) h = absurd (omega arith)
  drop_whole (suc n) [] h = refl
  drop_whole (suc n) (x ∷ xs) h = drop_whole n xs (omega arith)

  pub drop_one-append :
      (i : ℕ) (xs ys : List A) → i < length xs → drop 1 (drop i xs ++ ys) ≡ drop (suc i) xs ++ ys
  drop_one-append i xs ys h =
      let e : i + 1 ≡ suc i = omega arith in
      drop-append 1 (drop i xs) ys (omega (arith, length-drop i xs))
      ∙ ap (λ z. z ++ ys) (drop-drop 1 i xs ∙ ap (λ m. drop m xs) e)
