-- ===== src/QueryLog/Stats/Sorting.antt =====
-- The insertion sort of the statistics (internal/querylog/ringbuffer.go, sortDesc). The sorted front
-- of the slice stands with its last element first, where a swap moves the new element down.
use domudns.Prelude.{
  ℕ, zero, suc, ◌≤◌, ◌≡◌, refl, Bool, true, false, ◌||◌, List, [], ◌∷◌, take, any, All, ltb, arith,
  inl, inr, Bool-cases, if◌then◌else◌,
}

module _ {ℓ} {A : Type ℓ} (count : A → ℕ) where
  -- the loop of swaps
  unfoldable pub swap_down : A → List A → List A
  swap_down x [] = x ∷ []
  swap_down x (y ∷ ys) =
      let rest = swap_down x ys in if ltb (count y) (count x) then y ∷ rest else x ∷ y ∷ ys

  unfoldable pub sort_from : List A → List A → List A
  sort_from front [] = front
  sort_from front (x ∷ xs) = sort_from (swap_down x front) xs

  -- A list behind another one that is turned around.
  unfoldable pub turn : List A → List A → List A
  turn [] back = back
  turn (x ∷ front) back = turn front (x ∷ back)

  abbrev pub sort_desc : List A → List A
  sort_desc xs = turn (sort_from [] xs) []

  -- From every element on, none is larger.
  abbrev pub IsDescending : List A → Type 0
  IsDescending [] = Unit
  IsDescending (x ∷ xs) = All (λ y. count y ≤ count x) xs × IsDescending xs

  abbrev IsAscending : List A → Type 0
  IsAscending [] = Unit
  IsAscending (x ∷ xs) = All (λ y. count x ≤ count y) xs × IsAscending xs

  swap_down-All {κ} :
      (P : A → Type κ) (x : A) (ys : List A) → P x → All P ys → All P (swap_down x ys)
  unfolding swap_down
  swap_down-All P x [] at_x at_ys = (at_x, tt)
  swap_down-All P x (y ∷ ys) at_x (at_y, at_ys) = ground (arith, swap_down-All P x ys at_x at_ys)

  All-le : (m n : ℕ) (ys : List A) → m ≤ n → All (λ y. n ≤ count y) ys → All (λ y. m ≤ count y) ys
  All-le m n [] m_le all_n = tt
  All-le m n (y ∷ ys) m_le (at_y, all_n) = (omega arith, All-le m n ys m_le all_n)

  swap_down-IsAscending : (x : A) (ys : List A) → IsAscending ys → IsAscending (swap_down x ys)
  unfolding swap_down
  swap_down-IsAscending x [] h = (tt, tt)
  swap_down-IsAscending x (y ∷ ys) (le_ys, h) = elim (Bool-cases (ltb (count y) (count x))) [
    | inl above ↦ rw above (
      swap_down-All (λ z. count y ≤ count z) x ys (ground arith) le_ys,
      swap_down-IsAscending x ys h,
    )
    | inr below ↦
        let le : count x ≤ count y = ground arith in
        rw below ((le, All-le (count x) (count y) ys le le_ys), (le_ys, h))
  ]

  sort_from-IsAscending : (front xs : List A) → IsAscending front → IsAscending (sort_from front xs)
  unfolding sort_from
  sort_from-IsAscending front [] h = h
  sort_from-IsAscending front (x ∷ xs) h =
      sort_from-IsAscending (swap_down x front) xs (swap_down-IsAscending x front h)

  -- every element of the first list is at most every element of the second
  turn-IsDescending :
      (front back : List A)
      → IsAscending front
      → IsDescending back
      → All (λ y. All (λ z. count z ≤ count y) back) front
      → IsDescending (turn front back)
  unfolding turn
  turn-IsDescending [] back up down over = down
  turn-IsDescending (x ∷ front) back (le_front, up) down (over_x, over) =
      turn-IsDescending front (x ∷ back) up (over_x, down) (both front le_front over)
    where
      both :
          (ys : List A)
          → All (λ y. count x ≤ count y) ys
          → All (λ y. All (λ z. count z ≤ count y) back) ys
          → All (λ y. All (λ z. count z ≤ count y) (x ∷ back)) ys
      both [] le_ys over_ys = tt
      both (y ∷ ys) (le_y, le_ys) (over_y, over_ys) = ((le_y, over_y), both ys le_ys over_ys)

  nothing_above : (xs : List A) → All (λ y. All (λ z. count z ≤ count y) []) xs
  nothing_above [] = tt
  nothing_above (x ∷ xs) = (tt, nothing_above xs)

  pub sort_desc-IsDescending : (xs : List A) → IsDescending (sort_desc xs)
  sort_desc-IsDescending xs =
      let sorted = sort_from [] xs in
      turn-IsDescending sorted [] (sort_from-IsAscending [] xs tt) tt (nothing_above sorted)

  sort_from-All {κ} :
      (P : A → Type κ) (front xs : List A) → All P front → All P xs → All P (sort_from front xs)
  unfolding sort_from
  sort_from-All P front [] at_front at_xs = at_front
  sort_from-All P front (x ∷ xs) at_front (at_x, at_xs) =
      sort_from-All P (swap_down x front) xs (swap_down-All P x front at_x at_front) at_xs

  turn-All {κ} :
      (P : A → Type κ) (front back : List A) → All P front → All P back → All P (turn front back)
  unfolding turn
  turn-All P [] back at_front at_back = at_back
  turn-All P (x ∷ front) back (at_x, at_front) at_back =
      turn-All P front (x ∷ back) at_front (at_x, at_back)

  pub sort_desc-All {κ} : (P : A → Type κ) (xs : List A) → All P xs → All P (sort_desc xs)
  sort_desc-All P xs at_xs = turn-All P (sort_from [] xs) [] (sort_from-All P [] xs tt at_xs) tt

  any-swap_down : (p : A → Bool) (x : A) (ys : List A) → any p (swap_down x ys) ≡ (p x || any p ys)
  unfolding swap_down
  any-swap_down p x [] = refl
  any-swap_down p x (y ∷ ys) = ground (arith, any-swap_down p x ys)

  any-sort_from :
      (p : A → Bool) (front xs : List A) → any p (sort_from front xs) ≡ (any p front || any p xs)
  unfolding sort_from
  any-sort_from p front [] = ground arith
  any-sort_from p front (x ∷ xs) =
      ground (arith, any-sort_from p (swap_down x front) xs, any-swap_down p x front)

  any-turn :
      (p : A → Bool) (front back : List A) → any p (turn front back) ≡ (any p front || any p back)
  unfolding turn
  any-turn p [] back = refl
  any-turn p (x ∷ front) back = ground (arith, any-turn p front (x ∷ back))

  pub any-sort_desc : (p : A → Bool) (xs : List A) → any p (sort_desc xs) ≡ any p xs
  any-sort_desc p xs = ground (arith, any-turn p (sort_from [] xs) [], any-sort_from p [] xs)

  found_le :
      (p : A → Bool) (m n : ℕ) (xs : List A)
      → All (λ y. count y ≤ n) xs
      → All (λ y. p y ≡ true → count y ≡ m) xs
      → any p xs ≡ true
      → m ≤ n
  found_le p m n [] le_xs at_xs found = absurd (ground arith)
  found_le p m n (x ∷ xs) (le_x, le_xs) (at_x, at_xs) found = elim (Bool-cases (p x)) [
    | inl here ↦ let same = at_x here in omega arith
    | inr not_here ↦ found_le p m n xs le_xs at_xs (ground arith)
  ]

  -- What a test finds behind the first `n` elements is at most each of these.
  pub take-IsAbove :
      (p : A → Bool) (m n : ℕ) (xs : List A)
      → IsDescending xs
      → All (λ y. p y ≡ true → count y ≡ m) xs
      → any p xs ≡ true
      → any p (take n xs) ≡ false
      → All (λ y. m ≤ count y) (take n xs)
  take-IsAbove p m zero xs down at_xs found missed = tt
  take-IsAbove p m (suc n) [] down at_xs found missed = tt
  take-IsAbove p m (suc n) (x ∷ xs) (le_xs, down) (at_x, at_xs) found missed =
      let behind : any p xs ≡ true = ground arith in
      let front : any p (take n xs) ≡ false = ground arith in
      (found_le p m (count x) xs le_xs at_xs behind, take-IsAbove p m n xs down at_xs behind front)
