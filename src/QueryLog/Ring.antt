-- ===== src/QueryLog/Ring.antt =====
-- The ring is a window on what was logged: its operation Add, seen through the order of the entries.
use domudns.Prelude.{
  ℕ, suc, ◌+◌, ◌-◌, ◌%◌, ◌≤◌, ◌<◌, ◌≡◌, ◌⊎◌, inl, inr, refl, subst, sym, ap, ◌∙◌, List, [], ◌∷◌,
  ◌++◌, append-nil, append_assoc, length, take, drop, set, ltb, arith, Bool-cases, length-set,
  length-append, length-take, length-drop, length-replicate,
}
use Prim.Native.Nat.{min}
use native.Mathlib.Nat.{mod-lt, mod-eq_of_lt, mod_self}
use domudns.Prelude.Int.{ℤ}
use domudns.QueryLog.{len, QueryLogEntry, RingBuffer, add, new_ring_buffer, ordered, positive_or}
use domudns.QueryLog.Windows.{
  newest, newest-append, drop-append, newest-all, take-suc-set, drop-suc-set, take_whole,
  drop_whole, drop_one-append,
}

-- The slice has the capacity's length, the places lie in it, and a ring that is not full was
-- written from its start.
abbrev pub IsRing : RingBuffer → Type 0
IsRing r =
    (0 < r.capacity)
    × (length r.entries ≡ r.capacity)
    × (r.head < r.capacity)
    × (r.count ≤ r.capacity)
    × (r.count < r.capacity → r.head ≡ r.count)

new_ring_buffer-IsRing : (z : ℤ) → IsRing (new_ring_buffer z)
unfolding new_ring_buffer
new_ring_buffer-IsRing z =
    (ground arith, length-replicate _ _, ground arith, omega arith, λ h. refl)

-- The place behind a place: the next one, or the first behind the last.
next_place :
    (h cap : ℕ)
    → h < cap
    → ((h + 1) % cap ≡ suc h) × (suc h < cap) ⊎ ((h + 1) % cap ≡ 0) × (suc h ≡ cap)
next_place h cap lt = elim (Bool-cases (ltb (suc h) cap)) [
  | inl inside ↦
      let e : h + 1 ≡ suc h = omega arith in
      let small : h + 1 < cap = ground arith in inl (mod-eq_of_lt small ∙ e, ground arith)
  | inr outside ↦
      let last : h + 1 ≡ cap = ground arith in
      inr (subst (λ c. (h + 1) % c ≡ 0) last (mod_self (h + 1)), omega (arith, last))
]

add-IsRing : (r : RingBuffer) (e : QueryLogEntry) → IsRing r → IsRing (add r e)
unfolding add
add-IsRing r e (pos_cap, len_cap, in_cap, le_cap, young) = (
  pos_cap,
  length-set r.entries r.head e ∙ len_cap,
  mod-lt (r.head + 1) pos_cap,
  ground arith,
  λ h. ground (arith, next_place r.head r.capacity in_cap, young),
)

module _ (xs : List QueryLogEntry) (h : ℕ) (e : QueryLogEntry) (inside : h < length xs) where
  -- A full ring loses its oldest entry, whether the place moves on or back to the start.
  turn_on :
      drop (suc h) (set xs h e) ++ take (suc h) (set xs h e)
      ≡ drop 1 (drop h xs ++ take h xs) ++ e ∷ []
  turn_on =
      rw (drop-suc-set h e xs, take-suc-set h e xs inside, drop_one-append h xs (take h xs) inside)
        (sym (append_assoc (drop (suc h) xs) (take h xs) (e ∷ [])))

  last_place : suc h ≡ length xs → set xs h e ≡ take h xs ++ e ∷ []
  last_place last =
      sym (take_whole (suc h) (set xs h e) (last ∙ sym (length-set xs h e)))
      ∙ take-suc-set h e xs inside

  turn_back : suc h ≡ length xs → set xs h e ≡ drop 1 (drop h xs ++ take h xs) ++ e ∷ []
  turn_back last =
      rw (drop_one-append h xs (take h xs) inside, drop_whole (suc h) xs last) (last_place last)

ordered-add_full :
    (r : RingBuffer) (e : QueryLogEntry)
    → IsRing r
    → r.count ≡ r.capacity
    → ordered (add r e) ≡ drop 1 (ordered r) ++ e ∷ []
unfolding ordered add
ordered-add_full r e (pos_cap, len_cap, in_cap, le_cap, young) full =
    elim (next_place r.head r.capacity in_cap) [
      | inl (on, small) ↦
          ground (arith, on, turn_on r.entries r.head e (omega (arith, len_cap, in_cap)))
      | inr (back, last) ↦ ground (
        arith,
        back,
        append-nil (set r.entries r.head e),
        turn_back r.entries r.head e (omega (arith, len_cap, in_cap)) (last ∙ sym len_cap),
      )
    ]

ordered-add_young :
    (r : RingBuffer) (e : QueryLogEntry)
    → IsRing r
    → r.count < r.capacity
    → ordered (add r e) ≡ ordered r ++ e ∷ []
unfolding ordered add
ordered-add_young r e (pos_cap, len_cap, in_cap, le_cap, young) room =
    elim (next_place r.head r.capacity in_cap) [
      | inl (on, small) ↦
          ground
            (arith, young room, take-suc-set r.head e r.entries (omega (arith, len_cap, in_cap)))
      | inr (back, last) ↦ ground (
        arith,
        young room,
        back,
        append-nil (set r.entries r.head e),
        last_place r.entries r.head e (omega (arith, len_cap, in_cap)) (last ∙ sym len_cap),
      )
    ]

pub length-ordered : (r : RingBuffer) → IsRing r → length (ordered r) ≡ r.count
unfolding ordered
length-ordered r (pos_cap, len_cap, in_cap, le_cap, young) = ground (
  arith,
  length-take r.count r.entries,
  length-append (drop r.head r.entries) (take r.head r.entries),
  length-drop r.head r.entries,
  length-take r.head r.entries,
)

ordered-add :
    (r : RingBuffer) (e : QueryLogEntry)
    → IsRing r
    → ordered (add r e) ≡ newest r.capacity (ordered r ++ e ∷ [])
ordered-add r e ring =
    let len = length-append (ordered r) (e ∷ []) in
    let total = length-ordered r ring in
    elim (Bool-cases (ltb r.count r.capacity)) [
      | inl young ↦
          ordered-add_young r e ring (ground arith)
          ∙ sym (newest-all r.capacity (ordered r ++ e ∷ []) (ground (arith, len, total)))
      | inr old ↦
          let full : r.count ≡ r.capacity = ground (arith, ring.3) in
          let one : length (ordered r ++ e ∷ []) - r.capacity ≡ 1 =
            omega (arith, len, total, full) in
          ordered-add_full r e ring full
          ∙ (sym (drop-append 1 (ordered r) (e ∷ []) (omega (arith, total, full, ring.0)))
              ∙ ap (λ k. drop k (ordered r ++ e ∷ [])) (sym one))
    ]

abbrev pub add_all : RingBuffer → List QueryLogEntry → RingBuffer
add_all r [] = r
add_all r (e ∷ es) = add_all (add r e) es

-- However many entries are logged to a well-formed ring, it stays well formed and has its capacity,
-- and in order it holds the newest of all that it held and was given, as many as the capacity.
pub ordered-add_all :
    (r : RingBuffer) (es : List QueryLogEntry)
    → IsRing r
    → IsRing (add_all r es)
      × ((add_all r es).capacity ≡ r.capacity)
      × (ordered (add_all r es) ≡ newest r.capacity (ordered r ++ es))
ordered-add_all r [] ring = (
  ring,
  refl,
  sym (
      rw (append-nil (ordered r))
        (newest-all r.capacity (ordered r) (omega (arith, length-ordered r ring, ring.3)))),
)
ordered-add_all r (e ∷ es) ring =
    let (kept, same, window) = ordered-add_all (add r e) es (add-IsRing r e ring) in
    let cap : (add r e).capacity ≡ r.capacity = unfold add in refl in
    (
      kept,
      same ∙ cap,
      window
          ∙ (ap (λ n. newest n (ordered (add r e) ++ es)) cap
              ∙ (ap (λ l. newest r.capacity (l ++ es)) (ordered-add r e ring)
                  ∙ (newest-append r.capacity (ordered r ++ e ∷ []) es
                      ∙ ap (newest r.capacity) (append_assoc (ordered r) (e ∷ []) es)))),
    )

-- A new ring to which entries are logged holds the newest of them in order, as many as its
-- capacity, which is the one asked for, or 5000 for a number that is not positive.
pub ordered-new_ring_buffer :
    (z : ℤ) (es : List QueryLogEntry)
    → (ordered (add_all (new_ring_buffer z) es) ≡ newest (positive_or z 5000) es)
      × (len (add_all (new_ring_buffer z) es) ≡ min (length es) (positive_or z 5000))
ordered-new_ring_buffer z es =
    let ring = new_ring_buffer-IsRing z in
    let (kept, same, window) = ordered-add_all (new_ring_buffer z) es ring in
    let empty : ordered (new_ring_buffer z) ≡ [] = unfold new_ring_buffer ordered in ground arith in
    let cap : (new_ring_buffer z).capacity ≡ positive_or z 5000 = unfold new_ring_buffer in refl in
    let holds : ordered (add_all (new_ring_buffer z) es) ≡ newest (positive_or z 5000) es =
      window
      ∙ (ap (λ l. newest (new_ring_buffer z).capacity (l ++ es)) empty
          ∙ ap (λ n. newest n es) cap) in
    (
      holds,
      omega (
        arith,
        length-ordered _ kept,
        ap length holds,
        length-drop (length es - positive_or z 5000) es,
      ),
    )
