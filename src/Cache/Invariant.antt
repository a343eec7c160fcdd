-- ===== src/Cache/Invariant.antt =====
-- The map and the heap of the cache hold the same entries, and no more than the limit.
use domudns.Prelude.{
  ℕ, ◌+◌, ◌≤◌, ◌<◌, ◌≡◌, refl, sym, ap, ◌∙◌, subst, Bool, true, false, List, [], ◌∷◌, length,
  Option-cases, none, some, inl, inr, All, text_beq, text_beq_iff, text_eq, Bool-cases, arith,
  if◌then◌else◌,
}
use domudns.Assoc.{
  insert, erase, has_key, Distinct, lookup-insert, lookup-erase, has_key-insert, has_key-erase,
  insert-Distinct, erase-Distinct, length-insert, length-erase, length-erase-le,
}
use domudns.Text.{Text}
use domudns.Cache.Lru.{Heap, count, index_of}
use domudns.Cache.{
  CacheEntry, CacheManager, Entries, accessed, fix_entry, remove_entry, evict_lru, put_entry,
  touch_entry,
}

accessed-insert :
    (k j : Text) (e : CacheEntry) (m : Entries)
    → text_beq k j ≡ false
    → accessed (insert k e m) j ≡ accessed m j
unfolding accessed
accessed-insert k j e m other = ground (arith, lookup-insert k j e m)

accessed-erase :
    (k j : Text) (m : Entries) → text_beq k j ≡ false → accessed (erase k m) j ≡ accessed m j
unfolding accessed
accessed-erase k j m other = ground (arith, lookup-erase k j m)

index_of_counted : (j : Text) (l : List Text) → count j l ≡ 1 → (i : ℕ) × (index_of j l ≡ some i)
index_of_counted j [] h = absurd (ground arith)
index_of_counted j (k ∷ l) h = elim (Bool-cases (text_beq k j)) [
  | inl same ↦ (0, rw same refl)
  | inr other ↦
      let (i, found) = index_of_counted j l (ground arith) in (i + 1, ground (arith, found))
]

-- An order of the keys that an entry changes nothing about.
agree_without :
    (k : Text) (l : List Text) (r r' : Text → ℕ)
    → count k l ≡ 0
    → ((j : Text) → text_beq k j ≡ false → r j ≡ r' j)
    → All (λ j. r j ≡ r' j) l
agree_without k [] r r' absent same = tt
agree_without k (j ∷ l) r r' absent same = (
  same j (ground (arith, text_beq_iff k j, text_beq_iff j k)),
  agree_without k l r r' (ground arith) same,
)

some_key : (m : Entries) → 1 ≤ length m → (k : Text) × (has_key k m ≡ true)
unfolding has_key
some_key [] h = absurd (ground arith)
some_key ((k, e) ∷ m) h = (k, ground (arith, text_beq_iff k k))

abbrev pub one_if : Bool → ℕ
one_if b = if b then 1 else 0

module _ (heap : Heap) where
  -- The heap has each key of the map once, and is in order; the map is within its limit.
  abbrev pub IsCache : CacheManager → Type 0
  IsCache c =
      ((j : Text) → count j c.lru ≡ one_if (has_key j c.entries))
      × heap.IsHeap (accessed c.entries) c.lru
      × Distinct c.entries
      × (length c.entries ≤ c.max_entries)
      × (1 ≤ c.max_entries)

  touched :
      (c : CacheManager) (key : Text) (e : CacheEntry) (i : ℕ)
      → index_of key c.lru ≡ some i
      → touch_entry heap c key e ≡ record c {
        entries = insert key e c.entries;
        lru = heap.fix (accessed (insert key e c.entries)) i c.lru;
      }
  unfolding fix_entry
  touched c key e i at_i =
      let r = accessed (insert key e c.entries) in
      ap
        (λ o.
          let lru : List Text = elim o [ none ↦ c.lru | some n ↦ heap.fix r n c.lru ] in
          record c { entries = insert key e c.entries; lru = lru })
        at_i

  removed :
      (c : CacheManager) (key : Text) (i : ℕ)
      → index_of key c.lru ≡ some i
      → remove_entry heap c key
        ≡ record c { entries = erase key c.entries; lru = heap.remove (accessed c.entries) i c.lru }
  unfolding remove_entry
  removed c key i at_i =
      let r = accessed c.entries in
      ap
        (λ o.
          let lru : List Text = elim o [ none ↦ c.lru | some n ↦ heap.remove r n c.lru ] in
          record c { entries = erase key c.entries; lru = lru })
        at_i

  evicted :
      (c : CacheManager) (oldest : Text) (lru : List Text)
      → heap.pop (accessed c.entries) c.lru ≡ some (oldest, lru)
      → evict_lru heap c ≡ record c { entries = erase oldest c.entries; lru = lru }
  unfolding evict_lru
  evicted c oldest lru taken =
      ap
        (λ o.
          let d : CacheManager = elim o [
            | none ↦ c
            | some (k, l) ↦ record c { entries = erase k c.entries; lru = l }
          ] in
          d)
        taken

  pub touch_entry-IsCache :
      (c : CacheManager) (key : Text) (e : CacheEntry)
      → has_key key c.entries ≡ true
      → IsCache c
      → IsCache (touch_entry heap c key e)
  touch_entry-IsCache c key e has (counted, order, distinct, bound, room) =
      let (i, at_i) = index_of_counted key c.lru (ground (arith, counted key)) in
      subst IsCache (sym (touched c key e i at_i)) (
        (λ j. ground (
          arith,
          heap.count-fix (accessed (insert key e c.entries)) i c.lru j,
          counted j,
          has_key-insert key j e c.entries,
          text_beq_iff key j,
        )),
        heap.fix-IsHeap (accessed c.entries) (accessed (insert key e c.entries)) i c.lru key
            (λ j. ground (arith, counted j)) at_i
            (λ j other. sym (accessed-insert key j e c.entries other)) order,
        insert-Distinct key e c.entries distinct,
        ground (arith, length-insert key e c.entries),
        room,
      )

  pub put_entry-IsCache :
      (c : CacheManager) (key : Text) (e : CacheEntry)
      → has_key key c.entries ≡ false
      → length c.entries < c.max_entries
      → IsCache c
      → IsCache (put_entry heap c key e)
  put_entry-IsCache c key e has free (counted, order, distinct, bound, room) =
      let r = accessed (insert key e c.entries) in
      (
        (λ j. ground (
          arith,
          heap.count-push r key c.lru j,
          counted j,
          has_key-insert key j e c.entries,
          text_beq_iff key j,
        )),
        heap.push-IsHeap r key c.lru (ground (arith, counted key)) (
            heap.IsHeap_agree (accessed c.entries) r c.lru
              (agree_without key c.lru (accessed c.entries) r (ground (arith, counted key))
                (λ j other. sym (accessed-insert key j e c.entries other)))
              order),
        insert-Distinct key e c.entries distinct,
        ground (arith, length-insert key e c.entries),
        room,
      )

  pub remove_entry-IsCache :
      (c : CacheManager) (key : Text)
      → has_key key c.entries ≡ true
      → IsCache c
      → IsCache (remove_entry heap c key)
  remove_entry-IsCache c key has (counted, order, distinct, bound, room) =
      let (i, at_i) = index_of_counted key c.lru (ground (arith, counted key)) in
      let r = accessed c.entries in
      let l = heap.remove r i c.lru in
      let others : (j : Text) → count j l ≡ one_if (has_key j (erase key c.entries)) = λ j. ground (
        arith,
        heap.count-remove r i c.lru key j at_i,
        counted j,
        has_key-erase key j c.entries,
        text_beq_iff key j,
      ) in
      subst IsCache (sym (removed c key i at_i)) (
        others,
        heap.IsHeap_agree r (accessed (erase key c.entries)) l
            (agree_without key l r (accessed (erase key c.entries))
              (ground (arith, others key, has_key-erase key key c.entries, text_beq_iff key key))
              (λ j other. sym (accessed-erase key j c.entries other)))
            (heap.remove-IsHeap r i c.lru order),
        erase-Distinct key c.entries distinct,
        ground (arith, length-erase-le key c.entries),
        room,
      )

  never_empty : (r : Text → ℕ) (k : Text) (l : List Text) → 1 ≤ count k l → heap.pop r l ≡ none → ⊥
  never_empty r k [] some_one none_left = ground arith
  never_empty r k (j ∷ l) some_one none_left =
      let (p, taken) = heap.pop-some r j l in ground (arith, sym taken ∙ none_left)

  -- What an eviction takes out: the key that was first in the heap.
  abbrev pub IsEvicted : CacheManager → Text → CacheManager → Type 0
  IsEvicted c oldest c' =
      (has_key oldest c.entries ≡ true)
      × All (λ j. accessed c.entries oldest ≤ accessed c.entries j) c'.lru
      × (c'.entries ≡ erase oldest c.entries)

  popped :
      (c : CacheManager)
      → IsCache c
      → 1 ≤ length c.entries
      → (oldest : Text) × (lru : List Text) × (heap.pop (accessed c.entries) c.lru
          ≡ some (oldest, lru))
  popped c (counted, order, distinct, bound, room) some_entry =
      elim (Option-cases (heap.pop (accessed c.entries) c.lru)) [
        | inr ((oldest, lru), taken) ↦ (oldest, lru, taken)
        | inl none_left ↦
            let r = accessed c.entries in
            let (k, has) = some_key c.entries some_entry in
            let e : 1 ≤ count k c.lru = ground (arith, counted k) in
            absurd (never_empty r k c.lru e none_left)
      ]

  pub evict_lru-IsEvicted :
      (c : CacheManager)
      → IsCache c
      → 1 ≤ length c.entries
      → (oldest : Text) × IsEvicted c oldest (evict_lru heap c)
        × IsCache (evict_lru heap c)
        × (length (evict_lru heap c).entries + 1 ≡ length c.entries)
  evict_lru-IsEvicted c (counted, order, distinct, bound, room) some_entry =
      let r = accessed c.entries in
      let (oldest, lru, taken) = popped c (counted, order, distinct, bound, room) some_entry in
      let split_off : (j : Text)
          → count j c.lru ≡ (if text_beq oldest j then 1 else 0) + count j lru =
        λ j. heap.count-pop r c.lru lru oldest j taken in
      let has : has_key oldest c.entries ≡ true =
        ground (arith, split_off oldest, counted oldest, text_beq_iff oldest oldest) in
      let (order', least) = heap.pop-IsHeap r c.lru lru oldest taken order in
      let shorter = length-erase oldest c.entries distinct has in
      let others : (j : Text) → count j lru ≡ one_if (has_key j (erase oldest c.entries)) = λ j.
        ground (
          arith,
          split_off j,
          counted j,
          has_key-erase oldest j c.entries,
          text_beq_iff oldest j,
        ) in
      let after = evicted c oldest lru taken in
      let kept : IsCache (record c { entries = erase oldest c.entries; lru = lru }) = (
        others,
        heap.IsHeap_agree r (accessed (erase oldest c.entries)) lru
            (agree_without oldest lru r (accessed (erase oldest c.entries))
              (ground (
                arith,
                others oldest,
                has_key-erase oldest oldest c.entries,
                text_beq_iff oldest oldest,
              ))
              (λ j other. sym (accessed-erase oldest j c.entries other)))
            order',
        erase-Distinct oldest c.entries distinct,
        omega arith,
        room,
      ) in
      (
        oldest,
        subst (IsEvicted c oldest) (sym after) (has, least, refl),
        subst IsCache (sym after) kept,
        ap (λ d. length d.entries + 1) after ∙ shorter,
      )
