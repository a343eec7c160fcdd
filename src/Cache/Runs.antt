-- ===== src/Cache/Runs.antt =====
-- The cache over its whole life, and what it gives up when it is full.
use domudns.Prelude.{
  ℕ, ◌+◌, ◌≤◌, ◌≡◌, refl, sym, ap, ◌∙◌, subst, Bool, true, false, List, [], ◌∷◌, length, ltb, leb,
  ◌==◌, Option-cases, none, some, inl, inr, text_eq, Bool-cases, arith, if◌then◌else◌,
}
use domudns.Prelude.Int.{ℤ, pos, negsuc}
use domudns.Assoc.{lookup, erase, has_key, has_key-erase, erase_absent, lookup-eq-none}
use domudns.Text.{Text}
use domudns.Mdns.{Msg}
use domudns.Cache.Lru.{Heap, count, index_of}
use domudns.Cache.{
  CacheEntry, CacheManager, Entries, accessed, remove_entry, evict_lru, determine_ttl,
  new_cache_manager, positive_or, get_key, set_key, flush, delete_key, clean_entries, clean,
}
use domudns.Cache.Invariant.{
  IsCache, evict_lru-IsEvicted, put_entry-IsCache, touch_entry-IsCache, remove_entry-IsCache,
}

lookup-has_key :
    (k : Text) (m : Entries) (e : CacheEntry) → lookup k m ≡ some e → has_key k m ≡ true
lookup-has_key k m e h = elim (Bool-cases (has_key k m)) [
  | inl has ↦ has
  | inr missing ↦ absurd (let none_here = lookup-eq-none k m missing in ground arith)
]

index_of_absent : (j : Text) (l : List Text) → count j l ≡ 0 → index_of j l ≡ none
index_of_absent j [] h = refl
index_of_absent j (k ∷ l) h = ground (arith, index_of_absent j l)

abbrev pub entry_at : ℕ → CacheManager → Msg → CacheEntry
entry_at now c response = record {
  response = response;
  expires_at = now + determine_ttl c response;
  cached_at = now;
  access_time = now;
}

positive_or-pos : (max : ℤ) → 1 ≤ positive_or max 10000
positive_or-pos (pos n) = ground arith
positive_or-pos (negsuc n) = omega arith

module _ (heap : Heap) where
  -- A call of one of the cache's operations.
  pub data Step : CacheManager → CacheManager → Type 0 where
    got : (now : ℕ) (c : CacheManager) (key : Text) → Step c (get_key heap now c key).0
    put :
        (now : ℕ) (c : CacheManager) (key : Text) (response : Msg)
        → Step c (set_key heap now c key response)
    deleted : (c : CacheManager) (key : Text) → Step c (delete_key heap c key).0
    flushed : (c : CacheManager) → Step c (flush heap c)
    cleaned : (now : ℕ) (c : CacheManager) → Step c (clean heap now c)

  pub data Reached : CacheManager → Type 0 where
    fresh :
        (max : ℤ) (default_ttl negative_ttl : ℕ)
        → Reached (new_cache_manager max default_ttl negative_ttl)
    after : (c c' : CacheManager) → Reached c → Step c c' → Reached c'

  removed_absent :
      (c : CacheManager) (key : Text)
      → has_key key c.entries ≡ false
      → IsCache heap c
      → remove_entry heap c key ≡ c
  unfolding remove_entry
  removed_absent c key missing (counted, order, distinct, bound, room) =
      let absent = index_of_absent key c.lru (ground (arith, counted key)) in
      let same = erase_absent key c.entries missing in
      ap
        (λ o.
          let lru : List Text = elim o [
            | none ↦ c.lru
            | some n ↦ heap.remove (accessed c.entries) n c.lru
          ] in
          record c { entries = erase key c.entries; lru = lru })
        absent
      ∙ ap (λ m. record c { entries = m }) same

  remove_any-IsCache :
      (c : CacheManager) (key : Text) → IsCache heap c → IsCache heap (remove_entry heap c key)
  remove_any-IsCache c key fine = elim (Bool-cases (has_key key c.entries)) [
    | inl has ↦ remove_entry-IsCache heap c key has fine
    | inr missing ↦ subst (IsCache heap) (sym (removed_absent c key missing fine)) fine
  ]

  either-IsCache :
      (t : Bool) (c d : CacheManager)
      → IsCache heap c
      → IsCache heap d
      → IsCache heap (if t then c else d)
  either-IsCache true c d fine fine' = fine
  either-IsCache false c d fine fine' = fine'

  clean_entries-IsCache :
      (now : ℕ) (rest : Entries) (c : CacheManager)
      → IsCache heap c
      → IsCache heap (clean_entries heap now rest c)
  unfolding clean_entries
  clean_entries-IsCache now [] c fine = fine
  clean_entries-IsCache now ((key, entry) ∷ rest) c fine =
      clean_entries-IsCache now rest
        (if ltb entry.expires_at now then remove_entry heap c key else c)
        (either-IsCache (ltb entry.expires_at now) (remove_entry heap c key) c
          (remove_any-IsCache c key fine) fine)

  get_key-IsCache :
      (now : ℕ) (c : CacheManager) (key : Text)
      → IsCache heap c
      → IsCache heap (get_key heap now c key).0
  unfolding get_key
  get_key-IsCache now c key fine = elim (Option-cases (lookup key c.entries)) [
    | inl none_here ↦ rw (none_here, get_key) fine
    | inr (entry, here) ↦ elim (Bool-cases (ltb entry.expires_at now)) [
      | inl old ↦ rw (here, get_key, old) (remove_any-IsCache c key fine)
      | inr new ↦
          rw (here, get_key, new)
            (touch_entry-IsCache heap c key (record entry { access_time = now })
              (lookup-has_key key c.entries entry here) fine)
    ]
  ]

  evict_lru-max_entries : (c : CacheManager) → (evict_lru heap c).max_entries ≡ c.max_entries
  unfolding evict_lru
  evict_lru-max_entries c = elim (Option-cases (heap.pop (accessed c.entries) c.lru)) [
    | inl none_left ↦ rw (none_left, evict_lru) refl
    | inr ((oldest, lru), taken) ↦ rw (taken, evict_lru) refl
  ]

  bounded : (c : CacheManager) → IsCache heap c → length c.entries ≤ c.max_entries
  bounded c (counted, order, distinct, bound, room) = bound

  pub full_some :
      (c : CacheManager)
      → IsCache heap c
      → leb c.max_entries (length c.entries) ≡ true
      → 1 ≤ length c.entries
  full_some c (counted, order, distinct, bound, room) full = ground arith

  set_key-IsCache :
      (now : ℕ) (c : CacheManager) (key : Text) (response : Msg)
      → IsCache heap c
      → IsCache heap (set_key heap now c key response)
  unfolding set_key
  set_key-IsCache now c key response fine = elim (Bool-cases (determine_ttl c response == 0)) [
    | inl no_ttl ↦ rw no_ttl fine
    | inr ttl ↦ elim (Bool-cases (has_key key c.entries)) [
      | inl has ↦ rw (ttl, has) (touch_entry-IsCache heap c key (entry_at now c response) has fine)
      | inr missing ↦ elim (Bool-cases (leb c.max_entries (length c.entries))) [
        | inr free ↦
            rw (ttl, missing, free)
              (put_entry-IsCache heap c key (entry_at now c response) missing (ground arith) fine)
        | inl full ↦
            rw (ttl, missing, full)
              (let (oldest, (was, least, rest), fine', shorter) =
                  evict_lru-IsEvicted heap c fine (full_some c fine full) in
                put_entry-IsCache heap (evict_lru heap c) key (entry_at now c response)
                  (ap (has_key key) rest ∙ ground (arith, has_key-erase oldest key c.entries))
                  (ground (arith, evict_lru-max_entries c, bounded c fine)) fine')
      ]
    ]
  ]

  Step-IsCache : (c c' : CacheManager) → Step c c' → IsCache heap c → IsCache heap c'
  unfolding flush delete_key has_key
  Step-IsCache _ _ (got now c key) fine = get_key-IsCache now c key fine
  Step-IsCache _ _ (put now c key response) fine = set_key-IsCache now c key response fine
  Step-IsCache _ _ (deleted c key) fine = elim (Bool-cases (has_key key c.entries)) [
    | inl has ↦ rw has (remove_any-IsCache c key fine)
    | inr missing ↦ rw missing fine
  ]
  Step-IsCache _ _ (flushed c) (counted, order, distinct, bound, room) =
      ((λ j. refl), heap.IsHeap_nil (accessed []), tt, omega arith, room)
  Step-IsCache _ _ (cleaned now c) fine = clean_entries-IsCache now c.entries c fine

  -- After any calls, the heap is in order and has each key of the map exactly once, no key is in the
  -- map twice, and the map has no more entries than the limit, which is at least 1.
  pub Reached-IsCache : (c : CacheManager) → Reached c → IsCache heap c
  unfolding new_cache_manager has_key
  Reached-IsCache _ (fresh max default_ttl negative_ttl) =
      ((λ j. refl), heap.IsHeap_nil (accessed []), tt, omega arith, positive_or-pos max)
  Reached-IsCache _ (after c c' before step) = Step-IsCache c c' step (Reached-IsCache c before)
