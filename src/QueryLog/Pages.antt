-- ===== src/QueryLog/Pages.antt =====
-- What a page of the query log and a drained batch hold.
use domudns.Prelude.{
  ℕ, zero, suc, ◌+◌, ◌-◌, ◌*◌, ◌≤◌, ◌≡◌, refl, sym, ap, ◌∙◌, List, [], ◌∷◌, ◌++◌, length, take,
  drop, select, ltb, leb, ◌==◌, if◌then◌else◌, arith, Bool-cases, inl, inr,
}
use domudns.Prelude.Int.{pos}
use domudns.QueryLog.{
  QueryLogEntry, QueryLogFilter, RingBuffer, filtered, matches_filter, page_limit, page_offset,
  positive_or, query, drain, ordered,
}
use domudns.QueryLog.Windows.{newest, newest-all}
use domudns.QueryLog.Ring.{IsRing, length-ordered}

module _ {ℓ} {A : Type ℓ} where
  take-nil : (n : ℕ) → take {A = A} n [] ≡ []
  take-nil zero = refl
  take-nil (suc n) = refl

  -- A window cut at its end first, and at its start first.
  drop-take : (o n : ℕ) (xs : List A) → drop o (take (o + n) xs) ≡ take n (drop o xs)
  drop-take zero n xs = let e : 0 + n ≡ n = omega arith in ap (λ k. take k xs) e
  drop-take (suc o) n [] = ap (drop (suc o)) (take-nil (suc o + n)) ∙ sym (take-nil n)
  drop-take (suc o) n (x ∷ xs) =
      let e : suc o + n ≡ suc (o + n) = omega arith in
      ap (λ k. drop (suc o) (take k (x ∷ xs))) e ∙ drop-take o n xs

  drop_past : (o : ℕ) (xs : List A) → length xs ≤ o → drop o xs ≡ []
  drop_past zero [] h = refl
  drop_past zero (x ∷ xs) h = absurd (omega arith)
  drop_past (suc o) [] h = refl
  drop_past (suc o) (x ∷ xs) h = drop_past o xs (omega arith)

  take_past : (n : ℕ) (xs : List A) → length xs ≤ n → take n xs ≡ take (length xs) xs
  take_past n [] h = take-nil n
  take_past zero (x ∷ xs) h = absurd (omega arith)
  take_past (suc n) (x ∷ xs) h = ap (◌∷◌ x) (take_past n xs (omega arith))

  take-append-window : (n k : ℕ) (xs : List A) → take n xs ++ take k (drop n xs) ≡ take (n + k) xs
  take-append-window zero k xs = let e : k ≡ 0 + k = omega arith in ap (λ m. take m xs) e
  take-append-window (suc n) k [] = take-nil k ∙ sym (take-nil (suc n + k))
  take-append-window (suc n) k (x ∷ xs) =
      let e : suc (n + k) ≡ suc n + k = omega arith in
      ap (◌∷◌ x) (take-append-window n k xs) ∙ ap (λ m. take m (x ∷ xs)) e

  window_of :
      (o n : ℕ) (xs : List A)
      → (if leb (length xs) o
          then []
          else drop o (take (if ltb (length xs) (o + n) then length xs else o + n) xs))
        ≡ take n (drop o xs)
  window_of o n xs = elim (Bool-cases (leb (length xs) o)) [
    | inl past ↦ rw (past, drop_past o xs (ground arith), take-nil n)
    | inr more ↦ elim (Bool-cases (ltb (length xs) (o + n))) [
      | inl short ↦ rw (more, short, sym (take_past (o + n) xs (ground arith)), drop-take o n xs)
      | inr long ↦ rw (more, long, drop-take o n xs)
    ]
  ]

-- Where a list is longer than a positive `n`, only its last `n` elements are kept.
cut {ℓ} :
    {A : Type ℓ} (n : ℕ) (xs : List A)
    → (if ltb (suc n) (length xs) then drop (length xs - suc n) xs else xs) ≡ newest (suc n) xs
cut n xs = elim (Bool-cases (ltb (suc n) (length xs))) [
  | inl long ↦ rw long
  | inr short ↦ rw short (sym (newest-all (suc n) xs (ground arith)))
]

-- A page of the log is the window of the matching entries, the newest first, that starts at the
-- offset and is at most as long as the limit; `total` counts all matches, and `has_more` tells
-- whether any lies behind the page. The limit is 1 to 1000.
pub query-window :
    (r : RingBuffer) (f : QueryLogFilter)
    → ((query r f).entries ≡ take (page_limit f.limit) (drop (page_offset f.offset) (filtered r f)))
      × ((query r f).total ≡ length (filtered r f))
      × ((query r f).has_more
          ≡ ltb (page_offset f.offset + page_limit f.limit) (length (filtered r f)))
      × (1 ≤ page_limit f.limit)
      × (page_limit f.limit ≤ 1000)
unfolding query page_limit
query-window r f =
    let window = window_of (page_offset f.offset) (page_limit f.limit) (filtered r f) in
    (ground (arith, window), ground arith, ground arith, ground arith, ground arith)

-- Page number `k` of a filter, with its own limit.
abbrev pub page : RingBuffer → QueryLogFilter → ℕ → List QueryLogEntry
page r f k = (query r (record f { offset = pos (k * page_limit f.limit) })).entries

abbrev pub pages : RingBuffer → QueryLogFilter → ℕ → List QueryLogEntry
pages r f zero = []
pages r f (suc k) = pages r f k ++ page r f k

page-window :
    (r : RingBuffer) (f : QueryLogFilter) (k : ℕ)
    → page r f k ≡ take (page_limit f.limit) (drop (k * page_limit f.limit) (filtered r f))
unfolding page_offset filtered matches_filter
page-window r f k =
    let start : positive_or (pos (k * page_limit f.limit)) 0 ≡ k * page_limit f.limit =
      ground arith in
    (query-window r (record f { offset = pos (k * page_limit f.limit) })).0
    ∙ ap (λ o. take (page_limit f.limit) (drop o (filtered r f))) start

-- Reading page after page loses, repeats and misplaces nothing: the first `n` pages are the first
-- `n` times the limit of the matching entries.
pub pages-take :
    (r : RingBuffer) (f : QueryLogFilter) (n : ℕ)
    → pages r f n ≡ take (n * page_limit f.limit) (filtered r f)
pages-take r f zero =
    let e : 0 ≡ 0 * page_limit f.limit = omega arith in ap (λ m. take m (filtered r f)) e
pages-take r f (suc n) =
    let l = page_limit f.limit in
    let e : n * l + l ≡ suc n * l = omega arith in
    ap (λ x. x ++ page r f n) (pages-take r f n)
    ∙ (ap (λ x. take (n * l) (filtered r f) ++ x) (page-window r f n)
        ∙ (take-append-window (n * l) l (filtered r f) ∙ ap (λ m. take m (filtered r f)) e))

-- Draining a well-formed ring gives the entries logged after the time `since`, the oldest first, or
-- all for the zero time; a positive `max` keeps only the newest `max` of them.
pub drain-newest :
    (r : RingBuffer) (since max : ℕ)
    → IsRing r
    → (drain r since (pos 0)
        ≡ (if since == 0 then ordered r else select (λ e. ltb since e.timestamp) (ordered r)))
      × (drain r since (pos (suc max)) ≡ newest (suc max) (drain r since (pos 0)))
unfolding drain
drain-newest r since max ring = elim (Bool-cases (r.count == 0)) [
  | inl none_held ↦
      let empty : ordered r ≡ [] = nothing (ordered r) (ground (arith, length-ordered r ring)) in
      (
        rw (empty, none_held) (ground arith),
        rw (empty, none_held) (sym (drop_past (0 - suc max) [] (omega arith))),
      )
  | inr held ↦ (
    ground arith,
    ground (
      arith,
      cut max (if since == 0 then ordered r else select (λ e. ltb since e.timestamp) (ordered r)),
    ),
  )
]
  where
    nothing : (l : List QueryLogEntry) → length l ≡ 0 → l ≡ []
    nothing [] h = refl
    nothing (e ∷ l) h = absurd (omega arith)
