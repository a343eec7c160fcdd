-- ===== src/RateLimit/Tracked.antt =====
-- The table of clients: how large it gets, and that clients do not share a bucket.
use domudns.Prelude.{
  ℕ, ◌+◌, ◌≤◌, ◌<◌, ◌≡◌, ◌⊎◌, inl, inr, refl, Bool, true, false, not, ◌||◌, List, [], ◌∷◌, length,
  select, leb, ltb, none, some, Option-cases, Bool-cases, text_eq, text_beq, arith,
  length-select-le,
}
use domudns.Assoc.{Distinct, lookup, has_key, lookup-insert, length-insert, insert-Distinct}
use domudns.Text.{Text}
use domudns.Net.{Ip}
use domudns.RateLimit.{
  QueryRateLimiter, RateLimitEntry, allow_tracked, cleanup, is_exempt, max_rate_limit_entries,
  take_token, rate_limit_idle_ttl,
}

-- A client has one bucket, and at most 50,000 clients are tracked.
abbrev pub IsTable : {L : Type 0} → QueryRateLimiter L → Type 0
IsTable l = Distinct l.limiters × (length l.limiters ≤ max_rate_limit_entries)

has_key-select :
    {L : Type 0} (p : Text × L → Bool) (k : Text) (m : List (Text × L))
    → has_key k m ≡ false
    → has_key k (select p m) ≡ false
unfolding has_key
has_key-select p k [] h = refl
has_key-select p k (x ∷ m) h = ground (arith, has_key-select p k m)

has_key_of :
    {L : Type 0} (k : Text) (m : List (Text × L)) (v : L) → lookup k m ≡ some v → has_key k m ≡ true
unfolding lookup has_key
has_key_of k [] v h = absurd (ground arith)
has_key_of k ((j, w) ∷ m) v h = ground (arith, has_key_of k m v)

select-Distinct :
    {L : Type 0} (p : Text × L → Bool) (m : List (Text × L)) → Distinct m → Distinct (select p m)
unfolding has_key
select-Distinct p [] d = tt
select-Distinct p ((k, v) ∷ m) (new, d) =
    ground (arith, has_key-select p k m new, select-Distinct p m d)

module _ {L : Type 0} where
  -- A sweep of idle clients keeps the table well formed.
  cleanup-IsTable : (now : ℕ) (l : QueryRateLimiter L) → IsTable l → IsTable (cleanup now l)
  unfolding cleanup
  cleanup-IsTable now l (distinct, small) =
      let keep =
        λ (p : Text × RateLimitEntry L). not (ltb (p.1.last_used + rate_limit_idle_ttl) now) in
      (
        select-Distinct keep l.limiters distinct,
        omega (arith, small, length-select-le keep l.limiters),
      )

  module _ (fresh : ℕ → L) (allow_at : ℕ → L → L × Bool) (ip_text : Ip → Text) where
    known_or_room :
        (now : ℕ) (l : QueryRateLimiter L) (key : Text) (lim : L)
        → IsTable l
        → (has_key key l.limiters ≡ true) ⊎ (length l.limiters < max_rate_limit_entries)
        → IsTable (take_token fresh allow_at ip_text now l key lim).0
    unfolding take_token
    known_or_room now l key lim (distinct, small) h =
        let entry : RateLimitEntry L = record { limiter = (allow_at now lim).0; last_used = now } in
        (
          insert-Distinct key entry l.limiters distinct,
          ground (arith, length-insert key entry l.limiters),
        )

    -- A query and a sweep of idle clients keep a well-formed table so: one bucket for a client, and
    -- at most 50,000 clients.
    pub allow_tracked-IsTable :
        (now : ℕ) (l : QueryRateLimiter L) (ip : Ip)
        → IsTable l
        → IsTable (allow_tracked fresh allow_at ip_text now l ip).0 × IsTable (cleanup now l)
    unfolding allow_tracked
    allow_tracked-IsTable now l ip good = (after_query, cleanup-IsTable now l good)
      where
        after_query : IsTable (allow_tracked fresh allow_at ip_text now l ip).0
        after_query = elim (Bool-cases (is_exempt l ip)) [
          | inl exempt ↦ rw (exempt, allow_tracked) good
          | inr counted ↦ elim (Option-cases (lookup (ip_text ip) l.limiters)) [
            | inr (ent, known) ↦
                rw (counted, known, allow_tracked)
                  (known_or_room now l (ip_text ip) ent.limiter good
                    (inl (has_key_of (ip_text ip) l.limiters ent known)))
            | inl unknown ↦ elim (Bool-cases (leb max_rate_limit_entries (length l.limiters))) [
              | inl full ↦ rw (counted, unknown, full, allow_tracked) good
              | inr room ↦
                  rw (counted, unknown, room, allow_tracked)
                    (known_or_room now l (ip_text ip) (fresh l.queries_per_minute) good
                      (inr (ground arith)))
            ]
          ]
        ]

    other_kept :
        (now : ℕ) (l : QueryRateLimiter L) (key other : Text) (lim : L)
        → text_beq key other ≡ false
        → lookup other (take_token fresh allow_at ip_text now l key lim).0.limiters
          ≡ lookup other l.limiters
    unfolding take_token
    other_kept now l key other lim different =
        let entry : RateLimitEntry L = record { limiter = (allow_at now lim).0; last_used = now } in
        ground (arith, lookup-insert key other entry l.limiters)

    -- A query of one client leaves the bucket of every other client as it was, and adds or removes
    -- no entry of another client.
    pub allow_tracked-lookup :
        (now : ℕ) (l : QueryRateLimiter L) (ip : Ip) (other : Text)
        → text_beq (ip_text ip) other ≡ false
        → lookup other (allow_tracked fresh allow_at ip_text now l ip).0.limiters
          ≡ lookup other l.limiters
    unfolding allow_tracked
    allow_tracked-lookup now l ip other different = elim (Bool-cases (is_exempt l ip)) [
      | inl exempt ↦ rw (exempt, allow_tracked)
      | inr counted ↦ elim (Option-cases (lookup (ip_text ip) l.limiters)) [
        | inr (ent, known) ↦
            rw (counted, known, allow_tracked)
              (other_kept now l (ip_text ip) other ent.limiter different)
        | inl unknown ↦ elim (Bool-cases (leb max_rate_limit_entries (length l.limiters))) [
          | inl full ↦ rw (counted, unknown, full, allow_tracked)
          | inr room ↦
              rw (counted, unknown, room, allow_tracked)
                (other_kept now l (ip_text ip) other (fresh l.queries_per_minute) different)
        ]
      ]
    ]

    -- The bucket of a client: its own, or a fresh one.
    abbrev pub bucket : QueryRateLimiter L → Text → L
    bucket l key = elim (lookup key l.limiters) [
      | none ↦ fresh l.queries_per_minute
      | some ent ↦ ent.limiter
    ]

    -- A query is refused only if the client is in no exempt network and its bucket, its own or a
    -- fresh one, refuses at that time; a client without a bucket is never refused where 50,000
    -- clients are tracked already.
    pub allow_tracked-refused :
        (now : ℕ) (l : QueryRateLimiter L) (ip : Ip)
        → (allow_tracked fresh allow_at ip_text now l ip).1 ≡ false
        → (is_exempt l ip ≡ false)
          × ((allow_at now (bucket l (ip_text ip))).1 ≡ false)
          × ((has_key (ip_text ip) l.limiters || ltb (length l.limiters) max_rate_limit_entries)
              ≡ true)
    unfolding allow_tracked take_token
    allow_tracked-refused now l ip refused = elim (Option-cases (lookup (ip_text ip) l.limiters)) [
      | inr (ent, known) ↦
          (ground arith, ground arith, ground (arith, has_key_of (ip_text ip) l.limiters ent known))
      | inl unknown ↦ (ground arith, ground arith, ground arith)
    ]
