-- ===== src/Cache/Answers.antt =====
-- What the cache answers: the response that was put in, for as long as its records may live, and
-- which entry makes room for a new one.
use domudns.Prelude.{
  ℕ, ◌+◌, ◌-◌, ◌*◌, ◌≤◌, ◌≡◌, ◌≢◌, ◌⊎◌, sym, ap, ◌∙◌, Bool, true, false, Option, List, [], ◌∷◌,
  length, ltb, ◌==◌, none, some, All, text_beq_iff, text_eq, arith, if◌then◌else◌,
}
use domudns.Assoc.{lookup, insert, erase, has_key, lookup-insert}
use domudns.Text.{Text}
use domudns.Mdns.{Rr, Msg, type_opt, rcode_success}
use domudns.Cache.Lru.{Heap}
use domudns.Cache.{
  second, CacheEntry, CacheManager, accessed, evict_lru, determine_ttl, min_ttl, answer_ttl,
  decrement_ttls, get_key, set_key,
}
use domudns.Cache.Invariant.{IsCache, evict_lru-IsEvicted}
use domudns.Cache.Runs.{entry_at, full_some}

-- A record after `seconds`: an OPT record is the same, and the TTL of any other is lowered by the
-- seconds, or 1 if it is no greater than these. After no second nothing has changed.
abbrev pub IsAgedRr : ℕ → Rr → Rr → Type 0
IsAgedRr seconds rr rr' =
    (rr' ≡ record rr { hdr = record rr.hdr { ttl = rr'.hdr.ttl } })
    × (((rr.hdr.rrtype ≡ type_opt) × (rr'.hdr.ttl ≡ rr.hdr.ttl))
        ⊎ (((rr.hdr.rrtype ≢ type_opt) × (rr'.hdr.ttl + seconds ≡ rr.hdr.ttl))
            ⊎ ((rr.hdr.rrtype ≢ type_opt)
                × (1 ≤ seconds)
                × (rr.hdr.ttl ≤ seconds)
                × (rr'.hdr.ttl ≡ 1))))

-- Record by record
abbrev pub AreAged : ℕ → List Rr → List Rr → Type 0
AreAged seconds [] [] = Unit
AreAged seconds (rr ∷ rrs) (rr' ∷ rrs') = IsAgedRr seconds rr rr' × AreAged seconds rrs rrs'
AreAged seconds [] (rr' ∷ rrs') = ⊥
AreAged seconds (rr ∷ rrs) [] = ⊥

abbrev pub IsAged : ℕ → Msg → Msg → Type 0
IsAged seconds m m' =
    (m' ≡ record m { answer = m'.answer; ns = m'.ns; extra = m'.extra })
    × AreAged seconds m.answer m'.answer
    × AreAged seconds m.ns m'.ns
    × AreAged seconds m.extra m'.extra

-- What Get is to return `seconds` after a response was put in.
abbrev pub IsAnswer : Bool → ℕ → Msg → Option Msg → Type 0
IsAnswer true seconds response got = got ≡ none
IsAnswer false seconds response got = (m : Msg) × (got ≡ some m) × IsAged seconds response m

module _ (heap : Heap) where
  set_key-lookup :
      (now : ℕ) (c : CacheManager) (key : Text) (response : Msg)
      → 1 ≤ determine_ttl c response
      → lookup key (set_key heap now c key response).entries ≡ some (entry_at now c response)
  unfolding set_key
  set_key-lookup now c key response ttl =
      let e = entry_at now c response in
      ground (
        arith,
        text_beq_iff key key,
        lookup-insert key key e c.entries,
        lookup-insert key key e (evict_lru heap c).entries,
      )

  get_key-lookup :
      (now : ℕ) (c : CacheManager) (key : Text) (e : CacheEntry)
      → lookup key c.entries ≡ some e
      → (get_key heap now c key).1 ≡ (
          if ltb e.expires_at now
          then none
          else some (decrement_ttls e.response (now - e.cached_at)))
  unfolding get_key
  get_key-lookup now c key e here = ground (arith, here)

  stored_key :
      (now later : ℕ) (c : CacheManager) (key : Text) (response : Msg)
      → 1 ≤ determine_ttl c response
      → (get_key heap later (set_key heap now c key response) key).1 ≡ (
          if ltb (now + determine_ttl c response) later
          then none
          else some (decrement_ttls response (later - now)))
  stored_key now later c key response ttl =
      get_key-lookup later (set_key heap now c key response) key (entry_at now c response)
        (set_key-lookup now c key response ttl)

  -- A full cache that takes in a new key gives up exactly one entry, and no key left in the heap was
  -- read or written longer ago.
  pub set_key-evicts :
      (now : ℕ) (c : CacheManager) (key : Text) (response : Msg)
      → IsCache heap c
      → has_key key c.entries ≡ false
      → length c.entries ≡ c.max_entries
      → 1 ≤ determine_ttl c response
      → (oldest : Text) × (has_key oldest c.entries ≡ true)
        × All (λ j. accessed c.entries oldest ≤ accessed c.entries j) (evict_lru heap c).lru
        × ((set_key heap now c key response).entries
            ≡ insert key (entry_at now c response) (erase oldest c.entries))
  unfolding set_key
  set_key-evicts now c key response fine missing full ttl =
      let (oldest, (was, least, rest), fine', shorter) =
        evict_lru-IsEvicted heap c fine (full_some heap c fine (ground arith)) in
      (oldest, was, least, ground (arith, ap (insert key (entry_at now c response)) rest))

le-min_ttl :
    (least : ℕ) (rrs : List Rr)
    → (min_ttl least rrs ≤ least) × All (λ rr. min_ttl least rrs ≤ rr.hdr.ttl) rrs
unfolding min_ttl
le-min_ttl least [] = (omega arith, tt)
le-min_ttl least (rr ∷ rrs) =
    let here = le-min_ttl (if ltb rr.hdr.ttl least then rr.hdr.ttl else least) rrs in
    (ground (arith, here.0), (ground (arith, here.0), here.1))

answer_ttl-le : (rrs : List Rr) → All (λ rr. answer_ttl rrs ≤ rr.hdr.ttl) rrs
unfolding answer_ttl
answer_ttl-le [] = tt
answer_ttl-le (rr ∷ rrs) = le-min_ttl rr.hdr.ttl rrs

answer_ttl-some : (rrs : List Rr) → 1 ≤ answer_ttl rrs → (length rrs == 0) ≡ false
unfolding answer_ttl
answer_ttl-some [] h = absurd (omega arith)
answer_ttl-some (rr ∷ rrs) h = ground arith

fresh_until :
    (least lived : ℕ) (rrs : List Rr)
    → All (λ rr. least ≤ rr.hdr.ttl) rrs
    → lived ≤ least * second
    → All (λ rr. lived ≤ rr.hdr.ttl * second) rrs
fresh_until least lived [] low h = tt
fresh_until least lived (rr ∷ rrs) low h = (omega arith, fresh_until least lived rrs low.1 h)

-- Get returns a response of code NOERROR with records in its answer, none of whose TTLs was 0 when it
-- was put in, only as long as each of these records may live.
pub get_key-fresh :
    (heap : Heap) (now later : ℕ) (c : CacheManager) (key : Text) (response m : Msg)
    → response.rcode ≡ rcode_success
    → 1 ≤ answer_ttl response.answer
    → (get_key heap later (set_key heap now c key response) key).1 ≡ some m
    → All (λ rr. later - now ≤ rr.hdr.ttl * second) response.answer
unfolding determine_ttl
get_key-fresh heap now later c key response m good some_ttl hit =
    let some_answer : (length response.answer == 0) ≡ false =
      answer_ttl-some response.answer some_ttl in
    let ttl : determine_ttl c response ≡ answer_ttl response.answer * second = ground arith in
    let got = sym hit ∙ stored_key heap now later c key response (ground arith) in
    let lived : later - now ≤ answer_ttl response.answer * second = ground arith in
    fresh_until (answer_ttl response.answer) (later - now) response.answer
      (answer_ttl-le response.answer) lived
