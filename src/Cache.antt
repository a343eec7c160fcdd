-- ===== src/Cache.antt =====
-- The cache of responses (internal/dnsserver/cache.go). An entry is known by the key under which the
-- map has it: the heap is a list of keys, and an entry's heapIdx is its place there, which Swap,
-- Push and Pop keep. container/heap is the parameter `heap`. Times are nanoseconds, `now` is what
-- the clock says during a call.
pub mod Lru
pub mod Invariant
pub mod Runs
pub mod Answers
use domudns.Prelude.{
  ℕ, ◌+◌, ◌-◌, ◌*◌, ◌/◌, ◌%◌, ◌^◌, Bool, true, false, not, ◌||◌, ◌&&◌, List, [], ◌∷◌, ◌++◌, map,
  length, take, ltb, leb, ◌==◌, Option, none, some, text_eq, text_beq, if◌then◌else◌,
}
use domudns.Prelude.Int.{ℤ, pos, negsuc}
use domudns.Assoc.{lookup, insert, erase, has_key}
use domudns.Text.{Text, codes}
use domudns.Mdns.{Header, Rr, Msg, Mdns, rcode_success, type_opt}
use domudns.Cache.Lru.{Heap, index_of}

abbrev pub second : ℕ
second = 1000000000

abbrev pub u32_mod : ℕ
u32_mod = 2 ^ 32

abbrev pub u64_mod : ℕ
u64_mod = 2 ^ 64

pub record CacheEntry : Type 0 where
  pub response : Msg
  pub expires_at : ℕ
  pub cached_at : ℕ
  pub access_time : ℕ

abbrev pub Entries : Type 0
Entries = List (Text × CacheEntry)

pub record CacheManager : Type 0 where
  pub entries : Entries
  pub lru : List Text
  pub max_entries : ℕ
  pub default_ttl : ℕ
  pub negative_ttl : ℕ
  pub hits : ℕ
  pub misses : ℕ

abbrev pub or_default : ℕ → ℕ → ℕ
or_default n d = if n == 0 then d else n

abbrev pub positive_or : ℤ → ℕ → ℕ
positive_or (pos n) d = or_default n d
positive_or (negsuc n) d = d

unfoldable pub new_cache_manager : ℤ → ℕ → ℕ → CacheManager
new_cache_manager max_entries default_ttl negative_ttl = record {
  entries = [];
  lru = [];
  max_entries = positive_or max_entries 10000;
  default_ttl = or_default default_ttl (3600 * second);
  negative_ttl = or_default negative_ttl (300 * second);
  hits = 0;
  misses = 0;
}

-- accessTime, by which the heap is ordered
unfoldable pub accessed : Entries → Text → ℕ
accessed entries key = elim (lookup key entries) [ none ↦ 0 | some e ↦ e.access_time ]

unfoldable pub decrement_ttl : ℕ → Rr → Rr
decrement_ttl elapsed_sec rr =
    let h = rr.hdr in
    if h.rrtype == type_opt
    then rr
    else if ltb elapsed_sec h.ttl
    then record rr { hdr = record h { ttl = h.ttl - elapsed_sec } }
    else record rr { hdr = record h { ttl = 1 } }

unfoldable pub decrement_ttls : Msg → ℕ → Msg
decrement_ttls msg elapsed =
    let elapsed_sec = (elapsed / second) % u32_mod in
    if elapsed_sec == 0 then msg else record msg {
      answer = map (decrement_ttl elapsed_sec) msg.answer;
      ns = map (decrement_ttl elapsed_sec) msg.ns;
      extra = map (decrement_ttl elapsed_sec) msg.extra;
    }

unfoldable pub min_ttl : ℕ → List Rr → ℕ
min_ttl least [] = least
min_ttl least (rr ∷ rrs) = min_ttl (if ltb rr.hdr.ttl least then rr.hdr.ttl else least) rrs

-- The first record sets the minimum, the others lower it.
unfoldable pub answer_ttl : List Rr → ℕ
answer_ttl [] = 0
answer_ttl (rr ∷ rrs) = min_ttl rr.hdr.ttl rrs

unfoldable pub determine_ttl : CacheManager → Msg → ℕ
determine_ttl c response =
    if not (response.rcode == rcode_success) || (length response.answer == 0)
    then c.negative_ttl
    else if answer_ttl response.answer == 0
    then c.default_ttl
    else answer_ttl response.answer * second

module _ (heap : Heap) where
  -- heap.Fix at the entry's place
  unfoldable pub fix_entry : Entries → Text → List Text → List Text
  fix_entry entries key lru = elim (index_of key lru) [
    | none ↦ lru
    | some i ↦ heap.fix (accessed entries) i lru
  ]

  unfoldable pub remove_entry : CacheManager → Text → CacheManager
  remove_entry c key = record c {
    entries = erase key c.entries;
    lru = elim (index_of key c.lru) [
      | none ↦ c.lru
      | some i ↦ heap.remove (accessed c.entries) i c.lru
    ];
  }

  unfoldable pub evict_lru : CacheManager → CacheManager
  evict_lru c = elim (heap.pop (accessed c.entries) c.lru) [
    | none ↦ c
    | some (oldest, lru) ↦ record c { entries = erase oldest c.entries; lru = lru }
  ]

  abbrev pub put_entry : CacheManager → Text → CacheEntry → CacheManager
  put_entry c key entry =
      let entries = insert key entry c.entries in
      record c { entries = entries; lru = heap.push (accessed entries) key c.lru }

  abbrev pub touch_entry : CacheManager → Text → CacheEntry → CacheManager
  touch_entry c key entry =
      let entries = insert key entry c.entries in
      record c { entries = entries; lru = fix_entry entries key c.lru }

  unfoldable pub get_key : ℕ → CacheManager → Text → CacheManager × Option Msg
  get_key now c key = elim (lookup key c.entries) [
    | none ↦ (record c { misses = (c.misses + 1) % u64_mod }, none)
    | some entry ↦
        if ltb entry.expires_at now
        then (record (remove_entry c key) { misses = (c.misses + 1) % u64_mod }, none)
        else (
          record (touch_entry c key (record entry { access_time = now })) {
            hits = (c.hits + 1) % u64_mod;
          },
          some (decrement_ttls entry.response (now - entry.cached_at)),
        )
  ]

  unfoldable pub set_key : ℕ → CacheManager → Text → Msg → CacheManager
  set_key now c key response =
      let ttl = determine_ttl c response in
      let entry : CacheEntry = record {
        response = response;
        expires_at = now + ttl;
        cached_at = now;
        access_time = now;
      } in
      if ttl == 0
      then c
      else if has_key key c.entries
      then touch_entry c key entry
      else if leb c.max_entries (length c.entries)
      then put_entry (evict_lru c) key entry
      else put_entry c key entry

  unfoldable pub flush : CacheManager → CacheManager
  flush c = record c { entries = []; lru = []; hits = 0; misses = 0 }

  unfoldable pub delete_key : CacheManager → Text → CacheManager × Bool
  delete_key c key = if has_key key c.entries then (remove_entry c key, true) else (c, false)

  -- The loop of Clean over the entries of the map.
  unfoldable pub clean_entries : ℕ → Entries → CacheManager → CacheManager
  clean_entries now [] c = c
  clean_entries now ((key, entry) ∷ rest) c =
      clean_entries now rest (if ltb entry.expires_at now then remove_entry c key else c)

  abbrev pub clean : ℕ → CacheManager → CacheManager
  clean now c = clean_entries now c.entries c

  module _ (mdns : Mdns) (format : ℕ → Text) where
    -- cacheKey; a type without a name goes in as its number, printed by `format`.
    unfoldable pub cache_key : Text → ℕ → Text
    cache_key qname qtype =
        let type_str = mdns.type_to_string qtype in
        mdns.canonical_name qname
        ++ (b':' ∷ (if length type_str == 0 then format qtype else type_str))

    abbrev pub get : ℕ → CacheManager → Text → ℕ → CacheManager × Option Msg
    get now c qname qtype = get_key now c (cache_key qname qtype)

    -- `none` is the nil response.
    abbrev pub set : ℕ → CacheManager → Text → ℕ → Option Msg → CacheManager
    set now c qname qtype none = c
    set now c qname qtype (some response) = set_key now c (cache_key qname qtype) response

    abbrev pub delete : CacheManager → Text → ℕ → CacheManager × Bool
    delete c qname qtype = delete_key c (cache_key qname qtype)
