-- ===== src/QueryLog.antt =====
-- The query log in memory (internal/querylog/ringbuffer.go and types.go). A time is its nanoseconds
-- since Go's zero time.
pub mod Windows
pub mod Ring
pub mod Pages
pub mod Stats
use domudns.Prelude.{
  ℕ, ◌+◌, ◌-◌, ◌%◌, Bool, true, not, ◌&&◌, List, [], ◌∷◌, ◌++◌, length, take, drop, set, select,
  replicate, ltb, leb, ◌==◌, text_beq, if◌then◌else◌,
}
use domudns.Prelude.Int.{ℤ, pos, negsuc}
use domudns.Text.{Text, has_prefix, contains}
use mathlib.Core.List.{reverse}

pub record QueryLogEntry : Type 0 where
  pub timestamp : ℕ
  pub node_id : Text
  pub client_ip : Text
  pub domain : Text
  pub qtype : Text
  pub result : Text
  pub latency : ℤ
  pub upstream : Text
  pub blocked : Bool
  pub cached : Bool
  pub rcode : ℤ

pub record QueryLogFilter : Type 0 where
  pub client : Text
  pub domain : Text
  pub result : Text
  pub qtype : Text
  pub node : Text
  pub since : ℕ
  pub until : ℕ
  pub limit : ℤ
  pub offset : ℤ

pub record QueryLogPage : Type 0 where
  pub entries : List QueryLogEntry
  pub total : ℕ
  pub has_more : Bool

pub record RingBuffer : Type 0 where
  pub entries : List QueryLogEntry
  pub capacity : ℕ
  pub head : ℕ
  pub count : ℕ

-- the zero value of an entry
abbrev pub no_entry : QueryLogEntry
no_entry = record {
  timestamp = 0;
  node_id = [];
  client_ip = [];
  domain = [];
  qtype = [];
  result = [];
  latency = pos 0;
  upstream = [];
  blocked = Bool.false;
  cached = Bool.false;
  rcode = pos 0;
}

-- `if z <= 0 { z = n }`
abbrev pub positive_or : ℤ → ℕ → ℕ
positive_or (pos n) d = if n == 0 then d else n
positive_or (negsuc n) d = d

unfoldable pub new_ring_buffer : ℤ → RingBuffer
new_ring_buffer capacity =
    let n = positive_or capacity 5000 in
    record { entries = replicate n no_entry; capacity = n; head = 0; count = 0 }

unfoldable pub add : RingBuffer → QueryLogEntry → RingBuffer
add r entry = record r {
  entries = set r.entries r.head entry;
  head = (r.head + 1) % r.capacity;
  count = if ltb r.count r.capacity then r.count + 1 else r.count;
}

-- The entries with the oldest first, as both Query and Drain collect them.
unfoldable pub ordered : RingBuffer → List QueryLogEntry
ordered r =
    if ltb r.count r.capacity
    then take r.count r.entries
    else drop r.head r.entries ++ take r.head r.entries

-- An empty text or a zero time sets no condition.
unfoldable pub matches_filter : QueryLogFilter → QueryLogEntry → Bool
matches_filter f e =
    if not (length f.client == 0) && not (has_prefix e.client_ip f.client)
    then Bool.false
    else if not (length f.domain == 0) && not (contains e.domain f.domain)
    then Bool.false
    else if not (length f.result == 0) && not (text_beq e.result f.result)
    then Bool.false
    else if not (length f.qtype == 0) && not (text_beq e.qtype f.qtype)
    then Bool.false
    else if not (length f.node == 0) && not (text_beq e.node_id f.node)
    then Bool.false
    else if not (f.since == 0) && ltb e.timestamp f.since
    then Bool.false
    else if not (f.until == 0) && ltb f.until e.timestamp
    then Bool.false
    else true

-- `limit` and `offset` as Query brings them into range
unfoldable pub page_limit : ℤ → ℕ
page_limit z = let limit = positive_or z 100 in if ltb 1000 limit then 1000 else limit

unfoldable pub page_offset : ℤ → ℕ
page_offset z = positive_or z 0

-- the loop from the newest entry down
unfoldable pub filtered : RingBuffer → QueryLogFilter → List QueryLogEntry
filtered r f = select (matches_filter f) (reverse (ordered r))

unfoldable pub query : RingBuffer → QueryLogFilter → QueryLogPage
query r f =
    let found = filtered r f in
    let total = length found in
    let limit = page_limit f.limit in
    let offset = page_offset f.offset in
    let end = if ltb total (offset + limit) then total else offset + limit in
    if leb total offset
    then record { entries = []; total = total; has_more = Bool.false }
    else record {
      entries = drop offset (take end found);
      total = total;
      has_more = ltb (offset + limit) total;
    }

abbrev pub len : RingBuffer → ℕ
len r = r.count

unfoldable pub drain : RingBuffer → ℕ → ℤ → List QueryLogEntry
drain r since max =
    let recent =
      if since == 0 then ordered r else select (λ e. ltb since e.timestamp) (ordered r) in
    let most = positive_or max 0 in
    if r.count == 0
    then []
    else if ltb 0 most && ltb most (length recent)
    then drop (length recent - most) recent
    else recent
