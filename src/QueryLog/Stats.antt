-- ===== src/QueryLog/Stats.antt =====
-- The statistics of the query log (internal/querylog/ringbuffer.go: Stats, topClients, topDomains,
-- buildHourStats, sortDesc). A rate is a fraction, whose rounding is left out; all times are of one
-- location, since Go's maps tell the same instant in two locations apart. The clock shows a time
-- that lies a day or more behind Go's zero time.
pub mod Sorting
pub mod Tops
use domudns.Prelude.{
  ℕ, zero, suc, ◌+◌, ◌-◌, ◌*◌, ◌%◌, Bool, List, [], ◌∷◌, map, take, ltb, ◌==◌, Option, none, some,
  Eq, text_eq, nat_eq, if◌then◌else◌,
}
use domudns.Assoc.{lookup, insert}
use domudns.Text.{Text}
use domudns.QueryLog.{QueryLogEntry, RingBuffer}
use domudns.QueryLog.Stats.Sorting.{sort_desc}

pub record ClientStat : Type 0 where
  pub client_ip : Text
  pub count : ℕ

pub record DomainStat : Type 0 where
  pub domain : Text
  pub count : ℕ

pub record HourStat : Type 0 where
  pub hour : ℕ
  pub count : ℕ

pub record QueryLogStats : Type 0 where
  pub total_queries : ℕ
  pub block_rate : ℕ × ℕ
  pub top_clients : List ClientStat
  pub top_domains : List DomainStat
  pub top_blocked : List DomainStat
  pub queries_per_hour : List HourStat

-- the variables of the loop over the entries
pub record Counts : Type 0 where
  pub clients : List (Text × ℕ)
  pub domains : List (Text × ℕ)
  pub blocked : List (Text × ℕ)
  pub hours : List (ℕ × ℕ)
  pub total_blocked : ℕ

-- an hour in nanoseconds
abbrev pub hour_length : ℕ
hour_length = 3600000000000

abbrev pub or_zero : Option ℕ → ℕ
or_zero none = 0
or_zero (some n) = n

module _ {ℓ} {K : Type ℓ} ⦃e : Eq K⦄ where
  -- m[k], which is 0 for a missing key
  abbrev pub value : K → List (K × ℕ) → ℕ
  value k m = or_zero (lookup k m)

  -- m[k]++
  abbrev pub bump : K → List (K × ℕ) → List (K × ℕ)
  bump k m = insert k (value k m + 1) m

abbrev pub truncate_hour : ℕ → ℕ
truncate_hour t = t - t % hour_length

unfoldable pub count_entry : ℕ → QueryLogEntry → Counts → Counts
count_entry now e c = record {
  clients = bump e.client_ip c.clients;
  domains = bump e.domain c.domains;
  blocked = if e.blocked then bump e.domain c.blocked else c.blocked;
  hours =
      if ltb now (e.timestamp + 24 * hour_length)
      then bump (truncate_hour e.timestamp) c.hours
      else c.hours;
  total_blocked = if e.blocked then c.total_blocked + 1 else c.total_blocked;
}

unfoldable pub count_entries : ℕ → List QueryLogEntry → Counts → Counts
count_entries now [] c = c
count_entries now (e ∷ es) c = count_entries now es (count_entry now e c)

abbrev pub client_stat : Text × ℕ → ClientStat
client_stat (ip, n) = record { client_ip = ip; count = n }

abbrev pub domain_stat : Text × ℕ → DomainStat
domain_stat (d, n) = record { domain = d; count = n }

unfoldable pub top_clients : List (Text × ℕ) → ℕ → List ClientStat
top_clients counts n = take n (sort_desc (λ s. s.count) (map client_stat counts))

unfoldable pub top_domains : List (Text × ℕ) → ℕ → List DomainStat
top_domains counts n = take n (sort_desc (λ s. s.count) (map domain_stat counts))

-- the loop, in which `i` counts down to 0
unfoldable pub hours_from : List (ℕ × ℕ) → ℕ → ℕ → List HourStat
hours_from counts base zero = []
hours_from counts base (suc i) =
    let hour = base - i * hour_length in
    record { hour = hour; count = value hour counts } ∷ hours_from counts base i

abbrev pub build_hour_stats : List (ℕ × ℕ) → ℕ → List HourStat
build_hour_stats counts now = hours_from counts (truncate_hour now) 24

abbrev pub no_counts : Counts
no_counts = record { clients = []; domains = []; blocked = []; hours = []; total_blocked = 0 }

-- the entries that the loop reads
abbrev pub held : RingBuffer → List QueryLogEntry
held r = take r.count r.entries

unfoldable pub stats : RingBuffer → ℕ → QueryLogStats
stats r now =
    let c = count_entries now (held r) no_counts in
    if r.count == 0
    then record {
      total_queries = 0;
      block_rate = (0, 1);
      top_clients = [];
      top_domains = [];
      top_blocked = [];
      queries_per_hour = [];
    }
    else record {
      total_queries = r.count;
      block_rate = (c.total_blocked, r.count);
      top_clients = top_clients c.clients 10;
      top_domains = top_domains c.domains 10;
      top_blocked = top_domains c.blocked 10;
      queries_per_hour = build_hour_stats c.hours now;
    }
