-- ===== src/Tests/LogTests.antt =====
-- The query log.
use domudns.Prelude.{ℕ, ◌+◌, ◌*◌, ◌≤◌, ◌≡◌, refl, [], ◌∷◌, ◌++◌, map, drop, All, arith}
use domudns.Prelude.Int.{pos}
use domudns.Text.{codes}
use domudns.QueryLog.{
  QueryLogEntry, QueryLogFilter, RingBuffer, no_entry, add, new_ring_buffer, ordered, filtered,
  matches_filter, page_limit, page_offset, query, drain,
}
use domudns.QueryLog.Windows.{newest}
use domudns.QueryLog.Stats.{held, stats, count_entry, count_entries, top_clients, hours_from}
use domudns.QueryLog.Stats.Sorting.{swap_down, sort_from, turn}
use domudns.QueryLog.Stats.Tops.{queries_of, stats-top_clients}
use domudns.Assoc.{insert, lookup}
use domudns.QueryLog.Ring.{IsRing, add_all, ordered-add_all}

abbrev logged : ℕ → QueryLogEntry
logged t = record no_entry { timestamp = t; client_ip = codes "10.0.0.7" }

-- Three places, four queries: the first one is overwritten.
abbrev ring : RingBuffer
ring = add_all (new_ring_buffer (pos 3)) (logged 1 ∷ logged 2 ∷ logged 3 ∷ logged 4 ∷ [])

times : map (λ e. e.timestamp) (ordered ring) ≡ 2 ∷ 3 ∷ 4 ∷ []
unfolding new_ring_buffer add ordered
times = refl

abbrev since_three : QueryLogFilter
since_three = record {
  client = codes "10.";
  domain = [];
  result = [];
  qtype = [];
  node = [];
  since = 3;
  until = 0;
  limit = pos 1;
  offset = pos 1;
}

second_page : map (λ e. e.timestamp) (query ring since_three).entries ≡ 3 ∷ []
unfolding new_ring_buffer add ordered query filtered matches_filter page_limit page_offset
second_page = refl

drained : map (λ e. e.timestamp) (drain ring 2 (pos 1)) ≡ 4 ∷ []
unfolding new_ring_buffer add ordered drain
drained = refl

ring-IsRing : IsRing ring
unfolding new_ring_buffer add
ring-IsRing = (omega arith, refl, omega arith, omega arith, λ h. absurd (omega arith))

ordered-add_all_example :
    IsRing (add_all ring (logged 5 ∷ []))
    × ((add_all ring (logged 5 ∷ [])).capacity ≡ ring.capacity)
    × (ordered (add_all ring (logged 5 ∷ []))
        ≡ newest ring.capacity (ordered ring ++ logged 5 ∷ []))
ordered-add_all_example = ordered-add_all ring (logged 5 ∷ []) ring-IsRing

abbrev hour : ℕ
hour = 3600000000000

abbrev asked : ℕ → ℕ → QueryLogEntry
asked t n = record no_entry { timestamp = t; client_ip = n ∷ [] }

-- Client 7 asks three times, client 8 twice and client 9 once; only the last hours are counted.
abbrev busy : RingBuffer
busy = add_all (new_ring_buffer (pos 8)) (
    asked hour 9
    ∷ asked (30 * hour) 8
    ∷ asked (49 * hour) 7
    ∷ asked (49 * hour + 5) 8
    ∷ asked (50 * hour) 7
    ∷ asked (50 * hour + 1) 7
    ∷ [])

busiest : map (λ s. s.count) (stats busy (50 * hour + 2)).top_clients ≡ 3 ∷ 2 ∷ 1 ∷ []
unfolding new_ring_buffer add stats count_entries count_entry top_clients swap_down sort_from turn
    insert lookup
busiest = refl

last_hours :
    map (λ h. h.count) (drop 21 (stats busy (50 * hour + 2)).queries_per_hour) ≡ 0 ∷ 2 ∷ 2 ∷ []
unfolding new_ring_buffer add stats count_entries count_entry hours_from insert lookup
last_hours = refl

stats-top_clients_example :
    All
      (λ s.
        (s.count ≡ queries_of s.client_ip (held busy))
        × (queries_of (6 ∷ []) (held busy) ≤ s.count))
      (stats busy (50 * hour + 2)).top_clients
unfolding new_ring_buffer add stats count_entries count_entry top_clients swap_down sort_from turn
    insert lookup
stats-top_clients_example = stats-top_clients busy (50 * hour + 2) (6 ∷ []) refl
