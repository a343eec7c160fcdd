-- ===== src/QueryLog/Stats/Tops.antt =====
-- The clients with the most queries (internal/querylog/ringbuffer.go, Stats).
use domudns.Prelude.{
  ℕ, zero, suc, ◌+◌, ◌≤◌, ◌≡◌, refl, sym, ap, ◌∙◌, Bool, true, false, List, [], ◌∷◌, length, map,
  take, select, any, All, ◌==◌, some, text_beq, text_beq_iff, text_beq_refl, text_eq, arith, inl,
  inr, Bool-cases, if◌then◌else◌,
}
use domudns.Assoc.{lookup, has_key, Distinct, lookup-insert, lookup-eq-none, insert-Distinct}
use domudns.Text.{Text}
use domudns.QueryLog.{QueryLogEntry, RingBuffer}
use domudns.QueryLog.Stats.{
  ClientStat, Counts, or_zero, value, bump, count_entry, count_entries, client_stat, top_clients,
  no_counts, held, stats,
}
use domudns.QueryLog.Stats.Sorting.{
  sort_desc, sort_desc-IsDescending, sort_desc-All, any-sort_desc, take-IsAbove,
}

-- the number of queries of a client
abbrev pub queries_of : Text → List QueryLogEntry → ℕ
queries_of ip es = length (select (λ e. text_beq e.client_ip ip) es)

abbrev pub has_client : Text → List ClientStat → Bool
has_client ip ss = any (λ s. text_beq s.client_ip ip) ss

bump-value :
    (k j : Text) (m : List (Text × ℕ))
    → value j (bump k m) ≡ value j m + (if text_beq k j then 1 else 0)
bump-value k j m = elim (Bool-cases (text_beq k j)) [
  | inl same ↦
      let e : k ≡ j = (text_beq_iff k j).0 same in
      ap or_zero (lookup-insert k j (value k m + 1) m) ∙ rw same (ap (λ i. value i m + 1) e)
  | inr other ↦ ap or_zero (lookup-insert k j (value k m + 1) m) ∙ rw other (omega arith)
]

count_entries-clients :
    (now : ℕ) (ip : Text) (es : List QueryLogEntry) (c : Counts)
    → value ip (count_entries now es c).clients ≡ value ip c.clients + queries_of ip es
unfolding count_entries count_entry
count_entries-clients now ip [] c = omega arith
count_entries-clients now ip (e ∷ es) c =
    let rest = count_entries-clients now ip es (count_entry now e c) in
    ground (arith, rest, bump-value e.client_ip ip c.clients)

count_entries-Distinct :
    (now : ℕ) (es : List QueryLogEntry) (c : Counts)
    → Distinct c.clients
    → Distinct (count_entries now es c).clients
unfolding count_entries count_entry
count_entries-Distinct now [] c d = d
count_entries-Distinct now (e ∷ es) c d =
    count_entries-Distinct now es (count_entry now e c)
      (insert-Distinct e.client_ip (value e.client_ip c.clients + 1) c.clients d)

behind :
    (whole part : List (Text × ℕ)) (j : Text) (n : ℕ)
    → ((k : Text) → has_key k ((j, n) ∷ part) ≡ true → lookup k whole ≡ lookup k ((j, n) ∷ part))
    → has_key j part ≡ false
    → (k : Text) → has_key k part ≡ true
    → lookup k whole ≡ lookup k part
unfolding lookup has_key
behind whole part j n same fresh k in_part = elim (Bool-cases (text_beq j k)) [
  | inl here ↦ absurd (ground (arith, text_beq_iff j k))
  | inr other ↦ same k (rw other in_part) ∙ rw other refl
]

-- What is true of the part of a map whose keys have the same values in the whole.
part-value :
    (whole part : List (Text × ℕ))
    → ((k : Text) → has_key k part ≡ true → lookup k whole ≡ lookup k part)
    → Distinct part
    → All (λ s. s.count ≡ value s.client_ip whole) (map client_stat part)
unfolding lookup has_key
part-value whole [] same d = tt
part-value whole ((j, n) ∷ part) same (fresh, d) =
    let here : lookup j whole ≡ some n =
      same j (rw (text_beq_refl j) refl) ∙ rw (text_beq_refl j) refl in
    (ap or_zero (sym here), part-value whole part (behind whole part j n same fresh) d)

has_client-map :
    (ip : Text) (m : List (Text × ℕ)) → has_client ip (map client_stat m) ≡ has_key ip m
unfolding has_key
has_client-map ip [] = refl
has_client-map ip ((j, n) ∷ m) = rw (has_client-map ip m)

take-All {ℓ κ} : {A : Type ℓ} (P : A → Type κ) (n : ℕ) (xs : List A) → All P xs → All P (take n xs)
take-All P zero xs h = tt
take-All P (suc n) [] h = tt
take-All P (suc n) (x ∷ xs) (at_x, h) = (at_x, take-All P n xs h)

weaken {ℓ κ μ} :
    {A : Type ℓ} {P : A → Type κ} {Q : A → Type μ}
    → ((x : A) → P x → Q x)
    → (xs : List A) → All P xs
    → All Q xs
weaken f [] h = tt
weaken f (x ∷ xs) (at_x, h) = (f x at_x, weaken f xs h)

for_each {ℓ κ} : {A : Type ℓ} (P : A → Type κ) → ((x : A) → P x) → (xs : List A) → All P xs
for_each P f [] = tt
for_each P f (x ∷ xs) = (f x, for_each P f xs)

join_All {ℓ κ μ} :
    {A : Type ℓ} (P : A → Type κ) (Q : A → Type μ) (xs : List A)
    → All P xs
    → All Q xs
    → All (λ x. P x × Q x) xs
join_All P Q [] ps qs = tt
join_All P Q (x ∷ xs) (p, ps) (q, qs) = ((p, q), join_All P Q xs ps qs)

abbrev counted : ℕ → List QueryLogEntry → List (Text × ℕ)
counted now es = (count_entries now es no_counts).clients

counted-value :
    (now : ℕ) (es : List QueryLogEntry) (ip : Text) → value ip (counted now es) ≡ queries_of ip es
unfolding lookup
counted-value now es ip = omega (arith, count_entries-clients now ip es no_counts)

sorted-IsCounted :
    (now : ℕ) (es : List QueryLogEntry)
    → All
        (λ s. s.count ≡ queries_of s.client_ip es)
        (sort_desc (λ s. s.count) (map client_stat (counted now es)))
sorted-IsCounted now es =
    let m = counted now es in
    let d = count_entries-Distinct now es no_counts tt in
    let right =
      weaken (λ s e. e ∙ counted-value now es s.client_ip) (map client_stat m)
        (part-value m m (λ k h. refl) d) in
    sort_desc-All (λ s. s.count) (λ s. s.count ≡ queries_of s.client_ip es) (map client_stat m)
      right

above :
    (now n : ℕ) (es : List QueryLogEntry) (ip : Text)
    → has_client ip (top_clients (counted now es) n) ≡ false
    → All (λ s. queries_of ip es ≤ s.count) (top_clients (counted now es) n)
unfolding top_clients
above now n es ip missed =
    let m = counted now es in
    let sorted = sort_desc (λ s. s.count) (map client_stat m) in
    elim (Bool-cases (has_key ip m)) [
      | inl here ↦
          take-IsAbove (λ s. s.count) (λ s. text_beq s.client_ip ip) (queries_of ip es) n sorted
            (sort_desc-IsDescending (λ s. s.count) (map client_stat m))
            (weaken
              (λ s e is_ip. e ∙ ap (λ i. queries_of i es) ((text_beq_iff s.client_ip ip).0 is_ip))
              sorted (sorted-IsCounted now es))
            (any-sort_desc (λ s. s.count) (λ s. text_beq s.client_ip ip) (map client_stat m)
              ∙ has_client-map ip m
              ∙ here)
            missed
      | inr fresh ↦
          let none_of : queries_of ip es ≡ 0 =
            sym (counted-value now es ip) ∙ ap or_zero (lookup-eq-none ip m fresh) in
          for_each (λ s. queries_of ip es ≤ s.count) (λ s. omega arith) (take n sorted)
    ]

-- Each of the clients under TopClients has as many queries as the buffer holds of it, and no fewer
-- than any client that is not among them.
pub stats-top_clients :
    (r : RingBuffer) (now : ℕ) (ip : Text)
    → has_client ip (stats r now).top_clients ≡ false
    → All
        (λ s. (s.count ≡ queries_of s.client_ip (held r)) × (queries_of ip (held r) ≤ s.count))
        (stats r now).top_clients
unfolding stats top_clients
stats-top_clients r now ip missed = elim (Bool-cases (r.count == 0)) [
  | inl empty ↦ rw empty tt
  | inr some_held ↦
      let es = held r in
      let top = top_clients (counted now es) 10 in
      let right = take-All _ 10 _ (sorted-IsCounted now es) in
      rw some_held (
        join_All (λ s. s.count ≡ queries_of s.client_ip es) (λ s. queries_of ip es ≤ s.count) top
          right (above now 10 es ip (rw some_held at missed)))
]
