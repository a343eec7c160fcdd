-- ===== src/Tests/CacheTests.antt =====
-- The cache with two places, over a heap that is a plain list searched for its least element.
use domudns.Prelude.{
  ℕ, ◌+◌, ◌-◌, ◌*◌, ◌≤◌, ◌≡◌, refl, sym, ap, ◌∙◌, subst, true, List, [], ◌∷◌, leb, ◌==◌, Option,
  Option-cases, none, some, inl, inr, All, text_beq, text_beq_iff, text_eq, Bool-cases, arith,
  if◌then◌else◌,
}
use domudns.Prelude.Int.{pos}
use domudns.Assoc.{lookup, insert, erase, has_key}
use domudns.Text.{Text, codes}
use domudns.Net.{v4}
use domudns.Mdns.{Rdata, Rr, Msg, type_a, class_inet}
use domudns.Cache.Lru.{Heap, count, index_of}
use domudns.Cache.{
  second, accessed, CacheManager, get_key, set_key, decrement_ttls, determine_ttl, answer_ttl,
  min_ttl, evict_lru, new_cache_manager,
}
use domudns.Cache.Invariant.{IsCache}
use domudns.Cache.Runs.{entry_at, fresh, after, put, Reached-IsCache}
use domudns.Cache.Answers.{set_key-evicts, get_key-fresh}
use domudns.Tests.Samples.{blank}

abbrev pub take_least : (Text → ℕ) → Text → List Text → Text × List Text
take_least r k [] = (k, [])
take_least r k (j ∷ l) =
    let p = take_least r j l in if leb (r k) (r p.0) then (k, j ∷ l) else (p.0, k ∷ p.1)

abbrev pub pop_least : (Text → ℕ) → List Text → Option (Text × List Text)
pop_least r [] = none
pop_least r (k ∷ l) = some (take_least r k l)

abbrev pub remove_at : ℕ → List Text → List Text
remove_at n [] = []
remove_at n (k ∷ l) = let rest = remove_at (n - 1) l in if n == 0 then l else k ∷ rest

count-take_least :
    (r : Text → ℕ) (k : Text) (l : List Text) (j : Text)
    → count j (k ∷ l)
      ≡ (if text_beq (take_least r k l).0 j then 1 else 0) + count j (take_least r k l).1
count-take_least r k [] j = refl
count-take_least r k (i ∷ l) j = ground (arith, count-take_least r i l j)

All-le :
    (r : Text → ℕ) (m n : ℕ) (l : List Text) → m ≤ n → All (λ j. n ≤ r j) l → All (λ j. m ≤ r j) l
All-le r m n [] le all_n = tt
All-le r m n (j ∷ l) le all_n = (omega arith, All-le r m n l le all_n.1)

least_of_All :
    (r : Text → ℕ) (k : Text) (l : List Text) → All (λ j. r (take_least r k l).0 ≤ r j) (k ∷ l)
least_of_All r k [] = (omega arith, tt)
least_of_All r k (j ∷ l) =
    let p = take_least r j l in
    let rest = least_of_All r j l in
    elim (Bool-cases (leb (r k) (r p.0))) [
      | inl first ↦
          let e : take_least r k (j ∷ l) ≡ (k, j ∷ l) = ground arith in
          subst (λ q. All (λ x. r q.0 ≤ r x) (k ∷ j ∷ l)) (sym e)
            (omega arith, All-le r (r k) (r p.0) (j ∷ l) (ground arith) rest)
      | inr later ↦
          let e : take_least r k (j ∷ l) ≡ (p.0, k ∷ p.1) = ground arith in
          subst (λ q. All (λ x. r q.0 ≤ r x) (k ∷ j ∷ l)) (sym e) (ground arith, rest)
    ]

least_of_rest :
    (r : Text → ℕ) (k : Text) (l : List Text)
    → All (λ j. r (take_least r k l).0 ≤ r j) (take_least r k l).1
least_of_rest r k [] = tt
least_of_rest r k (j ∷ l) =
    let p = take_least r j l in
    elim (Bool-cases (leb (r k) (r p.0))) [
      | inl first ↦
          let e : take_least r k (j ∷ l) ≡ (k, j ∷ l) = ground arith in
          subst (λ q. All (λ x. r q.0 ≤ r x) q.1) (sym e)
            (All-le r (r k) (r p.0) (j ∷ l) (ground arith) (least_of_All r j l))
      | inr later ↦
          let e : take_least r k (j ∷ l) ≡ (p.0, k ∷ p.1) = ground arith in
          subst (λ q. All (λ x. r q.0 ≤ r x) q.1) (sym e) (ground arith, least_of_rest r j l)
    ]

pub count-remove_at :
    (i : ℕ) (l : List Text) (k j : Text)
    → index_of k l ≡ some i
    → count j l ≡ (if text_beq k j then 1 else 0) + count j (remove_at i l)
count-remove_at i [] k j h = absurd (ground arith)
count-remove_at i (x ∷ l) k j h = elim (Bool-cases (text_beq x k)) [
  | inl same ↦
      let e : x ≡ k = ground (arith, text_beq_iff x k) in
      let z : 0 ≡ i = ground arith in ground (arith, e)
  | inr other ↦ elim (Option-cases (index_of k l)) [
    | inl none_here ↦ absurd (ground arith)
    | inr (n, here) ↦
        let e : n + 1 ≡ i = ground arith in
        let e' : i - 1 ≡ n = omega arith in ground (arith, e', count-remove_at n l k j here)
  ]
]

pub count-pop_least :
    (r : Text → ℕ) (l l' : List Text) (k j : Text)
    → pop_least r l ≡ some (k, l')
    → count j l ≡ (if text_beq k j then 1 else 0) + count j l'
count-pop_least r [] l' k j h = absurd (ground arith)
count-pop_least r (x ∷ l) l' k j h =
    let e : take_least r x l ≡ (k, l') = ground arith in
    count-take_least r x l j ∙ ap (λ p. (if text_beq p.0 j then 1 else 0) + count j p.1) e

pub pop_least-least :
    (r : Text → ℕ) (l l' : List Text) (k : Text)
    → pop_least r l ≡ some (k, l')
    → All (λ j. r k ≤ r j) l'
pop_least-least r [] l' k h = absurd (ground arith)
pop_least-least r (x ∷ l) l' k h =
    let e : take_least r x l ≡ (k, l') = ground arith in
    subst (λ p. All (λ j. r p.0 ≤ r j) p.1) e (least_of_rest r x l)

abbrev pub list_heap : Heap
list_heap = record {
  fix = λ r i l. l;
  push = λ r k l. k ∷ l;
  pop = pop_least;
  remove = λ r i l. remove_at i l;
  IsHeap = λ r l. Unit;
  count-fix = λ r i l j. refl;
  count-push = λ r k l j. refl;
  pop-some = λ r k l. (take_least r k l, refl);
  count-pop = count-pop_least;
  count-remove = λ r. count-remove_at;
  IsHeap_nil = λ r. tt;
  IsHeap_agree = λ r r' l same h. tt;
  fix-IsHeap = λ r r' i l k once here same h. tt;
  push-IsHeap = λ r k l fresh_key h. tt;
  pop-IsHeap = λ r l l' k taken h. (tt, pop_least-least r l l' k taken);
  remove-IsHeap = λ r i l h. tt;
}

abbrev pub address : ℕ → Rr
address ttl = record {
  hdr = record { name = codes "a."; rrtype = type_a; class = class_inet; ttl = ttl };
  rdata = Rdata.a (v4 7);
}

abbrev pub response : Msg
response = record blank { answer = address 60 ∷ address 30 ∷ [] }

abbrev empty_cache : CacheManager
empty_cache = new_cache_manager (pos 1) 0 0

abbrev key : Text
key = codes "a.:A"

abbrev other_key : Text
other_key = codes "b.:A"

abbrev one_entry : CacheManager
one_entry = set_key list_heap 5 empty_cache key response

Reached-IsCache_example : IsCache list_heap one_entry
Reached-IsCache_example =
    Reached-IsCache list_heap one_entry
      (after empty_cache one_entry (fresh (pos 1) 0 0) (put 5 empty_cache key response))

get_key-fresh_example : All (λ rr. 7 - 5 ≤ rr.hdr.ttl * second) response.answer
unfolding get_key lookup insert decrement_ttls set_key has_key determine_ttl answer_ttl min_ttl
    new_cache_manager
get_key-fresh_example =
    get_key-fresh list_heap 5 7 empty_cache key response response refl (ground arith) refl

set_key-evicts_example :
    (oldest : Text) × (has_key oldest one_entry.entries ≡ true)
    × All
        (λ j. accessed one_entry.entries oldest ≤ accessed one_entry.entries j)
        (evict_lru list_heap one_entry).lru
    × ((set_key list_heap 9 one_entry other_key response).entries
        ≡ insert other_key (entry_at 9 one_entry response) (erase oldest one_entry.entries))
unfolding has_key set_key determine_ttl answer_ttl min_ttl new_cache_manager insert
set_key-evicts_example =
    set_key-evicts list_heap 9 one_entry other_key response Reached-IsCache_example refl refl
      (ground arith)
