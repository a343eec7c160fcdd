-- ===== src/Ddns/Named.antt =====
-- The records of a zone by name and number, under deletions and additions.
use domudns.Prelude.{
  ℕ, ◌≡◌, refl, Bool, true, false, not, ◌||◌, List, [], ◌∷◌, ◌++◌, ◌==◌, ==_iff, inl, inr, All,
  select, text_beq, text_beq_iff, Bool-cases, arith,
}
use domudns.Text.{Text}
use domudns.Dns.Record.{Record}
use domudns.Ddns.Store.{IsFree, without}
use domudns.Ddns.{rec_name}

-- No two records have the same number.
abbrev pub IsNumbered : List Record → Type 0
IsNumbered [] = Unit
IsNumbered (r ∷ rs) = IsFree r.id rs × IsNumbered rs

without-IsFree : (i id : ℕ) (rs : List Record) → IsFree id rs → IsFree id (without i rs)
without-IsFree i id [] free = tt
without-IsFree i id (r ∷ rs) free = elim (Bool-cases (r.id == i)) [
  | inl same ↦ rw same (without-IsFree i id rs free.1)
  | inr other ↦ rw other (free.0, without-IsFree i id rs free.1)
]

pub without-IsNumbered : (i : ℕ) (rs : List Record) → IsNumbered rs → IsNumbered (without i rs)
without-IsNumbered i [] fine = tt
without-IsNumbered i (r ∷ rs) fine = elim (Bool-cases (r.id == i)) [
  | inl same ↦ rw same (without-IsNumbered i rs fine.1)
  | inr other ↦ rw other (without-IsFree i r.id rs fine.0, without-IsNumbered i rs fine.1)
]

append-IsFree :
    (id : ℕ) (rs : List Record) (r : Record)
    → IsFree id rs
    → (r.id == id) ≡ false
    → IsFree id (rs ++ (r ∷ []))
append-IsFree id [] r free other = (other, tt)
append-IsFree id (q ∷ rs) r free other = (free.0, append-IsFree id rs r free.1 other)

pub append-IsNumbered :
    (rs : List Record) (r : Record) → IsNumbered rs → IsFree r.id rs → IsNumbered (rs ++ (r ∷ []))
append-IsNumbered [] r fine free = (tt, tt)
append-IsNumbered (q ∷ rs) r fine free = (
  append-IsFree q.id rs r fine.0 (ground (arith, free.0, ==_iff q.id r.id, ==_iff r.id q.id)),
  append-IsNumbered rs r fine.1 free.1,
)

-- The records of a name, that of the apex being the empty one.
abbrev pub named : Text → List Record → List Record
named n = select (λ r. text_beq (rec_name r) n)

-- Records with the number of `ex` have its name.
abbrev pub agrees : Record → Record → Bool
agrees ex q = not (q.id == ex.id) || text_beq (rec_name q) (rec_name ex)

abbrev pub Agree : List Record → List Record → Type 0
Agree rest cur = All (λ ex. All (λ q. agrees ex q ≡ true) cur) rest

All-without : (P : Record → Type 0) (i : ℕ) (rs : List Record) → All P rs → All P (without i rs)
All-without P i [] all_p = tt
All-without P i (r ∷ rs) all_p = elim (Bool-cases (r.id == i)) [
  | inl same ↦ rw same (All-without P i rs all_p.1)
  | inr other ↦ rw other (all_p.0, All-without P i rs all_p.1)
]

pub Agree-without : (i : ℕ) (rest cur : List Record) → Agree rest cur → Agree rest (without i cur)
Agree-without i [] cur fine = tt
Agree-without i (ex ∷ rest) cur fine =
    (All-without (λ q. agrees ex q ≡ true) i cur fine.0, Agree-without i rest cur fine.1)

free_agrees : (ex : Record) (rs : List Record) → IsFree ex.id rs → All (λ q. agrees ex q ≡ true) rs
free_agrees ex [] free = tt
free_agrees ex (q ∷ rs) free = (ground (arith, free.0), free_agrees ex rs free.1)

-- One more record at the front, with a number that is free.
Agree-cons :
    (r : Record) (rest rs : List Record) → IsFree r.id rest → Agree rest rs → Agree rest (r ∷ rs)
Agree-cons r [] rs free fine = tt
Agree-cons r (ex ∷ rest) rs free fine = (
  (ground (arith, free.0, ==_iff ex.id r.id, ==_iff r.id ex.id), fine.0),
  Agree-cons r rest rs free.1 fine.1,
)

pub Agree-refl : (rs : List Record) → IsNumbered rs → Agree rs rs
Agree-refl [] fine = tt
Agree-refl (r ∷ rs) fine = (
  (ground (arith, text_beq_iff (rec_name r) (rec_name r)), free_agrees r rs fine.0),
  Agree-cons r rs rs fine.0 (Agree-refl rs fine.1),
)

pub named-without :
    (n : Text) (ex : Record) (cur : List Record)
    → text_beq (rec_name ex) n ≡ false
    → All (λ q. agrees ex q ≡ true) cur
    → named n (without ex.id cur) ≡ named n cur
named-without n ex [] other fine = refl
named-without n ex (q ∷ cur) other fine = ground (
  arith,
  fine.0,
  named-without n ex cur other fine.1,
  text_beq_iff (rec_name q) (rec_name ex),
  text_beq_iff (rec_name q) n,
  text_beq_iff (rec_name ex) n,
)

pub named-append :
    (n : Text) (r : Record) (rs : List Record)
    → text_beq (rec_name r) n ≡ false
    → named n (rs ++ (r ∷ [])) ≡ named n rs
named-append n r [] other = rw other refl
named-append n r (q ∷ rs) other = ground (arith, named-append n r rs other)
