-- ===== src/Ddns/Upsert.antt =====
-- Adding a record replaces those of its name and type.
use domudns.Prelude.{
  ℕ, ◌≡◌, refl, sym, ap, ◌∙◌, Bool, true, false, not, ◌||◌, ◌&&◌, List, [], ◌∷◌, ◌++◌, ◌==◌, ==_iff,
  Option-cases, none, some, inl, inr, All, any, select, text_beq_iff, Bool-cases, arith,
  if◌then◌else◌,
}
use domudns.Text.{Text}
use domudns.Net.{Ip}
use domudns.Mdns.{Mdns}
use domudns.Dns.Record.{Record, type_text}
use domudns.Ddns.Store.{DdnsStore, DdnsLaws, IsFree, numbered, without}
use domudns.Ddns.{is_replaced, delete_selected, put_or_fail, upsert}

without_free : (id : ℕ) (rs : List Record) → IsFree id rs → without id rs ≡ rs
without_free id [] free = refl
without_free id (r ∷ rs) free = ground (arith, free.0, without_free id rs free.1)

module _ (p : Record → Bool) where
  -- What is left of a list when the picked records of another are deleted by their numbers.
  abbrev cleared : List Record → List Record → List Record
  cleared [] cur = cur
  cleared (ex ∷ rest) cur = cleared rest (if p ex then without ex.id cur else cur)

  abbrev covered : List Record → Record → Bool
  covered rest q = any (λ ex. p ex && (q.id == ex.id)) rest

  abbrev is_covered : List Record → Record → Bool
  is_covered rest q = not (p q) || covered rest q

  none_left : (cur : List Record) → All (λ q. is_covered [] q ≡ true) cur → select p cur ≡ []
  none_left [] fine = refl
  none_left (q ∷ cur) fine = ground (arith, fine.0, none_left cur fine.1)

  covered-without :
      (ex : Record) (rest cur : List Record)
      → All (λ q. is_covered (ex ∷ rest) q ≡ true) cur
      → All (λ q. is_covered rest q ≡ true) (without ex.id cur)
  covered-without ex rest [] fine = tt
  covered-without ex rest (q ∷ cur) fine = elim (Bool-cases (q.id == ex.id)) [
    | inl same ↦ rw same (covered-without ex rest cur fine.1)
    | inr other ↦ rw other (ground (arith, fine.0), covered-without ex rest cur fine.1)
  ]

  covered_passed :
      (ex : Record) (rest cur : List Record)
      → p ex ≡ false
      → All (λ q. is_covered (ex ∷ rest) q ≡ true) cur
      → All (λ q. is_covered rest q ≡ true) cur
  covered_passed ex rest [] passed fine = tt
  covered_passed ex rest (q ∷ cur) passed fine =
      (ground (arith, fine.0), covered_passed ex rest cur passed fine.1)

  cleared_none :
      (rest cur : List Record)
      → All (λ q. is_covered rest q ≡ true) cur
      → select p (cleared rest cur) ≡ []
  cleared_none [] cur fine = none_left cur fine
  cleared_none (ex ∷ rest) cur fine = elim (Bool-cases (p ex)) [
    | inl picked ↦
        rw picked (cleared_none rest (without ex.id cur) (covered-without ex rest cur fine))
    | inr passed ↦ rw passed (cleared_none rest cur (covered_passed ex rest cur passed fine))
  ]

  covered_more :
      (ex : Record) (rest cur : List Record)
      → All (λ q. is_covered rest q ≡ true) cur
      → All (λ q. is_covered (ex ∷ rest) q ≡ true) cur
  covered_more ex rest [] fine = tt
  covered_more ex rest (q ∷ cur) fine = (ground (arith, fine.0), covered_more ex rest cur fine.1)

  covered_self : (rs : List Record) → All (λ q. is_covered rs q ≡ true) rs
  covered_self [] = tt
  covered_self (r ∷ rs) = (ground (arith, ==_iff r.id r.id), covered_more r rs rs (covered_self rs))

  select-append :
      (rs : List Record) (r : Record)
      → p r ≡ true
      → select p rs ≡ []
      → select p (rs ++ (r ∷ [])) ≡ r ∷ []
  select-append [] r at_r none_here = rw at_r refl
  select-append (q ∷ rs) r at_r none_here = ground (arith, select-append rs r at_r)

module _ (lib : Mdns) (ip_text : Ip → Text) (S : Type 0) (store : DdnsStore S)
    (laws : DdnsLaws S store) where
  delete_selected-cleared :
      (p : Record → Bool) (domain : Text) (rest rs : List Record) (s : S)
      → ((s : S) (id : ℕ) (rs : List Record)
          → laws.IsFine s
          → store.get_records s domain ≡ some rs
          → store.delete_record s domain id ≡ none
          → IsFree id rs)
      → laws.IsFine s
      → store.get_records s domain ≡ some rs
      → laws.IsFine (delete_selected lib ip_text S store p domain rest s)
        × (store.get_records (delete_selected lib ip_text S store p domain rest s) domain
            ≡ some (cleared p rest rs))
  unfolding delete_selected
  delete_selected-cleared p domain [] rs s works fine here = (fine, here)
  delete_selected-cleared p domain (ex ∷ rest) rs s works fine here = elim (Bool-cases (p ex)) [
    | inr passed ↦ rw passed (delete_selected-cleared p domain rest rs s works fine here)
    | inl picked ↦ elim (Option-cases (store.delete_record s domain ex.id)) [
      | inl failed ↦
          let same = without_free ex.id rs (works s ex.id rs fine here failed) in
          rw (picked, failed)
            (delete_selected-cleared p domain rest (without ex.id rs) s works fine
              (here ∙ ap some (sym same)))
      | inr (s', gone) ↦
          let (here', fine') = laws.delete_record-get_records s s' domain ex.id rs fine here gone in
          rw (picked, gone)
            (delete_selected-cleared p domain rest (without ex.id rs) s' works fine' here')
    ]
  ]

  -- Where a deletion fails only for a number that the zone does not have, adding a record that
  -- succeeds leaves exactly one record of its name and type: the added one, under a number of its own.
  pub upsert_unique :
      (domain : Text) (s : S) (r : Record) (rs : List Record)
      → ((s : S) (id : ℕ) (rs : List Record)
          → laws.IsFine s
          → store.get_records s domain ≡ some rs
          → store.delete_record s domain id ≡ none
          → IsFree id rs)
      → laws.IsFine s
      → store.get_records s domain ≡ some rs
      → (r.id == 0) ≡ true
      → (upsert lib ip_text S store s domain r).1 ≡ true
      → (id : ℕ) × (rs' : List Record) × (store.get_records
            (upsert lib ip_text S store s domain r).0
            domain
          ≡ some rs')
        × (select (is_replaced r) rs' ≡ numbered id r ∷ [])
  unfolding upsert put_or_fail
  upsert_unique domain s r rs works fine here new good =
      let p = is_replaced r in
      let s' = delete_selected lib ip_text S store p domain rs s in
      let (fine', here') = delete_selected-cleared p domain rs rs s works fine here in
      elim (Option-cases (store.put_record s' domain r)) [
        | inl failed ↦
            absurd (let bad = rw (here, upsert, failed, put_or_fail) at good in ground arith)
        | inr (s'', put) ↦
            let (id, free, there, fine'') =
              laws.put_record-get_records s' s'' domain r (cleared p rs rs) fine' here' new put in
            let self : p (numbered id r) ≡ true = ground (
              arith,
              text_beq_iff r.name r.name,
              text_beq_iff (type_text r.rtype) (type_text r.rtype),
            ) in
            rw (here, upsert, put, put_or_fail)
              (
                id,
                cleared p rs rs ++ (numbered id r ∷ []),
                there,
                select-append p (cleared p rs rs) (numbered id r) self
                    (cleared_none p rs rs (covered_self p rs)),
              )
      ]
