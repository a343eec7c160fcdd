-- ===== src/Ddns/Store.antt =====
-- The store that dynamic updates work on, as an interface: what of its state the records of a domain
-- are, and what the two changes do to them.
use domudns.Prelude.{ℕ, ◌≡◌, List, ◌∷◌, [], ◌++◌, not, ◌==◌, Option, some, All, select, true, false}
use domudns.Text.{Text}
use domudns.Dns.Record.{Record}
use domudns.Dns.Zone.{Zone}

-- DDNSStoreProvider; `none` is the error, after which the store is as it was.
pub record DdnsStore (S : Type 0) : Type 0 where
  pub get_zone : S → Text → Option Zone
  pub get_records : S → Text → Option (List Record)
  pub put_record : S → Text → Record → Option S
  pub delete_record : S → Text → ℕ → Option S

-- A record with another number.
abbrev pub numbered : ℕ → Record → Record
numbered id r = record r { id = id }

-- No record of a list has the number.
abbrev pub IsFree : ℕ → List Record → Type 0
IsFree id = All (λ q. (q.id == id) ≡ false)

abbrev pub without : ℕ → List Record → List Record
without id = select (λ q. not (q.id == id))

-- What updates rely on of a store: a record without a number is added at the end, under a number
-- that is free; a deletion takes away the records of the number. `IsFine` is the store's own
-- invariant.
pub record DdnsLaws (S : Type 0) (store : DdnsStore S) : Type 1 where
  pub IsFine : S → Type 0
  pub put_record-get_records :
      (s s' : S) (domain : Text) (r : Record) (rs : List Record)
      → IsFine s
      → store.get_records s domain ≡ some rs
      → (r.id == 0) ≡ true
      → store.put_record s domain r ≡ some s'
      → (id : ℕ) × IsFree id rs
        × (store.get_records s' domain ≡ some (rs ++ (numbered id r ∷ [])))
        × IsFine s'
  pub delete_record-get_records :
      (s s' : S) (domain : Text) (id : ℕ) (rs : List Record)
      → IsFine s
      → store.get_records s domain ≡ some rs
      → store.delete_record s domain id ≡ some s'
      → (store.get_records s' domain ≡ some (without id rs)) × IsFine s'
