-- ===== src/Ddns/OnFiles.antt =====
-- The store of files fills the interface that dynamic updates work on.
use domudns.Prelude.{
  ℕ, ◌≡◌, refl, ap, ◌∙◌, subst, true, not, List, [], ◌∷◌, ◌++◌, ◌==◌, Option, Option-cases, none,
  some, inl, inr, select, arith, text_eq,
}
use domudns.Text.{Text}
use domudns.Dns.Record.{Record}
use domudns.Dns.Zone.{Date, Zone, next_record_id, next_record_id-Unused, find_record}
use domudns.FileStore
use domudns.FileStore.{
  Disk, Files, Result, Result-cases, ok, err, get_zone, get_records, load_zone_file, save_zone_file,
  touch_soa, replace_record, with_id,
}
use domudns.FileStore.Records.{resaved}
use domudns.FileStore.Runs.{IsStore, saved-IsStore}
use domudns.Ddns.Store.{DdnsStore, DdnsLaws, IsFree, numbered, without}

abbrev pub ok_or_none {ℓ} : {A : Type ℓ} → Result A → Option A
ok_or_none (ok a) = some a
ok_or_none (err e) = none

abbrev pub file_ddns_store : Disk → Date → DdnsStore Files
file_ddns_store disk today = record {
  get_zone = λ files domain. ok_or_none (get_zone files domain);
  get_records = λ files domain. ok_or_none (get_records files domain);
  put_record = λ files domain r. ok_or_none (FileStore.put_record disk today files domain r);
  delete_record =
      λ files domain id. ok_or_none (FileStore.delete_record disk today files domain id);
}

replace_record_free :
    (r : Record) (rs : List Record) → IsFree r.id rs → replace_record r rs ≡ rs ++ (r ∷ [])
unfolding replace_record
replace_record_free r [] free = refl
replace_record_free r (q ∷ rs) free = ground (arith, free.0, replace_record_free r rs free.1)

ok_of : {A : Type 0} (m : Result A) (a : A) → ok_or_none m ≡ some a → m ≡ ok a
ok_of (ok b) a h = ap ok (let e : b ≡ a = ground arith in e)
ok_of (err e) a h = absurd (ground arith)

-- The zone behind the records of a domain.
zone_of :
    (files : Files) (domain : Text) (rs : List Record)
    → ok_or_none (get_records files domain) ≡ some rs
    → (z : Zone) × (load_zone_file files domain ≡ ok z) × (z.records ≡ rs)
unfolding get_records
zone_of files domain rs h = elim (Result-cases (load_zone_file files domain)) [
  | inl (e, bad) ↦ absurd (let h' = ok_of (get_records files domain) rs h in ground arith)
  | inr (z, loaded) ↦ (z, loaded, (let h' = ok_of (get_records files domain) rs h in ground arith))
]

records_of :
    (files : Files) (domain : Text) (z : Zone)
    → load_zone_file files domain ≡ ok z
    → ok_or_none (get_records files domain) ≡ some z.records
unfolding get_records
records_of files domain z loaded = rw loaded refl

module _ (disk : Disk) (today : Date) where
  pub put_record-appends :
      (files files' : Files) (domain : Text) (r : Record) (rs : List Record)
      → IsStore files
      → ok_or_none (get_records files domain) ≡ some rs
      → (r.id == 0) ≡ true
      → ok_or_none (FileStore.put_record disk today files domain r) ≡ some files'
      → (id : ℕ) × IsFree id rs
        × (ok_or_none (get_records files' domain) ≡ some (rs ++ (numbered id r ∷ [])))
        × IsStore files'
  unfolding FileStore.put_record touch_soa
  put_record-appends files files' domain r rs fine here new h =
      let (z, loaded, same) = zone_of files domain rs here in
      let put = ok_of (FileStore.put_record disk today files domain r) files' h in
      let id = next_record_id z in
      let z' = touch_soa today (record z { records = replace_record (with_id z r) z.records }) in
      let saved : save_zone_file disk files z' ≡ ok files' = ground arith in
      let fresh = (next_record_id-Unused z).1 in
      let given : with_id z r ≡ numbered id r = rw new refl in
      let appended : z'.records ≡ rs ++ (numbered id r ∷ []) =
        ap (λ q. replace_record q z.records) given
        ∙ replace_record_free (numbered id r) z.records fresh
        ∙ ap (λ l. l ++ (numbered id r ∷ [])) same in
      (
        id,
        subst (IsFree id) same fresh,
        records_of files' domain z'
              (resaved disk files files' domain z z' fine.0 loaded (refl, refl) saved)
            ∙ ap some appended,
        saved-IsStore disk files files' z' saved fine,
      )

  pub delete_record-without :
      (files files' : Files) (domain : Text) (id : ℕ) (rs : List Record)
      → IsStore files
      → ok_or_none (get_records files domain) ≡ some rs
      → ok_or_none (FileStore.delete_record disk today files domain id) ≡ some files'
      → (ok_or_none (get_records files' domain) ≡ some (without id rs)) × IsStore files'
  unfolding FileStore.delete_record touch_soa
  delete_record-without files files' domain id rs fine here h =
      let (z, loaded, same) = zone_of files domain rs here in
      let gone = ok_of (FileStore.delete_record disk today files domain id) files' h in
      elim (Option-cases (find_record id z.records)) [
        | inl absent ↦ absurd (ground arith)
        | inr (r, found) ↦
            let z' =
              touch_soa today (record z { records = select (λ q. not (q.id == id)) z.records }) in
            let saved : save_zone_file disk files z' ≡ ok files' = ground arith in
            (
              records_of files' domain z'
                    (resaved disk files files' domain z z' fine.0 loaded (refl, refl) saved)
                  ∙ ap (λ l. some (without id l)) same,
              saved-IsStore disk files files' z' saved fine,
            )
      ]

  abbrev pub file_ddns_laws : DdnsLaws Files (file_ddns_store disk today)
  file_ddns_laws = record {
    IsFine = IsStore;
    put_record-get_records = put_record-appends;
    delete_record-get_records = delete_record-without;
  }
