-- ===== src/FileStore/Records.antt =====
-- The records of a stored zone, changed one at a time (PutRecord and DeleteRecord), in a directory
-- where each zone lies in the file of its name.
use domudns.Prelude.{
  ℕ, ◌≤◌, ◌≡◌, ◌≢◌, ◌⊎◌, refl, subst, sym, ap, ◌∙◌, true, false, not, List, [], ◌∷◌, ◌++◌, length,
  ◌==◌, ==_iff, Option, Option-cases, none, some, inl, inr, All, select, text_beq, text_beq_iff,
  text_eq, Bool-cases, arith, if◌then◌else◌,
}
use domudns.Assoc.{lookup}
use domudns.Text.{Text, normalize_name}
use domudns.Dns.Record.{Record}
use domudns.Dns.Zone.{Date, Zone, find_record, Unused, next_record_id-Unused}
use domudns.FileStore.{
  Content, stored, damaged, blank, Disk, Files, Result-cases, ok, json, zone_in,
  sanitize_zone_filename, split_zone_key, load_zone_view_file, load_zone_file, save_zone_file,
  replace_record, touch_soa, with_id, put_record, delete_record,
}
use domudns.FileStore.Names.{sanitize_zone_filename-inj}
use domudns.FileStore.Keys.{save_zone_file-load, same_key, json_cancel, load_some, load_none}

-- A zone lies in the file of its domain and view.
abbrev pub IsNamed : Text → Content → Type 0
IsNamed path (stored z) =
    (f : Text) × (sanitize_zone_filename z.domain z.view ≡ some f) × (path ≡ f ++ json)
IsNamed path damaged = Unit
IsNamed path blank = Unit

abbrev pub IsConsistent : Files → Type 0
IsConsistent = All (λ e. IsNamed e.0 e.1)

lookup-IsNamed :
    (files : Files) (path : Text) (c : Content)
    → IsConsistent files
    → lookup path files ≡ some c
    → IsNamed path c
unfolding lookup
lookup-IsNamed [] path c fine h = absurd (ground arith)
lookup-IsNamed ((p, b) ∷ files) path c fine h = elim (Bool-cases (text_beq p path)) [
  | inl same ↦
      let here : b ≡ c = ground arith in
      let at_path : p ≡ path = ground (arith, text_beq_iff p path) in
      subst (IsNamed path) here (subst (λ q. IsNamed q b) at_path fine.0)
  | inr other ↦ lookup-IsNamed files path c fine.1 (rw other at h)
]

zone_in-ok :
    (c : Option Content) (z : Zone)
    → zone_in c ≡ ok z
    → (c ≡ some (stored z)) × ((length z.domain == 0) ≡ false)
unfolding zone_in
zone_in-ok none z h = absurd (ground arith)
zone_in-ok (some damaged) z h = absurd (ground arith)
zone_in-ok (some blank) z h = absurd (ground arith)
zone_in-ok (some (stored y)) z h = elim (Bool-cases (length y.domain == 0)) [
  | inl empty ↦ absurd (ground arith)
  | inr named ↦
      let e : y ≡ z = ground arith in
      (ap (λ x. some (stored x)) e, ap (λ x. length x.domain == 0) (sym e) ∙ named)
]

-- In a consistent directory a zone is found under its own domain and view alone.
pub load-same_key :
    (files : Files) (d v : Text) (z : Zone)
    → IsConsistent files
    → load_zone_view_file files d v ≡ ok z
    → (same_key z.domain z.view d v ≡ true) × ((length z.domain == 0) ≡ false)
load-same_key files d v z fine h = elim (Option-cases (sanitize_zone_filename d v)) [
  | inl bad ↦ absurd (let e = sym (load_none files d v bad) ∙ h in ground arith)
  | inr (f, hf) ↦
      let (there, named) =
        zone_in-ok (lookup (f ++ json) files) z (sym (load_some files d v f hf) ∙ h) in
      let (g, hg, path) = lookup-IsNamed files (f ++ json) (stored z) fine there in
      let keys =
        sanitize_zone_filename-inj z.domain d z.view v f (hg ∙ ap some (sym (json_cancel f g path)))
          hf in
      (
        ground (
          arith,
          text_beq_iff (normalize_name z.domain) (normalize_name d),
          text_beq_iff z.view v,
        ),
        named,
      )
]

find_record-replace_record :
    (r : Record) (rs : List Record) (j : ℕ)
    → find_record j (replace_record r rs) ≡ (if r.id == j then some r else find_record j rs)
unfolding find_record replace_record
find_record-replace_record r [] j = refl
find_record-replace_record r (q ∷ rs) j =
    ground
      (arith, find_record-replace_record r rs j, ==_iff q.id r.id, ==_iff q.id j, ==_iff r.id j)

find_record-select :
    (id : ℕ) (rs : List Record) (j : ℕ)
    → find_record j (select (λ r. not (r.id == id)) rs)
      ≡ (if id == j then none else find_record j rs)
unfolding find_record
find_record-select id [] j = ground arith
find_record-select id (q ∷ rs) j =
    ground (arith, find_record-select id rs j, ==_iff q.id id, ==_iff q.id j, ==_iff id j)

-- Saving a changed zone under the key that it was loaded by.
pub resaved :
    (disk : Disk) (files files' : Files) (key : Text) (z z' : Zone)
    → IsConsistent files
    → load_zone_file files key ≡ ok z
    → (z'.domain ≡ z.domain) × (z'.view ≡ z.view)
    → save_zone_file disk files z' ≡ ok files'
    → load_zone_file files' key ≡ ok z'
unfolding load_zone_file zone_in
resaved disk files files' key z z' fine loaded same h =
    let (d, v) = split_zone_key key in
    let (here, named) =
      load-same_key files (split_zone_key key).0 (split_zone_key key).1 z fine loaded in
    let here' : same_key z'.domain z'.view (split_zone_key key).0 (split_zone_key key).1 ≡ true =
      rw (same.0, same.1) here in
    save_zone_file-load disk files files' z' (split_zone_key key).0 (split_zone_key key).1 h
    ∙ rw (here', same.0, named) refl

-- The record as it is put: under its own number, or, where that is 0, under one that is not 0 and
-- that no record of the list has.
abbrev pub IsNumbered : List Record → Record → Record → Type 0
IsNumbered rs r q =
    (q ≡ record r { id = q.id })
    × (((r.id ≢ 0) × (q.id ≡ r.id)) ⊎ ((r.id ≡ 0) × (1 ≤ q.id) × Unused q.id rs))

with_id-IsNumbered : (z : Zone) (r : Record) → IsNumbered z.records r (with_id z r)
with_id-IsNumbered z r = elim (Bool-cases (r.id == 0)) [
  | inl new ↦
      let (some_id, unused) = next_record_id-Unused z in
      rw new (refl, inr (ground arith, some_id, unused))
  | inr old ↦ rw old (refl, inl (ground arith, refl))
]

-- PutRecord on a zone that the key finds: afterwards the key finds a zone in which the record's
-- number, or one that was free if it was 0, stands for the record, and every other number for what
-- it stood for before.
pub put_record-find_record :
    (disk : Disk) (today : Date) (files files' : Files) (key : Text) (r : Record) (j : ℕ)
    → IsConsistent files
    → put_record disk today files key r ≡ ok files'
    → (z z' : Zone) × (q : Record) × (load_zone_file files key ≡ ok z)
      × (load_zone_file files' key ≡ ok z')
      × IsNumbered z.records r q
      × (find_record j z'.records ≡ (if q.id == j then some q else find_record j z.records))
unfolding put_record touch_soa
put_record-find_record disk today files files' key r j fine h =
    elim (Result-cases (load_zone_file files key)) [
      | inl (e, bad) ↦ absurd (ground arith)
      | inr (z, loaded) ↦
          let z' =
            touch_soa today (record z { records = replace_record (with_id z r) z.records }) in
          (
            z,
            z',
            with_id z r,
            loaded,
            resaved disk files files' key z z' fine loaded (refl, refl) (ground arith),
            with_id-IsNumbered z r,
            find_record-replace_record (with_id z r) z.records j,
          )
    ]

-- DeleteRecord takes a number that the zone has; afterwards the zone is without that number, and
-- every other number stands for what it stood for before.
pub delete_record-find_record :
    (disk : Disk) (today : Date) (files files' : Files) (key : Text) (id j : ℕ)
    → IsConsistent files
    → delete_record disk today files key id ≡ ok files'
    → (z z' : Zone) × (load_zone_file files key ≡ ok z)
      × (find_record id z.records ≢ none)
      × (load_zone_file files' key ≡ ok z')
      × (find_record j z'.records ≡ (if id == j then none else find_record j z.records))
unfolding delete_record touch_soa
delete_record-find_record disk today files files' key id j fine h =
    elim (Result-cases (load_zone_file files key)) [
      | inl (e, bad) ↦ absurd (ground arith)
      | inr (z, loaded) ↦ elim (Option-cases (find_record id z.records)) [
        | inl absent ↦ absurd (ground arith)
        | inr (r, found) ↦
            let z' =
              touch_soa today (record z { records = select (λ q. not (q.id == id)) z.records }) in
            (
              z,
              z',
              loaded,
              ground arith,
              resaved disk files files' key z z' fine loaded (refl, refl) (ground arith),
              find_record-select id z.records j,
            )
      ]
    ]
