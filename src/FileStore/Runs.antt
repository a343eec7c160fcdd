-- ===== src/FileStore/Runs.antt =====
-- The store over its whole life: any sequence of its operations, from an empty directory.
use domudns.Prelude.{
  ℕ, ◌≡◌, refl, sym, ◌∙◌, subst, not, [], ◌∷◌, ◌++◌, length, ◌==◌, Option, Option-cases, inl, inr,
  All, text_beq, text_eq, Bool-cases, arith, if◌then◌else◌,
}
use domudns.Assoc.{lookup, insert, erase, Distinct, insert-Distinct, erase-Distinct}
use domudns.Text.{Text, has_suffix, trim_suffix}
use domudns.Dns.Record.{Record}
use domudns.Dns.Zone.{Date, Zone, find_record}
use domudns.FileStore.{
  Content, stored, Disk, Files, Result-cases, ok, json, sanitize_zone_filename,
  sanitize_domain_filename, save_zone_file, load_zone_file, load_zone_view_file, put_zone,
  update_zone, remove_file, list_zones, list_entries, get_zone_view, split_zone_key, delete_zone,
  delete_zone_view, put_record, delete_record,
}
use domudns.FileStore.Keys.{load_same, save_zone_file-parts}
use domudns.FileStore.Records.{load-same_key, IsNamed, IsConsistent}

-- An operation that changes the directory, and ends without an error.
pub data Step (disk : Disk) : Files → Files → Type 0 where
  put :
      (files files' : Files) (z : Zone) → put_zone disk files z ≡ ok files' → Step disk files files'
  update :
      (files files' : Files) (d v : Text) (mutate : Zone → Option Zone)
      → update_zone disk files d v mutate ≡ ok files'
      → Step disk files files'
  delete :
      (files files' : Files) (d : Text)
      → delete_zone disk files d ≡ ok files'
      → Step disk files files'
  delete_view :
      (files files' : Files) (d v : Text)
      → delete_zone_view disk files d v ≡ ok files'
      → Step disk files files'
  put_one :
      (files files' : Files) (today : Date) (key : Text) (r : Record)
      → put_record disk today files key r ≡ ok files'
      → Step disk files files'
  delete_one :
      (files files' : Files) (today : Date) (key : Text) (id : ℕ)
      → delete_record disk today files key id ≡ ok files'
      → Step disk files files'

pub data Reached (disk : Disk) : Files → Type 0 where
  empty : Reached disk []
  after : (files files' : Files) → Reached disk files → Step disk files files' → Reached disk files'

insert-IsConsistent :
    (path : Text) (c : Content) (files : Files)
    → IsNamed path c
    → IsConsistent files
    → IsConsistent (insert path c files)
unfolding insert
insert-IsConsistent path c [] named fine = (named, tt)
insert-IsConsistent path c ((p, b) ∷ files) named fine = elim (Bool-cases (text_beq p path)) [
  | inl same ↦ rw same (named, fine.1)
  | inr other ↦ rw other (fine.0, insert-IsConsistent path c files named fine.1)
]

erase-IsConsistent :
    (path : Text) (files : Files) → IsConsistent files → IsConsistent (erase path files)
unfolding erase
erase-IsConsistent path [] fine = tt
erase-IsConsistent path ((p, b) ∷ files) fine = elim (Bool-cases (text_beq p path)) [
  | inl same ↦ rw same (erase-IsConsistent path files fine.1)
  | inr other ↦ rw other (fine.0, erase-IsConsistent path files fine.1)
]

-- Each zone lies in the file of its name, and no file is there twice.
abbrev pub IsStore : Files → Type 0
IsStore files = IsConsistent files × Distinct files

pub saved-IsStore :
    (disk : Disk) (files files' : Files) (z : Zone)
    → save_zone_file disk files z ≡ ok files'
    → IsStore files
    → IsStore files'
saved-IsStore disk files files' z h fine =
    let (f, hf, written) = save_zone_file-parts disk files files' z h in
    let path = f ++ json in
    subst IsStore (sym written) (
      insert-IsConsistent path (stored z) files (f, hf, refl) fine.0,
      insert-Distinct path (stored z) files fine.1,
    )

removed-IsStore :
    (disk : Disk) (files files' : Files) (path : Text)
    → remove_file disk files path ≡ ok files'
    → IsStore files
    → IsStore files'
unfolding remove_file
removed-IsStore disk files files' path h fine = elim (Option-cases (lookup path files)) [
  | inl absent ↦ subst IsStore (let e : files ≡ files' = ground arith in e) fine
  | inr (c, there) ↦
      subst IsStore (let e : erase path files ≡ files' = ground arith in e)
        (erase-IsConsistent path files fine.0, erase-Distinct path files fine.1)
]

update_zone-saves :
    (disk : Disk) (files files' : Files) (d v : Text) (mutate : Zone → Option Zone)
    → update_zone disk files d v mutate ≡ ok files'
    → (z : Zone) × (save_zone_file disk files z ≡ ok files')
unfolding update_zone
update_zone-saves disk files files' d v mutate h =
    elim (Result-cases
      (if not (length v == 0) then load_zone_view_file files d v else load_zone_file files d)) [
        | inl (e, bad) ↦ absurd (let e' = rw bad at h in ground arith)
        | inr (z, loaded) ↦ elim (Option-cases (mutate z)) [
          | inl bad ↦ absurd (let e' = rw (loaded, bad) at h in ground arith)
          | inr (z', good) ↦ (z', rw (loaded, good) at h)
        ]
      ]

delete_record-saves :
    (disk : Disk) (files files' : Files) (today : Date) (key : Text) (id : ℕ)
    → delete_record disk today files key id ≡ ok files'
    → (z : Zone) × (save_zone_file disk files z ≡ ok files')
unfolding delete_record
delete_record-saves disk files files' today key id h =
    elim (Result-cases (load_zone_file files key)) [
      | inl (e, bad) ↦ absurd (ground arith)
      | inr (z, loaded) ↦ elim (Option-cases (find_record id z.records)) [
        | inl absent ↦ absurd (ground arith)
        | inr (r, found) ↦ (_, rw (loaded, found) at h)
      ]
    ]

Step-IsStore :
    (disk : Disk) (files files' : Files) → Step disk files files' → IsStore files → IsStore files'
unfolding put_zone update_zone delete_zone delete_zone_view put_record
Step-IsStore disk files files' (put _ _ z h) fine =
    saved-IsStore disk files files' z (ground arith) fine
Step-IsStore disk files files' (update _ _ d v mutate h) fine =
    let (z, saved) = update_zone-saves disk files files' d v mutate h in
    saved-IsStore disk files files' z saved fine
Step-IsStore disk files files' (delete _ _ d h) fine =
    elim (Option-cases (sanitize_domain_filename d)) [
      | inl bad ↦ absurd (ground arith)
      | inr (f, hf) ↦ removed-IsStore disk files files' (f ++ json) (ground arith) fine
    ]
Step-IsStore disk files files' (delete_view _ _ d v h) fine =
    elim (Option-cases (sanitize_zone_filename d v)) [
      | inl bad ↦ absurd (ground arith)
      | inr (f, hf) ↦ removed-IsStore disk files files' (f ++ json) (ground arith) fine
    ]
Step-IsStore disk files files' (put_one _ _ today key r h) fine =
    elim (Result-cases (load_zone_file files key)) [
      | inl (e, bad) ↦ absurd (ground arith)
      | inr (z, loaded) ↦ saved-IsStore disk files files' _ (rw loaded at h) fine
    ]
Step-IsStore disk files files' (delete_one _ _ today key id h) fine =
    let (z, saved) = delete_record-saves disk files files' today key id h in
    saved-IsStore disk files files' z saved fine

-- Whatever operations succeed, starting from an empty directory, each zone lies in the file named
-- after its domain and view, and no file is there twice.
pub Reached-IsStore : (disk : Disk) (files : Files) → Reached disk files → IsStore files
Reached-IsStore disk _ empty = (tt, tt)
Reached-IsStore disk _ (after files files' before step) =
    Step-IsStore disk files files' step (Reached-IsStore disk files before)

own_key :
    (files : Files) (key : Text) (z : Zone)
    → IsConsistent files
    → load_zone_file files key ≡ ok z
    → get_zone_view files z.domain z.view ≡ ok z
unfolding load_zone_file
own_key files key z fine h =
    let (d, v) = split_zone_key key in
    let (here, named) =
      load-same_key files (split_zone_key key).0 (split_zone_key key).1 z fine h in
    load_same files z.domain z.view (split_zone_key key).0 (split_zone_key key).1 here ∙ h

list_entries-found :
    (files entries : Files)
    → IsConsistent files
    → All (λ z. get_zone_view files z.domain z.view ≡ ok z) (list_entries files entries)
unfolding list_entries
list_entries-found files [] fine = tt
list_entries-found files ((name, c) ∷ entries) fine = elim (Bool-cases (has_suffix name json)) [
  | inr other ↦ rw other (list_entries-found files entries fine)
  | inl found ↦ rw found (elim (Result-cases (load_zone_file files (trim_suffix name json))) [
    | inl (e, bad) ↦ rw bad (list_entries-found files entries fine)
    | inr (z, loaded) ↦
        rw loaded (
          own_key files (trim_suffix name json) z fine loaded,
          list_entries-found files entries fine,
        )
  ])
]

-- Whatever operations succeeded before, each zone that ListZones returns is the one that GetZoneView
-- finds under its domain and view.
pub list_zones-get_zone_view :
    (disk : Disk) (files : Files)
    → Reached disk files
    → All (λ z. get_zone_view files z.domain z.view ≡ ok z) (list_zones files)
unfolding list_zones
list_zones-get_zone_view disk files reached =
    list_entries-found files files (Reached-IsStore disk files reached).0
