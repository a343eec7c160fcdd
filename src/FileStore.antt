-- ===== src/FileStore.antt =====
-- The zones in the store of files (internal/filestore/zones.go and the file names of atomic.go). The
-- directory is a table from file names to contents. encoding/json reads back the zone that it
-- wrote; a file may also be damaged. What the file system answers is a parameter: a write goes
-- through whole or, as it ends in a rename, not at all.
pub mod Names
pub mod Keys
pub mod Records
pub mod Runs
use domudns.Prelude.{
  ℕ, ◌+◌, ◌≡◌, ◌⊎◌, inl, inr, refl, Bool, true, false, not, ◌||◌, List, [], ◌∷◌, ◌++◌, length, take,
  drop, all, ◌==◌, Option, none, some, text_beq, text_eq, select, if◌then◌else◌,
}
use domudns.Assoc.{lookup, insert, erase}
use domudns.Text.{Text, codes, dot, dot_text, has_suffix, to_lower, trim_suffix, normalize_name}
use domudns.Dns.CharClass.{allows, filename_char_class, is_valid_view_name}
use domudns.Dns.Record.{Record}
use domudns.Dns.Uri.{last_index}
use domudns.Dns.Zone.{Date, Soa, Zone, find_record, increment_serial, next_record_id}

pub data StoreError : Type 0 where
  invalid_key read_failed write_failed remove_failed : StoreError
  zone_not_found record_not_found no_domain refused : StoreError

pub data Result {ℓ} (A : Type ℓ) : Type ℓ where
  ok : A → Result A
  err : StoreError → Result A

infixl 5 ◌>>=◌
abbrev pub ◌>>=◌ {ℓ κ} : {A : Type ℓ} {B : Type κ} → Result A → (A → Result B) → Result B
ok a >>= f = f a
err e >>= f = err e

pub Result-cases {ℓ} :
    {A : Type ℓ} (m : Result A) → ((e : StoreError) × (m ≡ err e)) ⊎ ((a : A) × (m ≡ ok a))
Result-cases (ok a) = inr (a, refl)
Result-cases (err e) = inl (e, refl)

abbrev pub or_error {ℓ} : {A : Type ℓ} → StoreError → Option A → Result A
or_error e none = err e
or_error e (some a) = ok a

-- What a file holds: a zone, or text that is no JSON. An empty file reads as a zone without domain.
pub data Content : Type 0 where
  stored : Zone → Content
  damaged blank : Content

abbrev pub Files : Type 0
Files = List (Text × Content)

-- Whether the file system carries out a write or a removal of a file.
pub record Disk : Type 0 where
  pub can_write : Text → Bool
  pub can_remove : Text → Bool

abbrev pub is_domain_filename_char : ℕ → Bool
is_domain_filename_char c = allows filename_char_class c

-- `none` is the error.
unfoldable pub sanitize_domain_filename : Text → Option Text
sanitize_domain_filename domain =
    let d = normalize_name domain in
    if not (all is_domain_filename_char d)
    then none
    else if (length d == 0) || (text_beq d dot_text || text_beq d (codes ".."))
    then none
    else some d

abbrev pub at_sign : ℕ
at_sign = b'@'

unfoldable pub sanitize_zone_filename : Text → Text → Option Text
sanitize_zone_filename domain view = elim (sanitize_domain_filename domain) [
  | none ↦ none
  | some d ↦
      if length view == 0
      then some d
      else if not (is_valid_view_name view)
      then none
      else some (d ++ (at_sign ∷ view))
]

unfoldable pub split_zone_key : Text → Text × Text
split_zone_key key = elim (last_index key at_sign) [
  | none ↦ (key, [])
  | some idx ↦ (take idx key, drop (idx + 1) key)
]

abbrev pub json : Text
json = codes ".json"

-- readJSON into an empty zone, and the test of its domain
unfoldable pub zone_in : Option Content → Result Zone
zone_in none = err zone_not_found
zone_in (some damaged) = err read_failed
zone_in (some blank) = err zone_not_found
zone_in (some (stored z)) = if length z.domain == 0 then err zone_not_found else ok z

abbrev pub read_zone : Files → Text → Result Zone
read_zone files path = zone_in (lookup path files)

unfoldable pub load_zone_view_file : Files → Text → Text → Result Zone
load_zone_view_file files domain view = do
  filename ← or_error invalid_key (sanitize_zone_filename domain view)
  read_zone files (filename ++ json)

unfoldable pub load_zone_file : Files → Text → Result Zone
unfolding load_zone_view_file
load_zone_file files key = load_zone_view_file files (split_zone_key key).0 (split_zone_key key).1

abbrev pub get_zone : Files → Text → Result Zone
get_zone files domain = load_zone_file files domain

abbrev pub get_zone_view : Files → Text → Text → Result Zone
get_zone_view files domain view = load_zone_view_file files domain view

unfoldable pub get_records : Files → Text → Result (List Record)
get_records files zone_domain = do zone ← load_zone_file files zone_domain; ok zone.records

-- The entries of the directory; one that does not load is passed over.
unfoldable pub list_entries : Files → Files → List Zone
list_entries files [] = []
list_entries files ((name, content) ∷ entries) =
    let rest = list_entries files entries in
    if not (has_suffix name json)
    then rest
    else elim (load_zone_file files (trim_suffix name json)) [
      | err e ↦ rest
      | ok zone ↦ zone ∷ rest
    ]

unfoldable pub list_zones : Files → List Zone
list_zones files = list_entries files files

-- The record takes the place of the one with its number, or goes to the end.
unfoldable pub replace_record : Record → List Record → List Record
replace_record r [] = r ∷ []
replace_record r (q ∷ rs) =
    let rest = replace_record r rs in if q.id == r.id then r ∷ rs else q ∷ rest

-- `if zone.SOA != nil { zone.SOA.IncrementSerial() }`
unfoldable pub touch_soa : Date → Zone → Zone
touch_soa t z = record z {
  soa = elim (z.soa) [ none ↦ none | some soa ↦ some (increment_serial t soa) ];
}

abbrev pub with_id : Zone → Record → Record
with_id z r = if r.id == 0 then record r { id = next_record_id z } else r

module _ (disk : Disk) where
  -- atomicWriteJSON
  unfoldable pub write_file : Files → Text → Zone → Result Files
  write_file files path zone =
      if disk.can_write path then ok (insert path (stored zone) files) else err write_failed

  unfoldable pub save_zone_file : Files → Zone → Result Files
  save_zone_file files zone = do
    filename ← or_error invalid_key (sanitize_zone_filename zone.domain zone.view)
    write_file files (filename ++ json) zone

  unfoldable pub put_zone : Files → Zone → Result Files
  put_zone files zone = if length zone.domain == 0 then err no_domain else save_zone_file files zone

  -- `mutate` gives the changed zone, or `none` for its error.
  unfoldable pub update_zone : Files → Text → Text → (Zone → Option Zone) → Result Files
  update_zone files domain view mutate = do
    zone ←
        if not (length view == 0)
        then load_zone_view_file files domain view
        else load_zone_file files domain
    changed ← or_error refused (mutate zone)
    save_zone_file files changed

  -- Removing a file that is not there is no error.
  unfoldable pub remove_file : Files → Text → Result Files
  remove_file files path = elim (lookup path files) [
    | none ↦ ok files
    | some c ↦ if disk.can_remove path then ok (erase path files) else err remove_failed
  ]

  unfoldable pub delete_zone : Files → Text → Result Files
  delete_zone files domain = do
    filename ← or_error invalid_key (sanitize_domain_filename domain)
    remove_file files (filename ++ json)

  unfoldable pub delete_zone_view : Files → Text → Text → Result Files
  delete_zone_view files domain view = do
    filename ← or_error invalid_key (sanitize_zone_filename domain view)
    remove_file files (filename ++ json)

  module _ (today : Date) where
    unfoldable pub put_record : Files → Text → Record → Result Files
    put_record files zone_domain r = do
      zone ← load_zone_file files zone_domain
      save_zone_file files
          (touch_soa today (record zone { records = replace_record (with_id zone r) zone.records }))

    unfoldable pub delete_record : Files → Text → ℕ → Result Files
    delete_record files zone_domain id = do
      zone ← load_zone_file files zone_domain
      found ← or_error record_not_found (find_record id zone.records)
      save_zone_file files
          (touch_soa today (record zone { records = select (λ r. not (r.id == id)) zone.records }))
