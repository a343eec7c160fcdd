-- ===== src/Tests/StoreTests.antt =====
-- The store of files at a concrete zone, in one view.
use domudns.Prelude.{
  ◌≡◌, ◌≢◌, refl, true, false, [], ◌∷◌, All, none, some, ◌==◌, if◌then◌else◌, text_eq,
}
use domudns.Assoc.{insert, lookup, erase}
use domudns.Text.{Text, codes, normalize_name, trim_suffix, has_suffix, lower_byte, contains_byte}
use domudns.Dns.Record.{Record}
use domudns.Dns.CharClass.{allows, is_valid_view_name}
use domudns.Dns.Uri.{last_index}
use domudns.Dns.Zone.{Date, Zone, find_record}
use domudns.FileStore.{
  stored, Disk, Files, ok, get_zone_view, load_zone_file, list_zones, put_zone, at_sign,
  sanitize_zone_filename, sanitize_domain_filename, split_zone_key, put_record, delete_record,
  delete_zone_view, zone_in, save_zone_file, write_file, remove_file, touch_soa, replace_record,
  load_zone_view_file,
}
use domudns.FileStore.Names.{
  IsFileChar, IsFileDomain, zone_filename, sanitize_zone_filename-IsFileDomain,
  split_zone_key-sanitize_zone_filename,
}
use domudns.FileStore.Keys.{same_key, put_zone-get_zone_view}
use domudns.FileStore.Records.{IsNumbered, put_record-find_record, delete_record-find_record}
use domudns.FileStore.Runs.{empty, after, put, list_zones-get_zone_view}
use domudns.Tests.Samples.{zone, www}

abbrev home : Zone
home = record zone { view = codes "internal" }

abbrev disk : Disk
disk = record { can_write = λ p. true; can_remove = λ p. true }

abbrev home_files : Files
home_files = (codes "example.com@internal.json", stored home) ∷ []

abbrev today : Date
today = record { year = 2024; month = 5; day = 17 }

abbrev home_key : Text
home_key = codes "example.com@internal"

abbrev fourth : Record
fourth = record www { id = 4 }

home_named : sanitize_zone_filename home.domain home.view ≡ some home_key
unfolding sanitize_zone_filename sanitize_domain_filename normalize_name trim_suffix has_suffix
    allows lower_byte is_valid_view_name
home_named = refl

home_put : put_zone disk [] home ≡ ok home_files
unfolding put_zone save_zone_file write_file insert sanitize_zone_filename sanitize_domain_filename
    normalize_name trim_suffix has_suffix allows lower_byte is_valid_view_name
home_put = refl

home_deleted : delete_zone_view disk home_files (codes "example.com") (codes "internal") ≡ ok []
unfolding delete_zone_view remove_file erase lookup sanitize_zone_filename sanitize_domain_filename
    normalize_name trim_suffix has_suffix allows lower_byte is_valid_view_name
home_deleted = refl

home_loaded : load_zone_file home_files home_key ≡ ok home
unfolding load_zone_file load_zone_view_file split_zone_key last_index zone_in lookup
    sanitize_zone_filename sanitize_domain_filename normalize_name trim_suffix has_suffix allows
    lower_byte is_valid_view_name
home_loaded = refl

put_zone-get_zone_view_example :
    get_zone_view home_files (codes "EXAMPLE.com") (codes "internal") ≡ (
      if same_key home.domain home.view (codes "EXAMPLE.com") (codes "internal")
      then ok home
      else get_zone_view [] (codes "EXAMPLE.com") (codes "internal"))
put_zone-get_zone_view_example =
    put_zone-get_zone_view disk [] home_files home (codes "EXAMPLE.com") (codes "internal") home_put

sanitize_zone_filename-IsFileDomain_example :
    (home_key ≡ zone_filename (normalize_name home.domain) home.view)
    × IsFileDomain (normalize_name home.domain)
    × All IsFileChar home.view
    × (contains_byte home.view at_sign ≡ false)
sanitize_zone_filename-IsFileDomain_example =
    sanitize_zone_filename-IsFileDomain home.domain home.view home_key home_named

split_zone_key-sanitize_zone_filename_example :
    split_zone_key home_key ≡ (normalize_name home.domain, home.view)
split_zone_key-sanitize_zone_filename_example =
    split_zone_key-sanitize_zone_filename home.domain home.view home_key home_named

abbrev few : Zone
few = record home { records = fourth ∷ [] }

abbrev few_files : Files
few_files = (codes "example.com@internal.json", stored few) ∷ []

abbrev no_files : Files
no_files = (codes "example.com@internal.json", stored (record home { records = [] })) ∷ []

fourth_put : put_record disk today no_files home_key fourth ≡ ok few_files
unfolding put_record touch_soa replace_record save_zone_file write_file insert load_zone_file
    load_zone_view_file split_zone_key last_index zone_in lookup sanitize_zone_filename
    sanitize_domain_filename normalize_name trim_suffix has_suffix allows lower_byte
    is_valid_view_name
fourth_put = refl

fourth_deleted : delete_record disk today few_files home_key 4 ≡ ok no_files
unfolding delete_record find_record touch_soa save_zone_file write_file insert load_zone_file
    load_zone_view_file split_zone_key last_index zone_in lookup sanitize_zone_filename
    sanitize_domain_filename normalize_name trim_suffix has_suffix allows lower_byte
    is_valid_view_name
fourth_deleted = refl

put_record-find_record_example :
    (z z' : Zone) × (q : Record) × (load_zone_file no_files home_key ≡ ok z)
    × (load_zone_file few_files home_key ≡ ok z')
    × IsNumbered z.records fourth q
    × (find_record 4 z'.records ≡ (if q.id == 4 then some q else find_record 4 z.records))
put_record-find_record_example =
    put_record-find_record disk today no_files few_files home_key fourth 4
      ((home_key, home_named, refl), tt) fourth_put

delete_record-find_record_example :
    (z z' : Zone) × (load_zone_file few_files home_key ≡ ok z)
    × (find_record 4 z.records ≢ none)
    × (load_zone_file no_files home_key ≡ ok z')
    × (find_record 2 z'.records ≡ (if 4 == 2 then none else find_record 2 z.records))
delete_record-find_record_example =
    delete_record-find_record disk today few_files no_files home_key 4 2
      ((home_key, home_named, refl), tt) fourth_deleted

list_zones-get_zone_view_example :
    All (λ z. get_zone_view home_files z.domain z.view ≡ ok z) (list_zones home_files)
list_zones-get_zone_view_example =
    list_zones-get_zone_view disk home_files
      (after [] home_files empty (put [] home_files home home_put))
