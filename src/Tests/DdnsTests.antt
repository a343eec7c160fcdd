-- ===== src/Tests/DdnsTests.antt =====
-- Updates of the zone of the samples, in the store of files.
use domudns.Prelude.{
  ℕ, ◌≡◌, ◌≢◌, refl, sym, ap, subst, ◌∙◌, true, false, List, [], ◌∷◌, ◌++◌, select, none, some,
  length, ◌==◌, if◌then◌else◌, text_eq, text_beq, arith,
}
use domudns.Assoc.{lookup, has_key}
use domudns.Text.{Text, codes, trim_suffix, has_suffix, normalize_name, lower_byte}
use domudns.Net.{Ip, v4, v6}
use domudns.Mdns.{Rr, Rdata, type_a, class_inet, rcode_refused}
use domudns.Dns.Record.{Record}
use domudns.Dns.Zone.{Zone, Date, next_record_id, next_record_id-Unused}
use domudns.Dns.CharClass.{allows, is_valid_view_name}
use domudns.Dns.Uri.{last_index}
use domudns.FileStore.{
  stored, Disk, Files, sanitize_zone_filename, sanitize_domain_filename, split_zone_key,
  load_zone_file, load_zone_view_file, zone_in, get_records,
}
use domudns.FileStore.Runs.{IsStore}
use domudns.Ddns.Store.{DdnsStore, DdnsLaws, IsFree, numbered, without}
use domudns.Ddns.{
  DdnsHandler, Request, handle, rcode_not_auth, apply_updates, normalize_rr_name, upsert,
  put_or_fail, is_replaced,
}
use domudns.Ddns.Outcome.{handle_unauthorised}
use domudns.Ddns.Named.{IsNumbered, named}
use domudns.Ddns.Frame.{target, apply_updates-others}
use domudns.Ddns.Upsert.{upsert_unique}
use domudns.Ddns.OnFiles.{file_ddns_store, file_ddns_laws}
use domudns.Tests.Samples.{lib, blank, zone, www}

abbrev disk : Disk
disk = record { can_write = λ p. true; can_remove = λ p. true }

abbrev today : Date
today = record { year = 2024; month = 5; day = 17 }

abbrev ip_text : Ip → Text
ip_text (v4 n) = n ∷ []
ip_text (v6 n) = n ∷ n ∷ []

abbrev small : Zone
small = record zone { records = www ∷ [] }

abbrev files : Files
files = (codes "example.com.json", stored small) ∷ []

abbrev store : DdnsStore Files
store = file_ddns_store disk today

abbrev domain : Text
domain = codes "example.com"

abbrev printer : Rr
printer = record {
  hdr = record {
    name = codes "Printer.example.com.";
    rrtype = type_a;
    class = class_inet;
    ttl = 0;
  };
  rdata = Rdata.a (v4 9);
}

abbrev no_keys : DdnsHandler
no_keys = record {
  secrets = [];
  algorithms = [];
  stats = record { total_updates = 0; total_failed = 0; last_rejected_reason = none };
}

abbrev unsigned : Request
unsigned = record { msg = record blank { ns = printer ∷ [] }; tsig = none; tsig_error = false }

handle_unauthorised_example :
    ((handle lib ip_text Files store no_keys files unsigned).state ≡ files)
    × ((handle lib ip_text Files store no_keys files unsigned).reload ≡ false)
    × ((handle lib ip_text Files store no_keys files unsigned).handler.secrets ≡ [])
    × ((handle lib ip_text Files store no_keys files unsigned).response.msg.rcode
        ≡ (if length no_keys.secrets == 0 then rcode_refused else rcode_not_auth))
handle_unauthorised_example =
    handle_unauthorised lib ip_text Files store no_keys files unsigned refl

files-IsStore : IsStore files
unfolding sanitize_zone_filename sanitize_domain_filename normalize_name trim_suffix has_suffix
    allows lower_byte is_valid_view_name has_key
files-IsStore = (((domain, refl, refl), tt), (refl, tt))

files-records : store.get_records files domain ≡ some (www ∷ [])
unfolding get_records load_zone_file load_zone_view_file split_zone_key last_index zone_in lookup
    sanitize_zone_filename sanitize_domain_filename normalize_name trim_suffix has_suffix allows
    lower_byte is_valid_view_name
files-records = refl

other_target : text_beq (target domain printer) (codes "www") ≡ false
unfolding normalize_rr_name normalize_name trim_suffix has_suffix lower_byte
other_target = refl

apply_updates-others_example :
    (rs' : List Record) × (store.get_records
        (apply_updates lib ip_text Files store files domain (printer ∷ [])).0
        domain
      ≡ some rs')
    × IsNumbered rs'
    × (named (codes "www") rs' ≡ named (codes "www") (www ∷ []))
apply_updates-others_example =
    apply_updates-others lib ip_text Files store (file_ddns_laws disk today) domain (codes "www")
      files (www ∷ []) (printer ∷ []) files-IsStore files-records (tt, tt) (other_target, tt)

-- A store of one zone that is a list of records.
abbrev next : List Record → ℕ
next rs = next_record_id (record zone { records = rs })

abbrev list_store : DdnsStore (List Record)
list_store = record {
  get_zone = λ s d. some (record zone { records = s });
  get_records = λ s d. some s;
  put_record = λ s d r. some (s ++ (numbered (next s) r ∷ []));
  delete_record = λ s d id. some (without id s);
}

same_list : {A : Type 0} (a b : A) → some a ≡ some b → a ≡ b
same_list a b e = ground arith

abbrev list_laws : DdnsLaws (List Record) list_store
list_laws = record {
  IsFine = λ s. Unit;
  put_record-get_records = λ s s' d r rs fine here new put. (
    next s,
    subst (IsFree (next s)) (same_list s rs here)
        (next_record_id-Unused (record zone { records = s })).1,
    ap some (sym (same_list (s ++ (numbered (next s) r ∷ [])) s' put))
        ∙ ap (λ l. some (l ++ (numbered (next s) r ∷ []))) (same_list s rs here),
    tt,
  );
  delete_record-get_records = λ s s' d id rs fine here gone. (
    ap some (sym (same_list (without id s) s' gone))
        ∙ ap (λ l. some (without id l)) (same_list s rs here),
    tt,
  );
}

never_fails : {A : Type 0} (a : A) → some a ≢ none
never_fails a e = ground arith

abbrev unnumbered : Record
unnumbered = numbered 0 www

upsert_unique_example :
    (id : ℕ) × (rs' : List Record) × (some
        (upsert lib ip_text (List Record) list_store (www ∷ []) domain unnumbered).0
      ≡ some rs')
    × (select (is_replaced unnumbered) rs' ≡ numbered id unnumbered ∷ [])
unfolding upsert put_or_fail
upsert_unique_example =
    upsert_unique lib ip_text (List Record) list_store list_laws domain (www ∷ []) unnumbered
      (www ∷ []) (λ s id rs fine here failed. absurd (never_fails (without id s) failed)) tt refl
      refl refl
