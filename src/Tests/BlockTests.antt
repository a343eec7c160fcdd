-- ===== src/Tests/BlockTests.antt =====
-- The block list.
use domudns.Prelude.{
  ◌≡◌, refl, Bool, true, false, ◌||◌, [], ◌∷◌, any, text_beq, text_eq, nat_eq, Option, some,
}
use domudns.Assoc.{lookup, insert, has_key}
use domudns.Text.{Text, codes, normalize_name, has_suffix, trim_suffix, lower_byte}
use domudns.Blocklist.{
  BlocklistManager, Provider, UrlDomainEntry, add_domains, add_url_sets, apply_url_domains,
  build_domain_set, build_filtered_domain_set, build_filtered_url_sets, compile_regexps, is_blocked,
  load, load_blocklist_sources, load_sources, parse_cidr_list, parse_wildcards, rebuild_flat_maps,
  reload_whitelist, is_whitelisted, with_suffix,
}
use domudns.Blocklist.Sources.{IsBlocklist, blocks, pattern_hit, is_blocked-blocks}
use domudns.Blocklist.Updates.{new-IsBlocklist, load-IsBlocklist}
use domudns.Blocklist
use domudns.Net.{v4, octets}
use domudns.Tests.Samples.{net}

-- A regular expression of the tests matches itself.
abbrev same : Text → Text → Bool
same = text_beq

abbrev compile : Text → Option Text
compile p = some p

abbrev provider : Provider
provider = record {
  get_url_sets = some (
      record { url_id = 1; category = []; domains = codes "Ads.example." ∷ codes "ok.example" ∷ [] }
      ∷ record { url_id = 2; category = codes "games"; domains = codes "play.example" ∷ [] }
      ∷ []);
  get_manual = some (codes "bad.example" ∷ []);
  get_allowed = some (codes "ok.example" ∷ []);
  get_whitelist = some (codes "9.9.9.9" ∷ codes "192.168.0.0/16" ∷ codes "nonsense" ∷ []);
  get_patterns = some (codes "*.track.example" ∷ [], codes "/xyz/" ∷ []);
}

computing : Unit {0}
unfolding normalize_name has_suffix trim_suffix lower_byte lookup insert has_key add_domains
    add_url_sets build_domain_set build_filtered_domain_set build_filtered_url_sets compile_regexps
    parse_wildcards parse_cidr_list rebuild_flat_maps load_blocklist_sources load_sources load
    is_blocked apply_url_domains
computing = tt

abbrev loaded : BlocklistManager Text
loaded = (load net compile Blocklist.new_blocklist_manager provider).0

verdicts :
    (is_blocked same loaded (codes "ADS.example") [] ≡ true)
    × (is_blocked same loaded (codes "ok.example") [] ≡ false)
    × (is_blocked same loaded (codes "play.example") [] ≡ false)
    × (is_blocked same loaded (codes "play.example") (codes "games" ∷ []) ≡ true)
    × (is_blocked same loaded (codes "a.track.example.") [] ≡ true)
    × (is_blocked same loaded (codes "xyz") [] ≡ true)
unfolding computing
verdicts = (refl, refl, refl, refl, refl, refl)

exempt_clients :
    (is_whitelisted loaded (v4 (octets 192 168 7 7)) ≡ true)
    × (is_whitelisted loaded (v4 (octets 9 9 9 8)) ≡ false)
unfolding computing with_suffix is_whitelisted
exempt_clients = (refl, refl)

loaded-IsBlocklist : IsBlocklist loaded
loaded-IsBlocklist =
    (load-IsBlocklist net compile Blocklist.new_blocklist_manager provider 0 [] []
      new-IsBlocklist).0

is_blocked-blocks_example : is_blocked same loaded (codes "play.example") (codes "games" ∷ []) ≡ (
    (has_key (normalize_name (codes "play.example")) loaded.manual_domains
      || any
          (λ p. blocks (normalize_name (codes "play.example")) (codes "games" ∷ []) p.1)
          loaded.url_sets)
    || pattern_hit same loaded (normalize_name (codes "play.example")))
is_blocked-blocks_example =
    is_blocked-blocks same loaded (codes "play.example") (codes "games" ∷ []) loaded-IsBlocklist

load-IsBlocklist_example :
    IsBlocklist (load net compile loaded provider).0
    × IsBlocklist (reload_whitelist net compile loaded provider).0
    × IsBlocklist (apply_url_domains loaded 2 (codes "games") (codes "new.example" ∷ []))
load-IsBlocklist_example =
    load-IsBlocklist net compile loaded provider 2 (codes "games") (codes "new.example" ∷ [])
      loaded-IsBlocklist
