-- ===== src/Tests/HandlerTests.antt =====
-- The handler with one blocked name, one upstream server that points inside, and a small cache.
use domudns.Prelude.{
  ℕ, ◌-◌, ◌≡◌, ◌⊎◌, refl, true, false, not, [], ◌∷◌, All, none, some, ◌==◌, text_beq, text_eq,
  arith,
}
use domudns.Prelude.Int.{pos}
use domudns.Assoc.{lookup, insert, has_key}
use domudns.Text.{Text, codes, trim_suffix, has_suffix, normalize_name, lower_byte}
use domudns.Net.{Ip, v4, v6, octets, net4}
use domudns.Mdns.{Rdata, Msg, type_a, class_inet}
use domudns.Access
use domudns.Access.{new_rebinding_config, is_rebinding_attack}
use domudns.Blocklist.{BlocklistManager, is_blocked, is_whitelisted, new_blocklist_manager}
use domudns.Cache.{CacheManager, new_cache_manager, get_key, decrement_ttls, fix_entry, cache_key}
use domudns.Forward.{
  Client, ConditionalForwardRule, best_rule, rule_matches, whole_answer, forward_tracked,
  try_servers,
}
use domudns.Forward.Dnssec.{Edns, is_dnssec_type, process_response}
use domudns.Forward.Rules.{StandsIn, NoneLonger, best_rule-NoneLonger}
use domudns.Forward.Servers.{IsServer, forward_tracked-IsServer}
use domudns.Handler.State.{Env, Settings, World, QueryContext}
use domudns.Handler.{build_blocked_response, cache_phase, upstream_forward_phase}
use domudns.Handler.Local.{cname_phase}
use domudns.Handler.Serve.{run_phases, serve_question}
use domudns.Handler.Guards.{IsSink, IsGuarded, serve_question-refused, run_phases-blocked}
use domudns.Handler.Gates.{NoneDnssec, upstream_forward_phase-safe, cache_phase-own}
use domudns.Handler.Chains.{Extends, IsReport, cname_phase-Extends}
use domudns.Zones.Response.{ZoneResponse}
use domudns.Tests.CacheTests.{list_heap, response}
use domudns.Tests.Samples.{lib, net, blank, manager, ask}

abbrev upstream_server : Text
upstream_server = codes "192.0.2.1:53"

abbrev inside : Msg
inside = record blank {
  answer =
      record {
        hdr = record { name = codes "x."; rrtype = type_a; class = class_inet; ttl = 60 };
        rdata = Rdata.a (v4 (octets 192 168 1 7));
      }
      ∷ [];
}

abbrev client : Client
client = record { udp = λ m s. some inside; tcp = λ m s. none; truncated = λ m. false }

abbrev edns : Edns
edns = record {
  is_edns0 = λ m. m.checking_disabled;
  do_bit = λ m. m.checking_disabled;
  set_do = λ m n. m;
  set_edns0 = λ m n b. record m { checking_disabled = true };
  do_bit-set_do = λ m n has. has;
  do_bit-set_edns0 = λ m n without. refl;
}

abbrev env : Env Text ℕ
env = record {
  lib = lib;
  edns = edns;
  net = net;
  client = client;
  heap = list_heap;
  format = λ n. n ∷ [];
  has_port = λ s. true;
  in_flight = λ key. none;
  match_string = λ re s. text_beq re s;
  fresh = λ n. n;
  allow_at = λ now n. (n - 1, not (n == 0));
  ip_text = λ ip. elim ip [ v4 n ↦ n ∷ [] | v6 n ↦ n ∷ n ∷ [] ];
}

abbrev blocked_name : Text
blocked_name = codes "ads.example."

abbrev blocklist : BlocklistManager Text
blocklist = record (new_blocklist_manager {R = Text}) {
  uncat_domains = (codes "ads.example", tt) ∷ [];
}

abbrev cfg : Settings Text
cfg = record {
  blocklist = some blocklist;
  zones = some manager;
  split_horizon = none;
  client_groups = none;
  acl = some (net4 (octets 192 168 0 0) 16 ∷ []);
  rebinding = record { enabled = true; whitelist = [] };
  dnssec_enabled = true;
  block_mode = codes "zero_ip";
  block_ip4 = codes "9.9.9.9";
  block_ip6 = [];
  acme = none;
  has_ddns = false;
  has_axfr = false;
  conditional = none;
}

abbrev cache : CacheManager
cache = record (new_cache_manager (pos 2) 0 0) {
  entries =
      (
        codes "x.:A",
        record { response = response; expires_at = 1000; cached_at = 5; access_time = 5 },
      )
      ∷ [];
  lru = codes "x.:A" ∷ [];
}

abbrev world : World ℕ
world = record {
  cache = some cache;
  limiter = none;
  forwarder = record { upstream = upstream_server ∷ []; counter = 0 };
}

abbrev asks : Text → Ip → QueryContext
asks name ip = record {
  req = record blank { id = 42; question = ask name type_a ∷ [] };
  client_ip = ip;
  question = ask name type_a;
  now = 7;
}

abbrev stranger : QueryContext
stranger = asks (codes "x.") (v4 (octets 9 9 9 9))

abbrev guest : Text → QueryContext
guest name = asks name (v4 (octets 192 168 1 7))

serve_question-refused_example :
    ((serve_question env cfg stranger world).0 ≡ world)
    × IsGuarded env cfg stranger (serve_question env cfg stranger world).1
unfolding Access.allows
serve_question-refused_example = serve_question-refused env cfg stranger world refl

run_phases-blocked_example :
    (run_phases env cfg (guest blocked_name) world ≡ (
      world,
      build_blocked_response env cfg (guest blocked_name).req (guest blocked_name).question type_a,
    ))
    × All (IsSink env cfg blocked_name) (run_phases env cfg (guest blocked_name) world).1.answer
unfolding is_blocked is_whitelisted has_key normalize_name trim_suffix has_suffix lower_byte
run_phases-blocked_example =
    run_phases-blocked env cfg (guest blocked_name) world blocklist refl refl refl

upstream_forward_phase-safe_example :
    is_rebinding_attack cfg.rebinding
      (codes "x.")
      (some (upstream_forward_phase env cfg (guest (codes "x.")) world).1)
    ≡ false
upstream_forward_phase-safe_example = upstream_forward_phase-safe env cfg (guest (codes "x.")) world

abbrev hit : Msg
hit = record response { id = 42 }

cache_phase-own_example :
    (hit.id ≡ (guest (codes "x.")).req.id)
    × (hit.authenticated_data ≡ false)
    × NoneDnssec hit.answer
    × NoneDnssec hit.ns
    × NoneDnssec hit.extra
unfolding cache_phase cache_key get_key process_response lookup insert decrement_ttls fix_entry
    is_dnssec_type has_suffix lower_byte
cache_phase-own_example =
    cache_phase-own env cfg (guest (codes "x.")) world
      (cache_phase env cfg (guest (codes "x.")) world).0 hit refl refl refl

abbrev led_out : ZoneResponse
led_out = record { msg = inside; alias_target = []; cname_target = codes "cdn.example." }

cname_phase-Extends_example :
    Extends inside (cname_phase env cfg (guest (codes "x.")) world led_out []).1
    ⊎ (IsReport (cname_phase env cfg (guest (codes "x.")) world led_out []).1
        × ((cname_phase env cfg (guest (codes "x.")) world led_out []).0.cache ≡ some cache))
cname_phase-Extends_example = cname_phase-Extends env cfg (guest (codes "x.")) world led_out []

abbrev box : ConditionalForwardRule
box = record { domain = codes "box"; servers = codes "a" ∷ [] }

abbrev fritz : ConditionalForwardRule
fritz = record { domain = codes "fritz.box"; servers = codes "b" ∷ [] }

best_rule-NoneLonger_example :
    StandsIn fritz (box ∷ fritz ∷ [])
    × (rule_matches (codes "nas.fritz.box") fritz ≡ true)
    × NoneLonger (codes "nas.fritz.box") 9 (box ∷ fritz ∷ [])
unfolding best_rule rule_matches has_suffix
best_rule-NoneLonger_example =
    best_rule-NoneLonger (codes "nas.fritz.box") fritz (box ∷ fritz ∷ []) refl

forward_tracked-IsServer_example :
    IsServer upstream_server (upstream_server ∷ [])
    × ((client.udp blank upstream_server ≡ some inside)
        ⊎ (client.tcp blank upstream_server ≡ some inside))
unfolding forward_tracked try_servers whole_answer
forward_tracked-IsServer_example =
    forward_tracked-IsServer client world.forwarder
      (record { upstream = upstream_server ∷ []; counter = 1 }) blank inside upstream_server
      (omega arith) refl
