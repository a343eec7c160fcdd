-- ===== src/Handler.antt =====
-- How a query is answered (internal/dnsserver/handler.go and the pipeline_*.go files). A phase gives
-- the message that it writes, or `none` if it leaves the query to the next phase. Logging and
-- metrics are left out, and a message is always written with success; the forwarder is never nil.
pub mod State
pub mod Config
pub mod Local
pub mod Serve
pub mod Guards
pub mod Gates
pub mod Chains
use domudns.Prelude.{
  ℕ, zero, suc, ◌+◌, Bool, true, false, not, ◌||◌, ◌&&◌, List, [], ◌∷◌, ◌++◌, map, length, any,
  ◌==◌, Option, none, some, text_beq, if◌then◌else◌,
}
use domudns.Text.{Text, codes, to_lower, has_prefix, normalize_name}
use domudns.Net.{Ip, v4}
use domudns.Mdns.{
  Mdns, Msg, Rr, Header, Rdata, Question, type_a, type_aaaa, type_txt, type_any, class_inet,
  rcode_success, rcode_format_error, rcode_server_failure, rcode_name_error, rcode_refused,
}
use domudns.Access
use domudns.Access.{default_categories, get_categories, get_view, is_rebinding_attack}
use domudns.Blocklist.{is_blocked, is_whitelisted}
use domudns.Cache.{CacheManager, get, set}
use domudns.Forward.{Forwarder, forward_tracked, forward_to_servers, match_servers}
use domudns.Forward.Dnssec.{prepare_request, process_response}
use domudns.Handler.State.{Env, Settings, World, QueryContext, Served, answered, to_ddns, to_axfr}
use domudns.RateLimit.{allow}
use domudns.Zones.{ZoneManager, find_zone}
use domudns.Zones.Chain.{max_cname_chain_depth, member}
use domudns.Zones.Response.{ZoneResponse, generate_response, find_fwd_servers}
use domudns.Dns.Zone.{Zone}

abbrev pub opcode_update : ℕ
opcode_update = 5

abbrev pub type_ixfr : ℕ
type_ixfr = 251

abbrev pub type_axfr : ℕ
type_axfr = 252

-- A literal of an A or AAAA record; an address that does not parse gives one without data.
abbrev pub sink : (Ip → Rdata) → Option Ip → Rdata
sink make none = Rdata.opaque []
sink make (some ip) = make ip

module _ {R L : Type 0} (env : Env R L) (cfg : Settings R) where
  abbrev pub respond_error : Msg → ℕ → Msg
  respond_error r rcode = env.lib.set_rcode r rcode

  unfoldable pub extract_client_ip : Text → Ip
  extract_client_ip remote_addr = elim (env.net.split_host remote_addr) [
    | none ↦ elim (env.net.parse_ip remote_addr) [ some ip ↦ ip | none ↦ v4 0 ]
    | some host ↦ elim (env.net.parse_ip host) [ some ip ↦ ip | none ↦ v4 0 ]
  ]

  abbrev pub sink_rr : Text → ℕ → Rdata → Rr
  sink_rr name rrtype rdata = record {
    hdr = record { name = name; rrtype = rrtype; class = class_inet; ttl = 300 };
    rdata = rdata;
  }

  unfoldable pub build_blocked_response : Msg → Question → ℕ → Msg
  build_blocked_response r q qtype =
      let m = env.lib.set_reply r in
      if text_beq cfg.block_mode (codes "nxdomain")
      then env.lib.set_rcode r rcode_name_error
      else if (qtype == type_a) && not (length cfg.block_ip4 == 0)
      then record m {
        answer =
            m.answer
            ++ (sink_rr q.name type_a (sink Rdata.a (env.net.parse_ip cfg.block_ip4)) ∷ []);
      }
      else if (qtype == type_aaaa) && not (length cfg.block_ip6 == 0)
      then record m {
        answer =
            m.answer
            ++ (sink_rr q.name type_aaaa (sink Rdata.aaaa (env.net.parse_ip cfg.block_ip6)) ∷ []);
      }
      else m

  abbrev pub challenge_rr : Text → Text → Rr
  challenge_rr name value = record {
    hdr = record { name = name; rrtype = type_txt; class = class_inet; ttl = 60 };
    rdata = Rdata.txt (value ∷ []);
  }

  unfoldable pub acme_phase : QueryContext → Option Msg
  acme_phase ctx = elim (cfg.acme) [
    | none ↦ none
    | some challenge ↦
        if not (ctx.question.qtype == type_txt)
        then none
        else if not (has_prefix (to_lower ctx.question.name) (codes "_acme-challenge."))
        then none
        else elim (challenge ctx.question.name) [
          | none ↦ none
          | some value ↦
              let m = env.lib.set_reply ctx.req in
              some (record m {
                authoritative = true;
                answer = m.answer ++ (challenge_rr ctx.question.name value ∷ []);
              })
        ]
  ]

  abbrev pub categories_of : Ip → List Text
  categories_of ip = elim (cfg.client_groups) [
    | none ↦ default_categories
    | some groups ↦ get_categories groups ip
  ]

  unfoldable pub blocklist_phase : QueryContext → Option Msg
  blocklist_phase ctx = elim (cfg.blocklist) [
    | none ↦ none
    | some b ↦
        if is_whitelisted b ctx.client_ip
        then none
        else if not (is_blocked env.match_string b ctx.question.name (categories_of ctx.client_ip))
        then none
        else some (build_blocked_response ctx.req ctx.question ctx.question.qtype)
  ]

  -- h.cache.Set where there is a cache
  unfoldable pub cache_set : QueryContext → World L → Msg → World L
  cache_set ctx w m = record w {
    cache = elim (w.cache) [
      | none ↦ none
      | some c ↦
          some (
            set env.heap env.lib env.format ctx.now c ctx.question.name ctx.question.qtype (some m))
    ];
  }

  abbrev pub is_cacheable : Msg → Bool
  is_cacheable m = (m.rcode == rcode_success) || (m.rcode == rcode_name_error)

  abbrev pub cache_set_if : Bool → QueryContext → World L → Msg → World L
  cache_set_if t ctx w m = if t then cache_set ctx w m else w

  abbrev pub processed : Msg → Msg → Msg
  processed req resp = process_response env.edns cfg.dnssec_enabled req resp

  unfoldable pub cache_phase : QueryContext → World L → World L × Option Msg
  cache_phase ctx w = elim (w.cache) [
    | none ↦ (w, none)
    | some c ↦
        let got = get env.heap env.lib env.format ctx.now c ctx.question.name ctx.question.qtype in
        (
          record w { cache = some got.0 },
          elim (got.1) [
            | none ↦ none
            | some m ↦ some (processed ctx.req (record m { id = ctx.req.id }))
          ],
        )
  ]

  -- Equal queries on their way share one outcome.
  unfoldable pub forward_request_deduped : World L → Msg → Text → ℕ → World L × Option (Msg × Text)
  forward_request_deduped w req qname qtype =
      let key = qname ++ (b'/' ∷ env.lib.type_to_string qtype) in
      elim (env.in_flight key) [
        | some shared ↦ (w, shared)
        | none ↦
            let sent =
              forward_tracked env.client w.forwarder
                (prepare_request env.edns cfg.dnssec_enabled req) in
            (record w { forwarder = sent.0 }, sent.1)
      ]

  unfoldable pub conditional_forward_phase : QueryContext → World L → World L × Option Msg
  conditional_forward_phase ctx w = elim (cfg.conditional) [
    | none ↦ (w, none)
    | some rules ↦ elim (match_servers rules ctx.question.name) [
      | [] ↦ (w, none)
      | s ∷ servers ↦
          let req = prepare_request env.edns cfg.dnssec_enabled ctx.req in
          let sent = forward_to_servers env.client w.forwarder req (s ∷ servers) in
          let w' = record w { forwarder = sent.0 } in
          elim (sent.1) [
            | none ↦ (w', some (respond_error ctx.req rcode_server_failure))
            | some resp ↦
                (cache_set_if (is_cacheable resp) ctx w' resp, some (processed ctx.req resp))
          ]
    ]
  ]

  -- The answer to a query that upstream gave a message for, checkRebinding included
  unfoldable pub answer_upstream : QueryContext → World L → Msg → World L × Msg
  answer_upstream ctx w resp =
      if is_rebinding_attack cfg.rebinding ctx.question.name (some resp)
      then (w, respond_error ctx.req rcode_name_error)
      else (cache_set_if (is_cacheable resp) ctx w resp, processed ctx.req resp)

  unfoldable pub upstream_forward_phase : QueryContext → World L → World L × Msg
  upstream_forward_phase ctx w =
      let sent = forward_request_deduped w ctx.req ctx.question.name ctx.question.qtype in
      elim (sent.1) [
        | none ↦ (sent.0, respond_error ctx.req rcode_server_failure)
        | some (resp, upstream) ↦ answer_upstream ctx sent.0 resp
      ]

  unfoldable pub forward_phase : QueryContext → World L → World L × Msg
  forward_phase ctx w =
      let tried = conditional_forward_phase ctx w in
      elim (tried.1) [ some m ↦ (tried.0, m) | none ↦ upstream_forward_phase ctx tried.0 ]
