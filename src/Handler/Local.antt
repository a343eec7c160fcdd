-- ===== src/Handler/Local.antt =====
-- The phase of the own zones: ALIAS records (pipeline_alias.go), CNAME chains that leave a zone
-- (pipeline_cname.go), and the servers of FWD records (pipeline_zone.go).
use domudns.Prelude.{
  ℕ, zero, suc, Bool, true, false, not, ◌||◌, ◌&&◌, List, [], ◌∷◌, ◌++◌, map, length, ◌==◌, Option,
  none, some, if◌then◌else◌,
}
use domudns.Text.{Text, normalize_name}
use domudns.Mdns.{Msg, Rr, type_a, type_aaaa, rcode_server_failure, rcode_name_error}
use domudns.Access.{get_view, is_rebinding_attack}
use domudns.Dns.Zone.{Zone}
use domudns.Forward.{forward_to_servers}
use domudns.Handler.State.{Env, Settings, World, QueryContext}
use domudns.Handler.{
  cache_set, cache_set_if, is_cacheable, forward_request_deduped, processed, respond_error,
}
use domudns.Zones.{find_zone}
use domudns.Zones.Chain.{max_cname_chain_depth, member}
use domudns.Zones.Response.{ZoneResponse, generate_response, find_fwd_servers}

-- What resolving a target gave: records, nothing, or the answer that reports an attack.
pub data Resolved : Type 0 where
  found : List Rr → Resolved
  unresolved : Resolved
  blocked : Msg → Resolved

module _ {R L : Type 0} (env : Env R L) (cfg : Settings R) where
  -- The answer of the own zones to a question of the server itself, with the ALIAS or CNAME it ends in.
  unfoldable pub local_answer : Text → Text → ℕ → Option ZoneResponse
  local_answer client_view target qtype =
      let name = env.lib.fqdn target in
      let req = env.lib.set_question name qtype in
      elim (cfg.zones) [
        | none ↦ none
        | some zones ↦ elim (find_zone zones client_view name) [
          | none ↦ none
          | some (zone, sub) ↦ some (
              generate_response env.lib env.net.parse_ip req (record { name = name; qtype = qtype })
                zone sub)
        ]
      ]

  -- `none` where no own zone has the last word.
  unfoldable pub resolve_alias_in_zone : Text → Text → ℕ → Option (List Rr)
  resolve_alias_in_zone client_view target qtype = elim (local_answer client_view target qtype) [
    | none ↦ none
    | some zr ↦ if not (length zr.alias_target == 0) then none else some zr.msg.answer
  ]

  -- An answer from upstream that a chain or an ALIAS goes on with
  unfoldable pub checked_upstream : QueryContext → Text → Msg → Resolved
  checked_upstream ctx target resp =
      if resp.rcode == rcode_server_failure
      then unresolved
      else if is_rebinding_attack cfg.rebinding target (some resp)
      then blocked (respond_error env cfg ctx.req rcode_name_error)
      else found (processed env cfg ctx.req resp).answer

  unfoldable pub resolve_upstream : QueryContext → World L → Text → ℕ → World L × Resolved
  resolve_upstream ctx w target qtype =
      let sent =
        forward_request_deduped env cfg w (env.lib.set_question (env.lib.fqdn target) qtype) target
          qtype in
      (
        sent.0,
        elim (sent.1) [
          | none ↦ unresolved
          | some (resp, upstream) ↦ checked_upstream ctx target resp
        ],
      )

  unfoldable pub resolve_alias_rrs : QueryContext → World L → Text → Text → ℕ → World L × Resolved
  resolve_alias_rrs ctx w client_view target qtype =
      elim (resolve_alias_in_zone client_view target qtype) [
        | some rrs ↦ (w, found rrs)
        | none ↦ resolve_upstream ctx w target qtype
      ]

  unfoldable pub synthesize_alias_rrs : Text → List Rr → List Rr
  synthesize_alias_rrs orig_name rrs =
      let name = env.lib.fqdn orig_name in
      map (λ (rr : Rr). record rr { hdr = record (rr.hdr) { name = name } }) rrs

  abbrev pub with_answers : Msg → List Rr → Msg
  with_answers m rrs = record m { answer = m.answer ++ rrs }

  unfoldable pub alias_phase : QueryContext → World L → ZoneResponse → Text → World L × Msg
  alias_phase ctx w zr client_view =
      let r = resolve_alias_rrs ctx w client_view zr.alias_target ctx.question.qtype in
      elim (r.1) [
        | blocked m ↦ (r.0, m)
        | unresolved ↦ (r.0, record (zr.msg) { rcode = rcode_server_failure })
        | found rrs ↦
            let resp = with_answers zr.msg (synthesize_alias_rrs ctx.question.name rrs) in
            (cache_set env cfg ctx r.0 resp, resp)
      ]

  -- The chain so far, or the answer that reports an attack
  abbrev pub grown : Msg → Resolved → (List Rr → List Rr) → Msg × Bool
  grown resp (found rrs) change = (with_answers resp (change rrs), false)
  grown resp unresolved change = (resp, false)
  grown resp (blocked m) change = (m, true)

  -- The loop of cnamePhase; the Boolean tells that the message reports an attack.
  unfoldable pub chase :
      ℕ → QueryContext → World L → Text → Msg → Text → List Text → World L × (Msg × Bool)
  chase zero ctx w client_view resp target seen = (w, (resp, false))
  chase (suc depth) ctx w client_view resp target seen =
      let key = normalize_name target in
      let qtype = ctx.question.qtype in
      elim (local_answer client_view target qtype) [
        | some zr ↦
            let resp' = with_answers resp zr.msg.answer in
            let rest = chase depth ctx w client_view resp' zr.cname_target (key ∷ seen) in
            let alias = resolve_alias_rrs ctx w client_view zr.alias_target qtype in
            if (length target == 0) || member key seen
            then (w, (resp, false))
            else if not (length zr.alias_target == 0)
            then (alias.0, grown resp' alias.1 (synthesize_alias_rrs target))
            else rest
        | none ↦
            let up = resolve_upstream ctx w target qtype in
            if (length target == 0) || member key seen
            then (w, (resp, false))
            else if not (qtype == type_a) && not (qtype == type_aaaa)
            then (w, (resp, false))
            else (up.0, grown resp up.1 (λ rrs. rrs))
      ]

  unfoldable pub cname_phase : QueryContext → World L → ZoneResponse → Text → World L × Msg
  cname_phase ctx w zr client_view =
      let (w', (resp, attack)) =
        chase max_cname_chain_depth ctx w client_view zr.msg zr.cname_target
          (normalize_name ctx.question.name ∷ []) in
      if attack then (w', resp) else (cache_set env cfg ctx w' resp, resp)

  -- Phase 3.5; `none` where there are no FWD servers or they do not answer
  unfoldable pub try_fwd_fallback : QueryContext → World L → Zone → World L × Option Msg
  try_fwd_fallback ctx w zone = elim (find_fwd_servers env.has_port zone.records) [
    | [] ↦ (w, none)
    | s ∷ servers ↦
        let sent = forward_to_servers env.client w.forwarder ctx.req (s ∷ servers) in
        let w' = record w { forwarder = sent.0 } in
        elim (sent.1) [
          | none ↦ (w', none)
          | some resp ↦ (cache_set_if env cfg (is_cacheable env cfg resp) ctx w' resp, some resp)
        ]
  ]

  unfoldable pub answer_from_zone : QueryContext → World L → Text → Zone → Text → World L × Msg
  answer_from_zone ctx w client_view zone sub =
      let zr = generate_response env.lib env.net.parse_ip ctx.req ctx.question zone sub in
      let tried = try_fwd_fallback ctx w zone in
      if not (length zr.alias_target == 0)
      then alias_phase ctx w zr client_view
      else if not (length zr.cname_target == 0)
      then cname_phase ctx w zr client_view
      else if zr.msg.rcode == rcode_name_error
      then elim (tried.1) [ some m ↦ (tried.0, m) | none ↦ (tried.0, zr.msg) ]
      else (w, zr.msg)

  abbrev pub view_of : QueryContext → Text
  view_of ctx = elim (cfg.split_horizon) [
    | none ↦ []
    | some views ↦ get_view views (some ctx.client_ip)
  ]

  unfoldable pub zone_phase : QueryContext → World L → World L × Option Msg
  zone_phase ctx w = elim (cfg.zones) [
    | none ↦ (w, none)
    | some zones ↦ elim (find_zone zones (view_of ctx) ctx.question.name) [
      | none ↦ (w, none)
      | some (zone, sub) ↦ let r = answer_from_zone ctx w (view_of ctx) zone sub in (r.0, some r.1)
    ]
  ]
