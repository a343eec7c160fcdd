-- ===== src/Handler/Serve.antt =====
-- The order of the guards and of the phases (ServeDNS in handler.go).
use domudns.Prelude.{ℕ, not, ◌||◌, [], ◌∷◌, ◌==◌, none, some, if◌then◌else◌}
use domudns.Net.{Ip}
use domudns.Mdns.{Msg, type_any, rcode_format_error, rcode_refused}
use domudns.Access
use domudns.Handler.State.{Env, Settings, World, QueryContext, Served, answered, to_ddns, to_axfr}
use domudns.Handler.{
  acme_phase, blocklist_phase, cache_phase, forward_phase, opcode_update, type_ixfr, type_axfr,
  respond_error,
}
use domudns.Handler.Local.{zone_phase}
use domudns.RateLimit
use domudns.RateLimit.{QueryRateLimiter}

module _ {R L : Type 0} (env : Env R L) (cfg : Settings R) where
  -- The phases behind the guards
  unfoldable pub run_phases : QueryContext → World L → World L × Msg
  run_phases ctx w = elim (blocklist_phase env cfg ctx) [
    | some m ↦ (w, m)
    | none ↦
        let local = zone_phase env cfg ctx w in
        let cached = cache_phase env cfg ctx local.0 in
        elim (local.1) [
          | some m ↦ (local.0, m)
          | none ↦ elim (cached.1) [
            | some m ↦ (cached.0, m)
            | none ↦ forward_phase env cfg ctx cached.0
          ]
        ]
  ]

  abbrev pub refused : QueryContext → Served
  refused ctx = answered (respond_error env cfg ctx.req rcode_refused)

  -- ddnsPhase and axfrPhase, and then the phases
  unfoldable pub serve_allowed : QueryContext → World L → World L × Served
  serve_allowed ctx w =
      let phases = run_phases ctx w in
      if ctx.question.qtype == type_any
      then (w, refused ctx)
      else if ctx.req.opcode == opcode_update
      then (w, if cfg.has_ddns then to_ddns else refused ctx)
      else if (ctx.question.qtype == type_axfr) || (ctx.question.qtype == type_ixfr)
      then (w, if cfg.has_axfr then to_axfr else refused ctx)
      else (phases.0, answered phases.1)

  unfoldable pub serve_question : QueryContext → World L → World L × Served
  serve_question ctx w = elim (acme_phase env cfg ctx) [
    | some m ↦ (w, answered m)
    | none ↦
        let verdict =
          RateLimit.allow env.fresh env.allow_at env.ip_text ctx.now w.limiter ctx.client_ip in
        let w' = record w { limiter = verdict.0 } in
        if not (Access.allows cfg.acl ctx.client_ip)
        then (w, refused ctx)
        else if not verdict.1
        then (w', refused ctx)
        else serve_allowed ctx w'
  ]

  unfoldable pub serve_dns : Msg → Ip → ℕ → World L → World L × Served
  serve_dns r client_ip now w = elim (r.question) [
    | [] ↦ (w, answered (respond_error env cfg r rcode_format_error))
    | q ∷ qs ↦ serve_question (record { req = r; client_ip = client_ip; question = q; now = now }) w
  ]
