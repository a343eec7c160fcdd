-- ===== src/Handler/Guards.antt =====
-- What comes before what: the access control before everything but active ACME challenges, and the
-- block list before the zones, the cache and the forwarder.
use domudns.Prelude.{
  ◌≡◌, refl, sym, ap, subst, ◌⊎◌, true, false, not, ◌&&◌, List, [], ◌∷◌, ◌++◌, length, ◌==◌, Option,
  Option-cases, none, some, inl, inr, All, Bool-cases, text_beq, arith,
}
use domudns.Text.{Text, codes, has_prefix, to_lower}
use domudns.Mdns.{
  Msg, Rr, Rdata, class_inet, type_a, type_aaaa, type_txt, rcode_success, rcode_name_error,
  rcode_refused,
}
use domudns.Access
use domudns.Blocklist.{BlocklistManager, is_blocked, is_whitelisted}
use domudns.Handler.State.{Env, Settings, World, QueryContext, Served, answered}
use domudns.Handler.{
  acme_phase, challenge_rr, blocklist_phase, build_blocked_response, categories_of, respond_error,
  sink, sink_rr,
}
use domudns.Handler.Serve.{run_phases, serve_question}

module _ {R L : Type 0} (env : Env R L) (cfg : Settings R) where
  -- The question asks for the value of a challenge that is active.
  abbrev pub Challenges : QueryContext → Text → Type 0
  Challenges ctx value =
      (challenge : Text → Option Text) × (cfg.acme ≡ some challenge)
      × (ctx.question.qtype ≡ type_txt)
      × (has_prefix (to_lower ctx.question.name) (codes "_acme-challenge.") ≡ true)
      × (challenge ctx.question.name ≡ some value)

  -- Success, with one TXT record that holds the value
  abbrev pub IsProof : QueryContext → Text → Msg → Type 0
  IsProof ctx value m =
      (m.rcode ≡ rcode_success)
      × (m.answer
          ≡ record {
            hdr = record {
              name = ctx.question.name;
              rrtype = type_txt;
              class = class_inet;
              ttl = 60;
            };
            rdata = Rdata.txt (value ∷ []);
          }
            ∷ [])

  -- What a client outside the allowed networks is served.
  abbrev pub IsGuarded : QueryContext → Served → Type 0
  IsGuarded ctx s =
      (m : Msg) × (s ≡ answered m)
      × (((value : Text) × Challenges ctx value × IsProof ctx value m)
          ⊎ (((value : Text) → ¬ Challenges ctx value)
              × (m.rcode ≡ rcode_refused)
              × (m.answer ≡ [])))

  proves :
      (ctx : QueryContext) (value : Text) (m : Msg)
      → (record (env.lib.set_reply ctx.req) {
        authoritative = true;
        answer =
            (env.lib.set_reply ctx.req).answer
            ++ (challenge_rr env cfg ctx.question.name value ∷ []);
      })
        ≡ m
      → IsProof ctx value m
  proves ctx value m e = subst (IsProof ctx value) e (
    env.lib.set_reply-rcode ctx.req,
    ap (λ l. l ++ (challenge_rr env cfg ctx.question.name value ∷ []))
        (env.lib.set_reply-answer ctx.req),
  )

  challenged :
      (ctx : QueryContext) (m : Msg)
      → acme_phase env cfg ctx ≡ some m
      → (value : Text) × Challenges ctx value × IsProof ctx value m
  unfolding acme_phase
  challenged ctx m h = elim (Option-cases (cfg.acme)) [
    | inl off ↦ absurd (let e = rw (off, acme_phase) at h in ground arith)
    | inr (challenge, on) ↦ elim (Bool-cases (ctx.question.qtype == type_txt)) [
      | inr other ↦ absurd (let e = rw (on, acme_phase, other) at h in ground arith)
      | inl txt ↦
          let name = ctx.question.name in
          elim (Bool-cases (has_prefix (to_lower name) (codes "_acme-challenge."))) [
            | inr bare ↦ absurd (let e = rw (on, acme_phase, txt, bare) at h in ground arith)
            | inl prefixed ↦ elim (Option-cases (challenge name)) [
              | inl inactive ↦
                  absurd (let e = rw (on, acme_phase, txt, prefixed, inactive) at h in ground arith)
              | inr (value, active) ↦
                  let e = rw (on, acme_phase, txt, prefixed, active) at h in
                  let is_txt : ctx.question.qtype ≡ type_txt = ground arith in
                  (
                    value,
                    (challenge, on, is_txt, prefixed, active),
                    proves ctx value m (ground arith),
                  )
            ]
          ]
    ]
  ]

  unchallenged :
      (ctx : QueryContext) → acme_phase env cfg ctx ≡ none → (value : Text) → ¬ Challenges ctx value
  unfolding acme_phase
  unchallenged ctx h value (challenge, on, is_txt, prefixed, active) =
      let txt : (ctx.question.qtype == type_txt) ≡ true = ground arith in
      let e = rw (on, acme_phase, txt, prefixed, active) at h in ground arith

  -- A client outside the allowed networks gets the value of an active ACME challenge, in one TXT
  -- record, to a TXT question for a name below _acme-challenge that has one, and REFUSED without an
  -- answer to every other question; it changes nothing, not even its own share of the rate limit.
  pub serve_question-refused :
      (ctx : QueryContext) (w : World L)
      → Access.allows cfg.acl ctx.client_ip ≡ false
      → ((serve_question env cfg ctx w).0 ≡ w) × IsGuarded ctx (serve_question env cfg ctx w).1
  unfolding serve_question
  serve_question-refused ctx w outside = elim (Option-cases (acme_phase env cfg ctx)) [
    | inl inactive ↦
        rw (inactive, serve_question, outside)
          (
            refl,
            (
              respond_error env cfg ctx.req rcode_refused,
              refl,
              inr (
                unchallenged ctx inactive,
                env.lib.set_rcode-rcode ctx.req rcode_refused,
                env.lib.set_rcode-answer ctx.req rcode_refused,
              ),
            ),
          )
    | inr (m, active) ↦ rw (active, serve_question) (refl, (m, refl, inl (challenged ctx m active)))
  ]

  -- The record of a blocked answer, of the address in the settings
  abbrev pub IsSink : Text → Rr → Type 0
  IsSink name rr =
      (rr.hdr.name ≡ name)
      × ((rr ≡ sink_rr env cfg name type_a (sink Rdata.a (env.net.parse_ip cfg.block_ip4)))
          ⊎ (rr
              ≡ sink_rr env cfg name type_aaaa (sink Rdata.aaaa (env.net.parse_ip cfg.block_ip6))))

  one_answer :
      (ctx : QueryContext) (rrs : List Rr) (rr : Rr)
      → rrs ≡ []
      → IsSink ctx.question.name rr
      → All (IsSink ctx.question.name) (rrs ++ (rr ∷ []))
  one_answer ctx rrs rr none_before is_sink =
      subst (λ l. All (IsSink ctx.question.name) (l ++ (rr ∷ []))) (sym none_before) (is_sink, tt)

  blocked-IsSink :
      (ctx : QueryContext)
      → All
          (IsSink ctx.question.name)
          (build_blocked_response env cfg ctx.req ctx.question ctx.question.qtype).answer
  unfolding build_blocked_response
  blocked-IsSink ctx =
      let no_answer = env.lib.set_reply-answer ctx.req in
      elim (Bool-cases (text_beq cfg.block_mode (codes "nxdomain"))) [
        | inl nxdomain ↦ rw nxdomain (
            subst (All (IsSink ctx.question.name))
              (sym (env.lib.set_rcode-answer ctx.req rcode_name_error)) tt)
        | inr zero_ip ↦
            elim (Bool-cases ((ctx.question.qtype == type_a) && not (length cfg.block_ip4 == 0))) [
              | inl v4_sink ↦ rw (zero_ip, v4_sink) (one_answer ctx _ _ no_answer (refl, inl refl))
              | inr not_v4 ↦
                  elim (Bool-cases
                    ((ctx.question.qtype == type_aaaa) && not (length cfg.block_ip6 == 0))) [
                      | inl v6_sink ↦
                          rw (zero_ip, not_v4, v6_sink)
                            (one_answer ctx _ _ no_answer (refl, inr refl))
                      | inr not_v6 ↦
                          rw (zero_ip, not_v4, not_v6)
                            (subst (All (IsSink ctx.question.name)) (sym no_answer) tt)
                    ]
            ]
      ]

  -- A question for a name that the block list blocks for the client, whose address is not exempt, is
  -- answered from the settings alone: nothing is asked or stored, and the answer has no record but
  -- the one of the sink's address.
  pub run_phases-blocked :
      (ctx : QueryContext) (w : World L) (b : BlocklistManager R)
      → cfg.blocklist ≡ some b
      → is_whitelisted b ctx.client_ip ≡ false
      → is_blocked env.match_string b ctx.question.name (categories_of env cfg ctx.client_ip) ≡ true
      → (run_phases env cfg ctx w
          ≡ (w, build_blocked_response env cfg ctx.req ctx.question ctx.question.qtype))
        × All (IsSink ctx.question.name) (run_phases env cfg ctx w).1.answer
  unfolding run_phases blocklist_phase build_blocked_response
  run_phases-blocked ctx w b on not_exempt hit =
      let here : blocklist_phase env cfg ctx
          ≡ some (build_blocked_response env cfg ctx.req ctx.question ctx.question.qtype) =
        rw (on, blocklist_phase, not_exempt, hit) refl in
      let e : run_phases env cfg ctx w
          ≡ (w, build_blocked_response env cfg ctx.req ctx.question ctx.question.qtype) =
        rw (here, run_phases) refl in
      (
        e,
        subst (λ (m : Msg). All (IsSink ctx.question.name) m.answer) (sym (ap (λ p. p.1) e))
            (blocked-IsSink ctx),
      )
