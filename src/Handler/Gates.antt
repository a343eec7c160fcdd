-- ===== src/Handler/Gates.antt =====
-- What reaches a client: no rebinding attack from upstream, and an answer of the cache under the
-- number of its own request.
use domudns.Prelude.{
  ℕ, ◌≡◌, refl, ap, subst, ◌∙◌, Bool, true, false, not, List, [], ◌∷◌, any, select, select-All_of,
  ◌==◌, Option-cases, some, inl, inr, All, Bool-cases, arith,
}
use domudns.Text.{Text}
use domudns.Mdns.{Msg, Rr, rcode_success, rcode_name_error, rcode_server_failure}
use domudns.Access.{RebindingConfig, is_rebinding_attack, is_private_rdata}
use domudns.Cache.{get}
use domudns.Forward.Dnssec.{Edns, filter_dnssec_rrs, is_dnssec_type, process_response, wants_dnssec}
use domudns.Handler.State.{Env, Settings, World, QueryContext}
use domudns.Handler.{
  answer_upstream, cache_phase, forward_request_deduped, processed, respond_error,
  upstream_forward_phase,
}

any-select : (p q : Rr → Bool) (rrs : List Rr) → any p rrs ≡ false → any p (select q rrs) ≡ false
any-select p q [] h = refl
any-select p q (rr ∷ rrs) h = ground (arith, any-select p q rrs)

failed_no_attack :
    (cfg : RebindingConfig) (name : Text) (m : Msg)
    → (m.rcode == rcode_success) ≡ false
    → is_rebinding_attack cfg name (some m) ≡ false
unfolding is_rebinding_attack
failed_no_attack cfg name m failed = ground (arith, failed)

-- No record of DNSSEC is in a section.
abbrev pub NoneDnssec : List Rr → Type 0
NoneDnssec = All (λ rr. is_dnssec_type rr.hdr.rrtype ≡ false)

filtered-NoneDnssec : (rrs : List Rr) → NoneDnssec (filter_dnssec_rrs rrs)
filtered-NoneDnssec =
    select-All_of (λ rr. is_dnssec_type rr.hdr.rrtype ≡ false)
      (λ rr. not (is_dnssec_type rr.hdr.rrtype)) (λ rr h. ground arith)

-- A message under a number, without records of DNSSEC.
abbrev Own : ℕ → Msg → Type 0
Own id m =
    (m.id ≡ id)
    × (m.authenticated_data ≡ false)
    × NoneDnssec m.answer
    × NoneDnssec m.ns
    × NoneDnssec m.extra

process_response-Own :
    (edns : Edns) (enabled : Bool) (req m : Msg)
    → enabled ≡ true
    → wants_dnssec edns enabled req ≡ false
    → Own m.id (process_response edns enabled req m)
unfolding process_response
process_response-Own edns enabled req m on unasked =
    rw (on, unasked)
      (
        refl,
        refl,
        filtered-NoneDnssec m.answer,
        filtered-NoneDnssec m.ns,
        filtered-NoneDnssec m.extra,
      )

module _ {R L : Type 0} (env : Env R L) (cfg : Settings R) where
  processed_no_attack :
      (name : Text) (req m : Msg)
      → is_rebinding_attack cfg.rebinding name (some m) ≡ false
      → is_rebinding_attack cfg.rebinding name (some (processed env cfg req m)) ≡ false
  unfolding is_rebinding_attack process_response
  processed_no_attack name req m h = ground (
    arith,
    any-select (λ rr. is_private_rdata rr.rdata) (λ rr. not (is_dnssec_type rr.hdr.rrtype))
        m.answer,
  )

  refused_no_attack :
      (name : Text) (r : Msg) (c : ℕ)
      → (c == rcode_success) ≡ false
      → is_rebinding_attack cfg.rebinding name (some (respond_error env cfg r c)) ≡ false
  refused_no_attack name r c failed =
      failed_no_attack cfg.rebinding name (respond_error env cfg r c)
        (ap (λ n. n == rcode_success) (env.lib.set_rcode-rcode r c) ∙ failed)

  answer_upstream-safe :
      (ctx : QueryContext) (w : World L) (resp : Msg)
      → is_rebinding_attack cfg.rebinding ctx.question.name
          (some (answer_upstream env cfg ctx w resp).1)
        ≡ false
  unfolding answer_upstream
  answer_upstream-safe ctx w resp =
      let name = ctx.question.name in
      elim (Bool-cases (is_rebinding_attack cfg.rebinding name (some resp))) [
        | inl attack ↦ rw attack (refused_no_attack name ctx.req rcode_name_error refl)
        | inr fine ↦ rw fine (processed_no_attack name ctx.req resp fine)
      ]

  -- Whatever upstream sends, or another query shares, the answer of the upstream phase is no rebinding
  -- attack on the name of the question.
  pub upstream_forward_phase-safe :
      (ctx : QueryContext) (w : World L)
      → is_rebinding_attack cfg.rebinding ctx.question.name
          (some (upstream_forward_phase env cfg ctx w).1)
        ≡ false
  unfolding upstream_forward_phase
  upstream_forward_phase-safe ctx w =
      let name = ctx.question.name in
      elim (Option-cases (forward_request_deduped env cfg w ctx.req name ctx.question.qtype).1) [
        | inl failed ↦
            rw (failed, upstream_forward_phase)
              (refused_no_attack name ctx.req rcode_server_failure refl)
        | inr ((resp, upstream), got) ↦
            rw (got, upstream_forward_phase)
              (answer_upstream-safe ctx
                (forward_request_deduped env cfg w ctx.req name ctx.question.qtype).0 resp)
      ]

  -- With DNSSEC on, an answer of the cache to a client that did not ask for it carries the number of
  -- the request, has none of its records in any section, and does not claim to be validated.
  pub cache_phase-own :
      (ctx : QueryContext) (w w' : World L) (m : Msg)
      → cfg.dnssec_enabled ≡ true
      → wants_dnssec env.edns cfg.dnssec_enabled ctx.req ≡ false
      → cache_phase env cfg ctx w ≡ (w', some m)
      → (m.id ≡ ctx.req.id)
        × (m.authenticated_data ≡ false)
        × NoneDnssec m.answer
        × NoneDnssec m.ns
        × NoneDnssec m.extra
  unfolding cache_phase
  cache_phase-own ctx w w' m on unasked h = elim (Option-cases w.cache) [
    | inl off ↦ absurd (ground arith)
    | inr (c, here) ↦
        let got = get env.heap env.lib env.format ctx.now c ctx.question.name ctx.question.qtype in
        elim (Option-cases got.1) [
          | inl missed ↦ absurd (ground arith)
          | inr (m0, hit) ↦
              let e : processed env cfg ctx.req (record m0 { id = ctx.req.id }) ≡ m =
                ground arith in
              subst (Own ctx.req.id) e (
                process_response-Own env.edns cfg.dnssec_enabled ctx.req
                  (record m0 { id = ctx.req.id }) on unasked)
        ]
  ]
