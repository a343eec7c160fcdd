-- ===== src/Handler/Chains.antt =====
-- A CNAME chain that is followed over zones and upstream only grows, or is given up for an attack.
use domudns.Prelude.{
  ℕ, zero, suc, ◌≡◌, ◌⊎◌, refl, sym, ◌∙◌, Bool, true, false, not, ◌||◌, ◌&&◌, List, [], ◌∷◌, ◌++◌,
  append_assoc, append-nil, length, ◌==◌, Option-cases, some, inl, inr, Bool-cases,
}
use domudns.Text.{Text, normalize_name}
use domudns.Mdns.{Msg, Rr, type_a, type_aaaa, rcode_name_error, rcode_server_failure}
use domudns.Access.{is_rebinding_attack}
use domudns.Handler.State.{Env, Settings, World, QueryContext}
use domudns.Handler.{forward_request_deduped}
use domudns.Handler.Local.{
  Resolved, found, unresolved, blocked, checked_upstream, resolve_upstream, resolve_alias_in_zone,
  resolve_alias_rrs, synthesize_alias_rrs, with_answers, grown, local_answer, chase, cname_phase,
}
use domudns.Zones.Chain.{max_cname_chain_depth, member}
use domudns.Zones.Response.{ZoneResponse}

-- The answer that reports an attack
abbrev pub IsReport : Msg → Type 0
IsReport m = (m.rcode ≡ rcode_name_error) × (m.answer ≡ [])

-- A message with more answers, and else as it was
abbrev pub Extends : Msg → Msg → Type 0
Extends resp m =
    (tail : List Rr) × (m.answer ≡ resp.answer ++ tail) × (m.rcode ≡ resp.rcode) × (m.id ≡ resp.id)

abbrev pub IsGrown : Msg → Msg × Bool → Type 0
IsGrown resp out = (IsReport out.0 × (out.1 ≡ true)) ⊎ (Extends resp out.0 × (out.1 ≡ false))

abbrev IsResolved : Resolved → Type 0
IsResolved (found rrs) = Unit
IsResolved unresolved = Unit
IsResolved (blocked m) = IsReport m

module _ {R L : Type 0} (env : Env R L) (cfg : Settings R) where
  checked_upstream-IsResolved :
      (ctx : QueryContext) (target : Text) (resp : Msg)
      → IsResolved (checked_upstream env cfg ctx target resp)
  unfolding checked_upstream
  checked_upstream-IsResolved ctx target resp =
      elim (Bool-cases (resp.rcode == rcode_server_failure)) [
        | inl failed ↦ rw failed tt
        | inr fine ↦ elim (Bool-cases (is_rebinding_attack cfg.rebinding target (some resp))) [
          | inl attack ↦
              rw (fine, attack)
                (
                  env.lib.set_rcode-rcode ctx.req rcode_name_error,
                  env.lib.set_rcode-answer ctx.req rcode_name_error,
                )
          | inr safe ↦ rw (fine, safe) tt
        ]
      ]

  resolve_upstream-IsResolved :
      (ctx : QueryContext) (w : World L) (target : Text) (qtype : ℕ)
      → IsResolved (resolve_upstream env cfg ctx w target qtype).1
  unfolding resolve_upstream
  resolve_upstream-IsResolved ctx w target qtype =
      elim (Option-cases
        (forward_request_deduped env cfg w (env.lib.set_question (env.lib.fqdn target) qtype) target
          qtype).1) [
            | inl failed ↦ rw (failed, resolve_upstream) tt
            | inr ((resp, upstream), got) ↦
                rw (got, resolve_upstream) (checked_upstream-IsResolved ctx target resp)
          ]

  resolve_alias_rrs-IsResolved :
      (ctx : QueryContext) (w : World L) (client_view target : Text) (qtype : ℕ)
      → IsResolved (resolve_alias_rrs env cfg ctx w client_view target qtype).1
  unfolding resolve_alias_rrs
  resolve_alias_rrs-IsResolved ctx w client_view target qtype =
      elim (Option-cases (resolve_alias_in_zone env cfg client_view target qtype)) [
        | inl outside ↦
            rw (outside, resolve_alias_rrs) (resolve_upstream-IsResolved ctx w target qtype)
        | inr (rrs, here) ↦ rw (here, resolve_alias_rrs) tt
      ]

  Extends-refl : (resp : Msg) → Extends resp resp
  Extends-refl resp = ([], sym (append-nil resp.answer), refl, refl)

  grown-IsGrown :
      (resp : Msg) (r : Resolved) (change : List Rr → List Rr)
      → IsResolved r
      → IsGrown resp (grown env cfg resp r change)
  grown-IsGrown resp (found rrs) change fine = inr ((change rrs, refl, refl, refl), refl)
  grown-IsGrown resp unresolved change fine = inr (Extends-refl resp, refl)
  grown-IsGrown resp (blocked m) change fine = inl (fine, refl)

  with_answers-IsGrown :
      (resp : Msg) (rrs : List Rr) (out : Msg × Bool)
      → IsGrown (with_answers env cfg resp rrs) out
      → IsGrown resp out
  with_answers-IsGrown resp rrs out (inl report) = inl report
  with_answers-IsGrown resp rrs out (inr ((tail, answers, code, number), fine)) =
      inr ((rrs ++ tail, answers ∙ append_assoc resp.answer rrs tail, code, number), fine)

  -- How far a chain was followed, the cache being left alone
  abbrev Followed : Msg → World L → World L × (Msg × Bool) → Type 0
  Followed resp w out = IsGrown resp out.1 × (out.0.cache ≡ w.cache)

  forward_request_deduped-cache :
      (w : World L) (req : Msg) (name : Text) (qtype : ℕ)
      → (forward_request_deduped env cfg w req name qtype).0.cache ≡ w.cache
  unfolding forward_request_deduped
  forward_request_deduped-cache w req name qtype =
      elim (Option-cases (env.in_flight (name ++ (b'/' ∷ env.lib.type_to_string qtype)))) [
        | inl alone ↦ rw (alone, forward_request_deduped) refl
        | inr (shared, there) ↦ rw (there, forward_request_deduped) refl
      ]

  resolve_upstream-cache :
      (ctx : QueryContext) (w : World L) (target : Text) (qtype : ℕ)
      → (resolve_upstream env cfg ctx w target qtype).0.cache ≡ w.cache
  unfolding resolve_upstream
  resolve_upstream-cache ctx w target qtype =
      forward_request_deduped-cache w (env.lib.set_question (env.lib.fqdn target) qtype) target
        qtype

  resolve_alias_rrs-cache :
      (ctx : QueryContext) (w : World L) (client_view target : Text) (qtype : ℕ)
      → (resolve_alias_rrs env cfg ctx w client_view target qtype).0.cache ≡ w.cache
  unfolding resolve_alias_rrs
  resolve_alias_rrs-cache ctx w client_view target qtype =
      elim (Option-cases (resolve_alias_in_zone env cfg client_view target qtype)) [
        | inl outside ↦ rw (outside, resolve_alias_rrs) (resolve_upstream-cache ctx w target qtype)
        | inr (rrs, here) ↦ rw (here, resolve_alias_rrs) refl
      ]

  chase-Followed :
      (depth : ℕ) (ctx : QueryContext) (w : World L) (client_view : Text) (resp : Msg)
      (target : Text) (seen : List Text)
      → Followed resp w (chase env cfg depth ctx w client_view resp target seen)
  unfolding chase
  chase-Followed zero ctx w client_view resp target seen = (inr (Extends-refl resp, refl), refl)
  chase-Followed (suc depth) ctx w client_view resp target seen =
      let qtype = ctx.question.qtype in
      elim (Bool-cases ((length target == 0) || member (normalize_name target) seen)) [
        | inl over ↦ elim (Option-cases (local_answer env cfg client_view target qtype)) [
          | inl outside ↦ rw (outside, chase, over) (inr (Extends-refl resp, refl), refl)
          | inr (zr, here) ↦ rw (here, chase, over) (inr (Extends-refl resp, refl), refl)
        ]
        | inr goes_on ↦ elim (Option-cases (local_answer env cfg client_view target qtype)) [
          | inr (zr, here) ↦
              let resp' = with_answers env cfg resp zr.msg.answer in
              elim (Bool-cases (length zr.alias_target == 0)) [
                | inr alias ↦
                    rw (here, chase, goes_on, alias)
                      (
                        with_answers-IsGrown resp zr.msg.answer
                            (grown env cfg resp'
                              (resolve_alias_rrs env cfg ctx w client_view zr.alias_target qtype).1
                              (synthesize_alias_rrs env cfg target))
                            (grown-IsGrown resp'
                              (resolve_alias_rrs env cfg ctx w client_view zr.alias_target qtype).1
                              (synthesize_alias_rrs env cfg target)
                              (resolve_alias_rrs-IsResolved ctx w client_view zr.alias_target
                                qtype)),
                        resolve_alias_rrs-cache ctx w client_view zr.alias_target qtype,
                      )
                | inl no_alias ↦
                    let rest =
                      chase-Followed depth ctx w client_view resp' zr.cname_target
                        (normalize_name target ∷ seen) in
                    let out =
                      chase env cfg depth ctx w client_view resp' zr.cname_target
                        (normalize_name target ∷ seen) in
                    rw (here, chase, goes_on, no_alias)
                      (with_answers-IsGrown resp zr.msg.answer out.1 rest.0, rest.1)
              ]
          | inl outside ↦ elim (Bool-cases (not (qtype == type_a) && not (qtype == type_aaaa))) [
            | inl other_type ↦
                rw (outside, chase, goes_on, other_type) (inr (Extends-refl resp, refl), refl)
            | inr address ↦
                rw (outside, chase, goes_on, address)
                  (
                    grown-IsGrown resp (resolve_upstream env cfg ctx w target qtype).1 (λ rrs. rrs)
                        (resolve_upstream-IsResolved ctx w target qtype),
                    resolve_upstream-cache ctx w target qtype,
                  )
          ]
        ]
      ]

  -- The answer to a question that a chain leads out of its zone has all records of the zone's own
  -- answer at its front, with its code and number; otherwise it is NXDOMAIN without a record, and
  -- then nothing of it is put in the cache.
  pub cname_phase-Extends :
      (ctx : QueryContext) (w : World L) (zr : ZoneResponse) (client_view : Text)
      → Extends zr.msg (cname_phase env cfg ctx w zr client_view).1
        ⊎ (IsReport (cname_phase env cfg ctx w zr client_view).1
            × ((cname_phase env cfg ctx w zr client_view).0.cache ≡ w.cache))
  unfolding cname_phase
  cname_phase-Extends ctx w zr client_view =
      let start = normalize_name ctx.question.name ∷ [] in
      let (out, same) =
        chase-Followed max_cname_chain_depth ctx w client_view zr.msg zr.cname_target start in
      elim out [
        | inl (report, attack) ↦ rw (attack, cname_phase) (inr (report, same))
        | inr (more, fine) ↦ rw (fine, cname_phase) (inl more)
      ]
