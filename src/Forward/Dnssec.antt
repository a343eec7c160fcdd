-- ===== src/Forward/Dnssec.antt =====
-- DNSSEC as a stub resolver has it (internal/dnsserver/dnssec.go): a client that did not ask for it
-- gets no signatures.
use domudns.Prelude.{
  ℕ, ◌≡◌, Bool, true, false, not, ◌||◌, List, ◌==◌, select, Bool-cases, inl, inr, if◌then◌else◌,
}
use domudns.Mdns.{Msg, Rr}

-- IsEdns0, Do, SetUDPSize with SetDo, and SetEdns0 of the DNS library. What is set is read again.
pub record Edns : Type 0 where
  pub is_edns0 : Msg → Bool
  pub do_bit : Msg → Bool
  pub set_do : Msg → ℕ → Msg
  pub set_edns0 : Msg → ℕ → Bool → Msg
  pub do_bit-set_do : (m : Msg) (size : ℕ) → is_edns0 m ≡ true → do_bit (set_do m size) ≡ true
  pub do_bit-set_edns0 :
      (m : Msg) (size : ℕ) → is_edns0 m ≡ false → do_bit (set_edns0 m size true) ≡ true

-- RRSIG, NSEC, NSEC3, DNSKEY, DS, NSEC3PARAM, CDS, CDNSKEY
unfoldable pub is_dnssec_type : ℕ → Bool
is_dnssec_type t =
    (t == 46)
    || ((t == 47)
        || ((t == 50) || ((t == 48) || ((t == 43) || ((t == 51) || ((t == 59) || (t == 60)))))))

abbrev pub filter_dnssec_rrs : List Rr → List Rr
filter_dnssec_rrs = select (λ rr. not (is_dnssec_type rr.hdr.rrtype))

module _ (edns : Edns) (enabled : Bool) where
  unfoldable pub prepare_request : Msg → Msg
  prepare_request req =
      if not enabled
      then req
      else if edns.is_edns0 req
      then edns.set_do req 4096
      else edns.set_edns0 req 4096 true

  abbrev pub wants_dnssec : Msg → Bool
  wants_dnssec req = if edns.is_edns0 req then edns.do_bit req else false

  -- resp is not nil where this is called.
  unfoldable pub process_response : Msg → Msg → Msg
  process_response orig_req resp =
      if not enabled then resp else if wants_dnssec orig_req then resp else record resp {
        answer = filter_dnssec_rrs resp.answer;
        ns = filter_dnssec_rrs resp.ns;
        extra = filter_dnssec_rrs resp.extra;
        authenticated_data = false;
      }

  -- With DNSSEC on, every request that goes upstream asks for it.
  pub prepare_request-do_bit :
      (req : Msg) → enabled ≡ true → edns.do_bit (prepare_request req) ≡ true
  unfolding prepare_request
  prepare_request-do_bit req on = elim (Bool-cases (edns.is_edns0 req)) [
    | inl has ↦ rw (on, has) (edns.do_bit-set_do req 4096 has)
    | inr without ↦ rw (on, without) (edns.do_bit-set_edns0 req 4096 without)
  ]
