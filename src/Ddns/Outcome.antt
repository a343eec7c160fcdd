-- ===== src/Ddns/Outcome.antt =====
-- Who may update: a request that is not signed, or not rightly, changes nothing.
use domudns.Prelude.{
  ◌≡◌, inl, inr, refl, Bool, false, not, ◌||◌, length, ◌==◌, Option-cases, Bool-cases, arith,
  if◌then◌else◌, text_eq, is_some,
}
use domudns.Text.{Text}
use domudns.Net.{Ip}
use domudns.Mdns.{Mdns, rcode_refused}
use domudns.Ddns.Store.{DdnsStore}
use domudns.Ddns.{DdnsHandler, Request, handle, record_rejection, rcode_not_auth}

-- Keys are there, the request is signed, and the signature is good.
abbrev pub is_authorised : DdnsHandler → Request → Bool
is_authorised h r = not ((length h.secrets == 0) || (r.tsig_error || not (is_some r.tsig)))

module _ (lib : Mdns) (ip_text : Ip → Text) (S : Type 0) (store : DdnsStore S) where
  -- Without keys, without a signature or with a wrong one, the store stays as it is, no zones are
  -- loaded again, the keys stay, and the answer is REFUSED if there are no keys, NOTAUTH otherwise.
  pub handle_unauthorised :
      (h : DdnsHandler) (s : S) (r : Request)
      → is_authorised h r ≡ false
      → ((handle lib ip_text S store h s r).state ≡ s)
        × ((handle lib ip_text S store h s r).reload ≡ false)
        × ((handle lib ip_text S store h s r).handler.secrets ≡ h.secrets)
        × ((handle lib ip_text S store h s r).response.msg.rcode
            ≡ (if length h.secrets == 0 then rcode_refused else rcode_not_auth))
  unfolding handle record_rejection
  handle_unauthorised h s r refused =
      let refuse = lib.set_rcode-rcode r.msg rcode_refused in
      let not_auth = lib.set_rcode-rcode r.msg rcode_not_auth in
      elim (Bool-cases (length h.secrets == 0)) [
        | inl without ↦ rw without (refl, refl, refl, refuse)
        | inr keys ↦ elim (Bool-cases r.tsig_error) [
          | inl wrong ↦ rw (keys, wrong) (refl, refl, refl, not_auth)
          | inr right ↦ elim (Option-cases r.tsig) [
            | inl unsigned ↦ rw (keys, right, unsigned, handle) (refl, refl, refl, not_auth)
            | inr (t, signed) ↦ absurd (ground arith)
          ]
        ]
      ]
