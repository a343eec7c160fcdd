-- ===== src/Zones/Response/NameError.antt =====
-- When an authoritative answer is NXDOMAIN (RFC 2308).
use domudns.Prelude.{
  ℕ, ◌≡◌, refl, Bool, true, false, not, ◌&&◌, ◌||◌, [], select-none, any, length, ◌==◌, Option,
  text_beq, if◌then◌else◌, arith, Bool-cases, inl, inr,
}
use domudns.Text.{Text}
use domudns.Net.{Ip}
use domudns.Mdns.{Mdns, Msg, Question, rcode_name_error, rcode_success}
use domudns.Dns.Label.{apex}
use domudns.Dns.Record.{Record}
use domudns.Dns.Zone.{Zone}
use domudns.Zones.Match.{rec_name, covers}
use domudns.Zones.Match.Rules
use domudns.Zones.Rr.{records_to_rrs}
use domudns.Zones.Response.{answer_part, found_in, generate_response}

module _ (lib : Mdns) (parse_ip : Text → Option Ip) where
  -- A record of the zone stands at the name, or a `*` record covers it.
  abbrev pub name_known : Zone → Text → Bool
  name_known zone sub =
      any (λ r. text_beq (rec_name r) sub) zone.records
      || any (covers lib.type_to_string sub 0) zone.records

  name_exists_lem :
      (zone : Zone) (sub : Text) (qtype : ℕ)
      → text_beq sub apex ≡ false
      → (found_in lib parse_ip zone sub qtype).name_exists ≡ name_known zone sub
  name_exists_lem zone sub qtype below =
      rw (Rules.match_zone_records-chosen lib.type_to_string sub qtype zone.records, below)

  unknown_name :
      (zone : Zone) (sub : Text) (qtype : ℕ)
      → text_beq sub apex ≡ false
      → name_known zone sub ≡ false
      → ((found_in lib parse_ip zone sub qtype).matched ≡ [])
        × ((found_in lib parse_ip zone sub qtype).cname ≡ [])
        × ((found_in lib parse_ip zone sub qtype).alias ≡ [])
  unknown_name zone sub qtype below h =
      let rs = zone.records in
      let t = lib.type_to_string in
      let here : any (λ r. text_beq (rec_name r) sub) rs ≡ false = ground arith in
      let over : any (covers t sub 0) rs ≡ false = ground arith in
      let none_here =
        λ (q : Record → Bool) (imp : (r : Record) → q r ≡ true → text_beq (rec_name r) sub ≡ true).
          select-none (λ r. text_beq (rec_name r) sub) q imp rs here in
      let none_over =
        λ (q : Record → Bool) (imp : (r : Record) → q r ≡ true → covers t sub 0 r ≡ true).
          select-none (covers t sub 0) q imp rs over in
      rw
        (
          Rules.match_zone_records-chosen t sub qtype rs,
          below,
          here,
          none_here (Rules.matches t sub qtype) (λ r e. ground arith),
          none_here (Rules.chases t sub qtype) (λ r e. ground arith),
          none_here (Rules.aliases t sub qtype) (λ r e. ground arith),
          none_over (Rules.wild t sub qtype) (λ r e. ground arith),
          none_over (Rules.wild_cname t sub qtype) (λ r e. ground arith),
          none_over (Rules.wild_alias t sub qtype) (λ r e. ground arith),
        )
        (ground arith, refl, refl)

  no_answer :
      (zone : Zone) (sub : Text) (qtype : ℕ)
      → (found_in lib parse_ip zone sub qtype).matched ≡ []
      → (found_in lib parse_ip zone sub qtype).cname ≡ []
      → (answer_part lib parse_ip zone sub qtype).0 ≡ []
  unfolding answer_part records_to_rrs
  no_answer zone sub qtype p q = ground arith

  -- An answer is NXDOMAIN exactly when the name lies below the apex, no record of the zone stands
  -- at it and no `*` record covers it; every other authoritative answer is NOERROR. The answer
  -- section of an NXDOMAIN is empty, and every answer is marked authoritative.
  pub name_error_iff :
      (req : Msg) (q : Question) (zone : Zone) (sub : Text)
      → ((generate_response lib parse_ip req q zone sub).msg.rcode ≡ (
          if not (text_beq sub apex) && not (name_known zone sub)
          then rcode_name_error
          else rcode_success))
        × (((generate_response lib parse_ip req q zone sub).msg.rcode == rcode_name_error
              && not (length (generate_response lib parse_ip req q zone sub).msg.answer == 0))
            ≡ false)
        × ((generate_response lib parse_ip req q zone sub).msg.authoritative ≡ true)
  unfolding generate_response
  name_error_iff req q zone sub = elim (Bool-cases (text_beq sub apex)) [
    | inl at_apex ↦ ground (arith, lib.set_reply-rcode req)
    | inr below ↦ ground (
      arith,
      lib.set_reply-rcode req,
      lib.set_reply-answer req,
      name_exists_lem zone sub q.qtype below,
      unknown_name zone sub q.qtype below,
      no_answer zone sub q.qtype,
    )
  ]
