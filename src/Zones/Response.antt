-- ===== src/Zones/Response.antt =====
-- The authoritative answer (GenerateResponse in zones.go), and the servers of an FWD record.
pub mod NameError
use domudns.Prelude.{
  ℕ, Bool, true, false, not, ◌&&◌, ◌||◌, List, [], ◌∷◌, ◌++◌, length, any, ◌==◌, Option, none, some,
  text_beq, if◌then◌else◌,
}
use domudns.Text.{Text, codes, comma, split, trim_space}
use domudns.Net.{Ip}
use domudns.Mdns.{
  Mdns, Msg, Rr, Question, type_a, type_aaaa, type_cname, type_any, rcode_name_error,
}
use domudns.Dns.Label.{apex}
use domudns.Dns.Record.{Record, RecordType}
use domudns.Dns.Zone.{Zone}
use domudns.Zones.Chain.{cname_chain_answer}
use domudns.Zones.Match.{Matched, match_zone_records}
use domudns.Zones.Rr.{records_to_rrs}

-- Empty targets mean that there is nothing left to resolve.
pub record ZoneResponse : Type 0 where
  pub msg : Msg
  pub alias_target : Text
  pub cname_target : Text

unfoldable pub has_answer_of_type : List Rr → ℕ → Bool
has_answer_of_type rrs qtype = any (λ rr. rr.hdr.rrtype == qtype) rrs

abbrev pub is_empty : {A : Type 0} → List A → Bool
is_empty [] = true
is_empty (x ∷ xs) = false

abbrev pub first_value : List Record → Text
first_value [] = []
first_value (r ∷ rs) = r.value

module _ (lib : Mdns) (parse_ip : Text → Option Ip) where
  abbrev pub found_in : Zone → Text → ℕ → Matched
  found_in zone sub qtype = match_zone_records lib.type_to_string sub qtype zone.records

  -- What the answer section holds behind the direct matches or the chain, and the chain's open end.
  unfoldable pub answer_part : Zone → Text → ℕ → List Rr × Text
  answer_part zone sub qtype =
      let m = found_in zone sub qtype in
      let chain = cname_chain_answer lib parse_ip zone qtype m.cname sub in
      let direct : List Rr × Text = (records_to_rrs lib parse_ip zone m.matched sub, []) in
      if is_empty m.matched
        && (not (is_empty m.cname) && (not (qtype == type_cname) && not (qtype == type_any)))
      then chain
      else direct

  -- The question is `req.Question[0]`, whose presence the handler has checked.
  unfoldable pub generate_response : Msg → Question → Zone → Text → ZoneResponse
  generate_response req q zone sub =
      let m = found_in zone sub q.qtype in
      let part = answer_part zone sub q.qtype in
      let reply = lib.set_reply req in
      let answer = reply.answer ++ part.0 in
      let resp = record reply { authoritative = true; answer = answer } in
      let final =
        if is_empty answer && (not m.name_exists && not (text_beq sub apex))
        then record resp { rcode = rcode_name_error }
        else resp in
      if is_empty answer
        && (not (is_empty m.alias) && ((q.qtype == type_a) || (q.qtype == type_aaaa)))
      then record { msg = resp; alias_target = first_value m.alias; cname_target = [] }
      else record {
        msg = final;
        alias_target = [];
        cname_target =
            if not (length part.1 == 0) && not (has_answer_of_type answer q.qtype)
            then part.1
            else [];
      }

-- The servers of one FWD value; `has_port` tells whether net.SplitHostPort takes the text.
module _ (has_port : Text → Bool) where
  unfoldable pub fwd_servers : List Text → List Text
  fwd_servers [] = []
  fwd_servers (part ∷ parts) =
      let s = trim_space part in
      let rest = fwd_servers parts in
      if length s == 0 then rest else if has_port s then s ∷ rest else (s ++ codes ":53") ∷ rest

  abbrev pub is_fwd : RecordType → Bool
  is_fwd RecordType.fwd = true
  is_fwd _ = false

  -- FindFWDServers: the servers of the first FWD record at the apex, and none if there is none.
  unfoldable pub find_fwd_servers : List Record → List Text
  find_fwd_servers [] = []
  find_fwd_servers (r ∷ rs) =
      if is_fwd r.rtype && (text_beq r.name apex || (length r.name == 0))
      then fwd_servers (split r.value comma)
      else find_fwd_servers rs
