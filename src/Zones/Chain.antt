-- ===== src/Zones/Chain.antt =====
-- Chasing CNAME records inside a zone (appendCNAMEChainAnswer and appendInZoneCNAMEChain in zones.go).
pub mod Path
pub mod Seen
use domudns.Prelude.{
  ℕ, zero, suc, Bool, true, false, not, ◌&&◌, ◌||◌, List, [], ◌∷◌, ◌++◌, length, any, ◌==◌, Option,
  none, some, text_beq, if◌then◌else◌,
}
use domudns.Text.{Text, dot, has_suffix, trim_suffix, to_lower, normalize_name}
use domudns.Net.{Ip}
use domudns.Mdns.{Mdns, Rr}
use domudns.Dns.Label.{apex}
use domudns.Dns.Record.{Record}
use domudns.Dns.Zone.{Zone}
use domudns.Zones.Match.{Matched, match_zone_records}
use domudns.Zones.Rr.{record_to_rr, records_to_rrs}

abbrev pub max_cname_chain_depth : ℕ
max_cname_chain_depth = 8

-- A map from names to `true` is the list of its keys.
abbrev pub member : Text → List Text → Bool
member t seen = any (λ s. text_beq s t) seen

-- What following a chain appends, the name at which it ended, whether it ended in an answer, and
-- the names followed so far. The name is empty after an answer.
pub record Chase : Type 0 where
  pub answers : List Rr
  pub target : Text
  pub answered : Bool
  pub seen : List Text

abbrev pub stopped : Text → List Text → Chase
stopped current seen = record { answers = []; target = current; answered = false; seen = seen }

unfoldable pub zone_fqdn : Zone → Text → Text
zone_fqdn zone sub =
    if text_beq sub apex
    then normalize_name zone.domain
    else to_lower (sub ++ (dot ∷ normalize_name zone.domain))

-- The suffix of the names inside the zone.
abbrev pub zone_suffix : Zone → Text
zone_suffix zone = dot ∷ normalize_name zone.domain

-- A name outside the zone, or the zone's own name.
abbrev pub leaves_zone : Zone → Text → Bool
leaves_zone zone current =
    text_beq current (normalize_name zone.domain) || not (has_suffix current (zone_suffix zone))

abbrev pub sub_of : Zone → Text → Text
sub_of zone current = trim_suffix current (zone_suffix zone)

module _ (lib : Mdns) (parse_ip : Text → Option Ip) (zone : Zone) (qtype : ℕ) where
  abbrev pub target_name : Text → Text
  target_name value = normalize_name (lib.fqdn value)

  abbrev pub matched_at : Text → Matched
  matched_at current =
      match_zone_records lib.type_to_string (sub_of zone current) qtype zone.records

  abbrev pub rrs_at : Text → List Record → List Rr
  rrs_at current rs = records_to_rrs lib parse_ip zone rs (sub_of zone current)

  -- The loop; the number is the rounds left.
  unfoldable pub follow : ℕ → Text → List Text → Chase
  follow zero current seen = stopped current seen
  follow (suc rounds) current seen = elim (member current seen) [
    | true ↦ stopped current seen
    | false ↦ elim (leaves_zone zone current) [
      | true ↦ stopped current (current ∷ seen)
      | false ↦ elim ((matched_at current).matched) [
        | r ∷ rs ↦ record {
          answers = rrs_at current (r ∷ rs);
          target = [];
          answered = true;
          seen = current ∷ seen;
        }
        | [] ↦ elim ((matched_at current).cname) [
          | [] ↦ stopped current (current ∷ seen)
          | c ∷ cs ↦
              let rest = follow rounds (target_name c.value) (current ∷ seen) in
              record rest { answers = rrs_at current (c ∷ cs) ++ rest.answers }
        ]
      ]
    ]
  ]

  -- appendInZoneCNAMEChain
  abbrev pub in_zone_chain : Text → List Text → Chase
  in_zone_chain target seen = follow max_cname_chain_depth (target_name target) seen

  -- The loop over the CNAME records of the queried name: what is appended, and the first name at
  -- which a chain ended without an answer.
  unfoldable pub chain_from : List Record → Text → List Text → Text → List Rr × Text
  chain_from [] sub seen unresolved = ([], unresolved)
  chain_from (c ∷ cs) sub seen unresolved =
      let skipped = chain_from cs sub seen unresolved in
      let chase = in_zone_chain c.value seen in
      let unresolved' =
        if not chase.answered && (length unresolved == 0) then chase.target else unresolved in
      let rest = chain_from cs sub chase.seen unresolved' in
      elim (record_to_rr lib parse_ip zone c sub) [
        | none ↦ skipped
        | some rr ↦ ((rr ∷ chase.answers) ++ rest.0, rest.1)
      ]

  -- appendCNAMEChainAnswer
  abbrev pub cname_chain_answer : List Record → Text → List Rr × Text
  cname_chain_answer cnames sub = chain_from cnames sub (zone_fqdn zone sub ∷ []) []
