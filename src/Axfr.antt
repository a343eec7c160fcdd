-- ===== src/Axfr.antt =====
-- Zone transfers (internal/dnsserver/axfr.go): who may ask, and the messages that carry the zone. The
-- zones' own SOA stands at both ends. A message is always written with success.
pub mod Frames
use domudns.Prelude.{
  ℕ, zero, suc, ◌+◌, ◌%◌, Bool, true, false, not, ◌||◌, ◌&&◌, List, [], ◌∷◌, ◌++◌, length, take,
  drop, ◌==◌, Option, none, some, text_beq, if◌then◌else◌,
}
use domudns.Text.{Text}
use domudns.Net.{Ip, v4, v6, IpNet, net4, net6, NetParsers, nets_contain}
use domudns.Mdns.{
  Mdns, Msg, Rr, Rdata, Question, type_soa, class_inet, rcode_format_error, rcode_refused,
}
use domudns.Dns.Label.{apex}
use domudns.Dns.Record.{Record, RecordType}
use domudns.Dns.Zone.{Date, Soa, Zone, default_soa, ensure_soa, u32_mod}
use domudns.Zones.{ZoneManager, find_zone}
use domudns.Zones.Rr.{record_to_rr, wrap}

abbrev pub axfr_chunk_size : ℕ
axfr_chunk_size = 100

abbrev pub type_axfr : ℕ
type_axfr = 252

abbrev pub rcode_not_implemented : ℕ
rcode_not_implemented = 4

abbrev pub rcode_not_auth : ℕ
rcode_not_auth = 9

module _ (net : NetParsers) where
  -- one round of the loop of parseCIDRs
  unfoldable pub parse_one : Text → Option IpNet
  parse_one s = elim (net.parse_cidr s) [
    | some n ↦ some n
    | none ↦ elim (net.parse_ip s) [
      | none ↦ none
      | some ip ↦ elim ip [ v4 n ↦ some (net4 n 32) | v6 n ↦ some (net6 n 128) ]
    ]
  ]

  unfoldable pub parse_cidrs : List Text → Option (List IpNet)
  parse_cidrs [] = some []
  parse_cidrs (s ∷ cidrs) = elim (parse_one s) [
    | none ↦ none
    | some n ↦ elim (parse_cidrs cidrs) [ none ↦ none | some nets ↦ some (n ∷ nets) ]
  ]

  -- Update: the networks from then on, and whether it succeeded
  unfoldable pub update : List IpNet → List Text → List IpNet × Bool
  update old cidrs = elim (parse_cidrs cidrs) [ none ↦ (old, false) | some nets ↦ (nets, true) ]

abbrev pub is_allowed : List IpNet → Ip → Bool
is_allowed allowed ip = nets_contain allowed ip

-- The loop over the parts of a list: it takes `axfr_chunk_size` records at a time, and the length of
-- the list is fuel enough.
unfoldable pub chunks : ℕ → List Rr → List (List Rr)
chunks zero rrs = []
chunks (suc n) [] = []
chunks (suc n) (rr ∷ rrs) =
    take axfr_chunk_size (rr ∷ rrs) ∷ chunks n (drop axfr_chunk_size (rr ∷ rrs))

abbrev pub is_forward_record : RecordType → Bool
is_forward_record RecordType.fwd = true
is_forward_record _ = false

module _ (lib : Mdns) (parse_ip : Text → Option Ip) (today : Date) where
  -- A zone that is found has a domain, and so a SOA record after EnsureSOA. In the code this stores
  -- the default SOA in the zone that the manager holds: for a zone without a stored SOA, `today` is the
  -- day of its first transfer, and stays that day for later ones.
  abbrev pub soa_of : Zone → Soa
  soa_of zone = elim ((ensure_soa today zone).soa) [
    | some soa ↦ soa
    | none ↦ default_soa today zone.domain
  ]

  unfoldable pub build_soa_rr : Zone → Rr
  build_soa_rr zone =
      let soa = soa_of zone in
      let ttl = wrap u32_mod zone.ttl in
      record {
        hdr = record {
          name = lib.fqdn zone.domain;
          rrtype = type_soa;
          class = class_inet;
          ttl = if ttl == 0 then 3600 else ttl;
        };
        rdata =
            Rdata.soa (lib.fqdn soa.mname) (lib.fqdn soa.rname) soa.serial (soa.refresh % u32_mod)
              (soa.retry % u32_mod) (soa.expire % u32_mod) (soa.minimum % u32_mod);
      }

  abbrev pub sub_of : Record → Text
  sub_of r = if (length r.name == 0) || text_beq r.name apex then apex else r.name

  unfoldable pub zone_rrs : Zone → List Record → List Rr
  zone_rrs zone [] = []
  zone_rrs zone (r ∷ rs) =
      let rest = zone_rrs zone rs in
      if is_forward_record r.rtype
      then rest
      else elim (record_to_rr lib parse_ip zone r (sub_of r)) [ none ↦ rest | some rr ↦ rr ∷ rest ]

  unfoldable pub transferred : Zone → List Rr
  transferred zone = build_soa_rr zone ∷ (zone_rrs zone zone.records ++ (build_soa_rr zone ∷ []))

  unfoldable pub chunk_message : Msg → Zone → List Rr → Msg
  chunk_message r zone rrs =
      let m = lib.set_reply r in
      let question =
        if length m.question == 0
        then record { name = lib.fqdn zone.domain; qtype = type_axfr } ∷ []
        else m.question in
      record m { authoritative = true; answer = rrs; question = question }

  abbrev pub chunk_messages : Msg → Zone → List (List Rr) → List Msg
  chunk_messages r zone [] = []
  chunk_messages r zone (rrs ∷ parts) = chunk_message r zone rrs ∷ chunk_messages r zone parts

  unfoldable pub serve_axfr : Msg → Zone → List Msg
  serve_axfr r zone = chunk_messages r zone (chunks (length (transferred zone)) (transferred zone))

  abbrev pub respond_error : Msg → ℕ → List Msg
  respond_error r rcode = lib.set_rcode r rcode ∷ []

  unfoldable pub serve_zone : ZoneManager → Msg → Text → List Msg
  serve_zone zones r name = elim (find_zone zones [] name) [
    | none ↦ respond_error r rcode_not_auth
    | some (zone, sub) ↦
        if not (text_beq sub apex) then respond_error r rcode_not_auth else serve_axfr r zone
  ]

  -- `is_tcp` tells whether the connection is one over TCP.
  unfoldable pub handle_question :
      ZoneManager → List IpNet → Bool → Ip → Msg → List Question → List Msg
  handle_question zones allowed is_tcp client_ip r [] = respond_error r rcode_format_error
  handle_question zones allowed is_tcp client_ip r (q ∷ qs) =
      if not is_tcp
      then respond_error r rcode_not_implemented
      else if not (is_allowed allowed client_ip)
      then respond_error r rcode_refused
      else serve_zone zones r q.name

  abbrev pub handle : ZoneManager → List IpNet → Bool → Ip → Msg → List Msg
  handle zones allowed is_tcp client_ip r =
      handle_question zones allowed is_tcp client_ip r r.question
