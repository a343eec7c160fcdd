-- ===== src/Zones/Rr.antt =====
-- From a stored record to a resource record on the wire (rrBuilders, recordToRR in zones.go).
pub mod Wire
use domudns.Prelude.{
  ℕ, zero, suc, ◌+◌, ◌-◌, ◌*◌, ◌%◌, ◌^◌, Bool, true, false, not, ◌&&◌, ◌||◌, List, [], ◌∷◌, ◌++◌,
  Option, none, some, length, ltb, leb, ◌==◌, text_beq, if◌then◌else◌,
}
use domudns.Prelude.Int.{ℤ, pos, negsuc, int_gtb}
use domudns.Text.{Text, codes, dot, is_space}
use domudns.Net.{Ip, v4, v6}
use domudns.Mdns.{
  Mdns, Rr, Rdata, Header, type_a, type_ns, type_cname, type_soa, type_ptr, type_mx, type_txt,
  type_aaaa, type_srv, type_dname, type_caa, class_inet,
}
use domudns.Dns.Label.{apex}
use domudns.Dns.Record.{Record, RecordType}
use domudns.Dns.Validator.{outside}
use domudns.Dns.Zone.{Zone}

-- A conversion of an `int` to an unsigned type of `2 ^ w = m` values.
abbrev pub wrap : ℕ → ℤ → ℕ
wrap m (pos n) = n % m
wrap m (negsuc n) = m - 1 - n % m

abbrev pub cons_nonempty : Text → List Text → List Text
cons_nonempty [] ts = ts
cons_nonempty (c ∷ s) ts = (c ∷ s) ∷ ts

-- strings.Fields: the parts between runs of white space. The first argument is the part at hand.
unfoldable pub fields_from : Text → Text → List Text
fields_from cur [] = cons_nonempty cur []
fields_from cur (c ∷ s) =
    let cut = fields_from [] s in
    let go_on = fields_from (cur ++ c ∷ []) s in if is_space c then cons_nonempty cur cut else go_on

abbrev pub fields : Text → List Text
fields = fields_from []

-- strconv.ParseUint(s, 10, 32) with its error dropped: 0 for what is no number, and the greatest
-- value once the digits read exceed it.
unfoldable pub parse_u32_from : ℕ → Text → ℕ
parse_u32_from n [] = n
parse_u32_from n (c ∷ s) =
    let m = n * 10 + (c - b'0') in
    let rest = parse_u32_from m s in
    if not (leb b'0' c && leb c b'9') then 0 else if ltb (2 ^ 32 - 1) m then 2 ^ 32 - 1 else rest

abbrev pub parse_u32 : Text → ℕ
parse_u32 = parse_u32_from 0

abbrev pub at_or_empty : List Text → ℕ → Text
at_or_empty [] i = []
at_or_empty (t ∷ ts) zero = t
at_or_empty (t ∷ ts) (suc i) = at_or_empty ts i

abbrev pub with_type : Header → ℕ → Header
with_type h t = record h { rrtype = t }

abbrev pub is_soa : RecordType → Bool
is_soa RecordType.soa = true
is_soa _ = false

-- the TTL of the answer, with the zone's override
unfoldable pub answer_ttl : Zone → Record → ℕ
answer_ttl zone r =
    let ttl = wrap (2 ^ 32) r.ttl in
    if int_gtb zone.ttl_override 0 && not (is_soa r.rtype)
    then wrap (2 ^ 32) zone.ttl_override
    else if ttl == 0
    then 3600
    else ttl

module _ (lib : Mdns) (parse_ip : Text → Option Ip) where
  -- BuildRR: the builder of the record's type; `none` is nil.
  unfoldable pub build_rr : RecordType → Header → Record → Bool → Option Rr
  build_rr RecordType.a h r at_apex = elim (parse_ip r.value) [
    | none ↦ none
    | some ip ↦ elim ip [
      | v4 n ↦ some (record { hdr = with_type h type_a; rdata = Rdata.a (v4 n) })
      | v6 n ↦ none
    ]
  ]
  build_rr RecordType.aaaa h r at_apex = elim (parse_ip r.value) [
    | none ↦ none
    | some ip ↦ some (record { hdr = with_type h type_aaaa; rdata = Rdata.aaaa ip })
  ]
  build_rr RecordType.cname h r at_apex =
      if at_apex
      then none
      else some (record { hdr = with_type h type_cname; rdata = Rdata.cname (lib.fqdn r.value) })
  build_rr RecordType.mx h r at_apex = some (record {
    hdr = with_type h type_mx;
    rdata = Rdata.mx (wrap (2 ^ 16) r.priority) (lib.fqdn r.value);
  })
  build_rr RecordType.txt h r at_apex =
      some (record { hdr = with_type h type_txt; rdata = Rdata.txt (r.value ∷ []) })
  build_rr RecordType.ns h r at_apex =
      some (record { hdr = with_type h type_ns; rdata = Rdata.ns (lib.fqdn r.value) })
  build_rr RecordType.srv h r at_apex = some (record {
    hdr = with_type h type_srv;
    rdata =
        Rdata.srv (wrap (2 ^ 16) r.priority) (wrap (2 ^ 16) r.weight) (wrap (2 ^ 16) r.port)
          (lib.fqdn r.value);
  })
  build_rr RecordType.caa h r at_apex = some (record {
    hdr = with_type h type_caa;
    rdata = Rdata.caa (if outside r.priority 255 then 0 else wrap (2 ^ 8) r.priority) r.tag r.value;
  })
  build_rr RecordType.ptr h r at_apex =
      some (record { hdr = with_type h type_ptr; rdata = Rdata.ptr (lib.fqdn r.value) })
  build_rr RecordType.soa h r at_apex =
      let parts = fields r.value in
      if ltb (length parts) 7
      then none
      else some (record {
        hdr = with_type h type_soa;
        rdata =
            Rdata.soa (lib.fqdn (at_or_empty parts 0)) (lib.fqdn (at_or_empty parts 1))
              (parse_u32 (at_or_empty parts 2)) (parse_u32 (at_or_empty parts 3))
              (parse_u32 (at_or_empty parts 4)) (parse_u32 (at_or_empty parts 5))
              (parse_u32 (at_or_empty parts 6));
      })
  build_rr RecordType.dname h r at_apex =
      some (record { hdr = with_type h type_dname; rdata = Rdata.dname (lib.fqdn r.value) })
  build_rr RecordType.fwd h r at_apex = none
  build_rr RecordType.alias h r at_apex = none
  build_rr RecordType.spf h r at_apex = none
  build_rr RecordType.uri h r at_apex = none
  build_rr (RecordType.other t) h r at_apex = none

  abbrev pub owner_name : Zone → Text → Text
  owner_name zone sub =
      if text_beq sub apex then lib.fqdn zone.domain else lib.fqdn (sub ++ (dot ∷ zone.domain))

  unfoldable pub record_to_rr : Zone → Record → Text → Option Rr
  unfolding build_rr answer_ttl
  record_to_rr zone r sub =
      build_rr r.rtype
        (record {
          name = owner_name zone sub;
          rrtype = 0;
          class = class_inet;
          ttl = answer_ttl zone r;
        })
        r (text_beq sub apex)

  -- the loop that appends what `recordToRR` makes of each record
  unfoldable pub records_to_rrs : Zone → List Record → Text → List Rr
  records_to_rrs zone [] sub = []
  records_to_rrs zone (r ∷ rs) sub =
      let rest = records_to_rrs zone rs sub in
      elim (record_to_rr zone r sub) [ none ↦ rest | some rr ↦ rr ∷ rest ]
