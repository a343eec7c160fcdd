-- ===== src/Dns/Record.antt =====
-- Records (internal/dns/record.go).
use domudns.Prelude.{ℕ, Bool, true, false, ◌||◌, ◌++◌, ◌∷◌, length, ◌==◌, text_beq, if◌then◌else◌}
use domudns.Prelude.Int.{ℤ}
use domudns.Text.{Text, codes, dot}

-- `RecordType` is a string; `other` is a text that is none of the constants.
pub data RecordType : Type 0 where
  a aaaa cname mx txt ns soa srv ptr caa dname spf uri fwd alias : RecordType
  other : Text → RecordType

-- string(recordType)
abbrev pub type_text : RecordType → Text
type_text RecordType.a = codes "A"
type_text RecordType.aaaa = codes "AAAA"
type_text RecordType.cname = codes "CNAME"
type_text RecordType.mx = codes "MX"
type_text RecordType.txt = codes "TXT"
type_text RecordType.ns = codes "NS"
type_text RecordType.soa = codes "SOA"
type_text RecordType.srv = codes "SRV"
type_text RecordType.ptr = codes "PTR"
type_text RecordType.caa = codes "CAA"
type_text RecordType.dname = codes "DNAME"
type_text RecordType.spf = codes "SPF"
type_text RecordType.uri = codes "URI"
type_text RecordType.fwd = codes "FWD"
type_text RecordType.alias = codes "ALIAS"
type_text (RecordType.other t) = t

-- The identifier is an `int` in the code; the store gives out positive ones, and one of 0 stands for a
-- record that has none yet. Negative ones are left out.
pub record Record : Type 0 where
  pub id : ℕ
  pub name : Text
  pub rtype : RecordType
  pub ttl : ℤ
  pub value : Text
  pub priority : ℤ
  pub weight : ℤ
  pub port : ℤ
  pub tag : Text

abbrev pub is_cname : Record → Bool
is_cname r = elim (r.rtype) [ RecordType.cname ↦ true | _ ↦ false ]

abbrev pub is_alias : Record → Bool
is_alias r = elim (r.rtype) [ RecordType.alias ↦ true | _ ↦ false ]

unfoldable pub fqdn : Record → Text → Text
fqdn r zone =
    if (length r.name == 0) || text_beq r.name (codes "@") then zone else r.name ++ (dot ∷ zone)
