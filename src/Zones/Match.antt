-- ===== src/Zones/Match.antt =====
-- Which records of a zone answer a name and a type (matchZoneRecords in zones.go).
pub mod Rules
pub mod Exact
use domudns.Prelude.{
  ℕ, Bool, true, false, not, ◌&&◌, ◌||◌, List, [], ◌∷◌, ◌++◌, length, ◌==◌, text_beq, if◌then◌else◌,
}
use domudns.Text.{Text, codes, dot, contains_byte}
use domudns.Mdns.{type_cname, type_any}
use domudns.Dns.Label.{apex}
use domudns.Dns.Record.{Record, is_cname, is_alias, type_text}

pub record Matched : Type 0 where
  pub matched : List Record
  pub cname : List Record
  pub alias : List Record
  pub name_exists : Bool

-- The variables of the loop.
pub record Scan : Type 0 where
  pub matched : List Record
  pub cname : List Record
  pub alias : List Record
  pub wildcards : List Record
  pub wildcard_cname : List Record
  pub wildcard_alias : List Record
  pub has_exact : Bool
  pub has_wildcard : Bool

abbrev pub start : Scan
start = record {
  matched = [];
  cname = [];
  alias = [];
  wildcards = [];
  wildcard_cname = [];
  wildcard_alias = [];
  has_exact = false;
  has_wildcard = false;
}

abbrev pub star : Text
star = codes "*"

-- `recName`: the empty name is the apex.
unfoldable pub rec_name : Record → Text
rec_name r = if text_beq r.name apex || (length r.name == 0) then apex else r.name

abbrev pub is_cname_or_any : ℕ → Bool
is_cname_or_any qtype = (qtype == type_cname) || (qtype == type_any)

module _ (type_to_string : ℕ → Text) (sub : Text) (qtype : ℕ) where
  -- `qtype == ANY || string(rec.Type) == TypeToString[qtype]`
  unfoldable pub has_type : Record → Bool
  has_type r = (qtype == type_any) || text_beq (type_text r.rtype) (type_to_string qtype)

  -- a `*` record covers names of one label
  abbrev pub covers : Record → Bool
  covers r = text_beq (rec_name r) star && not (contains_byte sub dot)

  unfoldable pub note_names : Scan → Record → Scan
  note_names s r = if text_beq sub apex then s else record s {
    has_exact = text_beq (rec_name r) sub || s.has_exact;
    has_wildcard = covers r || s.has_wildcard;
  }

  unfoldable pub collect_wildcard : Scan → Record → Scan
  collect_wildcard s r =
      if is_cname r
      then record s { wildcard_cname = s.wildcard_cname ++ r ∷ [] }
      else if is_alias r
      then record s { wildcard_alias = s.wildcard_alias ++ r ∷ [] }
      else if has_type r
      then record s { wildcards = s.wildcards ++ r ∷ [] }
      else s

  unfoldable pub collect : Scan → Record → Scan
  collect s r =
      if is_cname r && not (text_beq sub apex)
      then if is_cname_or_any qtype
        then record s { cname = s.cname ++ r ∷ []; matched = s.matched ++ r ∷ [] }
        else record s { cname = s.cname ++ r ∷ [] }
      else if is_alias r
      then record s { alias = s.alias ++ r ∷ [] }
      else if not (has_type r)
      then s
      else record s { matched = s.matched ++ r ∷ [] }

  -- one round of the loop over `zone.Records`
  unfoldable pub scan_record : Scan → Record → Scan
  unfolding note_names collect_wildcard collect
  scan_record s r =
      let s' = note_names s r in
      if text_beq sub apex && not (text_beq (rec_name r) apex)
      then s'
      else if text_beq sub apex || text_beq (rec_name r) sub
      then collect s' r
      else if covers r
      then collect_wildcard s' r
      else s'

  unfoldable pub scan : Scan → List Record → Scan
  scan s [] = s
  scan s (r ∷ rs) = scan (scan_record s r) rs

  -- the promotion of the wildcard candidates behind the loop
  unfoldable pub promote : Scan → Matched
  promote s =
      if not (text_beq sub apex) && not s.has_exact
      then record {
        matched =
            (s.matched ++ s.wildcards) ++ (if is_cname_or_any qtype then s.wildcard_cname else []);
        cname = s.cname ++ s.wildcard_cname;
        alias = s.alias ++ s.wildcard_alias;
        name_exists = s.has_exact || s.has_wildcard;
      }
      else record {
        matched = s.matched;
        cname = s.cname;
        alias = s.alias;
        name_exists = s.has_exact || s.has_wildcard;
      }

  unfoldable pub match_zone_records : List Record → Matched
  unfolding scan promote
  match_zone_records records = promote (scan start records)
