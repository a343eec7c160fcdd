-- ===== src/Zones/Match/Rules.antt =====
-- matchZoneRecords as filters over the records of the zone.
use domudns.Prelude.{
  ℕ, ◌≡◌, sym, ap, ◌∙◌, Bool, not, ◌&&◌, ◌||◌, List, [], ◌∷◌, ◌++◌, append_assoc, append-nil,
  select, any, text_beq, if◌then◌else◌, arith,
}
use domudns.Text.{Text}
use domudns.Dns.Label.{apex}
use domudns.Dns.Record.{Record, is_cname, is_alias}
use domudns.Zones.Match.{
  Matched, Scan, start, rec_name, is_cname_or_any, has_type, covers, scan_record, scan,
  match_zone_records,
}

module _ (type_to_string : ℕ → Text) (sub : Text) (qtype : ℕ) where
  abbrev pub typed : Record → Bool
  typed = has_type type_to_string sub qtype

  abbrev pub covering : Record → Bool
  covering = covers type_to_string sub qtype

  abbrev pub at_apex : Bool
  at_apex = text_beq sub apex

  -- A record that stands at the name itself.
  abbrev pub at_name : Record → Bool
  at_name r = if at_apex then text_beq (rec_name r) apex else text_beq (rec_name r) sub

  -- A record `*` that covers the name and does not stand at it.
  abbrev pub over_name : Record → Bool
  over_name r = not at_apex && (not (text_beq (rec_name r) sub) && covering r)

  -- A record other than ALIAS that has the type; below the apex a CNAME counts for CNAME and ANY.
  abbrev pub answers : Record → Bool
  answers r =
      if is_cname r && not at_apex then is_cname_or_any qtype else not (is_alias r) && typed r

  abbrev pub matches : Record → Bool
  matches r = at_name r && answers r

  abbrev pub chases : Record → Bool
  chases r = at_name r && (is_cname r && not at_apex)

  abbrev pub aliases : Record → Bool
  aliases r = at_name r && (is_alias r && not (is_cname r && not at_apex))

  scan_step : Scan → Record → Scan
  scan_step = scan_record type_to_string sub qtype

  -- A list of the scan to which each round appends the records that pass a test.
  collects :
      (f : Scan → List Record) (p : Record → Bool)
      → ((s : Scan) (r : Record) → f (scan_step s r) ≡ f s ++ (if p r then r ∷ [] else []))
      → (s : Scan) (rs : List Record) → f (scan type_to_string sub qtype s rs) ≡ f s ++ select p rs
  unfolding scan scan_step
  collects f p step s [] = sym (append-nil (f s))
  collects f p step s (r ∷ rs) =
      collects f p step (scan_step s r) rs
      ∙ (ap (λ l. l ++ select p rs) (step s r)
          ∙ (append_assoc (f s) (if p r then r ∷ [] else []) (select p rs)
              ∙ ap (λ l. f s ++ l) (one_more p r rs)))
    where
      one_more :
          (p : Record → Bool) (r : Record) (rs : List Record)
          → (if p r then r ∷ [] else []) ++ select p rs ≡ select p (r ∷ rs)
      one_more p r rs = ground arith

  step_matched :
      (s : Scan) (r : Record)
      → (scan_step s r).matched ≡ s.matched ++ (if matches r then r ∷ [] else [])
  unfolding scan_record scan_step
  step_matched s r = ground (arith, append-nil s.matched)

  step_cname :
      (s : Scan) (r : Record) → (scan_step s r).cname ≡ s.cname ++ (if chases r then r ∷ [] else [])
  unfolding scan_record scan_step
  step_cname s r = ground (arith, append-nil s.cname)

  step_alias :
      (s : Scan) (r : Record)
      → (scan_step s r).alias ≡ s.alias ++ (if aliases r then r ∷ [] else [])
  unfolding scan_record scan_step
  step_alias s r = ground (arith, append-nil s.alias)

  abbrev pub wild : Record → Bool
  wild r = over_name r && (not (is_cname r) && (not (is_alias r) && typed r))

  abbrev pub wild_cname : Record → Bool
  wild_cname r = over_name r && is_cname r

  abbrev pub wild_alias : Record → Bool
  wild_alias r = over_name r && (is_alias r && not (is_cname r))

  step_wild :
      (s : Scan) (r : Record)
      → (scan_step s r).wildcards ≡ s.wildcards ++ (if wild r then r ∷ [] else [])
  unfolding scan_record scan_step
  step_wild s r = ground (arith, append-nil s.wildcards)

  step_wild_cname :
      (s : Scan) (r : Record)
      → (scan_step s r).wildcard_cname ≡ s.wildcard_cname ++ (if wild_cname r then r ∷ [] else [])
  unfolding scan_record scan_step
  step_wild_cname s r = ground (arith, append-nil s.wildcard_cname)

  step_wild_alias :
      (s : Scan) (r : Record)
      → (scan_step s r).wildcard_alias ≡ s.wildcard_alias ++ (if wild_alias r then r ∷ [] else [])
  unfolding scan_record scan_step
  step_wild_alias s r = ground (arith, append-nil s.wildcard_alias)

  step_exact :
      (s : Scan) (r : Record)
      → (scan_step s r).has_exact ≡ ((not at_apex && text_beq (rec_name r) sub) || s.has_exact)
  unfolding scan_record scan_step
  step_exact s r = ground arith

  scan_exact :
      (s : Scan) (rs : List Record)
      → (scan type_to_string sub qtype s rs).has_exact
        ≡ (s.has_exact || (not at_apex && any (λ r. text_beq (rec_name r) sub) rs))
  unfolding scan scan_step
  scan_exact s [] = ground arith
  scan_exact s (r ∷ rs) = ground (arith, step_exact s r, scan_exact (scan_step s r) rs)

  step_wildcard :
      (s : Scan) (r : Record)
      → (scan_step s r).has_wildcard ≡ ((not at_apex && covering r) || s.has_wildcard)
  unfolding scan_record scan_step
  step_wildcard s r = ground arith

  scan_wildcard :
      (s : Scan) (rs : List Record)
      → (scan type_to_string sub qtype s rs).has_wildcard
        ≡ (s.has_wildcard || (not at_apex && any covering rs))
  unfolding scan scan_step
  scan_wildcard s [] = ground arith
  scan_wildcard s (r ∷ rs) = ground (arith, step_wildcard s r, scan_wildcard (scan_step s r) rs)

  -- Some record stands at a name below the apex.
  abbrev pub exact : List Record → Bool
  exact rs = not at_apex && any (λ r. text_beq (rec_name r) sub) rs

  -- The records that answer, by filters: those at the name, and where no record stands at a name
  -- below the apex, those of a `*` record that covers it.
  abbrev pub chosen : List Record → Matched
  chosen rs =
      let by_star = not at_apex && not (exact rs) in
      record {
        matched =
            if by_star
            then (select matches rs ++ select wild rs)
              ++ (if is_cname_or_any qtype then select wild_cname rs else [])
            else select matches rs;
        cname = if by_star then select chases rs ++ select wild_cname rs else select chases rs;
        alias = if by_star then select aliases rs ++ select wild_alias rs else select aliases rs;
        name_exists = exact rs || (not at_apex && any covering rs);
      }

  -- matchZoneRecords is `chosen`, a choice by filters in the order of the zone's records: the
  -- records at the name whose type is asked for, its CNAME records and its ALIAS records, and behind
  -- them those of a covering `*` record only where no record stands at a name below the apex. Its
  -- one pass with separate buffers loses, repeats and misplaces nothing.
  pub match_zone_records-chosen :
      (rs : List Record) → match_zone_records type_to_string sub qtype rs ≡ chosen rs
  unfolding match_zone_records scan_step
  match_zone_records-chosen rs = ground (
    arith,
    collects (λ s. s.matched) matches step_matched start rs,
    collects (λ s. s.cname) chases step_cname start rs,
    collects (λ s. s.alias) aliases step_alias start rs,
    collects (λ s. s.wildcards) wild step_wild start rs,
    collects (λ s. s.wildcard_cname) wild_cname step_wild_cname start rs,
    collects (λ s. s.wildcard_alias) wild_alias step_wild_alias start rs,
    scan_exact start rs,
    scan_wildcard start rs,
  )
