-- ===== src/Tests/FeedTests.antt =====
-- The lists that a block list is made of.
use domudns.Prelude.{
  ◌≡◌, refl, not, ◌||◌, ◌&&◌, List, [], ◌∷◌, any, length, ◌==◌, Option, none, text_beq,
}
use domudns.Text.{Text, codes, dot, has_suffix, trim_suffix, trim_space, lower_byte}
use domudns.Dns.Label.{normalize_domain}
use domudns.Zones.Rr.{fields_from}
use domudns.Feeds.{
  add_domain, add_domains, add_fields, add_line, is_allowed, allowed_set, member, merge, merge_from,
  normalize_name_or_none, parse_lines,
}
use domudns.Feeds.Merge.{names, merge-allowed}

-- No line of the tests is an adblock rule.
abbrev no_rule : Text → Option Text
no_rule line = none

computing : Unit {0}
unfolding trim_suffix trim_space has_suffix lower_byte normalize_domain fields_from
    normalize_name_or_none add_domain add_domains add_fields add_line parse_lines merge merge_from
    is_allowed allowed_set
computing = tt

abbrev lines : List Text
lines =
    codes "# ads"
    ∷ codes "0.0.0.0 Ads.example. localhost"
    ∷ codes "ads.example"
    ∷ codes "two.example"
    ∷ []

parsed : parse_lines no_rule [] lines ≡ codes "ads.example" ∷ codes "two.example" ∷ []
unfolding computing
parsed = refl

-- What stands behind `#` at the end of a line is read as names.
trailing_comment :
    parse_lines no_rule [] (codes "0.0.0.0 ads.example # tracker" ∷ [])
    ≡ codes "ads.example" ∷ codes "#" ∷ codes "tracker" ∷ []
unfolding computing
trailing_comment = refl

merged :
    merge (codes "ads.example" ∷ codes "a.ok.example" ∷ []) (codes "OK.example" ∷ [])
    ≡ codes "ads.example" ∷ []
unfolding computing
merged = refl

merge-allowed_example :
    member (codes "ads.example") (merge (codes "ads.example" ∷ []) (codes "ok.example" ∷ [])) ≡ (
      names (codes "ads.example") (codes "ads.example" ∷ [])
      && (not (length (codes "ads.example") == 0)
          && not (
              any
                (λ a.
                  not (length (normalize_domain a) == 0)
                  && (text_beq (codes "ads.example") (normalize_domain a)
                      || has_suffix (codes "ads.example") (dot ∷ normalize_domain a)))
                (codes "ok.example" ∷ []))))
merge-allowed_example =
    merge-allowed (codes "ads.example") (codes "ads.example" ∷ []) (codes "ok.example" ∷ [])
