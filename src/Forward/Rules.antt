-- ===== src/Forward/Rules.antt =====
-- Conditional forwarding goes by the longest domain.
use domudns.Prelude.{
  ℕ, ◌≤◌, ◌≡◌, ◌⊎◌, inl, inr, sym, ap, ◌∙◌, true, not, ◌||◌, ◌&&◌, List, [], ◌∷◌, ◌++◌, length, ltb,
  leb, All, none, some, Bool-cases, arith,
}
use domudns.Text.{Text}
use domudns.Forward.{ConditionalForwardRule, rule_matches, best_rule}

-- No rule that matches the name has a longer domain.
abbrev pub NoneLonger : Text → ℕ → List ConditionalForwardRule → Type 0
NoneLonger name n = All (λ r. (not (rule_matches name r) || leb (length r.domain) n) ≡ true)

NoneLonger-le :
    (name : Text) (m n : ℕ) (rules : List ConditionalForwardRule)
    → m ≤ n
    → NoneLonger name m rules
    → NoneLonger name n rules
NoneLonger-le name m n [] le low = tt
NoneLonger-le name m n (r ∷ rules) le low =
    (ground (arith, low.0), NoneLonger-le name m n rules le low.1)

-- A rule stands in a list.
abbrev pub StandsIn : ConditionalForwardRule → List ConditionalForwardRule → Type 0
StandsIn b rules =
    (before : List ConditionalForwardRule) × (after : List ConditionalForwardRule) × (rules
      ≡ before ++ (b ∷ after))

StandsIn-cons :
    (b r : ConditionalForwardRule) (rules : List ConditionalForwardRule)
    → StandsIn b rules
    → StandsIn b (r ∷ rules)
StandsIn-cons b r rules (before, after, e) = (r ∷ before, after, ap (◌∷◌ r) e)

better :
    (name : Text) (b c : ConditionalForwardRule) (rules : List ConditionalForwardRule)
    → rule_matches name b ≡ true
    → best_rule name (some b) rules ≡ some c
    → ((c ≡ b) ⊎ StandsIn c rules)
      × (rule_matches name c ≡ true)
      × (length b.domain ≤ length c.domain)
      × NoneLonger name (length c.domain) rules
unfolding best_rule
better name b c [] good h =
    let e : b ≡ c = ground arith in
    (
      inl (sym e),
      ap (rule_matches name) (sym e) ∙ good,
      (let l = ap (λ r. length r.domain) e in omega (arith, l)),
      tt,
    )
better name b c (r ∷ rules) good h =
    elim (Bool-cases (rule_matches name r && ltb (length b.domain) (length r.domain))) [
      | inl longer ↦
          let (where_from, good', le, none_longer) =
            better name r c rules (ground arith) (rw longer at h) in
          (
            inr (elim where_from [
              | inl e ↦ ([], rules, ap (λ q. q ∷ rules) (sym e))
              | inr stands ↦ StandsIn-cons c r rules stands
            ]),
            good',
            ground arith,
            (ground (arith, le), none_longer),
          )
      | inr not_longer ↦
          let (where_from, good', le, none_longer) =
            better name b c rules good (rw not_longer at h) in
          (
            elim where_from [ inl e ↦ inl e | inr stands ↦ inr (StandsIn-cons c r rules stands) ],
            good',
            le,
            (ground (arith, le), none_longer),
          )
    ]

-- The rule that a name is forwarded by is one of the rules, it matches the name, and no rule that
-- matches has a longer domain.
pub best_rule-NoneLonger :
    (name : Text) (c : ConditionalForwardRule) (rules : List ConditionalForwardRule)
    → best_rule name none rules ≡ some c
    → StandsIn c rules × (rule_matches name c ≡ true) × NoneLonger name (length c.domain) rules
unfolding best_rule
best_rule-NoneLonger name c [] h = absurd (ground arith)
best_rule-NoneLonger name c (r ∷ rules) h = elim (Bool-cases (rule_matches name r)) [
  | inr passed ↦
      let (stands, good, none_longer) = best_rule-NoneLonger name c rules (rw passed at h) in
      (StandsIn-cons c r rules stands, good, (ground arith, none_longer))
  | inl matched ↦
      let (where_from, good, le, none_longer) = better name r c rules matched (rw matched at h) in
      (
        elim where_from [
          | inl e ↦ ([], rules, ap (λ q. q ∷ rules) (sym e))
          | inr stands ↦ StandsIn-cons c r rules stands
        ],
        good,
        (ground (arith, le), none_longer),
      )
]
