-- ===== src/Zones/Find.antt =====
-- FindZone answers with the longest stored suffix of a name.
use domudns.Prelude.{
  ℕ, ◌-◌, ◌<◌, ◌≡◌, ◌≢◌, ◌⊎◌, inl, inr, refl, sym, ap, ◌∙◌, subst, List, [], ◌∷◌, ◌++◌,
  append_assoc, length, drop, length-append, drop-length-append, Option, none, some, Option-cases,
  some_pair_inj, arith,
}
use mathlib.Core.List.{concat-ne-nil}
use native.Mathlib.Decide.{dec_lt}
use domudns.Text.{Text, codes, dot, split, join, normalize_name}
use domudns.Text.Parts.{join-split}
use domudns.Dns.Zone.{Zone}
use domudns.Zones.{ZoneManager, find_by_name, find_parent, find_zone}

append-inj_right : (xs ys us vs : List Text) → xs ++ ys ≡ us ++ vs → length ys ≡ length vs → ys ≡ vs
append-inj_right xs ys us vs e h =
    let n : length xs ≡ length us =
      omega (arith, length-append xs ys, length-append us vs, ap length e) in
    sym (drop-length-append xs ys)
    ∙ (ap (drop (length xs)) e ∙ (ap (λ k. drop k (us ++ vs)) n ∙ drop-length-append us vs))

module _ (m : ZoneManager) (view : Text) where
  -- No suffix of a name's labels with more than `n` labels is a zone of the client.
  abbrev pub NoneLonger : List Text → ℕ → Type 0
  NoneLonger parts n =
      (front rest : List Text)
      → parts ≡ front ++ rest
      → n < length rest
      → find_by_name m view (join rest dot) ≡ none

  -- The zone's name is the suffix `rest` of the labels, and no longer suffix is a zone.
  pub record IsLongest (parts front rest : List Text) (z : Zone) : Type 0 where
    pub whole : parts ≡ front ++ rest
    pub found : find_by_name m view (join rest dot) ≡ some z
    pub longest : NoneLonger parts (length rest)

  one_shorter :
      (parts front : List Text) (p : Text) (rest : List Text)
      → parts ≡ front ++ (p ∷ rest)
      → NoneLonger parts (length (p ∷ rest))
      → find_by_name m view (join (p ∷ rest) dot) ≡ none
      → NoneLonger parts (length rest)
  one_shorter parts front p rest whole longer miss front' rest' e h =
      elim (dec_lt (length (p ∷ rest)) (length rest')) [
        | yes more ↦ longer front' rest' e more
        | no at_most ↦
            let same =
              append-inj_right front (p ∷ rest) front' rest' (sym whole ∙ e) (omega arith) in
            subst (λ r. find_by_name m view (join r dot) ≡ none) same miss
      ]

  find_parent_hit :
      (parts front rest : List Text)
      → front ≢ []
      → parts ≡ front ++ rest
      → NoneLonger parts (length rest)
      → (z : Zone) (sub : Text) → find_parent m view front rest ≡ some (z, sub)
      → (front' rest' : List Text) × (front' ≢ [])
        × (sub ≡ join front' dot)
        × IsLongest parts front' rest' z
  unfolding find_parent
  find_parent_hit parts front [] some_front whole longer z sub h = cc
  find_parent_hit parts front (p ∷ rest) some_front whole longer z sub h =
      elim (Option-cases (find_by_name m view (join (p ∷ rest) dot))) [
        | inl miss ↦
            find_parent_hit parts (front ++ p ∷ []) rest (concat-ne-nil p front)
              (whole ∙ sym (append_assoc front (p ∷ []) rest))
              (one_shorter parts front p rest whole longer miss) z sub (rw (miss, find_parent) at h)
        | inr (z', hit) ↦
            let e = some_pair_inj (rw (hit, find_parent) at h) in
            (
              front,
              p ∷ rest,
              some_front,
              sym e.1,
              record { whole = whole; found = hit ∙ ap some e.0; longest = longer },
            )
      ]

  find_parent_miss :
      (parts front rest : List Text)
      → parts ≡ front ++ rest
      → NoneLonger parts (length rest)
      → find_parent m view front rest ≡ none
      → NoneLonger parts 0
  unfolding find_parent
  find_parent_miss parts front [] whole longer h = longer
  find_parent_miss parts front (p ∷ rest) whole longer h =
      elim (Option-cases (find_by_name m view (join (p ∷ rest) dot))) [
        | inl miss ↦
            find_parent_miss parts (front ++ p ∷ []) rest
              (whole ∙ sym (append_assoc front (p ∷ []) rest))
              (one_shorter parts front p rest whole longer miss) (rw (miss, find_parent) at h)
        | inr (z', hit) ↦ absurd (ground arith)
      ]

  abbrev labels_of : Text → List Text
  labels_of qname = split (normalize_name qname) dot

  nothing_longer : (parts : List Text) → NoneLonger parts (length parts)
  nothing_longer parts front rest e h =
      absurd (omega (arith, ap length e, length-append front rest))

  below_apex :
      (qname : Text)
      → find_by_name m view (normalize_name qname) ≡ none
      → NoneLonger (labels_of qname) (length (labels_of qname) - 1)
  below_apex qname miss front rest e h =
      let same =
        append-inj_right [] (labels_of qname) front rest e
          (omega (arith, ap length e, length-append front rest)) in
      subst (λ s. find_by_name m view s ≡ none)
        (sym (join-split (normalize_name qname) dot) ∙ ap (λ r. join r dot) same) miss

  shorter :
      (p : Text) (rest : List Text)
      → NoneLonger (p ∷ rest) (length (p ∷ rest) - 1)
      → NoneLonger (p ∷ rest) (length rest)
  shorter p rest longer front rest' e h = longer front rest' e (omega arith)

  parents_hit :
      (parts : List Text) (z : Zone) (sub : Text)
      → NoneLonger parts (length parts - 1)
      → (elim parts [ [] ↦ none | p ∷ rest ↦ find_parent m view (p ∷ []) rest ]) ≡ some (z, sub)
      → (front rest : List Text) × (front ≢ [])
        × (sub ≡ join front dot)
        × IsLongest parts front rest z
  parents_hit [] z sub longer h = cc
  parents_hit (p ∷ rest) z sub longer h =
      find_parent_hit (p ∷ rest) (p ∷ []) rest (cc) refl (shorter p rest longer) z sub h

  parents_miss :
      (parts : List Text)
      → NoneLonger parts (length parts - 1)
      → (elim parts [ [] ↦ none | p ∷ rest ↦ find_parent m view (p ∷ []) rest ]) ≡ none
      → NoneLonger parts 0
  parents_miss [] longer h = longer
  parents_miss (p ∷ rest) longer h =
      find_parent_miss (p ∷ rest) (p ∷ []) rest refl (shorter p rest longer) h

  find_zone_hit :
      (qname : Text) (z : Zone) (sub : Text)
      → find_zone m view qname ≡ some (z, sub)
      → (front rest : List Text) × (((front ≡ []) × (sub ≡ codes "@"))
          ⊎ ((front ≢ []) × (sub ≡ join front dot)))
        × IsLongest (split (normalize_name qname) dot) front rest z
  unfolding find_zone
  find_zone_hit qname z sub h = elim (Option-cases (find_by_name m view (normalize_name qname))) [
    | inl miss ↦
        let (front, rest, some_front, at_front, l) =
          parents_hit (labels_of qname) z sub (below_apex qname miss) (rw (miss, find_zone) at h) in
        (front, rest, inr (some_front, at_front), l)
    | inr (z', hit) ↦
        let e = some_pair_inj (rw (hit, find_zone) at h) in
        (
          [],
          labels_of qname,
          inl (refl, sym e.1),
          record {
            whole = refl;
            found =
                ap (find_by_name m view) (join-split (normalize_name qname) dot)
                ∙ (hit ∙ ap some e.0);
            longest = nothing_longer (labels_of qname);
          },
        )
  ]

  find_zone_miss :
      (qname : Text)
      → find_zone m view qname ≡ none
      → (front rest : List Text) → split (normalize_name qname) dot ≡ front ++ rest
      → rest ≢ []
      → find_by_name m view (join rest dot) ≡ none
  unfolding find_zone
  find_zone_miss qname h front [] e some_rest = absurd (some_rest refl)
  find_zone_miss qname h front (p ∷ rest) e some_rest =
      elim (Option-cases (find_by_name m view (normalize_name qname))) [
        | inl miss ↦
            parents_miss (labels_of qname) (below_apex qname miss) (rw (miss, find_zone) at h) front
              (p ∷ rest) e (omega arith)
        | inr (z', hit) ↦ absurd (ground arith)
      ]

  no_suffix :
      (qname : Text)
      → find_zone m view qname ≡ none
      → NoneLonger (split (normalize_name qname) dot) 0
  no_suffix qname h front [] e some_rest = absurd (omega arith)
  no_suffix qname h front (p ∷ rest) e some_rest = find_zone_miss qname h front (p ∷ rest) e (cc)

  -- What is right to find for a name: nothing where no suffix of its labels is a zone, and otherwise
  -- the zone of the longest one.
  abbrev pub IsZoneOf : Text → Option (Zone × Text) → Type 0
  IsZoneOf qname none = NoneLonger (split (normalize_name qname) dot) 0
  IsZoneOf qname (some (z, sub)) =
      (front rest : List Text) × (((front ≡ []) × (sub ≡ codes "@"))
        ⊎ ((front ≢ []) × (sub ≡ join front dot)))
      × IsLongest (split (normalize_name qname) dot) front rest z

  -- FindZone returns the zone of the longest suffix of the name's labels that is a zone for the
  -- client's view, and what stands before that suffix, or "@" where nothing does; it returns no zone
  -- only where no suffix of the labels, the whole name included, is such a zone.
  pub find_zone-IsLongest : (qname : Text) → IsZoneOf qname (find_zone m view qname)
  find_zone-IsLongest qname = elim (Option-cases (find_zone m view qname)) [
    | inl none_found ↦ subst (IsZoneOf qname) (sym none_found) (no_suffix qname none_found)
    | inr ((z, sub), hit) ↦ subst (IsZoneOf qname) (sym hit) (find_zone_hit qname z sub hit)
  ]
