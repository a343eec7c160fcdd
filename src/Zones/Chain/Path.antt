-- ===== src/Zones/Chain/Path.antt =====
-- A followed chain is a path of CNAME records, and ends where it says.
use domudns.Prelude.{
  ℕ, zero, suc, ◌≡◌, ◌⊎◌, inl, inr, refl, sym, ap, ◌∙◌, true, false, List, [], ◌∷◌, ◌++◌,
  append_assoc, Option, arith, Bool-cases,
}
use domudns.Text.{Text}
use domudns.Net.{Ip}
use domudns.Mdns.{Mdns, Rr}
use domudns.Dns.Record.{Record}
use domudns.Dns.Zone.{Zone}
use domudns.Zones.Match.{Matched}
use domudns.Zones.Chain.{
  Chase, stopped, member, leaves_zone, target_name, matched_at, rrs_at, follow,
}

module _ (lib : Mdns) (parse_ip : Text → Option Ip) (zone : Zone) (qtype : ℕ) where
  abbrev at : Text → Matched
  at = matched_at lib parse_ip zone qtype

  -- `Leads s t l`: the first CNAME at each name leads from `s` to `t` inside the zone, and the
  -- records on the way are `l`.
  pub data Leads (t : Text) : Text → List Rr → Type 0 where
    here : Leads t t []
    next :
        {l : List Rr} (s : Text) (c : Record) (cs : List Record)
        → leaves_zone zone s ≡ false
        → (matched_at lib parse_ip zone qtype s).matched ≡ []
        → (matched_at lib parse_ip zone qtype s).cname ≡ c ∷ cs
        → Leads t (target_name lib parse_ip zone qtype c.value) l
        → Leads t s (rrs_at lib parse_ip zone qtype s (c ∷ cs) ++ l)

  -- Where and how a chase ends: without an answer at its target, or with the records of the type at
  -- a last name, behind those of the way there.
  pub data Ends (s : Text) (c : Chase) : Type 0 where
    open_end : c.answered ≡ false → Leads c.target s c.answers → Ends s c
    answer :
        (last : Text) (r : Record) (rs : List Record) (way : List Rr)
        → c.answered ≡ true
        → Leads last s way
        → leaves_zone zone last ≡ false
        → (matched_at lib parse_ip zone qtype last).matched ≡ r ∷ rs
        → c.answers ≡ way ++ rrs_at lib parse_ip zone qtype last (r ∷ rs)
        → Ends s c

  pub List-cases : {A : Type 0} (l : List A) → (l ≡ []) ⊎ ((x : A) × (xs : List A) × (l ≡ x ∷ xs))
  List-cases [] = inl refl
  List-cases (x ∷ xs) = inr (x, xs, refl)

  extend :
      (s : Text) (c : Record) (cs : List Record) (chase : Chase)
      → leaves_zone zone s ≡ false
      → (at s).matched ≡ []
      → (at s).cname ≡ c ∷ cs
      → Ends (target_name lib parse_ip zone qtype c.value) chase
      → Ends s
          (record chase { answers = rrs_at lib parse_ip zone qtype s (c ∷ cs) ++ chase.answers })
  extend s c cs chase inside nothing cname (open_end not_answered leads) =
      open_end not_answered (next s c cs inside nothing cname leads)
  extend s c cs chase inside nothing cname (answer last r rs way done leads in_zone found all) =
      answer last r rs (rrs_at lib parse_ip zone qtype s (c ∷ cs) ++ way) done
        (next s c cs inside nothing cname leads) in_zone found
        (ap (λ l. rrs_at lib parse_ip zone qtype s (c ∷ cs) ++ l) all
          ∙ sym (append_assoc (rrs_at lib parse_ip zone qtype s (c ∷ cs)) way _))

  module _ (rounds : ℕ) (s : Text) (seen : List Text) (new : member s seen ≡ false) where
    pub follow_outside :
        leaves_zone zone s ≡ true
        → follow lib parse_ip zone qtype (suc rounds) s seen ≡ stopped s (s ∷ seen)
    unfolding follow
    follow_outside h = ground arith

    pub follow_answer :
        leaves_zone zone s ≡ false
        → (r : Record) (rs : List Record) → (at s).matched ≡ r ∷ rs
        → follow lib parse_ip zone qtype (suc rounds) s seen ≡ record {
          answers = rrs_at lib parse_ip zone qtype s (r ∷ rs);
          target = [];
          answered = true;
          seen = s ∷ seen;
        }
    unfolding follow
    follow_answer h r rs found = ground arith

    pub follow_dead_end :
        leaves_zone zone s ≡ false
        → (at s).matched ≡ []
        → (at s).cname ≡ []
        → follow lib parse_ip zone qtype (suc rounds) s seen ≡ stopped s (s ∷ seen)
    unfolding follow
    follow_dead_end h nothing no_cname = ground arith

    pub follow_next :
        leaves_zone zone s ≡ false
        → (c : Record) (cs : List Record) → (at s).matched ≡ []
        → (at s).cname ≡ c ∷ cs
        → follow lib parse_ip zone qtype (suc rounds) s seen ≡ (
            let rest =
              follow lib parse_ip zone qtype rounds
                (target_name lib parse_ip zone qtype c.value)
                (s ∷ seen) in
            record rest { answers = rrs_at lib parse_ip zone qtype s (c ∷ cs) ++ rest.answers })
    unfolding follow
    follow_next h c cs nothing cname = ground arith

  pub follow_loop :
      (rounds : ℕ) (s : Text) (seen : List Text)
      → member s seen ≡ true
      → follow lib parse_ip zone qtype (suc rounds) s seen ≡ stopped s seen
  unfolding follow
  follow_loop rounds s seen h = ground arith

  -- Following a chain from a name ends as the relation `Ends` says, for any number of rounds:
  -- without an answer, the first CNAME of each name leads to the reported target; with one, to a
  -- name of the zone with records of the type; and in both cases the answer holds the records on the
  -- way, in order, and nothing else.
  pub follow-Ends :
      (rounds : ℕ) (s : Text) (seen : List Text)
      → Ends s (follow lib parse_ip zone qtype rounds s seen)
  follow-Ends zero s seen = unfold follow in open_end refl here
  follow-Ends (suc rounds) s seen = elim (Bool-cases (member s seen)) [
    | inl loop ↦ rw (follow_loop rounds s seen loop) (open_end refl here)
    | inr new ↦ elim (Bool-cases (leaves_zone zone s)) [
      | inl outside ↦ rw (follow_outside rounds s seen new outside) (open_end refl here)
      | inr inside ↦ elim (List-cases (at s).matched) [
        | inr (r, rs, found) ↦
            rw (follow_answer rounds s seen new inside r rs found)
              (answer s r rs [] refl here inside found refl)
        | inl nothing ↦ elim (List-cases (at s).cname) [
          | inl no_cname ↦
              rw (follow_dead_end rounds s seen new inside nothing no_cname) (open_end refl here)
          | inr (c, cs, cname) ↦ rw (follow_next rounds s seen new inside c cs nothing cname) (
              extend s c cs _ inside nothing cname
                (follow-Ends rounds (target_name lib parse_ip zone qtype c.value) (s ∷ seen)))
        ]
      ]
    ]
  ]
