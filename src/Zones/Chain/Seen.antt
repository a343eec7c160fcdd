-- ===== src/Zones/Chain/Seen.antt =====
-- No name of a chain is followed twice, so that each adds its records at most once.
use domudns.Prelude.{
  ℕ, zero, suc, ◌≤◌, ◌≡◌, ◌⊎◌, refl, sym, ap, ◌∙◌, append-nil, true, false, ◌||◌, List, [], ◌∷◌,
  ◌++◌, length, Option, text_beq_iff, arith, Bool-cases, inl, inr,
}
use domudns.Text.{Text}
use domudns.Net.{Ip}
use domudns.Mdns.{Mdns, Rr}
use domudns.Dns.Record.{Record}
use domudns.Dns.Zone.{Zone}
use domudns.Zones.Rr.{records_to_rrs}
use domudns.Zones.Chain.{
  Chase, stopped, member, leaves_zone, target_name, matched_at, rrs_at, follow,
}
use domudns.Zones.Chain.Path
use domudns.Zones.Match.{Matched}

-- No name occurs twice, and none is in the other list.
abbrev pub AreNew : List Text → List Text → Type 0
AreNew seen [] = Unit
AreNew seen (s ∷ names) = (member s seen ≡ false) × AreNew (s ∷ seen) names

module _ (lib : Mdns) (parse_ip : Text → Option Ip) (zone : Zone) (qtype : ℕ) where
  abbrev at : Text → Matched
  at = matched_at lib parse_ip zone qtype

  -- What stands at a name of the chain: nothing outside the zone, else its records of the type, or,
  -- where there are none, its CNAME records.
  abbrev pub records_at : Text → List Record
  records_at s = elim (leaves_zone zone s) [
    | true ↦ []
    | false ↦ elim ((matched_at lib parse_ip zone qtype s).matched) [
      | r ∷ rs ↦ r ∷ rs
      | [] ↦ (matched_at lib parse_ip zone qtype s).cname
    ]
  ]

  abbrev pub rrs_of : List Text → List Rr
  rrs_of [] = []
  rrs_of (s ∷ names) = rrs_at lib parse_ip zone qtype s (records_at s) ++ rrs_of names

  -- A chase that followed `names`, each of them for the first time: no more than there were rounds, the
  -- records of each once, and an end for one of four reasons: the rounds were used up, it was
  -- answered, or the name at which it stopped had been followed.
  pub record IsTrail (rounds : ℕ) (seen names : List Text) (c : Chase) : Type 0 where
    pub first_time : AreNew seen names
    pub bound : length names ≤ rounds
    pub once : c.answers ≡ rrs_of names
    pub end :
        (length names ≡ rounds)
        ⊎ ((c.answered ≡ true) ⊎ ((member c.target seen || member c.target names) ≡ true))

  abbrev pub HasTrail : ℕ → List Text → Chase → Type 0
  HasTrail rounds seen c = (names : List Text) × IsTrail rounds seen names c

  -- A chase that ends at its first name
  alone :
      (rounds : ℕ) (s : Text) (seen : List Text) (rs : List Record) (c : Chase)
      → member s seen ≡ false
      → records_at s ≡ rs
      → c.answers ≡ rrs_at lib parse_ip zone qtype s rs
      → (c.answered ≡ true) ⊎ (c.target ≡ s)
      → HasTrail (suc rounds) seen c
  alone rounds s seen rs c new here all ended = (
    s ∷ [],
    record {
      first_time = (new, tt);
      bound = omega arith;
      once =
          all
          ∙ (ap (rrs_at lib parse_ip zone qtype s) (sym here)
              ∙ sym (append-nil (rrs_at lib parse_ip zone qtype s (records_at s))));
      end = elim ended [
        | inl done ↦ inr (inl done)
        | inr at_s ↦ inr (inr (ground (arith, text_beq_iff s c.target)))
      ];
    },
  )

  -- A chase that goes on from a name to the next one
  longer :
      (rounds : ℕ) (s : Text) (seen : List Text) (rs : List Record) (c : Chase)
      → member s seen ≡ false
      → records_at s ≡ rs
      → HasTrail rounds (s ∷ seen) c
      → HasTrail
          (suc rounds)
          seen
          (record c { answers = rrs_at lib parse_ip zone qtype s rs ++ c.answers })
  longer rounds s seen rs c new here (names, rest) = (
    s ∷ names,
    record {
      first_time = (new, rest.first_time);
      bound = let h = rest.bound in omega arith;
      once =
          ap (λ l. rrs_at lib parse_ip zone qtype s l ++ c.answers) (sym here)
          ∙ ap (λ l. rrs_at lib parse_ip zone qtype s (records_at s) ++ l) rest.once;
      end = elim rest.end [
        | inl used_up ↦ inl (ap suc used_up)
        | inr (inl done) ↦ inr (inl done)
        | inr (inr back) ↦ inr (inr (ground (arith, back)))
      ];
    },
  )

  -- A name that was followed before
  back_at :
      (rounds : ℕ) (s : Text) (seen : List Text)
      → member s seen ≡ true
      → HasTrail (suc rounds) seen (stopped s seen)
  back_at rounds s seen loop = (
    [],
    record {
      first_time = tt;
      bound = omega arith;
      once = refl;
      end = inr (inr (ground (arith, loop)));
    },
  )

  -- Following a chain follows names that it did not follow before, no two of them equal and at most
  -- one for each round; its answer holds the records at each of these names once, and nothing else;
  -- and it stops only when the rounds are used up, when there is an answer, or at a name that was
  -- followed. So a loop of CNAME records is left when it comes back to a name.
  pub follow-HasTrail :
      (rounds : ℕ) (s : Text) (seen : List Text)
      → HasTrail rounds seen (follow lib parse_ip zone qtype rounds s seen)
  follow-HasTrail zero s seen =
      unfold follow in
      ([], record { first_time = tt; bound = omega arith; once = refl; end = inl refl })
  follow-HasTrail (suc rounds) s seen = elim (Bool-cases (member s seen)) [
    | inl loop ↦
        rw (Path.follow_loop lib parse_ip zone qtype rounds s seen loop)
          (back_at rounds s seen loop)
    | inr new ↦ elim (Bool-cases (leaves_zone zone s)) [
      | inl outside ↦ rw (Path.follow_outside lib parse_ip zone qtype rounds s seen new outside) (
          alone rounds s seen [] _ new (rw (outside, records_at) refl)
            (unfold records_to_rrs in refl) (inr refl))
      | inr inside ↦ elim (Path.List-cases lib parse_ip zone qtype (at s).matched) [
        | inr (r, rs, found) ↦
            rw (Path.follow_answer lib parse_ip zone qtype rounds s seen new inside r rs found) (
              alone rounds s seen (r ∷ rs) _ new (rw (inside, records_at, found) refl) refl
                (inl refl))
        | inl nothing ↦ elim (Path.List-cases lib parse_ip zone qtype (at s).cname) [
          | inl no_cname ↦
              rw
                (Path.follow_dead_end lib parse_ip zone qtype rounds s seen new inside nothing
                  no_cname)
                (alone rounds s seen [] _ new (rw (inside, records_at, nothing) no_cname)
                  (unfold records_to_rrs in refl) (inr refl))
          | inr (c, cs, cname) ↦
              rw
                (Path.follow_next lib parse_ip zone qtype rounds s seen new inside c cs nothing
                  cname)
                (longer rounds s seen (c ∷ cs) _ new (rw (inside, records_at, nothing) cname)
                  (follow-HasTrail rounds (target_name lib parse_ip zone qtype c.value) (s ∷ seen)))
        ]
      ]
    ]
  ]
