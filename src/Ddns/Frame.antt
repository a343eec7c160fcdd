-- ===== src/Ddns/Frame.antt =====
-- What an update leaves alone: the records of every name that it does not name.
use domudns.Prelude.{
  ◌≡◌, refl, ap, ◌∙◌, subst, Bool, true, false, not, ◌||◌, List, [], ◌∷◌, ◌++◌, length, ◌==◌,
  Option-cases, some, inl, inr, All, text_beq, text_beq_iff, Bool-cases, arith, if◌then◌else◌,
}
use domudns.Text.{Text}
use domudns.Net.{Ip}
use domudns.Mdns.{Mdns, Rr, class_inet, class_none, class_any}
use domudns.Dns.Record.{Record}
use domudns.Ddns.Store.{DdnsStore, DdnsLaws, numbered, without}
use domudns.Ddns.Named.{
  IsNumbered, Agree, named, without-IsNumbered, append-IsNumbered, Agree-without, Agree-refl,
  named-without, named-append,
}
use domudns.Ddns.{
  at_name, normalize_rr_name, rec_name, is_replaced, is_matching, is_named, delete_selected,
  delete_where, put_or_fail, upsert, rr_to_record, typed_value, apply_update, apply_updates,
  new_record,
}

-- The name in the zone that an update is about, the apex being the empty one.
abbrev pub target : Text → Rr → Text
target domain rr =
    let n = normalize_rr_name rr.hdr.name domain in if text_beq n at_name then [] else n

-- Whatever passes a test has another name.
abbrev OtherNamed : (Record → Bool) → Text → Type 0
OtherNamed p n = (r : Record) → (not (p r) || not (text_beq (rec_name r) n)) ≡ true

All-others :
    (p : Record → Bool) (n : Text)
    → OtherNamed p n
    → (rs : List Record) → All (λ ex. (not (p ex) || not (text_beq (rec_name ex) n)) ≡ true) rs
All-others p n others [] = tt
All-others p n others (r ∷ rs) = (others r, All-others p n others rs)

replaced_other :
    (r : Record) (n : Text) → text_beq (rec_name r) n ≡ false → OtherNamed (is_replaced r) n
replaced_other r n other ex =
    ground (
      arith,
      text_beq_iff ex.name r.name,
      text_beq_iff (rec_name ex) n,
      text_beq_iff (rec_name r) n,
    )

abbrev apex_or : Text → Text
apex_or name = if text_beq name at_name then [] else name

apex_name : (m : Text) → apex_or (if length m == 0 then at_name else m) ≡ apex_or m
apex_name [] = refl
apex_name (c ∷ m) = ground arith

module _ (lib : Mdns) (ip_text : Ip → Text) where
  rr_to_record-target :
      (rr : Rr) (domain : Text) (r : Record)
      → rr_to_record lib ip_text rr domain ≡ some r
      → ((r.id == 0) ≡ true) × (rec_name r ≡ target domain rr)
  unfolding rr_to_record
  rr_to_record-target rr domain r h = elim (Option-cases (typed_value lib ip_text rr.rdata)) [
    | inl unsupported ↦ absurd (ground arith)
    | inr ((rtype, value), good) ↦
        let m = normalize_rr_name rr.hdr.name domain in
        let made : new_record (if length m == 0 then at_name else m)
              (if rr.hdr.ttl == 0 then 60 else rr.hdr.ttl) rtype value
            ≡ r =
          ground arith in
        subst (λ q. ((q.id == 0) ≡ true) × (rec_name q ≡ target domain rr)) made (refl, apex_name m)
  ]

  matching_other :
      (rr : Rr) (domain n : Text)
      → text_beq (target domain rr) n ≡ false
      → OtherNamed (is_matching lib ip_text rr domain) n
  unfolding is_matching
  matching_other rr domain n other r =
      let m = normalize_rr_name rr.hdr.name domain in
      ground (
        arith,
        text_beq_iff (rec_name r) m,
        text_beq_iff (rec_name r) n,
        text_beq_iff (target domain rr) n,
        text_beq_iff m at_name,
        text_beq_iff r.name at_name,
      )

  named_other :
      (rr : Rr) (domain n : Text)
      → text_beq (target domain rr) n ≡ false
      → OtherNamed (is_named lib ip_text rr domain) n
  unfolding is_named
  named_other rr domain n other r =
      let m = normalize_rr_name rr.hdr.name domain in
      ground (
        arith,
        text_beq_iff (rec_name r) m,
        text_beq_iff (rec_name r) n,
        text_beq_iff (target domain rr) n,
        text_beq_iff m at_name,
        text_beq_iff r.name at_name,
      )

module _ (lib : Mdns) (ip_text : Ip → Text) (S : Type 0) (store : DdnsStore S)
    (laws : DdnsLaws S store) where
  -- A state of the store whose records of the name are the given ones.
  abbrev pub Keeps : Text → Text → List Record → S → Type 0
  Keeps domain n kept s =
      laws.IsFine s
      × (rs : List Record) × (store.get_records s domain ≡ some rs)
      × IsNumbered rs
      × (named n rs ≡ kept)

  delete_selected-Keeps :
      (p : Record → Bool) (domain n : Text) (kept rest rs : List Record) (s : S)
      → All (λ ex. (not (p ex) || not (text_beq (rec_name ex) n)) ≡ true) rest
      → Agree rest rs
      → laws.IsFine s
      → store.get_records s domain ≡ some rs
      → IsNumbered rs
      → named n rs ≡ kept
      → Keeps domain n kept (delete_selected lib ip_text S store p domain rest s)
  unfolding delete_selected
  delete_selected-Keeps p domain n kept [] rs s others agree fine here numbers same =
      (fine, rs, here, numbers, same)
  delete_selected-Keeps p domain n kept (ex ∷ rest) rs s others agree fine here numbers same =
      elim (Bool-cases (p ex)) [
        | inr passed ↦ rw passed (
            delete_selected-Keeps p domain n kept rest rs s others.1 agree.1 fine here numbers same)
        | inl picked ↦ elim (Option-cases (store.delete_record s domain ex.id)) [
          | inl failed ↦
              rw (picked, failed)
                (delete_selected-Keeps p domain n kept rest rs s others.1 agree.1 fine here numbers
                  same)
          | inr (s', gone) ↦
              let (here', fine') =
                laws.delete_record-get_records s s' domain ex.id rs fine here gone in
              let other : text_beq (rec_name ex) n ≡ false = ground (arith, others.0) in
              rw (picked, gone)
                (delete_selected-Keeps p domain n kept rest (without ex.id rs) s' others.1
                  (Agree-without ex.id rest rs agree.1) fine' here'
                  (without-IsNumbered ex.id rs numbers)
                  (named-without n ex rs other agree.0 ∙ same))
        ]
      ]

  delete_where-Keeps :
      (p : Record → Bool) (domain n : Text) (kept : List Record) (s : S)
      → OtherNamed p n
      → Keeps domain n kept s
      → Keeps domain n kept (delete_where lib ip_text S store p s domain).0
  unfolding delete_where
  delete_where-Keeps p domain n kept s others (fine, rs, here, numbers, same) =
      rw (here, delete_where)
        (delete_selected-Keeps p domain n kept rs rs s (All-others p n others rs)
          (Agree-refl rs numbers) fine here numbers same)

  put_or_fail-Keeps :
      (domain n : Text) (kept : List Record) (s : S) (r : Record)
      → (r.id == 0) ≡ true
      → text_beq (rec_name r) n ≡ false
      → Keeps domain n kept s
      → Keeps domain n kept (put_or_fail lib ip_text S store s domain r).0
  unfolding put_or_fail
  put_or_fail-Keeps domain n kept s r new other (fine, rs, here, numbers, same) =
      elim (Option-cases (store.put_record s domain r)) [
        | inl failed ↦ rw (failed, put_or_fail) (fine, rs, here, numbers, same)
        | inr (s', put) ↦
            let (id, free, here', fine') =
              laws.put_record-get_records s s' domain r rs fine here new put in
            rw (put, put_or_fail)
              (
                fine',
                rs ++ (numbered id r ∷ []),
                here',
                append-IsNumbered rs (numbered id r) numbers free,
                named-append n (numbered id r) rs other ∙ same,
              )
      ]

  upsert-Keeps :
      (domain n : Text) (kept : List Record) (s : S) (r : Record)
      → (r.id == 0) ≡ true
      → text_beq (rec_name r) n ≡ false
      → Keeps domain n kept s
      → Keeps domain n kept (upsert lib ip_text S store s domain r).0
  unfolding upsert
  upsert-Keeps domain n kept s r new other (fine, rs, here, numbers, same) =
      rw (here, upsert)
        (put_or_fail-Keeps domain n kept
          (delete_selected lib ip_text S store (is_replaced r) domain rs s) r new other
          (delete_selected-Keeps (is_replaced r) domain n kept rs rs s
            (All-others (is_replaced r) n (replaced_other r n other) rs) (Agree-refl rs numbers)
            fine here numbers same))

  apply_update-Keeps :
      (domain n : Text) (kept : List Record) (s : S) (rr : Rr)
      → text_beq (target domain rr) n ≡ false
      → Keeps domain n kept s
      → Keeps domain n kept (apply_update lib ip_text S store s domain rr).0
  unfolding apply_update
  apply_update-Keeps domain n kept s rr other fine =
      elim (Bool-cases (rr.hdr.class == class_inet)) [
        | inl inet ↦ elim (Option-cases (rr_to_record lib ip_text rr domain)) [
          | inl unsupported ↦ rw (inet, unsupported, apply_update) fine
          | inr (r, good) ↦
              let (new, named_so) = rr_to_record-target lib ip_text rr domain r good in
              rw (inet, good, apply_update)
                (upsert-Keeps domain n kept s r new (ap (λ m. text_beq m n) named_so ∙ other) fine)
        ]
        | inr not_inet ↦ elim (Bool-cases (rr.hdr.class == class_none)) [
          | inl one ↦
              rw (not_inet, one)
                (delete_where-Keeps (is_matching lib ip_text rr domain) domain n kept s
                  (matching_other lib ip_text rr domain n other) fine)
          | inr not_one ↦ elim (Bool-cases (rr.hdr.class == class_any)) [
            | inl all_of ↦
                rw (not_inet, not_one, all_of)
                  (delete_where-Keeps (is_named lib ip_text rr domain) domain n kept s
                    (named_other lib ip_text rr domain n other) fine)
            | inr unknown ↦ rw (not_inet, not_one, unknown) fine
          ]
        ]
      ]

  apply_updates-Keeps :
      (domain n : Text) (kept : List Record) (s : S) (rrs : List Rr)
      → All (λ rr. text_beq (target domain rr) n ≡ false) rrs
      → Keeps domain n kept s
      → Keeps domain n kept (apply_updates lib ip_text S store s domain rrs).0
  unfolding apply_updates
  apply_updates-Keeps domain n kept s [] others fine = fine
  apply_updates-Keeps domain n kept s (rr ∷ rrs) others fine =
      let here = apply_update-Keeps domain n kept s rr others.0 fine in
      let s' = (apply_update lib ip_text S store s domain rr).0 in
      elim (Bool-cases (apply_update lib ip_text S store s domain rr).1) [
        | inl good ↦ rw good (apply_updates-Keeps domain n kept s' rrs others.1 here)
        | inr failed ↦ rw failed here
      ]

  -- The updates of one message, whether or not one of them fails, leave the records of every name
  -- that none of them is about as they were, in their order, and the numbers of the zone's records
  -- stay different from each other.
  pub apply_updates-others :
      (domain n : Text) (s : S) (rs : List Record) (rrs : List Rr)
      → laws.IsFine s
      → store.get_records s domain ≡ some rs
      → IsNumbered rs
      → All (λ rr. text_beq (target domain rr) n ≡ false) rrs
      → (rs' : List Record) × (store.get_records
            (apply_updates lib ip_text S store s domain rrs).0
            domain
          ≡ some rs')
        × IsNumbered rs'
        × (named n rs' ≡ named n rs)
  apply_updates-others domain n s rs rrs fine here numbers others =
      let (fine', rs', here', numbers', same') =
        apply_updates-Keeps domain n (named n rs) s rrs others (fine, rs, here, numbers, refl) in
      (rs', here', numbers', same')
