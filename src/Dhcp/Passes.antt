-- ===== src/Dhcp/Passes.antt =====
-- What a pass leaves tracked, and what it leaves alone.
use domudns.Prelude.{
  ◌≡◌, refl, ap, ◌∙◌, Bool, true, false, not, ◌||◌, ◌&&◌, List, [], ◌∷◌, All, Option, Option-cases,
  some, inl, inr, Bool-cases, arith, text_beq, text_beq_iff, text_eq, if◌then◌else◌,
}
use domudns.Assoc.{lookup, erase, has_key, has_key-insert, has_key-erase}
use domudns.Text.{Text}
use domudns.Net.{Ip}
use domudns.Dns.Zone.{Date}
use domudns.Dhcp.{
  Lease, TrackedLease, Tracked, DhcpStore, SyncConfig, Synced, remove_gone, track, process_lease,
  process_leases, apply_lease_diff, delete_tracked_records, create_records,
}

abbrev pub LeaseMap : Type 0
LeaseMap = List (Text × Lease)

-- Each lease of a list is one of the map.
abbrev InMap : LeaseMap → LeaseMap → Type 0
InMap new_map = All (λ e. has_key e.0 new_map ≡ true)

InMap-more : (e : Text × Lease) (m rest : LeaseMap) → InMap m rest → InMap (e ∷ m) rest
unfolding has_key
InMap-more e m [] h = tt
InMap-more e m (x ∷ rest) h = (ground (arith, h.0), InMap-more e m rest h.1)

InMap-self : (m : LeaseMap) → InMap m m
unfolding has_key
InMap-self [] = tt
InMap-self (e ∷ m) = (ground (arith, text_beq_iff e.0 e.0), InMap-more e m m (InMap-self m))

other_key :
    (ip j : Text) (new_map : LeaseMap)
    → has_key j new_map ≡ false
    → (not (has_key ip new_map) || not (text_beq ip j)) ≡ true
other_key ip j new_map unleased = elim (Bool-cases (text_beq ip j)) [
  | inr other ↦ ground (arith, other)
  | inl same ↦
      let e : ip ≡ j = ground (arith, text_beq_iff ip j) in
      let none_there = ap (λ k. has_key k new_map) e ∙ unleased in ground (arith, none_there)
]

kept_or_gone :
    (ip j : Text) (rest state : Tracked) (leased : Bool)
    → (not leased || not (text_beq ip j)) ≡ true
    → (has_key j (if leased then state else erase ip state) && not (has_key j rest))
      ≡ (has_key j state && not (text_beq ip j || has_key j rest))
kept_or_gone ip j rest state true other = ground arith
kept_or_gone ip j rest state false other = ground (arith, has_key-erase ip j state)

module _ (parse_ip : Text → Option Ip) (today : Date) (S : Type 0) (store : DhcpStore S)
    (cfg : SyncConfig) where
  state_of_either :
      (t : Bool) (y g : Synced S) → (if t then y else g).state ≡ (if t then y.state else g.state)
  state_of_either true y g = refl
  state_of_either false y g = refl

  gone-has_key :
      (new_map : LeaseMap) (zone j : Text) (rest : Tracked) (y : Synced S)
      → has_key j new_map ≡ false
      → has_key j (remove_gone parse_ip today S store cfg new_map zone rest y).state
        ≡ (has_key j y.state && not (has_key j rest))
  unfolding remove_gone has_key
  gone-has_key new_map zone j [] y unleased = ground arith
  gone-has_key new_map zone j ((ip, tracked) ∷ rest) y unleased =
      let leased = has_key ip new_map in
      let gone : Synced S = record {
        store = delete_tracked_records parse_ip today S store cfg y.store tracked zone;
        state = erase ip y.state;
        changed = true;
      } in
      gone-has_key new_map zone j rest (if leased then y else gone) unleased
      ∙ ap (λ m. has_key j m && not (has_key j rest)) (state_of_either leased y gone)
      ∙ kept_or_gone ip j rest y.state leased (other_key ip j new_map unleased)

  track-has_key :
      (ip j : Text) (lease : Lease) (s : S) (y : Synced S)
      → text_beq ip j ≡ false
      → has_key j (track parse_ip today S store cfg ip lease s y).state ≡ has_key j y.state
  unfolding track
  track-has_key ip j lease s y other =
      elim (Option-cases (create_records parse_ip today S store cfg s lease).1) [
        | inl failed ↦ rw (failed, track) refl
        | inr (tracked, made) ↦
            rw (made, track) (has_key-insert ip j tracked y.state ∙ rw other refl)
      ]

  process_lease-has_key :
      (zone ip j : Text) (lease : Lease) (y : Synced S)
      → text_beq ip j ≡ false
      → has_key j (process_lease parse_ip today S store cfg zone ip lease y).state
        ≡ has_key j y.state
  unfolding process_lease
  process_lease-has_key zone ip j lease y other = elim (Option-cases (lookup ip y.state)) [
    | inl new ↦ rw (new, process_lease) (track-has_key ip j lease y.store y other)
    | inr (tracked, old) ↦ elim (Bool-cases (text_beq tracked.hostname lease.hostname)) [
      | inl same ↦ rw (old, process_lease, same) refl
      | inr renamed ↦
          rw (old, process_lease, renamed)
            (track-has_key ip j lease
              (delete_tracked_records parse_ip today S store cfg y.store tracked zone) y other)
    ]
  ]

  process_leases-has_key :
      (new_map : LeaseMap) (zone j : Text) (rest : LeaseMap) (y : Synced S)
      → has_key j new_map ≡ false
      → InMap new_map rest
      → has_key j (process_leases parse_ip today S store cfg zone rest y).state ≡ has_key j y.state
  unfolding process_leases
  process_leases-has_key new_map zone j [] y unleased inside = refl
  process_leases-has_key new_map zone j ((ip, lease) ∷ rest) y unleased inside =
      let other : text_beq ip j ≡ false =
        ground (arith, other_key ip j new_map unleased, inside.0) in
      process_leases-has_key new_map zone j rest
        (process_lease parse_ip today S store cfg zone ip lease y) unleased inside.1
      ∙ process_lease-has_key zone ip j lease y other

  -- After the records are brought in line with the leases, no address is tracked that has no lease,
  -- whatever was tracked before and whichever operations of the store failed.
  pub apply_lease_diff-leased :
      (s : S) (state : Tracked) (new_map : LeaseMap) (zone j : Text)
      → has_key j new_map ≡ false
      → has_key j (apply_lease_diff parse_ip today S store cfg s state new_map zone).state ≡ false
  unfolding apply_lease_diff
  apply_lease_diff-leased s state new_map zone j unleased =
      let start : Synced S = record { store = s; state = state; changed = false } in
      process_leases-has_key new_map zone j new_map
        (remove_gone parse_ip today S store cfg new_map zone state start) unleased
        (InMap-self new_map)
      ∙ gone-has_key new_map zone j state start unleased
      ∙ ground arith

  -- A lease that is tracked under its own hostname
  abbrev pub IsTracked : Tracked → Text × Lease → Type 0
  IsTracked state e =
      (t : TrackedLease) × (lookup e.0 state ≡ some t) × (text_beq t.hostname e.1.hostname ≡ true)

  none_gone :
      (new_map : LeaseMap) (zone : Text) (rest : Tracked) (y : Synced S)
      → All (λ e. has_key e.0 new_map ≡ true) rest
      → remove_gone parse_ip today S store cfg new_map zone rest y ≡ y
  unfolding remove_gone
  none_gone new_map zone [] y leased = refl
  none_gone new_map zone ((ip, tracked) ∷ rest) y leased =
      rw leased.0 (none_gone new_map zone rest y leased.1)

  none_new :
      (zone : Text) (rest : LeaseMap) (y : Synced S)
      → All (IsTracked y.state) rest
      → process_leases parse_ip today S store cfg zone rest y ≡ y
  unfolding process_leases process_lease
  none_new zone [] y known = refl
  none_new zone ((ip, lease) ∷ rest) y known =
      let (t, here, same) = known.0 in
      let unchanged : process_lease parse_ip today S store cfg zone ip lease y ≡ y =
        rw (here, process_lease, same) refl in
      ap (process_leases parse_ip today S store cfg zone rest) unchanged
      ∙ none_new zone rest y known.1

  -- Where each tracked address has a lease, and each lease is tracked under its hostname, a pass
  -- leaves the store and what is tracked as they are, and reports no change.
  pub apply_lease_diff-stable :
      (s : S) (state : Tracked) (new_map : LeaseMap) (zone : Text)
      → All (λ e. has_key e.0 new_map ≡ true) state
      → All (IsTracked state) new_map
      → apply_lease_diff parse_ip today S store cfg s state new_map zone
        ≡ record { store = s; state = state; changed = false }
  unfolding apply_lease_diff
  apply_lease_diff-stable s state new_map zone leased known =
      let start : Synced S = record { store = s; state = state; changed = false } in
      ap (process_leases parse_ip today S store cfg zone new_map)
        (none_gone new_map zone state start leased)
      ∙ none_new zone new_map start known
