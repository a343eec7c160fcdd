-- ===== src/Dhcp.antt =====
-- The records of DHCP leases (internal/dhcp/sync.go and types.go), over the operations of DHCPStore.
-- The times, the file that keeps the state and the loop that repeats a pass are left out. A pass
-- ranges over maps, whose order Go leaves open; here it is that of the lists.
pub mod Hostnames
pub mod Passes
use domudns.Prelude.{
  ℕ, zero, suc, ◌+◌, ◌-◌, ◌*◌, Bool, true, false, not, ◌||◌, ◌&&◌, List, [], ◌∷◌, ◌++◌, map, length,
  take, drop, ltb, leb, ◌==◌, Option, none, some, text_beq, text_eq, if◌then◌else◌,
}
use domudns.Prelude.Int.{ℤ, pos}
use domudns.Assoc.{lookup, insert, erase, has_key}
use domudns.Text.{Text, codes, dot, has_prefix, lower_byte, contains_byte}
use domudns.Net.{Ip}
use domudns.Dns.Record.{Record, RecordType}
use domudns.Dns.Reverse.{reverse_zone_for_ip, ptr_name_for_ip}
use domudns.Dns.Zone.{Date, Zone, default_soa}

pub record Lease : Type 0 where
  pub mac : Text
  pub ip : Text
  pub hostname : Text

pub record TrackedLease : Type 0 where
  pub hostname : Text
  pub ip : Text
  pub mac : Text
  pub a_record_id : ℕ
  pub ptr_record_id : ℕ

abbrev pub hyphen : ℕ
hyphen = b'-'

-- What the regular expression [^a-z0-9-] does not match.
abbrev pub is_host_char : ℕ → Bool
is_host_char c = (leb b'a' c && leb c b'z') || ((leb b'0' c && leb c b'9') || (c == hyphen))

abbrev pub replace_char : ℕ → ℕ
replace_char c = if is_host_char c then c else hyphen

-- The text before the first dot; a dot at the front does not count.
unfoldable pub before_dot : Text → Text
before_dot [] = []
before_dot (c ∷ s) = let rest = before_dot s in if c == dot then [] else c ∷ rest

-- strings.ToLower, as far as the regular expression tells its results apart: of the letters beyond
-- ASCII, only the Kelvin sign (bytes 226 132 170) and the capital I with a dot (196 176) have an ASCII
-- letter in lower case.
unfoldable pub lower_runes : Text → Text
lower_runes [] = []
lower_runes (c ∷ s) =
    let rest = lower_runes s in
    if (c == 226) && has_prefix s (132 ∷ 170 ∷ [])
    then b'k' ∷ drop 2 rest
    else if (c == 196) && has_prefix s (176 ∷ [])
    then b'i' ∷ drop 1 rest
    else lower_byte c ∷ rest

unfoldable pub cut_domain : Text → Text
cut_domain [] = []
cut_domain (c ∷ s) = if c == dot then c ∷ s else before_dot (c ∷ s)

-- strings.Contains(name, "--")
unfoldable pub has_double : Text → Bool
has_double [] = false
has_double (c ∷ []) = false
has_double (c ∷ d ∷ s) = ((c == hyphen) && (d == hyphen)) || has_double (d ∷ s)

-- strings.ReplaceAll(name, "--", "-")
unfoldable pub replace_double : Text → Text
replace_double [] = []
replace_double (c ∷ []) = c ∷ []
replace_double (c ∷ d ∷ s) =
    let behind = replace_double s in
    let next = replace_double (d ∷ s) in
    if (c == hyphen) && (d == hyphen) then hyphen ∷ behind else c ∷ next

-- The loop, for which the length of the text is fuel enough
unfoldable pub collapse_hyphens : ℕ → Text → Text
collapse_hyphens zero s = s
collapse_hyphens (suc n) s =
    let rest = collapse_hyphens n (replace_double s) in if has_double s then rest else s

unfoldable pub trim_left_hyphens : Text → Text
trim_left_hyphens [] = []
trim_left_hyphens (c ∷ s) = let rest = trim_left_hyphens s in if c == hyphen then rest else c ∷ s

-- A byte before what is left behind it
unfoldable pub before_trimmed : ℕ → Text → Text
before_trimmed c [] = if c == hyphen then [] else c ∷ []
before_trimmed c (d ∷ t) = c ∷ d ∷ t

unfoldable pub trim_right_hyphens : Text → Text
trim_right_hyphens [] = []
trim_right_hyphens (c ∷ s) = before_trimmed c (trim_right_hyphens s)

unfoldable pub limit_label : Text → Text
limit_label name = if ltb 63 (length name) then trim_right_hyphens (take 63 name) else name

unfoldable pub sanitize_hostname : Text → Text
sanitize_hostname name =
    if (length name == 0) || text_beq name (codes "*")
    then []
    else let replaced = map replace_char (cut_domain (lower_runes name)) in
      let collapsed = collapse_hyphens (length replaced) replaced in
      limit_label (trim_right_hyphens (trim_left_hyphens collapsed))

unfoldable pub build_lease_map : List (Text × Lease) → List Lease → List (Text × Lease)
build_lease_map m [] = m
build_lease_map m (l ∷ leases) =
    let h = sanitize_hostname l.hostname in
    build_lease_map (if length h == 0 then m else insert l.ip (record l { hostname = h }) m) leases

-- DHCPStore; `none` is the error, after which the store is as it was. PutRecord sets the number of
-- the record.
pub record DhcpStore (S : Type 0) : Type 0 where
  pub has_zone : S → Text → Bool
  pub put_zone : S → Zone → Option S
  pub put_record : S → Text → Record → Option (S × ℕ)
  pub delete_record : S → Text → ℕ → Option S

pub record SyncConfig : Type 0 where
  pub zone : Text
  pub reverse_zone : Text
  pub ttl : ℤ
  pub auto_create : Bool

pub record SyncStatus : Type 0 where
  pub failed : Bool
  pub lease_count : ℕ
  pub record_count : ℕ

abbrev pub Tracked : Type 0
Tracked = List (Text × TrackedLease)

pub record Synced (S : Type 0) : Type 0 where
  pub store : S
  pub state : Tracked
  pub changed : Bool

abbrev pub record_of : Text → RecordType → ℤ → Text → Record
record_of name rtype ttl value = record {
  id = 0;
  name = name;
  rtype = rtype;
  ttl = ttl;
  value = value;
  priority = pos 0;
  weight = pos 0;
  port = pos 0;
  tag = [];
}

module _ (parse_ip : Text → Option Ip) (today : Date) (S : Type 0) (store : DhcpStore S)
    (cfg : SyncConfig) where
  -- The store, and whether the zone is there.
  unfoldable pub ensure_zone : S → Text → S × Bool
  ensure_zone s domain =
      let zone : Zone = record {
        domain = domain;
        view = [];
        ttl = cfg.ttl;
        ttl_override = pos 0;
        nameservers = [];
        records = [];
        soa = some (default_soa today domain);
      } in
      if store.has_zone s domain
      then (s, true)
      else if not cfg.auto_create
      then (s, false)
      else elim (store.put_zone s zone) [ none ↦ (s, false) | some s' ↦ (s', true) ]

  -- The number of the PTR record, 0 if there is none
  unfoldable pub create_ptr : S → Lease → S × ℕ
  create_ptr s lease = elim (reverse_zone_for_ip parse_ip lease.ip) [
    | none ↦ (s, 0)
    | some ptr_zone ↦
        let (s', there) = ensure_zone s ptr_zone in
        let ptr =
          record_of (ptr_name_for_ip parse_ip lease.ip) RecordType.ptr cfg.ttl
            (lease.hostname ++ (dot ∷ cfg.zone)) in
        if not there
        then (s', 0)
        else elim (store.put_record s' ptr_zone ptr) [ none ↦ (s', 0) | some put ↦ put ]
  ]

  unfoldable pub create_records : S → Lease → S × Option TrackedLease
  create_records s lease =
      elim (store.put_record s cfg.zone (record_of lease.hostname RecordType.a cfg.ttl lease.ip)) [
        | none ↦ (s, none)
        | some (s', a_id) ↦
            let (s'', ptr_id) = create_ptr s' lease in
            let tracked : TrackedLease = record {
              hostname = lease.hostname;
              ip = lease.ip;
              mac = lease.mac;
              a_record_id = a_id;
              ptr_record_id = ptr_id;
            } in
            (s'', some tracked)
      ]

  abbrev pub or_same : S → Option S → S
  or_same s none = s
  or_same s (some s') = s'

  unfoldable pub delete_tracked_records : S → TrackedLease → Text → S
  delete_tracked_records s t reverse_zone =
      let s' =
        if ltb 0 t.a_record_id
        then or_same s (store.delete_record s cfg.zone t.a_record_id)
        else s in
      if ltb 0 t.ptr_record_id && not (length reverse_zone == 0)
      then or_same s' (store.delete_record s' reverse_zone t.ptr_record_id)
      else s'

  -- The loop over the tracked leases
  unfoldable pub remove_gone : List (Text × Lease) → Text → Tracked → Synced S → Synced S
  remove_gone new_map reverse_zone [] y = y
  remove_gone new_map reverse_zone ((ip, tracked) ∷ rest) y =
      let gone : Synced S = record {
        store = delete_tracked_records y.store tracked reverse_zone;
        state = erase ip y.state;
        changed = true;
      } in
      remove_gone new_map reverse_zone rest (if has_key ip new_map then y else gone)

  -- The records of a lease that is new or has another name
  unfoldable pub track : Text → Lease → S → Synced S → Synced S
  track ip lease s y =
      let made = create_records s lease in
      elim (made.1) [
        | none ↦ record y { store = made.0 }
        | some tracked ↦ record {
          store = made.0;
          state = insert ip tracked y.state;
          changed = true;
        }
      ]

  unfoldable pub process_lease : Text → Text → Lease → Synced S → Synced S
  process_lease reverse_zone ip lease y = elim (lookup ip y.state) [
    | none ↦ track ip lease y.store y
    | some tracked ↦
        if text_beq tracked.hostname lease.hostname
        then y
        else track ip lease (delete_tracked_records y.store tracked reverse_zone) y
  ]

  unfoldable pub process_leases : Text → List (Text × Lease) → Synced S → Synced S
  process_leases reverse_zone [] y = y
  process_leases reverse_zone ((ip, lease) ∷ rest) y =
      process_leases reverse_zone rest (process_lease reverse_zone ip lease y)

  unfoldable pub apply_lease_diff : S → Tracked → List (Text × Lease) → Text → Synced S
  apply_lease_diff s state new_map reverse_zone = process_leases reverse_zone new_map (
      remove_gone new_map reverse_zone state (record { store = s; state = state; changed = false }))

  -- The reverse zone of the settings, or that of the first lease
  unfoldable pub chosen_reverse_zone : List (Text × Lease) → Text
  chosen_reverse_zone new_map =
      if not (length cfg.reverse_zone == 0) then cfg.reverse_zone else elim new_map [
        | [] ↦ []
        | (ip, lease) ∷ rest ↦ elim (reverse_zone_for_ip parse_ip ip) [ none ↦ [] | some z ↦ z ]
      ]

  unfoldable pub ensure_sync_zones : S → List (Text × Lease) → S × Option Text
  ensure_sync_zones s new_map =
      let (s', there) = ensure_zone s cfg.zone in
      let reverse_zone = chosen_reverse_zone new_map in
      let (s'', reverse_there) = ensure_zone s' reverse_zone in
      if not there
      then (s', none)
      else if length reverse_zone == 0
      then (s', some [])
      else if not reverse_there
      then (s'', none)
      else (s'', some reverse_zone)

  -- A pass over what the parser gave; `none` is its error. It gives the status of the pass too.
  unfoldable pub sync_once : S → Tracked → SyncStatus → Option (List Lease) → Synced S × SyncStatus
  sync_once s state status none =
      (record { store = s; state = state; changed = false }, record status { failed = true })
  sync_once s state status (some leases) =
      let new_map = build_lease_map [] leases in
      let (s', zone) = ensure_sync_zones s new_map in
      elim zone [
        | none ↦
            (record { store = s'; state = state; changed = false }, record status { failed = true })
        | some reverse_zone ↦
            let y = apply_lease_diff s' state new_map reverse_zone in
            (
              y,
              record {
                failed = false;
                lease_count = length new_map;
                record_count = length y.state * 2;
              },
            )
      ]
