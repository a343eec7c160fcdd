-- ===== src/Dns/Zone.antt =====
-- Zones and their serial numbers (internal/dns/zone.go). The date is an argument.
use domudns.Prelude.{
  ℕ, ◌+◌, ◌*◌, ◌%◌, ◌^◌, ◌≤◌, ◌<◌, ◌≡◌, false, List, [], ◌∷◌, ◌++◌, Option, none, some, All, ltb,
  ◌==◌, length, arith, if◌then◌else◌,
}
use domudns.Prelude.Int.{ℤ}
use domudns.Text.{Text, codes}
use domudns.Dns.Record.{Record}

pub record Soa : Type 0 where
  pub mname : Text
  pub rname : Text
  pub serial : ℕ
  pub refresh : ℕ
  pub retry : ℕ
  pub expire : ℕ
  pub minimum : ℕ

pub record Zone : Type 0 where
  pub domain : Text
  pub view : Text
  pub ttl : ℤ
  pub ttl_override : ℤ
  pub nameservers : List Text
  pub records : List Record
  pub soa : Option Soa

-- The part of time.Now() that a serial is made of.
pub record Date : Type 0 where
  pub year : ℕ
  pub month : ℕ
  pub day : ℕ

abbrev pub u32_mod : ℕ
u32_mod = 2 ^ 32

unfoldable pub default_soa : Date → Text → Soa
default_soa t domain =
    let today = (t.year * 10000 + t.month * 100 + t.day) % u32_mod in
    let serial = if ltb today 20200101 then 20200101 else today in
    record {
      mname = codes "ns1." ++ domain;
      rname = codes "hostmaster." ++ domain;
      serial = (serial * 100) % u32_mod;
      refresh = 3600;
      retry = 1800;
      expire = 604800;
      minimum = 300;
    }

-- `none` stands for the nil pointer.
unfoldable pub ensure_soa : Date → Zone → Zone
ensure_soa t z = elim (z.soa) [
  | some soa ↦ z
  | none ↦ if length z.domain == 0 then z else record z { soa = some (default_soa t z.domain) }
]

unfoldable pub increment_serial : Date → Soa → Soa
increment_serial t s =
    let today = (t.year * 1000000 + t.month * 10000 + t.day * 100) % u32_mod in
    if ltb s.serial today
    then record s { serial = (today + 1) % u32_mod }
    else record s { serial = (s.serial + 1) % u32_mod }

unfoldable pub find_record : ℕ → List Record → Option Record
find_record id [] = none
find_record id (r ∷ rs) = if r.id == id then some r else find_record id rs

abbrev pub record_by_id : Zone → ℕ → Option Record
record_by_id z id = find_record id z.records

-- the loop over the records, with its `max`
unfoldable pub max_id : ℕ → List Record → ℕ
max_id max [] = max
max_id max (r ∷ rs) = max_id (if ltb max r.id then r.id else max) rs

-- Where an identifier is the greatest `int`, the code's sum wraps; here it does not.
unfoldable pub next_record_id : Zone → ℕ
unfolding max_id
next_record_id z = max_id 0 z.records + 1

pub le-max_id : (m : ℕ) (rs : List Record) → m ≤ max_id m rs
unfolding max_id
le-max_id m [] = omega arith
le-max_id m (r ∷ rs) = ground (arith, le-max_id (if ltb m r.id then r.id else m) rs)

max_id-All : (m : ℕ) (rs : List Record) → All (λ r. r.id ≤ max_id m rs) rs
unfolding max_id
max_id-All m [] = tt
max_id-All m (r ∷ rs) = (
  ground (arith, le-max_id (if ltb m r.id then r.id else m) rs),
  max_id-All (if ltb m r.id then r.id else m) rs,
)

-- No record of a list has the identifier.
abbrev pub Unused : ℕ → List Record → Type 0
Unused id = All (λ r. (r.id == id) ≡ false)

above-Unused : (m : ℕ) (rs : List Record) → All (λ r. r.id ≤ m) rs → Unused (m + 1) rs
above-Unused m [] a = tt
above-Unused m (r ∷ rs) a = (ground arith, above-Unused m rs a.1)

-- NextRecordID is positive and no record of the zone has it.
pub next_record_id-Unused :
    (z : Zone) → (0 < next_record_id z) × Unused (next_record_id z) z.records
unfolding next_record_id
next_record_id-Unused z =
    (omega arith, above-Unused (max_id 0 z.records) z.records (max_id-All 0 z.records))

-- Where the serial and the number of the day are below the greatest 32-bit number, IncrementSerial
-- makes the serial greater, without going beyond 32 bits, and it reaches the number of the day if
-- that lies ahead.
pub increment_serial-lt :
    (t : Date) (s : Soa)
    → s.serial + 1 < u32_mod
    → (t.year * 1000000 + t.month * 10000 + t.day * 100) + 1 < u32_mod
    → (s.serial < (increment_serial t s).serial)
      × (t.year * 1000000 + t.month * 10000 + t.day * 100 ≤ (increment_serial t s).serial)
      × ((increment_serial t s).serial < u32_mod)
unfolding increment_serial
increment_serial-lt t s h k = ground arith
