-- ===== src/Zones.antt =====
-- The zone manager (internal/dnsserver/zones.go): the zones in memory, and which one answers a name.
pub mod Find
pub mod Loading
pub mod Rr
pub mod Match
pub mod Chain
pub mod Response
use domudns.Prelude.{
  ℕ, ◌+◌, Bool, List, [], ◌∷◌, ◌++◌, Option, none, some, ◌==◌, length, text_beq, text_eq,
  if◌then◌else◌,
}
use domudns.Assoc.{lookup, insert}
use domudns.Text.{Text, codes, dot, split, join, normalize_name}
use domudns.Dns.Zone.{Zone}

pub record ZoneManager : Type 0 where
  pub zones : List (Text × Zone)
  pub view_zones : List (Text × List (Text × Zone))

abbrev pub empty : ZoneManager
empty = record { zones = []; view_zones = [] }

-- `views[normalized]`, with the nil map of a missing key
abbrev pub views_of : ZoneManager → Text → List (Text × Zone)
views_of m domain = elim (lookup domain m.view_zones) [ none ↦ [] | some views ↦ views ]

-- one round of the loop of Load
unfoldable pub add_zone : ZoneManager → Zone → ZoneManager
add_zone m z =
    let domain = normalize_name z.domain in
    if length z.view == 0
    then record m { zones = insert domain z m.zones }
    else record m { view_zones = insert domain (insert z.view z (views_of m domain)) m.view_zones }

unfoldable pub add_zones : ZoneManager → List Zone → ZoneManager
add_zones m [] = m
add_zones m (z ∷ zs) = add_zones (add_zone m z) zs

-- Load, given what `store.ListZones` returned; `none` is its error, which leaves the zones alone.
unfoldable pub load : ZoneManager → Option (List Zone) → ZoneManager
load m none = m
load m (some zs) = add_zones empty zs

unfoldable pub find_by_name : ZoneManager → Text → Text → Option Zone
find_by_name m client_view domain =
    let in_view = lookup client_view (views_of m domain) in
    let default_zone = lookup domain m.zones in
    if length client_view == 0
    then default_zone
    else elim in_view [ some z ↦ some z | none ↦ default_zone ]

-- The loop over the parent names: `front` is `parts[:i]`, and the other list is `parts[i:]`.
unfoldable pub find_parent : ZoneManager → Text → List Text → List Text → Option (Zone × Text)
find_parent m client_view front [] = none
find_parent m client_view front (p ∷ rest) =
    elim (find_by_name m client_view (join (p ∷ rest) dot)) [
      | some z ↦ some (z, join front dot)
      | none ↦ find_parent m client_view (front ++ p ∷ []) rest
    ]

-- The zone and the name below it, "@" for the zone's own name.
unfoldable pub find_zone : ZoneManager → Text → Text → Option (Zone × Text)
find_zone m client_view qname =
    let normalized = normalize_name qname in
    elim (find_by_name m client_view normalized) [
      | some z ↦ some (z, codes "@")
      | none ↦ elim (split normalized dot) [
        | [] ↦ none
        | p ∷ rest ↦ find_parent m client_view (p ∷ []) rest
      ]
    ]

-- Stats
unfoldable pub count_views : List (Text × List (Text × Zone)) → ℕ
count_views [] = 0
count_views ((d, views) ∷ m) = length views + count_views m

unfoldable pub stats : ZoneManager → ℕ × ℕ
unfolding count_views
stats m = (length m.zones, count_views m.view_zones)
