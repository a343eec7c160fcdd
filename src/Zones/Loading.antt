-- ===== src/Zones/Loading.antt =====
-- What Load leaves in memory: for each name and view the last zone of the store's list.
use domudns.Prelude.{
  ◌≡◌, refl, ap, ◌∙◌, true, false, ◌&&◌, List, [], ◌∷◌, length, Option, none, some, ◌==◌, text_beq,
  text_beq_iff, text_eq, if◌then◌else◌, arith,
}
use domudns.Assoc.{lookup, insert, lookup-insert}
use domudns.Text.{Text, normalize_name}
use domudns.Dns.Zone.{Zone}
use domudns.Zones.{ZoneManager, empty, views_of, add_zone, add_zones, load, find_by_name}

-- The last zone of a list with a name and a view, or else the one at hand.
abbrev pub last_zone : Text → Text → List Zone → Option Zone → Option Zone
last_zone domain view [] found = found
last_zone domain view (z ∷ zs) found =
    last_zone domain view zs
      (if text_beq (normalize_name z.domain) domain && text_beq z.view view then some z else found)

is_empty : (s : Text) → (length s == 0) ≡ text_beq s []
is_empty [] = refl
is_empty (c ∷ s) = ground arith

add_zone-zones :
    (m : ZoneManager) (z : Zone) (d : Text)
    → lookup d (add_zone m z).zones ≡ (
        if text_beq (normalize_name z.domain) d && text_beq z.view []
        then some z
        else lookup d m.zones)
unfolding add_zone
add_zone-zones m z d =
    ground (arith, is_empty z.view, lookup-insert (normalize_name z.domain) d z m.zones)

nonempty : (v : Text) → (length v == 0) ≡ false → text_beq [] v ≡ false
nonempty [] h = absurd (ground arith)
nonempty (c ∷ v) h = refl

views_of-insert :
    (m : ZoneManager) (k d : Text) (views : List (Text × Zone))
    → views_of (record m { view_zones = insert k views m.view_zones }) d
      ≡ (if text_beq k d then views else views_of m d)
views_of-insert m k d views = ground (arith, lookup-insert k d views m.view_zones)

view_test : (s v : Text) → (length s == 0) ≡ true → (length v == 0) ≡ false → text_beq s v ≡ false
view_test [] [] h k = absurd (ground arith)
view_test [] (c ∷ v) h k = refl
view_test (c ∷ s) v h k = absurd (ground arith)

add_zone-views :
    (m : ZoneManager) (z : Zone) (d v : Text)
    → (length v == 0) ≡ false
    → lookup v (views_of (add_zone m z) d) ≡ (
        if text_beq (normalize_name z.domain) d && text_beq z.view v
        then some z
        else lookup v (views_of m d))
unfolding add_zone
add_zone-views m z d v h =
    let name = normalize_name z.domain in
    ground (
      arith,
      view_test z.view v,
      text_beq_iff name d,
      views_of-insert m name d (insert z.view z (views_of m name)),
      lookup-insert z.view v z (views_of m name),
    )

add_zones-zones :
    (m : ZoneManager) (zs : List Zone) (d : Text)
    → lookup d (add_zones m zs).zones ≡ last_zone d [] zs (lookup d m.zones)
unfolding add_zones
add_zones-zones m [] d = refl
add_zones-zones m (z ∷ zs) d =
    add_zones-zones (add_zone m z) zs d ∙ ap (last_zone d [] zs) (add_zone-zones m z d)

add_zones-views :
    (m : ZoneManager) (zs : List Zone) (d v : Text)
    → (length v == 0) ≡ false
    → lookup v (views_of (add_zones m zs) d) ≡ last_zone d v zs (lookup v (views_of m d))
unfolding add_zones
add_zones-views m [] d v h = refl
add_zones-views m (z ∷ zs) d v h =
    add_zones-views (add_zone m z) zs d v h ∙ ap (last_zone d v zs) (add_zone-views m z d v h)

-- After Load a client without a view finds under a normalized name the last default zone of the
-- store's list with that name; a client with a view finds the last zone of its view, or else that
-- default zone. What was in memory before has no part in it.
pub find_by_name-load :
    (m : ZoneManager) (zs : List Zone) (view domain : Text)
    → find_by_name (load m (some zs)) view domain ≡ (
        if length view == 0
        then last_zone domain [] zs none
        else elim (last_zone domain view zs none) [
          | some z ↦ some z
          | none ↦ last_zone domain [] zs none
        ])
unfolding find_by_name load lookup
find_by_name-load m zs view domain =
    ground (arith, add_zones-zones empty zs domain, add_zones-views empty zs domain view)
