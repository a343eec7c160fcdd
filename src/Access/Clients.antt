-- ===== src/Access/Clients.antt =====
-- Groups of clients and views: which one a client gets, and what a view can see.
use domudns.Prelude.{
  ◌⊎◌, ◌≡◌, refl, ap, Bool, true, false, ◌||◌, List, [], ◌∷◌, ◌++◌, all, select, map, length, ◌==◌,
  Option, none, some, Option-cases, is_some, if◌then◌else◌, inl, inr, arith, Bool-cases, text_eq,
}
use domudns.Assoc.{lookup}
use domudns.Text.{Text, dot, join, split, normalize_name}
use domudns.Dns.Zone.{Zone}
use domudns.Net.{Ip, NetParsers, nets_contain}
use domudns.Zones.{ZoneManager, find_by_name, find_parent, find_zone, views_of}
use domudns.Access.{
  ClientGroup, ResolvedGroup, SplitHorizonConfig, SplitHorizonView, default_categories, first_view,
  get_categories, get_view, group_networks, resolve_groups, update_groups,
}

-- Two zone managers agree on what a view sees: the default zones, and the zones of that view.
abbrev pub Agree : Text → ZoneManager → ZoneManager → Type 0
Agree view m m' =
    (m.zones ≡ m'.zones)
    × ((domain : Text)
        → (if length view == 0 then none else lookup view (views_of m domain))
          ≡ (if length view == 0 then none else lookup view (views_of m' domain)))

-- The parent zones of a name of these labels.
abbrev parent_of : ZoneManager → Text → List Text → Option (Zone × Text)
parent_of m view [] = none
parent_of m view (p ∷ rest) = find_parent m view (p ∷ []) rest

module _ (m m' : ZoneManager) (view : Text) (agree : Agree view m m') where
  same_name : (domain : Text) → find_by_name m view domain ≡ find_by_name m' view domain
  unfolding find_by_name
  same_name domain = elim (Bool-cases (length view == 0)) [
    | inl unseen ↦ rw unseen (ap (λ zs. lookup domain zs) agree.0)
    | inr seen ↦ ground (arith, agree.1 domain, ap (λ zs. lookup domain zs) agree.0)
  ]

  same_parent :
      (front rest : List Text) → find_parent m view front rest ≡ find_parent m' view front rest
  unfolding find_parent
  same_parent front [] = refl
  same_parent front (p ∷ rest) =
      ground (arith, same_name (join (p ∷ rest) dot), same_parent (front ++ p ∷ []) rest)

  -- What FindZone answers a client depends only on the default zones and the zones of the
  -- client's own view: the zones of other views have no part in it, and a client without a view
  -- sees no zone of any view.
  pub find_zone-Agree : (qname : Text) → find_zone m view qname ≡ find_zone m' view qname
  unfolding find_zone
  find_zone-Agree qname =
      let below = parents (split (normalize_name qname) dot) in
      ground (arith, same_name (normalize_name qname), below)
    where
      parents : (labels : List Text) → parent_of m view labels ≡ parent_of m' view labels
      parents [] = refl
      parents (p ∷ rest) = same_parent (p ∷ []) rest

abbrev pub first_or {ℓ} : {A : Type ℓ} → A → List A → A
first_or d [] = d
first_or d (x ∷ xs) = x

-- A view takes an address if it has no subnets, or one that holds the address.
abbrev pub takes : Ip → SplitHorizonView → Bool
takes ip v = (length v.subnets == 0) || nets_contain v.subnets ip

views_first :
    (views : List SplitHorizonView) (ip : Ip)
    → first_view views ip ≡ first_or [] (map (λ v. v.name) (select (takes ip) views))
unfolding first_view
views_first [] ip = refl
views_first (v ∷ views) ip = ground (arith, views_first views ip)

groups_first :
    (groups : List ResolvedGroup) (ip : Ip)
    → get_categories groups ip
      ≡ first_or default_categories
          (map (λ g. g.categories) (select (λ g. nets_contain g.nets ip) groups))
unfolding get_categories
groups_first [] ip = refl
groups_first (g ∷ groups) ip = ground (arith, groups_first groups ip)

-- The first match wins: a client has the name of the first view that takes its address, or none if
-- split horizon is off or no view does, and the categories of the first group with its address, or
-- the default ones.
pub get_view-select :
    (cfg : SplitHorizonConfig) (groups : List ResolvedGroup) (ip : Ip)
    → (get_view cfg (some ip) ≡ (
        if cfg.enabled then first_or [] (map (λ v. v.name) (select (takes ip) cfg.views)) else []))
      × (get_categories groups ip
          ≡ first_or default_categories
              (map (λ g. g.categories) (select (λ g. nets_contain g.nets ip) groups)))
unfolding get_view
get_view-select cfg groups ip = (ground (arith, views_first cfg.views ip), groups_first groups ip)

module _ (net : NetParsers) where
  -- Every network of the group is one that net.ParseCIDR takes.
  abbrev pub is_valid_group : ClientGroup → Bool
  is_valid_group g = all (λ c. is_some (net.parse_cidr c)) g.cidrs

  networks_cases :
      (cidrs : List Text)
      → (all (λ c. is_some (net.parse_cidr c)) cidrs ≡ is_some (group_networks net cidrs))
  unfolding group_networks
  networks_cases [] = refl
  networks_cases (c ∷ cidrs) = elim (Option-cases (net.parse_cidr c)) [
    | inl bad ↦ ground arith
    | inr (n, good) ↦ elim (Option-cases (group_networks net cidrs)) [
      | inl bad ↦ ground (arith, networks_cases cidrs)
      | inr (ns, fine) ↦ ground (arith, networks_cases cidrs)
    ]
  ]

  resolve_cases :
      (groups : List ClientGroup)
      → ((resolve_groups net groups ≡ none) × (all is_valid_group groups ≡ false))
        ⊎ ((gs : List ResolvedGroup) × (resolve_groups net groups ≡ some gs)
            × (all is_valid_group groups ≡ true)
            × (map (λ g. g.name) gs ≡ map (λ g. g.name) groups)
            × (map (λ g. g.categories) gs ≡ map (λ g. g.categories) groups))
  unfolding resolve_groups
  resolve_cases [] = inr ([], refl, refl, refl, refl)
  resolve_cases (g ∷ groups) = elim (Option-cases (group_networks net g.cidrs)) [
    | inl bad ↦ inl (ground arith, ground (arith, networks_cases g.cidrs))
    | inr (ns, good) ↦ elim (resolve_cases groups) [
      | inl (bad, invalid) ↦ inl (ground arith, ground arith)
      | inr (gs, at_gs, valid, names, cats) ↦ inr (
        record { name = g.name; nets = ns; categories = g.categories } ∷ gs,
        ground arith,
        ground (arith, networks_cases g.cidrs),
        ap (◌∷◌ g.name) names,
        ap (◌∷◌ g.categories) cats,
      )
    ]
  ]

  -- Update takes all groups or none: if one network of one group is invalid it fails and keeps the
  -- groups it had; otherwise it succeeds with the new groups, in order, with their names and
  -- categories.
  pub update_groups-all :
      (old : List ResolvedGroup) (groups : List ClientGroup)
      → ((update_groups net old groups ≡ (old, false)) × (all is_valid_group groups ≡ false))
        ⊎ (((update_groups net old groups).1 ≡ true)
            × (all is_valid_group groups ≡ true)
            × (map (λ g. g.name) (update_groups net old groups).0 ≡ map (λ g. g.name) groups)
            × (map (λ g. g.categories) (update_groups net old groups).0
                ≡ map (λ g. g.categories) groups))
  unfolding update_groups
  update_groups-all old groups = elim (resolve_cases groups) [
    | inl (bad, invalid) ↦ inl (rw (bad, update_groups), invalid)
    | inr (gs, at_gs, valid, names, cats) ↦ inr (
      rw (at_gs, update_groups),
      valid,
      rw (at_gs, update_groups) names,
      rw (at_gs, update_groups) cats,
    )
  ]
