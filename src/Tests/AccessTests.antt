-- ===== src/Tests/AccessTests.antt =====
-- Access control, groups of clients, views and the rebinding filter.
use domudns.Prelude.{
  ◌≡◌, inl, inr, refl, sym, ap, ◌∙◌, true, false, [], ◌∷◌, ◌++◌, none, some, text_beq, text_beq_iff,
  arith, if◌then◌else◌, Bool-cases,
}
use domudns.Text.{
  Text, codes, contains_byte, trim_space, normalize_name, has_suffix, trim_suffix, lower_byte,
}
use domudns.Net.{Ip, v4, v6, net4, NetParsers, octets}
use domudns.Mdns.{Msg, Rdata}
use domudns.Zones.{ZoneManager, find_zone}
use domudns.Access.{
  ClientGroup, ResolvedGroup, SplitHorizonConfig, first_view, get_view, is_private_rdata,
  is_rebinding_attack, is_whitelisted, new_rebinding_config,
}
use domudns.Access.Networks.{NetLaws}
use domudns.Access.Clients.{Agree, find_zone-Agree}
use domudns.Tests.Samples.{manager, zone, blank}

-- Parsers that know one address and the network of it alone.
abbrev nine : Text
nine = codes "9.9.9.9"

abbrev one_address : NetParsers
one_address = record {
  parse_ip = λ s. if text_beq s nine then some (v4 (octets 9 9 9 9)) else none;
  parse_cidr =
      λ s. if text_beq s (codes "9.9.9.9/32") then some (net4 (octets 9 9 9 9) 32) else none;
  split_host = λ s. none;
}

is_nine :
    (s : Text) (ip : Ip)
    → one_address.parse_ip s ≡ some ip
    → (s ≡ nine) × (ip ≡ v4 (octets 9 9 9 9))
is_nine s ip h = elim (Bool-cases (text_beq s nine)) [
  | inl same ↦ ((text_beq_iff s nine).0 same, ground arith)
  | inr other ↦ absurd (ground arith)
]

slash_network : (s : Text) → contains_byte s b'/' ≡ false → one_address.parse_cidr s ≡ none
slash_network s h = elim (Bool-cases (text_beq s (codes "9.9.9.9/32"))) [
  | inl same ↦ absurd (
      ground
        (arith, h, ap (λ t. contains_byte t b'/') ((text_beq_iff s (codes "9.9.9.9/32")).0 same)))
  | inr other ↦ rw other
]

one_address_laws : NetLaws one_address
one_address_laws = record {
  address_slashless = λ s ip h. ap (λ t. contains_byte t b'/') (is_nine s ip h).0;
  network_slash = slash_network;
  single_v4 = λ s n h.
      ap (λ t. one_address.parse_cidr (t ++ codes "/32")) (is_nine s (v4 n) h).0
      ∙ ap (λ ip. some (elim ip [ v4 k ↦ net4 k 32 | v6 k ↦ net4 k 32 ]))
          (sym (is_nine s (v4 n) h).1);
  single_v6 = λ s n h. absurd (ground (arith, (is_nine s (v6 n) h).1));
}

-- The sample zone with one more zone for the guests.
abbrev with_guests : ZoneManager
with_guests = record manager {
  view_zones = (codes "example.com", (codes "guests", zone) ∷ []) ∷ [];
}

agree : Agree [] manager with_guests
agree = (refl, λ domain. refl)

find_zone-Agree_example :
    find_zone manager [] (codes "www.example.com")
    ≡ find_zone with_guests [] (codes "www.example.com")
find_zone-Agree_example = find_zone-Agree manager with_guests [] agree (codes "www.example.com")

abbrev views : SplitHorizonConfig
views = record {
  enabled = true;
  views =
      record { name = codes "lan"; subnets = net4 (octets 192 168 0 0) 16 ∷ [] }
      ∷ record { name = codes "world"; subnets = [] }
      ∷ [];
}

abbrev kids : ResolvedGroup
kids = record {
  name = codes "kids";
  nets = net4 (octets 192 168 7 0) 24 ∷ [];
  categories = codes "adult" ∷ [];
}

two_views :
    (get_view views (some (v4 (octets 192 168 7 7))) ≡ codes "lan")
    × (get_view views (some (v4 (octets 9 9 9 9))) ≡ codes "world")
unfolding get_view first_view
two_views = (refl, refl)

abbrev wrong_group : ClientGroup
wrong_group = record { name = codes "kids"; cidrs = codes "nonsense" ∷ []; categories = [] }

-- An answer that points at the router, for a foreign name and for one that is exempt.
abbrev pointing_inside : Msg
pointing_inside = record blank {
  answer =
      record {
        hdr = record { name = codes "evil.example."; rrtype = 1; class = 1; ttl = 1 };
        rdata = Rdata.a (v4 (octets 192 168 1 1));
      }
      ∷ [];
}

rebound :
    (is_rebinding_attack
        (new_rebinding_config true (codes " Home.example. " ∷ []))
        (codes "evil.example.")
        (some pointing_inside)
      ≡ true)
    × (is_rebinding_attack
          (new_rebinding_config true (codes " Home.example. " ∷ []))
          (codes "nas.home.example.")
          (some pointing_inside)
        ≡ false)
unfolding is_rebinding_attack new_rebinding_config is_whitelisted is_private_rdata normalize_name
    trim_suffix has_suffix trim_space lower_byte
rebound = (refl, refl)
