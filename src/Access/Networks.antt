-- ===== src/Access/Networks.antt =====
-- The two parsers of lists of networks, and what an access control list allows.
use domudns.Prelude.{
  ℕ, ◌≤◌, ◌≡◌, refl, Bool, true, false, List, [], ◌∷◌, ◌++◌, any, All, length, ◌==◌, Option, none,
  some, Option-cases, if◌then◌else◌, inl, inr, arith, Bool-cases, is_some,
}
use domudns.Text.{Text, codes, contains_byte, trim_space}
use domudns.Net.{Ip, v4, v6, IpNet, net4, net6, NetParsers, net_contains, nets_contain}
use domudns.Access.{allows, entry_network, parse_networks, set_access_control}
use domudns.Blocklist.{parse_cidr_list, with_suffix}

-- What net.ParseIP and net.ParseCIDR say of each other: an address has no slash, a network has
-- one, and an address with the full length of a mask is the network of that address alone.
pub record NetLaws (net : NetParsers) : Type 0 where
  pub address_slashless :
      (s : Text) (ip : Ip) → net.parse_ip s ≡ some ip → contains_byte s b'/' ≡ false
  pub network_slash : (s : Text) → contains_byte s b'/' ≡ false → net.parse_cidr s ≡ none
  pub single_v4 :
      (s : Text) (n : ℕ)
      → net.parse_ip s ≡ some (v4 n)
      → net.parse_cidr (s ++ codes "/32") ≡ some (net4 n 32)
  pub single_v6 :
      (s : Text) (n : ℕ)
      → net.parse_ip s ≡ some (v6 n)
      → net.parse_cidr (s ++ codes "/128") ≡ some (net6 n 128)

-- Without white space around it, and not empty.
abbrev pub IsTrimmed : Text → Type 0
IsTrimmed s = (trim_space s ≡ s) × (1 ≤ length s)

module _ (net : NetParsers) where
  -- the network of an entry of the white list
  abbrev listed_network : Text → Option IpNet
  listed_network s = elim (with_suffix net s) [ none ↦ none | some e ↦ net.parse_cidr e ]

  module _ (laws : NetLaws net) where
    single :
        (s : Text) (ip : Ip)
        → trim_space s ≡ s
        → 1 ≤ length s
        → contains_byte s b'/' ≡ false
        → net.parse_ip s ≡ some ip
        → listed_network s ≡ entry_network net s
    unfolding with_suffix entry_network
    single s (v4 n) trimmed some_text bare at_ip =
        ground (arith, trimmed, bare, at_ip, laws.network_slash s bare, laws.single_v4 s n at_ip)
    single s (v6 n) trimmed some_text bare at_ip =
        ground (arith, trimmed, bare, at_ip, laws.network_slash s bare, laws.single_v6 s n at_ip)

    same_network : (s : Text) → IsTrimmed s → listed_network s ≡ entry_network net s
    unfolding with_suffix entry_network
    same_network s (trimmed, some_text) = elim (Bool-cases (contains_byte s b'/')) [
      | inl slash ↦ elim (Option-cases (net.parse_ip s)) [
        | inl no_ip ↦ ground (arith, trimmed, slash, no_ip)
        | inr (ip, at_ip) ↦ absurd (ground (arith, laws.address_slashless s ip at_ip))
      ]
      | inr bare ↦ elim (Option-cases (net.parse_ip s)) [
        | inl no_ip ↦ ground (arith, trimmed, bare, no_ip, laws.network_slash s bare)
        | inr (ip, at_ip) ↦ single s ip trimmed some_text bare at_ip
      ]
    ]

    -- The white list of the block list and the access control read a list of networks alike, if
    -- net.ParseIP and net.ParseCIDR agree as `NetLaws` says and the entries are not empty and have
    -- no white space around them: they keep the same networks, in order, and pass over the same
    -- invalid entries.
    pub parse_networks-parse_cidr_list :
        (entries : List Text)
        → All IsTrimmed entries
        → parse_networks net entries ≡ parse_cidr_list net entries
    unfolding parse_networks parse_cidr_list
    parse_networks-parse_cidr_list [] trimmed = refl
    parse_networks-parse_cidr_list (s ∷ entries) (t, trimmed) =
        ground (arith, same_network s t, parse_networks-parse_cidr_list entries trimmed)

  -- One entry of the configuration lets an address in.
  abbrev pub entry_allows : Ip → Text → Bool
  entry_allows ip s = elim (entry_network net s) [ none ↦ false | some n ↦ net_contains n ip ]

  parsed :
      (entries : List Text) (ip : Ip)
      → nets_contain (parse_networks net entries) ip ≡ any (entry_allows ip) entries
  unfolding parse_networks
  parsed [] ip = refl
  parsed (s ∷ entries) ip = elim (Option-cases (entry_network net s)) [
    | inl skipped ↦ ground (arith, parsed entries ip)
    | inr (n, kept) ↦ ground (arith, parsed entries ip)
  ]

  none_valid :
      (entries : List Text)
      → (length (parse_networks net entries) == 0)
        ≡ (if any (λ s. is_some (entry_network net s)) entries then false else true)
  unfolding parse_networks
  none_valid [] = refl
  none_valid (s ∷ entries) = elim (Option-cases (entry_network net s)) [
    | inl skipped ↦ ground (arith, none_valid entries)
    | inr (n, kept) ↦ ground arith
  ]

  -- The access control made of a list of entries lets an address in if the network of an entry
  -- holds it, and lets every address in if no entry is valid: a list of invalid entries is open.
  pub allows-parse_networks :
      (entries : List Text) (ip : Ip)
      → allows (set_access_control (parse_networks net entries)) ip ≡ (
          if any (λ s. is_some (entry_network net s)) entries
          then any (entry_allows ip) entries
          else true)
  unfolding allows set_access_control
  allows-parse_networks entries ip = ground (arith, parsed entries ip, none_valid entries)
