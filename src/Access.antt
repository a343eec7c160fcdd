-- ===== src/Access.antt =====
-- Who may ask, and as whom: the networks of the access control (internal/dnsserver/acl.go,
-- SetAccessControl in handler.go), the groups of clients (clientgroups.go), the views
-- (splithorizon.go), and the filter of answers that point inside (rebinding.go).
pub mod Networks
pub mod Clients
pub mod Ranges
use domudns.Prelude.{
  ℕ, ◌*◌, ◌^◌, Bool, true, false, not, ◌&&◌, ◌||◌, List, [], ◌∷◌, any, length, ◌==◌, Option, none,
  some, text_beq, if◌then◌else◌, ◌>>=◌,
}
use domudns.Text.{Text, codes, dot, has_suffix, normalize_name, trim_space}
use domudns.Net.{Ip, v4, v6, IpNet, net4, net6, NetParsers, nets_contain, octets}
use domudns.Mdns.{Msg, Rdata, Rr, rcode_success}

module _ (net : NetParsers) where
  -- one round of the loop: the network of an entry, or `none` for an empty or an invalid one
  unfoldable pub entry_network : Text → Option IpNet
  entry_network text =
      let entry = trim_space text in
      if length entry == 0 then none else elim (net.parse_cidr entry) [
        | some n ↦ some n
        | none ↦ elim (net.parse_ip entry) [
          | none ↦ none
          | some ip ↦ elim ip [ v4 n ↦ some (net4 n 32) | v6 n ↦ some (net6 n 128) ]
        ]
      ]

  unfoldable pub parse_networks : List Text → List IpNet
  unfolding entry_network
  parse_networks [] = []
  parse_networks (entry ∷ entries) =
      let rest = parse_networks entries in
      elim (entry_network entry) [ none ↦ rest | some n ↦ n ∷ rest ]

-- The access control is the nil pointer, or the networks that it allows.
unfoldable pub allows : Option (List IpNet) → Ip → Bool
allows none ip = true
allows (some nets) ip = (length nets == 0) || nets_contain nets ip

unfoldable pub set_access_control : List IpNet → Option (List IpNet)
set_access_control allowed = if length allowed == 0 then none else some allowed

-- dns.ClientGroup
pub record ClientGroup : Type 0 where
  pub name : Text
  pub cidrs : List Text
  pub categories : List Text

pub record ResolvedGroup : Type 0 where
  pub name : Text
  pub nets : List IpNet
  pub categories : List Text

abbrev pub default_categories : List Text
default_categories = codes "ads" ∷ codes "malware" ∷ []

module _ (net : NetParsers) where
  -- the loop over the CIDRs of a group, which the first invalid one ends
  unfoldable pub group_networks : List Text → Option (List IpNet)
  group_networks [] = some []
  group_networks (cidr ∷ cidrs) = do
    n ← net.parse_cidr cidr
    nets ← group_networks cidrs
    some (n ∷ nets)

  unfoldable pub resolve_groups : List ClientGroup → Option (List ResolvedGroup)
  resolve_groups [] = some []
  resolve_groups (g ∷ groups) = do
    nets ← group_networks g.cidrs
    rest ← resolve_groups groups
    some (record { name = g.name; nets = nets; categories = g.categories } ∷ rest)

  -- Update: the groups from then on, and whether it succeeded
  unfoldable pub update_groups : List ResolvedGroup → List ClientGroup → List ResolvedGroup × Bool
  update_groups old groups = elim (resolve_groups groups) [
    | none ↦ (old, false)
    | some resolved ↦ (resolved, true)
  ]

unfoldable pub get_categories : List ResolvedGroup → Ip → List Text
get_categories [] ip = default_categories
get_categories (g ∷ groups) ip =
    let rest = get_categories groups ip in if nets_contain g.nets ip then g.categories else rest

pub record SplitHorizonView : Type 0 where
  pub name : Text
  pub subnets : List IpNet

pub record SplitHorizonConfig : Type 0 where
  pub enabled : Bool
  pub views : List SplitHorizonView

-- the loop over the views
unfoldable pub first_view : List SplitHorizonView → Ip → Text
first_view [] ip = []
first_view (v ∷ views) ip =
    let rest = first_view views ip in
    if length v.subnets == 0 then v.name else if nets_contain v.subnets ip then v.name else rest

-- `none` is the nil address.
unfoldable pub get_view : SplitHorizonConfig → Option Ip → Text
get_view cfg none = []
get_view cfg (some ip) = if not cfg.enabled then [] else first_view cfg.views ip

pub record RebindingConfig : Type 0 where
  pub enabled : Bool
  pub whitelist : List Text

-- What net.ParseCIDR makes of the texts in `init`.
abbrev pub private_ranges : List IpNet
private_ranges =
    net4 (octets 10 0 0 0) 8
    ∷ net4 (octets 172 16 0 0) 12
    ∷ net4 (octets 192 168 0 0) 16
    ∷ net4 (octets 127 0 0 0) 8
    ∷ net4 (octets 169 254 0 0) 16
    ∷ net4 (octets 100 64 0 0) 10
    ∷ net6 1 128
    ∷ net6 (0xfc00 * 2 ^ 112) 7
    ∷ net6 (0xfe80 * 2 ^ 112) 10
    ∷ []

-- isPrivateIP of an address that is not nil
abbrev pub is_private_ip : Ip → Bool
is_private_ip ip = nets_contain private_ranges ip

unfoldable pub is_private_rdata : Rdata → Bool
is_private_rdata (Rdata.a ip) = is_private_ip ip
is_private_rdata (Rdata.aaaa ip) = is_private_ip ip
is_private_rdata _ = false

unfoldable pub new_rebinding_config : Bool → List Text → RebindingConfig
new_rebinding_config enabled whitelist = record {
  enabled = enabled;
  whitelist = normalized whitelist;
}
  where
    normalized : List Text → List Text
    normalized [] = []
    normalized (w ∷ ws) =
        let n = normalize_name (trim_space w) in
        let rest = normalized ws in if length n == 0 then rest else n ∷ rest

unfoldable pub is_whitelisted : RebindingConfig → Text → Bool
is_whitelisted c qname =
    let name = normalize_name qname in
    any (λ suffix. text_beq name suffix || has_suffix name (dot ∷ suffix)) c.whitelist

-- `none` is the nil response.
unfoldable pub is_rebinding_attack : RebindingConfig → Text → Option Msg → Bool
is_rebinding_attack cfg qname none = false
is_rebinding_attack cfg qname (some resp) =
    if not cfg.enabled
    then false
    else if not (resp.rcode == rcode_success)
    then false
    else if is_whitelisted cfg qname
    then false
    else any (λ rr. is_private_rdata rr.rdata) resp.answer
