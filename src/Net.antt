-- ===== src/Net.antt =====
-- Go's `net` package as the server uses it. An address is its number: `v4` for one that `To4`
-- accepts, `v6` for any other; a network keeps the length of its mask. The parsers are parameters.
use domudns.Prelude.{ℕ, ◌+◌, ◌-◌, ◌*◌, ◌/◌, ◌^◌, Bool, false, ◌||◌, Option, List, any, ◌==◌}
use domudns.Text.{Text}

pub data Ip : Type 0 where
  v4 : ℕ → Ip
  v6 : ℕ → Ip

pub data IpNet : Type 0 where
  net4 : ℕ → ℕ → IpNet
  net6 : ℕ → ℕ → IpNet

-- net.IPNet.Contains: the family agrees, and so do the bits that the mask keeps.
abbrev pub net_contains : IpNet → Ip → Bool
net_contains (net4 base bits) (v4 n) = n / 2 ^ (32 - bits) == base / 2 ^ (32 - bits)
net_contains (net6 base bits) (v6 n) = n / 2 ^ (128 - bits) == base / 2 ^ (128 - bits)
net_contains (net4 base bits) (v6 n) = false
net_contains (net6 base bits) (v4 n) = false

-- The loop `for _, n := range nets { if n.Contains(ip) { return true } }; return false`.
abbrev pub nets_contain : List IpNet → Ip → Bool
nets_contain nets ip = any (λ n. net_contains n ip) nets

abbrev pub octets : ℕ → ℕ → ℕ → ℕ → ℕ
octets a b c d = ((a * 256 + b) * 256 + c) * 256 + d

-- net.ParseIP, net.ParseCIDR (the network alone) and net.SplitHostPort (the host alone).
pub record NetParsers : Type 0 where
  pub parse_ip : Text → Option Ip
  pub parse_cidr : Text → Option IpNet
  pub split_host : Text → Option Text

-- net.IP.IsLoopback, IsPrivate, IsLinkLocalUnicast and IsUnspecified
abbrev pub is_loopback : Ip → Bool
is_loopback (v4 n) = n / 2 ^ 24 == 127
is_loopback (v6 n) = n == 1

abbrev pub is_private : Ip → Bool
is_private (v4 n) =
    (n / 2 ^ 24 == 10)
    || (n / 2 ^ 20 == octets 172 16 0 0 / 2 ^ 20)
    || (n / 2 ^ 16 == octets 192 168 0 0 / 2 ^ 16)
is_private (v6 n) = n / 2 ^ 121 == 0x7e

abbrev pub is_link_local_unicast : Ip → Bool
is_link_local_unicast (v4 n) = n / 2 ^ 16 == octets 169 254 0 0 / 2 ^ 16
is_link_local_unicast (v6 n) = n / 2 ^ 118 == 0x3fa

abbrev pub is_unspecified : Ip → Bool
is_unspecified (v4 n) = n == 0
is_unspecified (v6 n) = n == 0
