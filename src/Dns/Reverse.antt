-- ===== src/Dns/Reverse.antt =====
-- Reverse zones and PTR names (internal/dns/reverse.go). net.ParseIP is a parameter.
pub mod Names
use domudns.Prelude.{
  ℕ, zero, suc, ◌+◌, ◌-◌, ◌*◌, ◌/◌, ◌%◌, ◌^◌, List, [], ◌∷◌, ◌++◌, map, Option, none, some, take,
  drop, ltb, if◌then◌else◌,
}
use mathlib.Core.List.{reverse}
use domudns.Text.{Text, codes, dot, join}
use domudns.Net.{Ip, v4, v6}

-- The bytes of an address, the most significant first.
unfoldable pub be_bytes : ℕ → ℕ → List ℕ
be_bytes zero n = []
be_bytes (suc k) n = (n / 256 ^ k % 256) ∷ be_bytes k n

-- `%d` of one byte
unfoldable pub decimal_byte : ℕ → Text
decimal_byte n =
    if ltb n 10
    then (b'0' + n) ∷ []
    else if ltb n 100
    then (b'0' + n / 10) ∷ (b'0' + n % 10) ∷ []
    else (b'0' + n / 100) ∷ (b'0' + n / 10 % 10) ∷ (b'0' + n % 10) ∷ []

unfoldable pub hex_nibble : ℕ → ℕ
hex_nibble b = if ltb b 10 then b'0' + b else b'a' + b - 10

-- The high and the low nibble of each byte, as a text of one byte.
unfoldable pub ipv6_nibbles : List ℕ → List Text
unfolding hex_nibble
ipv6_nibbles [] = []
ipv6_nibbles (b ∷ bs) = (hex_nibble (b / 16) ∷ []) ∷ (hex_nibble (b % 16) ∷ []) ∷ ipv6_nibbles bs

-- `p4[i]`
abbrev pub octet : ℕ → ℕ → ℕ
octet n i = n / 256 ^ (3 - i) % 256

unfoldable pub reverse_zone : Ip → Text
reverse_zone (v4 n) =
    decimal_byte (octet n 2)
    ++ (dot
        ∷ (decimal_byte (octet n 1) ++ (dot ∷ (decimal_byte (octet n 0) ++ codes ".in-addr.arpa"))))
reverse_zone (v6 n) =
    join (reverse (take 16 (ipv6_nibbles (be_bytes 16 n)))) dot ++ codes ".ip6.arpa"

unfoldable pub ptr_name : Ip → Text
ptr_name (v4 n) = decimal_byte (octet n 3)
ptr_name (v6 n) = join (reverse (drop 16 (ipv6_nibbles (be_bytes 16 n)))) dot

module _ (parse_ip : Text → Option Ip) where
  -- `none` is the result `("", false)`.
  unfoldable pub reverse_zone_for_ip : Text → Option Text
  reverse_zone_for_ip ip = elim (parse_ip ip) [ none ↦ none | some a ↦ some (reverse_zone a) ]

  unfoldable pub ptr_name_for_ip : Text → Text
  ptr_name_for_ip ip = elim (parse_ip ip) [ none ↦ [] | some a ↦ ptr_name a ]
