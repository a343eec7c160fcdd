-- ===== src/Access/Ranges.antt =====
-- Which addresses the rebinding filter takes for internal ones.
use domudns.Prelude.{ℕ, ◌≤◌, ◌<◌, ◌≡◌, ◌⊎◌, ◌↔◌, true, ◌||◌, arith}
use domudns.Net.{Ip, v4, v6, is_loopback, is_private, is_link_local_unicast, octets}
use domudns.Access.{is_private_ip}

-- An IPv4 address in one of the private ranges, by its first and last address.
abbrev pub InPrivateRange : ℕ → Type 0
InPrivateRange n =
    ((octets 10 0 0 0 ≤ n) × (n < octets 11 0 0 0))
    ⊎ ((octets 172 16 0 0 ≤ n) × (n < octets 172 32 0 0))
    ⊎ ((octets 192 168 0 0 ≤ n) × (n < octets 192 169 0 0))
    ⊎ ((octets 127 0 0 0 ≤ n) × (n < octets 128 0 0 0))
    ⊎ ((octets 169 254 0 0 ≤ n) × (n < octets 169 255 0 0))
    ⊎ ((octets 100 64 0 0 ≤ n) × (n < octets 100 128 0 0))

-- The filter takes an IPv4 address for an internal one exactly when it lies in 10.0.0.0 to
-- 10.255.255.255, 172.16.0.0 to 172.31.255.255, 192.168.0.0 to 192.168.255.255, 127.0.0.0 to
-- 127.255.255.255, 169.254.0.0 to 169.254.255.255 or 100.64.0.0 to 100.127.255.255.
pub is_private_ip_iff : (n : ℕ) → (is_private_ip (v4 n) ≡ true) ↔ InPrivateRange n
is_private_ip_iff n = (λ h. ground arith, λ h. ground arith)

-- Every address that the check of URI values refuses as loopback, private or link-local is one
-- that the rebinding filter takes for internal.
pub is_private_ip-internal :
    (ip : Ip)
    → (is_loopback ip || is_private ip || is_link_local_unicast ip) ≡ true
    → is_private_ip ip ≡ true
is_private_ip-internal (v4 n) h = ground arith
is_private_ip-internal (v6 n) h = ground arith
