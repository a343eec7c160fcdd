-- ===== src/Dns/Uri/Hosts.antt =====
-- Which hosts of a URI the check refuses: the address with a port, the bracketed address, and the
-- name `localhost`.
use domudns.Prelude.{
  ℕ, ◌<◌, ◌≡◌, ◌⊎◌, inl, inr, refl, true, false, ◌||◌, [], ◌∷◌, ◌++◌, length, Option, none, some,
  arith, length-append, take-length-append,
}
use domudns.Text.{Text, codes, contains_byte, has_prefix, lower_byte}
use domudns.Net.{Ip, is_loopback, is_private, is_link_local_unicast, is_unspecified}
use domudns.Dns.Uri.{
  Url, index, last_index, equal_fold, hostname_of, is_internal_host, is_valid_uri,
}

pub last_index_absent : (t : Text) (b : ℕ) → contains_byte t b ≡ false → last_index t b ≡ none
unfolding last_index
last_index_absent [] b h = refl
last_index_absent (c ∷ t) b h = ground (arith, last_index_absent t b)

pub last_index-append :
    (s t : Text) (b : ℕ) → contains_byte t b ≡ false → last_index (s ++ (b ∷ t)) b ≡ some (length s)
unfolding last_index
last_index-append [] t b h = ground (arith, last_index_absent t b)
last_index-append (c ∷ s) t b h = ground (arith, last_index-append s t b)

index-append :
    (s t : Text) (b : ℕ) → contains_byte s b ≡ false → index (s ++ (b ∷ t)) b ≡ some (length s)
unfolding index
index-append [] t b h = ground arith
index-append (c ∷ s) t b h = ground (arith, index-append s t b)

abbrev pub IsInternal : Ip → Type 0
IsInternal ip =
    (is_loopback ip || is_private ip || is_link_local_unicast ip || is_unspecified ip) ≡ true

module _ (parse_ip : Text → Option Ip) where
  hostname_of-port :
      (addr port : Text) (ip : Ip)
      → has_prefix addr (codes "[") ≡ false
      → 0 < length addr
      → parse_ip addr ≡ some ip
      → contains_byte port b':' ≡ false
      → hostname_of parse_ip (addr ++ (b':' ∷ port)) ≡ addr
  unfolding hostname_of
  hostname_of-port [] port ip bare some_addr p h = absurd (omega arith)
  hostname_of-port (c ∷ addr) port ip bare some_addr p h =
      ground (
        arith,
        last_index-append (c ∷ addr) port b':' h,
        take-length-append (c ∷ addr) (b':' ∷ port),
      )

  hostname_of-bracket :
      (addr rest : Text)
      → contains_byte addr b']' ≡ false
      → hostname_of parse_ip (b'[' ∷ (addr ++ (b']' ∷ rest))) ≡ addr
  unfolding hostname_of
  hostname_of-bracket addr rest h = ground (
    arith,
    length-append addr (b']' ∷ rest),
    index-append (b'[' ∷ addr) rest b']' h,
    take-length-append (b'[' ∷ addr) (b']' ∷ rest),
  )

  internal_host :
      (host : Text) (ip : Ip)
      → parse_ip (hostname_of parse_ip host) ≡ some ip
      → IsInternal ip
      → is_internal_host parse_ip host ≡ true
  unfolding is_internal_host
  internal_host host ip p internal = rw (p, is_internal_host) internal

  named_host :
      (host : Text)
      → hostname_of parse_ip host ≡ host
      → parse_ip host ≡ none
      → is_internal_host parse_ip host ≡ equal_fold host (codes "localhost")
  unfolding is_internal_host
  named_host host e p = ground (arith, e, p)

  module _ (parse_url : Text → Option Url) where
    uri-internal :
        (s : Text) (u : Url)
        → parse_url s ≡ some u
        → is_internal_host parse_ip u.host ≡ true
        → is_valid_uri parse_ip parse_url s ≡ false
    unfolding is_valid_uri
    uri-internal s u p h = ground arith

    -- A URI whose host is an internal IP address is refused, whether a port without a colon in it
    -- stands behind the address or the address stands in brackets with any such text behind them;
    -- the address itself is a text of no `]` that does not start with `[`.
    pub uri_internal_address :
        (s addr rest : Text) (u : Url) (ip : Ip)
        → parse_url s ≡ some u
        → parse_ip addr ≡ some ip
        → IsInternal ip
        → 0 < length addr
        → has_prefix addr (codes "[") ≡ false
        → contains_byte addr b']' ≡ false
        → contains_byte rest b':' ≡ false
        → (u.host ≡ addr ++ (b':' ∷ rest)) ⊎ (u.host ≡ b'[' ∷ (addr ++ (b']' ∷ rest)))
        → is_valid_uri parse_ip parse_url s ≡ false
    uri_internal_address s addr rest u ip p q internal some_addr bare closed r (inl e) =
        uri-internal s u p (
          internal_host u.host ip (rw (e, hostname_of-port addr rest ip bare some_addr q r) q)
            internal)
    uri_internal_address s addr rest u ip p q internal some_addr bare closed r (inr e) =
        uri-internal s u p
          (internal_host u.host ip (rw (e, hostname_of-bracket addr rest closed) q) internal)

  with_port :
      (port : Text)
      → parse_ip (codes "localhost") ≡ none
      → contains_byte port b':' ≡ false
      → hostname_of parse_ip (codes "localhost" ++ (b':' ∷ port))
        ≡ codes "localhost" ++ (b':' ∷ port)
  unfolding hostname_of
  with_port port p h = ground (arith, last_index-append (codes "localhost") port b':' h)

  without_port : hostname_of parse_ip (codes "localhost") ≡ codes "localhost"
  unfolding hostname_of last_index
  without_port = refl

  -- The host `localhost` with a port is taken for a public one, although `localhost` alone is
  -- refused, if the parser takes neither text for an address and the port has no colon: the port is
  -- cut off only behind an IP address.
  pub localhost_port :
      (port : Text)
      → parse_ip (codes "localhost") ≡ none
      → parse_ip (codes "localhost" ++ (b':' ∷ port)) ≡ none
      → contains_byte port b':' ≡ false
      → (is_internal_host parse_ip (codes "localhost" ++ (b':' ∷ port)) ≡ false)
        × (is_internal_host parse_ip (codes "localhost") ≡ true)
  unfolding equal_fold lower_byte
  localhost_port port p q h =
      (named_host _ (with_port port p h) q, named_host (codes "localhost") without_port p)
