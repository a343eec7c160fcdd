-- ===== src/Dns/Uri.antt =====
-- The check of URI values (internal/dns/validator.go). net.ParseIP and url.Parse are parameters.
pub mod Hosts
use domudns.Prelude.{
  ℕ, zero, suc, ◌+◌, ◌-◌, ◌≤◌, ◌≡◌, ◌≢◌, refl, Bool, true, false, ◌&&◌, ◌||◌, List, [], ◌∷◌, ◌++◌,
  length, take, drop, Option, none, some, ltb, leb, ◌==◌, is_some, arith, text_beq, if◌then◌else◌,
  Bool-cases, Option-cases, inl, inr,
}
use domudns.Text.{Text, codes, to_lower, has_prefix, lower_byte}
use domudns.Net.{Ip, is_loopback, is_private, is_link_local_unicast, is_unspecified}

-- The parts of url.URL that the program reads.
pub record Url : Type 0 where
  pub scheme : Text
  pub host : Text

-- strings.EqualFold
unfoldable pub equal_fold : Text → Text → Bool
equal_fold s t = text_beq (to_lower s) (to_lower t)

-- strings.Index for one byte
unfoldable pub index : Text → ℕ → Option ℕ
index [] b = none
index (c ∷ s) b =
    let rest = index s b in
    if c == b then some 0 else elim rest [ none ↦ none | some i ↦ some (suc i) ]

-- strings.LastIndex for one byte
unfoldable pub last_index : Text → ℕ → Option ℕ
last_index [] b = none
last_index (c ∷ s) b = elim (last_index s b) [
  | some i ↦ some (suc i)
  | none ↦ if c == b then some 0 else none
]

module _ (parse_ip : Text → Option Ip) where
  -- `hostname`: the host without the brackets of an IPv6 literal, or without the port behind an
  -- IP address.
  unfoldable pub hostname_of : Text → Text
  hostname_of host =
      if leb 2 (length host) && has_prefix host (codes "[")
      then elim (index host b']') [
        | none ↦ host
        | some end ↦ if ltb 0 end then drop 1 (take end host) else host
      ]
      else elim (last_index host b':') [
        | none ↦ host
        | some idx ↦ if ltb 0 idx && is_some (parse_ip (take idx host)) then take idx host else host
      ]

  unfoldable pub is_internal_host : Text → Bool
  is_internal_host host = elim (parse_ip (hostname_of host)) [
    | none ↦ equal_fold (hostname_of host) (codes "localhost")
    | some ip ↦ is_loopback ip || is_private ip || is_link_local_unicast ip || is_unspecified ip
  ]

  module _ (parse_url : Text → Option Url) where
    unfoldable pub is_valid_uri : Text → Bool
    is_valid_uri s = if (length s == 0) || ltb 2048 (length s) then false else elim (parse_url s) [
      | none ↦ false
      | some u ↦
          if (length u.scheme == 0) || leb (length s) (length u.scheme + 1)
          then false
          else if equal_fold u.scheme (codes "file")
          then false
          else if is_internal_host u.host
          then false
          else true
    ]
