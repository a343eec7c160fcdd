-- ===== src/Forward.antt =====
-- The upstream servers (internal/dnsserver/forwarder.go) and the stub of DNSSEC (dnssec.go). The
-- exchange with a server over UDP or TCP, and the EDNS record of a message, are the DNS library's.
pub mod Rules
pub mod Servers
pub mod Dnssec
use domudns.Prelude.{
  ℕ, ◌+◌, ◌-◌, ◌%◌, ◌^◌, ◌≡◌, Bool, true, false, not, ◌||◌, ◌&&◌, List, [], ◌∷◌, ◌++◌, map, length,
  select, ltb, leb, ◌==◌, Option, none, some, text_beq, if◌then◌else◌,
}
use domudns.Text.{Text, codes, dot, has_suffix, normalize_name}
use domudns.Mdns.{Msg, Rr}

abbrev pub u32_mod : ℕ
u32_mod = 2 ^ 32

pub record ConditionalForwardRule : Type 0 where
  pub domain : Text
  pub servers : List Text

-- The test of a rule against a normalized name
unfoldable pub rule_matches : Text → ConditionalForwardRule → Bool
rule_matches name r = text_beq name r.domain || has_suffix name (dot ∷ r.domain)

-- the loop over the rules, with the best one so far
unfoldable pub best_rule :
    Text
    → Option ConditionalForwardRule
    → List ConditionalForwardRule
    → Option ConditionalForwardRule
best_rule name best [] = best
best_rule name none (r ∷ rules) =
    best_rule name (if rule_matches name r then some r else none) rules
best_rule name (some b) (r ∷ rules) =
    best_rule name
      (if rule_matches name r && ltb (length b.domain) (length r.domain) then some r else some b)
      rules

unfoldable pub match_servers : List ConditionalForwardRule → Text → List Text
match_servers rules qname = elim (best_rule (normalize_name qname) none rules) [
  | none ↦ []
  | some r ↦ r.servers
]

-- `upstream` is not empty where a message is sent; `counter` is what AddUint32 counts.
pub record Forwarder : Type 0 where
  pub upstream : List Text
  pub counter : ℕ

abbrev pub server_at : List Text → ℕ → Text
server_at [] i = []
server_at (s ∷ servers) i = let rest = server_at servers (i - 1) in if i == 0 then s else rest

-- `has_port` tells whether net.SplitHostPort takes the text.
module _ (has_port : Text → Bool) where
  abbrev pub with_port : Text → Text
  with_port s = if has_port s then s else s ++ codes ":53"

  unfoldable pub normalize_rules : List ConditionalForwardRule → List ConditionalForwardRule
  normalize_rules [] = []
  normalize_rules (r ∷ rules) =
      record { domain = normalize_name r.domain; servers = map with_port r.servers }
      ∷ normalize_rules rules

  unfoldable pub new_forwarder : List Text → Forwarder
  new_forwarder [] = record { upstream = codes "1.1.1.1:53" ∷ codes "8.8.8.8:53" ∷ []; counter = 0 }
  new_forwarder (s ∷ upstream) = record { upstream = map with_port (s ∷ upstream); counter = 0 }

  unfoldable pub update_upstream : Forwarder → List Text → Forwarder
  update_upstream f upstream = record f { upstream = map with_port upstream }

-- What the DNS client does with a message and a server: over UDP, and over TCP.
pub record Client : Type 0 where
  pub udp : Msg → Text → Option Msg
  pub tcp : Msg → Text → Option Msg
  pub truncated : Msg → Bool

module _ (client : Client) where
  -- A whole answer over UDP, or none
  unfoldable pub whole_answer : Msg → Text → Option Msg
  whole_answer req server = elim (client.udp req server) [
    | none ↦ none
    | some resp ↦ if client.truncated resp then none else some resp
  ]

  -- An answer together with the server that gave it
  abbrev pub from_server : Text → Option Msg → Option (Msg × Text)
  from_server server none = none
  from_server server (some resp) = some (resp, server)

  unfoldable pub try_servers : Msg → List Text → ℕ → Option (Msg × Text)
  try_servers req servers idx =
      let server = server_at servers idx in
      let fallback = server_at servers ((idx + 1) % length servers) in
      elim (whole_answer req server) [
        | some resp ↦ some (resp, server)
        | none ↦ elim (client.tcp req server) [
          | some resp ↦ some (resp, server)
          | none ↦
              if ltb 1 (length servers)
              then from_server fallback (client.udp req fallback)
              else none
        ]
      ]

  -- The next counter; the native remainder by 0 is not asked for, as both lists have a server.
  abbrev pub next_index : Forwarder → List Text → ℕ
  next_index f servers = ((f.counter + 1) % u32_mod) % length servers

  abbrev pub counted : Forwarder → Forwarder
  counted f = record f { counter = (f.counter + 1) % u32_mod }

  unfoldable pub forward_tracked : Forwarder → Msg → Forwarder × Option (Msg × Text)
  forward_tracked f req = (counted f, try_servers req f.upstream (next_index f f.upstream))

  unfoldable pub forward : Forwarder → Msg → Forwarder × Option Msg
  forward f req = (
    counted f,
    elim (try_servers req f.upstream (next_index f f.upstream)) [
      | none ↦ none
      | some (resp, server) ↦ some resp
    ],
  )

  unfoldable pub forward_to_servers : Forwarder → Msg → List Text → Forwarder × Option Msg
  forward_to_servers f req [] = (f, none)
  forward_to_servers f req (s ∷ servers) = (
    counted f,
    elim (try_servers req (s ∷ servers) (next_index f (s ∷ servers))) [
      | none ↦ none
      | some (resp, server) ↦ some resp
    ],
  )
