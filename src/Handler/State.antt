-- ===== src/Handler/State.antt =====
-- What the handler is made of: its settings, the parts that change while it answers, and the code
-- outside the server that it calls.
use domudns.Prelude.{ℕ, Bool, List, Option}
use domudns.Text.{Text}
use domudns.Net.{Ip, IpNet, NetParsers}
use domudns.Mdns.{Mdns, Msg, Question}
use domudns.Access.{ResolvedGroup, SplitHorizonConfig, RebindingConfig}
use domudns.Blocklist.{BlocklistManager}
use domudns.Cache.Lru.{Heap}
use domudns.Cache.{CacheManager}
use domudns.Forward.{Client, ConditionalForwardRule, Forwarder}
use domudns.Forward.Dnssec.{Edns}
use domudns.RateLimit.{QueryRateLimiter}
use domudns.Zones.{ZoneManager}

-- The libraries. `in_flight` gives, for the key of a query, the outcome that singleflight shares
-- with it when an equal query is on its way upstream.
pub record Env (R L : Type 0) : Type 1 where
  pub lib : Mdns
  pub edns : Edns
  pub net : NetParsers
  pub client : Client
  pub heap : Heap
  pub format : ℕ → Text
  pub has_port : Text → Bool
  pub in_flight : Text → Option (Option (Msg × Text))
  pub match_string : R → Text → Bool
  pub fresh : ℕ → L
  pub allow_at : ℕ → L → L × Bool
  pub ip_text : Ip → Text

-- `none` is the nil pointer of a part that is off.
pub record Settings (R : Type 0) : Type 0 where
  pub blocklist : Option (BlocklistManager R)
  pub zones : Option ZoneManager
  pub split_horizon : Option SplitHorizonConfig
  pub client_groups : Option (List ResolvedGroup)
  pub acl : Option (List IpNet)
  pub rebinding : RebindingConfig
  pub dnssec_enabled : Bool
  pub block_mode : Text
  pub block_ip4 : Text
  pub block_ip6 : Text
  pub acme : Option (Text → Option Text)
  pub has_ddns : Bool
  pub has_axfr : Bool
  pub conditional : Option (List ConditionalForwardRule)

pub record World (L : Type 0) : Type 0 where
  pub cache : Option CacheManager
  pub limiter : Option (QueryRateLimiter L)
  pub forwarder : Forwarder

-- queryContext, with the time of the query
pub record QueryContext : Type 0 where
  pub req : Msg
  pub client_ip : Ip
  pub question : Question
  pub now : ℕ

-- What became of a query: the message that was written, or the handler that it was given to.
pub data Served : Type 0 where
  answered : Msg → Served
  to_ddns to_axfr : Served
