-- ===== src/RateLimit.antt =====
-- The limit on the queries of a client (internal/dnsserver/ratelimit.go). The token bucket of
-- golang.org/x/time/rate is a parameter: `fresh` is NewLimiter for a number of queries a minute, and
-- `allow_at` is Allow at a time, with the bucket from then on. Times are nanoseconds.
pub mod Tracked
use domudns.Prelude.{
  ℕ, ◌+◌, ◌*◌, Bool, true, false, not, List, [], ◌∷◌, length, select, leb, ltb, ◌==◌, Option, none,
  some, text_eq, if◌then◌else◌,
}
use domudns.Prelude.Int.{ℤ, pos, negsuc}
use domudns.Assoc.{lookup, insert}
use domudns.Text.{Text}
use domudns.Net.{Ip, IpNet, NetParsers, nets_contain}
use domudns.Access.{parse_networks}

abbrev pub rate_limit_idle_ttl : ℕ
rate_limit_idle_ttl = 10 * 60 * 1000000000

abbrev pub max_rate_limit_entries : ℕ
max_rate_limit_entries = 50000

pub record RateLimitEntry (L : Type 0) : Type 0 where
  pub limiter : L
  pub last_used : ℕ

pub record QueryRateLimiter (L : Type 0) : Type 0 where
  pub limiters : List (Text × RateLimitEntry L)
  pub queries_per_minute : ℕ
  pub exempt : List IpNet

-- `none` is the nil limiter.
unfoldable pub new_query_rate_limiter :
    {L : Type 0} → NetParsers → ℤ → List Text → Option (QueryRateLimiter L)
new_query_rate_limiter net (negsuc n) networks = none
new_query_rate_limiter net (pos n) networks =
    if n == 0
    then none
    else some
        (record { limiters = []; queries_per_minute = n; exempt = parse_networks net networks })

module _ {L : Type 0} where
  abbrev pub is_exempt : QueryRateLimiter L → Ip → Bool
  is_exempt l ip = nets_contain l.exempt ip

  -- One tick of cleanupLoop: `lastUsed` lies before `now` less the time to live.
  unfoldable pub cleanup : ℕ → QueryRateLimiter L → QueryRateLimiter L
  cleanup now l = record l {
    limiters = select (λ p. not (ltb (p.1.last_used + rate_limit_idle_ttl) now)) l.limiters;
  }

  module _ (fresh : ℕ → L) (allow_at : ℕ → L → L × Bool) (ip_text : Ip → Text) where
    -- the query of a client that has a bucket
    unfoldable pub take_token : ℕ → QueryRateLimiter L → Text → L → QueryRateLimiter L × Bool
    take_token now l key lim =
        let taken = allow_at now lim in
        (
          record l {
            limiters = insert key (record { limiter = taken.0; last_used = now }) l.limiters;
          },
          taken.1,
        )

    unfoldable pub allow_tracked : ℕ → QueryRateLimiter L → Ip → QueryRateLimiter L × Bool
    unfolding take_token
    allow_tracked now l ip =
        let key = ip_text ip in
        if is_exempt l ip then (l, true) else elim (lookup key l.limiters) [
          | some ent ↦ take_token now l key ent.limiter
          | none ↦
              if leb max_rate_limit_entries (length l.limiters)
              then (l, true)
              else take_token now l key (fresh l.queries_per_minute)
        ]

    -- Allow; a nil limiter allows every query.
    unfoldable pub allow : ℕ → Option (QueryRateLimiter L) → Ip → Option (QueryRateLimiter L) × Bool
    allow now none ip = (none, true)
    allow now (some l) ip = let step = allow_tracked now l ip in (some step.0, step.1)
