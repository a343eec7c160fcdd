-- ===== src/Tests/RateTests.antt =====
-- The limit on queries, with a bucket that is never filled again.
use domudns.Prelude.{
  text_eq, ℕ, ◌-◌, ◌*◌, ◌≡◌, refl, Bool, true, false, [], ◌∷◌, length, ◌==◌, some, if◌then◌else◌,
  arith,
}
use domudns.Assoc.{lookup, insert, has_key}
use domudns.Text.{Text}
use domudns.Net.{Ip, v4, v6}
use domudns.RateLimit.{QueryRateLimiter, allow, allow_tracked, cleanup, take_token}
use domudns.RateLimit.Tracked.{IsTable}

abbrev fresh : ℕ → ℕ
fresh n = n

abbrev allow_at : ℕ → ℕ → ℕ × Bool
allow_at now n = if n == 0 then (0, false) else (n - 1, true)

abbrev ip_text : Ip → Text
ip_text (v4 n) = n ∷ []
ip_text (v6 n) = n ∷ n ∷ []

-- One client that has used up its bucket.
abbrev used_up : QueryRateLimiter ℕ
used_up = record {
  limiters = (ip_text (v4 7), record { limiter = 0; last_used = 5 }) ∷ [];
  queries_per_minute = 2;
  exempt = [];
}

verdicts :
    ((allow fresh allow_at ip_text 9 (some used_up) (v4 7)).1 ≡ false)
    × ((allow fresh allow_at ip_text 9 (some used_up) (v4 8)).1 ≡ true)
    × (length (cleanup (11 * 60 * 1000000000) used_up).limiters ≡ 0)
unfolding allow allow_tracked take_token lookup insert cleanup
verdicts = (refl, refl, refl)

used_up-IsTable : IsTable used_up
unfolding has_key
used_up-IsTable = ((refl, tt), omega arith)
