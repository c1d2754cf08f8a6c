-- ===== src/Daemon/RateLimiter.antt =====
-- internal/daemon/rate_limiter.go. An instant is a number of nanoseconds on the monotonic clock that
-- `time.Now` reads, a comparison of a difference of instants is written as one of sums, which is
-- exact, and each operation takes the instant that it reads. The mutex makes each call one step.
pub mod Quota
pub mod Starvation
pub mod Sweep
use devagent.Base.{
  ℕ, ◌+◌, ◌*◌, String, Bool, true, false, not, Option, none, some, List, [], ◌∷◌, ltb, leb,
  if◌then◌else◌, ℤ, pos, ◌-ℤ◌, leb_ℤ, Assoc, lookup, insert, keep,
}

pub record Bucket : Type 0 where
  pub tokens : ℤ
  pub last_time : ℕ

-- `last_sweep` is `none` for the zero time of a new limiter.
pub record RateLimiter : Type 0 where
  pub buckets : Assoc Bucket
  pub rate : ℕ
  pub window : ℕ
  pub last_sweep : Option ℕ

unfoldable pub new_rate_limiter : ℕ → ℕ → RateLimiter
new_rate_limiter rate window = record {
  buckets = [];
  rate = rate;
  window = window;
  last_sweep = none;
}

-- `b.lastTime.Before(now.Add(-2 * rl.window))`
unfoldable pub is_idle : ℕ → ℕ → Bucket → Bool
is_idle window now b = ltb (b.last_time + 2 * window) now

unfoldable pub sweep : RateLimiter → ℕ → RateLimiter
unfolding is_idle
sweep rl now = record rl { buckets = keep (λ b. not (is_idle rl.window now b)) rl.buckets }

-- `rl.lastSweep.IsZero() || now.Sub(rl.lastSweep) > rl.window`
unfoldable pub sweep_due : RateLimiter → ℕ → Bool
sweep_due rl now = elim rl.last_sweep [ none ↦ true | some t ↦ ltb (t + rl.window) now ]

-- What `Allow` does with the bucket of its key: the bucket that is stored, and the verdict.
unfoldable pub take_token : ℕ → ℕ → ℕ → Option Bucket → Bucket × Bool
take_token rate window now none = (record { tokens = pos rate -ℤ pos 1; last_time = now }, true)
take_token rate window now (some b) =
    if leb (b.last_time + window) now
    then (record { tokens = pos rate -ℤ pos 1; last_time = now }, true)
    else if leb_ℤ b.tokens (pos 0)
    then (b, false)
    else (record { tokens = b.tokens -ℤ pos 1; last_time = now }, true)

unfoldable pub maybe_sweep : RateLimiter → ℕ → RateLimiter
unfolding sweep sweep_due
maybe_sweep rl now =
    if sweep_due rl now then record (sweep rl now) { last_sweep = some now } else rl

unfoldable pub allow : RateLimiter → String → ℕ → RateLimiter × Bool
unfolding maybe_sweep take_token
allow rl key now =
    let swept = maybe_sweep rl now in
    let (b, verdict) = take_token rl.rate rl.window now (lookup key swept.buckets) in
    (record swept { buckets = insert key b swept.buckets }, verdict)

-- A client's calls: its key, at each of the instants. The result is the list of verdicts.
unfoldable pub allow_all : RateLimiter → List (String × ℕ) → List Bool
allow_all rl [] = []
allow_all rl ((key, now) ∷ calls) =
    let (rl', verdict) = allow rl key now in verdict ∷ allow_all rl' calls
