-- ===== src/Daemon/RateLimiter/Starvation.antt =====
-- internal/daemon/rate_limiter.go: a client that never pauses for a whole window.
use devagent.Base.{
  ℕ, suc, ◌+◌, ◌<◌, String, ◌≡◌, refl, true, false, none, some, List, [], ◌∷◌, ◌++◌, arith, pos,
  ◌-ℤ◌, ◌≤ℤ◌, length, replicate, All,
}
use devagent.Daemon.RateLimiter.{Bucket, new_rate_limiter, take_token, allow_all}
use devagent.Daemon.RateLimiter.Sweep.{Ascending}
use devagent.Daemon.RateLimiter.Quota.{
  times_of, verdicts_of, bucket_verdicts, verdicts_of-allow_all,
}

-- Each call comes less than a window after the one before it.
abbrev pub Steady : ℕ → ℕ → List ℕ → Type 0
Steady window t [] = Unit
Steady window t (now ∷ times) = (now < t + window) × Steady window now times

abbrev pub last_of : ℕ → List ℕ → ℕ
last_of t [] = t
last_of t (now ∷ times) = last_of now times

exhausted :
    (rate window : ℕ) (b : Bucket) (times : List ℕ)
    → b.tokens ≤ℤ pos 0
    → All (λ now. now < b.last_time + window) times
    → bucket_verdicts rate window (some b) times ≡ replicate (length times) false
unfolding bucket_verdicts take_token
exhausted rate window b [] out h = refl
exhausted rate window b (now ∷ times) out h = ground (arith, exhausted rate window b times out h.1)

spend :
    (rate window t : ℕ) (times late : List ℕ)
    → Steady window t times
    → All (λ now. now < last_of t times + window) late
    → bucket_verdicts rate window
        (some (record { tokens = pos (length times); last_time = t }))
        (times ++ late)
      ≡ replicate (length times) true ++ replicate (length late) false
unfolding bucket_verdicts take_token ◌-ℤ◌
spend rate window t [] late steady h = exhausted rate window _ late (omega arith) h
spend rate window t (now ∷ times) late steady h =
    ground (arith, spend rate window now times late steady.1 h)

fresh-bucket_verdicts :
    (window first : ℕ) (times late : List ℕ)
    → Steady window first times
    → All (λ now. now < last_of first times + window) late
    → bucket_verdicts (suc (length times)) window none (first ∷ times ++ late)
      ≡ replicate (suc (length times)) true ++ replicate (length late) false
unfolding bucket_verdicts take_token ◌-ℤ◌
fresh-bucket_verdicts window first times late steady h =
    ground (arith, spend (suc (length times)) window first times late steady h)

-- A client that never pauses for a whole window between grants spends its `rate` grants and is then
-- refused until a window has passed since the last grant, however slow its calls are: the tokens do
-- not come back with time. (A call each 0.9 s is refused at the 31st of 30 a second.)
pub starvation :
    (window first : ℕ) (key : String) (calls : List (String × ℕ)) (times late : List ℕ)
    → Ascending 0 calls
    → times_of key calls ≡ first ∷ times ++ late
    → Steady window first times
    → All (λ now. now < last_of first times + window) late
    → verdicts_of key calls (allow_all (new_rate_limiter (suc (length times)) window) calls)
      ≡ replicate (suc (length times)) true ++ replicate (length late) false
starvation window first key calls times late up split steady h =
    rw (verdicts_of-allow_all, up, split) (fresh-bucket_verdicts window first times late steady h)
