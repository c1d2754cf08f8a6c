-- ===== src/Tests/RateLimiter.antt =====
-- internal/daemon/rate_limiter_test.go, and instances of the theorems on the limiter.
use devagent.Base.{
  ℕ, ◌≤◌, ◌≡◌, refl, true, false, String, List, [], ◌∷◌, arith, drop, ◌-ℤ◌, lookup, insert, keep,
  remove, none, take,
}
use devagent.Daemon.RateLimiter.{new_rate_limiter, allow, allow_all}
use devagent.Daemon.RateLimiter.Sweep.{ideal_allow_all, allow_all-eq-ideal}
use devagent.Daemon.RateLimiter.Quota.{verdicts_of, count_true, quota}
use devagent.Daemon.RateLimiter.Starvation.{starvation}

-- A window of one second, as `Start` passes it, in milliseconds.
abbrev calls : List (String × ℕ)
calls = ("a", 10) ∷ ("b", 20) ∷ ("a", 30) ∷ ("a", 40) ∷ ("b", 2500) ∷ ("a", 2600) ∷ []

calls_verdicts :
    allow_all (new_rate_limiter 2 1000) calls ≡ true ∷ true ∷ true ∷ false ∷ true ∷ true ∷ []
unfolding new_rate_limiter allow_all allow lookup insert keep remove ◌-ℤ◌
calls_verdicts = refl

allow_all-eq-ideal_example :
    allow_all (new_rate_limiter 2 1000) calls ≡ ideal_allow_all 2 1000 (λ k. none) calls
allow_all-eq-ideal_example = allow_all-eq-ideal 2 1000 calls (omega arith)

quota_example :
    count_true (take 2 (drop 1 (verdicts_of "a" calls (allow_all (new_rate_limiter 2 1000) calls))))
    ≤ 2
quota_example =
    quota 2 1000 0 "a" calls (10 ∷ []) (30 ∷ 40 ∷ []) (2600 ∷ []) (omega arith) (omega arith) refl
      (omega arith)

-- A call each 0.9 s, at a rate of two a second.
abbrev slow : List (String × ℕ)
slow = ("a", 0) ∷ ("a", 900) ∷ ("a", 1800) ∷ []

starvation_example :
    verdicts_of "a" slow (allow_all (new_rate_limiter 2 1000) slow) ≡ true ∷ true ∷ false ∷ []
starvation_example =
    starvation 1000 0 "a" slow (900 ∷ []) (1800 ∷ []) (omega arith) refl (omega arith) (omega arith)
