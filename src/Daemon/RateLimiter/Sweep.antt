-- ===== src/Daemon/RateLimiter/Sweep.antt =====
-- Sweeping is invisible: a limiter that sweeps gives the verdicts of one that never forgets a bucket.
use devagent.Base.{
  ℕ, ◌+◌, ◌≤◌, String, ◌≡◌, refl, ap, Bool, true, false, not, Option, none, some, List, [], ◌∷◌,
  inl, inr, arith, if◌then◌else◌, Assoc, lookup, insert, keep_value, str_eq, lookup-insert,
  lookup-keep, Bool-cases,
}
use devagent.Daemon.RateLimiter.{
  Bucket, RateLimiter, new_rate_limiter, is_idle, sweep_due, take_token, maybe_sweep, allow,
  allow_all,
}

-- The specification: a bucket for each key, and no sweeping.
abbrev pub Buckets : Type 0
Buckets = String → Option Bucket

unfoldable pub ideal_allow : ℕ → ℕ → Buckets → String → ℕ → Buckets × Bool
unfolding take_token
ideal_allow rate window m key now =
    let (b, verdict) = take_token rate window now (m key) in
    ((λ j. if str_eq key j then some b else m j), verdict)

unfoldable pub ideal_allow_all : ℕ → ℕ → Buckets → List (String × ℕ) → List Bool
unfolding ideal_allow
ideal_allow_all rate window m [] = []
ideal_allow_all rate window m ((key, now) ∷ calls) =
    let (m', verdict) = ideal_allow rate window m key now in
    verdict ∷ ideal_allow_all rate window m' calls

-- The instants of the calls do not go back: each is at least the one before.
abbrev pub Ascending : ℕ → List (String × ℕ) → Type 0
Ascending t [] = Unit
Ascending t ((key, now) ∷ calls) = (t ≤ now) × Ascending now calls

-- Up to the instant `now` the entry is the same, or it is a forgotten bucket that is out of date.
abbrev Agrees : ℕ → ℕ → Option Bucket → Option Bucket → Type 0
Agrees window now none none = Unit
Agrees window now none (some b) = b.last_time + window ≤ now
Agrees window now (some a) none = ⊥
Agrees window now (some a) (some b) = (a.tokens ≡ b.tokens) × (a.last_time ≡ b.last_time)

Agrees-later :
    (window t now : ℕ) (a b : Option Bucket) → t ≤ now → Agrees window t a b → Agrees window now a b
Agrees-later window t now none none le h = tt
Agrees-later window t now none (some b) le h = omega arith
Agrees-later window t now (some a) none le h = h
Agrees-later window t now (some a) (some b) le h = h

-- Dropping an idle bucket keeps the agreement.
Agrees-keep :
    (window now : ℕ) (a b : Option Bucket)
    → Agrees window now a b
    → Agrees window now (keep_value (λ c. not (is_idle window now c)) a) b
unfolding is_idle
Agrees-keep window now none none h = tt
Agrees-keep window now none (some b) h = h
Agrees-keep window now (some a) none h = absurd h
Agrees-keep window now (some a) (some b) h = ground arith

-- Entries that agree give the same verdict and the same new bucket, up to the record's equality.
take_token-Agrees :
    (rate window now : ℕ) (a b : Option Bucket)
    → Agrees window now a b
    → (take_token rate window now a ≡ take_token rate window now b)
unfolding take_token
take_token-Agrees rate window now none none h = refl
take_token-Agrees rate window now none (some b) h = ground arith
take_token-Agrees rate window now (some a) none h = absurd h
take_token-Agrees rate window now (some a) (some b) h = ground arith

-- The buckets and the specification agree on every key.
abbrev Simulates : ℕ → ℕ → Assoc Bucket → Buckets → Type 0
Simulates window now buckets m = (key : String) → Agrees window now (lookup key buckets) (m key)

maybe_sweep-Simulates :
    (now : ℕ) (rl : RateLimiter) (m : Buckets)
    → Simulates rl.window now rl.buckets m
    → Simulates rl.window now (maybe_sweep rl now).buckets m
unfolding maybe_sweep
maybe_sweep-Simulates now rl m h key = elim (Bool-cases (sweep_due rl now)) [
  | inl due ↦ rw (due, lookup-keep) (Agrees-keep rl.window now _ _ (h key))
  | inr kept ↦ rw kept (h key)
]

maybe_sweep_settings :
    (rl : RateLimiter) (now : ℕ)
    → ((maybe_sweep rl now).rate ≡ rl.rate) × ((maybe_sweep rl now).window ≡ rl.window)
unfolding maybe_sweep
maybe_sweep_settings rl now = ground arith

-- A write of the same bucket on both sides keeps the agreement.
Simulates-insert :
    (window now : ℕ) (buckets : Assoc Bucket) (m : Buckets) (key : String) (b : Bucket)
    → Simulates window now buckets m
    → Simulates window now (insert key b buckets) (λ j. if str_eq key j then some b else m j)
Simulates-insert window now buckets m key b h j = rw lookup-insert (go (str_eq key j) (h j))
  where
    go :
        (t : Bool)
        → Agrees window now (lookup j buckets) (m j)
        → Agrees window now (if t then some b else lookup j buckets) (if t then some b else m j)
    go true a = (refl, refl)
    go false a = a

-- One call: the verdicts agree, and so do the states after it.
record Step (rl rl' : RateLimiter) (now : ℕ) (m' : Buckets) : Type 0 where
  simulates : Simulates rl.window now rl'.buckets m'
  same_rate : rl'.rate ≡ rl.rate
  same_window : rl'.window ≡ rl.window

allow-ideal_allow :
    (now : ℕ) (rl : RateLimiter) (m : Buckets) (key : String)
    → Simulates rl.window now rl.buckets m
    → Step rl (allow rl key now).0 now (ideal_allow rl.rate rl.window m key now).0
      × ((allow rl key now).1 ≡ (ideal_allow rl.rate rl.window m key now).1)
unfolding allow ideal_allow
allow-ideal_allow now rl m key h =
    let swept = maybe_sweep-Simulates now rl m h in
    let same = take_token-Agrees rl.rate rl.window now _ _ (swept key) in
    (
      record {
        simulates = rw same (Simulates-insert rl.window now _ m key _ swept);
        same_rate = (maybe_sweep_settings rl now).0;
        same_window = (maybe_sweep_settings rl now).1;
      },
      ap (λ p. p.1) same,
    )

allow_all-Simulates :
    (calls : List (String × ℕ)) (t : ℕ) (rl : RateLimiter) (m : Buckets)
    → Simulates rl.window t rl.buckets m
    → Ascending t calls
    → allow_all rl calls ≡ ideal_allow_all rl.rate rl.window m calls
unfolding allow_all ideal_allow_all
allow_all-Simulates [] t rl m h up = refl
allow_all-Simulates ((key, now) ∷ calls) t rl m h up =
    let h' = λ (j : String). Agrees-later rl.window t now _ _ up.0 (h j) in
    let (step, same) = allow-ideal_allow now rl m key h' in
    let rest =
      allow_all-Simulates calls now (allow rl key now).0 (ideal_allow rl.rate rl.window m key now).0
        (rw step.same_window step.simulates) up.1 in
    rw (same, rest, step.same_rate, step.same_window) refl

-- Over any calls, by any clients, at instants that do not go back, the limiter gives exactly the
-- verdicts of the specification that keeps every bucket for ever: what `sweep` deletes is never
-- missed.
pub allow_all-eq-ideal :
    (rate window : ℕ) (calls : List (String × ℕ))
    → Ascending 0 calls
    → allow_all (new_rate_limiter rate window) calls
      ≡ ideal_allow_all rate window (λ key. none) calls
unfolding new_rate_limiter lookup
allow_all-eq-ideal rate window calls up =
    allow_all-Simulates calls 0 (new_rate_limiter rate window) (λ key. none) (λ key. tt) up
