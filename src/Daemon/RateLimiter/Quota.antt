-- ===== src/Daemon/RateLimiter/Quota.antt =====
-- What the limiter grants to one client: its verdicts depend on its own calls, and no window holds
-- more than `rate` of them.
use devagent.Base.{
  ℕ, suc, ◌+◌, ◌≤◌, ◌<◌, String, ◌≡◌, refl, ap, Bool, Option, none, some, List, [], ◌∷◌, ◌++◌, inl,
  inr, arith, if◌then◌else◌, pos, ◌-ℤ◌, ◌≤ℤ◌, pos_part, eq_iff, str_eq, Bool-cases, length, drop,
  take, All,
}
use devagent.Daemon.RateLimiter.{Bucket, new_rate_limiter, take_token, allow_all}
use devagent.Daemon.RateLimiter.Sweep.{
  Buckets, Ascending, ideal_allow, ideal_allow_all, allow_all-eq-ideal,
}

-- The instants of the calls of one client, and the verdicts that it gets.
abbrev pub times_of : String → List (String × ℕ) → List ℕ
times_of key [] = []
times_of key ((k, now) ∷ calls) =
    if str_eq k key then now ∷ times_of key calls else times_of key calls

abbrev pub verdicts_of : String → List (String × ℕ) → List Bool → List Bool
verdicts_of key [] vs = []
verdicts_of key (c ∷ calls) [] = []
verdicts_of key ((k, now) ∷ calls) (v ∷ vs) =
    if str_eq k key then v ∷ verdicts_of key calls vs else verdicts_of key calls vs

-- A bucket by itself: the verdicts of the calls at these instants.
unfoldable pub bucket_verdicts : ℕ → ℕ → Option Bucket → List ℕ → List Bool
bucket_verdicts rate window o [] = []
bucket_verdicts rate window o (now ∷ times) =
    let (b, verdict) = take_token rate window now o in
    verdict ∷ bucket_verdicts rate window (some b) times

ideal-bucket_verdicts :
    (rate window : ℕ) (key : String) (calls : List (String × ℕ)) (m : Buckets)
    → verdicts_of key calls (ideal_allow_all rate window m calls)
      ≡ bucket_verdicts rate window (m key) (times_of key calls)
unfolding ideal_allow_all ideal_allow bucket_verdicts
ideal-bucket_verdicts rate window key [] m = refl
ideal-bucket_verdicts rate window key ((k, now) ∷ calls) m = elim (Bool-cases (str_eq k key)) [
  | inl own ↦
      let k_is_key = (eq_iff k key).0 own in
      rw
        (
          ideal-bucket_verdicts rate window key calls (ideal_allow rate window m k now).0,
          own,
          k_is_key,
        )
        refl
  | inr other ↦
      rw (ideal-bucket_verdicts rate window key calls (ideal_allow rate window m k now).0, other)
        refl
]

-- Over any interleaving of the calls of any clients, at instants that do not go back, the verdicts of
-- one client are those of a bucket that sees that client's calls alone.
pub verdicts_of-allow_all :
    (rate window : ℕ) (key : String) (calls : List (String × ℕ))
    → Ascending 0 calls
    → verdicts_of key calls (allow_all (new_rate_limiter rate window) calls)
      ≡ bucket_verdicts rate window none (times_of key calls)
verdicts_of-allow_all rate window key calls up =
    rw (allow_all-eq-ideal, up) (ideal-bucket_verdicts rate window key calls (λ k. none))

abbrev pub count_true : List Bool → ℕ
count_true [] = 0
count_true (v ∷ vs) = if v then suc (count_true vs) else count_true vs

-- Every instant lies in the half-open window that begins at `s`.
abbrev pub Within : ℕ → ℕ → List ℕ → Type 0
Within s window times = All (λ now. (s ≤ now) × (now < s + window)) times

after_calls : ℕ → ℕ → Option Bucket → List ℕ → Option Bucket
after_calls rate window o [] = o
after_calls rate window o (now ∷ times) =
    after_calls rate window (some (take_token rate window now o).0) times

drop-bucket_verdicts :
    (rate window : ℕ) (o : Option Bucket) (before times : List ℕ)
    → drop (length before) (bucket_verdicts rate window o (before ++ times))
      ≡ bucket_verdicts rate window (after_calls rate window o before) times
unfolding bucket_verdicts after_calls
drop-bucket_verdicts rate window o [] times = refl
drop-bucket_verdicts rate window o (now ∷ before) times =
    drop-bucket_verdicts rate window (some (take_token rate window now o).0) before times

-- A bucket never holds more than `rate - 1` tokens.
abbrev Fits : ℕ → Option Bucket → Type 0
Fits rate none = Unit
Fits rate (some b) = b.tokens ≤ℤ pos rate -ℤ pos 1

take_token-Fits :
    (rate window now : ℕ) (o : Option Bucket)
    → Fits rate o
    → Fits rate (some (take_token rate window now o).0)
unfolding take_token ◌-ℤ◌
take_token-Fits rate window now none h = ground arith
take_token-Fits rate window now (some b) h = ground arith

after_calls-Fits :
    (rate window : ℕ) (o : Option Bucket) (times : List ℕ)
    → Fits rate o
    → Fits rate (after_calls rate window o times)
unfolding after_calls
after_calls-Fits rate window o [] h = h
after_calls-Fits rate window o (now ∷ times) h =
    after_calls-Fits rate window (some (take_token rate window now o).0) times
      (take_token-Fits rate window now o h)

-- From a bucket whose last grant lies in the window, no more than its tokens are granted there.
count_recent :
    (rate window s : ℕ) (b : Bucket) (times : List ℕ)
    → s ≤ b.last_time
    → Within s window times
    → count_true (bucket_verdicts rate window (some b) times) ≤ pos_part b.tokens
unfolding bucket_verdicts take_token ◌-ℤ◌
count_recent rate window s b [] le h = omega arith
count_recent rate window s b (now ∷ times) le h = ground (
  arith,
  count_recent rate window s b times le h.1,
  count_recent rate window s (record { tokens = b.tokens -ℤ pos 1; last_time = now }) times h.0.0
      h.1,
)

count_window :
    (rate window s : ℕ) (o : Option Bucket) (times : List ℕ)
    → 0 < rate
    → Fits rate o
    → Within s window times
    → count_true (bucket_verdicts rate window o times) ≤ rate
unfolding bucket_verdicts take_token ◌-ℤ◌
count_window rate window s o [] pos_rate fits h = omega arith
count_window rate window s none (now ∷ times) pos_rate fits h =
    ground (arith, count_recent rate window s (fresh now) times h.0.0 h.1)
  where
    fresh : ℕ → Bucket
    fresh t = record { tokens = pos rate -ℤ pos 1; last_time = t }
count_window rate window s (some b) (now ∷ times) pos_rate fits h = ground (
  arith,
  count_window rate window s (some b) times pos_rate fits h.1,
  count_recent rate window s (record { tokens = pos rate -ℤ pos 1; last_time = now }) times h.0.0
      h.1,
  count_recent rate window s (record { tokens = b.tokens -ℤ pos 1; last_time = now }) times h.0.0
      h.1,
)

take-bucket_verdicts :
    (rate window : ℕ) (o : Option Bucket) (times after : List ℕ)
    → take (length times) (bucket_verdicts rate window o (times ++ after))
      ≡ bucket_verdicts rate window o times
unfolding bucket_verdicts
take-bucket_verdicts rate window o [] after = refl
take-bucket_verdicts rate window o (now ∷ times) after =
    ap (◌∷◌ (take_token rate window now o).1)
      (take-bucket_verdicts rate window (some (take_token rate window now o).0) times after)

-- In any run of calls by any clients at instants that do not go back, take any consecutive calls of
-- one client that fall into one half-open window: at most `rate` of them are granted.
pub quota :
    (rate window s : ℕ) (key : String) (calls : List (String × ℕ)) (before times after : List ℕ)
    → 0 < rate
    → Ascending 0 calls
    → times_of key calls ≡ before ++ (times ++ after)
    → Within s window times
    → count_true (
        take (length times) (
          drop
            (length before)
            (verdicts_of key calls (allow_all (new_rate_limiter rate window) calls))))
      ≤ rate
quota rate window s key calls before times after pos_rate up split inside =
    rw (verdicts_of-allow_all, up, split, drop-bucket_verdicts, take-bucket_verdicts)
      (count_window rate window s _ times pos_rate (after_calls-Fits rate window none before tt)
        inside)
