-- ===== src/Sidecar/Dedup.antt =====
-- internal/sidecar/dedup.go. Instants are nanoseconds on the monotonic clock, as in
-- Daemon/RateLimiter; `MakeKey` formats the JSON text of the parameters into a key, so a key is a
-- text here. The cleanup goroutine runs between calls, at the instant that it reads.
pub mod Window
use devagent.Base.{
  ℕ, ◌+◌, String, Bool, true, false, not, Option, none, some, List, [], ◌∷◌, ltb, if◌then◌else◌,
  Assoc, lookup, insert, keep,
}

pub record DedupWindow : Type 0 where
  pub seen : Assoc ℕ
  pub ttl : ℕ

unfoldable pub new_dedup_window : ℕ → DedupWindow
new_dedup_window ttl = record { seen = []; ttl = ttl }

-- `ok && time.Since(t) < dw.ttl`
unfoldable pub is_recent : ℕ → ℕ → Option ℕ → Bool
is_recent ttl now none = false
is_recent ttl now (some t) = ltb now (t + ttl)

unfoldable pub allow : DedupWindow → String → ℕ → DedupWindow × Bool
unfolding is_recent
allow dw key now =
    if is_recent dw.ttl now (lookup key dw.seen)
    then (dw, false)
    else (record dw { seen = insert key now dw.seen }, true)

-- One tick of `cleanup`.
unfoldable pub cleanup : DedupWindow → ℕ → DedupWindow
cleanup dw now = record dw { seen = keep (λ t. not (ltb (t + dw.ttl) now)) dw.seen }

-- What happens to a window: a call of `Allow`, or a tick of the cleanup.
pub data Event : Type 0 where
  call : String → ℕ → Event
  tick : ℕ → Event

-- The verdicts of the calls, in order.
unfoldable pub verdicts : DedupWindow → List Event → List Bool
unfolding allow cleanup
verdicts dw [] = []
verdicts dw (call key now ∷ events) =
    let (dw', verdict) = allow dw key now in verdict ∷ verdicts dw' events
verdicts dw (tick now ∷ events) = verdicts (cleanup dw now) events
