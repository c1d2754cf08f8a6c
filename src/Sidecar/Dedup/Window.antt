-- ===== src/Sidecar/Dedup/Window.antt =====
-- The verdicts of a window, against the instants of the calls alone.
use devagent.Base.{
  ℕ, ◌+◌, ◌≤◌, String, ◌≡◌, refl, ap, Bool, true, false, not, Option, none, some, List, [], ◌∷◌,
  inl, inr, arith, ltb, if◌then◌else◌, lookup, insert, keep_value, str_eq, lookup-insert,
  lookup-keep, Bool-cases,
}
use devagent.Sidecar.Dedup.{
  DedupWindow, new_dedup_window, is_recent, cleanup, Event, call, tick, verdicts,
}

-- The instant of the last accepted call of each key.
abbrev pub Accepted : Type 0
Accepted = String → Option ℕ

-- The specification: a call is refused exactly if the last accepted call of its key is less than
-- `ttl` ago; nothing is ever forgotten.
unfoldable pub ideal_verdicts : ℕ → Accepted → List Event → List Bool
unfolding is_recent
ideal_verdicts ttl m [] = []
ideal_verdicts ttl m (call key now ∷ events) =
    let rest = ideal_verdicts ttl (λ j. if str_eq key j then some now else m j) events in
    let rest_refused = ideal_verdicts ttl m events in
    if is_recent ttl now (m key) then false ∷ rest_refused else true ∷ rest
ideal_verdicts ttl m (tick now ∷ events) = ideal_verdicts ttl m events

abbrev instant : Event → ℕ
instant (call key now) = now
instant (tick now) = now

-- The instants do not go back.
abbrev pub Ascending : ℕ → List Event → Type 0
Ascending t [] = Unit
Ascending t (e ∷ events) = (t ≤ instant e) × Ascending (instant e) events

-- The entry is the same, or it was forgotten and is out of date.
abbrev Agrees : ℕ → ℕ → Option ℕ → Option ℕ → Type 0
Agrees ttl now none none = Unit
Agrees ttl now none (some t) = t + ttl ≤ now
Agrees ttl now (some s) none = ⊥
Agrees ttl now (some s) (some t) = s ≡ t

Agrees-later : (ttl t now : ℕ) (a b : Option ℕ) → t ≤ now → Agrees ttl t a b → Agrees ttl now a b
Agrees-later ttl t now none none le h = tt
Agrees-later ttl t now none (some b) le h = omega arith
Agrees-later ttl t now (some a) none le h = h
Agrees-later ttl t now (some a) (some b) le h = h

Agrees-keep :
    (ttl now : ℕ) (a b : Option ℕ)
    → Agrees ttl now a b
    → Agrees ttl now (keep_value (λ t. not (ltb (t + ttl) now)) a) b
Agrees-keep ttl now none none h = tt
Agrees-keep ttl now none (some b) h = h
Agrees-keep ttl now (some a) none h = absurd h
Agrees-keep ttl now (some a) (some b) h = ground arith

is_recent-Agrees :
    (ttl now : ℕ) (a b : Option ℕ) → Agrees ttl now a b → is_recent ttl now a ≡ is_recent ttl now b
unfolding is_recent
is_recent-Agrees ttl now none none h = refl
is_recent-Agrees ttl now none (some b) h = ground arith
is_recent-Agrees ttl now (some a) none h = absurd h
is_recent-Agrees ttl now (some a) (some b) h = ground arith

abbrev Simulates : ℕ → DedupWindow → Accepted → Type 0
Simulates now dw m = (key : String) → Agrees dw.ttl now (lookup key dw.seen) (m key)

Simulates-insert :
    (now : ℕ) (dw : DedupWindow) (m : Accepted) (key : String)
    → Simulates now dw m
    → Simulates now
        (record dw { seen = insert key now dw.seen })
        (λ j. if str_eq key j then some now else m j)
Simulates-insert now dw m key h j = rw lookup-insert (go (str_eq key j) (h j))
  where
    go :
        (t : Bool)
        → Agrees dw.ttl now (lookup j dw.seen) (m j)
        → Agrees dw.ttl now (if t then some now else lookup j dw.seen) (if t then some now else m j)
    go true a = refl
    go false a = a

verdicts-Simulates :
    (events : List Event) (t : ℕ) (dw : DedupWindow) (m : Accepted)
    → Simulates t dw m
    → Ascending t events
    → verdicts dw events ≡ ideal_verdicts dw.ttl m events
unfolding verdicts ideal_verdicts
verdicts-Simulates [] t dw m h up = refl
verdicts-Simulates (call key now ∷ events) t dw m h up =
    let h' = λ (j : String). Agrees-later dw.ttl t now _ _ up.0 (h j) in
    let same = is_recent-Agrees dw.ttl now _ _ (h' key) in
    elim (Bool-cases (is_recent dw.ttl now (m key))) [
      | inl recent ↦ rw (same, recent) (ap (◌∷◌ false) (verdicts-Simulates events now dw m h' up.1))
      | inr free ↦
          rw (same, free)
            (ap (◌∷◌ true) (
              verdicts-Simulates events now (record dw { seen = insert key now dw.seen })
                (λ j. if str_eq key j then some now else m j) (Simulates-insert now dw m key h')
                up.1))
    ]
verdicts-Simulates (tick now ∷ events) t dw m h up =
    verdicts-Simulates events now (cleanup dw now) m
      (λ j. rw lookup-keep (Agrees-keep dw.ttl now _ _ (Agrees-later dw.ttl t now _ _ up.0 (h j))))
      up.1

-- Over any calls and cleanups, at instants that do not go back, the window refuses exactly the calls
-- that come less than `ttl` after the last accepted call of the same key: the cleanup never lets a
-- duplicate through, and never keeps a key blocked.
pub verdicts-eq-ideal :
    (ttl : ℕ) (events : List Event)
    → Ascending 0 events
    → verdicts (new_dedup_window ttl) events ≡ ideal_verdicts ttl (λ key. none) events
unfolding new_dedup_window lookup
verdicts-eq-ideal ttl events up =
    verdicts-Simulates events 0 (new_dedup_window ttl) (λ key. none) (λ key. tt) up
