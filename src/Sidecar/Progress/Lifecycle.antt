-- ===== src/Sidecar/Progress/Lifecycle.antt =====
-- The life of one job in a table that many jobs share.
use devagent.Base.{
  ℕ, ◌+◌, ◌≤◌, String, ◌≡◌, ◌≢◌, refl, ap, ◌∙◌, not, Option, none, some, List, [], ◌∷◌, ◌++◌, inl,
  inr, arith, ltb, if◌then◌else◌, lookup, eq_iff, eq_refl, str_eq, str_eq-eq_false, lookup-insert,
  lookup-keep, Option-cases,
}
use devagent.Sidecar.Progress.{
  Job, ProgressTracker, job_ttl, register_job, get_job, modify_job, update_progress, complete, fail,
  cleanup,
}

module _ (A : Type 0) where
  -- The calls on a tracker.
  pub data Event : Type 0 where
    registered : String → String → String → ℕ → Event
    progressed : String → ℕ → String → Event
    completed : String → A → Event
    failed : String → String → Event
    tick : ℕ → Event

  unfoldable pub run : Event → ProgressTracker A → ProgressTracker A
  run (registered id req dev now) pt = register_job A id req dev now pt
  run (progressed id n s) pt = update_progress A id n s pt
  run (completed id r) pt = complete A id r pt
  run (failed id msg) pt = fail A id msg pt
  run (tick now) pt = cleanup A now pt

  unfoldable pub run_all : List Event → ProgressTracker A → ProgressTracker A
  unfolding run
  run_all [] pt = pt
  run_all (e ∷ events) pt = run_all events (run e pt)

  -- What an event does to the entry of one job: nothing, if it is another job's.
  unfoldable pub step : String → Event → Option (Job A) → Option (Job A)
  step id (registered k req dev now) o =
      if str_eq k id
      then some (record {
        id = k;
        request_id = req;
        device_id = dev;
        status = "pending";
        progress = 0;
        result = none;
        error = "";
        created_at = now;
      })
      else o
  step id (progressed k n s) none = none
  step id (progressed k n s) (some job) =
      if str_eq k id then some (record job { progress = n; status = s }) else some job
  step id (completed k r) none = none
  step id (completed k r) (some job) =
      if str_eq k id
      then some (record job { status = "completed"; progress = 100; result = some r })
      else some job
  step id (failed k msg) none = none
  step id (failed k msg) (some job) =
      if str_eq k id then some (record job { status = "error"; error = msg }) else some job
  step id (tick now) none = none
  step id (tick now) (some job) = if ltb (job.created_at + job_ttl) now then none else some job

  unfoldable pub steps : String → List Event → Option (Job A) → Option (Job A)
  unfolding step
  steps id [] o = o
  steps id (e ∷ events) o = steps id events (step id e o)

  lookup-modify_job :
      (k id : String) (f : Job A → Job A) (pt : ProgressTracker A)
      → lookup id (modify_job A k f pt) ≡ elim (lookup id pt) [
        | none ↦ none
        | some job ↦ if str_eq k id then some (f job) else some job
      ]
  unfolding modify_job
  lookup-modify_job k id f pt = elim (Option-cases (lookup k pt)) [
    | inl absent ↦ ground (arith, eq_iff k id)
    | inr (job, found) ↦ ground (arith, eq_iff k id, lookup-insert k id (f job) pt)
  ]

  get_job-run :
      (id : String) (e : Event) (pt : ProgressTracker A)
      → get_job A id (run e pt) ≡ step id e (get_job A id pt)
  unfolding get_job run step register_job update_progress complete fail cleanup
  get_job-run id (registered k req dev now) pt = lookup-insert k id _ pt
  get_job-run id (progressed k n s) pt =
      ground (
        arith,
        lookup-modify_job k id (λ (job : Job A). record job { progress = n; status = s }) pt,
      )
  get_job-run id (completed k r) pt = ground (
    arith,
    lookup-modify_job k id
        (λ (job : Job A). record job { status = "completed"; progress = 100; result = some r }) pt,
  )
  get_job-run id (failed k msg) pt = ground (
    arith,
    lookup-modify_job k id (λ (job : Job A). record job { status = "error"; error = msg }) pt,
  )
  get_job-run id (tick now) pt =
      ground (arith, lookup-keep (λ (job : Job A). not (ltb (job.created_at + job_ttl) now)) id pt)

  get_job-run_all :
      (id : String) (events : List Event) (pt : ProgressTracker A)
      → get_job A id (run_all events pt) ≡ steps id events (get_job A id pt)
  unfolding run_all steps
  get_job-run_all id [] pt = refl
  get_job-run_all id (e ∷ events) pt =
      get_job-run_all id events (run e pt) ∙ ap (steps id events) (get_job-run id e pt)

  steps-append :
      (id : String) (xs ys : List Event) (o : Option (Job A))
      → steps id (xs ++ ys) o ≡ steps id ys (steps id xs o)
  unfolding steps
  steps-append id [] ys o = refl
  steps-append id (e ∷ xs) ys o = steps-append id xs ys (step id e o)

  -- An event that leaves the job with this name, made at this instant, alone: another job's, or a
  -- cleanup within the job's time to live.
  abbrev pub Spares : String → ℕ → Event → Type 0
  Spares id made (registered k req dev now) = k ≢ id
  Spares id made (progressed k n s) = k ≢ id
  Spares id made (completed k r) = k ≢ id
  Spares id made (failed k msg) = k ≢ id
  Spares id made (tick now) = now ≤ made + job_ttl

  abbrev pub AllSpare : String → ℕ → List Event → Type 0
  AllSpare id made [] = Unit
  AllSpare id made (e ∷ events) = Spares id made e × AllSpare id made events

  step_spared :
      (id : String) (e : Event) (job : Job A)
      → Spares id job.created_at e
      → step id e (some job) ≡ some job
  unfolding step
  step_spared id (registered k req dev now) job h = rw (str_eq-eq_false k id h) refl
  step_spared id (progressed k n s) job h = rw (str_eq-eq_false k id h) refl
  step_spared id (completed k r) job h = rw (str_eq-eq_false k id h) refl
  step_spared id (failed k msg) job h = rw (str_eq-eq_false k id h) refl
  step_spared id (tick now) job h = ground arith

  steps_spared :
      (id : String) (events : List Event) (job : Job A)
      → AllSpare id job.created_at events
      → steps id events (some job) ≡ some job
  unfolding steps
  steps_spared id [] job h = refl
  steps_spared id (e ∷ events) job h =
      rw (step_spared id e job h.0) (steps_spared id events job h.1)

  module _ (before between after : List Event) (id req dev : String) (now : ℕ) where
    -- The job as `Register` makes it.
    abbrev pending_job : Job A
    pending_job = record {
      id = id;
      request_id = req;
      device_id = dev;
      status = "pending";
      progress = 0;
      result = none;
      error = "";
      created_at = now;
    }

    -- The events of a job that is registered, and then ends by this event.
    abbrev pub history : Event → List Event
    history end = before ++ registered id req dev now ∷ between ++ end ∷ after

    module _ (quiet : AllSpare id now between) (quiet_after : AllSpare id now after) where
      ends_as :
          (end : Event) (done : Job A)
          → step id end (some pending_job) ≡ some done
          → done.created_at ≡ now
          → get_job A id (run_all (history end) []) ≡ some done
      ends_as end done e made = rw (
        get_job-run_all,
        steps-append id (before ++ registered id req dev now ∷ between) (end ∷ after),
        steps-append id before (registered id req dev now ∷ between),
        started (steps id before (get_job A id [])),
        ended,
      )
        where
          started :
              (o : Option (Job A))
              → steps id (registered id req dev now ∷ between) o ≡ some pending_job
          started o =
              unfold steps step in rw (eq_refl id) (steps_spared id between pending_job quiet)

          ended : steps id (end ∷ after) (some pending_job) ≡ some done
          ended = unfold steps in rw e (steps_spared id after done (rw made quiet_after))

      -- Whatever other jobs do and however often the table is cleaned up within the job's time to live,
      -- a job that is registered and then completed is found as completed with its result, at progress
      -- 100, and one that fails is found with its error, at progress 0.
      pub get_job_finished :
          (r : A) (msg : String)
          → (get_job A id (run_all (history (completed id r)) [])
              ≡ some (record pending_job { status = "completed"; progress = 100; result = some r }))
            × (get_job A id (run_all (history (failed id msg)) [])
                ≡ some (record pending_job { status = "error"; error = msg }))
      unfolding step
      get_job_finished r msg = (
        ends_as (completed id r) _ (ground (arith, eq_iff id id)) refl,
        ends_as (failed id msg) _ (ground (arith, eq_iff id id)) refl,
      )
