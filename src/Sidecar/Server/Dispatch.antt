-- ===== src/Sidecar/Server/Dispatch.antt =====
-- When a tool call is dispatched, and what its job says then.
use devagent.Base.{
  ℕ, ◌≡◌, ◌≢◌, ◌⊎◌, inl, inr, refl, String, true, false, none, some, arith, Bool-cases, str_eq,
  eq_iff, eq_refl, lookup-insert, Result, ok, err,
}
use devagent.Model.RouteTable.{gateway_maintenance}
use devagent.Sidecar.Dedup.{allow as allow_key}
use devagent.Sidecar.Progress.{
  Job, ProgressTracker, register_job, get_job, modify_job, complete, fail,
}
use devagent.Sidecar.Server.{
  SidecarServer, under_maintenance, duplicate_request, dispatched, get_gateway_status,
  handle_device_invoke, settle, handle_get_job_status,
}

module _ (A : Type 0) where
  abbrev pub pending : String → String → String → ℕ → Job A
  pending job_id request_id device_id created = record {
    id = job_id;
    request_id = request_id;
    device_id = device_id;
    status = "pending";
    progress = 0;
    result = none;
    error = "";
    created_at = created;
  }

  -- What a job is when its call has come back.
  abbrev pub settled : Result String A → Job A → Job A
  settled (ok reply) job = record job { status = "completed"; progress = 100; result = some reply }
  settled (err message) job = record job { status = "error"; error = message }

  pub settle-pending :
      (outcome : Result String A) (job_id : String) (job : Job A) (s : SidecarServer A)
      → handle_get_job_status A job_id s ≡ some job
      → handle_get_job_status A job_id (settle A job_id outcome s) ≡ some (settled outcome job)
  unfolding handle_get_job_status settle get_job complete fail modify_job
  settle-pending (ok reply) job_id job s found = rw (modify_job, found, lookup-insert, eq_refl) refl
  settle-pending (err message) job_id job s found =
      rw (modify_job, found, lookup-insert, eq_refl) refl

  registered :
      (job_id request_id device_id : String) (created : ℕ) (pt : ProgressTracker A)
      → get_job A job_id (register_job A job_id request_id device_id created pt)
        ≡ some (pending job_id request_id device_id created)
  unfolding get_job register_job
  registered job_id request_id device_id created pt = rw (lookup-insert, eq_refl) refl

  -- A call of a device's tool comes to one of three things. Under maintenance of its gateway it is
  -- refused and nothing changes, the window of recent calls included. A call that the window does not
  -- allow is refused, and registers no job. Any other call is dispatched: its job is found as pending,
  -- and once the forwarded call has come back, with its result or its error.
  pub handle_device_invoke_lem :
      (device_id key : String) (instant : ℕ) (job_id request_id : String) (created : ℕ)
      (s : SidecarServer A) (outcome : Result String A)
      → let after = handle_device_invoke A device_id key instant job_id request_id created s in
        ((get_gateway_status A device_id s ≡ gateway_maintenance)
          × (after ≡ (s, under_maintenance device_id)))
        ⊎ ((get_gateway_status A device_id s ≢ gateway_maintenance)
            × ((allow_key s.dedup key instant).1 ≡ false)
            × (after.1 ≡ duplicate_request)
            × (after.0.progress ≡ s.progress))
        ⊎ ((get_gateway_status A device_id s ≢ gateway_maintenance)
            × ((allow_key s.dedup key instant).1 ≡ true)
            × (after.1 ≡ dispatched job_id)
            × (handle_get_job_status A job_id after.0
                ≡ some (pending job_id request_id device_id created))
            × (handle_get_job_status A job_id (settle A job_id outcome after.0)
                ≡ some (settled outcome (pending job_id request_id device_id created))))
  unfolding handle_device_invoke handle_get_job_status
  handle_device_invoke_lem device_id key instant job_id request_id created s outcome =
      elim (Bool-cases (str_eq (get_gateway_status A device_id s) gateway_maintenance)) [
        | inl closed ↦ inl (
          ground (arith, eq_iff (get_gateway_status A device_id s) gateway_maintenance),
          rw (handle_device_invoke, closed) refl,
        )
        | inr up ↦
            let serving : get_gateway_status A device_id s ≢ gateway_maintenance =
              ground (arith, eq_iff (get_gateway_status A device_id s) gateway_maintenance) in
            elim (Bool-cases (allow_key s.dedup key instant).1) [
              | inr repeated ↦ inr (
                  inl (
                    serving,
                    repeated,
                    rw (handle_device_invoke, up, repeated) refl,
                    rw (handle_device_invoke, up, repeated) refl,
                  ))
              | inl fresh ↦
                  let s' =
                    (handle_device_invoke A device_id key instant job_id request_id created s).0 in
                  let found : handle_get_job_status A job_id s'
                      ≡ some (pending job_id request_id device_id created) =
                    rw (handle_device_invoke, up, fresh)
                      (registered job_id request_id device_id created s.progress) in
                  inr (
                    inr (
                      serving,
                      fresh,
                      rw (handle_device_invoke, up, fresh) refl,
                      found,
                      settle-pending outcome job_id (pending job_id request_id device_id created) s'
                          found,
                    ))
            ]
      ]
