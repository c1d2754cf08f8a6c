-- ===== src/Sidecar/Progress.antt =====
-- internal/sidecar/progress.go and the `Job` of internal/model/job.go. The type of a result (`any`)
-- is a parameter. Instants are nanoseconds on the monotonic clock.
pub mod Lifecycle
use devagent.Base.{
  ℕ, ◌+◌, ◌*◌, ◌^◌, String, Bool, true, false, not, Option, none, some, List, [], ◌∷◌, ltb,
  if◌then◌else◌, Assoc, lookup, insert, keep,
}

-- `10 * time.Minute`
abbrev pub job_ttl : ℕ
job_ttl = 600 * 10 ^ 9

module _ (A : Type 0) where
  pub record Job : Type 0 where
    pub id : String
    pub request_id : String
    pub device_id : String
    pub status : String
    pub progress : ℕ
    pub result : Option A
    pub error : String
    pub created_at : ℕ

  abbrev pub ProgressTracker : Type 0
  ProgressTracker = Assoc Job

  unfoldable pub register_job : String → String → String → ℕ → ProgressTracker → ProgressTracker
  register_job job_id request_id device_id now pt =
      insert job_id
        (record {
          id = job_id;
          request_id = request_id;
          device_id = device_id;
          status = "pending";
          progress = 0;
          result = none;
          error = "";
          created_at = now;
        })
        pt

  -- The result is a copy, so a caller cannot change the table through it.
  unfoldable pub get_job : String → ProgressTracker → Option Job
  get_job job_id pt = lookup job_id pt

  -- `if job, ok := pt.jobs[jobID]; ok { … }`
  unfoldable pub modify_job : String → (Job → Job) → ProgressTracker → ProgressTracker
  modify_job job_id f pt = elim (lookup job_id pt) [
    | none ↦ pt
    | some job ↦ insert job_id (f job) pt
  ]

  unfoldable pub update_progress : String → ℕ → String → ProgressTracker → ProgressTracker
  update_progress job_id progress status =
      modify_job job_id (λ job. record job { progress = progress; status = status })

  unfoldable pub complete : String → A → ProgressTracker → ProgressTracker
  complete job_id result =
      modify_job job_id
        (λ job. record job { status = "completed"; progress = 100; result = some result })

  unfoldable pub fail : String → String → ProgressTracker → ProgressTracker
  fail job_id err_msg = modify_job job_id (λ job. record job { status = "error"; error = err_msg })

  -- One tick of `cleanup`.
  unfoldable pub cleanup : ℕ → ProgressTracker → ProgressTracker
  cleanup now pt = keep (λ job. not (ltb (job.created_at + job_ttl) now)) pt
