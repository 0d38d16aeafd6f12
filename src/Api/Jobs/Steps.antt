-- ===== src/Api/Jobs/Steps.antt =====
-- The interleavings of submissions, workers and cancellations on the retained jobs
-- (src/api/jobs.rs): each step is one critical section or one report of a worker.
pub mod Invariant
pub mod Reachable
pub mod Final
pub mod Lifecycle
pub mod LostCancellation
use mb_printer_cli.Common.{ℕ, ◌≡◌, ◌≤◌, Bool, true, false, Option, none, some, List, [], is_some}
use mb_printer_cli.Common.Map.{Map, lookup, insert}
use mb_printer_cli.Common.Result.{Result, ok, err}
use mb_printer_cli.Job.{Job, JobState, queued, running, terminal}
use mb_printer_cli.Api.Errors.{ApiError}
use mb_printer_cli.Api.Jobs.Retention.{Service, load_jobs}
use mb_printer_cli.Api.Jobs.Admission.{Admitted, accepted, replayed, find_own, admit}
use mb_printer_cli.Api.Jobs.Worker.{
  Progress, Execution, start_job, report_job, finish_job, open_events, register_flag, publish,
  retire, raise_flag, cancel_found, cancel_cloud_found, cancelled_flag,
}

-- The service that starts from a file.
unfoldable pub started : Bool → Option (List Job) → ℕ → Service
started has_path file max = record {
  max_recent_jobs = max;
  has_path = has_path;
  jobs = load_jobs has_path file max;
  events = [];
  cancellations = [];
  workers = [];
  file = file;
}

-- An accepted job goes to a worker of its own, `spawn_blocking`, which holds a copy.
unfoldable pub hand_over : Job → Result ApiError Admitted → Service → Service
hand_over job (ok (accepted j)) s = record s { workers = insert job.id job s.workers }
hand_over job (ok (replayed j)) s = s
hand_over job (err e) s = s

unfoldable pub submitted : Bool → Job → Service → Service
unfolding hand_over
submitted disk job s = let (r, t) = admit disk job s in hand_over job r t

pub data Step (s : Service) : Service → Type 0 where
  -- The identifier of a new job is fresh (`Uuid::new_v4`, or that of a new cloud job).
  submits :
      (disk : Bool) (job : Job)
      → job.state ≡ queued
      → lookup job.id s.jobs ≡ none
      → lookup job.id s.workers ≡ none
      → Step s (submitted disk job s)
  -- A submission under the key of a retained job, also under its identifier: a cloud job that the
  -- agent hands over again.
  resubmits :
      (disk : Bool) (job existing : Job)
      → find_own job.idempotency_key s.jobs ≡ some existing
      → Step s (submitted disk job s)
  -- The channel and the flag are registered once each.
  opens :
      (id : ℕ)
      → is_some (lookup id s.workers) ≡ true
      → lookup id s.events ≡ none
      → Step s (open_events id s)
  registers :
      (id : ℕ)
      → is_some (lookup id s.workers) ≡ true
      → is_some (lookup id s.events) ≡ true
      → lookup id s.cancellations ≡ none
      → Step s (register_flag id s)
  starts :
      (now id : ℕ) (j : Job)
      → lookup id s.workers ≡ some j
      → j.state ≡ queued
      → is_some (lookup id s.cancellations) ≡ true
      → Step s (publish id (start_job now j) s)
  reports :
      (now id : ℕ) (p : Progress) (item copy : ℕ) (j : Job)
      → lookup id s.workers ≡ some j
      → j.state ≡ running
      → Step s (publish id (report_job now p item copy j) s)
  -- The worker reads its flag, ends its copy of the job and sends it; only `retires` takes the lock on
  -- the jobs.
  finishes :
      (now id : ℕ) (execution : Execution) (j : Job)
      → lookup id s.workers ≡ some j
      → j.state ≡ running
      → Step s
          (publish id (finish_job now (cancelled_flag (lookup id s.cancellations)) execution j) s)
  retires :
      (disk : Bool) (id : ℕ) (j : Job)
      → lookup id s.workers ≡ some j
      → terminal j ≡ true
      → Step s (retire disk id j s)
  -- A cancellation raises the flag, and then changes the job under the lock on the jobs.
  raises : (id : ℕ) → Step s (raise_flag id s)
  cancels : (disk : Bool) (now id : ℕ) → Step s (cancel_found disk now id s (lookup id s.jobs)).1
  cancels_cloud :
      (disk : Bool) (now id : ℕ) → Step s (cancel_cloud_found disk now id s (lookup id s.jobs)).1

pub data Reach (s : Service) : Service → Type 0 where
  here : Reach s s
  next : {t u : Service} → Reach s t → Step t u → Reach s u
