-- ===== src/Api/Jobs/Retention.antt =====
-- The retained jobs and their file (`load_jobs` and `save_jobs` of src/api/jobs.rs).
pub mod Restart
use Prim.Native.String.{String}
use mb_printer_cli.Common.{
  ℕ, ◌-◌, Bool, true, false, not, ◌&&◌, ◌||◌, Option, none, some, List, [], map, if◌then◌else◌, ltb,
  leb, ◌==◌, length, drop,
}
use mb_printer_cli.Common.Text.{Text, codes}
use mb_printer_cli.Common.Map.{Map, values}
use mb_printer_cli.Common.Sort.{sort_by, collect_from}
use mb_printer_cli.Common.Result.{Result, ok, err}
use mb_printer_cli.Job.{Job, outcome_unknown, terminal}
use mb_printer_cli.Api.Errors.{ApiError, internal_error}

-- The part of the service's state that concerns jobs. A channel of events stands as the list of
-- what was sent on it, the latest first; `workers` holds the copy of the job that a running worker
-- owns.
pub record Service : Type 0 where
  pub max_recent_jobs : ℕ
  pub has_path : Bool  -- `config.jobs_path.is_some()`
  pub jobs : Map Job
  pub events : Map (List Job)
  pub cancellations : Map Bool
  pub workers : Map Job
  pub file : Option (List Job)  -- the jobs in the file, if it can be read

abbrev pub job_id : Job → ℕ
job_id j = j.id

-- The order of the keys `(job.updated_at_ms, job.id)`.
abbrev pub updated_le : Job → Job → Bool
updated_le a b =
    ltb a.updated_at_ms b.updated_at_ms || a.updated_at_ms == b.updated_at_ms && leb a.id b.id

-- `sort_by_key` and `drain(..len - max)`: the most recent jobs, the oldest first.
unfoldable pub most_recent : ℕ → List Job → List Job
most_recent max jobs =
    let sorted = sort_by updated_le jobs in
    if ltb max (length sorted) then drop (length sorted - max) sorted else sorted

abbrev pub restart_message : Text
restart_message = codes "service restarted before terminal outcome"

unfoldable pub restart_job : Job → Job
restart_job j =
    if not (terminal j)
    then record j { state = outcome_unknown; error = some restart_message }
    else j

abbrev pub or_empty : Option (List Job) → List Job
or_empty none = []
or_empty (some jobs) = jobs

unfoldable pub load_jobs : Bool → Option (List Job) → ℕ → Map Job
unfolding restart_job most_recent
load_jobs has_path file max =
    collect_from job_id []
      (map restart_job (most_recent max (if has_path then or_empty file else [])))

-- The write of the temporary file and its renaming succeed if `disk`.
unfoldable pub save_jobs : Bool → Service → Result ApiError (Unit {0}) × Service
unfolding most_recent
save_jobs disk s =
    if not s.has_path
    then (ok tt, s)
    else if disk
    then (ok tt, record s { file = some (most_recent s.max_recent_jobs (values s.jobs)) })
    else (err (internal_error "job persistence failed"), s)
