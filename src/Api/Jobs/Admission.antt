-- ===== src/Api/Jobs/Admission.antt =====
-- The part of `JobExecutor::submit` (src/api/jobs.rs) that holds the lock on the jobs, and the
-- look-up of a repeated request before it.
pub mod Idempotence
pub mod Effects
pub mod Retry
use mb_printer_cli.Common.{
  ℕ, Bool, true, false, not, ◌&&◌, ◌||◌, Option, none, some, List, [], ◌∷◌, if◌then◌else◌, ltb, leb,
  ◌==◌, length, find?, keep,
}
use mb_printer_cli.Common.Text.{Text, opt_text_eq}
use mb_printer_cli.Common.Map.{Map, insert, remove, values}
use mb_printer_cli.Common.Result.{Result, ok, err, ◌>>=◌}
use mb_printer_cli.Job.{Job, terminal}
use mb_printer_cli.Api.Errors.{ApiError, conflict, too_many_requests}
use mb_printer_cli.Api.Jobs.Retention.{Service, save_jobs}

abbrev pub conflict_error : ApiError
conflict_error = conflict "idempotency key was used for a different request"

unfoldable pub find_key : Text → Map Job → Option Job
find_key key jobs = find? (λ j. opt_text_eq j.idempotency_key (some key)) (values jobs)

-- A job that was found under the key answers the request if it was the same request.
unfoldable pub replay : Option Text → Job → Result ApiError Job
replay hash existing =
    if opt_text_eq existing.request_hash hash then ok existing else err conflict_error

abbrev pub replay_found : Option Text → Option Job → Result ApiError (Option Job)
replay_found hash none = ok none
replay_found hash (some existing) = do j ← replay hash existing; ok (some j)

-- The look-up at the head of `submit`, under the read lock: `none` goes on to validation.
unfoldable pub find_replay : Option Text → Text → Service → Result ApiError (Option Job)
unfolding replay
find_replay none hash s = ok none
find_replay (some key) hash s = replay_found (some hash) (find_key key s.jobs)

-- `min_by_key`: the first of the least.
abbrev pub older : Job → Job → Bool
older a b =
    ltb a.updated_at_ms b.updated_at_ms || a.updated_at_ms == b.updated_at_ms && ltb a.id b.id

unfoldable pub oldest_from : Job → List Job → Job
oldest_from best [] = best
oldest_from best (j ∷ jobs) = oldest_from (if older j best then j else best) jobs

abbrev pub oldest : List Job → Option Job
oldest [] = none
oldest (j ∷ jobs) = some (oldest_from j jobs)

unfoldable pub removable : Map Job → Option Job
unfolding oldest_from
removable jobs = oldest (keep terminal (values jobs))

abbrev pub evict : Map Job → Option Job → Result ApiError (Map Job)
evict jobs none = err (too_many_requests "all retained jobs are active")
evict jobs (some old) = ok (remove old.id jobs)

-- Room for one more job, if need be at the cost of the oldest terminal job.
unfoldable pub make_room : ℕ → Map Job → Result ApiError (Map Job)
make_room max jobs = if leb max (length jobs) then evict jobs (removable jobs) else ok jobs

-- The result of an admission: a new job, accepted and to be executed, or an earlier one.
pub data Admitted : Type 0 where
  accepted replayed : Job → Admitted

abbrev pub saved : Job → Result ApiError (Unit {0}) × Service → Result ApiError Admitted × Service
saved job (ok u, s) = (ok (accepted job), s)
saved job (err e, s) = (err e, s)

abbrev pub enter :
    Bool → Job → Service → Result ApiError (Map Job) → Result ApiError Admitted × Service
enter disk job s (err e) = (err e, s)
enter disk job s (ok jobs) = saved job (save_jobs disk (record s { jobs = insert job.id job jobs }))

abbrev pub admit_new : Bool → Job → Service → Result ApiError Admitted × Service
admit_new disk job s = enter disk job s (make_room s.max_recent_jobs s.jobs)

abbrev pub as_replayed : Result ApiError Job → Result ApiError Admitted
as_replayed (ok j) = ok (replayed j)
as_replayed (err e) = err e

abbrev pub admit_found : Bool → Job → Service → Option Job → Result ApiError Admitted × Service
admit_found disk job s none = admit_new disk job s
admit_found disk job s (some existing) = (as_replayed (replay job.request_hash existing), s)

abbrev pub find_own : Option Text → Map Job → Option Job
find_own none jobs = none
find_own (some key) jobs = find_key key jobs

-- The block of `submit` under the write lock.
unfoldable pub admit : Bool → Job → Service → Result ApiError Admitted × Service
unfolding replay
admit disk job s = admit_found disk job s (find_own job.idempotency_key s.jobs)
