-- ===== src/Api/Jobs/Worker.antt =====
-- The execution of an accepted job and its cancellation (src/api/jobs.rs, and `cancel_cloud_job` of
-- src/api.rs). The worker owns a copy of the job; it replaces the retained job at the end only.
pub mod Outcome
use mb_printer_cli.Common.{
  ℕ, ◌+◌, ◌%◌, ◌^◌, Bool, true, false, not, Option, none, some, List, [], ◌∷◌, if◌then◌else◌,
  is_some,
}
use mb_printer_cli.Common.Text.{Text}
use mb_printer_cli.Common.Map.{Map, lookup, insert, remove}
use mb_printer_cli.Common.Result.{Result, ok, err}
use mb_printer_cli.Job.{
  Job, JobState, running, cancelled_before_send, cancelled_partial, outcome_unknown, completed,
  failed, request_cancel,
}
use mb_printer_cli.Api.Errors.{ApiError, not_found}
use mb_printer_cli.Api.Jobs.Retention.{Service, save_jobs}

-- `mb_printer_native::Progress`, as far as it is read.
pub record Progress : Type 0 where
  pub last_completed_action : Option ℕ  -- usize
  pub bytes_written : ℕ
  pub potentially_accepted_write : Bool

-- What `execute_cancellable` returns.
pub data Execution : Type 0 where
  executed : Progress → Execution
  broke_off : Text → Option Progress → Execution

-- `map(|value| value as u32)`
abbrev pub as_u32 : Option ℕ → Option ℕ
as_u32 none = none
as_u32 (some n) = some (n % 2 ^ 32)

unfoldable pub with_progress : Progress → Job → Job
with_progress p j = record j {
  last_completed_action = as_u32 p.last_completed_action;
  bytes_written = p.bytes_written;
  potentially_accepted_write = p.potentially_accepted_write;
}

unfoldable pub start_job : ℕ → Job → Job
start_job now j = record j { state = running; updated_at_ms = now }

-- The closure `report`.
unfoldable pub report_job : ℕ → Progress → ℕ → ℕ → Job → Job
unfolding with_progress
report_job now p item copy j = record (with_progress p j) {
  batch_item = item;
  batch_copy = copy;
  updated_at_ms = now;
}

unfoldable pub success_state : Bool → Progress → JobState
success_state cancelled p =
    if cancelled
    then (if p.potentially_accepted_write then cancelled_partial else cancelled_before_send)
    else completed

unfoldable pub failure_state : Bool → Job → JobState
failure_state cancelled j =
    if cancelled
    then (if j.potentially_accepted_write then cancelled_partial else cancelled_before_send)
    else if j.potentially_accepted_write
    then outcome_unknown
    else failed

abbrev pub with_last_progress : Option Progress → Job → Job
with_last_progress none j = j
with_last_progress (some p) j = with_progress p j

-- The match on the execution; `cancelled` is the flag when it is read.
unfoldable pub conclude : Bool → Execution → Job → Job
unfolding success_state failure_state with_progress
conclude cancelled (executed p) j = record (with_progress p j) { state = success_state cancelled p }
conclude cancelled (broke_off error p) j =
    let k = with_last_progress p j in
    record k { state = failure_state cancelled k; error = some error }

unfoldable pub finish_job : ℕ → Bool → Execution → Job → Job
unfolding conclude
finish_job now cancelled execution j = record (conclude cancelled execution j) {
  updated_at_ms = now;
}

abbrev send_on : ℕ → Job → Map (List Job) → Option (List Job) → Map (List Job)
send_on id j events none = events
send_on id j events (some sent) = insert id (j ∷ sent) events

-- `events.send(job)`, on the job's channel if there is one.
unfoldable pub send : ℕ → Job → Service → Service
send id j s = record s { events = send_on id j s.events (lookup id s.events) }

-- The channel of an accepted job, and its flag, each under a lock of its own.
abbrev pub open_events : ℕ → Service → Service
open_events id s = record s { events = insert id [] s.events }

abbrev pub register_flag : ℕ → Service → Service
register_flag id s = record s { cancellations = insert id false s.cancellations }

unfoldable pub register : ℕ → Service → Service
register id s = register_flag id (open_events id s)

-- The worker's copy of the job changes, and is sent.
unfoldable pub publish : ℕ → Job → Service → Service
unfolding send
publish id j s = send id j (record s { workers = insert id j s.workers })

-- The end of the worker, under the lock on the jobs; a failure to save is ignored.
unfoldable pub retire : Bool → ℕ → Job → Service → Service
unfolding save_jobs
retire disk id j s =
    (save_jobs disk (record s { jobs = insert id j s.jobs; workers = remove id s.workers })).1

abbrev set_flag : ℕ → Map Bool → Option Bool → Map Bool
set_flag id flags none = flags
set_flag id flags (some b) = insert id true flags

unfoldable pub raise_flag : ℕ → Service → Service
raise_flag id s = record s {
  cancellations = set_flag id s.cancellations (lookup id s.cancellations);
}

abbrev pub cancelled_flag : Option Bool → Bool
cancelled_flag none = false
cancelled_flag (some b) = b

abbrev answer_cancel :
    ℕ → Job → Result ApiError (Unit {0}) × Service → Result ApiError Job × Service
answer_cancel id j (ok u, s) = (ok j, send id j s)
answer_cancel id j (err e, s) = (err e, s)

abbrev pub cancel_found : Bool → ℕ → ℕ → Service → Option Job → Result ApiError Job × Service
cancel_found disk now id s none = (err (not_found "job not found"), s)
cancel_found disk now id s (some j) =
    let k = request_cancel now j in
    answer_cancel id k (save_jobs disk (record s { jobs = insert id k s.jobs }))

-- `cancel_job`, after the authorization.
unfoldable pub cancel : Bool → ℕ → ℕ → Service → Result ApiError Job × Service
unfolding raise_flag send save_jobs
cancel disk now id s = let t = raise_flag id s in cancel_found disk now id t (lookup id t.jobs)

abbrev pub cancel_cloud_found : Bool → ℕ → ℕ → Service → Option Job → Option Job × Service
cancel_cloud_found disk now id s none = (none, s)
cancel_cloud_found disk now id s (some j) =
    let k = request_cancel now j in
    (some k, (save_jobs disk (record s { jobs = insert id k s.jobs })).1)

-- `ApiState::cancel_cloud_job`, which ignores a failure to save and sends no event.
unfoldable pub cancel_cloud : Bool → ℕ → ℕ → Service → Option Job × Service
unfolding raise_flag save_jobs
cancel_cloud disk now id s =
    let t = raise_flag id s in cancel_cloud_found disk now id t (lookup id t.jobs)

-- `get_job`, after the authorization, and `ApiState::cloud_job`.
unfoldable pub get_job : ℕ → Service → Option Job
get_job id s = lookup id s.jobs
