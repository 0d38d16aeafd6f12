-- ===== src/Api/Jobs/Steps/LostCancellation.antt =====
-- A cancellation between the admission of a job and the registration of its flag
-- (src/api/jobs.rs).
use mb_printer_cli.Common.{ℕ, ◌≡◌, Bool, true, false, none, some, arith}
use mb_printer_cli.Common.Map.{lookup, lookup-insert}
use mb_printer_cli.Common.Result.{ok}
use mb_printer_cli.Job.{Job, cancel_requested, completed, terminal, request_cancel}
use mb_printer_cli.Api.Jobs.Retention.{Service}
use mb_printer_cli.Api.Jobs.Worker.{
  Progress, executed, finish_job, register, retire, cancel, cancelled_flag,
}

-- A retained job has not ended and has no cancellation flag yet. A cancellation, saved, is then
-- answered with the state CancelRequested; once the flag is registered it is clear, so the worker,
-- whatever it reports, ends a plan that was executed whole as Completed.
pub cancel_before_register :
    (now later id : ℕ) (s : Service) (j copy : Job) (p : Progress)
    → lookup id s.jobs ≡ some j
    → terminal j ≡ false
    → lookup id s.cancellations ≡ none
    → let r = cancel true now id s in
      let flag = cancelled_flag (lookup id (register id r.1).cancellations) in
      (r.0 ≡ ok (request_cancel now j))
      × ((request_cancel now j).state ≡ cancel_requested)
      × (flag ≡ false)
      × ((finish_job later flag (executed p) copy).state ≡ completed)
unfolding cancel register request_cancel finish_job
cancel_before_register now later id s j copy p e h n =
    ground (arith, lookup-insert id id false (cancel true now id s).1.cancellations)

-- A retained job has not ended, and its worker has ended its copy and not yet written it back. A
-- cancellation, saved, is then answered with the state CancelRequested; the worker writes its copy over
-- it, with the state that it had before the cancellation.
pub cancel_before_retire :
    (disk : Bool) (now id : ℕ) (s : Service) (j copy : Job)
    → lookup id s.jobs ≡ some j
    → terminal j ≡ false
    → lookup id s.workers ≡ some copy
    → let r = cancel true now id s in
      (r.0 ≡ ok (request_cancel now j))
      × (lookup id r.1.jobs ≡ some (request_cancel now j))
      × ((request_cancel now j).state ≡ cancel_requested)
      × (lookup id r.1.workers ≡ some copy)
      × (lookup id (retire disk id copy r.1).jobs ≡ some copy)
unfolding cancel request_cancel retire
cancel_before_retire disk now id s j copy e h w = ground (
  arith,
  lookup-insert id id (request_cancel now j) s.jobs,
  lookup-insert id id copy (cancel true now id s).1.jobs,
)
