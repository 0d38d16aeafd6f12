-- ===== src/Api/Jobs/Worker/Outcome.antt =====
-- What the state at the end of a worker says of the job (src/api/jobs.rs).
use mb_printer_cli.Common.{ℕ, ◌≡◌, ◌≢◌, ◌⊎◌, Bool, true, false, arith}
use mb_printer_cli.Job.{
  Job, cancelled_before_send, cancelled_partial, outcome_unknown, completed, failed, terminal,
}
use mb_printer_cli.Api.Jobs.Worker.{Execution, executed, broke_off, finish_job}

-- An end of a worker that read its flag: the state is terminal; it is CancelledPartial or
-- CancelledBeforeSend exactly when the flag was raised; and where a write may have been accepted, neither Failed nor
-- CancelledBeforeSend, where none may have been, neither OutcomeUnknown nor CancelledPartial. The
-- job's identifier, key and request hash stay.
pub record IsHonest (cancelled : Bool) (execution : Execution) (j k : Job) : Type 0 where
  pub ended : terminal k ≡ true
  pub cancelled_iff :
      cancelled ≡ true → (k.state ≡ cancelled_partial) ⊎ (k.state ≡ cancelled_before_send)
  pub only_if_cancelled :
      cancelled ≡ false → (k.state ≢ cancelled_partial) × (k.state ≢ cancelled_before_send)
  pub accepted_not_denied :
      k.potentially_accepted_write ≡ true → (k.state ≢ failed) × (k.state ≢ cancelled_before_send)
  pub unsent_not_claimed :
      k.potentially_accepted_write ≡ false
      → (k.state ≢ outcome_unknown) × (k.state ≢ cancelled_partial)
  pub same_id : k.id ≡ j.id
  pub same_key : k.idempotency_key ≡ j.idempotency_key
  pub same_hash : k.request_hash ≡ j.request_hash

abbrev pub was_executed : Execution → Bool
was_executed (executed p) = true
was_executed (broke_off e p) = false

-- Every end of a worker is honest, and is Completed only if the whole plan was executed.
pub finish_job-IsHonest :
    (now : ℕ) (cancelled : Bool) (execution : Execution) (j : Job)
    → IsHonest cancelled execution j (finish_job now cancelled execution j)
      × ((finish_job now cancelled execution j).state ≡ completed → was_executed execution ≡ true)
unfolding finish_job terminal
finish_job-IsHonest now cancelled execution j = ground arith
