-- ===== src/Job/Cancellation.antt =====
-- What the two steps of a cancellation do to a job (src/jobs.rs).
use mb_printer_cli.Common.{ℕ, ◌≡◌, Bool, true, false, arith, if◌then◌else◌}
use mb_printer_cli.Job.{
  Job, cancel_requested, cancelled_before_send, outcome_unknown, terminal, request_cancel,
  finish_cancellation,
}

-- A request to cancel leaves a job in a terminal state as it was, and puts any other in the state
-- CancelRequested, which is not terminal; no other field than the time of the update changes.
pub request_cancel_effect :
    (now : ℕ) (j : Job)
    → request_cancel now j ≡ record j {
      state = if terminal j then j.state else cancel_requested;
      updated_at_ms = if terminal j then j.updated_at_ms else now;
    }
unfolding request_cancel
request_cancel_effect now j = ground arith

-- Whatever was asked before, a finished cancellation is terminal; it is CancelledBeforeSend exactly
-- when no write may have been accepted, and OutcomeUnknown exactly when a write may have been
-- accepted and the disconnect was ambiguous.
pub finish_cancellation_classifies :
    (ambiguous : Bool) (now : ℕ) (j : Job)
    → let k = finish_cancellation ambiguous (request_cancel now j) in
      (terminal k ≡ true)
      × (k.state ≡ cancelled_before_send → j.potentially_accepted_write ≡ false)
      × (j.potentially_accepted_write ≡ false → k.state ≡ cancelled_before_send)
      × (k.state ≡ outcome_unknown → (j.potentially_accepted_write ≡ true) × (ambiguous ≡ true))
      × (j.potentially_accepted_write ≡ true → ambiguous ≡ true → k.state ≡ outcome_unknown)
unfolding finish_cancellation request_cancel terminal
finish_cancellation_classifies ambiguous now j = ground arith
