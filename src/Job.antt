-- ===== src/Job.antt =====
-- src/jobs.rs: a print job and the states of its life.
pub mod Cancellation
use mb_printer_cli.Common.{ℕ, Bool, true, false, not, Option, none, some, if◌then◌else◌}
use mb_printer_cli.Common.Text.{Text}

pub data JobState : Type 0 where
  queued running cancel_requested cancelled_before_send cancelled_partial : JobState
  outcome_unknown completed failed : JobState

pub JobState-discrete : Discrete JobState
JobState-discrete = hlevel

-- `matches!(state, …)` of `Job::terminal`.
unfoldable pub terminal_state : JobState → Bool
terminal_state cancelled_before_send = true
terminal_state cancelled_partial = true
terminal_state outcome_unknown = true
terminal_state completed = true
terminal_state failed = true
terminal_state queued = false
terminal_state running = false
terminal_state cancel_requested = false

pub record Job : Type 0 where
  pub id : ℕ  -- Uuid
  pub state : JobState
  pub last_completed_action : Option ℕ  -- u32
  pub bytes_written : ℕ
  pub total_bytes : ℕ
  pub potentially_accepted_write : Bool
  pub protocol : Option Text
  pub action_count : ℕ
  pub batch_item : ℕ
  pub batch_items : ℕ
  pub batch_copy : ℕ  -- u16
  pub batch_copies : ℕ  -- u16
  pub error : Option Text
  pub resumable : Option Text  -- the text of a JSON value
  pub idempotency_key : Option Text
  pub request_hash : Option Text
  pub created_at_ms : ℕ
  pub updated_at_ms : ℕ

-- `Job::new`: the random identifier and the clock are arguments.
unfoldable pub new : ℕ → ℕ → Job
new id now = record {
  id = id;
  state = queued;
  last_completed_action = none;
  bytes_written = 0;
  total_bytes = 0;
  potentially_accepted_write = false;
  protocol = none;
  action_count = 0;
  batch_item = 0;
  batch_items = 1;
  batch_copy = 0;
  batch_copies = 1;
  error = none;
  resumable = none;
  idempotency_key = none;
  request_hash = none;
  created_at_ms = now;
  updated_at_ms = now;
}

unfoldable pub terminal : Job → Bool
unfolding terminal_state
terminal j = terminal_state j.state

unfoldable pub request_cancel : ℕ → Job → Job
unfolding terminal
request_cancel now j =
    if terminal j then j else record j { state = cancel_requested; updated_at_ms = now }

unfoldable pub finish_cancellation : Bool → Job → Job
finish_cancellation ambiguous_disconnect j = record j {
  state =
      if not j.potentially_accepted_write
      then cancelled_before_send
      else if ambiguous_disconnect
      then outcome_unknown
      else cancelled_partial;
}
