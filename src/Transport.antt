-- ===== src/Transport.antt =====
-- src/transport.rs: the transport that records what is sent; and the one of src/api/jobs.rs that a
-- cancellation stops.
pub mod Cancelled
use Prim.Native.String.{String}
use mb_printer_cli.Common.{
  ℕ, Bool, true, false, Option, none, some, List, [], ◌∷◌, ◌++◌, if◌then◌else◌, ◌==◌,
}
use mb_printer_cli.Common.Result.{Result, ok, err}

-- `WaitOutcome` of the native SDK.
pub data WaitOutcome : Type 0 where
  timeout : WaitOutcome
  response : List ℕ → WaitOutcome

-- The trait `Transport` of the native SDK, on the states `S` of a transport.
pub record Transport (S : Type 0) : Type 0 where
  pub payload_limit : S → ℕ
  pub subscribe_notifications : S → Result String (Unit {0}) × S
  pub write : List ℕ → S → Result String (Unit {0}) × S
  pub delay_monotonic : ℕ → S → S
  pub wait_response : ℕ → S → Result String WaitOutcome × S

pub data PhysicalEvent : Type 0 where
  subscribe : PhysicalEvent
  write_bytes : List ℕ → PhysicalEvent
  delay wait : ℕ → PhysicalEvent

pub record CaptureTransport : Type 0 where
  pub payload_limit : ℕ
  pub events : List PhysicalEvent
  pub answer : Option (List ℕ)

unfoldable pub new : ℕ → CaptureTransport
new payload_limit = record {
  payload_limit = if payload_limit == 0 then 1 else payload_limit;
  events = [];
  answer = none;
}

abbrev pub push_event : PhysicalEvent → CaptureTransport → CaptureTransport
push_event event t = record t { events = t.events ++ (event ∷ []) }

abbrev pub outcome_of : Option (List ℕ) → WaitOutcome
outcome_of none = timeout
outcome_of (some bytes) = response bytes

unfoldable pub capture : Transport CaptureTransport
capture = record {
  payload_limit = λ t. t.payload_limit;
  subscribe_notifications = λ t. (ok tt, push_event subscribe t);
  write = λ b t. (ok tt, push_event (write_bytes b) t);
  delay_monotonic = λ milliseconds t. push_event (delay milliseconds) t;
  wait_response = λ timeout_ms t. (ok (outcome_of t.answer), push_event (wait timeout_ms) t);
}

-- `Cancellable`; the atomic flag is what each operation loads, and stands in the state beside the
-- inner transport's.
unfoldable pub cancellable : {S : Type 0} → Transport S → Transport (S × Bool)
cancellable inner = record {
  payload_limit = λ t. inner.payload_limit t.0;
  subscribe_notifications = λ t.
      if t.1
      then (err "cancelled", t)
      else (let (r, u) = inner.subscribe_notifications t.0 in (r, (u, t.1)));
  write = λ b t.
      if t.1 then (err "cancelled", t) else (let (r, u) = inner.write b t.0 in (r, (u, t.1)));
  delay_monotonic = λ milliseconds t. (inner.delay_monotonic milliseconds t.0, t.1);
  wait_response = λ timeout_ms t.
      if t.1
      then (err "cancelled", t)
      else (let (r, u) = inner.wait_response timeout_ms t.0 in (r, (u, t.1)));
}
