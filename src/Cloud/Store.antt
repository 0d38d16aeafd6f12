-- ===== src/Cloud/Store.antt =====
-- src/cloud/store.rs: the durable store of the jobs that the broker delivered.
pub mod Redelivery
pub mod Restart
use mb_printer_cli.Common.{
  ℕ, Bool, true, false, not, ◌&&◌, Option, none, some, List, [], if◌then◌else◌, ltb, length, keep,
  ◌==◌,
}
use mb_printer_cli.Common.Text.{Text, text_eq}
use mb_printer_cli.Common.Map.{Map, lookup, insert_ordered, values, update_all}
use mb_printer_cli.Common.Result.{Result, ok, err, ◌>>=◌, ◌>>◌, ok_or, reject_if}
use mb_printer_cli.Job.{Job, JobState, queued, running, outcome_unknown, new, terminal}
use mb_printer_cli.Cloud.Request.{CloudPrintRequest, Wire, invalid_request}

pub record CloudJob : Type 0 where
  pub id : ℕ
  pub printer_id : ℕ
  pub request_sha256 : Text
  pub request : CloudPrintRequest
  pub local_job : Job

-- A `BTreeMap<Uuid, CloudJob>`.
abbrev pub CloudJobStore : Type 0
CloudJobStore = Map CloudJob

pub data ReceiveError : Type 0 where
  invalid_job_id invalid_printer_id too_large digest_mismatch conflict : ReceiveError
  invalid_request_error : ReceiveError

pub data ReceiveOutcome : Type 0 where
  new_job existing_job : CloudJob → ReceiveOutcome

abbrev pub delivered : ReceiveOutcome → CloudJob
delivered (new_job c) = c
delivered (existing_job c) = c

-- A delivery that has passed the checks on its message.
pub record Delivery : Type 0 where
  pub id : ℕ
  pub printer_id : ℕ
  pub actual : Text
  pub request : CloudPrintRequest

-- The first half of `CloudJobStore::receive`: identifiers, size, digest, JSON, and options.
unfoldable pub check_delivery :
    Wire → Text → Text → List ℕ → Text → ℕ → Result ReceiveError Delivery
unfolding invalid_request
check_delivery w job_id printer_id bytes expected_sha256 maximum_bytes = do
  id ← ok_or (w.parse_uuid job_id) invalid_job_id
  printer ← ok_or (w.parse_uuid printer_id) invalid_printer_id
  reject_if (ltb maximum_bytes (length bytes)) too_large
  let actual = w.sha256_hex bytes
  reject_if (not (text_eq actual expected_sha256)) digest_mismatch
  request ← ok_or (w.decode_request bytes) invalid_request_error
  reject_if (invalid_request request) invalid_request_error
  ok (record { id = id; printer_id = printer; actual = actual; request = request })

-- The job that a first delivery creates.
unfoldable pub create : Wire → ℕ → Delivery → CloudJob
unfolding new
create w now d = record {
  id = d.id;
  printer_id = d.printer_id;
  request_sha256 = d.actual;
  request = d.request;
  local_job = record (new d.id now) {
    request_hash = some d.actual;
    resumable = w.encode_request d.request;
  };
}

-- The match on `self.jobs.entry(id)`.
unfoldable pub enter :
    CloudJob
    → Delivery
    → Option CloudJob
    → CloudJobStore
    → Result ReceiveError ReceiveOutcome × CloudJobStore
enter fresh d none s = (ok (new_job fresh), insert_ordered d.id fresh s)
enter fresh d (some existing) s =
    if text_eq existing.request_sha256 d.actual && existing.printer_id == d.printer_id
    then (ok (existing_job existing), s)
    else (err conflict, s)

abbrev admit :
    Wire
    → ℕ
    → Result ReceiveError Delivery
    → CloudJobStore
    → Result ReceiveError ReceiveOutcome × CloudJobStore
admit w now (err e) s = (err e, s)
admit w now (ok d) s = enter (create w now d) d (lookup d.id s) s

-- `CloudJobStore::receive`, with the store after it.
unfoldable pub receive :
    Wire
    → ℕ
    → Text
    → Text
    → List ℕ
    → Text
    → ℕ
    → CloudJobStore
    → Result ReceiveError ReceiveOutcome × CloudJobStore
unfolding enter
receive w now job_id printer_id bytes expected_sha256 maximum_bytes s =
    admit w now (check_delivery w job_id printer_id bytes expected_sha256 maximum_bytes) s

unfoldable pub get : ℕ → CloudJobStore → Option CloudJob
get id s = lookup id s

unfoldable pub non_terminal : CloudJobStore → List CloudJob
non_terminal s = keep (λ c. not (terminal c.local_job)) (values s)

unfoldable pub reconcile_state : Job → JobState → JobState
reconcile_state j running = if j.potentially_accepted_write then outcome_unknown else queued
reconcile_state j other = other

abbrev pub reconcile_job : CloudJob → CloudJob
reconcile_job c = record c {
  local_job = record c.local_job { state = reconcile_state c.local_job c.local_job.state };
}

-- `CloudJobStore::reconcile_interrupted`, on one job and on the store.
unfoldable pub reconcile_interrupted : CloudJobStore → CloudJobStore
unfolding reconcile_state
reconcile_interrupted s = update_all reconcile_job s
