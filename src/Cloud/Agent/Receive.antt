-- ===== src/Cloud/Agent/Receive.antt =====
-- `receive_job` of src/cloud/agent.rs: a delivery is stored, acknowledged, and handed to the local
-- API, whose answer is an argument.
use mb_printer_cli.Common.{ℕ, Bool, true, ◌&&◌, Option, none, some, List, ◌∷◌, if◌then◌else◌, find?}
use mb_printer_cli.Common.Text.{Text, text_eq}
use mb_printer_cli.Common.Map.{insert}
use mb_printer_cli.Common.Result.{Result, ok, err}
use mb_printer_cli.Job.{Job, failed, terminal}
use mb_printer_cli.Cloud.Request.{CloudPrintRequest, Wire}
use mb_printer_cli.Cloud.Store.{
  CloudJob, CloudJobStore, ReceiveError, ReceiveOutcome, new_job, existing_job, delivered, receive,
  get,
}
use mb_printer_cli.Cloud.Agent.Status.{JobStatus, status}

-- The messages of a job to the broker.
pub data Message : Type 0 where
  job_received : Text → Text → Message
  job_progress job_result : JobStatus → Message

pub record CloudPrinter : Type 0 where
  pub id_text : Text
  pub connection_id : Text
  pub enabled : Bool

-- The agent: its store, the store in the file, what was sent, the latest first, and the jobs that
-- have a `report_job` task.
pub record Agent : Type 0 where
  pub store : CloudJobStore
  pub file : CloudJobStore
  pub sent : List Message
  pub reporting : List ℕ

-- `wire::PrintJob`
pub record PrintJob : Type 0 where
  pub job_id : Text
  pub printer_id : Text
  pub request_json : List ℕ
  pub sha256 : Text

abbrev pub send_message : Message → Agent → Agent
send_message m a = record a { sent = m ∷ a.sent }

-- `jobs.save(&path)`, if the disk allows.
abbrev pub saved : Bool → Agent → Agent
saved disk a = if disk then record a { file = a.store } else a

abbrev pub set_job : (Job → Job) → CloudJob → CloudJob
set_job f c = record c { local_job = f c.local_job }

-- `get_mut(id)` and an assignment.
abbrev pub with_job : ℕ → (Job → Job) → Agent → Option CloudJob → Agent
with_job id f a none = a
with_job id f a (some c) = record a { store = insert id (set_job f c) a.store }

abbrev pub mark_failed : Text → Job → Job
mark_failed error j = record j { state = failed; error = some error }

-- The end of the branch in which the local API refused the job with the message.
unfoldable pub refuse_job : Bool → ℕ → Text → Agent → Option CloudJob → Agent
refuse_job disk id error a none = a
refuse_job disk id error a (some c) =
    let b = with_job id (mark_failed error) a (some c) in
    if disk
    then send_message (job_result (status (mark_failed error c.local_job))) (saved true b)
    else b

-- The answer of `submit_cloud_job`.
unfoldable pub hand_over : Bool → ℕ → Agent → Result Text Job → Agent
unfolding refuse_job get
hand_over disk id a (err error) = refuse_job disk id error a (get id a.store)
hand_over disk id a (ok job) =
    let b = saved disk (with_job id (λ j. job) a (get id a.store)) in
    record b { reporting = id ∷ b.reporting }

-- The job that is answered at once: one that was known before and has ended.
abbrev pub existing_terminal : ReceiveOutcome → Option Job
existing_terminal (new_job c) = none
existing_terminal (existing_job c) = if terminal c.local_job then some c.local_job else none

abbrev pub answer :
    Bool
    → ℕ
    → (Text → CloudPrintRequest → Result Text Job)
    → Text
    → CloudJob
    → Agent
    → Option Job
    → Agent
answer disk id submit connection c a (some j) = send_message (job_result (status j)) a
answer disk id submit connection c a none = hand_over disk id a (submit connection c.request)

-- After `jobs.receive`: `first` and `second` are the two writes of the file.
unfoldable pub after_receive :
    Bool
    → Bool
    → ℕ
    → (Text → CloudPrintRequest → Result Text Job)
    → Text
    → PrintJob
    → Agent
    → Result ReceiveError ReceiveOutcome
    → Agent
unfolding hand_over
after_receive first second id submit connection m a (err e) = a
after_receive first second id submit connection m a (ok o) =
    if first
    then answer second id submit connection (delivered o)
        (send_message (job_received m.job_id m.sha256) (saved true a)) (existing_terminal o)
    else a

abbrev receive_on :
    Wire
    → ℕ
    → Bool
    → Bool
    → ℕ
    → (Text → CloudPrintRequest → Result Text Job)
    → PrintJob
    → Agent
    → Option CloudPrinter
    → ℕ
    → Agent
receive_on w now first second maximum submit m a none id = a
receive_on w now first second maximum submit m a (some printer) id =
    let r = receive w now m.job_id m.printer_id m.request_json m.sha256 maximum a.store in
    after_receive first second id submit printer.connection_id m (record a { store = r.1 }) r.0

abbrev receive_as :
    Wire
    → ℕ
    → Bool
    → Bool
    → ℕ
    → (Text → CloudPrintRequest → Result Text Job)
    → List CloudPrinter
    → PrintJob
    → Agent
    → Option ℕ
    → Agent
receive_as w now first second maximum submit printers m a none = a
receive_as w now first second maximum submit printers m a (some id) =
    receive_on w now first second maximum submit m a
      (find? (λ p. p.enabled && text_eq p.id_text m.printer_id) printers) id

-- `receive_job`.
unfoldable pub receive_job :
    Wire
    → ℕ
    → Bool
    → Bool
    → ℕ
    → (Text → CloudPrintRequest → Result Text Job)
    → List CloudPrinter
    → PrintJob
    → Agent
    → Agent
unfolding after_receive
receive_job w now first second maximum submit printers m a =
    receive_as w now first second maximum submit printers m a (w.parse_uuid m.job_id)
