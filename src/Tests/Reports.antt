-- ===== src/Tests/Reports.antt =====
-- Concrete answers of the agent to the broker (src/cloud/agent.rs).

use mb_printer_cli.Common.{
  ℕ, ◌+◌, ◌^◌, ◌≡◌, ◌≢◌, ◌≤◌, refl, ap, Bool, true, false, Option, none, some, List, [], ◌∷◌, arith,
  is_some, find?, ◌&&◌, ◌⊎◌, replicate,
}
use mb_printer_cli.Common.Text.{Text, codes, text_eq}
use mb_printer_cli.Common.Map.{lookup}
use mb_printer_cli.Common.Result.{Result, ok, err}
use mb_printer_cli.Job.{Job, queued, completed}
use mb_printer_cli.Cloud.Request.{CloudPrintRequest}
use mb_printer_cli.Cloud.Store.{CloudJob, existing_job, receive}
use mb_printer_cli.Cloud.Agent.Status.{IsSafe, status, safe_error_code, safe_error_code-IsSafe}
use mb_printer_cli.Cloud.Agent.Receive.{
  Message, job_result, job_received, CloudPrinter, Agent, PrintJob, receive_job,
}
use mb_printer_cli.Cloud.Agent.Durable.{receive_job_ended, receive_job_durable}
use mb_printer_cli.Cloud.Agent.Report.{Observation, report_job, results, report_job_missed}
use mb_printer_cli.Tests.Broker.{wire, request}
use mb_printer_cli.Tests.Jobs.{base, ended}

safe_error_code-IsSafe_example : IsSafe (safe_error_code (codes "Disk «/tmp»  FULL"))
safe_error_code-IsSafe_example = safe_error_code-IsSafe (codes "Disk «/tmp»  FULL")

abbrev shelf : List CloudPrinter
shelf = record { id_text = 2 ∷ []; connection_id = codes "c"; enabled = true } ∷ []

abbrev delivery : PrintJob
delivery = record { job_id = 1 ∷ []; printer_id = 2 ∷ []; request_json = 9 ∷ []; sha256 = 9 ∷ [] }

abbrev idle : Agent
idle = record { store = []; file = []; sent = []; reporting = [] }

abbrev refuses_all : Text → CloudPrintRequest → Result Text Job
refuses_all connection r = err (codes "no")

abbrev accepts_all : Text → CloudPrintRequest → Result Text Job
accepts_all connection r = ok (base 1)

abbrev silent : List Message → Bool
silent [] = true
silent (m ∷ ms) = false

something_sent : (receive_job wire 5 true true 100 refuses_all shelf delivery idle).sent ≢ idle.sent
unfolding receive_job receive mb_printer_cli.Common.Text.text_eq
    mb_printer_cli.Cloud.Store.check_delivery lookup mb_printer_cli.Common.Map.insert_ordered
something_sent e = let q : false ≡ true = ap silent e in absurd (ground arith)

receive_job_durable_example :
    (id : ℕ) × (wire.parse_uuid delivery.job_id ≡ some id)
    × (is_some (lookup id (receive_job wire 5 true true 100 refuses_all shelf delivery idle).file)
        ≡ true)
receive_job_durable_example =
    receive_job_durable wire 5 true true 100 refuses_all shelf delivery idle something_sent

abbrev finished : CloudJob
finished = record {
  id = 1;
  printer_id = 2;
  request_sha256 = 9 ∷ [];
  request = request;
  local_job = ended;
}

abbrev busy : Agent
busy = record idle { store = (1, finished) ∷ [] }

finished_received :
    (receive wire 5 (1 ∷ []) (2 ∷ []) (9 ∷ []) (9 ∷ []) 100 busy.store).0
    ≡ ok (existing_job finished)
unfolding receive mb_printer_cli.Cloud.Store.check_delivery mb_printer_cli.Common.Text.text_eq
    lookup
finished_received = refl

receive_job_ended_example :
    let b = receive_job wire 5 true true 100 accepts_all shelf delivery busy in
    let known = find? (λ p. p.enabled && text_eq p.id_text delivery.printer_id) shelf in
    (b ≡ receive_job wire 5 true true 100 refuses_all shelf delivery busy)
    × (b.reporting ≡ busy.reporting)
    × (((true ≡ true)
          × ((p : CloudPrinter) × (known ≡ some p))
          × (b.sent
              ≡ job_result (status ended)
                ∷ job_received delivery.job_id delivery.sha256
                ∷ busy.sent))
        ⊎ (((true ≡ false) ⊎ (known ≡ none)) × (b.sent ≡ busy.sent)))
unfolding mb_printer_cli.Job.terminal
receive_job_ended_example =
    receive_job_ended wire 5 true true 100 accepts_all refuses_all shelf delivery busy finished
      finished_received refl

abbrev seen : Job → Observation
seen j = record { job = some j; disk = true; connected = true }

abbrev done : Job
done = record (base 1) { state = completed }

report_job_missed_example :
    results (report_job 1 0 (seen (base 1) ∷ seen done ∷ []) busy).sent ≡ results busy.sent
unfolding mb_printer_cli.Job.terminal
report_job_missed_example =
    report_job_missed 1 0 (base 1) done [] busy refl refl (λ e. absurd (omega arith)) refl
