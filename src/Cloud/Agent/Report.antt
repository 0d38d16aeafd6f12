-- ===== src/Cloud/Agent/Report.antt =====
-- `report_job` of src/cloud/agent.rs, one observation of the local API for each turn of its loop.
use mb_printer_cli.Common.{
  ℕ, ◌+◌, ◌≡◌, ◌≢◌, ◌≤◌, refl, Bool, true, false, not, Option, none, some, List, [], ◌∷◌, arith,
  if◌then◌else◌, ◌==◌, Bool-cases, Option-cases, inl, inr,
}
use mb_printer_cli.Job.{Job, terminal}
use mb_printer_cli.Cloud.Store.{get}
use mb_printer_cli.Cloud.Agent.Status.{status}
use mb_printer_cli.Cloud.Agent.Receive.{
  Message, job_received, job_progress, job_result, Agent, send_message, saved, with_job,
}

-- What one turn meets: the job of the local API, and whether the write of the file and the sending
-- succeed.
pub record Observation : Type 0 where
  pub job : Option Job
  pub disk : Bool
  pub connected : Bool

abbrev pub report_message : Job → Message
report_message j = if terminal j then job_result (status j) else job_progress (status j)

-- The store and its file with the observed job.
abbrev pub recorded : ℕ → Bool → Job → Agent → Agent
recorded id disk j a = saved disk (with_job id (λ old. j) a (get id a.store))

-- The turns; the loop ends where no further turn is run.
unfoldable pub report_job : ℕ → ℕ → List Observation → Agent → Agent
report_job id previous [] a = a
report_job id previous (o ∷ os) a =
    let quiet = report_job id previous os a in
    elim o.job [
      | none ↦ a
      | some j ↦
          let changed = recorded id o.disk j a in
          let sent = send_message (report_message j) changed in
          let more = report_job id j.updated_at_ms os sent in
          if j.updated_at_ms == previous
          then (if terminal j then a else quiet)
          else if not o.disk
          then changed
          else if not o.connected
          then changed
          else if terminal j
          then sent
          else more
    ]

-- The results among the messages.
unfoldable pub results : List Message → ℕ
results [] = 0
results (job_result r ∷ ms) = results ms + 1
results (job_progress r ∷ ms) = results ms
results (job_received id digest ∷ ms) = results ms

results-report_message :
    (j : Job) (ms : List Message)
    → results (report_message j ∷ ms) ≡ results ms + (if terminal j then 1 else 0)
unfolding results
results-report_message j ms = elim (Bool-cases (terminal j)) [
  | inl e ↦ rw e refl
  | inr e ↦ rw e (omega arith)
]

recorded-sent : (id : ℕ) (disk : Bool) (j : Job) (a : Agent) → (recorded id disk j a).sent ≡ a.sent
recorded-sent id disk j a = elim (Option-cases (get id a.store)) [
  | inl e ↦ ground arith
  | inr (c, e) ↦ ground arith
]

-- The loop, however it goes, reports the end of the job at most once.
pub report_job_once :
    (id previous : ℕ) (os : List Observation) (a : Agent)
    → results (report_job id previous os a).sent ≤ results a.sent + 1
unfolding report_job
report_job_once id previous [] a = omega arith
report_job_once id previous (o ∷ os) a = elim (Option-cases o.job) [
  | inl e ↦ rw e (omega arith)
  | inr (j, e) ↦ ground (
    arith,
    e,
    report_job_once id previous os a,
    report_job_once id j.updated_at_ms os
        (send_message (report_message j) (recorded id o.disk j a)),
    results-report_message j a.sent,
    recorded-sent id o.disk j a,
  )
]

-- Where the local API changes a job that was reported into one that has ended within the same
-- millisecond, the end is never reported: the loop ends without it.
pub report_job_missed :
    (id previous : ℕ) (j k : Job) (os : List Observation) (a : Agent)
    → terminal j ≡ false
    → terminal k ≡ true
    → j.updated_at_ms ≢ previous
    → k.updated_at_ms ≡ j.updated_at_ms
    → results
        (report_job id previous
          (record { job = some j; disk = true; connected = true }
            ∷ record { job = some k; disk = true; connected = true }
            ∷ os)
          a).sent
      ≡ results a.sent
unfolding report_job
report_job_missed id previous j k os a e f n same =
    ground (arith, e, f, n, same, results-report_message j a.sent, recorded-sent id true j a)
