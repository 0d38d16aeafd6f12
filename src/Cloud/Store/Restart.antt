-- ===== src/Cloud/Store/Restart.antt =====
-- What a restart of the agent makes of the stored jobs (`reconcile_interrupted` and `non_terminal`
-- of src/cloud/store.rs).
use mb_printer_cli.Common.{
  ℕ, ◌≡◌, ◌≢◌, true, false, not, some, [], ◌∷◌, arith, Bool-cases, inl, inr,
}
use mb_printer_cli.Common.Lists.{keep, All}
use mb_printer_cli.Common.Map.{lookup, values, update_all, lookup-update_all}
use mb_printer_cli.Job.{queued, running, outcome_unknown, terminal}
use mb_printer_cli.Cloud.Store.{
  CloudJob, CloudJobStore, reconcile_job, non_terminal, reconcile_state, reconcile_interrupted,
}

-- What the restart owes for one job: it is not running, and one that was running is queued again
-- only if no write may have been accepted. All but the state stays.
pub record IsReconciled (old current : CloudJob) : Type 0 where
  pub not_running : current.local_job.state ≢ running
  pub others_kept : old.local_job.state ≢ running → current ≡ old
  pub unsent_queued :
      old.local_job.state ≡ running
      → old.local_job.potentially_accepted_write ≡ false
      → current.local_job.state ≡ queued
  pub sent_unknown :
      old.local_job.state ≡ running
      → old.local_job.potentially_accepted_write ≡ true
      → (current.local_job.state ≡ outcome_unknown) × (terminal current.local_job ≡ true)

reconcile_job-IsReconciled : (old : CloudJob) → IsReconciled old (reconcile_job old)
unfolding reconcile_state terminal
reconcile_job-IsReconciled old = record {
  not_running = ground arith;
  others_kept = ground arith;
  unsent_queued = ground arith;
  sent_unknown = ground arith;
}

-- A stored job is still there after the restart, reconciled.
pub reconcile_interrupted_lem :
    (s : CloudJobStore) (k : ℕ) (old : CloudJob)
    → lookup k s ≡ some old
    → (current : CloudJob) × (lookup k (reconcile_interrupted s) ≡ some current)
      × IsReconciled old current
unfolding reconcile_interrupted
reconcile_interrupted_lem s k old h =
    (reconcile_job old, rw (lookup-update_all reconcile_job k s, h), reconcile_job-IsReconciled old)

-- A job that the agent reports after a restart, in the hello message: neither running nor finished.
abbrev pub IsPending : CloudJob → Type 0
IsPending c = (c.local_job.state ≢ running) × (terminal c.local_job ≡ false)

keep_reconciled :
    (s : CloudJobStore)
    → All IsPending (keep (λ c. not (terminal c.local_job)) (values (update_all reconcile_job s)))
unfolding values update_all
keep_reconciled [] = tt
keep_reconciled ((k, c) ∷ s) = elim (Bool-cases (terminal (reconcile_job c).local_job)) [
  | inl e ↦ rw e (keep_reconciled s)
  | inr e ↦ rw e (((reconcile_job-IsReconciled c).not_running, e), keep_reconciled s)
]

-- After a restart the agent reports only jobs that are neither running nor terminal, so no job
-- whose write may have been accepted before the restart, while it ran, is reported as open.
pub non_terminal-reconcile_interrupted :
    (s : CloudJobStore) → All IsPending (non_terminal (reconcile_interrupted s))
unfolding non_terminal reconcile_interrupted
non_terminal-reconcile_interrupted s = keep_reconciled s
