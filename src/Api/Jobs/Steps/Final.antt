-- ===== src/Api/Jobs/Steps/Final.antt =====
-- What one step may do to a retained job (src/api/jobs.rs).
use mb_printer_cli.Common.{
  ℕ, ◌≡◌, ◌≢◌, ◌⊎◌, inl, inr, ap, Bool, true, false, Option, none, some, arith, is_some,
}
use mb_printer_cli.Common.Map.{lookup, insert, lookup-insert}
use mb_printer_cli.Job.{Job, terminal, request_cancel}
use mb_printer_cli.Api.Jobs.Retention.{Service}
use mb_printer_cli.Api.Jobs.Admission.Effects.{admit_keeps_active}
use mb_printer_cli.Api.Jobs.Worker.{publish, raise_flag, retire, cancel_found, cancel_cloud_found}
use mb_printer_cli.Api.Jobs.Steps.{
  submitted, Step, submits, resubmits, opens, registers, starts, reports, finishes, retires, raises,
  cancels, cancels_cloud,
}
use mb_printer_cli.Api.Jobs.Steps.Invariant.{Inv, cancel_effect, cancel_cloud_effect}
use mb_printer_cli.Api.Jobs.Steps.Reachable.{retire_effect, submitted_again, submitted_jobs}

-- What becomes of a retained job: one that has ended stays as it is or is evicted, one that has not
-- is still retained.
pub record IsKept (j : Job) (after : Option Job) : Type 0 where
  pub ended_stays : terminal j ≡ true → (after ≡ some j) ⊎ (after ≡ none)
  pub active_stays : terminal j ≡ false → is_some after ≡ true

same-IsKept : (j : Job) (o : Option Job) → o ≡ some j → IsKept j o
same-IsKept j o e = record { ended_stays = λ h. inl e; active_stays = λ h. ground arith }

submitted-IsKept :
    (disk : Bool) (job : Job) (s : Service) (k : ℕ) (j : Job)
    → lookup job.id s.jobs ≡ none
    → Inv s
    → lookup k s.jobs ≡ some j
    → IsKept j (lookup k (submitted disk job s).jobs)
submitted-IsKept disk job s k j free v e =
    rw (submitted_jobs disk job s).0 (elim (admit_keeps_active disk job s k j v.indexed e other) [
      | inl p ↦ same-IsKept j _ p
      | inr (p, q) ↦ record { ended_stays = λ h. inr p; active_stays = λ h. absurd (ground arith) }
    ])
  where
    other : k ≢ job.id
    other p = ground (arith, e, free, ap (λ i. lookup i s.jobs) p)

request_cancel-ended : (now : ℕ) (j : Job) → terminal j ≡ true → request_cancel now j ≡ j
unfolding request_cancel
request_cancel-ended now j h = ground arith

cancelling-IsKept :
    (now id k : ℕ) (s t : Service) (j : Job)
    → (t.jobs ≡ s.jobs)
      ⊎ ((i : Job) × (lookup id s.jobs ≡ some i)
          × (t.jobs ≡ insert id (request_cancel now i) s.jobs))
    → lookup k s.jobs ≡ some j
    → IsKept j (lookup k t.jobs)
cancelling-IsKept now id k s t j (inl p) e = same-IsKept j _ (rw p e)
cancelling-IsKept now id k s t j (inr (i, f, p)) e = record {
  ended_stays = λ h. ground (
    arith,
    e,
    f,
    p,
    h,
    lookup-insert id k (request_cancel now i) s.jobs,
    request_cancel-ended now i,
  );
  active_stays = λ h. ground (arith, e, f, p, h, lookup-insert id k (request_cancel now i) s.jobs);
}

retired-IsKept :
    (id k : ℕ) (x : Job) (s t : Service) (j : Job)
    → is_some (lookup id s.workers) ≡ true
    → t.jobs ≡ insert id x s.jobs
    → Inv s
    → lookup k s.jobs ≡ some j
    → IsKept j (lookup k t.jobs)
retired-IsKept id k x s t j w p v e = record {
  ended_stays = λ h. ground (arith, e, p, h, lookup-insert id k x s.jobs, v.busy id);
  active_stays = λ h. ground (arith, e, p, h, lookup-insert id k x s.jobs);
}

-- In one step from a state in which the invariant holds, a retained job that has ended stays exactly
-- as it is or is evicted, whatever workers and cancellations do, and one that has not ended is still
-- retained.
pub Step-IsKept :
    {s t : Service} (k : ℕ) (j : Job)
    → Step s t
    → Inv s
    → lookup k s.jobs ≡ some j
    → IsKept j (lookup k t.jobs)
unfolding publish raise_flag
Step-IsKept {s} k j (submits disk job state free idle) v e =
    submitted-IsKept disk job s k j free v e
Step-IsKept {s} k j (resubmits disk job existing f) v e =
    same-IsKept j _ (rw (submitted_again disk job existing s f) e)
Step-IsKept {s} k j (opens id h f) v e = same-IsKept j _ e
Step-IsKept {s} k j (registers id h o f) v e = same-IsKept j _ e
Step-IsKept {s} k j (raises id) v e = same-IsKept j _ e
Step-IsKept {s} k j (finishes now id execution i f q) v e = same-IsKept j _ e
Step-IsKept {s} k j (starts now id i f q r) v e = same-IsKept j _ e
Step-IsKept {s} k j (reports now id p item copy i f q) v e = same-IsKept j _ e
Step-IsKept {s} k j (retires disk id x f q) v e =
    retired-IsKept id k x s (retire disk id x s) j (ground arith) (retire_effect disk id x s).0 v e
Step-IsKept {s} k j (cancels disk now id) v e =
    cancelling-IsKept now id k s (cancel_found disk now id s (lookup id s.jobs)).1 j
      (cancel_effect disk now id s).2 e
Step-IsKept {s} k j (cancels_cloud disk now id) v e =
    cancelling-IsKept now id k s (cancel_cloud_found disk now id s (lookup id s.jobs)).1 j
      (cancel_cloud_effect disk now id s).2 e
