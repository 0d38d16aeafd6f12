-- ===== src/Api/Jobs/Steps/Reachable.antt =====
-- The invariant of src/api/jobs.rs at the end of a worker, at a submission, and in every reachable
-- state.
use mb_printer_cli.Common.{
  ℕ, ◌≡◌, ◌≢◌, ◌≤◌, ◌⊎◌, inl, inr, refl, ◌∙◌, ap, Bool, true, false, Option, none, some, List,
  arith, length, is_some, Option-cases,
}
use mb_printer_cli.Common.Map.{
  lookup, insert, remove, lookup-insert, lookup-remove, length-insert, insert-Unique, remove-Unique,
}
use mb_printer_cli.Common.Values.{insert-Keyed_at, lookup-Keyed, remove-Keyed}
use mb_printer_cli.Common.Result.{Result, ok, err}
use mb_printer_cli.Job.{Job, queued, terminal}
use mb_printer_cli.Api.Errors.{ApiError}
use mb_printer_cli.Api.Jobs.Retention.{Service, job_id}
use mb_printer_cli.Api.Jobs.Admission.{Admitted, find_own, admit, accepted, replayed}
use mb_printer_cli.Api.Jobs.Admission.Idempotence.{IsIndexed}
use mb_printer_cli.Api.Jobs.Admission.Effects.{admit_rest, admit_bounded, admit_keeps_active}
use mb_printer_cli.Api.Jobs.Admission.Retry.{admit-IsIndexed, admit_accepted}
use mb_printer_cli.Api.Jobs.Worker.{
  start_job, report_job, finish_job, open_events, register_flag, raise_flag, retire, cancel_found,
  cancel_cloud_found, cancelled_flag,
}
use mb_printer_cli.Api.Jobs.Worker.Outcome.{finish_job-IsHonest}
use mb_printer_cli.Api.Jobs.Steps.{
  started, hand_over, submitted, Step, submits, resubmits, opens, registers, starts, reports,
  finishes, retires, raises, cancels, cancels_cloud, Reach, here, next,
}
use mb_printer_cli.Api.Jobs.Steps.Invariant.{
  is_active, Inv, started-Inv, publish-Inv, same_jobs-Inv, cancelling-Inv, cancel_effect,
  cancel_cloud_effect,
}

pub retire_effect :
    (disk : Bool) (id : ℕ) (k : Job) (s : Service)
    → let t = (retire disk id k s) in
      (t.jobs ≡ insert id k s.jobs)
      × (t.workers ≡ remove id s.workers)
      × (t.max_recent_jobs ≡ s.max_recent_jobs)
unfolding retire
retire_effect disk id k s = ground arith

retired-Inv :
    (id : ℕ) (j k : Job) (s t : Service)
    → lookup id s.workers ≡ some j
    → k.id ≡ j.id
    → t.jobs ≡ insert id k s.jobs
    → t.workers ≡ remove id s.workers
    → t.max_recent_jobs ≡ s.max_recent_jobs
    → Inv s
    → Inv t
retired-Inv id j k s t e same p q r v = record {
  indexed = record {
    keyed = rw p (
        insert-Keyed_at job_id id k s.jobs
          (same ∙ lookup-Keyed job_id id s.workers j v.workers_keyed e) v.indexed.keyed);
    unique = rw p (insert-Unique id k s.jobs v.indexed.unique);
  };
  bounded = ground (arith, v.bounded, v.busy id, length-insert id k s.jobs);
  workers_keyed = rw q (remove-Keyed job_id id s.workers v.workers_keyed);
  workers_unique = rw q (remove-Unique id s.workers v.workers_unique);
  busy = λ i h. ground (
    arith,
    p,
    q,
    lookup-insert id i k s.jobs,
    lookup-remove id i s.workers v.workers_unique,
    v.busy i,
  );
}

Admitted-cases :
    (job : Job) (r : Result ApiError Admitted)
    → ((j : Job) × (r ≡ ok (accepted j))) ⊎ ((t : Service) → hand_over job r t ≡ t)
unfolding hand_over
Admitted-cases job (ok (accepted j)) = inl (j, refl)
Admitted-cases job (ok (replayed j)) = inr (λ t. refl)
Admitted-cases job (err e) = inr (λ t. refl)

-- A submission: a worker is added exactly if the job is accepted, and then the job is retained.
pub submitted_jobs :
    (disk : Bool) (job : Job) (s : Service)
    → ((submitted disk job s).jobs ≡ (admit disk job s).1.jobs)
      × ((submitted disk job s).max_recent_jobs ≡ s.max_recent_jobs)
      × (((submitted disk job s).workers ≡ s.workers)
          ⊎ (((submitted disk job s).workers ≡ insert job.id job s.workers)
              × (lookup job.id (admit disk job s).1.jobs ≡ some job)))
unfolding submitted hand_over
submitted_jobs disk job s = elim (Admitted-cases job (admit disk job s).0) [
  | inl (j, e) ↦
      let (room, x) = admit_accepted disk job s j e in
      ground (arith, e, admit_rest disk job s, x.entered, lookup-insert job.id job.id job room)
  | inr e ↦ ground (arith, e (admit disk job s).1, admit_rest disk job s)
]

-- A submission under a known key leaves the service as it is.
pub submitted_again :
    (disk : Bool) (job existing : Job) (s : Service)
    → find_own job.idempotency_key s.jobs ≡ some existing
    → submitted disk job s ≡ s
unfolding submitted admit hand_over
submitted_again disk job existing s e = ground (arith, e)

pub queued-active : (job : Job) → job.state ≡ queued → terminal job ≡ false
unfolding terminal
queued-active job h = ground arith

pub submitted-active :
    (disk : Bool) (job : Job) (s : Service) (i : ℕ)
    → lookup job.id s.jobs ≡ none
    → IsIndexed s
    → is_active (lookup i s.jobs) ≡ true
    → lookup i (submitted disk job s).jobs ≡ lookup i s.jobs
submitted-active disk job s i free v h = elim (Option-cases (lookup i s.jobs)) [
  | inl e ↦ absurd (ground (arith, e))
  | inr (j, e) ↦
      let n : i ≢ job.id = λ p. ground (arith, e, free, ap (λ k. lookup k s.jobs) p) in
      ground (arith, e, n, (submitted_jobs disk job s).0, admit_keeps_active disk job s i j v e n)
]

submitted-Inv :
    (disk : Bool) (job : Job) (s : Service)
    → job.state ≡ queued
    → lookup job.id s.jobs ≡ none
    → Inv s
    → Inv (submitted disk job s)
submitted-Inv disk job s state free v = record {
  indexed = record {
    keyed = rw (submitted_jobs disk job s).0 (admit-IsIndexed disk job s v.indexed).keyed;
    unique = rw (submitted_jobs disk job s).0 (admit-IsIndexed disk job s v.indexed).unique;
  };
  bounded = ground (arith, submitted_jobs disk job s, admit_bounded disk job s v.indexed v.bounded);
  workers_keyed = elim (submitted_jobs disk job s).2 [
    | inl e ↦ rw e v.workers_keyed
    | inr (e, l) ↦ rw e (insert-Keyed_at job_id job.id job s.workers refl v.workers_keyed)
  ];
  workers_unique = elim (submitted_jobs disk job s).2 [
    | inl e ↦ rw e v.workers_unique
    | inr (e, l) ↦ rw e (insert-Unique job.id job s.workers v.workers_unique)
  ];
  busy = λ i h. ground (
    arith,
    submitted_jobs disk job s,
    v.busy i,
    lookup-insert job.id i job s.workers,
    submitted-active disk job s i free v.indexed,
    queued-active job state,
  );
}

pub Step-Inv : {s t : Service} → Step s t → Inv s → Inv t
unfolding raise_flag
Step-Inv {s} (submits disk job state free idle) v = submitted-Inv disk job s state free v
Step-Inv {s} (resubmits disk job existing e) v = rw (submitted_again disk job existing s e) v
Step-Inv {s} (opens id h e) v = same_jobs-Inv s (open_events id s) refl refl refl v
Step-Inv {s} (registers id h o e) v = same_jobs-Inv s (register_flag id s) refl refl refl v
Step-Inv {s} (raises id) v = same_jobs-Inv s (raise_flag id s) refl refl refl v
Step-Inv {s} (starts now id j e q f) v =
    publish-Inv id j (start_job now j) s e (unfold start_job in refl) v
Step-Inv {s} (reports now id p item copy j e q) v =
    publish-Inv id j (report_job now p item copy j) s e (unfold report_job in refl) v
Step-Inv {s} (finishes now id execution j e q) v =
    let flag = cancelled_flag (lookup id s.cancellations) in
    publish-Inv id j (finish_job now flag execution j) s e
      (finish_job-IsHonest now flag execution j).0.same_id v
Step-Inv {s} (retires disk id j e q) v =
    let r = retire_effect disk id j s in
    retired-Inv id j j s (retire disk id j s) e refl r.0 r.1 r.2 v
Step-Inv {s} (cancels disk now id) v =
    let r = cancel_effect disk now id s in
    cancelling-Inv now id s (cancel_found disk now id s (lookup id s.jobs)).1 r.0 r.1 r.2 v
Step-Inv {s} (cancels_cloud disk now id) v =
    let r = cancel_cloud_effect disk now id s in
    cancelling-Inv now id s (cancel_cloud_found disk now id s (lookup id s.jobs)).1 r.0 r.1 r.2 v

pub Reach-Inv : {s t : Service} → Inv s → Reach s t → Inv t
Reach-Inv v here = v
Reach-Inv v (next r step) = Step-Inv step (Reach-Inv v r)

-- From any file, after any interleaving of steps: at most `max` jobs are retained, each under its
-- own identifier and once, and every job that a worker owns is retained and has not ended.
pub reachable_jobs :
    (has_path : Bool) (file : Option (List Job)) (max : ℕ) (t : Service)
    → Reach (started has_path file max) t
    → (length t.jobs ≤ t.max_recent_jobs)
      × IsIndexed t
      × ((id : ℕ) → is_some (lookup id t.workers) ≡ true → is_active (lookup id t.jobs) ≡ true)
reachable_jobs has_path file max t r =
    let v = Reach-Inv (started-Inv has_path file max) r in (v.bounded, v.indexed, v.busy)
