-- ===== src/Api/Jobs/Steps/Invariant.antt =====
-- What holds of the retained jobs and the workers between any two steps (src/api/jobs.rs).
use mb_printer_cli.Common.{
  ℕ, ◌≡◌, ◌≤◌, ◌⊎◌, inl, inr, ◌∙◌, Bool, true, false, not, Option, none, some, List, [], arith,
  length, is_some, Option-cases,
}
use mb_printer_cli.Common.Map.{lookup, insert, Unique, lookup-insert, length-insert, insert-Unique}
use mb_printer_cli.Common.Sort.{Keyed, collect_from-Unique}
use mb_printer_cli.Common.Values.{insert-Keyed_at, collect_from-Keyed, lookup-Keyed}
use mb_printer_cli.Job.{Job, terminal, request_cancel}
use mb_printer_cli.Api.Jobs.Retention.{Service, job_id, load_jobs, save_jobs}
use mb_printer_cli.Api.Jobs.Retention.Restart.{load_jobs_settled}
use mb_printer_cli.Api.Jobs.Admission.Idempotence.{IsIndexed}
use mb_printer_cli.Api.Jobs.Worker.{send, publish, cancel_found, cancel_cloud_found}
use mb_printer_cli.Api.Jobs.Steps.{started}

-- A retained job that has not ended.
abbrev pub is_active : Option Job → Bool
is_active none = false
is_active (some j) = not (terminal j)

pub record Inv (s : Service) : Type 0 where
  pub indexed : IsIndexed s
  pub bounded : length s.jobs ≤ s.max_recent_jobs
  pub workers_keyed : Keyed job_id s.workers
  pub workers_unique : Unique s.workers
  pub busy : (id : ℕ) → is_some (lookup id s.workers) ≡ true → is_active (lookup id s.jobs) ≡ true

pub started-Inv :
    (has_path : Bool) (file : Option (List Job)) (max : ℕ) → Inv (started has_path file max)
unfolding started load_jobs lookup
started-Inv has_path file max = record {
  indexed = record {
    keyed = collect_from-Keyed job_id [] _ tt;
    unique = collect_from-Unique job_id [] _ tt;
  };
  bounded = (load_jobs_settled has_path file max).1;
  workers_keyed = tt;
  workers_unique = tt;
  busy = λ id h. absurd (ground arith);
}

-- The worker's copy changes, its identifier does not.
pub publish-Inv :
    (id : ℕ) (j k : Job) (s : Service)
    → lookup id s.workers ≡ some j
    → k.id ≡ j.id
    → Inv s
    → Inv (publish id k s)
unfolding publish
publish-Inv id j k s e same v = record {
  indexed = record { keyed = v.indexed.keyed; unique = v.indexed.unique };
  bounded = v.bounded;
  workers_keyed =
      insert-Keyed_at job_id id k s.workers
        (ground (arith, lookup-Keyed job_id id s.workers j v.workers_keyed e)) v.workers_keyed;
  workers_unique = insert-Unique id k s.workers v.workers_unique;
  busy = λ i h. ground (arith, lookup-insert id i k s.workers, v.busy i);
}

-- A retained job that is replaced under its identifier.
replaced-Inv :
    (id : ℕ) (j k : Job) (s t : Service)
    → lookup id s.jobs ≡ some j
    → k.id ≡ id
    → (terminal j ≡ false → terminal k ≡ false)
    → t.jobs ≡ insert id k s.jobs
    → t.workers ≡ s.workers
    → t.max_recent_jobs ≡ s.max_recent_jobs
    → Inv s
    → Inv t
replaced-Inv id j k s t e same active p q r v = record {
  indexed = record {
    keyed = rw p (insert-Keyed_at job_id id k s.jobs same v.indexed.keyed);
    unique = rw p (insert-Unique id k s.jobs v.indexed.unique);
  };
  bounded = ground (arith, v.bounded, length-insert id k s.jobs);
  workers_keyed = rw q v.workers_keyed;
  workers_unique = rw q v.workers_unique;
  busy = λ i h. ground (arith, p, q, lookup-insert id i k s.jobs, v.busy i, active);
}

request_cancel_id : (now : ℕ) (j : Job) → (request_cancel now j).id ≡ j.id
unfolding request_cancel
request_cancel_id now j = ground arith

request_cancel_active :
    (now : ℕ) (j : Job) → terminal j ≡ false → terminal (request_cancel now j) ≡ false
unfolding request_cancel terminal
request_cancel_active now j h = ground arith

-- A cancellation replaces the retained job, if there is one, and touches no worker.
pub cancel_effect :
    (disk : Bool) (now id : ℕ) (s : Service)
    → let t = (cancel_found disk now id s (lookup id s.jobs)).1 in
      (t.workers ≡ s.workers)
      × (t.max_recent_jobs ≡ s.max_recent_jobs)
      × ((t.jobs ≡ s.jobs)
          ⊎ ((j : Job) × (lookup id s.jobs ≡ some j)
              × (t.jobs ≡ insert id (request_cancel now j) s.jobs)))
unfolding save_jobs send
cancel_effect disk now id s = elim (Option-cases (lookup id s.jobs)) [
  | inl e ↦ ground (arith, e)
  | inr (j, e) ↦ ground (arith, e)
]

pub cancel_cloud_effect :
    (disk : Bool) (now id : ℕ) (s : Service)
    → let t = (cancel_cloud_found disk now id s (lookup id s.jobs)).1 in
      (t.workers ≡ s.workers)
      × (t.max_recent_jobs ≡ s.max_recent_jobs)
      × ((t.jobs ≡ s.jobs)
          ⊎ ((j : Job) × (lookup id s.jobs ≡ some j)
              × (t.jobs ≡ insert id (request_cancel now j) s.jobs)))
unfolding save_jobs
cancel_cloud_effect disk now id s = elim (Option-cases (lookup id s.jobs)) [
  | inl e ↦ ground (arith, e)
  | inr (j, e) ↦ ground (arith, e)
]

pub same_jobs-Inv :
    (s t : Service)
    → t.jobs ≡ s.jobs
    → t.workers ≡ s.workers
    → t.max_recent_jobs ≡ s.max_recent_jobs
    → Inv s
    → Inv t
same_jobs-Inv s t p q r v = record {
  indexed = record { keyed = rw p v.indexed.keyed; unique = rw p v.indexed.unique };
  bounded = ground (arith, v.bounded);
  workers_keyed = rw q v.workers_keyed;
  workers_unique = rw q v.workers_unique;
  busy = λ i h. ground (arith, p, q, v.busy i);
}

pub cancelling-Inv :
    (now id : ℕ) (s t : Service)
    → t.workers ≡ s.workers
    → t.max_recent_jobs ≡ s.max_recent_jobs
    → (t.jobs ≡ s.jobs)
      ⊎ ((j : Job) × (lookup id s.jobs ≡ some j)
          × (t.jobs ≡ insert id (request_cancel now j) s.jobs))
    → Inv s
    → Inv t
cancelling-Inv now id s t q r (inl p) v = same_jobs-Inv s t p q r v
cancelling-Inv now id s t q r (inr (j, e, p)) v =
    replaced-Inv id j (request_cancel now j) s t e
      (request_cancel_id now j ∙ lookup-Keyed job_id id s.jobs j v.indexed.keyed e)
      (request_cancel_active now j) p q r v
