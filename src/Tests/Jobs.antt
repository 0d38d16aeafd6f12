-- ===== src/Tests/Jobs.antt =====
-- Concrete submissions, workers and cancellations (src/jobs.rs, src/api/jobs.rs).
use mb_printer_cli.Common.{
  ℕ, ◌+◌, ◌*◌, ◌≡◌, ◌≢◌, ◌≤◌, ◌<◌, ◌⊎◌, refl, Bool, true, false, Option, none, some, List, [], ◌∷◌,
  arith, length, is_some, Bool-cases, inl, inr, ◌==◌,
}
use mb_printer_cli.Common.Text.{Text, codes}
use mb_printer_cli.Common.Map.{Map, lookup, Unique, Entries}
use mb_printer_cli.Common.Sort.{Keyed}
use mb_printer_cli.Common.Result.{ok, err}
use mb_printer_cli.Job.{Job, queued, running, completed, cancel_requested, terminal, request_cancel}
use mb_printer_cli.Api.Errors.{internal_error}
use mb_printer_cli.Api.Jobs.Retention.{Service, job_id, load_jobs, save_jobs}
use mb_printer_cli.Api.Jobs.Admission.{accepted, admit, find_replay, find_own, make_room}
use mb_printer_cli.Api.Jobs.Admission.Idempotence.{IsIndexed}
use mb_printer_cli.Api.Jobs.Admission.Retry.{Answered, admit_idempotent, admit_unsaved}
use mb_printer_cli.Api.Jobs.Worker.{
  Progress, executed, finish_job, register, retire, cancel, cancelled_flag, get_job,
}
use mb_printer_cli.Api.Jobs.Steps.{started, submitted, Step, submits, here, next}
use mb_printer_cli.Api.Jobs.Steps.Lifecycle.{Allowed, phase, Step-Allowed}
use mb_printer_cli.Api.Jobs.Steps.Invariant.{Inv, is_active}
use mb_printer_cli.Api.Jobs.Steps.Reachable.{reachable_jobs}
use mb_printer_cli.Api.Jobs.Steps.Final.{IsKept, Step-IsKept}
use mb_printer_cli.Api.Jobs.Steps.LostCancellation.{cancel_before_register, cancel_before_retire}
use mb_printer_cli.Api.Jobs.Batch.{
  Action, command_write, raster_write, page_name, count_pages, page_at, batch_position,
  batch_position_exact,
}

abbrev pub base : ℕ → Job
base id = record {
  id = id;
  state = queued;
  last_completed_action = none;
  bytes_written = 0;
  total_bytes = 9;
  potentially_accepted_write = false;
  protocol = none;
  action_count = 2;
  batch_item = 0;
  batch_items = 1;
  batch_copy = 0;
  batch_copies = 1;
  error = none;
  resumable = none;
  idempotency_key = none;
  request_hash = none;
  created_at_ms = 5;
  updated_at_ms = 5;
}

abbrev pub ended : Job
ended = record (base 1) { state = completed; updated_at_ms = 7 }

abbrev active : Job
active = record (base 2) { state = running }

abbrev keyed_job : Job
keyed_job = record (base 3) { idempotency_key = some (codes "k"); request_hash = some (codes "h") }

-- Two jobs where two are retained: the first has ended.
abbrev full : Service
full = record {
  max_recent_jobs = 2;
  has_path = true;
  jobs = (1, ended) ∷ (2, active) ∷ [];
  events = [];
  cancellations = (2, false) ∷ [];
  workers = (2, active) ∷ [];
  file = none;
}

abbrev all_written : Progress
all_written = record {
  last_completed_action = some 1;
  bytes_written = 9;
  potentially_accepted_write = true;
}

full-Keyed : Keyed job_id full.jobs
full-Keyed = (refl, (refl, tt))

full-Unique : Unique full.jobs
unfolding lookup
full-Unique = (refl, (refl, tt))

full-IsIndexed : IsIndexed full
full-IsIndexed = record { keyed = full-Keyed; unique = full-Unique }

full_busy :
    (id : ℕ) → is_some (lookup id full.workers) ≡ true → is_active (lookup id full.jobs) ≡ true
unfolding lookup terminal
full_busy id h = elim (Bool-cases (2 == id)) [
  | inl e ↦ ground arith
  | inr e ↦ absurd (ground arith)
]

full-Inv : Inv full
unfolding lookup
full-Inv = record {
  indexed = full-IsIndexed;
  bounded = omega arith;
  workers_keyed = (refl, tt);
  workers_unique = (refl, tt);
  busy = full_busy;
}

full_submits : Step full (submitted true keyed_job full)
unfolding lookup
full_submits = submits true keyed_job refl refl refl

empty_submits : Step (started true none 2) (submitted true keyed_job (started true none 2))
unfolding started load_jobs lookup mb_printer_cli.Common.Sort.collect_from
    mb_printer_cli.Common.Sort.sort_by
empty_submits = submits true keyed_job refl refl refl

reachable_jobs_example :
    let t = submitted true keyed_job (started true none 2) in
    (length t.jobs ≤ t.max_recent_jobs)
    × IsIndexed t
    × ((id : ℕ) → is_some (lookup id t.workers) ≡ true → is_active (lookup id t.jobs) ≡ true)
reachable_jobs_example =
    reachable_jobs true none 2 (submitted true keyed_job (started true none 2))
      (next here empty_submits)

full_admits : (admit true keyed_job full).0 ≡ ok (accepted keyed_job)
unfolding admit make_room save_jobs mb_printer_cli.Api.Jobs.Admission.find_key
    mb_printer_cli.Common.Map.values mb_printer_cli.Common.Text.opt_text_eq
    mb_printer_cli.Api.Jobs.Admission.removable terminal
full_admits = refl

admit_idempotent_example :
    Answered keyed_job (codes "k") (admit true keyed_job full).1
    × (find_replay (some (codes "k")) (codes "h") (admit true keyed_job full).1
        ≡ ok (some keyed_job))
admit_idempotent_example =
    admit_idempotent true keyed_job full keyed_job (codes "k") (codes "h") full-IsIndexed refl refl
      full_admits

Step-IsKept_example : IsKept ended (lookup 1 (submitted true keyed_job full).jobs)
unfolding lookup
Step-IsKept_example = Step-IsKept 1 ended full_submits full-Inv refl

Step-Allowed_example :
    Allowed (phase (get_job 1 full)) (phase (get_job 1 (submitted true keyed_job full)))
Step-Allowed_example = Step-Allowed 1 full_submits full-Inv

room : make_room 2 full.jobs ≡ ok ((2, active) ∷ [])
unfolding make_room mb_printer_cli.Api.Jobs.Admission.removable mb_printer_cli.Common.Map.values
    terminal mb_printer_cli.Common.Map.remove
room = refl

admit_unsaved_example :
    ((admit false keyed_job full).0 ≡ err (internal_error "job persistence failed"))
    × ((admit false keyed_job full).1.workers ≡ full.workers)
    × (lookup 3 (admit false keyed_job full).1.jobs ≡ some keyed_job)
    × Answered keyed_job (codes "k") (admit false keyed_job full).1
unfolding mb_printer_cli.Api.Jobs.Admission.find_key mb_printer_cli.Common.Map.values
    mb_printer_cli.Common.Text.opt_text_eq
admit_unsaved_example =
    admit_unsaved keyed_job full ((2, active) ∷ []) (codes "k") full-IsIndexed refl refl refl room

-- A job that was just admitted, before its flag is registered.
abbrev unregistered : Service
unregistered = record full { cancellations = [] }

cancel_before_register_example :
    ((cancel true 6 2 unregistered).0 ≡ ok (request_cancel 6 active))
    × ((request_cancel 6 active).state ≡ cancel_requested)
    × (cancelled_flag (lookup 2 (register 2 (cancel true 6 2 unregistered).1).cancellations)
        ≡ false)
    × ((finish_job 8
          (cancelled_flag (lookup 2 (register 2 (cancel true 6 2 unregistered).1).cancellations))
          (executed all_written)
          active).state
        ≡ completed)
unfolding lookup terminal
cancel_before_register_example =
    cancel_before_register 6 8 2 unregistered active active all_written refl refl refl

-- The worker has ended its copy, and waits for the lock on the jobs.
abbrev concluded : Job
concluded = finish_job 8 false (executed all_written) active

abbrev unretired : Service
unretired = record full { workers = (2, concluded) ∷ [] }

cancel_before_retire_example :
    ((cancel true 9 2 unretired).0 ≡ ok (request_cancel 9 active))
    × (lookup 2 (cancel true 9 2 unretired).1.jobs ≡ some (request_cancel 9 active))
    × ((request_cancel 9 active).state ≡ cancel_requested)
    × (lookup 2 (cancel true 9 2 unretired).1.workers ≡ some concluded)
    × (lookup 2 (retire true 2 concluded (cancel true 9 2 unretired).1).jobs ≡ some concluded)
unfolding lookup terminal
cancel_before_retire_example =
    cancel_before_retire true 9 2 unretired active concluded refl refl refl

abbrev page : Action
page = command_write page_name []

abbrev plan : List Action
plan = page ∷ raster_write [] ∷ page ∷ raster_write [] ∷ []

plan_pages : count_pages plan ≤ 1 * 2
unfolding count_pages mb_printer_cli.Common.Text.text_eq
plan_pages = omega arith

batch_position_exact_example :
    ((batch_position plan (some 2) 2 1).0 < 1)
    × ((batch_position plan (some 2) 2 1).1 < 2)
    × ((batch_position plan (some 2) 2 1).0 * 2 + (batch_position plan (some 2) 2 1).1
        ≡ page_at plan 2)
batch_position_exact_example =
    batch_position_exact plan 2 2 1 (omega arith) (omega arith) (omega arith) plan_pages
