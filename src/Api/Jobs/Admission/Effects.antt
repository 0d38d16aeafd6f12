-- ===== src/Api/Jobs/Admission/Effects.antt =====
-- What an admission leaves of the retained jobs, and repeated requests (src/api/jobs.rs).
use mb_printer_cli.Common.{
  ℕ, ◌≡◌, ◌≢◌, ◌≤◌, ◌⊎◌, inl, inr, Bool, true, none, some, arith, length, Option-cases,
}
use mb_printer_cli.Common.Map.{
  Map, lookup, insert, lookup-insert, lookup-remove, length-insert, length-remove,
  length-pos_of_lookup,
}
use mb_printer_cli.Common.Result.{ok, Result-cases}
use mb_printer_cli.Job.{Job, terminal}
use mb_printer_cli.Api.Jobs.Retention.{Service, save_jobs}
use mb_printer_cli.Api.Jobs.Admission.{make_room, admit, find_own}
use mb_printer_cli.Api.Jobs.Admission.Idempotence.{IsIndexed, make_room-cases}

-- The jobs after an admission that got past the look-up of the key and found room.
pub record Entered (job : Job) (s : Service) (room after : Map Job) : Type 0 where
  pub no_replay : find_own job.idempotency_key s.jobs ≡ none
  pub has_room : make_room s.max_recent_jobs s.jobs ≡ ok room
  pub entered : after ≡ insert job.id job room

pub admit_jobs :
    (disk : Bool) (job : Job) (s : Service)
    → ((admit disk job s).1.jobs ≡ s.jobs)
      ⊎ ((room : Map Job) × Entered job s room (admit disk job s).1.jobs)
unfolding admit save_jobs
admit_jobs disk job s = elim (Option-cases (find_own job.idempotency_key s.jobs)) [
  | inr (j, e) ↦ inl (ground arith)
  | inl e ↦ elim (Result-cases (make_room s.max_recent_jobs s.jobs)) [
    | inr (x, f) ↦ inl (ground arith)
    | inl (room, f) ↦ inr (room, record { no_replay = e; has_room = f; entered = ground arith })
  ]
]

-- All but the jobs and the file stays.
pub admit_rest :
    (disk : Bool) (job : Job) (s : Service)
    → let t = (admit disk job s).1 in
      (t.max_recent_jobs ≡ s.max_recent_jobs)
      × (t.has_path ≡ s.has_path)
      × (t.workers ≡ s.workers)
      × (t.events ≡ s.events)
      × (t.cancellations ≡ s.cancellations)
unfolding admit save_jobs
admit_rest disk job s = ground arith

Entered-bounded :
    (job : Job) (s : Service) (room after : Map Job)
    → IsIndexed s
    → length s.jobs ≤ s.max_recent_jobs
    → Entered job s room after
    → length after ≤ s.max_recent_jobs
Entered-bounded job s room after v b x =
    elim (make_room-cases s.max_recent_jobs s.jobs room v.keyed v.unique x.has_room) [
      | inl (e, l) ↦ ground (arith, x.entered, length-insert job.id job room)
      | inr (old, e, d) ↦ ground (
        arith,
        x.entered,
        length-insert job.id job room,
        length-remove old.id s.jobs,
        d.1,
        length-pos_of_lookup old.id s.jobs,
      )
    ]

-- An admission, accepted, replayed or refused, keeps the number of retained jobs within the limit.
pub admit_bounded :
    (disk : Bool) (job : Job) (s : Service)
    → IsIndexed s
    → length s.jobs ≤ s.max_recent_jobs
    → length (admit disk job s).1.jobs ≤ s.max_recent_jobs
admit_bounded disk job s v b = elim (admit_jobs disk job s) [
  | inl e ↦ rw e b
  | inr (room, x) ↦ Entered-bounded job s room (admit disk job s).1.jobs v b x
]

Entered-lookup :
    (job : Job) (s : Service) (room after : Map Job) (k : ℕ) (j : Job)
    → IsIndexed s
    → Entered job s room after
    → lookup k s.jobs ≡ some j
    → k ≢ job.id
    → (lookup k after ≡ some j) ⊎ ((lookup k after ≡ none) × (terminal j ≡ true))
Entered-lookup job s room after k j v x h n =
    elim (make_room-cases s.max_recent_jobs s.jobs room v.keyed v.unique x.has_room) [
      | inl (e, l) ↦ inl (ground (arith, x.entered, lookup-insert job.id k job room))
      | inr (old, e, d) ↦ ground (
        arith,
        x.entered,
        lookup-insert job.id k job room,
        lookup-remove old.id k s.jobs v.unique,
        d.0,
        d.1,
      )
    ]

-- An admission drops no job that is still active, and changes none: another job than the new one is
-- retained as it was, or it was terminal and is evicted.
pub admit_keeps_active :
    (disk : Bool) (job : Job) (s : Service) (k : ℕ) (j : Job)
    → IsIndexed s
    → lookup k s.jobs ≡ some j
    → k ≢ job.id
    → (lookup k (admit disk job s).1.jobs ≡ some j)
      ⊎ ((lookup k (admit disk job s).1.jobs ≡ none) × (terminal j ≡ true))
admit_keeps_active disk job s k j v h n = elim (admit_jobs disk job s) [
  | inl e ↦ inl (rw e h)
  | inr (room, x) ↦ Entered-lookup job s room (admit disk job s).1.jobs k j v x h n
]
