-- ===== src/Api/Jobs/Admission/Retry.antt =====
-- A request that comes again under its idempotency key (src/api/jobs.rs).
use mb_printer_cli.Common.{
  ℕ, ◌≡◌, ◌≢◌, inl, inr, refl, sym, Bool, true, false, none, some, arith, ◌==◌, find?, is_some,
  Option-cases, Bool-cases,
}
use mb_printer_cli.Common.Text.{Text, opt_text_eq, opt_text_eq→eq, opt_text_eq_refl}
use mb_printer_cli.Common.Map.{
  Map, lookup, values, Unique, lookup-insert, lookup-remove, insert-Unique, remove-Unique,
}
use mb_printer_cli.Common.Sort.{Keyed}
use mb_printer_cli.Common.Values.{
  find?-values, find?-values_complete, insert-Keyed_at, remove-Keyed, find?-values-none,
}
use mb_printer_cli.Common.Result.{ok, err, Result-cases}
use mb_printer_cli.Job.{Job}
use mb_printer_cli.Api.Errors.{internal_error}
use mb_printer_cli.Api.Jobs.Retention.{Service, job_id, save_jobs}
use mb_printer_cli.Api.Jobs.Admission.{
  accepted, replayed, find_key, make_room, admit, conflict_error, find_own, find_replay,
}
use mb_printer_cli.Api.Jobs.Admission.Idempotence.{IsIndexed, make_room-cases}
use mb_printer_cli.Api.Jobs.Admission.Effects.{Entered, admit_jobs, admit_rest}

room-IsIndexed :
    (max : ℕ) (jobs room : Map Job)
    → Keyed job_id jobs
    → Unique jobs
    → make_room max jobs ≡ ok room
    → Keyed job_id room × Unique room
room-IsIndexed max jobs room h u e = elim (make_room-cases max jobs room h u e) [
  | inl (p, l) ↦ rw p (h, u)
  | inr (old, p, d) ↦ rw p (remove-Keyed job_id old.id jobs h, remove-Unique old.id jobs u)
]

room-lookup :
    (max : ℕ) (jobs room : Map Job) (k : ℕ) (j : Job)
    → Keyed job_id jobs
    → Unique jobs
    → make_room max jobs ≡ ok room
    → lookup k room ≡ some j
    → lookup k jobs ≡ some j
room-lookup max jobs room k j h u e l = elim (make_room-cases max jobs room h u e) [
  | inl (p, q) ↦ rw (← p) l
  | inr (old, p, d) ↦ ground (arith, lookup-remove old.id k jobs u)
]

-- Every admission keeps the jobs under their own identifiers, once each.
pub admit-IsIndexed :
    (disk : Bool) (job : Job) (s : Service) → IsIndexed s → IsIndexed (admit disk job s).1
admit-IsIndexed disk job s v = elim (admit_jobs disk job s) [
  | inl e ↦ record { keyed = rw e v.keyed; unique = rw e v.unique }
  | inr (room, x) ↦
      let (h, u) = room-IsIndexed s.max_recent_jobs s.jobs room v.keyed v.unique x.has_room in
      record {
        keyed = rw x.entered (insert-Keyed_at job_id job.id job room refl h);
        unique = rw x.entered (insert-Unique job.id job room u);
      }
]

-- The only job with the new job's key is the new job.
Entered-find_key :
    (disk : Bool) (job : Job) (s : Service) (room : Map Job) (key : Text)
    → IsIndexed s
    → job.idempotency_key ≡ some key
    → Entered job s room (admit disk job s).1.jobs
    → find_key key (admit disk job s).1.jobs ≡ some job
unfolding find_key
Entered-find_key disk job s room key v e x = elim (Option-cases (find_key key after)) [
  | inl n ↦ absurd (ground (arith, found, n))
  | inr (a, n) ↦
      let (p, l) = find?-values job_id has_key after a w.keyed w.unique n in
      elim (Bool-cases (a.id == job.id)) [
        | inl same ↦ ground (arith, n, l, x.entered, lookup-insert job.id a.id job room)
        | inr other ↦ absurd (
            ground (
              arith,
              p,
              find?-values-none job_id has_key a.id s.jobs a (ground (arith, x.no_replay)),
              room-lookup s.max_recent_jobs s.jobs room a.id a v.keyed v.unique x.has_room,
              l,
              x.entered,
              lookup-insert job.id a.id job room,
            ))
      ]
]
  where
    after : Map Job
    after = (admit disk job s).1.jobs

    w : IsIndexed (admit disk job s).1
    w = admit-IsIndexed disk job s v

    has_key : Job → Bool
    has_key j = opt_text_eq j.idempotency_key (some key)

    found : is_some (find? has_key (values after)) ≡ true
    found =
        find?-values_complete job_id has_key job.id after job
          (ground (arith, x.entered, lookup-insert job.id job.id job room))
          (ground (arith, opt_text_eq_refl (some key)))

pub admit_accepted :
    (disk : Bool) (job : Job) (s : Service) (j : Job)
    → (admit disk job s).0 ≡ ok (accepted j)
    → (room : Map Job) × Entered job s room (admit disk job s).1.jobs
unfolding admit save_jobs
admit_accepted disk job s j h = elim (Option-cases (find_own job.idempotency_key s.jobs)) [
  | inr (i, e) ↦ absurd (ground arith)
  | inl e ↦ elim (Result-cases (make_room s.max_recent_jobs s.jobs)) [
    | inr (x, f) ↦ absurd (ground arith)
    | inl (room, f) ↦ (room, record { no_replay = e; has_room = f; entered = ground arith })
  ]
]

-- What a later request under the same key gets: the same job if it is the same request, a conflict
-- if not, and in neither case a change.
abbrev pub Answered : Job → Text → Service → Type 0
Answered job key t =
    (disk : Bool) (again : Job)
    → again.idempotency_key ≡ some key
    → (again.request_hash ≡ job.request_hash → admit disk again t ≡ (ok (replayed job), t))
      × (again.request_hash ≢ job.request_hash → admit disk again t ≡ (err conflict_error, t))

found-Answered :
    (job : Job) (key : Text) (t : Service) → find_key key t.jobs ≡ some job → Answered job key t
unfolding admit
found-Answered job key t f disk again e = (
  λ p. ground (arith, f, e, p, opt_text_eq_refl job.request_hash),
  λ n. elim (Bool-cases (opt_text_eq job.request_hash again.request_hash)) [
    | inl q ↦ absurd (n (sym (opt_text_eq→eq job.request_hash again.request_hash q)))
    | inr q ↦ ground (arith, f, e, q)
  ],
)

-- After a request with an idempotency key was accepted, the same request under that key is answered
-- with the same job, another request under that key is refused as a conflict, and neither changes
-- anything; the look-up at the head of a submission finds that job as well.
pub admit_idempotent :
    (disk : Bool) (job : Job) (s : Service) (j : Job) (key hash : Text)
    → IsIndexed s
    → job.idempotency_key ≡ some key
    → job.request_hash ≡ some hash
    → (admit disk job s).0 ≡ ok (accepted j)
    → Answered job key (admit disk job s).1
      × (find_replay (some key) hash (admit disk job s).1 ≡ ok (some job))
unfolding find_replay
admit_idempotent disk job s j key hash v e f h =
    let (room, x) = admit_accepted disk job s j h in
    let g = Entered-find_key disk job s room key v e x in
    (
      found-Answered job key (admit disk job s).1 g,
      ground (arith, g, f, opt_text_eq_refl (some hash)),
    )

unsaved :
    (job : Job) (s : Service) (room : Map Job)
    → s.has_path ≡ true
    → find_own job.idempotency_key s.jobs ≡ none
    → make_room s.max_recent_jobs s.jobs ≡ ok room
    → ((admit false job s).0 ≡ err (internal_error "job persistence failed"))
      × Entered job s room (admit false job s).1.jobs
unfolding admit save_jobs
unsaved job s room path n m =
    (ground arith, record { no_replay = n; has_room = m; entered = ground arith })

-- Where the job fits but the file cannot be written, the submission is refused with status 500 and
-- no worker is added, yet the job stays retained; the same request is then answered with that job,
-- which nothing executes.
pub admit_unsaved :
    (job : Job) (s : Service) (room : Map Job) (key : Text)
    → IsIndexed s
    → s.has_path ≡ true
    → job.idempotency_key ≡ some key
    → find_own job.idempotency_key s.jobs ≡ none
    → make_room s.max_recent_jobs s.jobs ≡ ok room
    → let r = admit false job s in
      (r.0 ≡ err (internal_error "job persistence failed"))
      × (r.1.workers ≡ s.workers)
      × (lookup job.id r.1.jobs ≡ some job)
      × Answered job key r.1
admit_unsaved job s room key v path e n m =
    let (failed, x) = unsaved job s room path n m in
    (
      failed,
      (admit_rest false job s).2,
      ground (arith, x.entered, lookup-insert job.id job.id job room),
      found-Answered job key (admit false job s).1 (Entered-find_key false job s room key v e x),
    )
