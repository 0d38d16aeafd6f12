-- ===== src/Api/Jobs/Admission/Idempotence.antt =====
-- What an admission does to the retained jobs (src/api/jobs.rs).
use mb_printer_cli.Common.{
  ℕ, ◌≡◌, ◌<◌, ◌⊎◌, inl, inr, subst, Bool, true, false, some, List, [], ◌∷◌, arith, if◌then◌else◌,
  leb, length, keep, Option-cases, Bool-cases,
}
use mb_printer_cli.Common.Lists.{All, keep-All}
use mb_printer_cli.Common.Map.{Map, lookup, remove, values, Unique}
use mb_printer_cli.Common.Sort.{Keyed}
use mb_printer_cli.Common.Values.{values-held}
use mb_printer_cli.Common.Result.{ok}
use mb_printer_cli.Job.{Job, terminal}
use mb_printer_cli.Api.Jobs.Retention.{Service, job_id}
use mb_printer_cli.Api.Jobs.Admission.{removable, oldest_from, make_room, older, oldest}

-- The retained jobs stand under their own identifiers, once each.
pub record IsIndexed (s : Service) : Type 0 where
  pub keyed : Keyed job_id s.jobs
  pub unique : Unique s.jobs

oldest_from-All :
    (P : Job → Type 0) (jobs : List Job) (best : Job)
    → P best
    → All P jobs
    → P (oldest_from best jobs)
unfolding oldest_from
oldest_from-All P [] best h a = h
oldest_from-All P (j ∷ jobs) best h a =
    oldest_from-All P jobs (if older j best then j else best) (chosen (older j best)) a.1
  where
    chosen : (b : Bool) → P (if b then j else best)
    chosen true = a.0
    chosen false = h

abbrev IsDone : Map Job → Job → Type 0
IsDone jobs j = (terminal j ≡ true) × (lookup j.id jobs ≡ some j)

oldest-All :
    (P : Job → Type 0) (jobs : List Job) (old : Job) → All P jobs → oldest jobs ≡ some old → P old
oldest-All P [] old a e = absurd (ground arith)
oldest-All P (j ∷ jobs) old a e =
    let q : oldest_from j jobs ≡ old = ground arith in subst P q (oldest_from-All P jobs j a.0 a.1)

-- What is evicted is a terminal job that stands under its identifier.
removable-IsDone :
    (jobs : Map Job) (old : Job)
    → Keyed job_id jobs
    → Unique jobs
    → removable jobs ≡ some old
    → IsDone jobs old
unfolding removable
removable-IsDone jobs old h u e =
    oldest-All (IsDone jobs) (keep terminal (values jobs)) old
      (keep-All (λ j. lookup j.id jobs ≡ some j) terminal (values jobs)
        (values-held job_id jobs h u))
      e

-- The two ways in which `make_room` succeeds.
pub make_room-cases :
    (max : ℕ) (jobs room : Map Job)
    → Keyed job_id jobs
    → Unique jobs
    → make_room max jobs ≡ ok room
    → ((room ≡ jobs) × (length jobs < max))
      ⊎ ((old : Job) × (room ≡ remove old.id jobs) × IsDone jobs old)
unfolding make_room
make_room-cases max jobs room h u e = elim (Bool-cases (leb max (length jobs))) [
  | inr f ↦ inl (ground arith, ground arith)
  | inl f ↦ elim (Option-cases (removable jobs)) [
    | inl g ↦ absurd (ground arith)
    | inr (old, g) ↦ inr (old, ground arith, removable-IsDone jobs old h u g)
  ]
]
