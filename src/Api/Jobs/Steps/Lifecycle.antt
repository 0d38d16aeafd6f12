-- ===== src/Api/Jobs/Steps/Lifecycle.antt =====
-- What a client may see of a job when it asks for it again and again (src/api/jobs.rs): an abstract
-- machine for one identifier, and that the steps of the service implement it.
use mb_printer_cli.Common.{
  ℕ, ◌≡◌, ◌⊎◌, inl, inr, Bool, true, false, Option, none, some, arith, if◌then◌else◌, is_some,
  Option-cases, Bool-cases,
}
use mb_printer_cli.Common.Map.{Map, lookup, insert, lookup-insert, lookup-remove}
use mb_printer_cli.Job.{Job, JobState, terminal, request_cancel}
use mb_printer_cli.Api.Jobs.Retention.{Service}
use mb_printer_cli.Api.Jobs.Admission.{admit}
use mb_printer_cli.Api.Jobs.Admission.Idempotence.{IsIndexed, make_room-cases}
use mb_printer_cli.Api.Jobs.Admission.Effects.{Entered, admit_jobs}
use mb_printer_cli.Api.Jobs.Worker.{publish, raise_flag, cancel_found, cancel_cloud_found, get_job}
use mb_printer_cli.Api.Jobs.Steps.{
  submitted, Step, submits, resubmits, opens, registers, starts, reports, finishes, retires, raises,
  cancels, cancels_cloud,
}
use mb_printer_cli.Api.Jobs.Steps.Invariant.{Inv, cancel_effect, cancel_cloud_effect}
use mb_printer_cli.Api.Jobs.Steps.Reachable.{
  retire_effect, submitted_again, submitted_jobs, queued-active,
}
use mb_printer_cli.Api.Jobs.Steps.Final.{IsKept, Step-IsKept}

-- What is promised of one identifier: unknown, a job that has not ended, or one with its outcome.
pub data Phase : Type 0 where
  absent active : Phase
  ended : JobState → Phase

pub data Allowed : Phase → Phase → Type 0 where
  stays : {p : Phase} → Allowed p p
  appears : Allowed absent active
  ends : (outcome : JobState) → Allowed active (ended outcome)
  evicted : (outcome : JobState) → Allowed (ended outcome) absent

-- What an answer to a client shows.
abbrev pub phase : Option Job → Phase
phase none = absent
phase (some j) = if terminal j then ended j.state else active

Entered-absent :
    (job : Job) (s : Service) (room after : Map Job) (k : ℕ)
    → IsIndexed s
    → Entered job s room after
    → lookup k s.jobs ≡ none
    → (lookup k after ≡ none) ⊎ (lookup k after ≡ some job)
Entered-absent job s room after k v x h =
    elim (make_room-cases s.max_recent_jobs s.jobs room v.keyed v.unique x.has_room) [
      | inl (e, l) ↦ ground (arith, x.entered, lookup-insert job.id k job room)
      | inr (old, e, d) ↦ ground (
        arith,
        x.entered,
        lookup-insert job.id k job room,
        lookup-remove old.id k s.jobs v.unique,
        d.1,
      )
    ]

submitted-absent :
    (disk : Bool) (job : Job) (s : Service) (k : ℕ)
    → Inv s
    → lookup k s.jobs ≡ none
    → (lookup k (submitted disk job s).jobs ≡ none)
      ⊎ (lookup k (submitted disk job s).jobs ≡ some job)
submitted-absent disk job s k v h = rw (submitted_jobs disk job s).0 (elim (admit_jobs disk job s) [
  | inl e ↦ inl (rw e h)
  | inr (room, x) ↦ Entered-absent job s room (admit disk job s).1.jobs k v.indexed x h
])

cancelling-absent :
    (now id k : ℕ) (s t : Service)
    → (t.jobs ≡ s.jobs)
      ⊎ ((i : Job) × (lookup id s.jobs ≡ some i)
          × (t.jobs ≡ insert id (request_cancel now i) s.jobs))
    → lookup k s.jobs ≡ none
    → lookup k t.jobs ≡ none
cancelling-absent now id k s t (inl p) e = rw p e
cancelling-absent now id k s t (inr (i, f, p)) e =
    ground (arith, e, f, p, lookup-insert id k (request_cancel now i) s.jobs)

-- An identifier that is unknown stays so, or is that of a job that has just been accepted.
appearing :
    {s t : Service} (k : ℕ)
    → Step s t
    → Inv s
    → lookup k s.jobs ≡ none
    → (lookup k t.jobs ≡ none) ⊎ ((j : Job) × (lookup k t.jobs ≡ some j) × (terminal j ≡ false))
unfolding publish raise_flag
appearing {s} k (submits disk job state free idle) v e = elim (submitted-absent disk job s k v e) [
  | inl f ↦ inl f
  | inr f ↦ inr (job, f, queued-active job state)
]
appearing {s} k (resubmits disk job existing f) v e =
    inl (rw (submitted_again disk job existing s f) e)
appearing {s} k (opens id h f) v e = inl e
appearing {s} k (registers id h o f) v e = inl e
appearing {s} k (raises id) v e = inl e
appearing {s} k (finishes now id execution i f q) v e = inl e
appearing {s} k (starts now id i f q r) v e = inl e
appearing {s} k (reports now id p item copy i f q) v e = inl e
appearing {s} k (retires disk id x f q) v e =
    inl
      (ground (arith, e, f, (retire_effect disk id x s).0, lookup-insert id k x s.jobs, v.busy id))
appearing {s} k (cancels disk now id) v e = inl (
    cancelling-absent now id k s (cancel_found disk now id s (lookup id s.jobs)).1
      (cancel_effect disk now id s).2 e)
appearing {s} k (cancels_cloud disk now id) v e = inl (
    cancelling-absent now id k s (cancel_cloud_found disk now id s (lookup id s.jobs)).1
      (cancel_cloud_effect disk now id s).2 e)

phase-active : (j : Job) → terminal j ≡ false → phase (some j) ≡ active
phase-active j h = ground arith

phase-ended : (j : Job) → terminal j ≡ true → phase (some j) ≡ ended j.state
phase-ended j h = ground arith

from_active : (after : Option Job) → is_some after ≡ true → Allowed active (phase after)
from_active none h = absurd (ground arith)
from_active (some j) h = elim (Bool-cases (terminal j)) [
  | inl t ↦ rw (phase-ended j t) (ends j.state)
  | inr t ↦ rw (phase-active j t) stays
]

kept-Allowed :
    (j : Job) (after : Option Job) → IsKept j after → Allowed (phase (some j)) (phase after)
kept-Allowed j after kept = elim (Bool-cases (terminal j)) [
  | inl t ↦ elim (kept.ended_stays t) [
    | inl e ↦ rw e stays
    | inr e ↦ rw (e, phase-ended j t) (evicted j.state)
  ]
  | inr t ↦ rw (phase-active j t) (from_active after (kept.active_stays t))
]

-- Each step of the service from a state in which the invariant holds is, for every identifier, a step
-- of the abstract machine: an unknown identifier may become that of a job which has not ended, such a
-- job may end, and one that has ended keeps its outcome until it is evicted.
pub Step-Allowed :
    {s t : Service} (k : ℕ) → Step s t → Inv s → Allowed (phase (get_job k s)) (phase (get_job k t))
unfolding get_job
Step-Allowed {s} {t} k step v = elim (Option-cases (lookup k s.jobs)) [
  | inl e ↦ elim (appearing k step v e) [
    | inl f ↦ rw (e, f) stays
    | inr (j, f, a) ↦ rw (e, f, phase-active j a) appears
  ]
  | inr (j, e) ↦ rw e (kept-Allowed j (lookup k t.jobs) (Step-IsKept k j step v e))
]
