-- ===== src/Cloud/Store/Redelivery.antt =====
-- What a delivery does to the store (`receive` of src/cloud/store.rs).
use mb_printer_cli.Common.{
  ℕ, ◌≡◌, ◌≤◌, refl, false, ◌&&◌, Option, none, some, List, arith, ==_refl, Option-cases,
  Bool-cases, ◌==◌, inl, inr, length,
}
use mb_printer_cli.Common.Text.{Text, text_eq, text_eq_iff, text_eq_refl}
use mb_printer_cli.Common.Map.{
  lookup, lookup-insert_ordered, Ordered, insert_ordered-Ordered, Entries, insert_ordered-Entries,
}
use mb_printer_cli.Common.Result.{Result, ok, Result-cases}
use mb_printer_cli.Cloud.Request.{Wire, invalid_request, IsValid, invalid_request-IsValid}
use mb_printer_cli.Cloud.Store.{
  CloudJob, CloudJobStore, ReceiveError, ReceiveOutcome, existing_job, delivered, Delivery,
  check_delivery, create, enter, receive,
}

-- The invariant of the store: identifiers agree with the key, and every request can be printed.
pub record IsSound (k : ℕ) (c : CloudJob) : Type 0 where
  pub keyed : c.id ≡ k
  pub job_keyed : c.local_job.id ≡ k
  pub hashed : c.local_job.request_hash ≡ some c.request_sha256
  pub valid : IsValid c.request

pub check_delivery-valid :
    (w : Wire) (job_id printer_id : Text) (bytes : List ℕ) (expected : Text) (maximum : ℕ)
    {d : Delivery}
    → check_delivery w job_id printer_id bytes expected maximum ≡ ok d
    → (invalid_request d.request ≡ false)
      × (d.actual ≡ expected)
      × (d.actual ≡ w.sha256_hex bytes)
      × (length bytes ≤ maximum)
      × (w.parse_uuid job_id ≡ some d.id)
      × (w.parse_uuid printer_id ≡ some d.printer_id)
unfolding check_delivery
check_delivery-valid w job_id printer_id bytes expected maximum h =
    ground (arith, text_eq_iff (w.sha256_hex bytes) expected)

create-IsSound :
    (w : Wire) (now : ℕ) (d : Delivery)
    → invalid_request d.request ≡ false
    → IsSound d.id (create w now d)
unfolding create
create-IsSound w now d h = record {
  keyed = refl;
  job_keyed = refl;
  hashed = refl;
  valid = invalid_request-IsValid d.request h;
}

enter_again :
    (w : Wire) (now later : ℕ) (d : Delivery) (s s' : CloudJobStore) {o : ReceiveOutcome}
    → enter (create w now d) d (lookup d.id s) s ≡ (ok o, s')
    → enter (create w later d) d (lookup d.id s') s' ≡ (ok (existing_job (delivered o)), s')
unfolding enter create
enter_again w now later d s s' h = ground (
  arith,
  lookup-insert_ordered d.id d.id (create w now d) s,
  text_eq_refl d.actual,
  ==_refl d.id,
  ==_refl d.printer_id,
)

enter_keeps :
    (w : Wire) (now : ℕ) (d : Delivery) (s : CloudJobStore) (k : ℕ) {c : CloudJob}
    → lookup k s ≡ some c
    → lookup k (enter (create w now d) d (lookup d.id s) s).1 ≡ some c
unfolding enter
enter_keeps w now d s k h =
    ground (arith, lookup-insert_ordered d.id k (create w now d) s, Option-cases (lookup d.id s))

enter_invariant :
    (w : Wire) (now : ℕ) (d : Delivery) (s : CloudJobStore) (o : Option CloudJob)
    → invalid_request d.request ≡ false
    → Ordered s × Entries IsSound s
    → Ordered (enter (create w now d) d o s).1 × Entries IsSound (enter (create w now d) d o s).1
unfolding enter
enter_invariant w now d s none v h = (
  insert_ordered-Ordered d.id (create w now d) s h.0,
  insert_ordered-Entries IsSound d.id (create w now d) s (create-IsSound w now d v) h.1,
)
enter_invariant w now d s (some c) v h =
    elim (Bool-cases (text_eq c.request_sha256 d.actual && c.printer_id == d.printer_id)) [
      | inl e ↦ rw e h
      | inr e ↦ rw e h
    ]

module _ (w : Wire) (now : ℕ) (job_id printer_id : Text) (bytes : List ℕ) (expected : Text)
    (maximum : ℕ) (s : CloudJobStore) where
  -- An accepted delivery is answered with the same job whenever it comes again, at any later time,
  -- and the repetition leaves the store as it is.
  pub receive_redelivered :
      (later : ℕ) (s' : CloudJobStore) (o : ReceiveOutcome)
      → receive w now job_id printer_id bytes expected maximum s ≡ (ok o, s')
      → receive w later job_id printer_id bytes expected maximum s'
        ≡ (ok (existing_job (delivered o)), s')
  unfolding receive
  receive_redelivered later s' o h = elim (Result-cases checked) [
    | inl (d, e) ↦ rw (e, receive) (enter_again w now later d s s' (rw (e, receive) at h))
    | inr (x, e) ↦ absurd (ground (arith, e))
  ]
    where
      checked : Result ReceiveError Delivery
      checked = check_delivery w job_id printer_id bytes expected maximum

  -- No delivery, accepted or rejected, changes or drops a job that the store holds.
  pub receive_keeps :
      (k : ℕ) (c : CloudJob)
      → lookup k s ≡ some c
      → lookup k (receive w now job_id printer_id bytes expected maximum s).1 ≡ some c
  unfolding receive
  receive_keeps k c h =
      elim (Result-cases (check_delivery w job_id printer_id bytes expected maximum)) [
        | inl (d, e) ↦ rw (e, receive) (enter_keeps w now d s k h)
        | inr (x, e) ↦ rw (e, receive) h
      ]

  -- Receiving a delivery keeps the store ordered by key, with identifiers that agree with the key, and
  -- in every request one document or a batch that is not empty and not both, a model, at least one
  -- copy, a density from 1 to 8, a payload limit that is not zero, and a rotation by a quarter turn.
  pub receive_invariant :
      Ordered s × Entries IsSound s
      → Ordered (receive w now job_id printer_id bytes expected maximum s).1
        × Entries IsSound (receive w now job_id printer_id bytes expected maximum s).1
  unfolding receive
  receive_invariant h =
      elim (Result-cases (check_delivery w job_id printer_id bytes expected maximum)) [
        | inl (d, e) ↦
            rw (e, receive)
              (enter_invariant w now d s (lookup d.id s)
                (check_delivery-valid w job_id printer_id bytes expected maximum e).0 h)
        | inr (x, e) ↦ rw (e, receive) h
      ]
