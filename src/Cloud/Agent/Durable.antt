-- ===== src/Cloud/Agent/Durable.antt =====
-- What `receive_job` of src/cloud/agent.rs keeps: nothing is acknowledged before it is stored, and a
-- job that has ended is not executed again.
use mb_printer_cli.Common.{
  ℕ, ◌≡◌, ◌≢◌, refl, sym, subst, Bool, true, false, ◌&&◌, Option, none, some, List, ◌∷◌, arith,
  ==_refl, is_some, find?, Option-cases, Bool-cases, ◌⊎◌, inl, inr,
}
use mb_printer_cli.Common.Text.{Text, text_eq}
use mb_printer_cli.Common.Map.{lookup, lookup-insert, lookup-insert_ordered}
use mb_printer_cli.Common.Result.{Result, ok, err, Result-cases}
use mb_printer_cli.Job.{Job, terminal}
use mb_printer_cli.Cloud.Request.{CloudPrintRequest, Wire}
use mb_printer_cli.Cloud.Store.{
  CloudJob, CloudJobStore, ReceiveError, ReceiveOutcome, existing_job, delivered, receive,
  check_delivery, enter, get, create,
}
use mb_printer_cli.Cloud.Store.Redelivery.{check_delivery-valid}
use mb_printer_cli.Cloud.Agent.Status.{status}
use mb_printer_cli.Cloud.Agent.Receive.{
  job_received, CloudPrinter, Agent, PrintJob, job_result, send_message, saved, set_job,
  mark_failed, refuse_job, hand_over, existing_terminal, answer, after_receive, receive_job,
}

receive_holds :
    (w : Wire) (now : ℕ) (job_id printer_id : Text) (bytes : List ℕ) (expected : Text) (maximum : ℕ)
    (s : CloudJobStore) (o : ReceiveOutcome) (id : ℕ)
    → w.parse_uuid job_id ≡ some id
    → (receive w now job_id printer_id bytes expected maximum s).0 ≡ ok o
    → is_some (lookup id (receive w now job_id printer_id bytes expected maximum s).1) ≡ true
unfolding receive check_delivery enter
receive_holds w now job_id printer_id bytes expected maximum s o id p e =
    elim (Result-cases (check_delivery w job_id printer_id bytes expected maximum)) [
      | inr (x, f) ↦ absurd (ground arith)
      | inl (d, f) ↦
          let same : d.id ≡ id = ground arith in
          elim (Option-cases (lookup d.id s)) [
            | inl g ↦
                ground
                  (arith, f, g, lookup-insert_ordered d.id d.id (create w now d) s, ==_refl d.id)
            | inr (c, g) ↦ ground (arith, f, g)
          ]
    ]

hand_over_holds :
    (disk : Bool) (id : ℕ) (a : Agent) (r : Result Text Job)
    → is_some (lookup id a.file) ≡ true
    → is_some (lookup id a.store) ≡ true
    → is_some (lookup id (hand_over disk id a r).file) ≡ true
unfolding hand_over refuse_job get
hand_over_holds disk id a (err error) h k = elim (Option-cases (lookup id a.store)) [
  | inl e ↦ ground (arith, e, h)
  | inr (c, e) ↦
      ground (arith, e, h, lookup-insert id id (set_job (mark_failed error) c) a.store, ==_refl id)
]
hand_over_holds disk id a (ok job) h k = elim (Option-cases (lookup id a.store)) [
  | inl e ↦ absurd (ground arith)
  | inr (c, e) ↦
      ground (arith, e, h, lookup-insert id id (set_job (λ j. job) c) a.store, ==_refl id)
]

answer_holds :
    (disk : Bool) (id : ℕ) (submit : Text → CloudPrintRequest → Result Text Job) (connection : Text)
    (c : CloudJob) (a : Agent) (ended : Option Job)
    → is_some (lookup id a.file) ≡ true
    → is_some (lookup id a.store) ≡ true
    → is_some (lookup id (answer disk id submit connection c a ended).file) ≡ true
answer_holds disk id submit connection c a (some j) h k = h
answer_holds disk id submit connection c a none h k =
    hand_over_holds disk id a (submit connection c.request) h k

after_receive_holds :
    (first second : Bool) (id : ℕ) (submit : Text → CloudPrintRequest → Result Text Job)
    (connection : Text) (m : PrintJob) (a : Agent) (r : Result ReceiveError ReceiveOutcome)
    → ((o : ReceiveOutcome) → r ≡ ok o → is_some (lookup id a.store) ≡ true)
    → (after_receive first second id submit connection m a r).sent ≢ a.sent
    → is_some (lookup id (after_receive first second id submit connection m a r).file) ≡ true
unfolding after_receive
after_receive_holds true second id submit connection m a (ok o) h n =
    answer_holds second id submit connection (delivered o)
      (send_message (job_received m.job_id m.sha256) (saved true a)) (existing_terminal o)
      (h o refl) (h o refl)
after_receive_holds false second id submit connection m a (ok o) h n = absurd (n refl)
after_receive_holds first second id submit connection m a (err e) h n = absurd (n refl)

receive_job_known :
    (w : Wire) (now : ℕ) (first second : Bool) (maximum : ℕ)
    (submit : Text → CloudPrintRequest → Result Text Job) (printers : List CloudPrinter)
    (m : PrintJob) (a : Agent) (id : ℕ) (p : CloudPrinter)
    → w.parse_uuid m.job_id ≡ some id
    → find? (λ p. p.enabled && text_eq p.id_text m.printer_id) printers ≡ some p
    → receive_job w now first second maximum submit printers m a ≡ (
        let r = receive w now m.job_id m.printer_id m.request_json m.sha256 maximum a.store in
        after_receive first second id submit p.connection_id m (record a { store = r.1 }) r.0)
unfolding receive_job
receive_job_known w now first second maximum submit printers m a id p e f = rw (e, f) refl

-- Whatever is sent in answer to a delivery, the acknowledgement included, is sent only for a job that
-- the file then holds.
pub receive_job_durable :
    (w : Wire) (now : ℕ) (first second : Bool) (maximum : ℕ)
    (submit : Text → CloudPrintRequest → Result Text Job) (printers : List CloudPrinter)
    (m : PrintJob) (a : Agent)
    → (receive_job w now first second maximum submit printers m a).sent ≢ a.sent
    → (id : ℕ) × (w.parse_uuid m.job_id ≡ some id)
      × (is_some (lookup id (receive_job w now first second maximum submit printers m a).file)
          ≡ true)
unfolding receive_job
receive_job_durable w now first second maximum submit printers m a n =
    elim (Option-cases (w.parse_uuid m.job_id)) [
      | inl e ↦ absurd (n (rw e refl))
      | inr (id, e) ↦
          elim (Option-cases (find? (λ p. p.enabled && text_eq p.id_text m.printer_id) printers)) [
            | inl f ↦ absurd (n (rw (e, f) refl))
            | inr (p, f) ↦
                let known =
                  receive_job_known w now first second maximum submit printers m a id p e f in
                let r =
                  receive w now m.job_id m.printer_id m.request_json m.sha256 maximum a.store in
                (
                  id,
                  e,
                  subst (λ t. is_some (lookup id t.file) ≡ true) (sym known)
                      (after_receive_holds first second id submit p.connection_id m
                        (record a { store = r.1 }) r.0
                        (λ o.
                          receive_holds w now m.job_id m.printer_id m.request_json m.sha256 maximum
                            a.store o id e)
                        (λ q. n (subst (λ t. t.sent ≡ a.sent) (sym known) q))),
                )
          ]
    ]

receive_identified :
    (w : Wire) (now : ℕ) (job_id printer_id : Text) (bytes : List ℕ) (expected : Text) (maximum : ℕ)
    (s : CloudJobStore) (o : ReceiveOutcome)
    → (receive w now job_id printer_id bytes expected maximum s).0 ≡ ok o
    → (id : ℕ) × (w.parse_uuid job_id ≡ some id)
unfolding receive
receive_identified w now job_id printer_id bytes expected maximum s o e =
    elim (Result-cases (check_delivery w job_id printer_id bytes expected maximum)) [
      | inr (x, f) ↦ absurd (ground arith)
      | inl (d, f) ↦
          let (valid, same, digest, fits, parsed, printer) =
            check_delivery-valid w job_id printer_id bytes expected maximum f in
          (d.id, parsed)
    ]

-- A job that ended before is answered from the store. Where the printer is known and the file is
-- written, the acknowledgement and then the result of the stored job are sent, and nothing else;
-- otherwise nothing is sent. The local API is not asked: whatever it would answer, the agent is the
-- same, and no task is started for the job.
pub receive_job_ended :
    (w : Wire) (now : ℕ) (first second : Bool) (maximum : ℕ)
    (submit submit' : Text → CloudPrintRequest → Result Text Job) (printers : List CloudPrinter)
    (m : PrintJob) (a : Agent) (c : CloudJob)
    → (receive w now m.job_id m.printer_id m.request_json m.sha256 maximum a.store).0
      ≡ ok (existing_job c)
    → terminal c.local_job ≡ true
    → let b = receive_job w now first second maximum submit printers m a in
      let known = find? (λ p. p.enabled && text_eq p.id_text m.printer_id) printers in
      (b ≡ receive_job w now first second maximum submit' printers m a)
      × (b.reporting ≡ a.reporting)
      × (((first ≡ true)
            × ((p : CloudPrinter) × (known ≡ some p))
            × (b.sent ≡ job_result (status c.local_job) ∷ job_received m.job_id m.sha256 ∷ a.sent))
          ⊎ (((first ≡ false) ⊎ (known ≡ none)) × (b.sent ≡ a.sent)))
unfolding receive_job
receive_job_ended w now first second maximum submit submit' printers m a c e t =
    let (id, q) =
      receive_identified w now m.job_id m.printer_id m.request_json m.sha256 maximum a.store
        (existing_job c) e in
    elim (Option-cases (find? (λ p. p.enabled && text_eq p.id_text m.printer_id) printers)) [
      | inl f ↦ rw (q, f) (refl, refl, inr (inr refl, refl))
      | inr (p, f) ↦ elim (Bool-cases first) [
        | inl g ↦ rw (q, f, e, t, g) (refl, refl, inl (refl, (p, refl), refl))
        | inr g ↦ rw (q, f, e, g) (refl, refl, inr (inl refl, refl))
      ]
    ]
