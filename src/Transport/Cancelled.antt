-- ===== src/Transport/Cancelled.antt =====
-- What a cancellation leaves of the operations on a transport (`Cancellable`, src/api/jobs.rs).

use mb_printer_cli.Common.{ℕ, ◌≡◌, refl, ◌∙◌, Bool, true, false, List, [], ◌∷◌, ◌++◌}
use mb_printer_cli.Common.Result.{Result, ok, err}
use mb_printer_cli.Transport.{Transport, cancellable}

-- An operation that an executor asks of a transport, or the cancellation by another thread.
pub data Operation : Type 0 where
  subscribes cancels : Operation
  writes : List ℕ → Operation
  delays waits : ℕ → Operation

abbrev pub failed {ℓ} : {E : Type ℓ} {A : Type 0} → Result E A → Bool
failed (ok a) = false
failed (err e) = true

-- The state after an operation on a transport with a flag, and whether it failed.
abbrev pub apply : {S : Type 0} → Transport (S × Bool) → Operation → S × Bool → Bool × (S × Bool)
apply t subscribes s = let (r, u) = t.subscribe_notifications s in (failed r, u)
apply t cancels s = (false, (s.0, true))
apply t (writes b) s = let (r, u) = t.write b s in (failed r, u)
apply t (delays n) s = (false, t.delay_monotonic n s)
apply t (waits n) s = let (r, u) = t.wait_response n s in (failed r, u)

abbrev pub run : {S : Type 0} → Transport (S × Bool) → List Operation → S × Bool → S × Bool
run t [] s = s
run t (o ∷ operations) s = run t operations (apply t o s).1

-- The delays alone, on the transport within.
abbrev pub only_delays : {S : Type 0} → Transport S → List Operation → S → S
only_delays inner [] s = s
only_delays inner (delays n ∷ operations) s =
    only_delays inner operations (inner.delay_monotonic n s)
only_delays inner (subscribes ∷ operations) s = only_delays inner operations s
only_delays inner (cancels ∷ operations) s = only_delays inner operations s
only_delays inner (writes b ∷ operations) s = only_delays inner operations s
only_delays inner (waits n ∷ operations) s = only_delays inner operations s

stopped :
    {S : Type 0} (inner : Transport S) (operations : List Operation) (s : S)
    → run (cancellable inner) operations (s, true) ≡ (only_delays inner operations s, true)
unfolding cancellable
stopped inner [] s = refl
stopped inner (subscribes ∷ operations) s = stopped inner operations s
stopped inner (cancels ∷ operations) s = stopped inner operations s
stopped inner (writes b ∷ operations) s = stopped inner operations s
stopped inner (delays n ∷ operations) s = stopped inner operations (inner.delay_monotonic n s)
stopped inner (waits n ∷ operations) s = stopped inner operations s

run-append :
    {S : Type 0} (t : Transport (S × Bool)) (before after : List Operation) (s : S × Bool)
    → run t (before ++ after) s ≡ run t after (run t before s)
run-append t [] after s = refl
run-append t (o ∷ before) after s = run-append t before after (apply t o s).1

-- Whatever an executor did before a cancellation and asks after it, the transport within ends in the
-- state in which the cancellation found it, but for the delays asked afterwards: nothing more is
-- subscribed, written or awaited, and the flag stays.
pub cancelled_stops :
    {S : Type 0} (inner : Transport S) (before after : List Operation) (s : S × Bool)
    → run (cancellable inner) (before ++ (cancels ∷ after)) s
      ≡ (only_delays inner after (run (cancellable inner) before s).0, true)
cancelled_stops inner before after s =
    run-append (cancellable inner) before (cancels ∷ after) s
    ∙ stopped inner after (run (cancellable inner) before s).0
