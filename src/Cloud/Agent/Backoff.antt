-- ===== src/Cloud/Agent/Backoff.antt =====
-- The delay between two sessions in `run` of src/cloud/agent.rs, in seconds and without the jitter.
use Prim.Native.Nat.{min}
use mb_printer_cli.Common.{
  ℕ, zero, suc, ◌*◌, ◌^◌, ◌≡◌, ◌≤◌, refl, Bool, true, false, List, [], ◌∷◌, arith, replicate,
}

-- The delay after a session that ended well, or with an error.
unfoldable pub next_delay : Bool → ℕ → ℕ
next_delay true delay = 1
next_delay false delay = min (delay * 2) 30

-- The delay after the sessions, the first one first; `run` starts from 1.
unfoldable pub delay_after : ℕ → List Bool → ℕ
unfolding next_delay
delay_after delay [] = delay
delay_after delay (session ∷ sessions) = delay_after (next_delay session delay) sessions

delay_after_bounded :
    (delay : ℕ) (sessions : List Bool)
    → 1 ≤ delay
    → delay ≤ 30
    → (1 ≤ delay_after delay sessions) × (delay_after delay sessions ≤ 30)
unfolding delay_after
delay_after_bounded delay [] a b = (a, b)
delay_after_bounded delay (true ∷ sessions) a b =
    delay_after_bounded 1 sessions (omega arith) (omega arith)
delay_after_bounded delay (false ∷ sessions) a b =
    delay_after_bounded (min (delay * 2) 30) sessions (omega arith) (omega arith)

delay_after-suc :
    (delay failures : ℕ)
    → delay_after delay (replicate (suc failures) false)
      ≡ min (delay_after delay (replicate failures false) * 2) 30
unfolding delay_after
delay_after-suc delay zero = refl
delay_after-suc delay (suc failures) = delay_after-suc (min (delay * 2) 30) failures

delay_after_doubles :
    (failures : ℕ) → delay_after 1 (replicate failures false) ≡ min (2 ^ failures) 30
unfolding delay_after
delay_after_doubles zero = refl
delay_after_doubles (suc failures) =
    omega (arith, delay_after-suc 1 failures, delay_after_doubles failures)

-- After any sessions the delay is between 1 and 30 seconds, a session that ended well brings it back
-- to 1, and from there each failure in a row doubles it, up to 30.
pub delay_after-backoff :
    (sessions : List Bool) (failures : ℕ)
    → ((1 ≤ delay_after 1 sessions) × (delay_after 1 sessions ≤ 30))
      × (delay_after 1 (true ∷ replicate failures false) ≡ min (2 ^ failures) 30)
unfolding delay_after
delay_after-backoff sessions failures =
    (delay_after_bounded 1 sessions (omega arith) (omega arith), delay_after_doubles failures)
