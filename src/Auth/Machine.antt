-- ===== src/Auth/Machine.antt =====
-- Sequences of calls on one store of src/auth.rs, each in a world of its own.
pub mod Held
pub mod CallsHold
pub mod Limits
pub mod SingleUse
pub mod Revoked
use mb_printer_cli.Common.{ℕ, ◌+◌, zero, suc, Bool, true, false, Option, none, some, List, [], ◌∷◌}
use mb_printer_cli.Common.Text.{Text}
use mb_printer_cli.Common.Result.{Result, ok, err}
use mb_printer_cli.Auth.Types.{GrantScope, WifiApproval, AuthStore, IoError, Crates, World}
use mb_printer_cli.Auth.Persistence.{reload}
use mb_printer_cli.Auth.Pairing.{begin_pairing_for, exchange_for, issue_admin}
use mb_printer_cli.Auth.Grants.{revoke, rotate}
use mb_printer_cli.Auth.Wifi.{prepare_wifi_approval, approve_wifi_approval, consume_wifi_approval}

pub data Call : Type 0 where
  begins : GrantScope → ℕ → Call
  exchanges : Text → Text → ℕ → GrantScope → Call
  issues : Text → ℕ → Call
  prepares : ℕ → Text → Text → Text → Call
  approves : ℕ → Call
  consumes : ℕ → ℕ → Text → Text → Text → Call
  revokes : ℕ → Call
  rotates : ℕ → ℕ → Call
  reloads : Call

-- The store after a call, whatever it returned.
unfoldable pub after : Crates → World → Call → AuthStore → AuthStore
after c w (begins scope ttl) s = (begin_pairing_for c w scope ttl s).1
after c w (exchanges secret origin ttl scope) s = (exchange_for c w secret origin ttl scope s).1
after c w (issues origin ttl) s = (issue_admin c w origin ttl s).1
after c w (prepares grant origin connection settings) s =
    (prepare_wifi_approval c w grant origin connection settings s).1
after c w (approves id) s = (approve_wifi_approval w id s).1
after c w (consumes id grant origin connection settings) s =
    (consume_wifi_approval w id grant origin connection settings s).1
after c w (revokes id) s = (revoke w id s).1
after c w (rotates id ttl) s = (rotate c w id ttl s).1
after c w reloads s = (reload s).1

unfoldable pub run : Crates → List (World × Call) → AuthStore → AuthStore
run c [] s = s
run c ((w, call) ∷ calls) s = run c calls (after c w call s)
