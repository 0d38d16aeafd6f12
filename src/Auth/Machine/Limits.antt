-- ===== src/Auth/Machine/Limits.antt =====
-- No grant outlives the longest life of its scope, whatever calls are made (src/auth.rs).
use mb_printer_cli.Common.{ℕ, ◌+◌, ◌≡◌, ◌≤◌, none, some, List, [], ◌∷◌, arith}
use mb_printer_cli.Common.Map.{lookup, lookup-Entries}
use mb_printer_cli.Common.Values.{lookup-Keyed}
use mb_printer_cli.Common.Text.{Text}
use mb_printer_cli.Auth.Types.{GrantScope, print, admin, Grant, missing, AuthStore, Crates, World}
use mb_printer_cli.Auth.Persistence.{grant_id}
use mb_printer_cli.Auth.Pairing.OneTime.{max_ttl}
use mb_printer_cli.Auth.Machine.{Call, run, after}
use mb_printer_cli.Auth.Machine.Held.{Holds}
use mb_printer_cli.Auth.Machine.CallsHold.{after-Holds}
use mb_printer_cli.Auth.Pairing.{new_grant}
use mb_printer_cli.Auth.Pairing.OneTime.{grant_ttl-le-max_ttl}
use mb_printer_cli.Auth.Grants.{rotated}

-- At time `t` or before, the grant was given at most the longest life of its scope.
abbrev pub IsLimited : ℕ → Grant → Type 0
IsLimited t g = g.expires_at ≤ t + max_ttl g.scope

new_grant-IsLimited :
    (c : Crates) (w : World) (t : ℕ)
    → ((i : ℕ) → w.clock i ≤ t)
    → (i : ℕ) (origin : Text) (scope : GrantScope) (ttl : ℕ)
    → IsLimited t (new_grant c w i origin scope ttl)
unfolding new_grant
new_grant-IsLimited c w t early i origin scope ttl =
    ground (arith, early i, grant_ttl-le-max_ttl scope ttl)

rotated-IsLimited :
    (c : Crates) (w : World) (t : ℕ)
    → ((i : ℕ) → w.clock i ≤ t)
    → (ttl : ℕ) (g : Grant) → IsLimited t (rotated c w ttl g)
unfolding rotated
rotated-IsLimited c w t early ttl g = ground (arith, early 1, grant_ttl-le-max_ttl g.scope ttl)

-- Every reading of the clock in the calls is at most `t`.
abbrev pub Before : ℕ → List (World × Call) → Type 0
Before t [] = Unit
Before t ((w, call) ∷ calls) = ((i : ℕ) → w.clock i ≤ t) × Before t calls

run-Holds :
    (c : Crates) (t : ℕ) (calls : List (World × Call)) (s : AuthStore)
    → Before t calls
    → Holds (IsLimited t) s
    → Holds (IsLimited t) (run c calls s)
unfolding run
run-Holds c t [] s b h = h
run-Holds c t ((w, call) ∷ calls) s b h = run-Holds c t calls (after c w call s) b.1 (
    after-Holds c w (IsLimited t) (new_grant-IsLimited c w t b.0) (λ g l. l) call s
      (λ id ttl e g f. rotated-IsLimited c w t b.0 ttl g) h)

-- The store that starts from no file.
abbrev pub fresh : AuthStore
fresh = record { grants = []; pairing = none; wifi_approval = none; file = missing }

limit_of :
    (g : Grant) (t : ℕ)
    → IsLimited t g
    → (g.scope ≡ print → g.expires_at ≤ t + 31536000) × (g.scope ≡ admin → g.expires_at ≤ t + 600)
unfolding max_ttl
limit_of g t l = (λ e. ground arith, λ e. ground arith)

-- After any calls on a fresh store, failed writes and reloads included, each grant stands under its
-- own identifier, and if no reading of the clock was later than `t`, a print grant ends at most
-- 31536000 seconds after `t` and an administrator grant at most 600 seconds after `t`.
pub run_limited :
    (c : Crates) (t : ℕ) (calls : List (World × Call)) (k : ℕ) (g : Grant)
    → Before t calls
    → lookup k (run c calls fresh).grants ≡ some g
    → (g.id ≡ k)
      × (g.scope ≡ print → g.expires_at ≤ t + 31536000)
      × (g.scope ≡ admin → g.expires_at ≤ t + 600)
run_limited c t calls k g b e =
    let h =
      run-Holds c t calls fresh b
        (record { keyed = tt; unique = tt; limited = tt; on_file = tt }) in
    let (p, q) =
      limit_of g t
        (lookup-Entries (λ i x. IsLimited t x) k (run c calls fresh).grants h.limited e) in
    (lookup-Keyed grant_id k (run c calls fresh).grants g h.keyed e, p, q)
