-- ===== src/Auth/Machine/SingleUse.antt =====
-- A local approval of a Wi-Fi change is spent at most once, whatever calls are made (src/auth.rs).
use mb_printer_cli.Common.{
  ℕ, ◌+◌, ◌≡◌, ◌≤◌, ◌⊎◌, Bool, true, false, not, ◌&&◌, ◌||◌, Option, none, some, List, [], ◌∷◌,
  arith, if◌then◌else◌, is_some,
}
use mb_printer_cli.Common.Text.{Text}
use mb_printer_cli.Common.Result.{Result, ok, err}
use mb_printer_cli.Auth.Types.{
  GrantScope, File, missing, unreadable, stored, AuthStore, Crates, World, WifiApproval, IoError,
}
use mb_printer_cli.Auth.Persistence.{reload, persist}
use mb_printer_cli.Auth.Pairing.{issue, begin_pairing_for, exchange_for, issue_admin}
use mb_printer_cli.Auth.Grants.{revoke, rotate}
use mb_printer_cli.Auth.Wifi.{
  new_approval, prepare_wifi_approval, approve_wifi_approval, consume_wifi_approval, unusable,
}
use mb_printer_cli.Auth.Machine.{
  Call, begins, exchanges, issues, prepares, approves, consumes, revokes, rotates, reloads, after,
}
use mb_printer_cli.Auth.Machine.Limits.{fresh}

abbrev file_approval : File → Option WifiApproval
file_approval missing = none
file_approval unreadable = none
file_approval (stored f) = f.wifi_approval

-- An approval that is not consumed, and one that is also approved.
abbrev unspent : Option WifiApproval → Bool
unspent none = false
unspent (some a) = not (is_some a.consumed_at)

abbrev confirmed : Option WifiApproval → Bool
confirmed none = false
confirmed (some a) = not (is_some a.consumed_at) && is_some a.approved_at

-- How many consumptions the store allows: one if memory or the file has an approval left.
abbrev left : (Option WifiApproval → Bool) → AuthStore → ℕ
left p s = if p s.wifi_approval || p (file_approval s.file) then 1 else 0

-- Where the approvals of the later store come from.
record Keeps (s s' : AuthStore) : Type 0 where
  in_memory : s'.wifi_approval ≡ s.wifi_approval
  on_file :
      (file_approval s'.file ≡ file_approval s.file) ⊎ (file_approval s'.file ≡ s.wifi_approval)

Keeps-left : (p : Option WifiApproval → Bool) (s s' : AuthStore) → Keeps s s' → left p s' ≤ left p s
Keeps-left p s s' k = ground arith

-- One for a consumption that reports success.
abbrev pub spent : Result IoError Bool → ℕ
spent (ok true) = 1
spent (ok false) = 0
spent (err e) = 0

module _ (c : Crates) (w : World) where
  begins-Keeps :
      (scope : GrantScope) (ttl : ℕ) (s : AuthStore) → Keeps s (begin_pairing_for c w scope ttl s).1
  unfolding begin_pairing_for persist
  begins-Keeps scope ttl s = ground arith

  issue-Keeps :
      (i n : ℕ) (origin : Text) (scope : GrantScope) (ttl : ℕ) (s : AuthStore)
      → Keeps s (issue c w i n origin scope ttl s).1
  unfolding issue persist
  issue-Keeps i n origin scope ttl s = ground arith

  issues-Keeps :
      (origin : Text) (ttl : ℕ) (s : AuthStore) → Keeps s (issue_admin c w origin ttl s).1
  unfolding issue_admin
  issues-Keeps origin ttl s = ground (arith, issue-Keeps 0 0 origin GrantScope.admin ttl s)

  exchanges-Keeps :
      (secret origin : Text) (ttl : ℕ) (scope : GrantScope) (s : AuthStore)
      → Keeps s (exchange_for c w secret origin ttl scope s).1
  unfolding exchange_for persist
  exchanges-Keeps secret origin ttl scope s =
      ground (
        arith,
        issue-Keeps 1 1 origin scope ttl (persist (w.disk 0) (record s { pairing = none })).1,
      )

  revokes-Keeps : (id : ℕ) (s : AuthStore) → Keeps s (revoke w id s).1
  unfolding revoke persist
  revokes-Keeps id s = ground arith

  rotates-Keeps : (id ttl : ℕ) (s : AuthStore) → Keeps s (rotate c w id ttl s).1
  unfolding rotate persist
  rotates-Keeps id ttl s = ground arith

  -- The other calls: a preparation puts one approval in place, an approval confirms it, a
  -- consumption that reports success leaves none.
  prepares-left :
      (p : Option WifiApproval → Bool) (grant : ℕ) (origin connection settings : Text)
      (s : AuthStore)
      → left p (prepare_wifi_approval c w grant origin connection settings s).1 ≤ 1
  prepares-left p grant origin connection settings s = ground arith

  prepares-confirmed :
      (grant : ℕ) (origin connection settings : Text) (s : AuthStore)
      → left confirmed (prepare_wifi_approval c w grant origin connection settings s).1
        ≤ left confirmed s
  unfolding prepare_wifi_approval new_approval persist
  prepares-confirmed grant origin connection settings s = ground arith

  approves-left :
      (id : ℕ) (s : AuthStore)
      → (left unspent (approve_wifi_approval w id s).1 ≤ left unspent s)
        × (left confirmed (approve_wifi_approval w id s).1 ≤ 1)
  unfolding approve_wifi_approval persist
  approves-left id s = ground arith

  consumes-left :
      (id grant : ℕ) (origin connection settings : Text) (s : AuthStore)
      → let r = consume_wifi_approval w id grant origin connection settings s in
        (left unspent r.1 + spent r.0 ≤ left unspent s)
        × (left confirmed r.1 + spent r.0 ≤ left confirmed s)
  unfolding consume_wifi_approval unusable persist
  consumes-left id grant origin connection settings s = ground arith

reloads-left : (p : Option WifiApproval → Bool) (s : AuthStore) → left p (reload s).1 ≤ left p s
unfolding reload
reloads-left p s = ground arith

abbrev spent_by : Crates → World → Call → AuthStore → ℕ
spent_by c w (consumes id grant origin connection settings) s =
    spent (consume_wifi_approval w id grant origin connection settings s).0
spent_by c w _ s = 0

abbrev prepared_by : Call → ℕ
prepared_by (prepares grant origin connection settings) = 1
prepared_by _ = 0

abbrev approved_by : Call → ℕ
approved_by (approves id) = 1
approved_by _ = 0

-- How many consumptions in a run report success, and how many preparations and approvals are called.
unfoldable pub consumptions : Crates → List (World × Call) → AuthStore → ℕ
consumptions c [] s = 0
consumptions c ((w, call) ∷ calls) s = spent_by c w call s + consumptions c calls (after c w call s)

unfoldable pub preparations : List (World × Call) → ℕ
preparations [] = 0
preparations ((w, call) ∷ calls) = prepared_by call + preparations calls

unfoldable pub approvals : List (World × Call) → ℕ
approvals [] = 0
approvals ((w, call) ∷ calls) = approved_by call + approvals calls

-- What one call does to the two counts of consumptions that are left.
abbrev Pays : Crates → World → Call → AuthStore → Type 0
Pays c w call s =
    (left unspent (after c w call s) + spent_by c w call s ≤ left unspent s + prepared_by call)
    × (left confirmed (after c w call s) + spent_by c w call s
        ≤ left confirmed s + approved_by call)

Keeps-Pays :
    (s s' : AuthStore)
    → Keeps s s'
    → (left unspent s' + 0 ≤ left unspent s + 0) × (left confirmed s' + 0 ≤ left confirmed s + 0)
Keeps-Pays s s' k = omega (arith, Keeps-left unspent s s' k, Keeps-left confirmed s s' k)

after-Pays : (c : Crates) (w : World) (call : Call) (s : AuthStore) → Pays c w call s
unfolding after
after-Pays c w (begins scope ttl) s = Keeps-Pays s _ (begins-Keeps c w scope ttl s)
after-Pays c w (exchanges secret origin ttl scope) s =
    Keeps-Pays s _ (exchanges-Keeps c w secret origin ttl scope s)
after-Pays c w (issues origin ttl) s = Keeps-Pays s _ (issues-Keeps c w origin ttl s)
after-Pays c w (prepares grant origin connection settings) s = omega (
  arith,
  prepares-left c w unspent grant origin connection settings s,
  prepares-confirmed c w grant origin connection settings s,
)
after-Pays c w (approves id) s =
    omega (arith, (approves-left c w id s).0, (approves-left c w id s).1)
after-Pays c w (consumes id grant origin connection settings) s = omega (
  arith,
  (consumes-left c w id grant origin connection settings s).0,
  (consumes-left c w id grant origin connection settings s).1,
)
after-Pays c w (revokes id) s = Keeps-Pays s _ (revokes-Keeps c w id s)
after-Pays c w (rotates id ttl) s = Keeps-Pays s _ (rotates-Keeps c w id ttl s)
after-Pays c w reloads s = omega (arith, reloads-left unspent s, reloads-left confirmed s)

run_pays :
    (c : Crates) (calls : List (World × Call)) (s : AuthStore)
    → (consumptions c calls s ≤ left unspent s + preparations calls)
      × (consumptions c calls s ≤ left confirmed s + approvals calls)
unfolding consumptions preparations approvals
run_pays c [] s = omega arith
run_pays c ((w, call) ∷ calls) s = omega (
  arith,
  (after-Pays c w call s).0,
  (after-Pays c w call s).1,
  (run_pays c calls (after c w call s)).0,
  (run_pays c calls (after c w call s)).1,
)

-- In any sequence of calls on a fresh store, failed writes and reloads from the file included, the
-- consumptions of a Wi-Fi approval that report success are at most as many as the preparations, and
-- at most as many as the local approvals: none is spent twice, and none without an approval.
pub approvals_spent_once :
    (c : Crates) (calls : List (World × Call))
    → (consumptions c calls fresh ≤ preparations calls)
      × (consumptions c calls fresh ≤ approvals calls)
approvals_spent_once c calls = omega (arith, (run_pays c calls fresh).0, (run_pays c calls fresh).1)
