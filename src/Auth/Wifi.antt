-- ===== src/Auth/Wifi.antt =====
-- Local approvals of Wi-Fi changes (src/auth.rs).
use mb_printer_cli.Common.{
  ℕ, Bool, true, false, not, ◌&&◌, ◌||◌, Option, none, some, if◌then◌else◌, ltb, leb, ◌==◌, is_some,
  saturating_add,
}
use mb_printer_cli.Common.Text.{Text, text_eq}
use mb_printer_cli.Common.Result.{Result, ok}
use mb_printer_cli.Auth.Types.{WifiApproval, AuthStore, IoError, Crates, World, wifi_approval_ttl}
use mb_printer_cli.Auth.Origin.{valid_origin, valid_approval_binding}
use mb_printer_cli.Auth.Persistence.{persist}
use mb_printer_cli.Auth.Pairing.{and_return}
use mb_printer_cli.Auth.Grants.{grant_allows_admin}

-- The approval that `prepare_wifi_approval` writes; the first reading of the clock is that of
-- `grant_allows_admin`.
unfoldable pub new_approval : World → ℕ → Text → Text → Text → WifiApproval
new_approval w grant_id origin connection_id settings_fingerprint = record {
  id = w.random_id;
  grant_id = grant_id;
  origin = origin;
  connection_id = connection_id;
  settings_fingerprint = settings_fingerprint;
  created_at = w.clock 1;
  expires_at = saturating_add (w.clock 1) wifi_approval_ttl;
  approved_at = none;
  consumed_at = none;
}

unfoldable pub prepare_wifi_approval :
    Crates
    → World
    → ℕ
    → Text
    → Text
    → Text
    → AuthStore
    → Result IoError (Option WifiApproval) × AuthStore
prepare_wifi_approval c w grant_id origin connection_id settings_fingerprint s =
    if not (valid_origin c origin)
      || not (valid_approval_binding connection_id)
      || not (valid_approval_binding settings_fingerprint)
      || not (grant_allows_admin (w.clock 0) grant_id origin s)
    then (ok none, s)
    else let approval = new_approval w grant_id origin connection_id settings_fingerprint in
      and_return (some approval) (persist (w.disk 0) (record s { wifi_approval = some approval }))

abbrev pending_with : ℕ → ℕ → Option WifiApproval → Option WifiApproval
pending_with now id none = none
pending_with now id (some a) = if a.id == id && leb now a.expires_at then some a else none

-- `AuthStore::wifi_approval`
unfoldable pub pending_approval : ℕ → ℕ → AuthStore → Option WifiApproval
pending_approval now id s = pending_with now id s.wifi_approval

abbrev pub approve_pending :
    World → ℕ → AuthStore → Option WifiApproval → Result IoError Bool × AuthStore
approve_pending w id s none = (ok false, s)
approve_pending w id s (some a) =
    if not (a.id == id) || ltb a.expires_at (w.clock 0) || is_some a.consumed_at
    then (ok false, s)
    else and_return true (
        persist (w.disk 0)
          (record s { wifi_approval = some (record a { approved_at = some (w.clock 1) }) }))

unfoldable pub approve_wifi_approval : World → ℕ → AuthStore → Result IoError Bool × AuthStore
approve_wifi_approval w id s = approve_pending w id s s.wifi_approval

-- The condition under which `consume_wifi_approval` refuses an approval.
unfoldable pub unusable : ℕ → ℕ → ℕ → Text → Text → Text → WifiApproval → Bool
unusable now id grant_id origin connection_id settings_fingerprint a =
    not (a.id == id)
    || not (a.grant_id == grant_id)
    || not (text_eq a.origin origin)
    || not (text_eq a.connection_id connection_id)
    || not (text_eq a.settings_fingerprint settings_fingerprint)
    || ltb a.expires_at now
    || not (is_some a.approved_at)
    || is_some a.consumed_at

abbrev pub consume_pending :
    World
    → ℕ
    → ℕ
    → Text
    → Text
    → Text
    → AuthStore
    → Option WifiApproval
    → Result IoError Bool × AuthStore
consume_pending w id grant_id origin connection_id settings_fingerprint s none = (ok false, s)
consume_pending w id grant_id origin connection_id settings_fingerprint s (some a) =
    if unusable (w.clock 1) id grant_id origin connection_id settings_fingerprint a
    then (ok false, s)
    else and_return true (
        persist (w.disk 0)
          (record s { wifi_approval = some (record a { consumed_at = some (w.clock 2) }) }))

unfoldable pub consume_wifi_approval :
    World → ℕ → ℕ → Text → Text → Text → AuthStore → Result IoError Bool × AuthStore
consume_wifi_approval w id grant_id origin connection_id settings_fingerprint s =
    if not (grant_allows_admin (w.clock 0) grant_id origin s)
    then (ok false, s)
    else consume_pending w id grant_id origin connection_id settings_fingerprint s s.wifi_approval
