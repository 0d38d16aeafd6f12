-- ===== src/Api/Wireless/Approved.antt =====
-- When the handlers of src/api.rs change the wireless settings of a printer.

use mb_printer_cli.Common.{
  ℕ, ◌≡◌, ◌≤◌, refl, sym, ap, subst, ◌∙◌, inl, inr, arith, Bool, true, false, Option, none, some,
  is_some, Bool-cases, Option-cases,
}
use mb_printer_cli.Common.Text.{Text, text_eq→eq}
use mb_printer_cli.Common.Result.{Result, ok, err, Result-cases}
use mb_printer_cli.Auth.Types.{AuthStore, WifiApproval, IoError, Crates, World}
use mb_printer_cli.Auth.Persistence.{reload, persist}
use mb_printer_cli.Auth.Wifi.{consume_wifi_approval, unusable}
use mb_printer_cli.Auth.Grants.{grant_allows_admin}
use mb_printer_cli.Api.Guards.{Headers, origin, authorize_admin}
use mb_printer_cli.Api.Wireless.{
  WirelessSettings, UsbConnection, Printer, wireless_settings_fingerprint,
  require_brother_wifi_configuration, wireless, brother_usb_connection, validate, Reviewed, review,
  consumed, configure_reloaded, brother_wireless_configure,
}

-- The checks at the head of the handlers passed.
record IsReviewed (c : Crates) (connections : Text → Option UsbConnection) (enabled : Bool)
    (now : ℕ) (h : Headers) (connection : Text) (settings : WirelessSettings) (s : AuthStore)
    (r : Reviewed) : Type 0 where
  administrator : authorize_admin c now h s ≡ ok r.grant_id
  opted_in : enabled ≡ true
  same_origin : origin h ≡ ok r.request_origin
  usb_device : brother_usb_connection connections connection wireless ≡ ok r.selector
  same_settings : r.settings ≡ settings

review-IsReviewed :
    (c : Crates) (p : Printer) (connections : Text → Option UsbConnection) (enabled : Bool)
    (now : ℕ) (h : Headers) (connection : Text) (settings : WirelessSettings) (s : AuthStore)
    (r : Reviewed)
    → review c p connections enabled now h connection settings s ≡ ok r
    → IsReviewed c connections enabled now h connection settings s r
unfolding review require_brother_wifi_configuration validate
review-IsReviewed c p connections enabled now h connection settings s r e =
    elim (Result-cases (authorize_admin c now h s)) [
      | inr (x, a) ↦ absurd (ground arith)
      | inl (grant, a) ↦ elim (Bool-cases enabled) [
        | inr b ↦ absurd (ground arith)
        | inl b ↦ elim (Result-cases (origin h)) [
          | inr (x, d) ↦ absurd (ground arith)
          | inl (o, d) ↦
              elim (Result-cases (brother_usb_connection connections connection wireless)) [
                | inr (x, f) ↦ absurd (ground arith)
                | inl (selector, f) ↦ elim (Bool-cases (p.has_command settings)) [
                  | inr g ↦ absurd (ground arith)
                  | inl g ↦ record {
                    administrator = ground arith;
                    opted_in = b;
                    same_origin = ground arith;
                    usb_device = ground arith;
                    same_settings = ground arith;
                  }
                ]
              ]
        ]
      ]
    ]

-- The approval that the store holds is one of exactly this change, approved, current and unused.
pub record IsUsable (w : World) (id grant_id : ℕ) (o connection fingerprint : Text)
    (a : WifiApproval) : Type 0 where
  pub same_id : a.id ≡ id
  pub same_grant : a.grant_id ≡ grant_id
  pub of_origin : a.origin ≡ o
  pub of_connection : a.connection_id ≡ connection
  pub of_settings : a.settings_fingerprint ≡ fingerprint
  pub is_approved : is_some a.approved_at ≡ true
  pub is_unused : a.consumed_at ≡ none
  pub is_current : w.clock 1 ≤ a.expires_at

unusable-IsUsable :
    (w : World) (id grant_id : ℕ) (o connection fingerprint : Text) (a : WifiApproval)
    → unusable (w.clock 1) id grant_id o connection fingerprint a ≡ false
    → IsUsable w id grant_id o connection fingerprint a
unfolding unusable
unusable-IsUsable w id grant_id o connection fingerprint a h = record {
  same_id = ground arith;
  same_grant = ground arith;
  of_origin = text_eq→eq a.origin o (ground arith);
  of_connection = text_eq→eq a.connection_id connection (ground arith);
  of_settings = text_eq→eq a.settings_fingerprint fingerprint (ground arith);
  is_approved = ground arith;
  is_unused = ground arith;
  is_current = ground arith;
}

-- A consumption that succeeds found a usable approval, and marks it in memory.
consume-IsUsable :
    (w : World) (id grant_id : ℕ) (o connection fingerprint : Text) (s : AuthStore)
    → (consume_wifi_approval w id grant_id o connection fingerprint s).0 ≡ ok true
    → (a : WifiApproval) × (s.wifi_approval ≡ some a)
      × IsUsable w id grant_id o connection fingerprint a
      × ((consume_wifi_approval w id grant_id o connection fingerprint s).1.wifi_approval
          ≡ some (record a { consumed_at = some (w.clock 2) }))
unfolding consume_wifi_approval persist
consume-IsUsable w id grant_id o connection fingerprint s h =
    elim (Bool-cases (grant_allows_admin (w.clock 0) grant_id o s)) [
      | inr f ↦ absurd (ground arith)
      | inl t ↦ elim (Option-cases s.wifi_approval) [
        | inl e ↦ absurd (ground arith)
        | inr (a, e) ↦
            elim (Bool-cases (unusable (w.clock 1) id grant_id o connection fingerprint a)) [
              | inl u ↦ absurd (ground arith)
              | inr u ↦
                  (a, e, unusable-IsUsable w id grant_id o connection fingerprint a u, ground arith)
            ]
      ]
    ]

-- What has happened where a command was sent to a device.
pub record IsAuthorized (c : Crates) (w : World) (connections : Text → Option UsbConnection)
    (enabled : Bool) (now : ℕ) (h : Headers) (connection : Text) (approval_id : ℕ)
    (settings : WirelessSettings) (s : AuthStore) (selector : Text) (sent : WirelessSettings)
    (after : AuthStore) : Type 0 where
  pub grant_id : ℕ
  pub request_origin : Text
  pub approval : WifiApproval
  pub administrator : authorize_admin c now h s ≡ ok grant_id
  pub opted_in : enabled ≡ true
  pub same_origin : origin h ≡ ok request_origin
  pub usb_device : brother_usb_connection connections connection wireless ≡ ok selector
  pub exact : sent ≡ settings
  pub reloaded : (reload s).0 ≡ ok tt
  pub on_file : (reload s).1.wifi_approval ≡ some approval
  pub usable :
      IsUsable w approval_id grant_id request_origin connection
        (wireless_settings_fingerprint c settings)
        approval
  pub spent : after.wifi_approval ≡ some (record approval { consumed_at = some (w.clock 2) })

sent_consumed :
    (p : Printer) (r : Reviewed) (x : Result IoError Bool × AuthStore) (selector : Text)
    (sent : WirelessSettings)
    → (consumed p r x).sent ≡ some (selector, sent)
    → (x.0 ≡ ok true)
      × (r.selector ≡ selector)
      × (r.settings ≡ sent)
      × ((consumed p r x).store ≡ x.1)
sent_consumed p r (err e, s) selector sent h = absurd (ground arith)
sent_consumed p r (ok false, s) selector sent h = absurd (ground arith)
sent_consumed p r (ok true, s) selector sent h = (refl, ground arith, ground arith, refl)

sent_reviewed :
    (c : Crates) (w : World) (p : Printer) (connections : Text → Option UsbConnection)
    (enabled : Bool) (now : ℕ) (h : Headers) (connection : Text) (approval_id : ℕ)
    (settings : WirelessSettings) (s : AuthStore) (r : Reviewed)
    (x : Result IoError (Unit {0}) × AuthStore) (selector : Text) (sent : WirelessSettings)
    → reload s ≡ x
    → IsReviewed c connections enabled now h connection settings s r
    → (configure_reloaded c w p approval_id connection r x).sent ≡ some (selector, sent)
    → IsAuthorized c w connections enabled now h connection approval_id settings s selector sent
        (configure_reloaded c w p approval_id connection r x).store
sent_reviewed c w p connections enabled now h connection approval_id settings s r (err e, t)
      selector sent q v g =
    absurd (ground arith)
sent_reviewed c w p connections enabled now h connection approval_id settings s r (ok u, t) selector
      sent q v g =
    let x =
      consume_wifi_approval w approval_id r.grant_id r.request_origin connection
        (wireless_settings_fingerprint c r.settings) t in
    let (done, device, same, kept) = sent_consumed p r x selector sent g in
    let (a, found, usable, spent) =
      consume-IsUsable w approval_id r.grant_id r.request_origin connection
        (wireless_settings_fingerprint c r.settings) t done in
    record {
      grant_id = r.grant_id;
      request_origin = r.request_origin;
      approval = a;
      administrator = v.administrator;
      opted_in = v.opted_in;
      same_origin = v.same_origin;
      usb_device = v.usb_device ∙ ap ok device;
      exact = sym same ∙ v.same_settings;
      reloaded = ap (λ y. y.0) q;
      on_file = ap (λ y. y.1.wifi_approval) q ∙ found;
      usable =
          subst
            (λ z.
              IsUsable w approval_id r.grant_id r.request_origin connection
                (wireless_settings_fingerprint c z) a)
            v.same_settings usable;
      spent = ap (λ y. y.wifi_approval) kept ∙ spent;
    }

-- A command for wireless settings goes to a device only for a request with a live administrator
-- grant, where the service opted in, over a USB connection of a model that supports it; it carries
-- exactly the settings of the request; and the file held, when the request came, an approval of this
-- grant, origin, connection and fingerprint of these settings that was approved locally, is not
-- expired and was not used, and that is marked as used from then on.
pub configure-IsAuthorized :
    (c : Crates) (w : World) (p : Printer) (connections : Text → Option UsbConnection)
    (enabled : Bool) (now : ℕ) (h : Headers) (connection : Text) (approval_id : ℕ)
    (settings : WirelessSettings) (s : AuthStore) (selector : Text) (sent : WirelessSettings)
    → let r =
        brother_wireless_configure c w p connections enabled now h connection approval_id settings
          s in
      r.sent ≡ some (selector, sent)
      → IsAuthorized c w connections enabled now h connection approval_id settings s selector sent
          (brother_wireless_configure c w p connections enabled now h connection approval_id
            settings s).store
unfolding brother_wireless_configure
configure-IsAuthorized c w p connections enabled now h connection approval_id settings s selector
      sent g =
    elim (Result-cases (review c p connections enabled now h connection settings s)) [
      | inr (e, f) ↦ absurd (ground arith)
      | inl (r, f) ↦ rw f (
          sent_reviewed c w p connections enabled now h connection approval_id settings s r
            (reload s) selector sent refl
            (review-IsReviewed c p connections enabled now h connection settings s r f)
            (ground arith))
    ]
