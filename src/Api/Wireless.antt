-- ===== src/Api/Wireless.antt =====
-- The change of a printer's wireless settings over the local API (src/api.rs): its preparation, and its
-- execution after a local approval. The build has USB.
pub mod Approved
pub mod Binding
use Prim.Native.String.{String}
use mb_printer_cli.Common.{
  ℕ, ◌/◌, ◌%◌, ◌^◌, Bool, true, false, not, ◌||◌, Option, none, some, List, [], ◌∷◌, ◌++◌,
  if◌then◌else◌, length,
}
use mb_printer_cli.Common.Text.{Text, codes, text_eq, is_empty}
use mb_printer_cli.Common.Result.{Result, ok, err, ◌>>=◌, ◌>>◌, ensure, reject_if, ok_or}
use mb_printer_cli.Auth.Types.{AuthStore, WifiApproval, IoError, Crates, World}
use mb_printer_cli.Auth.Persistence.{reload}
use mb_printer_cli.Auth.Wifi.{prepare_wifi_approval, consume_wifi_approval}
use mb_printer_cli.Api.Errors.{
  ApiError, unauthorized, forbidden, not_found, conflict, unprocessable, internal_error,
  bad_gateway,
}
use mb_printer_cli.Api.Guards.{Headers, origin, authorize_admin}

-- `WirelessSettings` of the SDK; the strings are the bytes of their UTF-8, and the two codes u8.
pub record WirelessSettings : Type 0 where
  pub ssid : List ℕ
  pub password : List ℕ
  pub encryption : ℕ
  pub authentication : ℕ
  pub infrastructure : Bool
  pub wireless_direct : Bool
  pub reboot : Bool

-- What the source reads of a saved connection and of the JSON value of its transport.
pub record UsbConnection : Type 0 where
  pub model : Text
  pub kind : Option Text
  pub device : Option Text

-- Code outside the handlers: `WirelessSettings::command` of the SDK, if it accepts the settings, and
-- whether the device takes them.
pub record Printer : Type 0 where
  pub has_command : WirelessSettings → Bool
  pub takes : Text → WirelessSettings → Bool

-- `(n as u32).to_be_bytes()`
abbrev pub be32 : ℕ → List ℕ
be32 n = (n / 2 ^ 24 % 256) ∷ (n / 2 ^ 16 % 256) ∷ (n / 2 ^ 8 % 256) ∷ (n % 256) ∷ []

-- A part of what is hashed, behind its length.
abbrev pub part : List ℕ → List ℕ
part bytes = be32 (length bytes) ++ bytes

abbrev pub bit : Bool → List ℕ
bit true = 1 ∷ []
bit false = 0 ∷ []

unfoldable pub fingerprint_input : WirelessSettings → List ℕ
fingerprint_input s =
    codes "mb-printer-wifi-approval-v1"
    ++ (0
        ∷ (part s.ssid
            ++ (part s.password
                ++ (part (s.encryption ∷ [])
                    ++ (part (s.authentication ∷ [])
                        ++ (part (bit s.infrastructure)
                            ++ (part (bit s.wireless_direct) ++ part (bit s.reboot))))))))

unfoldable pub wireless_settings_fingerprint : Crates → WirelessSettings → Text
wireless_settings_fingerprint c s = c.encode (c.sha256 (fingerprint_input s))

unfoldable pub require_brother_wifi_configuration : Bool → Result ApiError (Unit {0})
require_brother_wifi_configuration enabled = ensure enabled (
    forbidden
      "Brother Wi-Fi configuration is disabled; set enable_brother_wifi_configuration to true locally")

-- `BrotherReadOperation`
pub data BrotherReadOperation : Type 0 where
  wireless report : BrotherReadOperation

unfoldable pub supports : BrotherReadOperation → Text → Bool
supports wireless model = text_eq model (codes "ql-1110nwb") || text_eq model (codes "ql-1115nwb")
supports report model =
    text_eq model (codes "ql-1100")
    || text_eq model (codes "ql-1110nwb")
    || text_eq model (codes "ql-1115nwb")

abbrev pub is_usb : Option Text → Bool
is_usb none = false
is_usb (some kind) = text_eq kind (codes "usb")

-- `.filter(|value| !value.is_empty())`
abbrev pub nonempty : Option Text → Option Text
nonempty none = none
nonempty (some t) = if is_empty t then none else some t

-- The stable selector of the device behind a connection.
unfoldable pub brother_usb_connection :
    (Text → Option UsbConnection) → Text → BrotherReadOperation → Result ApiError Text
brother_usb_connection connections id operation = do
  connection ← ok_or (connections id) (not_found "printer connection not found")
  ensure (supports operation connection.model)
      (unprocessable "operation is unsupported for this printer model")
  ensure (is_usb connection.kind) (unprocessable "Brother administration requires a USB connection")
  ok_or (nonempty connection.device) (unprocessable "stable USB device selector is required")

unfoldable pub validate : Printer → WirelessSettings → Result ApiError WirelessSettings
validate p settings = do
  ensure (p.has_command settings) (unprocessable "invalid wireless settings")
  ok settings

-- What the handlers have established before they turn to the store.
pub record Reviewed : Type 0 where
  pub grant_id : ℕ
  pub request_origin : Text
  pub selector : Text
  pub settings : WirelessSettings

-- The checks at the head of both handlers; `enabled` is the setting of the service.
unfoldable pub review :
    Crates
    → Printer
    → (Text → Option UsbConnection)
    → Bool
    → ℕ
    → Headers
    → Text
    → WirelessSettings
    → AuthStore
    → Result ApiError Reviewed
review c p connections enabled now h connection settings s = do
  grant_id ← authorize_admin c now h s
  u ← require_brother_wifi_configuration enabled
  request_origin ← origin h
  selector ← brother_usb_connection connections connection wireless
  checked ← validate p settings
  ok (record {
    grant_id = grant_id;
    request_origin = request_origin;
    selector = selector;
    settings = checked;
  })

abbrev approval_failed : ApiError
approval_failed = internal_error "approval persistence failed"

abbrev prepared :
    Result IoError (Option WifiApproval) × AuthStore → Result ApiError WifiApproval × AuthStore
prepared (err e, s) = (err approval_failed, s)
prepared (ok none, s) = (err (unauthorized "administrator grant required"), s)
prepared (ok (some a), s) = (ok a, s)

abbrev prepare_reviewed :
    Crates
    → World
    → Text
    → AuthStore
    → Result ApiError Reviewed
    → Result ApiError WifiApproval × AuthStore
prepare_reviewed c w connection s (err e) = (err e, s)
prepare_reviewed c w connection s (ok r) = prepared (
    prepare_wifi_approval c w r.grant_id r.request_origin connection
      (wireless_settings_fingerprint c r.settings) s)

-- `brother_wireless_prepare`, with the approval of the response.
unfoldable pub brother_wireless_prepare :
    Crates
    → World
    → Printer
    → (Text → Option UsbConnection)
    → Bool
    → ℕ
    → Headers
    → Text
    → WirelessSettings
    → AuthStore
    → Result ApiError WifiApproval × AuthStore
brother_wireless_prepare c w p connections enabled now h connection settings s =
    prepare_reviewed c w connection s (review c p connections enabled now h connection settings s)

-- An outcome of `brother_wireless_configure`: the call of the device, if there is one, the answer, and
-- the store.
pub record Outcome : Type 0 where
  pub sent : Option (Text × WirelessSettings)
  pub answer : Result ApiError (Unit {0})
  pub store : AuthStore

abbrev pub stopped : ApiError → AuthStore → Outcome
stopped e s = record { sent = none; answer = err e; store = s }

abbrev pub apply_settings : Printer → Reviewed → AuthStore → Outcome
apply_settings p r s = record {
  sent = some (r.selector, r.settings);
  answer = ensure (p.takes r.selector r.settings) (bad_gateway "wireless configuration failed");
  store = s;
}

abbrev pub consumed : Printer → Reviewed → Result IoError Bool × AuthStore → Outcome
consumed p r (err e, s) = stopped approval_failed s
consumed p r (ok false, s) =
    stopped (conflict "local wireless approval is missing, expired, or already used") s
consumed p r (ok true, s) = apply_settings p r s

abbrev pub configure_reloaded :
    Crates → World → Printer → ℕ → Text → Reviewed → Result IoError (Unit {0}) × AuthStore → Outcome
configure_reloaded c w p approval_id connection r (err e, s) = stopped approval_failed s
configure_reloaded c w p approval_id connection r (ok u, s) = consumed p r (
    consume_wifi_approval w approval_id r.grant_id r.request_origin connection
      (wireless_settings_fingerprint c r.settings) s)

abbrev pub configure_reviewed :
    Crates → World → Printer → ℕ → Text → AuthStore → Result ApiError Reviewed → Outcome
configure_reviewed c w p approval_id connection s (err e) = stopped e s
configure_reviewed c w p approval_id connection s (ok r) =
    configure_reloaded c w p approval_id connection r (reload s)

unfoldable pub brother_wireless_configure :
    Crates
    → World
    → Printer
    → (Text → Option UsbConnection)
    → Bool
    → ℕ
    → Headers
    → Text
    → ℕ
    → WirelessSettings
    → AuthStore
    → Outcome
brother_wireless_configure c w p connections enabled now h connection approval_id settings s =
    configure_reviewed c w p approval_id connection s
      (review c p connections enabled now h connection settings s)
