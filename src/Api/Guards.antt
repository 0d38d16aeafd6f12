-- ===== src/Api/Guards.antt =====
-- The guards of the local API and its handlers of grants (src/api.rs), over the store of src/auth.rs.
pub mod Access
pub mod Pairing
use Prim.Native.Nat.{min}
use mb_printer_cli.Common.{
  ℕ, Bool, true, false, not, ◌||◌, Option, none, some, List, [], ◌∷◌, if◌then◌else◌, ltb, ◌==◌, any,
  find?,
}
use mb_printer_cli.Common.Text.{Text, codes, text_eq}
use mb_printer_cli.Common.Strings.{strip_prefix}
use mb_printer_cli.Common.Result.{Result, ok, err, ◌>>=◌, ◌>>◌, ensure, reject_if, ok_or}
use mb_printer_cli.Auth.Types.{Grant, AuthStore, IoError, Crates, World, admin_grant_max_ttl}
use mb_printer_cli.Auth.Origin.{loopback_host}
use mb_printer_cli.Auth.Persistence.{grants, reload}
use mb_printer_cli.Auth.Pairing.{exchange, exchange_admin}
use mb_printer_cli.Auth.Grants.{authenticate, authenticate_admin, revoke, rotate}
use mb_printer_cli.Api.Errors.{
  ApiError, bad_request, unauthorized, forbidden, misdirected_request, unprocessable,
  internal_error,
}

-- The headers that are read, each if it is there and is text.
pub record Headers : Type 0 where
  pub host : Option Text
  pub origin_header : Option Text
  pub authorization : Option Text

unfoldable pub origin : Headers → Result ApiError Text
origin h = ok_or h.origin_header (forbidden "missing origin")

unfoldable pub validate_host : Headers → Result ApiError (Unit {0})
validate_host h = do
  host ← ok_or h.host (bad_request "missing host")
  ensure (loopback_host host) (misdirected_request "non-loopback host rejected")

abbrev pub after_bearer : Option Text → Option Text
after_bearer none = none
after_bearer (some v) = strip_prefix v (codes "Bearer ")

unfoldable pub bearer : Headers → Result ApiError Text
bearer h = ok_or (after_bearer h.authorization) (unauthorized "missing bearer token")

abbrev pub granted : ApiError → Option Grant → Result ApiError ℕ
granted refusal none = err refusal
granted refusal (some g) = ok g.id

-- `authorize` and `authorize_admin`, at one reading of the clock.
unfoldable pub authorize : Crates → ℕ → Headers → AuthStore → Result ApiError ℕ
unfolding validate_host origin bearer
authorize c now h s = do
  u ← validate_host h
  o ← origin h
  token ← bearer h
  granted (unauthorized "invalid grant") (authenticate c now token o s)

unfoldable pub authorize_admin : Crates → ℕ → Headers → AuthStore → Result ApiError ℕ
unfolding validate_host origin bearer
authorize_admin c now h s = do
  u ← validate_host h
  o ← origin h
  token ← bearer h
  granted (unauthorized "administrator grant required") (authenticate_admin c now token o s)

unfoldable pub current_grant : Crates → ℕ → Headers → AuthStore → Result ApiError Grant
unfolding authorize
current_grant c now h s = do
  id ← authorize c now h s
  ok_or (find? (λ g. g.id == id) (grants s)) (unauthorized "invalid grant")

abbrev pub persistence_failed : ApiError
persistence_failed = internal_error "grant persistence failed"

-- The answer to a call of the store: `map_err(…)?.ok_or(…)?`.
abbrev pub settled {ℓ} :
    {A : Type ℓ} → ApiError → Result IoError (Option A) × AuthStore → Result ApiError A × AuthStore
settled refusal (err e, s) = (err persistence_failed, s)
settled refusal (ok none, s) = (err refusal, s)
settled refusal (ok (some a), s) = (ok a, s)

-- The new token and the `expiresIn` of the response.
abbrev rotate_response :
    ℕ → Result ApiError Text × AuthStore → Result ApiError (Text × ℕ) × AuthStore
rotate_response seconds (err e, s) = (err e, s)
rotate_response seconds (ok token, s) = (ok (token, min seconds 31536000), s)

abbrev rotate_authorized :
    Crates → World → ℕ → AuthStore → Result ApiError ℕ → Result ApiError (Text × ℕ) × AuthStore
rotate_authorized c w seconds s (err e) = (err e, s)
rotate_authorized c w seconds s (ok id) =
    if seconds == 0 || ltb 31536000 seconds
    then (err (unprocessable "expiresSeconds must be between 1 and 31536000"), s)
    else rotate_response seconds (settled (unauthorized "invalid grant") (rotate c w id seconds s))

unfoldable pub rotate_current_grant :
    Crates → World → ℕ → Headers → ℕ → AuthStore → Result ApiError (Text × ℕ) × AuthStore
rotate_current_grant c w now h seconds s = rotate_authorized c w seconds s (authorize c now h s)

abbrev no_content : Result IoError Bool × AuthStore → Result ApiError (Unit {0}) × AuthStore
no_content (ok b, s) = (ok tt, s)
no_content (err e, s) = (err persistence_failed, s)

abbrev revoke_authorized :
    World → AuthStore → Result ApiError ℕ → Result ApiError (Unit {0}) × AuthStore
revoke_authorized w s (err e) = (err e, s)
revoke_authorized w s (ok id) = no_content (revoke w id s)

unfoldable pub revoke_current_grant :
    Crates → World → ℕ → Headers → AuthStore → Result ApiError (Unit {0}) × AuthStore
revoke_current_grant c w now h s = revoke_authorized w s (authorize c now h s)

abbrev pub allowed_origin : List Text → Text → Bool
allowed_origin origins o = any (λ allowed. text_eq allowed o) origins

-- The checks of `pair`, and of a request with the method OPTIONS in `preflight_guard`: the origin.
unfoldable pub checked_origin : List Text → Headers → Result ApiError Text
unfolding validate_host origin
checked_origin origins h = do
  u ← validate_host h
  o ← origin h
  ensure (allowed_origin origins o) (forbidden "origin not allowed")
  ok o

unfoldable pub preflight_guard : List Text → Bool → Headers → Result ApiError (Unit {0})
unfolding checked_origin
preflight_guard origins false h = ok tt
preflight_guard origins true h = checked_origin origins h >>= λ o. ok tt

-- After `reload`.
abbrev exchange_reloaded :
    Crates
    → World
    → Text
    → Text
    → Result IoError (Unit {0}) × AuthStore
    → Result ApiError (ℕ × Text) × AuthStore
exchange_reloaded c w secret o (err e, s) = (err persistence_failed, s)
exchange_reloaded c w secret o (ok u, s) =
    settled (unauthorized "invalid or expired pairing secret") (exchange c w secret o 2592000 s)

abbrev pair_from :
    Crates
    → World
    → Text
    → AuthStore
    → Result ApiError Text
    → Result ApiError (ℕ × Text) × AuthStore
pair_from c w secret s (err e) = (err e, s)
pair_from c w secret s (ok o) = exchange_reloaded c w secret o (reload s)

-- `pair`, with the identifier and the token of the response.
unfoldable pub pair :
    Crates → World → List Text → Headers → Text → AuthStore → Result ApiError (ℕ × Text) × AuthStore
pair c w origins h secret s = pair_from c w secret s (checked_origin origins h)

-- `enabled` is the setting that
-- `require_brother_wifi_configuration_pairing` reads.
unfoldable pub require_pairing : Bool → Result ApiError (Unit {0})
require_pairing enabled = ensure enabled (
    forbidden
      "Brother Wi-Fi administrator pairing is disabled; set enable_brother_wifi_configuration_pairing to true locally")

abbrev exchange_admin_reloaded :
    Crates
    → World
    → Text
    → Text
    → Result IoError (Unit {0}) × AuthStore
    → Result ApiError (ℕ × Text) × AuthStore
exchange_admin_reloaded c w secret o (err e, s) = (err persistence_failed, s)
exchange_admin_reloaded c w secret o (ok u, s) =
    settled (unauthorized "invalid or expired administrator pairing secret")
      (exchange_admin c w secret o admin_grant_max_ttl s)

abbrev pair_admin_from :
    Crates
    → World
    → Text
    → AuthStore
    → Result ApiError Text
    → Result ApiError (ℕ × Text) × AuthStore
pair_admin_from c w secret s (err e) = (err e, s)
pair_admin_from c w secret s (ok o) = exchange_admin_reloaded c w secret o (reload s)

abbrev pub admin_checks : List Text → Bool → Headers → Result ApiError Text
admin_checks origins enabled h = do o ← checked_origin origins h; require_pairing enabled; ok o

unfoldable pub pair_admin :
    Crates
    → World
    → List Text
    → Bool
    → Headers
    → Text
    → AuthStore
    → Result ApiError (ℕ × Text) × AuthStore
unfolding checked_origin require_pairing
pair_admin c w origins enabled h secret s =
    pair_admin_from c w secret s (admin_checks origins enabled h)
