-- ===== src/Api/Errors.antt =====
-- `ApiError` of src/api.rs: an HTTP status with a fixed message.
use mb_printer_cli.Common.{ℕ}
use Prim.Native.String.{String}

pub data ApiError : Type 0 where
  api_error : ℕ → String → ApiError

abbrev pub bad_request : String → ApiError
bad_request = api_error 400

abbrev pub unauthorized : String → ApiError
unauthorized = api_error 401

abbrev pub forbidden : String → ApiError
forbidden = api_error 403

abbrev pub not_found : String → ApiError
not_found = api_error 404

abbrev pub conflict : String → ApiError
conflict = api_error 409

abbrev pub payload_too_large : String → ApiError
payload_too_large = api_error 413

abbrev pub misdirected_request : String → ApiError
misdirected_request = api_error 421

abbrev pub unprocessable : String → ApiError
unprocessable = api_error 422

abbrev pub too_many_requests : String → ApiError
too_many_requests = api_error 429

abbrev pub internal_error : String → ApiError
internal_error = api_error 500

abbrev pub bad_gateway : String → ApiError
bad_gateway = api_error 502
