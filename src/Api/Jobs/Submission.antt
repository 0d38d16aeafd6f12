-- ===== src/Api/Jobs/Submission.antt =====
-- The checks of `JobExecutor::submit` (src/api/jobs.rs) between the decoding of a request and the
-- rendering of its documents, in a build with every transport.
pub mod Limits
pub mod Printable
use Prim.Native.Nat.{max}
use mb_printer_cli.Common.{
  ℕ, ◌+◌, Bool, true, false, not, ◌&&◌, ◌||◌, Option, none, some, List, [], ◌∷◌, if◌then◌else◌, ltb,
  leb, ◌==◌, length, any, is_some,
}
use mb_printer_cli.Common.Text.{Text, text_eq}
use mb_printer_cli.Common.Result.{Result, ok, err, ◌>>=◌, ◌>>◌, reject_if, ok_or}
use mb_printer_cli.Cloud.Request.{ContinuousPrintOptions, valid_rotation, no_documents}
use mb_printer_cli.Api.Errors.{ApiError, unprocessable, payload_too_large}
use mb_printer_cli.Api.Jobs.Continuous.{Floats, ContinuousMedia, cut_plan}

pub data ApiTransport : Type 0 where
  capture : ApiTransport
  file tcp : Text → ApiTransport
  ipp : Text → Option Text → ApiTransport
  serial rfcomm : Text → ℕ → ApiTransport
  usb : ℕ → ℕ → ℕ → ℕ → Option ℕ → ApiTransport
  ble : Text → ApiTransport

-- A JSON value stands as its text.
pub record JobRequest : Type 0 where
  pub document : Option Text
  pub documents : List Text
  pub model : Option Text
  pub connection_id : Option Text
  pub dpi : Option ℕ  -- u16
  pub rotation : ℕ  -- u16
  pub fit : Bool
  pub density : ℕ  -- u8
  pub copies : ℕ  -- u16
  pub payload_limit : ℕ
  pub transport : Option ApiTransport
  pub continuous : Option ContinuousPrintOptions

-- `widthMm` and `lengthMm` of the JSON value of loaded media, where they are numbers.
pub record LoadedMedia : Type 0 where
  pub width_mm : Option ℕ
  pub length_mm : Option ℕ

pub record Connection : Type 0 where
  pub model : Text
  pub transport : Text
  pub media : Option LoadedMedia

-- What the source reads of a document of the SDK; the lengths are in micrometres.
pub record Document : Type 0 where
  pub continuous : Bool
  pub width : ℕ
  pub height : ℕ
  pub dpi : ℕ

-- Code outside the repository: the SDK's documents, printers and limits, the decoding of a saved
-- transport, and `x > y + 0.5` on f64.
pub record Library : Type 0 where
  pub canonical_document : Text → Result ApiError Document
  pub validate : Document → Bool
  pub by_id : Text → Option (Option ContinuousMedia)
  pub max_request_documents : ℕ
  pub decode_transport : Text → Option ApiTransport
  pub floats : Floats
  pub exceeds_by_half : ℕ → ℕ → Bool

pub record Target : Type 0 where
  pub model : Text
  pub transport : ApiTransport
  pub loaded_media : Option LoadedMedia

pub record Prepared : Type 0 where
  pub target : Target
  pub documents : List Document
  pub cut : Bool
  pub cut_every : ℕ

abbrev pub same_presence : {A B : Type 0} → Option A → Option B → Bool
same_presence none none = true
same_presence none (some b) = false
same_presence (some a) none = false
same_presence (some a) (some b) = true

abbrev pub another_model : Option Text → Text → Bool
another_model none model = false
another_model (some asked) model = not (text_eq asked model)

abbrev pub connection_target : Library → Option Text → Connection → Result ApiError Target
connection_target lib model connection = do
  reject_if (another_model model connection.model)
      (unprocessable "printer model does not match saved connection")
  transport ←
      ok_or (lib.decode_transport connection.transport)
        (unprocessable "saved connection transport is invalid")
  ok (record { model = connection.model; transport = transport; loaded_media = connection.media })

-- The `unwrap` of the transport is behind the test that one is given.
abbrev pub direct_target : Option Text → Option ApiTransport → Result ApiError Target
direct_target none transport = err (unprocessable "printerId/model is required")
direct_target (some model) none =
    err (unprocessable "provide exactly one of connectionId or transport")
direct_target (some model) (some transport) =
    ok (record { model = model; transport = transport; loaded_media = none })

abbrev pub target_of :
    Library
    → (Text → Option Connection)
    → Option Text
    → Option Text
    → Option ApiTransport
    → Result ApiError Target
target_of lib connections none model transport = direct_target model transport
target_of lib connections (some id) model transport =
    ok_or (connections id) (unprocessable "saved connection not found")
    >>= connection_target lib model

abbrev pub document_values : Option Text → List Text → Result ApiError (List Text)
document_values (some document) [] = ok (document ∷ [])
document_values none (document ∷ documents) = ok (document ∷ documents)
document_values _ _ = err (unprocessable "provide exactly one of document or documents")

-- `collect::<Result<Vec<_>, _>>()`, which stops at the first error.
unfoldable pub canonical_documents : Library → List Text → Result ApiError (List Document)
canonical_documents lib [] = ok []
canonical_documents lib (value ∷ values) = do
  document ← lib.canonical_document value
  documents ← canonical_documents lib values
  ok (document ∷ documents)

abbrev pub same_bool : Bool → Bool → Bool
same_bool true b = b
same_bool false b = not b

abbrev pub differs : Document → Document → Bool
differs document item =
    not (same_bool item.continuous document.continuous)
    || not (item.width == document.width)
    || not (item.dpi == document.dpi)

-- `documents[0]`, which is there: the values are not empty.
abbrev pub first_document : List Document → Result ApiError Document
first_document [] = err (unprocessable "provide exactly one of document or documents")
first_document (document ∷ documents) = ok document

abbrev pub turned_sideways : ℕ → Bool
turned_sideways rotation = rotation == 90 || rotation == 270

abbrev pub beyond : Library → Option ℕ → ℕ → Bool
beyond lib none item = false
beyond lib (some size) item = lib.exceeds_by_half (lib.floats.thousandth item) size

-- Whether a document is larger than the loaded media.
unfoldable pub exceeds_media : Library → ℕ → LoadedMedia → Document → Bool
exceeds_media lib rotation media item =
    let sideways = turned_sideways rotation in
    beyond lib media.width_mm (if sideways then item.height else item.width)
    || (not item.continuous
        && beyond lib media.length_mm (if sideways then item.width else item.height))

abbrev pub any_exceeds : Library → ℕ → List Document → Option LoadedMedia → Bool
any_exceeds lib rotation documents none = false
any_exceeds lib rotation documents (some media) = any (exceeds_media lib rotation media) documents

unfoldable pub invalid_options : JobRequest → Bool
invalid_options r =
    not (leb 1 r.density && leb r.density 8) || r.copies == 0 || r.payload_limit == 0

abbrev pub with_plan :
    Library → JobRequest → Target → List Document → Bool × ℕ → Result ApiError Prepared
with_plan lib r target documents plan = do
  reject_if (not (valid_rotation r.rotation)) (unprocessable "invalid rotation")
  reject_if (not r.fit && any_exceeds lib r.rotation documents target.loaded_media)
      (unprocessable "document exceeds loaded media; set fit=true")
  ok (record { target = target; documents = documents; cut = plan.0; cut_every = plan.1 })

abbrev pub with_capability :
    Library
    → JobRequest
    → Target
    → List Document
    → Document
    → Option ContinuousMedia
    → Result ApiError Prepared
with_capability lib r target documents document capability =
    cut_plan lib.floats document.continuous document.height capability r.continuous r.copies
      (length documents)
    >>= with_plan lib r target documents

abbrev pub with_document :
    Library → JobRequest → Target → List Document → Document → Result ApiError Prepared
with_document lib r target documents document = do
  reject_if (any (differs document) documents)
      (unprocessable "batch documents must use the same roll width, DPI, and media mode")
  ok_or (lib.by_id target.model) (unprocessable "unknown printer model")
      >>= with_capability lib r target documents document

abbrev pub with_documents : Library → JobRequest → Target → List Document → Result ApiError Prepared
with_documents lib r target documents = do
  reject_if (any (λ d. not (lib.validate d)) documents) (unprocessable "document validation failed")
  first_document documents >>= with_document lib r target documents

abbrev pub with_values : Library → JobRequest → Target → List Text → Result ApiError Prepared
with_values lib r target values = do
  reject_if (ltb lib.max_request_documents (length values))
      (payload_too_large "batch document count exceeds processing limit")
  canonical_documents lib values >>= with_documents lib r target

abbrev pub with_target : Library → JobRequest → Target → Result ApiError Prepared
with_target lib r target = document_values r.document r.documents >>= with_values lib r target

unfoldable pub prepare :
    Library → (Text → Option Connection) → JobRequest → Result ApiError Prepared
prepare lib connections r = do
  reject_if (invalid_options r) (unprocessable "invalid print options")
  reject_if (same_presence r.connection_id r.transport)
      (unprocessable "provide exactly one of connectionId or transport")
  target_of lib connections r.connection_id r.model r.transport >>= with_target lib r
