-- ===== src/Api/Jobs/Render.antt =====
-- `api_render_for_printer` of src/api/jobs.rs: a document as the raster that a printer's head takes.
-- `none` is a panic in the work on the pixels.
pub mod Head
use mb_printer_cli.Common.{
  ℕ, zero, suc, ◌+◌, ◌/◌, Bool, true, false, not, ◌&&◌, ◌||◌, Option, none, some, List,
  if◌then◌else◌, ltb, ◌==◌,
}
use mb_printer_cli.Common.Result.{Result, ok, err}
use mb_printer_cli.Raster.{MonoRaster}
use mb_printer_cli.Raster.Scale.{scale_to_width}
use mb_printer_cli.Raster.Fit.{fit_to_box}
use mb_printer_cli.Raster.Tiles.{min}
use mb_printer_cli.Api.Errors.{ApiError, unprocessable}

pub data Rotation : Type 0 where
  clockwise_90 half counter_clockwise_90 : Rotation

pub data Alignment : Type 0 where
  left center right : Alignment

-- `Raster` of the SDK.
pub record Raster : Type 0 where
  pub width_bytes : ℕ  -- u16
  pub height : ℕ
  pub data_bytes : List ℕ

-- What the source reads of a printer's definition.
pub record PrinterDefinition : Type 0 where
  pub width_px : Option ℕ
  pub rotated : Bool
  pub alignment : Alignment

-- Code outside the repository: the renderer and the raster operations of the SDK.
pub record Sdk (Document : Type 0) : Type 0 where
  pub render : Document → ℕ → Option MonoRaster
  pub render_for_printer : Document → PrinterDefinition → ℕ → Option Raster
  pub rotate : MonoRaster → Rotation → MonoRaster
  pub place_on_head : MonoRaster → ℕ → Alignment → Option MonoRaster
  pub pack_msb : MonoRaster → Option (List ℕ)

-- A computation that may panic, and may answer with an error.
abbrev pub Answer : Type 0 → Type 0
Answer A = Option (Result ApiError A)

infixl 5 ◌>>=?◌
abbrev pub ◌>>=?◌ : {A B : Type 0} → Answer A → (A → Answer B) → Answer B
none >>=? f = none
some (err e) >>=? f = some (err e)
some (ok a) >>=? f = f a

abbrev pub answer_or : {A : Type 0} → Option A → ApiError → Answer A
answer_or none e = some (err e)
answer_or (some a) e = some (ok a)

-- `.map_err(|_| e)?`
abbrev pub map_err {ℓ} : {A : Type 0} {E : Type ℓ} → Option (Result E A) → ApiError → Answer A
map_err none e = none
map_err (some (err x)) e = some (err e)
map_err (some (ok a)) e = some (ok a)

abbrev pub turned : {D : Type 0} → Sdk D → MonoRaster → ℕ → Answer MonoRaster
turned sdk mono rotation =
    if rotation == 0
    then some (ok mono)
    else if rotation == 90
    then some (ok (sdk.rotate mono clockwise_90))
    else if rotation == 180
    then some (ok (sdk.rotate mono half))
    else if rotation == 270
    then some (ok (sdk.rotate mono counter_clockwise_90))
    else some (err (unprocessable "invalid rotation"))

abbrev pub turned_for_printer : {D : Type 0} → Sdk D → PrinterDefinition → MonoRaster → MonoRaster
turned_for_printer sdk printer mono = if printer.rotated then sdk.rotate mono clockwise_90 else mono

-- The fitting into the loaded media.
unfoldable pub fit_media : ℕ → Bool → Option (ℕ × ℕ) → MonoRaster → Answer MonoRaster
fit_media head fit none mono = some (ok mono)
fit_media head fit (some (media_width, media_height)) mono =
    if fit && (ltb media_width mono.width || ltb media_height mono.height)
    then map_err (fit_to_box mono (min media_width head) media_height)
        (unprocessable "document cannot be fitted to loaded media")
    else some (ok mono)

-- The fitting to the width of the head.
unfoldable pub fit_head : ℕ → Bool → MonoRaster → Answer MonoRaster
fit_head head fit mono =
    if ltb head mono.width
    then if not fit
      then some (err (unprocessable "rendered document exceeds printer head; set fit=true"))
      else map_err (scale_to_width mono head) (unprocessable "document cannot be fitted")
    else some (ok mono)

unfoldable pub fitted : ℕ → Bool → Option (ℕ × ℕ) → MonoRaster → Answer MonoRaster
fitted head fit media_box mono = fit_media head fit media_box mono >>=? fit_head head fit

-- `width.div_ceil(8)` as a u16, and the bytes.
unfoldable pub packed : {D : Type 0} → Sdk D → MonoRaster → Answer Raster
packed sdk mono =
    (if ltb ((mono.width + 7) / 8) 65536
      then some (ok ((mono.width + 7) / 8))
      else some (err (unprocessable "raster is too wide")))
    >>=? λ width_bytes.
        answer_or (sdk.pack_msb mono) (unprocessable "raster packing failed") >>=? λ bytes.
        some (ok (record { width_bytes = width_bytes; height = mono.height; data_bytes = bytes }))

-- The head's width: that of a fixed model, or that of the loaded media.
abbrev pub head_width : PrinterDefinition → Option (ℕ × ℕ) → Option ℕ
head_width printer media_box = elim (printer.width_px) [
  | some width ↦ some width
  | none ↦ elim media_box [ some (width, height) ↦ some width | none ↦ none ]
]

abbrev pub on_head :
    {D : Type 0}
    → Sdk D
    → D
    → PrinterDefinition
    → ℕ
    → ℕ
    → Bool
    → Option (ℕ × ℕ)
    → Option ℕ
    → Answer Raster
on_head sdk document printer dpi rotation fit media_box none =
    if not (rotation == 0) || fit
    then some (err (unprocessable "rotation/fit require a fixed-width printer model"))
    else answer_or (sdk.render_for_printer document printer dpi)
        (unprocessable "document cannot be rasterized")
on_head sdk document printer dpi rotation fit media_box (some head) =
    answer_or (sdk.render document dpi) (unprocessable "document cannot be rasterized")
    >>=? (λ mono. turned sdk mono rotation)
    >>=? (λ mono. fitted head fit media_box (turned_for_printer sdk printer mono))
    >>=? (λ mono.
        answer_or (sdk.place_on_head mono head printer.alignment)
          (unprocessable "document cannot be placed"))
    >>=? packed sdk

unfoldable pub api_render_for_printer :
    {D : Type 0} → Sdk D → D → PrinterDefinition → ℕ → ℕ → Bool → Option (ℕ × ℕ) → Answer Raster
api_render_for_printer sdk document printer dpi rotation fit media_box =
    on_head sdk document printer dpi rotation fit media_box (head_width printer media_box)
