-- ===== src/Raster.antt =====
-- The pixel work of src/raster.rs: scaling, fitting into a box and cutting into tiles. `None` is the
-- panic of a loop that leaves its array or of an operation on u32 that overflows.
pub mod Scale
pub mod ScaleLaws
pub mod Tiles
pub mod Fit
use Prim.Native.String.{String}
use mb_printer_cli.Common.{
  ℕ, zero, suc, ◌+◌, ◌-◌, ◌*◌, ◌/◌, ◌^◌, ◌≤◌, ◌≡◌, Bool, true, false, ◌||◌, Option, none, some,
  List, [], ◌∷◌, if◌then◌else◌, ltb, leb, ◌==◌, length, get_elem?,
}

-- `MonoRaster` of the SDK, as the source builds and reads it.
pub record MonoRaster : Type 0 where
  pub width : ℕ
  pub height : ℕ
  pub pixels : List ℕ

-- What the SDK keeps of a raster: its pixels fill its rows, and its sizes are u32.
unfoldable pub IsRaster : MonoRaster → Type 0
IsRaster image =
    (length image.pixels ≡ image.height * image.width)
    × ((image.width ≤ 4294967295) × (image.height ≤ 4294967295))

-- A number that the code computes in u32: `none` when it does not fit.
abbrev pub u32_then {ℓ} : {A : Type ℓ} → ℕ → (ℕ → Option A) → Option A
u32_then n k = if ltb n 4294967296 then k n else none

abbrev pub invalid_dimensions : String
invalid_dimensions = "invalid raster dimensions"
