-- ===== src/Raster/Tiles.antt =====
-- `tiles` of src/raster.rs: an image cut into tiles, row by row of tiles.
pub mod Cut
use Prim.Native.String.{String}
use mb_printer_cli.Common.{
  ℕ, zero, suc, ◌+◌, ◌-◌, ◌*◌, ◌/◌, Bool, true, false, ◌||◌, Option, none, some, List, [], ◌∷◌,
  if◌then◌else◌, ltb, leb, ◌==◌,
}
use mb_printer_cli.Common.Grid.{items, rows, slice}
use mb_printer_cli.Common.Result.{Result, ok, err}
use mb_printer_cli.Raster.{MonoRaster, u32_then}

abbrev pub min : ℕ → ℕ → ℕ
min a b = if leb a b then a else b

-- The number of rounds of `(0..n).step_by(step)` for a step that is not 0.
unfoldable pub steps : ℕ → ℕ → ℕ
steps n step = (n + step - 1) / step

-- A row of a tile: `tile_width` pixels from the column `x` of the row `row` of the image.
unfoldable pub tile_row : MonoRaster → ℕ → ℕ → ℕ → Option (List ℕ)
tile_row image x tile_width row =
    u32_then (row * image.width)
      (λ base. u32_then (base + x) (λ start. slice start tile_width image.pixels))

abbrev pub tile_of : ℕ → ℕ → Option (List ℕ) → Option MonoRaster
tile_of tile_width tile_height none = none
tile_of tile_width tile_height (some pixels) =
    some (record { width = tile_width; height = tile_height; pixels = pixels })

-- The tile whose first pixel is at `x`, `y`.
unfoldable pub tile_at : MonoRaster → ℕ → ℕ → ℕ → ℕ → Option MonoRaster
tile_at image width height y x =
    let tile_width = min width (image.width - x) in
    let tile_height = min height (image.height - y) in
    u32_then (tile_width * tile_height)
      (λ _. tile_of tile_width tile_height (rows tile_height y (tile_row image x tile_width)))

abbrev pub all_tiles : Option (List MonoRaster) → Option (Result String (List MonoRaster))
all_tiles none = none
all_tiles (some output) = some (ok output)

unfoldable pub tiles : MonoRaster → ℕ → ℕ → Option (Result String (List MonoRaster))
tiles image width height =
    if width == 0 || height == 0
    then some (err "tile dimensions must be positive")
    else all_tiles (
        rows (steps image.height height) 0 (λ j.
          items (steps image.width width) 0
            (λ i. tile_at image width height (j * height) (i * width))))
