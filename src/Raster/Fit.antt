-- ===== src/Raster/Fit.antt =====
-- `fit_to_box` of src/raster.rs: an image scaled into a white box. The debug assertion of the source
-- is a panic too.
pub mod ByWidth
use Prim.Native.String.{String}
use mb_printer_cli.Common.{
  ℕ, zero, suc, ◌+◌, ◌-◌, ◌*◌, ◌/◌, ◌%◌, Bool, true, false, ◌&&◌, ◌||◌, Option, none, some, List,
  [], ◌∷◌, ◌++◌, if◌then◌else◌, ltb, leb, ◌==◌, length, take, drop, replicate,
}
use mb_printer_cli.Common.Grid.{slice}
use mb_printer_cli.Common.Result.{Result, ok, err}
use mb_printer_cli.Raster.{MonoRaster, u32_then, invalid_dimensions}
use mb_printer_cli.Raster.Scale.{scale_to_width}

-- `pixels[start..start + row.len()].copy_from_slice(row)`
unfoldable pub copy_row : ℕ → List ℕ → List ℕ → Option (List ℕ)
copy_row start row pixels =
    if leb (start + length row) (length pixels)
    then some (take start pixels ++ (row ++ drop (start + length row) pixels))
    else none

abbrev pub copy_found : ℕ → Option (List ℕ) → List ℕ → Option (List ℕ)
copy_found start none pixels = none
copy_found start (some row) pixels = copy_row start row pixels

-- A round of the loop: the row `y` of the scaled image into the box.
unfoldable pub place_row : MonoRaster → ℕ → ℕ → ℕ → ℕ → List ℕ → Option (List ℕ)
place_row scaled width left top y pixels = u32_then (y * scaled.width) (λ source.
    u32_then ((top + y) * width) (λ base.
      u32_then (base + left)
        (λ destination. copy_found destination (slice source scaled.width scaled.pixels) pixels)))

abbrev pub next_round : Option (List ℕ) → (List ℕ → Option (List ℕ)) → Option (List ℕ)
next_round none k = none
next_round (some pixels) k = k pixels

-- The last `n` rounds, from the row `y` on.
unfoldable pub place_rows : ℕ → ℕ → MonoRaster → ℕ → ℕ → ℕ → List ℕ → Option (List ℕ)
place_rows zero y scaled width left top pixels = some pixels
place_rows (suc n) y scaled width left top pixels =
    next_round (place_row scaled width left top y pixels)
      (λ changed. place_rows n (y + 1) scaled width left top changed)

abbrev pub boxed : ℕ → ℕ → Option (List ℕ) → Option (Result String MonoRaster)
boxed width height none = none
boxed width height (some pixels) =
    some (ok (record { width = width; height = height; pixels = pixels }))

-- `width` and `height` are those of the box, `expected` the height asked of the scaled image.
unfoldable pub place_scaled :
    ℕ → ℕ → ℕ → Option (Result String MonoRaster) → Option (Result String MonoRaster)
place_scaled width height expected none = none
place_scaled width height expected (some (err e)) = some (err e)
place_scaled width height expected (some (ok scaled)) =
    if scaled.height == expected
    then u32_then (width * height) (λ size.
      if leb scaled.width width && leb scaled.height height
      then boxed width height (
          place_rows scaled.height 0 scaled width ((width - scaled.width) / 2)
            ((height - scaled.height) / 2) (replicate size 0))
      else none)
    else none

-- `n.max(1)`
abbrev pub at_least_one : ℕ → ℕ
at_least_one n = if n == 0 then 1 else n

unfoldable pub fit_to_box : MonoRaster → ℕ → ℕ → Option (Result String MonoRaster)
fit_to_box image width height =
    if width == 0 || height == 0 || image.width == 0 || image.height == 0
    then some (err invalid_dimensions)
    else if leb (width * image.height) (height * image.width)
    then place_scaled width height
        (at_least_one ((image.height * width + image.width / 2) / image.width % 4294967296))
        (scale_to_width image (at_least_one width))
    else place_scaled width height (at_least_one height) (
        scale_to_width image
          (at_least_one ((image.width * height + image.height / 2) / image.height % 4294967296)))
