-- ===== src/Raster/Scale.antt =====
-- `scale_to_width` of src/raster.rs. The rounds of its two loops write the pixels in their order.
use Prim.Native.String.{String}
use mb_printer_cli.Common.{
  ℕ, ◌+◌, ◌*◌, ◌/◌, ◌%◌, ◌||◌, Option, none, some, List, if◌then◌else◌, ◌==◌, get_elem?,
}
use mb_printer_cli.Common.Grid.{items, rows}
use mb_printer_cli.Common.Result.{Result, ok, err}
use mb_printer_cli.Raster.{MonoRaster, u32_then, invalid_dimensions}

-- The pixel of the image that the pixel at `x`, `y` of the scaled one takes.
unfoldable pub source_pixel : MonoRaster → ℕ → ℕ → ℕ → ℕ → Option ℕ
source_pixel image width height y x =
    let source_x = x * image.width / width in
    let source_y = y * image.height / height in
    u32_then (source_y % 4294967296 * image.width)
      (λ start. u32_then (start + source_x % 4294967296) (λ index. get_elem? image.pixels index))

-- The height that keeps the proportions, to the nearest pixel, and 1 at the least.
unfoldable pub scaled_height : MonoRaster → ℕ → ℕ
scaled_height image width =
    let height = (image.height * width + image.width / 2) / image.width in
    if height == 0 then 1 else height

abbrev pub finished : ℕ → ℕ → Option (List ℕ) → Option (Result String MonoRaster)
finished width height none = none
finished width height (some pixels) =
    some (ok (record { width = width; height = height; pixels = pixels }))

unfoldable pub scale_to_width : MonoRaster → ℕ → Option (Result String MonoRaster)
scale_to_width image width =
    if width == 0 || (image.width == 0) || (image.height == 0)
    then some (err invalid_dimensions)
    else let height = scaled_height image width % 4294967296 in
      u32_then (width * height) (λ size.
        finished width height
          (rows height 0 (λ y. items width 0 (source_pixel image width height y))))
