-- ===== src/Raster/Fit/ByWidth.antt =====
-- `fit_to_box` (src/raster.rs) for an image whose width decides the scale.

use native.Mathlib.Nat.{div-lt_iff_lt-mul, mul-le-mul_right, mul-le-mul_left, mod-eq_of_lt}
use mb_printer_cli.Common.{
  ℕ, zero, suc, ◌+◌, ◌-◌, ◌*◌, ◌/◌, ◌%◌, ◌≤◌, ◌<◌, ◌≡◌, refl, sym, ap, ◌∙◌, arith, true, ◌&&◌, some,
  List, ◌++◌, lt→ltb, leb, ◌==◌, length, length-append, length-drop, take, drop, replicate,
}
use mb_printer_cli.Common.Grid.{slice, slice_lem, length-take}
use mb_printer_cli.Common.Result.{ok}
use mb_printer_cli.Raster.{MonoRaster, IsRaster, u32_then}
use mb_printer_cli.Raster.Scale.{scaled_height}
use mb_printer_cli.Raster.ScaleLaws.{positive, factor_lt, u32_then_lt, scale_to_width_lem}
use mb_printer_cli.Raster.Tiles.Cut.{row_end_le}
use mb_printer_cli.Raster.Fit.{
  copy_row, copy_found, place_row, place_rows, boxed, place_scaled, at_least_one, fit_to_box,
}

-- A row that fits is written, and the number of pixels stays.
copy_row_lem :
    (start : ℕ) (row pixels : List ℕ)
    → start + length row ≤ length pixels
    → (l : List ℕ) × ((copy_row start row pixels ≡ some l) × (length l ≡ length pixels))
unfolding copy_row
copy_row_lem start row pixels h =
    let last = drop (start + length row) pixels in
    (
      take start pixels ++ (row ++ last),
      (
        ground arith,
        omega (
          arith,
          length-append (take start pixels) (row ++ last),
          length-append row last,
          length-take start pixels (omega arith),
          length-drop (start + length row) pixels,
        ),
      ),
    )

place_row_lem :
    (scaled : MonoRaster) (width height left top y : ℕ) (pixels : List ℕ)
    → length scaled.pixels ≡ scaled.height * scaled.width
    → length pixels ≡ height * width
    → height * width < 4294967296
    → y < scaled.height
    → left + scaled.width ≤ width
    → top + scaled.height ≤ height
    → (l : List ℕ) × ((place_row scaled width left top y pixels ≡ some l)
        × (length l ≡ length pixels))
unfolding place_row
place_row_lem scaled width height left top y pixels full size fits q p v =
    let from = row_end_le y scaled.width scaled.height q in
    let to = row_end_le (top + y) width height (omega arith) in
    let narrow : y * scaled.width ≤ y * width = mul-le-mul_left y (omega arith) in
    let above : y * width ≤ (top + y) * width = mul-le-mul_right width (omega arith) in
    let (row, (e, m, _)) = slice_lem (y * scaled.width) scaled.width scaled.pixels (omega arith) in
    let (l, (g, k)) = copy_row_lem ((top + y) * width + left) row pixels (omega arith) in
    (
      l,
      (
        u32_then_lt (y * scaled.width)
              (λ source. u32_then ((top + y) * width) (λ base.
                u32_then (base + left) (λ destination.
                  copy_found destination (slice source scaled.width scaled.pixels) pixels)))
              (omega arith)
            ∙ u32_then_lt ((top + y) * width)
                (λ base. u32_then (base + left) (λ destination.
                  copy_found destination (slice (y * scaled.width) scaled.width scaled.pixels)
                    pixels))
                (omega arith)
            ∙ u32_then_lt ((top + y) * width + left)
                (λ destination.
                  copy_found destination (slice (y * scaled.width) scaled.width scaled.pixels)
                    pixels)
                (omega arith)
            ∙ ap (λ found. copy_found ((top + y) * width + left) found pixels) e
            ∙ g,
        k,
      ),
    )

place_rows_lem :
    (n y : ℕ) (scaled : MonoRaster) (width height left top : ℕ) (pixels : List ℕ)
    → length scaled.pixels ≡ scaled.height * scaled.width
    → length pixels ≡ height * width
    → height * width < 4294967296
    → y + n ≤ scaled.height
    → left + scaled.width ≤ width
    → top + scaled.height ≤ height
    → (l : List ℕ) × ((place_rows n y scaled width left top pixels ≡ some l)
        × (length l ≡ length pixels))
unfolding place_rows
place_rows_lem zero y scaled width height left top pixels full size fits q p v =
    (pixels, (refl, refl))
place_rows_lem (suc n) y scaled width height left top pixels full size fits q p v =
    let (changed, (e, m)) =
      place_row_lem scaled width height left top y pixels full size fits (omega arith) p v in
    let (l, (g, k)) =
      place_rows_lem n (y + 1) scaled width height left top changed full (m ∙ size) fits
        (omega arith) p v in
    (l, (rw (e) g, k ∙ m))

-- The height of the scaled image is at most that of the box.
scaled_height_le :
    (image : MonoRaster) (w h : ℕ)
    → 0 < image.width
    → 0 < h
    → w * image.height ≤ h * image.width
    → scaled_height image w ≤ h
unfolding scaled_height
scaled_height_le image w h pos tall p =
    let s : suc h * image.width ≡ image.width + h * image.width = grind arith in
    let c : image.height * w ≡ w * image.height = grind arith in
    let d =
      (div-lt_iff_lt-mul {k = image.width} {x = image.height * w + image.width / 2} {y = suc h}
          pos).1
        (omega arith) in
    ground arith

length-replicate : (n x : ℕ) → length (replicate n x) ≡ n
length-replicate zero x = refl
length-replicate (suc n) x = ap (λ k. suc k) (length-replicate n x)

-- A scaled image that fits is placed.
place_scaled_lem :
    (scaled : MonoRaster) (w h expected : ℕ)
    → scaled.height ≡ expected
    → w * h < 4294967296
    → scaled.width ≤ w
    → scaled.height ≤ h
    → length scaled.pixels ≡ scaled.height * scaled.width
    → (pixels : List ℕ) × ((place_scaled w h expected (some (ok scaled))
          ≡ some (ok (record { width = w; height = h; pixels = pixels })))
        × (length pixels ≡ h * w))
unfolding place_scaled
place_scaled_lem scaled w h expected e box narrow low full =
    let c : w * h ≡ h * w = grind arith in
    let left = (w - scaled.width) / 2 in
    let top = (h - scaled.height) / 2 in
    let white : List ℕ = replicate (w * h) 0 in
    let n = length-replicate (w * h) 0 in
    let (pixels, (g, k)) =
      place_rows_lem scaled.height 0 scaled w h left top white full (n ∙ c) (omega arith)
        (omega arith) (omega arith) (omega arith) in
    let same : (scaled.height == expected) ≡ true = ground arith in
    let fits : (leb scaled.width w && leb scaled.height h) ≡ true = ground arith in
    let placed : boxed w h (place_rows scaled.height 0 scaled w left top white)
        ≡ some (ok (record { width = w; height = h; pixels = pixels })) =
      ap (boxed w h) g in
    (pixels, (rw (same, lt→ltb (w * h) 4294967296 box, fits) placed, k ∙ n ∙ c))

-- The rounded height fits a u32.
expected_height :
    (image : MonoRaster) (w h : ℕ)
    → scaled_height image w ≤ h
    → h < 4294967296
    → at_least_one ((image.height * w + image.width / 2) / image.width % 4294967296)
      ≡ scaled_height image w
unfolding scaled_height
expected_height image w h low small =
    let fits : (image.height * w + image.width / 2) / image.width < 4294967296 = ground arith in
    ap at_least_one (mod-eq_of_lt fits)

-- For an image whose pixels fill its rows and whose sizes and number of pixels are u32, and a box
-- whose number of pixels is u32, none of them empty: where the width of the box decides the scale,
-- fitting never leaves an array, no operation overflows and the debug assertion holds; the result has
-- the size of the box and as many pixels.
pub fit_to_box-by_width :
    (image : MonoRaster) (w h : ℕ)
    → IsRaster image
    → image.height * image.width < 4294967296
    → 0 < image.width
    → 0 < image.height
    → 0 < w
    → 0 < h
    → h * w < 4294967296
    → w * image.height ≤ h * image.width
    → (pixels : List ℕ) × ((fit_to_box image w h
          ≡ some (ok (record { width = w; height = h; pixels = pixels })))
        × (length pixels ≡ h * w))
unfolding fit_to_box
fit_to_box-by_width image w h r fits pw ph pos tall box wide =
    let low = scaled_height_le image w h pw tall wide in
    let m : w * scaled_height image w ≤ w * h = mul-le-mul_left w low in
    let c : w * h ≡ h * w = grind arith in
    let (scaled, (e, sw, sh, full, _)) =
      scale_to_width_lem image w r fits pw ph pos (omega arith) in
    let (pixels, (g, k)) =
      place_scaled_lem scaled w h (scaled_height image w) sh (omega arith) (omega arith)
        (omega arith) (full ∙ ap (λ v. scaled.height * v) (sym sw)) in
    let yes : leb (w * image.height) (h * image.width) ≡ true = ground arith in
    (
      pixels,
      (
        rw
            (
              positive w pos,
              positive h tall,
              positive image.width pw,
              positive image.height ph,
              yes,
              expected_height image w h low (factor_lt w h pos (omega arith)),
              e,
            )
            g,
        k,
      ),
    )
