-- ===== src/Raster/ScaleLaws.antt =====
-- Scaling (src/raster.rs) reads within the image, and takes each pixel from the place that
-- corresponds to it.

use native.Mathlib.Nat.{div-lt_iff_lt-mul, mul-le-mul_right, mul-lt-mul_of_pos_left, mod-eq_of_lt}
use mb_printer_cli.Common.{
  ℕ, suc, ◌+◌, ◌*◌, ◌/◌, ◌%◌, ◌≤◌, ◌<◌, ◌≡◌, refl, ap, ◌∙◌, arith, false, Option, some, List, ◌==◌,
  length, get_elem?,
}
use mb_printer_cli.Common.Grid.{items, rows, items_lem, rows_lem, get_elem?-some}
use mb_printer_cli.Common.Result.{ok}
use mb_printer_cli.Raster.{MonoRaster, IsRaster, u32_then}
use mb_printer_cli.Raster.Scale.{source_pixel, scaled_height, finished, scale_to_width}

-- A row and a column in range are a place in range.
pub place_lt : (x y w h : ℕ) → x < w → y < h → y * w + x < h * w
place_lt x y w h p q =
    let m : suc y * w ≤ h * w = mul-le-mul_right w q in
    let s : suc y * w ≡ w + y * w = grind arith in omega arith

-- The place in a length `n` of a place in a length `m`.
proportional_lt : (x m n : ℕ) → x < m → 0 < n → x * n / m < n
proportional_lt x m n p q =
    let s : x * n < n * m = grind (arith, mul-lt-mul_of_pos_left p q) in
    (div-lt_iff_lt-mul {k = m} {x = x * n} {y = n} (omega arith)).1 s

pub u32_then_lt : {A : Type 0} (n : ℕ) (k : ℕ → Option A) → n < 4294967296 → u32_then n k ≡ k n
u32_then_lt n k h = ground arith

pub zero_add : (n : ℕ) → 0 + n ≡ n
zero_add n = omega arith

pub positive : (n : ℕ) → 0 < n → (n == 0) ≡ false
positive n h = ground arith

pub factor_lt : (w h : ℕ) {n : ℕ} → 0 < w → w * h < n → h < n
factor_lt w h {n} p q = let m : 1 * h ≤ w * h = mul-le-mul_right h p in omega arith

-- A pixel in range is found, at the place in proportion.
source_pixel_lem :
    (image : MonoRaster) (w h y x : ℕ)
    → IsRaster image
    → image.height * image.width < 4294967296
    → 0 < image.width
    → 0 < image.height
    → x < w
    → y < h
    → (source_pixel image w h y x
        ≡ get_elem? image.pixels (y * image.height / h * image.width + x * image.width / w))
      × ((p : ℕ) × (source_pixel image w h y x ≡ some p))
unfolding source_pixel IsRaster
source_pixel_lem image w h y x r fits pw ph px py =
    let sx = proportional_lt x w (image.width) px pw in
    let sy = proportional_lt y h (image.height) py ph in
    let in_range =
      place_lt (x * image.width / w) (y * image.height / h) (image.width) (image.height) sx sy in
    let (p, found) =
      get_elem?-some (image.pixels) (y * image.height / h * image.width + x * image.width / w)
        (omega (arith, r.0)) in
    let mx : x * image.width / w % 4294967296 ≡ x * image.width / w =
      mod-eq_of_lt (omega (arith, r.1.0)) in
    let my : y * image.height / h % 4294967296 ≡ y * image.height / h =
      mod-eq_of_lt (omega (arith, r.1.1)) in
    let e : source_pixel image w h y x
        ≡ get_elem? image.pixels (y * image.height / h * image.width + x * image.width / w) =
      rw (mx, my)
        (u32_then_lt (y * image.height / h * image.width)
            (λ start. u32_then (start + x * image.width / w) (λ i. get_elem? image.pixels i))
            (omega arith)
          ∙ u32_then_lt (y * image.height / h * image.width + x * image.width / w)
              (λ i. get_elem? image.pixels i) (omega arith)) in
    (e, (p, e ∙ found))

scale_to_width-rows :
    (image : MonoRaster) (w : ℕ) (pixels : List ℕ)
    → 0 < w
    → 0 < image.width
    → 0 < image.height
    → w * scaled_height image w < 4294967296
    → rows
        (scaled_height image w)
        0
        (λ y. items w 0 (source_pixel image w (scaled_height image w) y))
      ≡ some pixels
    → scale_to_width image w
      ≡ some (ok (record { width = w; height = scaled_height image w; pixels = pixels }))
unfolding scale_to_width
scale_to_width-rows image w pixels pos pw ph small e =
    let h = scaled_height image w in
    let mh : h % 4294967296 ≡ h = mod-eq_of_lt (factor_lt w h pos small) in
    rw (positive w pos, positive (image.width) pw, positive (image.height) ph, mh)
      (u32_then_lt (w * h)
          (λ _. finished w h (rows h 0 (λ y. items w 0 (source_pixel image w h y)))) small
        ∙ ap (finished w h) e)

-- For an image whose pixels fill its rows and whose sizes and number of pixels are u32, and a width
-- and a resulting number of pixels that are u32, scaling never leaves an array and no operation
-- overflows: it returns a raster of the asked width and of the proportional height whose pixels fill
-- its rows, and the pixel in row `y` and column `x` is that of the image in row `y * ih / h` and
-- column `x * iw / w`.
pub scale_to_width_lem :
    (image : MonoRaster) (w : ℕ)
    → IsRaster image
    → image.height * image.width < 4294967296
    → 0 < image.width
    → 0 < image.height
    → 0 < w
    → w * scaled_height image w < 4294967296
    → (scaled : MonoRaster) × ((scale_to_width image w ≡ some (ok scaled))
        × (scaled.width ≡ w)
        × (scaled.height ≡ scaled_height image w)
        × (length (scaled.pixels) ≡ scaled.height * w)
        × ((y x : ℕ)
            → y < scaled.height
            → x < w
            → get_elem? scaled.pixels (y * w + x)
              ≡ get_elem? image.pixels
                  (y * image.height / scaled.height * image.width + x * image.width / w)))
scale_to_width_lem image w r fits pw ph pos small =
    let h = scaled_height image w in
    let row : (y : ℕ)
        → y < h
        → (row : List ℕ) × ((items w 0 (source_pixel image w h y) ≡ some row)
            × (length row ≡ w)
            × ((x : ℕ) → x < w → get_elem? row x ≡ source_pixel image w h y (0 + x))) =
      λ y q.
        items_lem w 0 (source_pixel image w h y)
          (λ x _ p. (source_pixel_lem image w h y x r fits pw ph (omega arith) q).1) in
    let (pixels, (e, m, at)) =
      rows_lem h 0 w (λ y. items w 0 (source_pixel image w h y))
        (λ y _ q. let (l, (g, k, _)) = row y (omega arith) in (l, (g, k))) in
    (
      record { width = w; height = h; pixels = pixels },
      (
        scale_to_width-rows image w pixels pos pw ph small e,
        refl,
        refl,
        m,
        λ y x q p.
            let (l, (g, k, on)) = row y q in
            at y x l q p (ap (λ v. items w 0 (source_pixel image w h v)) (zero_add y) ∙ g)
            ∙ on x p
            ∙ ap (source_pixel image w h y) (zero_add x)
            ∙ (source_pixel_lem image w h y x r fits pw ph p q).0,
      ),
    )
