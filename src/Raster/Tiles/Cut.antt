-- ===== src/Raster/Tiles/Cut.antt =====
-- The tiles of an image (src/raster.rs) hold its pixels, each in the tile that covers it.

use native.Mathlib.Nat.{
  le-div_iff_mul-le, div-mul-le_self, div-add-mod, mod-lt, mul-le-mul_right, mul-le-mul,
}
use mb_printer_cli.Common.{
  ℕ, suc, ◌+◌, ◌-◌, ◌*◌, ◌/◌, ◌%◌, ◌≤◌, ◌<◌, ◌≡◌, refl, ap, ◌∙◌, arith, some, List, length,
  get_elem?,
}
use mb_printer_cli.Common.Grid.{items, rows, slice, items_lem, rows_lem, slice_lem}
use mb_printer_cli.Common.Result.{ok}
use mb_printer_cli.Raster.{MonoRaster, IsRaster, u32_then}
use mb_printer_cli.Raster.ScaleLaws.{positive, zero_add, u32_then_lt}
use mb_printer_cli.Raster.Tiles.{min, steps, tile_row, tile_at, tile_of, tiles}

steps_lt : (n step j : ℕ) → 0 < step → j < steps n step → j * step < n
unfolding steps
steps_lt n step j pos h =
    let m : suc j * step ≤ n + step - 1 =
      (le-div_iff_mul-le {k = step} {x = suc j} {y = n + step - 1} pos).0 h in
    let s : suc j * step ≡ step + j * step = grind arith in omega arith

lt_steps : (n step i : ℕ) → 0 < step → i < n → i / step < steps n step
unfolding steps
lt_steps n step i pos h =
    let s : suc (i / step) * step ≡ step + i / step * step = grind arith in
    (le-div_iff_mul-le {k = step} {x = suc (i / step)} {y = n + step - 1} pos).1
      (omega (arith, div-mul-le_self i step))

-- A number is its quotient and its remainder.
parts : (n step : ℕ) → n / step * step + n % step ≡ n
parts n step =
    let e : step * (n / step) ≡ n / step * step = grind arith in omega (arith, div-add-mod n step)

columns : (width y x w : ℕ) → y * width + x / w * w + x % w ≡ y * width + x
columns width y x w = omega (arith, parts x w)

rest_lt_min : (n step size : ℕ) → 0 < step → n < size → n % step < min step (size - n / step * step)
rest_lt_min n step size pos h = let e = parts n step in let l = mod-lt n pos in ground arith

-- A row below the height of an image ends within its pixels.
pub row_end_le : (row w h : ℕ) → row < h → row * w + w ≤ h * w
row_end_le row w h p =
    let m : suc row * w ≤ h * w = mul-le-mul_right w p in
    let s : suc row * w ≡ w + row * w = grind arith in omega arith

tile_row_lem :
    (image : MonoRaster) (x n row : ℕ)
    → IsRaster image
    → image.height * image.width < 4294967296
    → 0 < n
    → x + n ≤ image.width
    → row < image.height
    → (l : List ℕ) × ((tile_row image x n row ≡ some l)
        × (length l ≡ n)
        × ((i : ℕ) → i < n → get_elem? l i ≡ get_elem? image.pixels (row * image.width + x + i)))
unfolding tile_row IsRaster
tile_row_lem image x n row r fits pos inside below =
    let end = row_end_le row (image.width) (image.height) below in
    let (l, (e, m, at)) = slice_lem (row * image.width + x) n (image.pixels) (omega (arith, r.0)) in
    (
      l,
      (
        u32_then_lt (row * image.width)
              (λ base. u32_then (base + x) (λ start. slice start n (image.pixels))) (omega arith)
            ∙ u32_then_lt (row * image.width + x) (λ start. slice start n (image.pixels))
                (omega arith)
            ∙ e,
        m,
        at,
      ),
    )

tile_at_lem :
    (image : MonoRaster) (w h y x : ℕ)
    → IsRaster image
    → image.height * image.width < 4294967296
    → 0 < w
    → 0 < h
    → y < image.height
    → x < image.width
    → (tile : MonoRaster) × ((tile_at image w h y x ≡ some tile)
        × (tile.width ≡ min w (image.width - x))
        × ((j i : ℕ)
            → j < min h (image.height - y)
            → i < min w (image.width - x)
            → get_elem? tile.pixels (j * tile.width + i)
              ≡ get_elem? image.pixels ((y + j) * image.width + x + i)))
unfolding tile_at
tile_at_lem image w h y x r fits pw ph py px =
    let tw = min w (image.width - x) in
    let th = min h (image.height - y) in
    let tw_le : tw ≤ image.width - x = ground arith in
    let th_le : th ≤ image.height - y = ground arith in
    let tw_pos : 0 < tw = ground arith in
    let area : tw * th ≤ image.width * image.height = mul-le-mul (omega arith) (omega arith) in
    let swap : image.width * image.height ≡ image.height * image.width = grind arith in
    let row = λ (k : ℕ) (q : k < y + th).
      tile_row_lem image x tw k r fits tw_pos (omega arith) (omega arith) in
    let (pixels, (e, m, at)) =
      rows_lem th y tw (tile_row image x tw)
        (λ k _ q. let (l, (g, k, _)) = row k q in (l, (g, k))) in
    (
      record { width = tw; height = th; pixels = pixels },
      (
        u32_then_lt (tw * th) (λ _. tile_of tw th (rows th y (tile_row image x tw))) (omega arith)
            ∙ ap (tile_of tw th) e,
        refl,
        λ j i q p. let (l, (g, k, on)) = row (y + j) (omega arith) in at j i l q p g ∙ on i p,
      ),
    )

-- For an image whose pixels fill its rows and whose sizes and number of pixels are u32, and tiles of
-- a positive size, cutting never leaves an array and no operation overflows: it returns one tile for
-- each `w` columns and `h` rows begun, row by row, and the pixel in row `y` and column `x` of the
-- image is in the tile of row `y / h` and column `x / w` of tiles, in row `y % h` and column `x % w`.
pub tiles_lem :
    (image : MonoRaster) (w h : ℕ)
    → IsRaster image
    → image.height * image.width < 4294967296
    → 0 < w
    → 0 < h
    → (output : List MonoRaster) × ((tiles image w h ≡ some (ok output))
        × (length output ≡ steps image.height h * steps image.width w)
        × ((y x : ℕ)
            → y < image.height
            → x < image.width
            → (tile : MonoRaster) × ((get_elem? output (y / h * steps image.width w + x / w)
                  ≡ some tile)
                × (get_elem? tile.pixels (y % h * tile.width + x % w)
                    ≡ get_elem? image.pixels (y * image.width + x)))))
unfolding tiles
tiles_lem image w h r fits pw ph =
    let wide = steps image.width w in
    let tall = steps image.height h in
    let tile = λ (j i : ℕ) (q : j < tall) (p : i < wide).
      tile_at_lem image w h (j * h) (i * w) r fits pw ph (steps_lt image.height h j ph q)
        (steps_lt image.width w i pw p) in
    let round = λ (j : ℕ) (q : j < tall).
      items_lem wide 0 (λ i. tile_at image w h (j * h) (i * w))
        (λ i _ p. let (t, (e, _, _)) = tile j i q (omega arith) in (t, e)) in
    let (output, (e, m, at)) =
      rows_lem tall 0 wide (λ j. items wide 0 (λ i. tile_at image w h (j * h) (i * w)))
        (λ j _ q. let (l, (g, k, _)) = round j (omega arith) in (l, (g, k))) in
    (
      output,
      (
        rw (positive w pw, positive h ph, e) refl,
        m,
        λ y x q p.
            let qy = lt_steps image.height h y ph q in
            let px = lt_steps image.width w x pw p in
            let (t, (f, _, on)) = tile (y / h) (x / w) qy px in
            let (l, (g, k, nth)) = round (y / h) qy in
            (
              t,
              (
                at (y / h) (x / w) l qy px (
                      ap (λ v. items wide 0 (λ i. tile_at image w h (v * h) (i * w)))
                        (zero_add (y / h))
                      ∙ g)
                    ∙ nth (x / w) px
                    ∙ ap (λ v. tile_at image w h (y / h * h) (v * w)) (zero_add (x / w))
                    ∙ f,
                on (y % h) (x % w) (rest_lt_min y h image.height ph q)
                      (rest_lt_min x w image.width pw p)
                    ∙ ap (λ v. get_elem? image.pixels (v * image.width + x / w * w + x % w))
                        (parts y h)
                    ∙ ap (λ v. get_elem? image.pixels v) (columns image.width y x w),
              ),
            ),
      ),
    )
