-- ===== src/Tests/Pixels.antt =====
-- Concrete images and captured transports (src/raster.rs, src/transport.rs, src/api/jobs.rs).

use mb_printer_cli.Common.{
  ℕ, ◌+◌, ◌*◌, ◌/◌, ◌%◌, ◌≡◌, ◌≤◌, ◌<◌, refl, arith, Bool, true, false, Option, none, some, List,
  [], ◌∷◌, ◌++◌, if◌then◌else◌, ltb, length, get_elem?,
}
use mb_printer_cli.Common.Result.{ok}
use mb_printer_cli.Raster.{MonoRaster, IsRaster}
use mb_printer_cli.Raster.Scale.{scaled_height, scale_to_width}
use mb_printer_cli.Raster.ScaleLaws.{scale_to_width_lem}
use mb_printer_cli.Raster.Tiles.{steps, tiles}
use mb_printer_cli.Raster.Tiles.Cut.{tiles_lem}
use mb_printer_cli.Raster.Fit.{fit_to_box}
use mb_printer_cli.Raster.Fit.ByWidth.{fit_to_box-by_width}
use mb_printer_cli.Api.Jobs.Render.{fitted}
use mb_printer_cli.Api.Jobs.Render.Head.{fitted_total}
use mb_printer_cli.Transport.{capture, cancellable, new, delay, subscribe, write_bytes}
use mb_printer_cli.Transport.Cancelled.{
  Operation, subscribes, writes, delays, waits, cancels, run, only_delays, cancelled_stops,
}

-- Two rows of three pixels.
abbrev picture : MonoRaster
picture = record { width = 3; height = 2; pixels = 1 ∷ 0 ∷ 1 ∷ 0 ∷ 1 ∷ 1 ∷ [] }

picture-IsRaster : IsRaster picture
unfolding IsRaster
picture-IsRaster = (refl, (omega arith, omega arith))

halved :
    tiles picture 2 1
    ≡ some (
        ok (
          record { width = 2; height = 1; pixels = 1 ∷ 0 ∷ [] }
          ∷ record { width = 1; height = 1; pixels = 1 ∷ [] }
          ∷ record { width = 2; height = 1; pixels = 0 ∷ 1 ∷ [] }
          ∷ record { width = 1; height = 1; pixels = 1 ∷ [] }
          ∷ []))
unfolding tiles mb_printer_cli.Common.Grid.rows steps mb_printer_cli.Common.Grid.items
    mb_printer_cli.Raster.Tiles.tile_at mb_printer_cli.Raster.Tiles.tile_row
    mb_printer_cli.Common.Grid.slice
halved = refl

doubled :
    scale_to_width (record { width = 2; height = 1; pixels = 1 ∷ 0 ∷ [] }) 4
    ≡ some (ok (record { width = 4; height = 2; pixels = 1 ∷ 1 ∷ 0 ∷ 0 ∷ 1 ∷ 1 ∷ 0 ∷ 0 ∷ [] }))
unfolding scale_to_width scaled_height mb_printer_cli.Common.Grid.rows
    mb_printer_cli.Common.Grid.items mb_printer_cli.Raster.Scale.source_pixel
doubled = refl

in_box :
    fit_to_box (record { width = 2; height = 1; pixels = 1 ∷ 1 ∷ [] }) 2 3
    ≡ some (ok (record { width = 2; height = 3; pixels = 0 ∷ 0 ∷ 1 ∷ 1 ∷ 0 ∷ 0 ∷ [] }))
unfolding fit_to_box mb_printer_cli.Raster.Fit.place_scaled scale_to_width scaled_height
    mb_printer_cli.Common.Grid.rows mb_printer_cli.Common.Grid.items
    mb_printer_cli.Raster.Scale.source_pixel mb_printer_cli.Raster.Fit.place_rows
    mb_printer_cli.Raster.Fit.place_row mb_printer_cli.Common.Grid.slice
    mb_printer_cli.Raster.Fit.copy_row
in_box = refl

-- An image of one pixel by three in a box of two pixels by one: the height decides the scale, the width
-- is rounded up to one pixel, and the scaled image is higher than the box.
too_high : fit_to_box (record { width = 1; height = 3; pixels = 1 ∷ 1 ∷ 1 ∷ [] }) 2 1 ≡ none
unfolding fit_to_box mb_printer_cli.Raster.Fit.place_scaled scale_to_width scaled_height
    mb_printer_cli.Common.Grid.rows mb_printer_cli.Common.Grid.items
    mb_printer_cli.Raster.Scale.source_pixel
too_high = refl

tiles_lem_example :
    (output : List MonoRaster) × ((tiles picture 2 1 ≡ some (ok output))
      × (length output ≡ steps 2 1 * steps 3 2)
      × ((y x : ℕ)
          → y < 2
          → x < 3
          → (tile : MonoRaster) × ((get_elem? output (y / 1 * steps 3 2 + x / 2) ≡ some tile)
              × (get_elem? tile.pixels (y % 1 * tile.width + x % 2)
                  ≡ get_elem? picture.pixels (y * 3 + x)))))
tiles_lem_example = tiles_lem picture 2 1 picture-IsRaster (omega arith) (omega arith) (omega arith)

small_enough : 4 * scaled_height picture 4 < 4294967296
unfolding scaled_height
small_enough = omega arith

scale_to_width_lem_example :
    (scaled : MonoRaster) × ((scale_to_width picture 4 ≡ some (ok scaled))
      × (scaled.width ≡ 4)
      × (scaled.height ≡ scaled_height picture 4)
      × (length (scaled.pixels) ≡ scaled.height * 4)
      × ((y x : ℕ)
          → y < scaled.height
          → x < 4
          → get_elem? scaled.pixels (y * 4 + x)
            ≡ get_elem? picture.pixels (y * 2 / scaled.height * 3 + x * 3 / 4)))
scale_to_width_lem_example =
    scale_to_width_lem picture 4 picture-IsRaster (omega arith) (omega arith) (omega arith)
      (omega arith) small_enough

fit_to_box-by_width_example :
    (pixels : List ℕ) × ((fit_to_box picture 3 4
        ≡ some (ok (record { width = 3; height = 4; pixels = pixels })))
      × (length pixels ≡ 4 * 3))
fit_to_box-by_width_example =
    fit_to_box-by_width picture 3 4 picture-IsRaster (omega arith) (omega arith) (omega arith)
      (omega arith) (omega arith) (omega arith) (omega arith)

narrow_enough : 2 * scaled_height picture 2 < 4294967296
unfolding scaled_height
narrow_enough = omega arith

fitted_total_example :
    (r : MonoRaster) × ((fitted 2 true none picture ≡ some (ok r))
      × (r.width ≡ (if ltb 2 3 then 2 else 3)))
fitted_total_example =
    fitted_total 2 picture picture-IsRaster (omega arith) (omega arith) (omega arith) (omega arith)
      narrow_enough

abbrev before_cancel : List Operation
before_cancel = subscribes ∷ writes (7 ∷ []) ∷ []

abbrev after_cancel : List Operation
after_cancel = writes (8 ∷ []) ∷ delays 20 ∷ waits 5 ∷ []

cancelled_stops_example :
    run (cancellable capture) (before_cancel ++ (cancels ∷ after_cancel)) (new 64, false) ≡ (
      only_delays capture after_cancel (run (cancellable capture) before_cancel (new 64, false)).0,
      true,
    )
cancelled_stops_example = cancelled_stops capture before_cancel after_cancel (new 64, false)

captured :
    (run (cancellable capture) (before_cancel ++ (cancels ∷ after_cancel)) (new 64, false)).0.events
    ≡ subscribe ∷ write_bytes (7 ∷ []) ∷ delay 20 ∷ []
unfolding cancellable capture new
captured = refl
