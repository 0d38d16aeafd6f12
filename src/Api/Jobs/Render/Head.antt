-- ===== src/Api/Jobs/Render/Head.antt =====
-- What reaches the printer's head (`api_render_for_printer`, src/api/jobs.rs).
use Prim.Native.String.{String}
use mb_printer_cli.Common.{
  ℕ, ◌*◌, ◌%◌, ◌≡◌, ◌≤◌, ◌<◌, refl, subst, inl, inr, arith, Bool, true, false, not, ◌||◌, Option,
  none, some, List, if◌then◌else◌, ltb, ◌==◌, Bool-cases,
}
use mb_printer_cli.Common.Grid.{items, rows}
use mb_printer_cli.Common.Result.{Result, ok, err}
use mb_printer_cli.Raster.{MonoRaster, IsRaster, u32_then}
use mb_printer_cli.Raster.Scale.{source_pixel, scaled_height, finished, scale_to_width}
use mb_printer_cli.Raster.ScaleLaws.{scale_to_width_lem}
use mb_printer_cli.Api.Errors.{ApiError, unprocessable}
use mb_printer_cli.Api.Jobs.Render.{Answer, ◌>>=?◌, map_err, fit_media, fit_head, fitted}

-- The width of the raster that an answer holds, and 0 where it holds none.
abbrev width_of : Answer MonoRaster → ℕ
width_of none = 0
width_of (some (err e)) = 0
width_of (some (ok r)) = r.width

width_of-finished :
    (w h : ℕ) (found : Option (List ℕ)) (e : ApiError)
    → width_of (map_err (finished w h found) e) ≤ w
width_of-finished w h none e = omega arith
width_of-finished w h (some pixels) e = omega arith

width_of_checked :
    (n w : ℕ) (k : ℕ → Option (Result String MonoRaster)) (e : ApiError)
    → width_of (map_err (k n) e) ≤ w
    → width_of (map_err (u32_then n k) e) ≤ w
width_of_checked n w k e h = elim (Bool-cases (ltb n 4294967296)) [
  | inl b ↦ rw (b) h
  | inr b ↦ let z : 0 ≤ w = omega arith in rw (b) z
]

-- A scaled raster is as wide as was asked.
width_of_scaled :
    (image : MonoRaster) (w : ℕ) (e : ApiError) → width_of (map_err (scale_to_width image w) e) ≤ w
unfolding scale_to_width
width_of_scaled image w e =
    let h = scaled_height image w % 4294967296 in
    let found = rows h 0 (λ y. items w 0 (source_pixel image w h y)) in
    elim (Bool-cases (w == 0 || image.width == 0 || image.height == 0)) [
      | inl b ↦ let z : 0 ≤ w = omega arith in rw (b) z
      | inr b ↦
          rw (b)
            (width_of_checked (w * h) w (λ _. finished w h found) e (width_of-finished w h found e))
    ]

width_of-fit_head :
    (head : ℕ) (fit : Bool) (mono : MonoRaster) → width_of (fit_head head fit mono) ≤ head
unfolding fit_head
width_of-fit_head head fit mono =
    let scaled = width_of_scaled mono head (unprocessable "document cannot be fitted") in
    elim (Bool-cases (ltb head mono.width)) [
      | inl b ↦
          rw (b)
            (elim fit
              as (λ x.
                width_of (
                  if not x
                  then some
                      (err (unprocessable "rendered document exceeds printer head; set fit=true"))
                  else map_err (scale_to_width mono head)
                      (unprocessable "document cannot be fitted"))
                ≤ head) [ true ↦ scaled | false ↦ omega arith ])
      | inr b ↦ let narrow : mono.width ≤ head = ground arith in rw (b) narrow
    ]

width_of_next :
    (head : ℕ) (fit : Bool) (found : Answer MonoRaster)
    → width_of (found >>=? fit_head head fit) ≤ head
width_of_next head fit none = omega arith
width_of_next head fit (some (err e)) = omega arith
width_of_next head fit (some (ok mono)) = width_of-fit_head head fit mono

-- Whatever was rendered, turned and fitted, the raster that is placed on the head is no wider than
-- the head.
pub fitted_le :
    (head : ℕ) (fit : Bool) (media_box : Option (ℕ × ℕ)) (mono r : MonoRaster)
    → fitted head fit media_box mono ≡ some (ok r)
    → r.width ≤ head
unfolding fitted
fitted_le head fit media_box mono r h =
    subst (λ found. width_of found ≤ head) h
      (width_of_next head fit (fit_media head fit media_box mono))

-- With `fit`, and without the size of loaded media, a raster whose pixels fill its rows and whose
-- sizes and number of pixels are u32, before and after the scaling, and that is not empty, is never
-- refused: it comes out as wide as it was, or as the head where the head is narrower.
pub fitted_total :
    (head : ℕ) (mono : MonoRaster)
    → IsRaster mono
    → mono.height * mono.width < 4294967296
    → 0 < mono.width
    → 0 < mono.height
    → 0 < head
    → head * scaled_height mono head < 4294967296
    → (r : MonoRaster) × ((fitted head true none mono ≡ some (ok r))
        × (r.width ≡ (if ltb head mono.width then head else mono.width)))
unfolding fitted fit_media fit_head
fitted_total head mono r fits pw ph pos small = elim (Bool-cases (ltb head mono.width)) [
  | inl b ↦
      let (scaled, (e, w, _, _, _)) = scale_to_width_lem mono head r fits pw ph pos small in
      (scaled, (rw (b, e) refl, rw (b) w))
  | inr b ↦ (mono, (rw (b) refl, rw (b) refl))
]
