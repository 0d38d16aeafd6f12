-- ===== src/Api/Jobs/Continuous.antt =====
-- The labels of a batch and the cuts of continuous media (`continuous_protocol_options` and the part
-- of `JobExecutor::submit` before it, src/api/jobs.rs).
pub mod Cuts
use mb_printer_cli.Common.{
  ℕ, ◌*◌, Bool, true, false, not, ◌&&◌, ◌||◌, Option, none, some, List, [], ◌∷◌, if◌then◌else◌, ltb,
  any,
}
use mb_printer_cli.Common.Result.{Result, ok, err, ◌>>=◌, ◌>>◌, reject_if}
use mb_printer_cli.Cloud.Request.{
  ContinuousCutMode, after_each, after_job, no_cut, ContinuousPrintOptions,
}
use mb_printer_cli.Api.Errors.{ApiError, unprocessable}

-- The f64 of the language, by their bits: `<`, `is_finite` and `n as f64 / 1_000.0`.
pub record Floats : Type 0 where
  pub lt : ℕ → ℕ → Bool
  pub is_finite : ℕ → Bool
  pub thousandth : ℕ → ℕ

-- What the source reads of the continuous media of a printer, a type of the SDK.
pub record ContinuousMedia : Type 0 where
  pub supported : Bool
  pub minimum_length_mm : ℕ
  pub maximum_length_mm : ℕ
  pub cut_modes : List ContinuousCutMode
  pub supports_chained_raster : Bool
  pub minimum_extra_feed_mm : ℕ
  pub maximum_extra_feed_mm : ℕ

abbrev pub same_mode : ContinuousCutMode → ContinuousCutMode → Bool
same_mode after_each after_each = true
same_mode after_job after_job = true
same_mode no_cut no_cut = true
same_mode _ _ = false

-- `.filter(|capability| capability.supported)`
abbrev pub qualified : Option ContinuousMedia → Option ContinuousMedia
qualified none = none
qualified (some c) = if c.supported then some c else none

abbrev pub outside : Floats → ℕ → ℕ → ℕ → Bool
outside f low high x = f.lt x low || f.lt high x

-- The tests of the loop over the two extra feeds.
unfoldable pub check_feeds : Floats → ContinuousMedia → List ℕ → Result ApiError (Unit {0})
check_feeds f c [] = ok tt
check_feeds f c (feed ∷ feeds) =
    let rest = check_feeds f c feeds in
    if not (f.is_finite feed) || outside f c.minimum_extra_feed_mm c.maximum_extra_feed_mm feed
    then err (unprocessable "continuous extra feed is outside the printer capability range")
    else rest

-- Whether the printer counts labels between two cuts.
unfoldable pub counts_labels : ContinuousPrintOptions → Bool
counts_labels job =
    same_mode job.cut_mode after_job || (same_mode job.cut_mode after_each && job.chain_copies)

-- `u8::try_from`
unfoldable pub cut_every : ContinuousPrintOptions → ℕ → Result ApiError ℕ
cut_every job copies =
    if counts_labels job
    then (if ltb copies 256
        then ok copies
        else err (unprocessable "copy count exceeds cut-every range"))
    else ok 1

unfoldable pub job_options :
    Floats → ContinuousMedia → ContinuousPrintOptions → ℕ → Result ApiError (Bool × ℕ)
job_options f c job copies = do
  reject_if (not (any (same_mode job.cut_mode) c.cut_modes))
      (unprocessable "requested continuous cut mode is unsupported by this printer")
  reject_if (job.chain_copies && not c.supports_chained_raster)
      (unprocessable "printer does not support chained continuous rasters")
  check_feeds f c (job.extra_feed_before_mm ∷ job.extra_feed_after_mm ∷ [])
  every ← cut_every job copies
  ok (not (same_mode job.cut_mode no_cut), every)

abbrev pub chosen :
    Floats → ContinuousMedia → Option ContinuousPrintOptions → ℕ → Result ApiError (Bool × ℕ)
chosen f c none copies = ok (true, 1)
chosen f c (some job) copies = job_options f c job copies

abbrev pub on_capability :
    Floats
    → ℕ
    → Option ContinuousPrintOptions
    → ℕ
    → Option ContinuousMedia
    → Result ApiError (Bool × ℕ)
on_capability f height job copies none =
    err (unprocessable "printer does not support qualified continuous-media jobs")
on_capability f height job copies (some c) =
    if outside f c.minimum_length_mm c.maximum_length_mm (f.thousandth height)
    then err (unprocessable "continuous document length is outside the printer capability range")
    else chosen f c job copies

abbrev pub on_sheets : Option ContinuousPrintOptions → Result ApiError (Bool × ℕ)
on_sheets none = ok (true, 1)
on_sheets (some job) = err (unprocessable "continuous print options require continuous media")

-- `continuous` and `height` are those of the document's media.
unfoldable pub continuous_protocol_options :
    Floats
    → Bool
    → ℕ
    → Option ContinuousMedia
    → Option ContinuousPrintOptions
    → ℕ
    → Result ApiError (Bool × ℕ)
continuous_protocol_options f continuous height capability job copies =
    if continuous then on_capability f height job copies (qualified capability) else on_sheets job

-- `total_labels` of `submit`: the product of the copies and the documents, a u16.
unfoldable pub total_labels : ℕ → ℕ → Result ApiError ℕ
total_labels copies documents =
    if ltb (copies * documents) 65536
    then ok (copies * documents)
    else err (unprocessable "batch label count exceeds range")

unfoldable pub cut_counter_labels : Option ContinuousPrintOptions → ℕ → ℕ → ℕ
cut_counter_labels none copies total = total
cut_counter_labels (some job) copies total =
    if job.chain_copies && same_mode job.cut_mode after_each then copies else total

-- The part of `submit` that decides whether the printer cuts, and after how many labels.
unfoldable pub cut_plan :
    Floats
    → Bool
    → ℕ
    → Option ContinuousMedia
    → Option ContinuousPrintOptions
    → ℕ
    → ℕ
    → Result ApiError (Bool × ℕ)
cut_plan f continuous height capability job copies documents = do
  total ← total_labels copies documents
  continuous_protocol_options f continuous height capability job
      (cut_counter_labels job copies total)
