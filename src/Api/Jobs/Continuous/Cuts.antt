-- ===== src/Api/Jobs/Continuous/Cuts.antt =====
-- Which options of continuous media `submit` (src/api/jobs.rs) accepts, and how often it then cuts.
use mb_printer_cli.Common.{
  ℕ, ◌*◌, ◌≡◌, ◌<◌, subst, ltb→lt, arith, Bool, true, false, not, ◌&&◌, ◌||◌, Option, none, some,
  if◌then◌else◌, ltb, any,
}
use mb_printer_cli.Common.Result.{Result, ok, err, >>=_ok}
use mb_printer_cli.Cloud.Request.{
  ContinuousCutMode, after_each, after_job, no_cut, ContinuousPrintOptions,
}
use mb_printer_cli.Api.Errors.{ApiError}
use mb_printer_cli.Api.Jobs.Continuous.{
  Floats, ContinuousMedia, same_mode, outside, check_feeds, counts_labels, cut_every, job_options,
  continuous_protocol_options, total_labels, cut_counter_labels, cut_plan,
}

abbrev pub answer_of {ℓ κ} : {E : Type ℓ} {A : Type κ} → Result E A → Option A
answer_of (ok a) = some a
answer_of (err e) = none

-- The labels that come out between two cuts, or 1 where the printer counts none.
abbrev pub labels_per_cut : ContinuousCutMode → Bool → ℕ → ℕ → ℕ
labels_per_cut after_job chained copies documents = copies * documents
labels_per_cut after_each true copies documents = copies
labels_per_cut after_each false copies documents = 1
labels_per_cut no_cut chained copies documents = 1

abbrev pub feed_allowed : Floats → ContinuousMedia → ℕ → Bool
feed_allowed f c feed =
    f.is_finite feed && not (outside f c.minimum_extra_feed_mm c.maximum_extra_feed_mm feed)

-- Everything that a request for continuous media has to satisfy.
abbrev pub admissible : Floats → ContinuousMedia → ContinuousPrintOptions → ℕ → ℕ → ℕ → Bool
admissible f c job height copies documents =
    c.supported
    && not (outside f c.minimum_length_mm c.maximum_length_mm (f.thousandth height))
    && any (same_mode job.cut_mode) c.cut_modes
    && (not job.chain_copies || c.supports_chained_raster)
    && feed_allowed f c job.extra_feed_before_mm
    && feed_allowed f c job.extra_feed_after_mm
    && ltb (copies * documents) 65536
    && ltb (labels_per_cut job.cut_mode job.chain_copies copies documents) 256

-- For a document on continuous media, a printer with a description of such media and a request with
-- options for it, the decision of `submit` is: to cut unless the mode is `None`, counting all labels
-- for `AfterJob`, the copies of a document for chained `AfterEach`, and one label otherwise, if the
-- media are supported, the length, the cut mode, the chaining and both feeds are within what they
-- offer, the number of labels is a u16 and the number that is counted a u8; and a refusal if not.
pub cut_plan_exact :
    (f : Floats) (c : ContinuousMedia) (mode : ContinuousCutMode) (before after : ℕ) (chain : Bool)
    (height copies documents : ℕ)
    → let job : ContinuousPrintOptions = record {
      cut_mode = mode;
      extra_feed_before_mm = before;
      extra_feed_after_mm = after;
      chain_copies = chain;
    } in
      answer_of (cut_plan f true height (some c) (some job) copies documents) ≡ (
        if admissible f c job height copies documents
        then some (not (same_mode mode no_cut), labels_per_cut mode chain copies documents)
        else none)
unfolding cut_plan continuous_protocol_options total_labels cut_counter_labels job_options
    check_feeds cut_every counts_labels
cut_plan_exact f c after_each before after true height copies documents = ground arith
cut_plan_exact f c after_each before after false height copies documents = ground arith
cut_plan_exact f c after_job before after true height copies documents = ground arith
cut_plan_exact f c after_job before after false height copies documents = ground arith
cut_plan_exact f c no_cut before after true height copies documents = ground arith
cut_plan_exact f c no_cut before after false height copies documents = ground arith

-- What an accepted plan holds, and 0 where there is none.
abbrev counted : Result ApiError (Bool × ℕ) → ℕ
counted (ok plan) = plan.1
counted (err e) = 0

counted-job_options :
    (f : Floats) (c : ContinuousMedia) (job : ContinuousPrintOptions) (copies : ℕ)
    → counted (job_options f c job copies) < 256
unfolding job_options check_feeds cut_every counts_labels
counted-job_options f c job copies = ground arith

counted-options :
    (f : Floats) (continuous : Bool) (height : ℕ) (capability : Option ContinuousMedia)
    (job : Option ContinuousPrintOptions) (copies : ℕ)
    → counted (continuous_protocol_options f continuous height capability job copies) < 256
unfolding continuous_protocol_options
counted-options f false height capability none copies = omega arith
counted-options f false height capability (some job) copies = omega arith
counted-options f true height none job copies = omega arith
counted-options f true height (some c) none copies = ground arith
counted-options f true height (some c) (some job) copies =
    ground (arith, counted-job_options f c job copies)

-- An accepted plan has a u16 of labels, and counts a u8 of them between two cuts.
pub cut_plan_bounded :
    (f : Floats) (continuous : Bool) (height : ℕ) (capability : Option ContinuousMedia)
    (job : Option ContinuousPrintOptions) (copies documents : ℕ) (plan : Bool × ℕ)
    → cut_plan f continuous height capability job copies documents ≡ ok plan
    → (copies * documents < 65536) × (plan.1 < 256)
unfolding cut_plan total_labels
cut_plan_bounded f continuous height capability job copies documents plan h =
    let (total, (e, g)) =
      >>=_ok (total_labels copies documents)
        (λ total.
          continuous_protocol_options f continuous height capability job
            (cut_counter_labels job copies total))
        plan h in
    let bound =
      counted-options f continuous height capability job (cut_counter_labels job copies total) in
    let small : ltb (copies * documents) 65536 ≡ true = ground arith in
    (ltb→lt (copies * documents) 65536 small, subst (λ r. counted r < 256) g bound)
