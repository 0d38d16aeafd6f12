-- ===== src/Api/Jobs/Submission/Printable.antt =====
-- What the checks of `JobExecutor::submit` (src/api/jobs.rs) guarantee of an accepted request.
use mb_printer_cli.Common.{
  suc, ◌*◌, ◌≡◌, ◌≤◌, ◌<◌, refl, sym, ap, subst, ◌∙◌, arith, Bool, true, false, not, ◌&&◌, Option,
  some, ◌⊎◌, inl, inr, List, [], ◌∷◌, ltb, length, any, All, get_elem?,
}
use mb_printer_cli.Common.Text.{Text}
use mb_printer_cli.Common.Result.{ok, ◌>>=◌, ◌>>◌, reject_if, ok_or, >>=_ok, reject_if_ok}
use mb_printer_cli.Cloud.Request.{valid_rotation, IsRotation, valid_rotation-IsRotation}
use mb_printer_cli.Api.Errors.{ApiError, unprocessable, payload_too_large}
use mb_printer_cli.Api.Jobs.Continuous.{cut_plan}
use mb_printer_cli.Api.Jobs.Continuous.Cuts.{cut_plan_bounded}
use mb_printer_cli.Api.Jobs.Submission.{
  JobRequest, LoadedMedia, Connection, Document, Library, Prepared, same_presence, target_of,
  document_values, canonical_documents, differs, first_document, any_exceeds, invalid_options,
  with_target, with_values, with_documents, with_document, with_capability, with_plan, prepare,
}
use mb_printer_cli.Api.Jobs.Submission.Limits.{
  IsInRange, IsAlike, IsLoadable, invalid_options-IsInRange, none-All, differs-IsAlike,
  any_exceeds-IsLoadable,
}

length-canonical_documents :
    (lib : Library) (values : List Text) (documents : List Document)
    → canonical_documents lib values ≡ ok documents
    → length documents ≡ length values
unfolding canonical_documents
length-canonical_documents lib [] documents h =
    let e : [] ≡ documents = ground arith in ap length (sym e)
length-canonical_documents lib (value ∷ values) documents h =
    let (d, (_, g)) =
      >>=_ok (lib.canonical_document value)
        (λ document. canonical_documents lib values >>= λ ds. ok (document ∷ ds)) documents h in
    let (ds, (e, k)) = >>=_ok (canonical_documents lib values) (λ ds. ok (d ∷ ds)) documents g in
    let same : d ∷ ds ≡ documents = ground arith in
    ap length (sym same) ∙ ap (λ n. suc n) (length-canonical_documents lib values ds e)

-- What a request and what was prepared of it satisfy before anything is rendered.
pub IsPrintable : Library → JobRequest → Prepared → Type 0
IsPrintable lib r p =
    IsInRange r
    × IsRotation r.rotation
    × (0 < length p.documents)
    × (length p.documents ≤ lib.max_request_documents)
    × (r.copies * length p.documents < 65536)
    × (p.cut_every < 256)
    × All (λ d. lib.validate d ≡ true) p.documents
    × ((first : Document) × (get_elem? p.documents 0 ≡ some first)
        × All (IsAlike first) p.documents)
    × ((r.fit ≡ true) ⊎ IsLoadable lib r.rotation p.documents p.target.loaded_media)

checks_passed :
    {B : Type 0} (rotated fit larger : Bool) (e g : ApiError) (b p : B)
    → (reject_if (not rotated) e >> (reject_if (not fit && larger) g >> ok b)) ≡ ok p
    → (rotated ≡ true) × ((fit ≡ true) ⊎ (larger ≡ false)) × (b ≡ p)
checks_passed true true larger e g b p h = (refl, inl refl, ground arith)
checks_passed true false true e g b p h = absurd (ground arith)
checks_passed true false false e g b p h = (refl, inr refl, ground arith)
checks_passed false fit larger e g b p h = absurd (ground arith)

first_document_ok :
    (documents : List Document) (d : Document)
    → first_document documents ≡ ok d
    → (0 < length documents) × (get_elem? documents 0 ≡ some d)
first_document_ok [] d h = absurd (ground arith)
first_document_ok (x ∷ documents) d h = (omega arith, ground arith)

validated : (lib : Library) (d : Document) → not (lib.validate d) ≡ false → lib.validate d ≡ true
validated lib d h = ground arith

sized :
    (lib : Library) (r : JobRequest) (documents : List Document) (loaded : Option LoadedMedia)
    → IsRotation r.rotation
    → (r.fit ≡ true) ⊎ (any_exceeds lib r.rotation documents loaded ≡ false)
    → (r.fit ≡ true) ⊎ IsLoadable lib r.rotation documents loaded
sized lib r documents loaded t (inl e) = inl e
sized lib r documents loaded t (inr e) =
    inr (any_exceeds-IsLoadable lib r.rotation documents loaded t e)

-- A request that is accepted has a density from 1 to 8, at least one copy and a byte of payload, and a
-- rotation of 0, 90, 180 or 270; its documents are at least one, within the limit, valid, and of the
-- width, resolution and mode of the first; with the copies they make fewer than 65536 labels; the count
-- of labels between two cuts is a u8; and without `fit` each of them, turned by the rotation, is within
-- the known sizes of the loaded media: the width, and for a document of a fixed length the length too.
pub prepare-IsPrintable :
    (lib : Library) (connections : Text → Option Connection) (r : JobRequest) (p : Prepared)
    → prepare lib connections r ≡ ok p
    → IsPrintable lib r p
unfolding prepare IsPrintable
prepare-IsPrintable lib connections r p h0 =
    let found = target_of lib connections r.connection_id r.model r.transport in
    let (options, h1) =
      reject_if_ok (invalid_options r) (unprocessable "invalid print options")
        (reject_if (same_presence r.connection_id r.transport)
            (unprocessable "provide exactly one of connectionId or transport")
          >> (found >>= with_target lib r))
        p h0 in
    let (_, h2) =
      reject_if_ok (same_presence r.connection_id r.transport)
        (unprocessable "provide exactly one of connectionId or transport")
        (found >>= with_target lib r) p h1 in
    let (target, (_, h3)) = >>=_ok found (with_target lib r) p h2 in
    let (values, (given, h4)) =
      >>=_ok (document_values r.document r.documents) (with_values lib r target) p h3 in
    let (limit, h5) =
      reject_if_ok (ltb lib.max_request_documents (length values))
        (payload_too_large "batch document count exceeds processing limit")
        (canonical_documents lib values >>= with_documents lib r target) p h4 in
    let (documents, (canonical, h6)) =
      >>=_ok (canonical_documents lib values) (with_documents lib r target) p h5 in
    let (valid, h7) =
      reject_if_ok (any (λ d. not (lib.validate d)) documents)
        (unprocessable "document validation failed")
        (first_document documents >>= with_document lib r target documents) p h6 in
    let (first, (is_first, h8)) =
      >>=_ok (first_document documents) (with_document lib r target documents) p h7 in
    let known = ok_or (lib.by_id target.model) (unprocessable "unknown printer model") in
    let (uniform, h9) =
      reject_if_ok (any (differs first) documents)
        (unprocessable "batch documents must use the same roll width, DPI, and media mode")
        (known >>= with_capability lib r target documents first) p h8 in
    let (capability, (_, h10)) = >>=_ok known (with_capability lib r target documents first) p h9 in
    let (plan, (cuts, h11)) =
      >>=_ok
        (cut_plan lib.floats first.continuous first.height capability r.continuous r.copies
          (length documents))
        (with_plan lib r target documents) p h10 in
    let (labels, counted) =
      cut_plan_bounded lib.floats first.continuous first.height capability r.continuous r.copies
        (length documents) plan cuts in
    let (rotated, fits, made) =
      checks_passed (valid_rotation r.rotation) r.fit
        (any_exceeds lib r.rotation documents target.loaded_media)
        (unprocessable "invalid rotation")
        (unprocessable "document exceeds loaded media; set fit=true")
        (record { target = target; documents = documents; cut = plan.0; cut_every = plan.1 }) p
        h11 in
    let turned = valid_rotation-IsRotation r.rotation rotated in
    let (some_document, at_front) = first_document_ok documents first is_first in
    let n = length-canonical_documents lib values documents canonical in
    let below : length documents ≤ lib.max_request_documents = ground arith in
    subst (IsPrintable lib r) made (
      invalid_options-IsInRange r options,
      turned,
      some_document,
      below,
      labels,
      counted,
      none-All (λ d. lib.validate d ≡ true) (λ d. not (lib.validate d)) (validated lib) documents
          valid,
      (
        first,
        at_front,
        none-All (IsAlike first) (differs first) (differs-IsAlike first) documents uniform,
      ),
      sized lib r documents target.loaded_media turned fits,
    )
