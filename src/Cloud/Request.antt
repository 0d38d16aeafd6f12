-- ===== src/Cloud/Request.antt =====
-- The print request of src/cloud/store.rs, its wire format behind parameters, and its validation.
use mb_printer_cli.Common.{
  ℕ, ◌≡◌, ◌≢◌, ◌≤◌, ◌⊎◌, refl, arith, Bool, true, false, not, ◌&&◌, ◌||◌, Option, none, some, List,
  [], ◌∷◌, ◌==◌, leb, is_some, inl, inr,
}
use mb_printer_cli.Common.Text.{Text, is_empty}

pub data ContinuousCutMode : Type 0 where
  after_each after_job no_cut : ContinuousCutMode

pub record ContinuousPrintOptions : Type 0 where
  pub cut_mode : ContinuousCutMode
  pub extra_feed_before_mm : ℕ  -- the bits of an f64
  pub extra_feed_after_mm : ℕ  -- the bits of an f64
  pub chain_copies : Bool

-- A JSON value stands as its text.
pub record CloudPrintRequest : Type 0 where
  pub document : Option Text
  pub documents : List Text
  pub model : Text
  pub dpi : Option ℕ  -- u16
  pub rotation : ℕ  -- u16
  pub fit : Bool
  pub density : ℕ  -- u8
  pub copies : ℕ  -- u16
  pub payload_limit : ℕ
  pub continuous : Option ContinuousPrintOptions

-- Code outside the repository: the `uuid`, `sha2` and `serde_json` crates.
pub record Wire : Type 0 where
  pub parse_uuid : Text → Option ℕ
  pub sha256_hex : List ℕ → Text
  pub decode_request : List ℕ → Option CloudPrintRequest
  pub encode_request : CloudPrintRequest → Option Text

abbrev pub no_documents : List Text → Bool
no_documents List.[] = true
no_documents (List.◌∷◌ d ds) = false

-- `matches!(rotation, 0 | 90 | 180 | 270)`
unfoldable pub valid_rotation : ℕ → Bool
valid_rotation r = r == 0 || r == 90 || r == 180 || r == 270

abbrev same : Bool → Bool → Bool
same true b = b
same false b = not b

-- The condition under which `receive` answers `InvalidRequest`.
unfoldable pub invalid_request : CloudPrintRequest → Bool
unfolding valid_rotation
invalid_request r =
    same (is_some r.document) (not (no_documents r.documents))
    || is_empty r.model
    || r.copies == 0
    || not (leb 1 r.density && leb r.density 8)
    || r.payload_limit == 0
    || not (valid_rotation r.rotation)

-- The quarter turns.
abbrev pub IsRotation : ℕ → Type 0
IsRotation r = (r ≡ 0) ⊎ ((r ≡ 90) ⊎ ((r ≡ 180) ⊎ (r ≡ 270)))

pub valid_rotation-IsRotation : (r : ℕ) → valid_rotation r ≡ true → IsRotation r
unfolding valid_rotation
valid_rotation-IsRotation r h = ground arith

-- One document, or a batch that is not empty, and not both.
abbrev pub IsSingle : Option Text → List Text → Type 0
IsSingle document documents =
    ((d : Text) × (document ≡ some d) × (documents ≡ []))
    ⊎ ((document ≡ none) × ((d : Text) × (ds : List Text) × (documents ≡ d ∷ ds)))

IsSingle-cases :
    (document : Option Text) (documents : List Text)
    → same (is_some document) (not (no_documents documents)) ≡ false
    → IsSingle document documents
IsSingle-cases none [] h = absurd (ground arith)
IsSingle-cases none (d ∷ ds) h = inr (refl, (d, ds, refl))
IsSingle-cases (some d) [] h = inl (d, refl, refl)
IsSingle-cases (some d) (e ∷ ds) h = absurd (ground arith)

-- A request that can be printed: one document or a batch, a model, at least one copy, a density from
-- 1 to 8, a payload limit that is not zero, and a quarter turn.
pub record IsValid (r : CloudPrintRequest) : Type 0 where
  pub single : IsSingle r.document r.documents
  pub named : r.model ≢ []
  pub copied : 1 ≤ r.copies
  pub dense : (1 ≤ r.density) × (r.density ≤ 8)
  pub limited : 1 ≤ r.payload_limit
  pub turned : IsRotation r.rotation

pub invalid_request-IsValid : (r : CloudPrintRequest) → invalid_request r ≡ false → IsValid r
unfolding invalid_request
invalid_request-IsValid r h = record {
  single = IsSingle-cases r.document r.documents (ground arith);
  named = λ e. ground arith;
  copied = ground arith;
  dense = ground arith;
  limited = ground arith;
  turned = valid_rotation-IsRotation r.rotation (ground arith);
}
