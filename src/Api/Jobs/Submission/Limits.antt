-- ===== src/Api/Jobs/Submission/Limits.antt =====
-- What the checks of `JobExecutor::submit` (src/api/jobs.rs) require, written out: the options, the
-- documents of a batch, and their size on the loaded media.
use mb_printer_cli.Common.{
  ℕ, ◌≡◌, ◌≤◌, ◌⊎◌, refl, inl, inr, arith, Bool, true, false, not, ◌&&◌, ◌||◌, Option, none, some,
  List, [], ◌∷◌, any, All, Bool-cases,
}
use mb_printer_cli.Cloud.Request.{IsRotation}
use mb_printer_cli.Api.Jobs.Submission.{
  JobRequest, LoadedMedia, Document, Library, differs, beyond, exceeds_media, any_exceeds,
  invalid_options,
}

-- The density is from 1 to 8, and there is at least one copy and a byte of payload.
pub record IsInRange (r : JobRequest) : Type 0 where
  pub dense : (1 ≤ r.density) × (r.density ≤ 8)
  pub copied : 1 ≤ r.copies
  pub limited : 1 ≤ r.payload_limit

pub invalid_options-IsInRange : (r : JobRequest) → invalid_options r ≡ false → IsInRange r
unfolding invalid_options
invalid_options-IsInRange r h = record {
  dense = ground arith;
  copied = ground arith;
  limited = ground arith;
}

module _ {A : Type 0} (P : A → Type 0) (p : A → Bool) (f : (a : A) → p a ≡ false → P a) where
  -- No item passes the test, so all satisfy what its failure means.
  pub none-All : (xs : List A) → any p xs ≡ false → All P xs
  none-All [] h = tt
  none-All (x ∷ xs) h = elim (Bool-cases (p x)) [
    | inl e ↦ absurd (ground arith)
    | inr e ↦ (f x e, none-All xs (ground arith))
  ]

-- The document has the mode, width and resolution of the other.
abbrev pub IsAlike : Document → Document → Type 0
IsAlike first d = (d.continuous ≡ first.continuous) × (d.width ≡ first.width) × (d.dpi ≡ first.dpi)

pub differs-IsAlike : (first d : Document) → differs first d ≡ false → IsAlike first d
differs-IsAlike first d h = ground arith

-- The length in micrometres is not more than half a millimetre above the size, where one is known.
abbrev pub IsWithin : Library → ℕ → Option ℕ → Type 0
IsWithin lib length size =
    (size ≡ none)
    ⊎ ((mm : ℕ) × (size ≡ some mm)
        × (lib.exceeds_by_half (lib.floats.thousandth length) mm ≡ false))

IsWithin-cases :
    (lib : Library) (n : ℕ) (size : Option ℕ) → beyond lib size n ≡ false → IsWithin lib n size
IsWithin-cases lib n none h = inl refl
IsWithin-cases lib n (some mm) h = inr (mm, refl, h)

-- A document whose sides across and along the media are given fits: the side along the media only
-- counts for a document of a fixed length.
abbrev pub IsPlaced : Library → LoadedMedia → Document → ℕ → ℕ → Type 0
IsPlaced lib media d across along =
    IsWithin lib across media.width_mm
    × ((d.continuous ≡ true) ⊎ IsWithin lib along media.length_mm)

-- The document, turned by the rotation, fits on the media.
abbrev pub IsFitting : Library → ℕ → LoadedMedia → Document → Type 0
IsFitting lib rotation media d =
    (((rotation ≡ 0) ⊎ (rotation ≡ 180)) × IsPlaced lib media d d.width d.height)
    ⊎ (((rotation ≡ 90) ⊎ (rotation ≡ 270)) × IsPlaced lib media d d.height d.width)

IsPlaced-cases :
    (lib : Library) (media : LoadedMedia) (d : Document) (across along : ℕ)
    → (beyond lib media.width_mm across || (not d.continuous && beyond lib media.length_mm along))
      ≡ false
    → IsPlaced lib media d across along
IsPlaced-cases lib media d across along h = (
  IsWithin-cases lib across media.width_mm (ground arith),
  elim (Bool-cases d.continuous) [
    | inl e ↦ inl e
    | inr e ↦ inr (IsWithin-cases lib along media.length_mm (ground arith))
  ],
)

pub exceeds_media-IsFitting :
    (lib : Library) (rotation : ℕ) (media : LoadedMedia)
    → IsRotation rotation
    → (d : Document) → exceeds_media lib rotation media d ≡ false
    → IsFitting lib rotation media d
unfolding exceeds_media
exceeds_media-IsFitting lib rotation media (inl e) d h =
    inl (inl e, IsPlaced-cases lib media d d.width d.height (rw e at h))
exceeds_media-IsFitting lib rotation media (inr (inl e)) d h =
    inr (inl e, IsPlaced-cases lib media d d.height d.width (rw e at h))
exceeds_media-IsFitting lib rotation media (inr (inr (inl e))) d h =
    inl (inr e, IsPlaced-cases lib media d d.width d.height (rw e at h))
exceeds_media-IsFitting lib rotation media (inr (inr (inr e))) d h =
    inr (inr e, IsPlaced-cases lib media d d.height d.width (rw e at h))

-- Every document fits on the media that are loaded, where they are known.
abbrev pub IsLoadable : Library → ℕ → List Document → Option LoadedMedia → Type 0
IsLoadable lib rotation documents loaded =
    (loaded ≡ none)
    ⊎ ((media : LoadedMedia) × (loaded ≡ some media) × All (IsFitting lib rotation media) documents)

pub any_exceeds-IsLoadable :
    (lib : Library) (rotation : ℕ) (documents : List Document) (loaded : Option LoadedMedia)
    → IsRotation rotation
    → any_exceeds lib rotation documents loaded ≡ false
    → IsLoadable lib rotation documents loaded
any_exceeds-IsLoadable lib rotation documents none r h = inl refl
any_exceeds-IsLoadable lib rotation documents (some media) r h = inr (
  media,
  refl,
  none-All (IsFitting lib rotation media) (exceeds_media lib rotation media)
      (exceeds_media-IsFitting lib rotation media r) documents h,
)
