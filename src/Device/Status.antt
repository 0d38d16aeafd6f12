-- ===== src/Device/Status.antt =====
-- `brother_status` of src/device.rs. Each index into the response is an `Option`, and an index out
-- of range, a panic of the source, is `none`.
use Prim.Native.String.{String}
use mb_printer_cli.Common.{
  ℕ, zero, suc, ◌/◌, ◌%◌, ◌^◌, ◌≡◌, ◌≤◌, ◌<◌, ◌↔◌, refl, Bool, true, false, not, ◌&&◌, Option, none,
  some, List, [], ◌∷◌, ◌++◌, arith, if◌then◌else◌, ltb, ◌==◌, length, get_elem?, is_some,
  Bool-cases, inl, inr,
}
use mb_printer_cli.Common.Text.{Text, codes}
use mb_printer_cli.Common.Strings.{show_hex2}
use mb_printer_cli.Common.Result.{Result, ok, err}

pub record BrotherStatus : Type 0 where
  pub media_width_mm : ℕ
  pub media_length_mm : ℕ
  pub media_type : Text
  pub status_type : Text
  pub phase : Text
  pub errors : List Text

-- `byte & (1 << bit) != 0`
abbrev pub has_bit : ℕ → ℕ → Bool
has_bit byte bit = byte / 2 ^ bit % 2 == 1

unfoldable pub faults : ℕ → List (ℕ × Text) → List Text
faults byte [] = []
faults byte ((bit, message) ∷ table) =
    let rest = faults byte table in if has_bit byte bit then message ∷ rest else rest

abbrev pub first_faults : List (ℕ × Text)
first_faults =
    (0, codes "no media")
    ∷ (1, codes "end of media")
    ∷ (2, codes "cutter jam")
    ∷ (4, codes "unit in use")
    ∷ (5, codes "printer off")
    ∷ (7, codes "fan failure")
    ∷ []

abbrev pub second_faults : List (ℕ × Text)
second_faults =
    (0, codes "replace media")
    ∷ (1, codes "expansion buffer full")
    ∷ (2, codes "transmission error")
    ∷ (4, codes "cover opened while printing")
    ∷ (6, codes "media cannot be fed")
    ∷ (7, codes "system error")
    ∷ []

-- The closure `name`.
unfoldable pub name : ℕ → List (ℕ × Text) → Text
name value [] = codes "unknown 0x" ++ show_hex2 value
name value ((key, known) ∷ table) = if key == value then known else name value table

unfoldable pub read_status : ℕ → ℕ → ℕ → ℕ → ℕ → ℕ → ℕ → BrotherStatus
unfolding faults name
read_status first second width type length_mm status phase = record {
  media_width_mm = width;
  media_length_mm = length_mm;
  media_type =
      name type ((0, codes "no media") ∷ (0x0a, codes "continuous") ∷ (0x0b, codes "die-cut") ∷ []);
  status_type = name status (
      (0, codes "reply to status request")
      ∷ (1, codes "printing completed")
      ∷ (2, codes "error")
      ∷ (5, codes "notification")
      ∷ (6, codes "phase change")
      ∷ []);
  phase = name phase ((0, codes "waiting to receive") ∷ (1, codes "printing") ∷ []);
  errors = faults first first_faults ++ faults second second_faults;
}

abbrev at {ℓ} : {A : Type ℓ} → List ℕ → ℕ → (ℕ → Option A) → Option A
at bytes i rest = elim (get_elem? bytes i) [ none ↦ none | some b ↦ rest b ]

-- `data[..3] != [0x80, 0x20, 0x42]`
abbrev pub has_header : List ℕ → Bool
has_header (a ∷ b ∷ c ∷ rest) = a == 0x80 && b == 0x20 && c == 0x42
has_header (a ∷ b ∷ []) = false
has_header (a ∷ []) = false
has_header [] = false

abbrev fields : List ℕ → Option (Result String BrotherStatus)
fields bytes = at bytes 8 λ first. at bytes 9 λ second. at bytes 10 λ width. at bytes 11 λ type.
    at bytes 17 λ length_mm. at bytes 18 λ status.
      at bytes 19 λ phase. some (ok (read_status first second width type length_mm status phase))

unfoldable pub brother_status : List ℕ → Option (Result String BrotherStatus)
unfolding read_status
brother_status bytes =
    if ltb (length bytes) 32
    then some (err "short Brother status response")
    else if not (has_header bytes)
    then some (err "invalid Brother status header")
    else fields bytes

get_elem?-some :
    (bytes : List ℕ) (i : ℕ) → i < length bytes → (b : ℕ) × (get_elem? bytes i ≡ some b)
get_elem?-some [] i h = absurd (omega arith)
get_elem?-some (b ∷ bytes) zero h = (b, refl)
get_elem?-some (b ∷ bytes) (suc i) h = get_elem?-some bytes i (omega arith)

abbrev pub is_status : Option (Result String BrotherStatus) → Bool
is_status none = false
is_status (some (ok s)) = true
is_status (some (err e)) = false

fields_read : (bytes : List ℕ) → 32 ≤ length bytes → is_status (fields bytes) ≡ true
fields_read bytes h =
    let (a, p) = get_elem?-some bytes 8 (omega arith) in
    let (b, q) = get_elem?-some bytes 9 (omega arith) in
    let (c, r) = get_elem?-some bytes 10 (omega arith) in
    let (d, s) = get_elem?-some bytes 11 (omega arith) in
    let (e, t) = get_elem?-some bytes 17 (omega arith) in
    let (f, u) = get_elem?-some bytes 18 (omega arith) in
    let (g, v) = get_elem?-some bytes 19 (omega arith) in ground (arith, p, q, r, s, t, u, v)

is_status_some : (r : Option (Result String BrotherStatus)) → is_status r ≡ true → is_some r ≡ true
is_status_some none h = absurd (ground arith)
is_status_some (some r) h = refl

-- No response, however short, is read out of range; a status is read exactly from a response of at
-- least 32 bytes that starts with the header.
pub brother_status-total :
    (bytes : List ℕ)
    → (is_some (brother_status bytes) ≡ true)
      × ((is_status (brother_status bytes) ≡ true)
          ↔ ((32 ≤ length bytes) × (has_header bytes ≡ true)))
unfolding brother_status
brother_status-total bytes = elim (Bool-cases (ltb (length bytes) 32)) [
  | inl e ↦ (
    rw (e, brother_status, is_some) refl,
    (λ h. absurd (ground arith), λ h. absurd (ground arith)),
  )
  | inr e ↦ elim (Bool-cases (has_header bytes)) [
    | inr f ↦ (
      rw (e, f, brother_status, is_some) refl,
      (λ h. absurd (ground arith), λ h. absurd (ground arith)),
    )
    | inl f ↦
        let long : 32 ≤ length bytes = ground arith in
        let read = fields_read bytes long in
        (
          rw (e, f, brother_status) (is_status_some (fields bytes) read),
          (λ h. (long, f), λ h. rw (e, f, brother_status) read),
        )
  ]
]
