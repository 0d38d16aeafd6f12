-- ===== src/Device/Ipp/Stream.antt =====
-- The loop of `parse_ipp` of src/device.rs as a reader of a stream: each turn consumes the bytes from
-- its tag on, and what is missing ends the loop.
use mb_printer_cli.Common.{
  ℕ, zero, suc, ◌+◌, ◌*◌, ◌&&◌, Option, none, some, List, [], ◌∷◌, if◌then◌else◌, ltb, leb, ◌==◌,
  length, take, drop,
}
use mb_printer_cli.Common.Text.{Text}
use mb_printer_cli.Device.Ipp.{Attributes, value_of, name_after, push_value}

-- `u16::from_be_bytes` at the head.
abbrev pub take_u16 : List ℕ → Option (ℕ × List ℕ)
take_u16 [] = none
take_u16 (a ∷ []) = none
take_u16 (a ∷ b ∷ rest) = some (a * 256 + b, rest)

-- The bytes of a value, if there are so many.
abbrev pub take_value : Option (ℕ × List ℕ) → Option (List ℕ × List ℕ)
take_value none = none
take_value (some (n, rest)) = if ltb (length rest) n then none else some (take n rest, drop n rest)

abbrev pub take_rest : Option (ℕ × List ℕ) → Option (List ℕ × (List ℕ × List ℕ))
take_rest none = none
take_rest (some (n, rest)) =
    if ltb (length rest) (n + 2) then none else elim (take_value (take_u16 (drop n rest))) [
      | none ↦ none
      | some pair ↦ some (take n rest, pair)
    ]

-- The name and the value behind a tag, with the bytes after them; `none` where the source breaks off.
unfoldable pub stream_attribute : List ℕ → Option (List ℕ × (List ℕ × List ℕ))
stream_attribute rest = take_rest (take_u16 rest)

pub data StreamTurn : Type 0 where
  stops : StreamTurn
  continues : List ℕ → Option Text → Attributes → StreamTurn

-- One turn of the loop, from the tag on.
unfoldable pub stream_turn : (List ℕ → Text) → ℕ → List ℕ → Option Text → Attributes → StreamTurn
unfolding stream_attribute
stream_turn lossy tag rest current r =
    if leb 1 tag && leb tag 5
    then (if tag == 3 then stops else continues rest current r)
    else elim (stream_attribute rest) [
      | none ↦ stops
      | some (name, (raw, after)) ↦
          let now = name_after lossy name current in
          continues after now (push_value now (value_of lossy tag raw) r)
    ]

-- The loop, on the bytes from the offset on; `none` if the fuel does not suffice.
unfoldable pub stream_from :
    (List ℕ → Text) → ℕ → List ℕ → Option Text → Attributes → Option Attributes
unfolding stream_turn
stream_from lossy zero rest current r = none
stream_from lossy (suc fuel) [] current r = some r
stream_from lossy (suc fuel) (tag ∷ rest) current r = elim (stream_turn lossy tag rest current r) [
  | stops ↦ some r
  | continues after now more ↦ stream_from lossy fuel after now more
]
