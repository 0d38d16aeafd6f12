-- ===== src/Device/Ipp/Total.antt =====
-- `parse_ipp` of src/device.rs ends on every input, without an index out of range.
use mb_printer_cli.Common.{
  ℕ, zero, suc, ◌+◌, ◌≡◌, ◌≤◌, ◌<◌, refl, true, Option, none, some, List, [], ◌∷◌, arith, length,
  drop, length-drop, is_some, leb, ◌&&◌, Bool-cases, Option-cases, ◌⊎◌, inl, inr, ◌*◌,
}
use mb_printer_cli.Common.Text.{Text}
use mb_printer_cli.Device.Ipp.{Attributes, parse_ipp}
use mb_printer_cli.Device.Ipp.Offsets.{parse_from-stream_from}
use mb_printer_cli.Device.Ipp.Stream.{
  StreamTurn, stops, continues, take_u16, take_value, take_rest, stream_attribute, stream_turn,
  stream_from,
}

take_value-length :
    (n : ℕ) (rest value after : List ℕ)
    → take_value (some (n, rest)) ≡ some (value, after)
    → length after ≤ length rest
take_value-length n rest value after h = ground (arith, length-drop n rest)

u16_value-length :
    (rest value after : List ℕ)
    → take_value (take_u16 rest) ≡ some (value, after)
    → length after ≤ length rest
u16_value-length [] value after h = absurd (ground arith)
u16_value-length (a ∷ []) value after h = absurd (ground arith)
u16_value-length (a ∷ b ∷ rest) value after h =
    omega (arith, take_value-length (a * 256 + b) rest value after h)

take_rest-length :
    (n : ℕ) (rest name value after : List ℕ)
    → take_rest (some (n, rest)) ≡ some (name, (value, after))
    → length after ≤ length rest
take_rest-length n rest name value after h =
    elim (Option-cases (take_value (take_u16 (drop n rest)))) [
      | inl e ↦ absurd (ground arith)
      | inr ((v, a), e) ↦ ground (arith, u16_value-length (drop n rest) v a e, length-drop n rest)
    ]

stream_attribute-length :
    (rest name value after : List ℕ)
    → stream_attribute rest ≡ some (name, (value, after))
    → length after ≤ length rest
unfolding stream_attribute
stream_attribute-length [] name value after h = absurd (ground arith)
stream_attribute-length (a ∷ []) name value after h = absurd (ground arith)
stream_attribute-length (a ∷ b ∷ rest) name value after h =
    omega (arith, take_rest-length (a * 256 + b) rest name value after h)

stream_turn-length :
    (lossy : List ℕ → Text) (tag : ℕ) (rest : List ℕ) (current : Option Text) (r : Attributes)
    (after : List ℕ) (now : Option Text) (more : Attributes)
    → stream_turn lossy tag rest current r ≡ continues after now more
    → length after ≤ length rest
unfolding stream_turn
stream_turn-length lossy tag rest current r after now more h =
    elim (Bool-cases (leb 1 tag && leb tag 5)) [
      | inl e ↦ ground arith
      | inr e ↦ elim (Option-cases (stream_attribute rest)) [
        | inl f ↦ absurd (ground arith)
        | inr ((name, (value, a)), f) ↦ ground (arith, stream_attribute-length rest name value a f)
      ]
    ]

StreamTurn-cases :
    (t : StreamTurn)
    → (t ≡ stops)
      ⊎ ((after : List ℕ) × (now : Option Text) × (more : Attributes) × (t
            ≡ continues after now more))
StreamTurn-cases stops = inl refl
StreamTurn-cases (continues after now more) = inr (after, now, more, refl)

stream_from-total :
    (lossy : List ℕ → Text) (fuel : ℕ) (rest : List ℕ) (current : Option Text) (r : Attributes)
    → length rest < fuel
    → is_some (stream_from lossy fuel rest current r) ≡ true
unfolding stream_from
stream_from-total lossy zero rest current r h = absurd (omega arith)
stream_from-total lossy (suc fuel) [] current r h = refl
stream_from-total lossy (suc fuel) (tag ∷ rest) current r h =
    elim (StreamTurn-cases (stream_turn lossy tag rest current r)) [
      | inl e ↦ rw (e, stream_from, is_some) refl
      | inr (after, now, more, e) ↦
          rw (e, stream_from, is_some)
            (stream_from-total lossy fuel after now more
              (omega (arith, stream_turn-length lossy tag rest current r after now more e)))
    ]

-- The parser ends on every response with attributes, whatever its bytes, and no index or slice is out
-- of range: the tests on the offset cover each of them, and each turn consumes a byte.
pub parse_ipp-total :
    (lossy : List ℕ → Text) (bytes : List ℕ) → is_some (parse_ipp lossy bytes) ≡ true
unfolding parse_ipp
parse_ipp-total lossy bytes = rw (parse_from-stream_from lossy (length bytes + 1) bytes 8 none []) (
    stream_from-total lossy (length bytes + 1) (drop 8 bytes) none []
      (omega (arith, length-drop 8 bytes)))
