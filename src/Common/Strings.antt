-- ===== src/Common/Strings.antt =====
-- The operations of `str` and of the integer parsers and formatters that endpoints and names use,
-- on texts as lists of code points.
pub mod Digits
use Prim.Native.Nat.{ℕ, zero, suc, ◌+◌, ◌-◌, ◌*◌, ◌/◌, ◌%◌}
use mathlib.Core.Path.{◌≡◌, refl}
use mathlib.Core.Bool.{Bool, true, false, ◌&&◌, ◌||◌, not}
use mathlib.Core.List.{List, [], ◌∷◌, ◌++◌}
use mathlib.Core.Option.{Option, none, some}
use native.Mathlib.Omega.{arith}
use mb_printer_cli.Common.Tests.{if◌then◌else◌, ◌==◌, ltb, leb}
use mb_printer_cli.Common.Text.{Text, codes, text_eq, lowercase}

-- `str::strip_prefix`, the text first.
unfoldable pub strip_prefix : Text → Text → Option Text
strip_prefix s [] = some s
strip_prefix [] (p ∷ ps) = none
strip_prefix (c ∷ s) (p ∷ ps) = if c == p then strip_prefix s ps else none

-- `str::eq_ignore_ascii_case`
abbrev pub eq_ignore_ascii_case : Text → Text → Bool
eq_ignore_ascii_case a b = text_eq (lowercase a) (lowercase b)

-- `char::is_control`: the category Cc of Unicode.
unfoldable pub is_control : ℕ → Bool
is_control c = ltb c 32 || leb 127 c && leb c 159

abbrev pub put_first : ℕ → List Text → List Text
put_first c [] = (c ∷ []) ∷ []
put_first c (part ∷ parts) = (c ∷ part) ∷ parts

-- `str::split` at a character.
unfoldable pub split : ℕ → Text → List Text
split d [] = [] ∷ []
split d (c ∷ s) = let rest = split d s in if c == d then [] ∷ rest else put_first c rest

abbrev put_before : ℕ → Option (Text × Text) → Option (Text × Text)
put_before c none = none
put_before c (some (a, b)) = some (c ∷ a, b)

abbrev split_here : ℕ → Text → Option (Text × Text) → Bool → Option (Text × Text)
split_here c s (some pair) here = put_before c (some pair)
split_here c s none true = some ([], s)
split_here c s none false = none

-- `str::rsplit_once` at a character: the last occurrence.
unfoldable pub rsplit_once : ℕ → Text → Option (Text × Text)
rsplit_once d [] = none
rsplit_once d (c ∷ s) = split_here c s (rsplit_once d s) (c == d)

-- The value of a digit in a base up to 16, `char::to_digit`.
unfoldable pub to_digit : ℕ → ℕ → Option ℕ
to_digit base c =
    if leb 48 c && leb c 57 && ltb (c - 48) base
    then some (c - 48)
    else if leb 97 c && leb c 122 && ltb (c - 87) base
    then some (c - 87)
    else if leb 65 c && leb c 90 && ltb (c - 55) base
    then some (c - 55)
    else none

-- The digits of a number, with the value so far; `none` on overflow of the bound.
unfoldable pub digits_value : ℕ → ℕ → ℕ → Text → Option ℕ
unfolding to_digit
digits_value base bound n [] = some n
digits_value base bound n (c ∷ s) = elim (to_digit base c) [
  | none ↦ none
  | some d ↦ if ltb (n * base + d) bound then digits_value base bound (n * base + d) s else none
]

abbrev nonempty_value : ℕ → ℕ → Text → Option ℕ
nonempty_value base bound [] = none
nonempty_value base bound (c ∷ s) = digits_value base bound 0 (c ∷ s)

-- `from_str_radix` of an unsigned type with `bound` values: one plus sign may come first.
unfoldable pub parse_radix : ℕ → ℕ → Text → Option ℕ
unfolding digits_value
parse_radix base bound [] = none
parse_radix base bound (c ∷ s) =
    if c == 43 then nonempty_value base bound s else digits_value base bound 0 (c ∷ s)

-- `trim_start_matches("0x")`
unfoldable pub trim_0x : Text → Text
trim_0x [] = []
trim_0x (a ∷ []) = a ∷ []
trim_0x (a ∷ b ∷ s) = let rest = trim_0x s in if a == 48 && b == 120 then rest else a ∷ b ∷ s

-- A lowercase hexadecimal digit.
unfoldable pub hex_digit : ℕ → ℕ
hex_digit d = if ltb d 10 then d + 48 else d + 87

-- `{:02x}` of a u8 and `{:04x}` of a u16.
unfoldable pub show_hex2 : ℕ → Text
unfolding hex_digit
show_hex2 n = hex_digit (n / 16) ∷ hex_digit (n % 16) ∷ []

unfoldable pub show_hex4 : ℕ → Text
unfolding hex_digit
show_hex4 n =
    hex_digit (n / 4096)
    ∷ hex_digit (n / 256 % 16)
    ∷ hex_digit (n / 16 % 16)
    ∷ hex_digit (n % 16)
    ∷ []

-- `{}` of a u8: up to three decimal digits.
unfoldable pub show_u8 : ℕ → Text
show_u8 n =
    if ltb n 10
    then (n + 48) ∷ []
    else if ltb n 100
    then (n / 10 + 48) ∷ (n % 10 + 48) ∷ []
    else (n / 100 + 48) ∷ (n / 10 % 10 + 48) ∷ (n % 10 + 48) ∷ []
