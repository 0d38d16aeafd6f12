-- ===== src/Common/Text.antt =====
-- Texts as lists of Unicode code points, with the operations of `str` and `char` that the source
-- uses. Lengths are in bytes of UTF-8 (`len`) or in characters (`length`).
use Prim.Native.Nat.{ℕ, ◌+◌}
use Prim.Native.Char.{code}
use Prim.Native.String.{String}
use mathlib.Core.Path.{◌≡◌, refl}
use mathlib.Core.Logic.{◌↔◌}
use mathlib.Core.Bool.{Bool, true, false, ◌&&◌, ◌||◌}
use mathlib.Core.List.{List, [], ◌∷◌, map, reverse}
use mathlib.Core.Option.{Option, none, some}
use native.Mathlib.Omega.{arith}
use mb_printer_cli.Common.Tests.{if◌then◌else◌, ◌==◌, ltb, leb}
use mb_printer_cli.Common.Lists.{any}

abbrev pub Text : Type 0
Text = List ℕ

-- The code points of a literal.
abbrev pub codes : String → Text
codes String.[] = []
codes (String.◌∷◌ c s) = code c ∷ codes s

unfoldable pub text_eq : Text → Text → Bool
text_eq [] [] = true
text_eq [] (y ∷ ys) = false
text_eq (x ∷ xs) [] = false
text_eq (x ∷ xs) (y ∷ ys) = if x == y then text_eq xs ys else false

pub text_eq→eq : (a b : Text) → text_eq a b ≡ true → a ≡ b
unfolding text_eq
text_eq→eq [] [] h = refl
text_eq→eq [] (y ∷ ys) h = ground arith
text_eq→eq (x ∷ xs) [] h = ground arith
text_eq→eq (x ∷ xs) (y ∷ ys) h = ground (arith, text_eq→eq xs ys)

pub text_eq_refl : (a : Text) → text_eq a a ≡ true
unfolding text_eq
text_eq_refl [] = refl
text_eq_refl (x ∷ xs) = ground (arith, text_eq_refl xs)

pub text_eq_iff : (a b : Text) → (text_eq a b ≡ true) ↔ (a ≡ b)
text_eq_iff a b = (text_eq→eq a b, λ e. ground (arith, text_eq_refl a))

-- Of two optional texts, `==`.
unfoldable pub opt_text_eq : Option Text → Option Text → Bool
opt_text_eq none none = true
opt_text_eq none (some b) = false
opt_text_eq (some a) none = false
opt_text_eq (some a) (some b) = text_eq a b

pub opt_text_eq→eq : (a b : Option Text) → opt_text_eq a b ≡ true → a ≡ b
unfolding opt_text_eq
opt_text_eq→eq none none h = refl
opt_text_eq→eq none (some b) h = ground arith
opt_text_eq→eq (some a) none h = ground arith
opt_text_eq→eq (some a) (some b) h = ground (arith, text_eq→eq a b)

pub opt_text_eq_refl : (a : Option Text) → opt_text_eq a a ≡ true
unfolding opt_text_eq
opt_text_eq_refl none = refl
opt_text_eq_refl (some a) = text_eq_refl a

abbrev pub is_empty : Text → Bool
is_empty [] = true
is_empty (c ∷ s) = false

-- `char::len_utf8` and `str::len`
abbrev pub len_utf8 : ℕ → ℕ
len_utf8 c = if ltb c 0x80 then 1 else if ltb c 0x800 then 2 else if ltb c 0x10000 then 3 else 4

unfoldable pub len : Text → ℕ
len [] = 0
len (c ∷ s) = len_utf8 c + len s

abbrev pub contains_char : ℕ → Text → Bool
contains_char c = any (λ d. d == c)

unfoldable pub is_ascii_alphanumeric : ℕ → Bool
is_ascii_alphanumeric c =
    leb b'0' c && leb c b'9' || leb b'A' c && leb c b'Z' || leb b'a' c && leb c b'z'

unfoldable pub to_ascii_lowercase : ℕ → ℕ
to_ascii_lowercase c = if leb b'A' c && leb c b'Z' then c + 32 else c

abbrev pub lowercase : Text → Text
lowercase = map to_ascii_lowercase

-- `char::is_whitespace`: the property White_Space of Unicode.
unfoldable pub is_whitespace : ℕ → Bool
is_whitespace c =
    leb 9 c && leb c 13
    || c == 32
    || c == 0x85
    || c == 0xa0
    || c == 0x1680
    || leb 0x2000 c && leb c 0x200a
    || c == 0x2028
    || c == 0x2029
    || c == 0x202f
    || c == 0x205f
    || c == 0x3000

unfoldable pub trim_start : Text → Text
trim_start [] = []
trim_start (c ∷ s) = let rest = trim_start s in if is_whitespace c then rest else c ∷ s

unfoldable pub trim : Text → Text
unfolding trim_start is_whitespace
trim s = reverse (trim_start (reverse (trim_start s)))

unfoldable pub starts_with : Text → Text → Bool
starts_with s [] = true
starts_with [] (p ∷ ps) = false
starts_with (c ∷ s) (p ∷ ps) = if c == p then starts_with s ps else false
