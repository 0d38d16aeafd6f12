-- ===== src/Common/Strings/Digits.antt =====
-- What is printed in digits parses again.
use mb_printer_cli.Common.{
  ℕ, ◌+◌, ◌*◌, ◌/◌, ◌%◌, ◌≡◌, ◌≢◌, ◌<◌, refl, ap, ◌∙◌, none, some, [], ◌∷◌, ◌++◌, arith, ltb,
  Bool-cases, inl, inr, ltb→lt, All,
}
use mb_printer_cli.Common.Text.{Text}
use mb_printer_cli.Common.Strings.{
  strip_prefix, rsplit_once, split, to_digit, digits_value, parse_radix, trim_0x, hex_digit,
  show_hex2, show_hex4, show_u8,
}

pub to_digit-hex_digit : (d : ℕ) → d < 16 → to_digit 16 (hex_digit d) ≡ some d
unfolding to_digit hex_digit
to_digit-hex_digit d h = ground arith

pub hex_digit_range : (d : ℕ) → d < 16 → (hex_digit d ≢ 43) × (hex_digit d ≢ 120)
unfolding hex_digit
hex_digit_range d h = ground arith

to_digit_decimal : (d : ℕ) → d < 10 → to_digit 10 (d + 48) ≡ some d
unfolding to_digit
to_digit_decimal d h = ground arith

pub parse_radix-show_hex2 :
    (n : ℕ) → n < 256 → parse_radix 16 65536 (trim_0x (show_hex2 n)) ≡ some n
unfolding show_hex2 trim_0x parse_radix digits_value
parse_radix-show_hex2 n h = ground (
  arith,
  to_digit-hex_digit (n / 16),
  to_digit-hex_digit (n % 16),
  hex_digit_range (n / 16),
  hex_digit_range (n % 16),
)

pub digits_value-hex_digit :
    (bound n d m : ℕ) (s : Text)
    → d < 16
    → m ≡ n * 16 + d
    → m < bound
    → digits_value 16 bound n (hex_digit d ∷ s) ≡ digits_value 16 bound m s
unfolding digits_value
digits_value-hex_digit bound n d m s h e b = ground (arith, to_digit-hex_digit d h)

digits_value_decimal :
    (n d m : ℕ) (s : Text)
    → d < 10
    → m ≡ n * 10 + d
    → m < 256
    → digits_value 10 256 n ((d + 48) ∷ s) ≡ digits_value 10 256 m s
unfolding digits_value
digits_value_decimal n d m s h e b = ground (arith, to_digit_decimal d h)

pub digits_value_end : (base bound n : ℕ) → digits_value base bound n [] ≡ some n
unfolding digits_value
digits_value_end base bound n = refl

-- No sign and no prefix stand before a digit.
trim_0x_digit : (a b : ℕ) (s : Text) → b ≢ 120 → trim_0x (a ∷ b ∷ s) ≡ a ∷ b ∷ s
unfolding trim_0x
trim_0x_digit a b s n = ground arith

pub parse_radix_digit :
    (base bound c : ℕ) (s : Text)
    → c ≢ 43
    → parse_radix base bound (c ∷ s) ≡ digits_value base bound 0 (c ∷ s)
unfolding parse_radix
parse_radix_digit base bound c s n = ground arith

four_digits :
    (a b c d : ℕ)
    → a < 16
    → b < 16
    → c < 16
    → d < 16
    → parse_radix 16 65536 (trim_0x (hex_digit a ∷ hex_digit b ∷ hex_digit c ∷ hex_digit d ∷ []))
      ≡ some (((a * 16 + b) * 16 + c) * 16 + d)
four_digits a b c d p q r s =
    rw
      (
        trim_0x_digit (hex_digit a) (hex_digit b) (hex_digit c ∷ hex_digit d ∷ [])
            (hex_digit_range b q).1,
        parse_radix_digit 16 65536 (hex_digit a) (hex_digit b ∷ hex_digit c ∷ hex_digit d ∷ [])
            (hex_digit_range a p).0,
        digits_value-hex_digit 65536 0 a a (hex_digit b ∷ hex_digit c ∷ hex_digit d ∷ []) p
            (omega arith) (omega arith),
        digits_value-hex_digit 65536 a b (a * 16 + b) (hex_digit c ∷ hex_digit d ∷ []) q
            (omega arith) (omega arith),
        digits_value-hex_digit 65536 (a * 16 + b) c ((a * 16 + b) * 16 + c) (hex_digit d ∷ []) r
            (omega arith) (omega arith),
        digits_value-hex_digit 65536 ((a * 16 + b) * 16 + c) d (((a * 16 + b) * 16 + c) * 16 + d) []
            s (omega arith) (omega arith),
        digits_value_end,
      )
      refl

pub parse_radix-show_hex4 :
    (n : ℕ) → n < 65536 → parse_radix 16 65536 (trim_0x (show_hex4 n)) ≡ some n
unfolding show_hex4
parse_radix-show_hex4 n h =
    four_digits (n / 4096) (n / 256 % 16) (n / 16 % 16) (n % 16) (omega arith) (omega arith)
      (omega arith) (omega arith)
    ∙ ap (λ k. some k) (omega arith)

three_digits :
    (a b c : ℕ)
    → a < 10
    → b < 10
    → c < 10
    → (a * 10 + b) * 10 + c < 256
    → parse_radix 10 256 ((a + 48) ∷ (b + 48) ∷ (c + 48) ∷ []) ≡ some ((a * 10 + b) * 10 + c)
three_digits a b c p q r h =
    rw
      (
        parse_radix_digit 10 256 (a + 48) ((b + 48) ∷ (c + 48) ∷ []) (λ e. omega arith),
        digits_value_decimal 0 a a ((b + 48) ∷ (c + 48) ∷ []) p (omega arith) (omega arith),
        digits_value_decimal a b (a * 10 + b) ((c + 48) ∷ []) q (omega arith) (omega arith),
        digits_value_decimal (a * 10 + b) c ((a * 10 + b) * 10 + c) [] r refl h,
        digits_value_end,
      )
      refl

two_digits :
    (a b : ℕ) → a < 10 → b < 10 → parse_radix 10 256 ((a + 48) ∷ (b + 48) ∷ []) ≡ some (a * 10 + b)
two_digits a b p q =
    rw
      (
        parse_radix_digit 10 256 (a + 48) ((b + 48) ∷ []) (λ e. omega arith),
        digits_value_decimal 0 a a ((b + 48) ∷ []) p (omega arith) (omega arith),
        digits_value_decimal a b (a * 10 + b) [] q (omega arith) (omega arith),
        digits_value_end,
      )
      refl

one_digit : (a : ℕ) → a < 10 → parse_radix 10 256 ((a + 48) ∷ []) ≡ some a
one_digit a p =
    rw
      (
        parse_radix_digit 10 256 (a + 48) [] (λ e. omega arith),
        digits_value_decimal 0 a a [] p (omega arith) (omega arith),
        digits_value_end,
      )
      refl

pub parse_radix-show_u8 : (n : ℕ) → n < 256 → parse_radix 10 256 (show_u8 n) ≡ some n
unfolding show_u8
parse_radix-show_u8 n h = elim (Bool-cases (ltb n 10)) [
  | inl e ↦ rw e (one_digit n (ltb→lt n 10 e))
  | inr e ↦ elim (Bool-cases (ltb n 100)) [
    | inl f ↦
        rw (e, f)
          (two_digits (n / 10) (n % 10) (omega (arith, ltb→lt n 100 f)) (omega arith)
            ∙ ap (λ k. some k) (omega arith))
    | inr f ↦
        rw (e, f)
          (three_digits (n / 100) (n / 10 % 10) (n % 10) (omega arith) (omega arith) (omega arith)
              (omega arith)
            ∙ ap (λ k. some k) (omega arith))
  ]
]

-- The last separator is the one before a text without any.
pub rsplit_once-append :
    (d : ℕ) (a b : Text) → rsplit_once d b ≡ none → rsplit_once d (a ++ (d ∷ b)) ≡ some (a, b)
unfolding rsplit_once
rsplit_once-append d [] b h = ground arith
rsplit_once-append d (c ∷ a) b h = ground (arith, rsplit_once-append d a b)

pub rsplit_once-show_u8 : (n : ℕ) → n < 256 → rsplit_once 58 (show_u8 n) ≡ none
unfolding show_u8 rsplit_once
rsplit_once-show_u8 n h = ground arith

pub strip_prefix-append : (p s : Text) → strip_prefix (p ++ s) p ≡ some s
unfolding strip_prefix
strip_prefix-append [] s = refl
strip_prefix-append (c ∷ p) s = ground (arith, strip_prefix-append p s)

-- Splitting at the first separator.
pub split-append :
    (d : ℕ) (a b : Text) → All (λ c. c ≢ d) a → split d (a ++ (d ∷ b)) ≡ a ∷ split d b
unfolding split
split-append d [] b h = ground arith
split-append d (c ∷ a) b h = ground (arith, split-append d a b h.1, h.0)

pub split_single : (d : ℕ) (a : Text) → All (λ c. c ≢ d) a → split d a ≡ a ∷ []
unfolding split
split_single d [] h = refl
split_single d (c ∷ a) h = ground (arith, split_single d a h.1, h.0)

hex_digit_colon : (d : ℕ) → d < 16 → hex_digit d ≢ 58
unfolding hex_digit
hex_digit_colon d h = ground arith

pub show_hex2-All : (n : ℕ) → n < 256 → All (λ c. c ≢ 58) (show_hex2 n)
unfolding show_hex2
show_hex2-All n h =
    (hex_digit_colon (n / 16) (omega arith), (hex_digit_colon (n % 16) (omega arith), tt))

pub show_hex4-All : (n : ℕ) → n < 65536 → All (λ c. c ≢ 58) (show_hex4 n)
unfolding show_hex4
show_hex4-All n h = (
  hex_digit_colon (n / 4096) (omega arith),
  (
    hex_digit_colon (n / 256 % 16) (omega arith),
    (hex_digit_colon (n / 16 % 16) (omega arith), (hex_digit_colon (n % 16) (omega arith), tt)),
  ),
)
