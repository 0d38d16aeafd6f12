-- ===== src/Device/Wifi/Ssid.antt =====
-- The network names of src/device.rs: what `encode_ssid` writes, `decode_ssid` reads.
use mb_printer_cli.Common.{
  ℕ, ◌+◌, ◌*◌, ◌/◌, ◌%◌, ◌≡◌, ◌≢◌, ◌<◌, refl, ap, ◌∙◌, Bool, false, Option, some, List, [], ◌∷◌,
  ◌++◌, arith, map, ltb, ltb→lt, Bool-cases, inl, inr, All,
}
use mb_printer_cli.Common.Text.{Text, is_empty}
use mb_printer_cli.Common.Strings.{hex_digit, split, parse_radix, digits_value}
use mb_printer_cli.Common.Strings.Digits.{
  to_digit-hex_digit, hex_digit_range, parse_radix_digit, digits_value-hex_digit, digits_value_end,
  split-append, split_single,
}
use mb_printer_cli.Device.Wifi.{
  show_hex, encode_ssid, trim_start_matches, trim_end_matches, trim_matches, is_quote, is_hyphen,
  hex_bytes, from_bytes, decoded_or, decode_ssid,
}

hex_digit_plain :
    (d : ℕ) → d < 16 → (is_quote (hex_digit d) ≡ false) × (is_hyphen (hex_digit d) ≡ false)
unfolding hex_digit
hex_digit_plain d h = ground arith

two_digits :
    (a b : ℕ)
    → a < 16
    → b < 16
    → parse_radix 16 256 (hex_digit a ∷ hex_digit b ∷ []) ≡ some (a * 16 + b)
two_digits a b p q =
    rw
      (
        parse_radix_digit 16 256 (hex_digit a) (hex_digit b ∷ []) (hex_digit_range a p).0,
        digits_value-hex_digit 256 0 a a (hex_digit b ∷ []) p (omega arith) (omega arith),
        digits_value-hex_digit 256 a b (a * 16 + b) [] q (omega arith) (omega arith),
        digits_value_end,
      )
      refl

one_digit : (a : ℕ) → a < 16 → parse_radix 16 256 (hex_digit a ∷ []) ≡ some a
unfolding parse_radix digits_value
one_digit a p = ground (arith, to_digit-hex_digit a p, hex_digit_range a p)

parse_radix-show_hex : (b : ℕ) → b < 256 → parse_radix 16 256 (show_hex b) ≡ some b
unfolding show_hex
parse_radix-show_hex b h = elim (Bool-cases (ltb b 16)) [
  | inl e ↦ rw e (one_digit b (ltb→lt b 16 e))
  | inr e ↦
      rw e
        (two_digits (b / 16) (b % 16) (omega arith) (omega arith) ∙ ap (λ n. some n) (omega arith))
]

-- Text that starts with a plain character, or ends with one, is not trimmed there.
abbrev Plain : (ℕ → Bool) → Text → Type 0
Plain test s = All (λ c. test c ≡ false) s

show_hex-Plain : (b : ℕ) → b < 256 → Plain is_quote (show_hex b) × Plain is_hyphen (show_hex b)
unfolding show_hex
show_hex-Plain b h =
    ground (arith, hex_digit_plain b, hex_digit_plain (b / 16), hex_digit_plain (b % 16))

trim_end_behind :
    (test : ℕ → Bool) (s rest : Text)
    → Plain test s
    → trim_end_matches test rest ≡ rest
    → trim_end_matches test (s ++ rest) ≡ s ++ rest
unfolding trim_end_matches
trim_end_behind test [] rest h e = e
trim_end_behind test (c ∷ s) rest h e = ground (arith, h.0, trim_end_behind test s rest h.1 e)

show_hex_nonempty : (b : ℕ) (rest : Text) → is_empty (show_hex b ++ rest) ≡ false
unfolding show_hex
show_hex_nonempty b rest = elim (Bool-cases (ltb b 16)) [ inl e ↦ rw e refl | inr e ↦ rw e refl ]

-- Nothing is trimmed from the end of an encoded name.
trim_end_encoded :
    (value : List ℕ)
    → All (λ b. b < 256) value
    → (trim_end_matches is_quote (encode_ssid value) ≡ encode_ssid value)
      × (trim_end_matches is_hyphen (encode_ssid value) ≡ encode_ssid value)
unfolding encode_ssid trim_end_matches
trim_end_encoded [] h = (refl, refl)
trim_end_encoded (b ∷ value) h =
    let (p, q) = trim_end_encoded value h.1 in
    let (f, g) = show_hex-Plain b h.0 in
    let quote = trim_end_behind is_quote (show_hex b) (encode_ssid value) f p in
    let hyphen = trim_end_behind is_hyphen (show_hex b) (encode_ssid value) g q in
    (ground (arith, quote), ground (arith, hyphen, show_hex_nonempty b (encode_ssid value)))

trim_end_body :
    (b : ℕ) (value : List ℕ)
    → All (λ b. b < 256) (b ∷ value)
    → trim_end_matches is_hyphen (show_hex b ++ encode_ssid value) ≡ show_hex b ++ encode_ssid value
trim_end_body b value h =
    trim_end_behind is_hyphen (show_hex b) (encode_ssid value) (show_hex-Plain b h.0).1
      (trim_end_encoded value h.1).1

trim_start_body :
    (b : ℕ) (rest : Text)
    → b < 256
    → trim_start_matches is_hyphen (45 ∷ (show_hex b ++ rest)) ≡ show_hex b ++ rest
unfolding trim_start_matches show_hex
trim_start_body b rest h = elim (Bool-cases (ltb b 16)) [
  | inl e ↦ let first = hex_digit_plain b (ltb→lt b 16 e) in rw e (ground (arith, first))
  | inr e ↦ let first = hex_digit_plain (b / 16) (omega arith) in rw e (ground (arith, first))
]

hex_digit_hyphen : (d : ℕ) → d < 16 → hex_digit d ≢ 45
unfolding hex_digit
hex_digit_hyphen d h = ground arith

show_hex-All : (b : ℕ) → b < 256 → All (λ c. c ≢ 45) (show_hex b)
unfolding show_hex
show_hex-All b h = elim (Bool-cases (ltb b 16)) [
  | inl e ↦ rw e (hex_digit_hyphen b (ltb→lt b 16 e), tt)
  | inr e ↦
      rw e (hex_digit_hyphen (b / 16) (omega arith), (hex_digit_hyphen (b % 16) (omega arith), tt))
]

append_nil : (a : Text) → a ++ [] ≡ a
append_nil [] = refl
append_nil (c ∷ a) = ap (λ t. c ∷ t) (append_nil a)

split-body :
    (b : ℕ) (value : List ℕ)
    → All (λ b. b < 256) (b ∷ value)
    → split 45 (show_hex b ++ encode_ssid value) ≡ map show_hex (b ∷ value)
unfolding encode_ssid
split-body b [] h = rw append_nil (split_single 45 (show_hex b) (show_hex-All b h.0))
split-body b (next ∷ value) h =
    split-append 45 (show_hex b) (show_hex next ++ encode_ssid value) (show_hex-All b h.0)
    ∙ ap (λ parts. show_hex b ∷ parts) (split-body next value h.1)

hex_bytes-show_hex :
    (value : List ℕ) → All (λ b. b < 256) value → hex_bytes (map show_hex value) ≡ some value
unfolding hex_bytes
hex_bytes-show_hex [] h = refl
hex_bytes-show_hex (b ∷ value) h =
    rw (parse_radix-show_hex b h.0, hex_bytes-show_hex value h.1) refl

trim_start_hyphen : (s : Text) → trim_start_matches is_quote (45 ∷ s) ≡ 45 ∷ s
unfolding trim_start_matches
trim_start_hyphen s = refl

hex_bytes-encoded :
    (b : ℕ) (value : List ℕ)
    → All (λ b. b < 256) (b ∷ value)
    → hex_bytes
        (split 45 (trim_matches is_hyphen (trim_matches is_quote (encode_ssid (b ∷ value)))))
      ≡ some (b ∷ value)
unfolding encode_ssid
hex_bytes-encoded b value h =
    let unquoted : trim_matches is_quote (encode_ssid (b ∷ value)) ≡ encode_ssid (b ∷ value) =
      ap (trim_end_matches is_quote) (trim_start_hyphen (show_hex b ++ encode_ssid value))
      ∙ (trim_end_encoded (b ∷ value) h).0 in
    let bare : trim_matches is_hyphen (encode_ssid (b ∷ value)) ≡ show_hex b ++ encode_ssid value =
      ap (trim_end_matches is_hyphen) (trim_start_body b (encode_ssid value) h.0)
      ∙ trim_end_body b value h in
    ap (λ t. hex_bytes (split 45 (trim_matches is_hyphen t))) unquoted
    ∙ ap (λ t. hex_bytes (split 45 t)) bare
    ∙ ap hex_bytes (split-body b value h)
    ∙ hex_bytes-show_hex (b ∷ value) h

-- A network name that is UTF-8, of any bytes and any length above zero, is read back from the form in
-- which it is sent.
pub decode_ssid-encode_ssid :
    (utf8 : List ℕ → Option Text) (b : ℕ) (value : List ℕ) (name : Text)
    → All (λ b. b < 256) (b ∷ value)
    → utf8 (b ∷ value) ≡ some name
    → decode_ssid utf8 (encode_ssid (b ∷ value)) ≡ name
unfolding decode_ssid
decode_ssid-encode_ssid utf8 b value name h e =
    ap
      (λ bytes.
        decoded_or (trim_matches is_quote (encode_ssid (b ∷ value))) (from_bytes utf8 bytes))
      (hex_bytes-encoded b value h)
    ∙ ap (decoded_or (trim_matches is_quote (encode_ssid (b ∷ value)))) e
