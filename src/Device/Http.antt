-- ===== src/Device/Http.antt =====
-- The small readers of src/device.rs: the end of an HTTP response, the size of a medium in its keyword,
-- and the payload of a Bluetooth write.
use Prim.Native.Nat.{min, max}
use mb_printer_cli.Common.{
  ℕ, ◌+◌, ◌-◌, ◌≤◌, Bool, false, ◌&&◌, Option, none, some, List, [], ◌∷◌, arith, if◌then◌else◌, leb,
  ◌==◌, length, take,
}
use mathlib.Core.List.{reverse}
use mb_printer_cli.Common.Text.{Text, codes, trim}
use mb_printer_cli.Common.Strings.{split, strip_prefix, eq_ignore_ascii_case, parse_radix}

-- `windows(4).position(|part| part == b"\r\n\r\n")`
abbrev ends_here : List ℕ → Bool
ends_here (a ∷ b ∷ c ∷ d ∷ rest) = a == 13 && b == 10 && c == 13 && d == 10
ends_here (a ∷ b ∷ c ∷ []) = false
ends_here (a ∷ b ∷ []) = false
ends_here (a ∷ []) = false
ends_here [] = false

abbrev next_position : Option ℕ → Option ℕ
next_position none = none
next_position (some i) = some (i + 1)

unfoldable pub header_split : List ℕ → Option ℕ
header_split [] = none
header_split (b ∷ rest) =
    let later = next_position (header_split rest) in if ends_here (b ∷ rest) then some 0 else later

-- `str::split_once` at a character.
abbrev put_before : ℕ → Option (Text × Text) → Option (Text × Text)
put_before c none = none
put_before c (some (a, b)) = some (c ∷ a, b)

unfoldable pub split_once : ℕ → Text → Option (Text × Text)
split_once d [] = none
split_once d (c ∷ s) =
    let later = put_before c (split_once d s) in if c == d then some ([], s) else later

-- The numbers of a machine with words of 64 bits.
abbrev parse_usize : Text → Option ℕ
parse_usize = parse_radix 10 (18446744073709551616)

abbrev length_of : Option (Text × Text) → Option ℕ
length_of none = none
length_of (some (key, value)) =
    if eq_ignore_ascii_case key (codes "content-length") then parse_usize (trim value) else none

abbrev first_some : Option ℕ → Option ℕ → Option ℕ
first_some (some n) later = some n
first_some none later = later

-- `headers.lines().find_map(…)`; a line is what stands between two line feeds, and its carriage
-- return is trimmed with the value.
unfoldable pub content_length : List Text → Option ℕ
unfolding split_once
content_length [] = none
content_length (line ∷ lines) = first_some (length_of (split_once 58 line)) (content_length lines)

abbrev complete_with : ℕ → ℕ → Option ℕ → Bool
complete_with received header_end none = false
complete_with received header_end (some n) =
    leb (min (header_end + n) 18446744073709551615) received

abbrev complete_at : (List ℕ → Text) → List ℕ → Option ℕ → Bool
complete_at lossy response none = false
complete_at lossy response (some at) =
    complete_with (length response) (at + 4) (content_length (split 10 (lossy (take at response))))

-- `http_content_complete`; `lossy` is `String::from_utf8_lossy`.
unfoldable pub http_content_complete : (List ℕ → Text) → List ℕ → Bool
unfolding header_split content_length
http_content_complete lossy response = complete_at lossy response (header_split response)

abbrev without_prefix : Option Text → Option Text
without_prefix none = none
without_prefix (some s) = some (reverse s)

-- `strip_suffix("mm")`
unfoldable pub strip_mm : Text → Option Text
unfolding strip_prefix
strip_mm s = without_prefix (strip_prefix (reverse s) (codes "mm"))

abbrev pair_of : Option ℕ → Option ℕ → Option (ℕ × ℕ)
pair_of none height = none
pair_of (some width) none = none
pair_of (some width) (some height) = some (width, height)

abbrev size_in : Option (Text × Text) → Option (ℕ × ℕ)
size_in none = none
size_in (some (width, height)) = pair_of (parse_radix 10 65536 width) (parse_radix 10 65536 height)

abbrev size_of : Option Text → Option (ℕ × ℕ)
size_of none = none
size_of (some value) = size_in (split_once 120 value)

abbrev first_size : Option (ℕ × ℕ) → Option (ℕ × ℕ) → Option (ℕ × ℕ)
first_size (some size) later = some size
first_size none later = later

unfoldable pub find_size : List Text → Option (ℕ × ℕ)
unfolding strip_mm split_once
find_size [] = none
find_size (part ∷ parts) = first_size (size_of (strip_mm part)) (find_size parts)

unfoldable pub ipp_media_size : Text → Option (ℕ × ℕ)
unfolding find_size
ipp_media_size keyword = find_size (reverse (split 95 keyword))

-- `reported_write_limit.or_else(…).unwrap_or(20)`
abbrev physical : Option ℕ → Option ℕ → ℕ
physical (some limit) mtu = limit
physical none (some mtu) = mtu - 3
physical none none = 20

unfoldable pub ble_payload_limit : ℕ → Option ℕ → Option ℕ → ℕ
ble_payload_limit user_cap reported_write_limit mtu =
    min (max user_cap 1) (max (physical reported_write_limit mtu) 1)

-- The payload of a write has a byte at least, and is within both the cap of the user, where that is not
-- zero, and the limit that the device reports, where that is not zero.
pub ble_payload_limit_bounds :
    (user_cap limit : ℕ) (mtu : Option ℕ)
    → (1 ≤ ble_payload_limit user_cap (some limit) mtu)
      × (ble_payload_limit user_cap (some limit) mtu ≤ max user_cap 1)
      × (ble_payload_limit user_cap (some limit) mtu ≤ max limit 1)
unfolding ble_payload_limit
ble_payload_limit_bounds user_cap limit mtu = (omega arith, omega arith, omega arith)
