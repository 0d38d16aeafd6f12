-- ===== src/Device/Wifi.antt =====
-- The Wi-Fi commands of src/device.rs in Brother's Printer Job Language. Bytes are numbers, and the
-- strings of the source their UTF-8 bytes.
pub mod Ssid
pub mod Password
pub mod Configure
use Prim.Native.Nat.{bit_xor}
use Prim.Native.String.{String}
use mb_printer_cli.Common.{
  ℕ, zero, suc, ◌+◌, ◌%◌, ◌/◌, Bool, true, false, not, ◌&&◌, ◌||◌, Option, none, some, List, [],
  ◌∷◌, ◌++◌, if◌then◌else◌, ltb, leb, ◌==◌, all, find?,
}
use mb_printer_cli.Common.Text.{Text, codes, text_eq, is_empty}
use mb_printer_cli.Common.Strings.{hex_digit, split, parse_radix}
use mb_printer_cli.Common.Result.{Result, ok, err, ◌>>=◌, ◌>>◌, ok_or, reject_if}

abbrev pub pjl_header : List ℕ
pjl_header = 27 ∷ codes "%-12345X@PJL\r\n"

abbrev pub pjl_footer : List ℕ
pjl_footer = 27 ∷ codes "%-12345X"

abbrev pub password_key : List ℕ
password_key =
    0x0d ∷ 0xae ∷ 0xe4 ∷ 0xa1 ∷ 0x8b ∷ 0x7f ∷ 0x26 ∷ 0x5e ∷ 0x72 ∷ 0x5b ∷ 0x17 ∷ 0x7a ∷ 0x71 ∷ 0xcd
    ∷ 0xec ∷ 0x4d ∷ []

abbrev pub reboot_command : List ℕ
reboot_command =
    0x1b ∷ 0x69 ∷ 0x58 ∷ 0x2a ∷ 0x31 ∷ 0x03 ∷ 0 ∷ 0x01 ∷ 0x2e ∷ 0 ∷ 0 ∷ 0 ∷ 0x2c ∷ 0 ∷ []

unfoldable pub pjl : List ℕ → List ℕ
pjl command = pjl_header ++ (codes "@PJL " ++ (command ++ (codes "\r\n" ++ pjl_footer)))

unfoldable pub wifi_scan_start : List ℕ
unfolding pjl
wifi_scan_start = pjl (codes "DEFAULT OBJBRNET=\"458845:31-3a\"")

unfoldable pub wifi_scan_results : List ℕ
unfolding pjl
wifi_scan_results = pjl (codes "INFO AVAILABLEWLAN")

abbrev is_oid_byte : ℕ → Bool
is_oid_byte b = leb b'0' b && leb b b'9' || b == b'.'

unfoldable pub wifi_inquire : List ℕ → Result String (List ℕ)
wifi_inquire oid =
    if is_empty oid || not (all is_oid_byte oid)
    then err "invalid Brother OBJBRNET OID"
    else ok (
        pjl_header
        ++ (codes "@PJL DEFAULT OBJBRNET=\""
            ++ (oid ++ (codes "\"\r\n@PJL INQUIRE OBJBRNET\r\n" ++ pjl_footer))))

-- `{byte:x}` of a byte: one digit or two.
unfoldable pub show_hex : ℕ → Text
unfolding hex_digit
show_hex b = if ltb b 16 then hex_digit b ∷ [] else hex_digit (b / 16) ∷ hex_digit (b % 16) ∷ []

unfoldable pub encode_ssid : List ℕ → Text
unfolding show_hex
encode_ssid [] = []
encode_ssid (b ∷ value) = 45 ∷ (show_hex b ++ encode_ssid value)

-- `trim_matches`, from the start and from the end.
unfoldable pub trim_start_matches : (ℕ → Bool) → Text → Text
trim_start_matches test [] = []
trim_start_matches test (c ∷ s) =
    let rest = trim_start_matches test s in if test c then rest else c ∷ s

unfoldable pub trim_end_matches : (ℕ → Bool) → Text → Text
trim_end_matches test [] = []
trim_end_matches test (c ∷ s) =
    let rest = trim_end_matches test s in if is_empty rest && test c then [] else c ∷ rest

abbrev pub trim_matches : (ℕ → Bool) → Text → Text
trim_matches test s = trim_end_matches test (trim_start_matches test s)

abbrev pub is_quote : ℕ → Bool
is_quote c = c == 34 || c == 32

abbrev pub is_hyphen : ℕ → Bool
is_hyphen c = c == 45

abbrev pub and_all : Option ℕ → Option (List ℕ) → Option (List ℕ)
and_all none rest = none
and_all (some n) none = none
and_all (some n) (some rest) = some (n ∷ rest)

-- `map(|part| u8::from_str_radix(part, 16).ok()).collect()`
unfoldable pub hex_bytes : List Text → Option (List ℕ)
hex_bytes [] = some []
hex_bytes (part ∷ parts) = and_all (parse_radix 16 256 part) (hex_bytes parts)

abbrev pub decoded_or : Text → Option Text → Text
decoded_or raw none = raw
decoded_or raw (some t) = t

abbrev pub from_bytes : (List ℕ → Option Text) → Option (List ℕ) → Option Text
from_bytes utf8 none = none
from_bytes utf8 (some bytes) = utf8 bytes

-- `decode_ssid`; `utf8` is `String::from_utf8`.
unfoldable pub decode_ssid : (List ℕ → Option Text) → Text → Text
unfolding trim_start_matches trim_end_matches hex_bytes
decode_ssid utf8 value =
    decoded_or (trim_matches is_quote value) (
      from_bytes utf8 (hex_bytes (split 45 (trim_matches is_hyphen (trim_matches is_quote value)))))

abbrev pub nth_key : ℕ → List ℕ → ℕ
nth_key i [] = 0
nth_key zero (k ∷ key) = k
nth_key (suc i) (k ∷ key) = nth_key i key

abbrev pub key_byte : ℕ → ℕ
key_byte i = nth_key (i % 16) password_key

unfoldable pub xor_from : ℕ → List ℕ → List ℕ
xor_from i [] = []
xor_from i (b ∷ value) = bit_xor b (key_byte i) ∷ xor_from (i + 1) value

unfoldable pub xor_password : List ℕ → List ℕ
unfolding xor_from
xor_password value = xor_from 0 value

abbrev named : Text → List (Text × ℕ) → Option ℕ
named name [] = none
named name ((known, n) ∷ table) = if text_eq known name then some n else named name table

unfoldable pub encryption_code : Text → Option ℕ
encryption_code name = named name (
    (codes "none", 1)
    ∷ (codes "wep", 2)
    ∷ (codes "tkip", 3)
    ∷ (codes "aes", 4)
    ∷ (codes "ckip", 5)
    ∷ (codes "cmic", 6)
    ∷ (codes "ckip-cmic", 7)
    ∷ (codes "tkip-aes", 8)
    ∷ [])

unfoldable pub authentication_code : Text → Option ℕ
authentication_code name = named name (
    (codes "open", 1)
    ∷ (codes "shared-key", 2)
    ∷ (codes "wpa-psk", 3)
    ∷ (codes "leap", 7)
    ∷ (codes "eap-fast", 13)
    ∷ (codes "peap", 15)
    ∷ (codes "eap-ttls", 16)
    ∷ (codes "eap-tls", 17)
    ∷ (codes "wpa-only", 18)
    ∷ (codes "wpa2-only", 19)
    ∷ [])

-- A code below 100 in decimal digits.
abbrev show_code : ℕ → Text
show_code n = if ltb n 10 then (n + 48) ∷ [] else (n / 10 + 48) ∷ (n % 10 + 48) ∷ []

-- The parameter that carries the password, if there is one.
unfoldable pub password_params : ℕ → ℕ → List ℕ → List (Text × List ℕ)
unfolding xor_password
password_params encryption authentication password =
    if authentication == 3 || authentication == 18 || authentication == 19
    then (codes "99458890", xor_password password) ∷ []
    else if encryption == 2
    then (codes "99458889.1", xor_password password) ∷ []
    else []

unfoldable pub wifi_params : List ℕ → List ℕ → ℕ → ℕ → List (Text × List ℕ)
unfolding encode_ssid password_params
wifi_params ssid password encryption authentication =
    (codes "458867", codes "0")
    ∷ (codes "458878", codes "1")
    ∷ (codes "458877", encode_ssid ssid)
    ∷ (password_params encryption authentication password
        ++ ((codes "458880", show_code encryption)
            ∷ (codes "458881", show_code authentication)
            ∷ (codes "459138.2", codes "1")
            ∷ (codes "459138.3", codes "0")
            ∷ (codes "458865", codes "1")
            ∷ []))

unfoldable pub lines_of : List (Text × List ℕ) → List ℕ
lines_of [] = []
lines_of ((oid, value) ∷ params) =
    codes "@PJL DEFAULT OBJBRNET=\""
    ++ (oid ++ (58 ∷ (value ++ (codes "\"\r\n" ++ lines_of params))))

abbrev pub reboot_of : Bool → List ℕ
reboot_of true = reboot_command
reboot_of false = []

unfoldable pub wifi_configure : List ℕ → List ℕ → Text → Text → Bool → Result String (List ℕ)
unfolding encryption_code authentication_code lines_of wifi_params
wifi_configure ssid password encryption_name authentication_name reboot = do
  encryption ← ok_or (encryption_code encryption_name) "unknown Wi-Fi encryption"
  authentication ← ok_or (authentication_code authentication_name) "unknown Wi-Fi authentication"
  reject_if (is_empty ssid) "SSID must not be empty"
  reject_if (not (authentication == 1) && is_empty password) "authentication requires a password"
  reject_if (authentication == 1 && not (encryption == 1))
      "open authentication requires no encryption"
  ok (
      pjl_header
      ++ (lines_of (wifi_params ssid password encryption authentication)
          ++ (pjl_footer ++ reboot_of reboot)))
