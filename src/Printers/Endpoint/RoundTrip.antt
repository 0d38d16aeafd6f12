-- ===== src/Printers/Endpoint/RoundTrip.antt =====
-- The URI of an endpoint parses to the endpoint (src/printers.rs).
use mb_printer_cli.Common.{
  ℕ, ◌≡◌, ◌<◌, refl, ap, true, false, ◌||◌, Option, none, some, [], ◌∷◌, ◌++◌, arith,
}
use mb_printer_cli.Common.Text.{Text, codes, is_empty, trim, starts_with}
use mb_printer_cli.Common.Strings.{strip_prefix, split, show_hex2, show_hex4, show_u8}
use mb_printer_cli.Common.Strings.Digits.{
  parse_radix-show_hex2, parse_radix-show_hex4, parse_radix-show_u8, rsplit_once-append,
  rsplit_once-show_u8, split-append, split_single, show_hex2-All, show_hex4-All,
}
use mb_printer_cli.Common.Result.{ok}
use mb_printer_cli.Printers.Endpoint.{
  PrinterTransport, file, tcp, serial, usb, ble, rfcomm, ipp, default_baud, nonempty, hex, hex_byte,
  parse_usb, rfcomm_parts, parse_rfcomm, parse_local, show_input, parse, uri,
}

-- A text that is not blank.
abbrev pub IsNonblank : Text → Type 0
IsNonblank s = is_empty (trim s) ≡ false

abbrev pub IsByte : Option ℕ → Type 0
IsByte none = Unit
IsByte (some n) = n < 256

abbrev pub by_device : Text → PrinterTransport
by_device device = usb (record {
  device = some (codes "usb-device:" ++ device);
  vid = none;
  pid = none;
  interface = none;
  out = none;
  input = none;
})

abbrev pub by_numbers : ℕ → ℕ → ℕ → ℕ → Option ℕ → PrinterTransport
by_numbers vid pid interface out input = usb (record {
  device = none;
  vid = some vid;
  pid = some pid;
  interface = some interface;
  out = some out;
  input = input;
})

-- The endpoints that a URI describes whole.
pub data IsCanonical : PrinterTransport → Type 0 where
  a_file : (path : Text) → IsNonblank path → IsCanonical (file path)
  a_tcp : (address : Text) → IsNonblank address → IsCanonical (tcp address none none)
  a_serial : (path : Text) → IsNonblank path → IsCanonical (serial path default_baud)
  a_device : (device : Text) → IsNonblank device → IsCanonical (by_device device)
  numbers :
      (vid pid interface out : ℕ) (input : Option ℕ)
      → vid < 65536
      → pid < 65536
      → interface < 256
      → out < 256
      → IsByte input
      → IsCanonical (by_numbers vid pid interface out input)
  a_ble : (address : Text) → IsNonblank address → IsCanonical (ble address)
  an_rfcomm :
      (address : Text) (channel : ℕ)
      → IsNonblank address
      → channel < 256
      → IsCanonical (rfcomm address channel)
  an_ipp :
      (u : Text)
      → (starts_with u (codes "ipp://") || starts_with u (codes "ipps://")) ≡ true
      → IsCanonical (ipp u none)

nonempty_nonblank : (s what : Text) → IsNonblank s → nonempty s what ≡ ok s
unfolding nonempty
nonempty_nonblank s what h = ground arith

hex-show_hex4 : (n : ℕ) → n < 65536 → hex (show_hex4 n) ≡ ok n
unfolding hex
hex-show_hex4 n h = ground (arith, parse_radix-show_hex4 n h)

hex_byte-show_hex2 : (message : Text) (n : ℕ) → n < 256 → hex_byte message (show_hex2 n) ≡ ok n
unfolding hex_byte hex
hex_byte-show_hex2 message n h = ground (arith, parse_radix-show_hex2 n h)

rfcomm_parts-show :
    (address : Text) (channel : ℕ)
    → channel < 256
    → rfcomm_parts (address ++ (58 ∷ show_u8 channel)) ≡ (address, channel)
unfolding rfcomm_parts
rfcomm_parts-show address channel h =
    rw
      (
        rsplit_once-append 58 address (show_u8 channel) (rsplit_once-show_u8 channel h),
        parse_radix-show_u8 channel h,
      )
      refl

parse_rfcomm-show :
    (address : Text) (channel : ℕ)
    → IsNonblank address
    → channel < 256
    → parse_rfcomm (address ++ (58 ∷ show_u8 channel)) ≡ ok (rfcomm address channel)
unfolding parse_rfcomm
parse_rfcomm-show address channel h b =
    rw (rfcomm_parts-show address channel b, nonempty_nonblank address (codes "RFCOMM address") h)
      refl

-- An address of the Internet Printing Protocol has none of the earlier prefixes.
parse-ipp :
    (u : Text)
    → (starts_with u (codes "ipp://") || starts_with u (codes "ipps://")) ≡ true
    → parse u ≡ ok (ipp u none)
unfolding parse strip_prefix starts_with
parse-ipp u h = ground arith

split_four :
    (vid pid interface : ℕ) (rest : Text)
    → vid < 65536
    → pid < 65536
    → interface < 256
    → split 58
        (show_hex4 vid ++ (58 ∷ (show_hex4 pid ++ (58 ∷ (show_hex2 interface ++ (58 ∷ rest))))))
      ≡ show_hex4 vid ∷ show_hex4 pid ∷ show_hex2 interface ∷ split 58 rest
split_four vid pid interface rest a b c =
    rw
      (
        split-append 58 (show_hex4 vid)
            (show_hex4 pid ++ (58 ∷ (show_hex2 interface ++ (58 ∷ rest)))) (show_hex4-All vid a),
        split-append 58 (show_hex4 pid) (show_hex2 interface ++ (58 ∷ rest)) (show_hex4-All pid b),
        split-append 58 (show_hex2 interface) rest (show_hex2-All interface c),
      )
      refl

append_nil : (a : Text) → a ++ [] ≡ a
append_nil [] = refl
append_nil (c ∷ a) = ap (λ t. c ∷ t) (append_nil a)

parse_usb-show :
    (vid pid interface out : ℕ) (input : Option ℕ)
    → vid < 65536
    → pid < 65536
    → interface < 256
    → out < 256
    → IsByte input
    → parse_usb (
        show_hex4 vid
        ∷ show_hex4 pid
        ∷ show_hex2 interface
        ∷ split 58 (show_hex2 out ++ show_input input))
      ≡ ok (by_numbers vid pid interface out input)
unfolding parse_usb
parse_usb-show vid pid interface out none a b c d e =
    rw
      (
        append_nil,
        split_single 58 (show_hex2 out) (show_hex2-All out d),
        hex-show_hex4 vid a,
        hex-show_hex4 pid b,
        hex_byte-show_hex2 _ interface c,
        hex_byte-show_hex2 _ out d,
      )
      refl
parse_usb-show vid pid interface out (some input) a b c d e =
    rw
      (
        split-append 58 (show_hex2 out) (show_hex2 input) (show_hex2-All out d),
        split_single 58 (show_hex2 input) (show_hex2-All input e),
        hex-show_hex4 vid a,
        hex-show_hex4 pid b,
        hex_byte-show_hex2 _ interface c,
        hex_byte-show_hex2 _ out d,
        hex_byte-show_hex2 _ input e,
      )
      refl

-- The URI of an endpoint parses to the same endpoint, where the endpoint has no more than a URI can
-- say: no blank path or address, the default speed, no options for the status or a certificate, and
-- numbers of the width of their fields.
pub parse-uri : (t : PrinterTransport) → IsCanonical t → parse (uri t) ≡ ok t
unfolding parse parse_local uri strip_prefix starts_with
parse-uri _ (a_file path h) = rw (nonempty_nonblank path (codes "file path") h) refl
parse-uri _ (a_tcp address h) = rw (nonempty_nonblank address (codes "TCP address") h) refl
parse-uri _ (a_serial path h) = rw (nonempty_nonblank path (codes "serial path") h) refl
parse-uri _ (a_device device h) = rw (nonempty_nonblank device (codes "USB device selector") h) refl
parse-uri _ (numbers vid pid interface out input a b c d e) =
    rw (split_four vid pid interface (show_hex2 out ++ show_input input) a b c)
      (parse_usb-show vid pid interface out input a b c d e)
parse-uri _ (a_ble address h) = rw (nonempty_nonblank address (codes "BLE address") h) refl
parse-uri _ (an_rfcomm address channel h b) = parse_rfcomm-show address channel h b
parse-uri _ (an_ipp u h) = parse-ipp u h
