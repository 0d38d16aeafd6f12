-- ===== src/Tests/Devices.antt =====
-- Concrete printers and endpoints (src/printers.rs).
use mb_printer_cli.Common.{
  ℕ, ◌≡◌, refl, Bool, true, false, Option, none, some, List, [], ◌∷◌, arith, is_some,
}
use mb_printer_cli.Common.Text.{Text, codes}
use mb_printer_cli.Common.Result.{ok}
use mb_printer_cli.Printers.Endpoint.{rfcomm, ble, parse, uri}
use mb_printer_cli.Printers.Endpoint.RoundTrip.{IsCanonical, by_numbers, numbers, parse-uri}
use mb_printer_cli.Printers.Store.{Printer, PrinterStore, empty_store, new, find, validate}

usb-IsCanonical : IsCanonical (by_numbers 1273 8229 0 1 (some 130))
usb-IsCanonical =
    numbers 1273 8229 0 1 (some 130) (omega arith) (omega arith) (omega arith) (omega arith)
      (omega arith)

parse-uri_example :
    parse (uri (by_numbers 1273 8229 0 1 (some 130))) ≡ ok (by_numbers 1273 8229 0 1 (some 130))
parse-uri_example = parse-uri (by_numbers 1273 8229 0 1 (some 130)) usb-IsCanonical

-- A Bluetooth address without a channel whose last part is a decimal number.
last_octet_is_a_channel :
    parse (codes "rfcomm:00:11:22:33:44:55") ≡ ok (rfcomm (codes "00:11:22:33:44") 55)
unfolding parse mb_printer_cli.Common.Strings.strip_prefix mb_printer_cli.Common.Text.starts_with
    mb_printer_cli.Common.Text.trim mb_printer_cli.Common.Strings.rsplit_once
    mb_printer_cli.Common.Strings.parse_radix
last_octet_is_a_channel = refl

abbrev desk : Printer
desk =
    new (codes "a") (λ i. codes "e") (codes "{}") (codes "Desk") (codes "ql-800")
      (ble (codes "x") ∷ [])

abbrev one_printer : PrinterStore
one_printer = record empty_store { default_printer = some (codes "desk"); printers = desk ∷ [] }

one_printer_validates : validate one_printer ≡ ok tt
unfolding validate mb_printer_cli.Common.Text.text_eq mb_printer_cli.Common.Text.trim new
    mb_printer_cli.Common.Text.len find mb_printer_cli.Common.Text.to_ascii_lowercase
one_printer_validates = refl
