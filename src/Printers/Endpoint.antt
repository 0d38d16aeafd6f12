-- ===== src/Printers/Endpoint.antt =====
-- The endpoints of src/printers.rs: `PrinterTransport`, `parse`, `uri` and `kind`.
pub mod RoundTrip
use mb_printer_cli.Common.{
  ℕ, ◌+◌, Bool, true, false, ◌||◌, Option, none, some, List, [], ◌∷◌, ◌++◌, if◌then◌else◌, ltb,
}
use mb_printer_cli.Common.Text.{Text, codes, is_empty, trim, starts_with}
use mb_printer_cli.Common.Strings.{
  strip_prefix, split, rsplit_once, parse_radix, trim_0x, show_hex2, show_hex4, show_u8,
}
use mb_printer_cli.Common.Result.{Result, ok, err, ◌>>=◌, ◌>>◌, ok_or, reject_if}
use mb_printer_cli.Printers.Errors.{StoreError, invalid_endpoint}

-- The fields of a USB transport: vid, pid, interface, out, and the optional input.
pub record UsbFields : Type 0 where
  pub device : Option Text
  pub vid : Option ℕ  -- u16
  pub pid : Option ℕ  -- u16
  pub interface : Option ℕ  -- u8
  pub out : Option ℕ  -- u8
  pub input : Option ℕ  -- u8

-- A path stands as its text.
pub data PrinterTransport : Type 0 where
  file : Text → PrinterTransport
  tcp : Text → Option Text → Option Text → PrinterTransport
  serial : Text → ℕ → PrinterTransport
  usb : UsbFields → PrinterTransport
  ble : Text → PrinterTransport
  rfcomm : Text → ℕ → PrinterTransport
  ipp : Text → Option Text → PrinterTransport

abbrev pub default_baud : ℕ
default_baud = 115200

abbrev pub default_rfcomm_channel : ℕ
default_rfcomm_channel = 1

unfoldable pub nonempty : Text → Text → Result StoreError Text
nonempty value what =
    if is_empty (trim value)
    then err (invalid_endpoint (what ++ codes " is required"))
    else ok value

-- The closure `hex`: one u16.
unfoldable pub hex : Text → Result StoreError ℕ
hex raw =
    ok_or (parse_radix 16 65536 (trim_0x raw))
      (invalid_endpoint (codes "invalid USB hexadecimal value " ++ raw))

-- `u8::try_from(hex(raw)?)`
unfoldable pub hex_byte : Text → Text → Result StoreError ℕ
unfolding hex
hex_byte message raw = do n ← hex raw; if ltb n 256 then ok n else err (invalid_endpoint message)

abbrev usb_fields :
    Text → Text → Text → Text → Result StoreError (Option ℕ) → Result StoreError PrinterTransport
usb_fields a b c d e = do
  vid ← hex a
  pid ← hex b
  interface ← hex_byte (codes "USB interface must fit in one byte") c
  out ← hex_byte (codes "USB OUT endpoint must fit in one byte") d
  input ← e
  ok (
      usb (record {
        device = none;
        vid = some vid;
        pid = some pid;
        interface = some interface;
        out = some out;
        input = input;
      }))

abbrev usb_input : Text → Result StoreError (Option ℕ)
usb_input e = do input ← hex_byte (codes "USB IN endpoint must fit in one byte") e; ok (some input)

abbrev usb_shape : StoreError
usb_shape = invalid_endpoint (codes "USB endpoint must be usb:VID:PID:INTERFACE:OUT[:IN]")

unfoldable pub parse_usb : List Text → Result StoreError PrinterTransport
unfolding hex hex_byte
parse_usb (a ∷ b ∷ c ∷ d ∷ []) = usb_fields a b c d (ok none)
parse_usb (a ∷ b ∷ c ∷ d ∷ e ∷ []) = usb_fields a b c d (usb_input e)
parse_usb (a ∷ b ∷ c ∷ d ∷ e ∷ f ∷ parts) = err usb_shape
parse_usb (a ∷ b ∷ c ∷ []) = err usb_shape
parse_usb (a ∷ b ∷ []) = err usb_shape
parse_usb (a ∷ []) = err usb_shape
parse_usb [] = err usb_shape

abbrev numeric_channel : Text → Option ℕ → Option (Text × ℕ)
numeric_channel address none = none
numeric_channel address (some channel) = some (address, channel)

abbrev channel_of : Option (Text × Text) → Option (Text × ℕ)
channel_of none = none
channel_of (some (address, channel)) = numeric_channel address (parse_radix 10 256 channel)

abbrev or_default_channel : Text → Option (Text × ℕ) → Text × ℕ
or_default_channel spec none = (spec, default_rfcomm_channel)
or_default_channel spec (some pair) = pair

-- The address and channel of the text after "rfcomm:".
unfoldable pub rfcomm_parts : Text → Text × ℕ
rfcomm_parts spec = or_default_channel spec (channel_of (rsplit_once 58 spec))

unfoldable pub parse_rfcomm : Text → Result StoreError PrinterTransport
unfolding rfcomm_parts nonempty
parse_rfcomm spec = do
  address ← nonempty (rfcomm_parts spec).0 (codes "RFCOMM address")
  ok (rfcomm (rfcomm_parts spec).0 (rfcomm_parts spec).1)

abbrev usb_device : Text → UsbFields
usb_device value = record {
  device = some value;
  vid = none;
  pid = none;
  interface = none;
  out = none;
  input = none;
}

abbrev parse_device : Text → Text → Result StoreError PrinterTransport
parse_device value device = do
  d ← nonempty device (codes "USB device selector")
  ok (usb (usb_device value))

abbrev unsupported : Text → StoreError
unsupported value = invalid_endpoint (
    codes "unsupported endpoint "
    ++ (value
        ++ codes
            "; expected file:, tcp://, serial:, ipp://, ipps://, ble:, rfcomm:, usb-device:, or usb:"))

-- The prefixes from "ble:" on.
unfoldable pub parse_local : Text → Result StoreError PrinterTransport
unfolding parse_rfcomm parse_usb nonempty
parse_local value = elim (strip_prefix value (codes "ble:")) [
  | some address ↦ do a ← nonempty address (codes "BLE address"); ok (ble a)
  | none ↦ elim (strip_prefix value (codes "rfcomm:")) [
    | some spec ↦ parse_rfcomm spec
    | none ↦ elim (strip_prefix value (codes "usb-device:")) [
      | some device ↦ parse_device value device
      | none ↦ elim (strip_prefix value (codes "usb:")) [
        | some spec ↦ parse_usb (split 58 spec)
        | none ↦ err (unsupported value)
      ]
    ]
  ]
]

unfoldable pub parse : Text → Result StoreError PrinterTransport
unfolding parse_local nonempty
parse value = elim (strip_prefix value (codes "file:")) [
  | some path ↦ do p ← nonempty path (codes "file path"); ok (file p)
  | none ↦ elim (strip_prefix value (codes "tcp://")) [
    | some address ↦ do a ← nonempty address (codes "TCP address"); ok (tcp a none none)
    | none ↦ elim (strip_prefix value (codes "serial:")) [
      | some path ↦ do p ← nonempty path (codes "serial path"); ok (serial p default_baud)
      | none ↦
          if starts_with value (codes "ipp://") || starts_with value (codes "ipps://")
          then ok (ipp value none)
          else parse_local value
    ]
  ]
]

abbrev pub show_input : Option ℕ → Text
show_input none = []
show_input (some n) = 58 ∷ show_hex2 n

abbrev pub show_usb : ℕ → ℕ → ℕ → ℕ → Option ℕ → Text
show_usb vid pid interface out input =
    codes "usb:"
    ++ (show_hex4 vid
        ++ (58
            ∷ (show_hex4 pid
                ++ (58 ∷ (show_hex2 interface ++ (58 ∷ (show_hex2 out ++ show_input input)))))))

abbrev pub usb_uri : Option Text → Option ℕ → Option ℕ → Option ℕ → Option ℕ → Option ℕ → Text
usb_uri (some device) vid pid interface out input = device
usb_uri none (some vid) (some pid) (some interface) (some out) input =
    show_usb vid pid interface out input
usb_uri none none pid interface out input = codes "usb:incomplete"
usb_uri none (some vid) none interface out input = codes "usb:incomplete"
usb_uri none (some vid) (some pid) none out input = codes "usb:incomplete"
usb_uri none (some vid) (some pid) (some interface) none input = codes "usb:incomplete"

unfoldable pub uri : PrinterTransport → Text
uri (file path) = codes "file:" ++ path
uri (tcp address mode status) = codes "tcp://" ++ address
uri (serial path baud) = codes "serial:" ++ path
uri (usb u) = usb_uri u.device u.vid u.pid u.interface u.out u.input
uri (ble address) = codes "ble:" ++ address
uri (rfcomm address channel) = codes "rfcomm:" ++ (address ++ (58 ∷ show_u8 channel))
uri (ipp address certificate) = address

unfoldable pub kind : PrinterTransport → Text
kind (file path) = codes "file"
kind (tcp address mode status) = codes "tcp"
kind (serial path baud) = codes "serial"
kind (usb u) = codes "usb"
kind (ble address) = codes "ble"
kind (rfcomm address channel) = codes "rfcomm"
kind (ipp address certificate) = codes "ipp"
