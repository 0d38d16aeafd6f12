-- ===== src/Device/Ipp.antt =====
-- The Internet Printing Protocol of src/device.rs: `ipp_attr`, `ipp_request`, the body of
-- `ipp_print_job`, and `parse_ipp`. Bytes are numbers.
pub mod Stream
pub mod Offsets
pub mod Total
pub mod RoundTrip
use mb_printer_cli.Common.{
  ℕ, zero, suc, ◌+◌, ◌-◌, ◌*◌, ◌/◌, ◌%◌, ◌^◌, Bool, true, false, not, ◌&&◌, ◌||◌, Option, none,
  some, List, [], ◌∷◌, ◌++◌, if◌then◌else◌, ltb, leb, ◌==◌, length, get_elem?,
}
use mb_printer_cli.Common.Grid.{slice}
use mb_printer_cli.Common.Int.{ℤ, pos, negsuc}
use mb_printer_cli.Common.Text.{Text, codes, text_eq}

pub data IppValue : Type 0 where
  integer : ℤ → IppValue  -- i32
  text : Text → IppValue

-- The map that `parse_ipp` fills: the values of each name, in the order in which they came. It is
-- looked up by name only, so the names stand in the order of their first values.
abbrev pub Attributes : Type 0
Attributes = List (Text × List IppValue)

-- `result.entry(name).or_insert_with(Vec::new).push(value)`
unfoldable pub push : Text → IppValue → Attributes → Attributes
push name v [] = (name, v ∷ []) ∷ []
push name v ((key, vs) ∷ r) =
    let rest = push name v r in
    if text_eq key name then (key, vs ++ (v ∷ [])) ∷ r else (key, vs) ∷ rest

-- An index or a slice that may be out of range, and what follows.
infixl 5 ◌>>=◌
abbrev pub ◌>>=◌ : {A B : Type 0} → Option A → (A → Option B) → Option B
none >>= f = none
some a >>= f = f a

-- `u16::from_be_bytes([data[offset], data[offset + 1]])`; `none` is an index out of range.
unfoldable pub u16_at : List ℕ → ℕ → Option ℕ
u16_at bytes offset = do
  a ← get_elem? bytes offset
  b ← get_elem? bytes (offset + 1)
  some (a * 256 + b)

-- The name and the value behind a tag and the offset after them, or the loop breaks off.
pub data Reading : Type 0 where
  broken : Reading
  read : List ℕ → List ℕ → ℕ → Reading

-- From the offset of the value's length on, with its test.
abbrev pub read_value : List ℕ → List ℕ → ℕ → ℕ → Option Reading
read_value bytes name offset value_len =
    if ltb (length bytes) (offset + 2 + value_len)
    then some broken
    else do raw ← slice (offset + 2) value_len bytes; some (read name raw (offset + 2 + value_len))

-- From the offset of the name's length on, with its test.
abbrev pub read_name : List ℕ → ℕ → ℕ → Option Reading
read_name bytes offset name_len =
    if ltb (length bytes) (offset + 2 + name_len + 2) then some broken else do
      name ← slice (offset + 2) name_len bytes
      value_len ← u16_at bytes (offset + 2 + name_len)
      read_value bytes name (offset + 2 + name_len) value_len

-- The tests on the offset, and the indices and slices behind them; `none` is one out of range.
unfoldable pub read_attribute : List ℕ → ℕ → Option Reading
unfolding u16_at
read_attribute bytes offset =
    if ltb (length bytes) (offset + 2)
    then some broken
    else do name_len ← u16_at bytes offset; read_name bytes offset name_len

-- `i32::from_be_bytes` of a number of four bytes.
abbrev pub signed : ℕ → ℤ
signed n = if ltb n (2 ^ 31) then pos n else negsuc (2 ^ 32 - n - 1)

abbrev pub four_bytes : List ℕ → Option ℕ
four_bytes (a ∷ b ∷ c ∷ d ∷ []) = some (((a * 256 + b) * 256 + c) * 256 + d)
four_bytes (a ∷ b ∷ c ∷ d ∷ e ∷ rest) = none
four_bytes (a ∷ b ∷ c ∷ []) = none
four_bytes (a ∷ b ∷ []) = none
four_bytes (a ∷ []) = none
four_bytes [] = none

abbrev pub is_text_tag : ℕ → Bool
is_text_tag tag = tag == 0x41 || tag == 0x42 || leb 0x44 tag && leb tag 0x49

abbrev pub text_value : (List ℕ → Text) → ℕ → List ℕ → Option IppValue
text_value lossy tag raw = if is_text_tag tag then some (text (lossy raw)) else none

-- The value of a tag; `lossy` is `String::from_utf8_lossy`.
unfoldable pub value_of : (List ℕ → Text) → ℕ → List ℕ → Option IppValue
value_of lossy tag raw =
    if tag == 0x21 || tag == 0x23
    then elim (four_bytes raw) [ some n ↦ some (integer (signed n)) | none ↦ none ]
    else text_value lossy tag raw

-- The name of the attributes from here on.
unfoldable pub name_after : (List ℕ → Text) → List ℕ → Option Text → Option Text
name_after lossy [] current = current
name_after lossy (b ∷ name) current = some (lossy (b ∷ name))

abbrev pub push_value : Option Text → Option IppValue → Attributes → Attributes
push_value none v r = r
push_value (some name) none r = r
push_value (some name) (some v) r = push name v r

pub data Turn : Type 0 where
  finished : Turn
  goes_on : ℕ → Option Text → Attributes → Turn

-- After the reading of an attribute: `name_len > 0` sets the name.
abbrev pub took : (List ℕ → Text) → ℕ → Option Text → Attributes → Reading → Turn
took lossy tag current r broken = finished
took lossy tag current r (read name raw after) =
    let now = name_after lossy name current in
    goes_on after now (push_value now (value_of lossy tag raw) r)

-- One turn of the loop behind the tag; `none` is an index out of range.
unfoldable pub turn : (List ℕ → Text) → List ℕ → ℕ → ℕ → Option Text → Attributes → Option Turn
unfolding read_attribute value_of name_after push
turn lossy bytes tag offset current r =
    if leb 1 tag && leb tag 5
    then some (if tag == 3 then finished else goes_on offset current r)
    else do reading ← read_attribute bytes offset; some (took lossy tag current r reading)

-- The loop from an offset on; `none` is an index out of range, or too little fuel.
unfoldable pub parse_from :
    (List ℕ → Text) → ℕ → List ℕ → ℕ → Option Text → Attributes → Option Attributes
unfolding turn
parse_from lossy zero bytes offset current r = none
parse_from lossy (suc fuel) bytes offset current r =
    if ltb offset (length bytes)
    then elim (get_elem? bytes offset) [
      | none ↦ none
      | some tag ↦ elim (turn lossy bytes tag (offset + 1) current r) [
        | none ↦ none
        | some t ↦ elim t [
          | finished ↦ some r
          | goes_on after now more ↦ parse_from lossy fuel bytes after now more
        ]
      ]
    ]
    else some r

unfoldable pub parse_ipp : (List ℕ → Text) → List ℕ → Option Attributes
unfolding parse_from
parse_ipp lossy bytes = parse_from lossy (length bytes + 1) bytes 8 none []

-- `(n as u16).to_be_bytes()`
abbrev pub be16 : ℕ → List ℕ
be16 n = (n % 65536 / 256) ∷ (n % 256) ∷ []

-- The strings are the bytes of their UTF-8.
unfoldable pub ipp_attr : ℕ → List ℕ → List ℕ → List ℕ
ipp_attr tag name value = tag ∷ (be16 (length name) ++ (name ++ (be16 (length value) ++ value)))

abbrev pub common_attributes : List ℕ → List ℕ
common_attributes uri =
    ipp_attr 0x47 (codes "attributes-charset") (codes "utf-8")
    ++ (ipp_attr 0x48 (codes "attributes-natural-language") (codes "en")
        ++ ipp_attr 0x45 (codes "printer-uri") uri)

-- The names that a request asks for, of which only the first has the attribute's name.
unfoldable pub ipp_request : List ℕ → List ℕ
unfolding ipp_attr
ipp_request uri =
    2
    ∷ 0
    ∷ 0
    ∷ 0x0b
    ∷ 0
    ∷ 0
    ∷ 0
    ∷ 1
    ∷ 1
    ∷ (common_attributes uri
        ++ (ipp_attr 0x44 (codes "requested-attributes") (codes "media-ready")
            ++ (ipp_attr 0x44 [] (codes "media-default")
                ++ (ipp_attr 0x44 [] (codes "printer-state")
                    ++ (ipp_attr 0x44 [] (codes "printer-state-reasons")
                        ++ (ipp_attr 0x44 [] (codes "printer-make-and-model") ++ (3 ∷ [])))))))

-- The body of `ipp_print_job` and of `ipp_print_job_endpoint`.
unfoldable pub print_job_body : List ℕ → List ℕ → List ℕ → List ℕ
unfolding ipp_attr
print_job_body uri media document =
    2
    ∷ 0
    ∷ 0
    ∷ 2
    ∷ 0
    ∷ 0
    ∷ 0
    ∷ 1
    ∷ 1
    ∷ (common_attributes uri
        ++ (ipp_attr 0x42 (codes "requesting-user-name") (codes "mb-printer")
            ++ (ipp_attr 0x42 (codes "job-name") (codes "mb-printer-label")
                ++ (ipp_attr 0x49 (codes "document-format") (codes "application/octet-stream")
                    ++ (2
                        ∷ (ipp_attr 0x44 (codes "media") media
                            ++ (ipp_attr 0x21 (codes "copies") (0 ∷ 0 ∷ 0 ∷ 1 ∷ [])
                                ++ (3 ∷ document))))))))
