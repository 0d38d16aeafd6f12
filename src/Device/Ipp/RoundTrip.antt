-- ===== src/Device/Ipp/RoundTrip.antt =====
-- What `ipp_attr` of src/device.rs writes, `parse_ipp` reads.
use mb_printer_cli.Common.{
  ℕ, ◌≡◌, ◌≢◌, ◌<◌, true, false, Option, List, [], ◌∷◌, ◌++◌, length, leb, ◌&&◌,
}
use mb_printer_cli.Common.Text.{Text}
use mb_printer_cli.Device.Ipp.{Attributes, value_of, name_after, push_value, ipp_attr}

-- A message between its header and its end: the groups and the attributes.
pub data Item : Type 0 where
  group : ℕ → Item
  attribute : ℕ → List ℕ → List ℕ → Item

abbrev encode_item : Item → List ℕ
encode_item (group d) = d ∷ []
encode_item (attribute tag name value) = ipp_attr tag name value

abbrev pub encode : List Item → List ℕ
encode [] = []
encode (item ∷ items) = encode_item item ++ encode items

-- A delimiter of a group, or a tag of a value with lengths of two bytes.
abbrev pub IsItem : Item → Type 0
IsItem (group d) = ((leb 1 d && leb d 5) ≡ true) × (d ≢ 3)
IsItem (attribute tag name value) =
    ((leb 1 tag && leb tag 5) ≡ false) × (length name < 65536) × (length value < 65536)

-- The values of the attributes, under the name that was given last.
abbrev pub collect : (List ℕ → Text) → Option Text → Attributes → List Item → Attributes
collect lossy current r [] = r
collect lossy current r (group d ∷ items) = collect lossy current r items
collect lossy current r (attribute tag name value ∷ items) =
    collect lossy (name_after lossy name current)
      (push_value (name_after lossy name current) (value_of lossy tag value) r) items
