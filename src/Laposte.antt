-- ===== src/Laposte.antt =====
-- src/laposte.rs: the sheets of La Poste stamps and the slots on them. Lengths are f64, by their bits.
pub mod Formats
use mb_printer_cli.Common.{
  ℕ, zero, suc, ◌+◌, ◌-◌, ◌*◌, Bool, true, false, ◌&&◌, List, [], ◌∷◌, ◌++◌, map, if◌then◌else◌,
  leb,
}
use mb_printer_cli.Common.Text.{Text, codes, text_eq}
use mb_printer_cli.Common.Result.{Result, ok, err}

pub data LaposteFormat : Type 0 where
  l24a l24b l21a l18a l16a l14a l12a l24a_sheet : LaposteFormat

-- The f64 of the language: `+`, `*`, the conversion of an integer, and the literals, of hundredths.
pub record Floats : Type 0 where
  pub add : ℕ → ℕ → ℕ
  pub mul : ℕ → ℕ → ℕ
  pub from : ℕ → ℕ
  pub hundredths : ℕ → ℕ

unfoldable pub slot_count : LaposteFormat → ℕ
slot_count l24a = 24
slot_count l24b = 24
slot_count l24a_sheet = 24
slot_count l21a = 21
slot_count l18a = 18
slot_count l16a = 16
slot_count l14a = 14
slot_count l12a = 12

pub record Grid : Type 0 where
  pub columns : ℕ
  pub rows : ℕ
  pub origin_x_mm : ℕ
  pub origin_y_mm : ℕ
  pub pitch_x_mm : ℕ
  pub pitch_y_mm : ℕ

unfoldable pub new_grid : Floats → ℕ → ℕ → ℕ → ℕ → ℕ → ℕ → Grid
new_grid f columns rows origin_x origin_y pitch_x pitch_y = record {
  columns = columns;
  rows = rows;
  origin_x_mm = f.hundredths origin_x;
  origin_y_mm = f.hundredths origin_y;
  pitch_x_mm = f.hundredths pitch_x;
  pitch_y_mm = f.hundredths pitch_y;
}

unfoldable pub grid : Floats → LaposteFormat → Grid
unfolding new_grid
grid f l24a = new_grid f 3 8 720 1310 6600 3390
grid f l24a_sheet = new_grid f 3 8 720 1310 6600 3390
grid f l24b = new_grid f 3 8 500 350 6825 3670
grid f l21a = new_grid f 3 7 720 1720 6600 3810
grid f l18a = new_grid f 3 6 720 1510 6600 4660
grid f l16a = new_grid f 2 8 2250 1350 10160 3390
grid f l14a = new_grid f 2 7 2250 1720 10160 3810
grid f l12a = new_grid f 2 6 2250 2560 10160 4230

pub record Slot : Type 0 where
  pub source_page : ℕ
  pub slot : ℕ
  pub x_mm : ℕ
  pub y_mm : ℕ
  pub width_mm : ℕ
  pub height_mm : ℕ

unfoldable pub slot_at : Floats → Grid → ℕ → ℕ → ℕ → Slot
slot_at f g page row column = record {
  source_page = page;
  slot = row * g.columns + column + 1;
  x_mm = f.add g.origin_x_mm (f.mul (f.from column) g.pitch_x_mm);
  y_mm = f.add g.origin_y_mm (f.mul (f.from row) g.pitch_y_mm);
  width_mm = f.hundredths 6350;
  height_mm = f.hundredths 3390;
}

-- The columns of a row, the last `n` of them from `column` on.
unfoldable pub row_slots : Floats → Grid → ℕ → ℕ → ℕ → ℕ → List Slot
unfolding slot_at
row_slots f g page row zero column = []
row_slots f g page row (suc n) column =
    slot_at f g page row column ∷ row_slots f g page row n (column + 1)

-- The last `n` rows, from `row` on.
unfoldable pub slots_from : Floats → Grid → ℕ → ℕ → ℕ → List Slot
unfolding row_slots
slots_from f g page zero row = []
slots_from f g page (suc n) row =
    row_slots f g page row g.columns 0 ++ slots_from f g page n (row + 1)

unfoldable pub slots : Floats → Grid → ℕ → List Slot
unfolding slots_from
slots f g page = slots_from f g page g.rows 0

-- `to_ascii_uppercase`
abbrev pub upper_char : ℕ → ℕ
upper_char c = if leb 97 c && leb c 122 then c - 32 else c

abbrev pub uppercase : Text → Text
uppercase = map upper_char

abbrev pub parsed : Text → Text → Result Text LaposteFormat
parsed value s =
    if text_eq s (codes "L24A")
    then ok l24a
    else if text_eq s (codes "L24B")
    then ok l24b
    else if text_eq s (codes "L21A")
    then ok l21a
    else if text_eq s (codes "L18A")
    then ok l18a
    else if text_eq s (codes "L16A")
    then ok l16a
    else if text_eq s (codes "L14A")
    then ok l14a
    else if text_eq s (codes "L12A")
    then ok l12a
    else if text_eq s (codes "SHEET")
    then ok l24a_sheet
    else if text_eq s (codes "L24A_SHEET")
    then ok l24a_sheet
    else err (codes "unknown La Poste format " ++ value)

unfoldable pub from_str : Text → Result Text LaposteFormat
from_str value = parsed value (uppercase value)

-- `Display`, by `{:?}`.
unfoldable pub to_string : LaposteFormat → Text
to_string l24a = codes "L24A"
to_string l24b = codes "L24B"
to_string l21a = codes "L21A"
to_string l18a = codes "L18A"
to_string l16a = codes "L16A"
to_string l14a = codes "L14A"
to_string l12a = codes "L12A"
to_string l24a_sheet = codes "L24ASheet"

unfoldable pub format_code : LaposteFormat → Text
format_code l24a = codes "L24A"
format_code l24b = codes "L24B"
format_code l21a = codes "L21A"
format_code l18a = codes "L18A"
format_code l16a = codes "L16A"
format_code l14a = codes "L14A"
format_code l12a = codes "L12A"
format_code l24a_sheet = codes "L24A_SHEET"
