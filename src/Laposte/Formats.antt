-- ===== src/Laposte/Formats.antt =====
-- The formats of La Poste sheets (src/laposte.rs): their codes, and the slots of their grids.
use mb_printer_cli.Common.{ℕ, zero, suc, ◌+◌, ◌≡◌, refl, List, [], ◌∷◌, map}
use mb_printer_cli.Common.Text.{lowercase, text_eq, to_ascii_lowercase}
use mb_printer_cli.Common.Result.{ok}
use mb_printer_cli.Laposte.{
  LaposteFormat, l24a, l24b, l21a, l18a, l16a, l14a, l12a, l24a_sheet, Floats, slot_count, grid,
  Slot, slots, from_str, format_code,
}

-- `n` numbers from `k` on.
abbrev pub numbers : ℕ → ℕ → List ℕ
numbers k zero = []
numbers k (suc n) = k ∷ numbers (k + 1) n

abbrev pub number_of : Slot → ℕ
number_of s = s.slot

-- The grid of each format has as many slots as the format declares, numbered from 1 on in their order.
pub slots_numbered :
    (f : Floats) (format : LaposteFormat) (page : ℕ)
    → map number_of (slots f (grid f format) page) ≡ numbers 1 (slot_count format)
unfolding slots grid slot_count
slots_numbered f l24a page = refl
slots_numbered f l24b page = refl
slots_numbered f l21a page = refl
slots_numbered f l18a page = refl
slots_numbered f l16a page = refl
slots_numbered f l14a page = refl
slots_numbered f l12a page = refl
slots_numbered f l24a_sheet page = refl

-- The code of each format parses back to the format, in capitals and in small letters.
pub from_str-format_code :
    (format : LaposteFormat)
    → (from_str (format_code format) ≡ ok format)
      × (from_str (lowercase (format_code format)) ≡ ok format)
unfolding from_str format_code text_eq to_ascii_lowercase
from_str-format_code l24a = (refl, refl)
from_str-format_code l24b = (refl, refl)
from_str-format_code l21a = (refl, refl)
from_str-format_code l18a = (refl, refl)
from_str-format_code l16a = (refl, refl)
from_str-format_code l14a = (refl, refl)
from_str-format_code l12a = (refl, refl)
from_str-format_code l24a_sheet = (refl, refl)
