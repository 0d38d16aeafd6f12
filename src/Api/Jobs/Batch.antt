-- ===== src/Api/Jobs/Batch.antt =====
-- The position of a batch in its plan (`batch_position` of src/api/jobs.rs).
use Prim.Native.Nat.{min, max}
use mb_printer_cli.Common.{
  ℕ, zero, suc, ◌+◌, ◌-◌, ◌*◌, ◌/◌, ◌%◌, ◌≡◌, ◌≤◌, ◌<◌, Bool, false, Option, none, some, List, [],
  ◌∷◌, arith, if◌then◌else◌, ltb, take,
}
use mb_printer_cli.Common.Text.{Text, codes, text_eq}

-- An action of a plan of the SDK, as far as the source looks into it.
pub data Action : Type 0 where
  command_write : Text → List ℕ → Action
  raster_write : List ℕ → Action
  other_action : Action

abbrev pub page_name : Text
page_name = codes "ESC i z print information"

unfoldable pub is_page : Action → Bool
is_page (command_write name bytes) = text_eq name page_name
is_page (raster_write bytes) = false
is_page other_action = false

unfoldable pub count_pages : List Action → ℕ
unfolding is_page
count_pages [] = 0
count_pages (a ∷ actions) = count_pages actions + (if is_page a then 1 else 0)

-- `u16::try_from(x).unwrap_or(0)`
abbrev u16_or_zero : ℕ → ℕ
u16_or_zero x = if ltb x 65536 then x else 0

unfoldable pub position : ℕ → ℕ → ℕ → ℕ × ℕ
position page copies items =
    let divisor = max copies 1 in (min (page / divisor) (items - 1), u16_or_zero (page % divisor))

-- `saturating_sub` is the subtraction of ℕ.
unfoldable pub batch_position : List Action → Option ℕ → ℕ → ℕ → ℕ × ℕ
batch_position actions none copies items = (0, 0)
batch_position actions (some last) copies items =
    position (count_pages (take (last + 1) actions) - 1) copies items

count_pages-take :
    (n : ℕ) (actions : List Action) → count_pages (take n actions) ≤ count_pages actions
unfolding count_pages
count_pages-take zero actions = omega arith
count_pages-take (suc n) [] = omega arith
count_pages-take (suc n) (a ∷ actions) = ground (arith, count_pages-take n actions)

-- The label that is being printed.
abbrev pub page_at : List Action → ℕ → ℕ
page_at actions last = count_pages (take (last + 1) actions) - 1

div-lt : (page copies items : ℕ) → 0 < copies → page < items * copies → page / copies < items
div-lt page copies items p h = grind arith

mod-lt' : (page copies : ℕ) → 0 < copies → page % copies < copies
mod-lt' page copies p = grind arith

div-mod' : (page copies : ℕ) → 0 < copies → (page / copies) * copies + page % copies ≡ page
div-mod' page copies p = grind arith

position-in_range :
    (page copies items : ℕ)
    → 0 < copies
    → copies < 65536
    → page < items * copies
    → position page copies items ≡ (page / copies, page % copies)
unfolding position
position-in_range page copies items p small h =
    let one : max copies 1 ≡ copies = omega arith in
    let least : min (page / copies) (items - 1) ≡ page / copies =
      omega (arith, div-lt page copies items p h) in
    let fits : u16_or_zero (page % copies) ≡ page % copies =
      ground (arith, mod-lt' page copies p) in
    rw one (λ i. (least i, fits i))

-- Where the plan has a page for each label (at least one, and no more than `items * copies`), the
-- reported item and copy lie in range, and together they number the last page that was begun.
pub batch_position_exact :
    (actions : List Action) (last copies items : ℕ)
    → 0 < copies
    → copies < 65536
    → 0 < items
    → count_pages actions ≤ items * copies
    → ((batch_position actions (some last) copies items).0 < items)
      × ((batch_position actions (some last) copies items).1 < copies)
      × ((batch_position actions (some last) copies items).0 * copies
            + (batch_position actions (some last) copies items).1
          ≡ page_at actions last)
unfolding batch_position
batch_position_exact actions last copies items p small q h =
    let below : page_at actions last < items * copies =
      grind (arith, count_pages-take (last + 1) actions) in
    rw (position-in_range (page_at actions last) copies items p small below) (
      div-lt (page_at actions last) copies items p below,
      mod-lt' (page_at actions last) copies p,
      div-mod' (page_at actions last) copies p,
    )
