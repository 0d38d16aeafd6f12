-- ===== src/Common/Grid.antt =====
-- Lists filled by loops whose rounds may fail, for pixels by row and column.
use Prim.Native.Nat.{ℕ, zero, suc, ◌+◌, ◌*◌, ◌≤◌, ◌<◌}
use mathlib.Core.Path.{◌≡◌, refl, sym, ap, ◌∙◌}
use mathlib.Core.List.{List, [], ◌∷◌, ◌++◌}
use mathlib.Core.Option.{Option, none, some}
use native.Mathlib.Omega.{arith}
use mb_printer_cli.Common.Tests.{if◌then◌else◌, leb}
use mb_printer_cli.Common.Lists.{length, get_elem?, take, drop, length-append}

module _ {ℓ} {A : Type ℓ} where
  abbrev pub put_item : Option A → Option (List A) → Option (List A)
  put_item none rest = none
  put_item (some a) none = none
  put_item (some a) (some rest) = some (a ∷ rest)

  -- `n` rounds from the index `i` on, an item each.
  unfoldable pub items : ℕ → ℕ → (ℕ → Option A) → Option (List A)
  items zero i f = some []
  items (suc n) i f = put_item (f i) (items n (i + 1) f)

  abbrev pub put_row : Option (List A) → Option (List A) → Option (List A)
  put_row none rest = none
  put_row (some row) none = none
  put_row (some row) (some rest) = some (row ++ rest)

  abbrev row_or : List A → Option (List A) → List A
  row_or row none = row
  row_or row (some r) = r

  -- `n` rounds from the index `i` on, a row each.
  unfoldable pub rows : ℕ → ℕ → (ℕ → Option (List A)) → Option (List A)
  rows zero i f = some []
  rows (suc n) i f = put_row (f i) (rows n (i + 1) f)

  -- `&list[start..start + n]`, which fails out of range.
  unfoldable pub slice : ℕ → ℕ → List A → Option (List A)
  slice start n l = if leb (start + n) (length l) then some (take n (drop start l)) else none

  pub get_elem?-left : (a b : List A) (i : ℕ) → i < length a → get_elem? (a ++ b) i ≡ get_elem? a i
  get_elem?-left [] b i h = absurd (omega arith)
  get_elem?-left (x ∷ a) b zero h = refl
  get_elem?-left (x ∷ a) b (suc i) h = get_elem?-left a b i (omega arith)

  pub get_elem?-right : (a b : List A) (i : ℕ) → get_elem? (a ++ b) (length a + i) ≡ get_elem? b i
  get_elem?-right [] b i = let e : 0 + i ≡ i = omega arith in ap (get_elem? b) e
  get_elem?-right (x ∷ a) b i =
      let e : length (x ∷ a) + i ≡ suc (length a + i) = omega arith in
      ap (get_elem? (x ∷ (a ++ b))) e ∙ get_elem?-right a b i

  pub get_elem?-some : (l : List A) (i : ℕ) → i < length l → (a : A) × (get_elem? l i ≡ some a)
  get_elem?-some [] i h = absurd (omega arith)
  get_elem?-some (x ∷ l) zero h = (x, refl)
  get_elem?-some (x ∷ l) (suc i) h = get_elem?-some l i (omega arith)

  pub get_elem?-drop :
      (l : List A) (start i : ℕ) → get_elem? (drop start l) i ≡ get_elem? l (start + i)
  get_elem?-drop l zero i = let e : i ≡ 0 + i = omega arith in ap (get_elem? l) e
  get_elem?-drop [] (suc start) i = refl
  get_elem?-drop (x ∷ l) (suc start) i =
      let e : suc (start + i) ≡ suc start + i = omega arith in
      get_elem?-drop l start i ∙ ap (get_elem? (x ∷ l)) e

  get_elem?-take : (l : List A) (n i : ℕ) → i < n → get_elem? (take n l) i ≡ get_elem? l i
  get_elem?-take l zero i h = absurd (omega arith)
  get_elem?-take [] (suc n) i h = refl
  get_elem?-take (x ∷ l) (suc n) zero h = refl
  get_elem?-take (x ∷ l) (suc n) (suc i) h = get_elem?-take l n i (omega arith)

  pub length-take : (n : ℕ) (l : List A) → n ≤ length l → length (take n l) ≡ n
  length-take zero l h = refl
  length-take (suc n) [] h = absurd (omega arith)
  length-take (suc n) (x ∷ l) h = ap (λ k. suc k) (length-take n l (omega arith))

  length-drop_add : (start n : ℕ) (l : List A) → start + n ≤ length l → n ≤ length (drop start l)
  length-drop_add zero n l h = omega arith
  length-drop_add (suc start) n [] h = absurd (omega arith)
  length-drop_add (suc start) n (x ∷ l) h = length-drop_add start n l (omega arith)

  -- A slice in range is there, with the items of the list.
  pub slice_lem :
      (start n : ℕ) (l : List A)
      → start + n ≤ length l
      → (row : List A) × ((slice start n l ≡ some row)
          × (length row ≡ n)
          × ((i : ℕ) → i < n → get_elem? row i ≡ get_elem? l (start + i)))
  unfolding slice
  slice_lem start n l h = (
    take n (drop start l),
    (
      ground arith,
      length-take n (drop start l) (length-drop_add start n l h),
      λ i p. get_elem?-take (drop start l) n i p ∙ get_elem?-drop l start i,
    ),
  )

  pub items_lem :
      (n i : ℕ) (f : ℕ → Option A)
      → ((k : ℕ) → i ≤ k → k < i + n → (a : A) × (f k ≡ some a))
      → (l : List A) × ((items n i f ≡ some l)
          × (length l ≡ n)
          × ((k : ℕ) → k < n → get_elem? l k ≡ f (i + k)))
  unfolding items
  items_lem zero i f h = ([], (refl, refl, λ k p. absurd (omega arith)))
  items_lem (suc n) i f h =
      let (a, e) = h i (omega arith) (omega arith) in
      let (l, (g, m, at)) = items_lem n (i + 1) f (λ k p q. h k (omega arith) (omega arith)) in
      (a ∷ l, (rw (e, g) refl, omega arith, nth a l e at))
    where
      nth :
          (a : A) (l : List A)
          → f i ≡ some a
          → ((k : ℕ) → k < n → get_elem? l k ≡ f (i + 1 + k))
          → (k : ℕ) → k < suc n
          → get_elem? (a ∷ l) k ≡ f (i + k)
      nth a l e at zero p = sym e ∙ ap f (omega arith)
      nth a l e at (suc k) p = at k (omega arith) ∙ ap f (omega arith)

  pub rows_lem :
      (n i w : ℕ) (f : ℕ → Option (List A))
      → ((k : ℕ) → i ≤ k → k < i + n → (row : List A) × ((f k ≡ some row) × (length row ≡ w)))
      → (l : List A) × ((rows n i f ≡ some l)
          × (length l ≡ n * w)
          × ((k x : ℕ) (row : List A)
              → k < n
              → x < w
              → f (i + k) ≡ some row
              → get_elem? l (k * w + x) ≡ get_elem? row x))
  unfolding rows
  rows_lem zero i w f h = ([], (refl, omega arith, λ k x row p q e. absurd (omega arith)))
  rows_lem (suc n) i w f h =
      let (row, (e, m)) = h i (omega arith) (omega arith) in
      let (l, (g, m', at)) = rows_lem n (i + 1) w f (λ k p q. h k (omega arith) (omega arith)) in
      (row ++ l, (rw (e, g) refl, length-append row l ∙ omega arith, nth row l e m at))
    where
      nth :
          (row l : List A)
          → f i ≡ some row
          → length row ≡ w
          → ((k x : ℕ) (r : List A)
              → k < n
              → x < w
              → f (i + 1 + k) ≡ some r
              → get_elem? l (k * w + x) ≡ get_elem? r x)
          → (k x : ℕ) (r : List A) → k < suc n
          → x < w
          → f (i + k) ≡ some r
          → get_elem? (row ++ l) (k * w + x) ≡ get_elem? r x
      nth row l e m at zero x r p q g =
          let z : 0 * w + x ≡ x = omega arith in
          let i0 : i ≡ i + 0 = omega arith in
          let same : row ≡ r = ap (row_or row) (sym e ∙ ap f i0 ∙ g) in
          ap (get_elem? (row ++ l)) z
          ∙ get_elem?-left row l x (omega arith)
          ∙ ap (λ s. get_elem? s x) same
      nth row l e m at (suc k) x r p q g =
          let z : suc k * w + x ≡ w + (k * w + x) = grind arith in
          let z' : suc k * w + x ≡ length row + (k * w + x) =
            z ∙ ap (λ v. v + (k * w + x)) (sym m) in
          let j : i + 1 + k ≡ i + suc k = omega arith in
          ap (get_elem? (row ++ l)) z'
          ∙ get_elem?-right row l (k * w + x)
          ∙ at k x r (omega arith) q (ap f j ∙ g)
