-- ===== src/Common/Sort.antt =====
-- The stable sort of the standard library, and what a list of items with distinct keys keeps of it:
-- the item found under each key, also after the list is collected into a map.
use Prim.Native.Nat.{ℕ, ◌+◌, ◌≤◌}
use mathlib.Core.Path.{◌≡◌, refl}
use mathlib.Core.Logic.{inl, inr}
use mathlib.Core.Bool.{Bool}
use mathlib.Core.List.{List, [], ◌∷◌, map}
use mathlib.Core.Option.{Option, none, some}
use native.Mathlib.Omega.{arith}
use mb_printer_cli.Common.Tests.{if◌then◌else◌, ◌==◌, Bool-cases}
use mb_printer_cli.Common.Lists.{length, All}
use mb_printer_cli.Common.Map.{
  Map, lookup, insert, values, Unique, lookup-insert, insert-Unique, length-insert,
}

-- `sort_by_key`: stable, `le` compares the keys.
module _ {ℓ} {A : Type ℓ} (le : A → A → Bool) where
  unfoldable pub insert_by : A → List A → List A
  insert_by x [] = x ∷ []
  insert_by x (y ∷ ys) = if le x y then x ∷ y ∷ ys else y ∷ insert_by x ys

  unfoldable pub sort_by : List A → List A
  unfolding insert_by
  sort_by [] = []
  sort_by (x ∷ xs) = insert_by x (sort_by xs)

  pub length-insert_by : (x : A) (ys : List A) → length (insert_by x ys) ≡ length ys + 1
  unfolding insert_by
  length-insert_by x [] = refl
  length-insert_by x (y ∷ ys) = ground (arith, length-insert_by x ys)

  pub length-sort_by : (xs : List A) → length (sort_by xs) ≡ length xs
  unfolding sort_by
  length-sort_by [] = refl
  length-sort_by (x ∷ xs) = ground (arith, length-sort_by xs, length-insert_by x (sort_by xs))

module _ {ℓ κ} {A : Type ℓ} (le : A → A → Bool) (P : A → Type κ) where
  insert_by-All : (x : A) (ys : List A) → P x → All P ys → All P (insert_by le x ys)
  unfolding insert_by
  insert_by-All x [] p h = (p, tt)
  insert_by-All x (y ∷ ys) p h = elim (Bool-cases (le x y)) [
    | inl t ↦ rw t (p, h)
    | inr f ↦ rw f (h.0, insert_by-All x ys p h.1)
  ]

  pub sort_by-All : (xs : List A) → All P xs → All P (sort_by le xs)
  unfolding sort_by
  sort_by-All [] h = tt
  sort_by-All (x ∷ xs) h = insert_by-All x (sort_by le xs) h.0 (sort_by-All xs h.1)

module _ {ℓ} {A : Type ℓ} (id : A → ℕ) where
  unfoldable pub find_id : ℕ → List A → Option A
  find_id k [] = none
  find_id k (x ∷ xs) = if id x == k then some x else find_id k xs

  abbrev pub DistinctIds : List A → Type ℓ
  DistinctIds [] = Unit
  DistinctIds (x ∷ xs) = (find_id (id x) xs ≡ none) × DistinctIds xs

  -- `into_iter().map(|x| (x.id, x)).collect::<HashMap<_, _>>()`
  unfoldable pub collect_from : Map A → List A → Map A
  collect_from m [] = m
  collect_from m (x ∷ xs) = collect_from (insert (id x) x m) xs

  pub lookup-collect_from :
      (k : ℕ) (m : Map A) (xs : List A)
      → DistinctIds xs
      → lookup k (collect_from m xs) ≡ elim (find_id k xs) [ none ↦ lookup k m | some x ↦ some x ]
  unfolding collect_from find_id
  lookup-collect_from k m [] d = refl
  lookup-collect_from k m (x ∷ xs) d =
      ground (arith, lookup-collect_from k (insert (id x) x m) xs, lookup-insert (id x) k x m)

  pub collect_from-Unique : (m : Map A) (xs : List A) → Unique m → Unique (collect_from m xs)
  unfolding collect_from
  collect_from-Unique m [] u = u
  collect_from-Unique m (x ∷ xs) u =
      collect_from-Unique (insert (id x) x m) xs (insert-Unique (id x) x m u)

  -- Each entry stands under its item's key.
  abbrev pub Keyed : Map A → Type 0
  Keyed [] = Unit
  Keyed ((k, x) ∷ m) = (id x ≡ k) × Keyed m

  pub insert-Keyed : (x : A) (m : Map A) → Keyed m → Keyed (insert (id x) x m)
  unfolding insert
  insert-Keyed x [] h = (refl, tt)
  insert-Keyed x ((j, y) ∷ m) h = ground (arith, insert-Keyed x m)

  pub find_id-values : (k : ℕ) (m : Map A) → Keyed m → find_id k (values m) ≡ lookup k m
  unfolding find_id values lookup
  find_id-values k [] h = refl
  find_id-values k ((j, x) ∷ m) h = ground (arith, find_id-values k m)

  pub values-DistinctIds : (m : Map A) → Keyed m → Unique m → DistinctIds (values m)
  unfolding values
  values-DistinctIds [] h u = tt
  values-DistinctIds ((j, x) ∷ m) h u = ground (arith, values-DistinctIds m, find_id-values j m)

  module _ (le : A → A → Bool) where
    pub find_id-insert_by :
        (k : ℕ) (x : A) (ys : List A)
        → find_id (id x) ys ≡ none
        → find_id k (insert_by le x ys) ≡ (if id x == k then some x else find_id k ys)
    unfolding find_id insert_by
    find_id-insert_by k x [] h = refl
    find_id-insert_by k x (y ∷ ys) h = ground (arith, find_id-insert_by k x ys)

    pub find_id-sort_by :
        (k : ℕ) (xs : List A) → DistinctIds xs → find_id k (sort_by le xs) ≡ find_id k xs
    unfolding find_id sort_by
    find_id-sort_by k [] d = refl
    find_id-sort_by k (x ∷ xs) d = ground (
      arith,
      find_id-insert_by k x (sort_by le xs),
      find_id-sort_by k xs,
      find_id-sort_by (id x) xs,
    )

    insert_by-DistinctIds :
        (x : A) (ys : List A)
        → find_id (id x) ys ≡ none
        → DistinctIds ys
        → DistinctIds (insert_by le x ys)
    unfolding find_id insert_by
    insert_by-DistinctIds x [] h d = (refl, tt)
    insert_by-DistinctIds x (y ∷ ys) h d =
        ground (arith, insert_by-DistinctIds x ys, find_id-insert_by (id y) x ys)

    pub sort_by-DistinctIds : (xs : List A) → DistinctIds xs → DistinctIds (sort_by le xs)
    unfolding sort_by
    sort_by-DistinctIds [] d = tt
    sort_by-DistinctIds (x ∷ xs) d =
        insert_by-DistinctIds x (sort_by le xs) (rw (find_id-sort_by (id x) xs d.1) d.0)
          (sort_by-DistinctIds xs d.1)

    -- A map that is written out sorted and read back gives the same item under each key.
    pub lookup-collect-sort :
        (k : ℕ) (m : Map A)
        → Keyed m
        → Unique m
        → lookup k (collect_from [] (sort_by le (values m))) ≡ lookup k m
    unfolding lookup
    lookup-collect-sort k m h u = ground (
      arith,
      lookup-collect_from k [] (sort_by le (values m))
          (sort_by-DistinctIds (values m) (values-DistinctIds m h u)),
      find_id-sort_by k (values m) (values-DistinctIds m h u),
      find_id-values k m h,
    )

-- An item that is changed under its key.
module _ {ℓ} {A : Type ℓ} (id : A → ℕ) (f : A → A) (same : (a : A) → id (f a) ≡ id a) where
  pub find_id-map :
      (k : ℕ) (xs : List A)
      → find_id id k (map f xs) ≡ elim (find_id id k xs) [ none ↦ none | some a ↦ some (f a) ]
  unfolding find_id
  find_id-map k [] = refl
  find_id-map k (x ∷ xs) = ground (arith, find_id-map k xs, same x)

  pub map-DistinctIds : (xs : List A) → DistinctIds id xs → DistinctIds id (map f xs)
  map-DistinctIds [] d = tt
  map-DistinctIds (x ∷ xs) d =
      (rw (same x) (rw (find_id-map (id x) xs) (rw d.0)), map-DistinctIds xs d.1)

module _ {ℓ} {A : Type ℓ} (id : A → ℕ) where
  pub length-collect_from :
      (m : Map A) (xs : List A) → length (collect_from id m xs) ≤ length m + length xs
  unfolding collect_from
  length-collect_from m [] = omega arith
  length-collect_from m (x ∷ xs) =
      ground (arith, length-collect_from (insert (id x) x m) xs, length-insert (id x) x m)
