-- ===== src/Common/Values.antt =====
-- Searching and collecting the values of a map whose entries stand under their items' keys.
use Prim.Native.Nat.{ℕ}
use mathlib.Core.Path.{◌≡◌}
use mathlib.Core.Logic.{inl, inr}
use mathlib.Core.Bool.{Bool, true, false}
use mathlib.Core.List.{List, [], ◌∷◌}
use mathlib.Core.Option.{none, some}
use native.Mathlib.Omega.{arith}
use mb_printer_cli.Common.Tests.{◌==◌, Bool-cases, is_some}
use mb_printer_cli.Common.Lists.{All, All-weaken, find?}
use mb_printer_cli.Common.Map.{Map, lookup, insert, remove, values, Unique, Entries, insert-Entries}
use mb_printer_cli.Common.Sort.{Keyed, collect_from, insert-Keyed}

module _ {ℓ} {A : Type ℓ} (id : A → ℕ) where
  -- An item that a search finds satisfies the test, and stands under its own key.
  pub find?-values :
      (p : A → Bool) (m : Map A) (a : A)
      → Keyed id m
      → Unique m
      → find? p (values m) ≡ some a
      → (p a ≡ true) × (lookup (id a) m ≡ some a)
  unfolding values lookup
  find?-values p [] a h u e = absurd (ground arith)
  find?-values p ((k, b) ∷ m) a h u e = elim (Bool-cases (p b)) [
    | inl t ↦ let q : b ≡ a = ground arith in ground arith
    | inr f ↦ ground (arith, find?-values p m a h.1 u.1 (ground arith))
  ]

  -- A search succeeds if an item that satisfies the test stands under some key.
  pub find?-values_complete :
      (p : A → Bool) (k : ℕ) (m : Map A) (a : A)
      → lookup k m ≡ some a
      → p a ≡ true
      → is_some (find? p (values m)) ≡ true
  unfolding values lookup
  find?-values_complete p k [] a e t = absurd (ground arith)
  find?-values_complete p k ((j, b) ∷ m) a e t = ground (arith, find?-values_complete p k m a)

  pub collect_from-Keyed : (m : Map A) (xs : List A) → Keyed id m → Keyed id (collect_from id m xs)
  unfolding collect_from
  collect_from-Keyed m [] h = h
  collect_from-Keyed m (x ∷ xs) h =
      collect_from-Keyed (insert (id x) x m) xs (insert-Keyed id x m h)

module _ {ℓ κ} {A : Type ℓ} (id : A → ℕ) (P : A → Type κ) where
  pub values-All : (m : Map A) → Entries (λ k a. P a) m → All P (values m)
  unfolding values
  values-All [] h = tt
  values-All ((k, a) ∷ m) h = (h.0, values-All m h.1)

  pub collect_from-Entries :
      (m : Map A) (xs : List A)
      → Entries (λ k a. P a) m
      → All P xs
      → Entries (λ k a. P a) (collect_from id m xs)
  unfolding collect_from
  collect_from-Entries m [] h a = h
  collect_from-Entries m (x ∷ xs) h a =
      collect_from-Entries (insert (id x) x m) xs (insert-Entries (λ k b. P b) (id x) x m a.0 h) a.1

module _ {ℓ} {A : Type ℓ} (id : A → ℕ) where
  pub lookup-Keyed : (k : ℕ) (m : Map A) (a : A) → Keyed id m → lookup k m ≡ some a → id a ≡ k
  unfolding lookup
  lookup-Keyed k [] a h e = absurd (ground arith)
  lookup-Keyed k ((j, b) ∷ m) a h e = elim (Bool-cases (j == k)) [
    | inl f ↦ let q : b ≡ a = ground arith in ground arith
    | inr f ↦ lookup-Keyed k m a h.1 (ground arith)
  ]

  pub insert-Keyed_at :
      (k : ℕ) (a : A) (m : Map A) → id a ≡ k → Keyed id m → Keyed id (insert k a m)
  unfolding insert
  insert-Keyed_at k a [] e h = (e, tt)
  insert-Keyed_at k a ((j, b) ∷ m) e h = elim (Bool-cases (j == k)) [
    | inl f ↦ rw f (e, h.1)
    | inr f ↦ rw f (h.0, insert-Keyed_at k a m e h.1)
  ]

  -- Each value of a map with distinct keys is what stands under its key.
  pub values-held :
      (m : Map A) → Keyed id m → Unique m → All (λ a. lookup (id a) m ≡ some a) (values m)
  unfolding values lookup
  values-held [] h u = tt
  values-held ((j, x) ∷ m) h u = (
    ground arith,
    All-weaken (λ a p. held_below j x m a h.0 u.0 p) (values m) (values-held m h.1 u.1),
  )
    where
      held_below :
          (j : ℕ) (x : A) (m : Map A) (a : A)
          → id x ≡ j
          → lookup j m ≡ none
          → lookup (id a) m ≡ some a
          → lookup (id a) ((j, x) ∷ m) ≡ some a
      held_below j x m a e n p = ground arith

  pub remove-Keyed : (k : ℕ) (m : Map A) → Keyed id m → Keyed id (remove k m)
  unfolding remove
  remove-Keyed k [] h = tt
  remove-Keyed k ((j, x) ∷ m) h = ground (arith, remove-Keyed k m)

  -- No item satisfies a test that a search does not meet.
  pub find?-values-none :
      (p : A → Bool) (k : ℕ) (m : Map A) (a : A)
      → find? p (values m) ≡ none
      → lookup k m ≡ some a
      → p a ≡ false
  unfolding values lookup
  find?-values-none p k [] a n e = absurd (ground arith)
  find?-values-none p k ((j, b) ∷ m) a n e = ground (arith, find?-values-none p k m a)
