-- ===== src/Common/Map.antt =====
-- Finite maps keyed by numbers, as association lists. The order of the entries is the order in
-- which the map is iterated: unspecified for a `HashMap` (`insert` keeps or appends), by key for a
-- `BTreeMap` (`insert_ordered`).
use Prim.Native.Nat.{ℕ, ◌+◌, ◌-◌, ◌<◌}
use mathlib.Core.Path.{◌≡◌, refl, subst}
use mathlib.Core.Logic.{inl, inr}
use mathlib.Core.Bool.{true}
use mathlib.Core.List.{List, [], ◌∷◌}
use mathlib.Core.Option.{Option, none, some}
use native.Mathlib.Omega.{arith}
use mb_printer_cli.Common.Tests.{if◌then◌else◌, ◌==◌, ltb, is_some, Bool-cases, ==→eq}
use mb_printer_cli.Common.Lists.{length}

abbrev pub Map {ℓ} : Type ℓ → Type ℓ
Map V = List (ℕ × V)

module _ {ℓ} {V : Type ℓ} where
  unfoldable pub lookup : ℕ → Map V → Option V
  lookup k [] = none
  lookup k ((j, v) ∷ m) = if j == k then some v else lookup k m

  unfoldable pub insert : ℕ → V → Map V → Map V
  insert k new [] = (k, new) ∷ []
  insert k new ((key, old) ∷ entries) =
      let rest = insert k new entries in if key == k then (k, new) ∷ entries else (key, old) ∷ rest

  unfoldable pub insert_ordered : ℕ → V → Map V → Map V
  insert_ordered k v [] = (k, v) ∷ []
  insert_ordered k v ((j, w) ∷ m) =
      let rest = insert_ordered k v m in
      if j == k then (k, v) ∷ m else if ltb k j then (k, v) ∷ (j, w) ∷ m else (j, w) ∷ rest

  unfoldable pub remove : ℕ → Map V → Map V
  remove k [] = []
  remove k ((j, w) ∷ m) = if j == k then m else (j, w) ∷ remove k m

  unfoldable pub values : Map V → List V
  values [] = []
  values ((j, v) ∷ m) = v ∷ values m

  -- `for v in m.values_mut() { *v = f(*v) }`
  unfoldable pub update_all : (V → V) → Map V → Map V
  update_all f [] = []
  update_all f ((j, v) ∷ m) = (j, f v) ∷ update_all f m

  -- Each key occurs once.
  abbrev pub Unique : Map V → Type ℓ
  Unique [] = Unit
  Unique ((k, v) ∷ m) = (lookup k m ≡ none) × Unique m

  -- The keys increase.
  abbrev pub Above : ℕ → Map V → Type 0
  Above k [] = Unit
  Above k ((j, v) ∷ m) = (k < j) × Above j m

  abbrev pub Ordered : Map V → Type 0
  Ordered [] = Unit
  Ordered ((k, v) ∷ m) = Above k m

module _ {ℓ} {V : Type ℓ} where
  pub lookup-insert :
      (changed other : ℕ) (new : V) (entries : Map V)
      → lookup other (insert changed new entries)
        ≡ (if changed == other then some new else lookup other entries)
  unfolding lookup insert
  lookup-insert changed other new [] = refl
  lookup-insert changed other new ((key, old) ∷ entries) =
      ground (arith, lookup-insert changed other new entries)

  pub lookup-insert_ordered :
      (k j : ℕ) (v : V) (m : Map V)
      → lookup j (insert_ordered k v m) ≡ (if k == j then some v else lookup j m)
  unfolding lookup insert_ordered
  lookup-insert_ordered k j v [] = refl
  lookup-insert_ordered k j v ((i, w) ∷ m) = ground (arith, lookup-insert_ordered k j v m)

  pub lookup-update_all :
      (f : V → V) (k : ℕ) (m : Map V)
      → lookup k (update_all f m) ≡ elim (lookup k m) [ none ↦ none | some v ↦ some (f v) ]
  unfolding lookup update_all
  lookup-update_all f k [] = refl
  lookup-update_all f k ((i, w) ∷ m) = ground (arith, lookup-update_all f k m)

  pub lookup-remove :
      (k j : ℕ) (m : Map V)
      → Unique m
      → lookup j (remove k m) ≡ (if k == j then none else lookup j m)
  unfolding lookup remove
  lookup-remove k j [] u = ground arith
  lookup-remove k j ((i, w) ∷ m) u = ground (arith, lookup-remove k j m)

  pub insert-Unique : (k : ℕ) (v : V) (m : Map V) → Unique m → Unique (insert k v m)
  unfolding lookup insert
  insert-Unique k v [] u = (refl, tt)
  insert-Unique k v ((i, w) ∷ m) u = ground (arith, insert-Unique k v m, lookup-insert k i v m)

  pub remove-Unique : (k : ℕ) (m : Map V) → Unique m → Unique (remove k m)
  unfolding lookup remove
  remove-Unique k [] u = tt
  remove-Unique k ((i, w) ∷ m) u = ground (arith, remove-Unique k m, lookup-remove k i m)

  pub length-insert :
      (k : ℕ) (v : V) (m : Map V)
      → length (insert k v m) ≡ (if is_some (lookup k m) then length m else length m + 1)
  unfolding lookup insert
  length-insert k v [] = refl
  length-insert k v ((i, w) ∷ m) = ground (arith, length-insert k v m)

  pub length-pos_of_lookup : (k : ℕ) (m : Map V) → is_some (lookup k m) ≡ true → 0 < length m
  unfolding lookup
  length-pos_of_lookup k [] h = ground arith
  length-pos_of_lookup k ((i, w) ∷ m) h = omega arith

  pub length-remove :
      (k : ℕ) (m : Map V)
      → length (remove k m) ≡ (if is_some (lookup k m) then length m - 1 else length m)
  unfolding lookup remove
  length-remove k [] = refl
  length-remove k ((i, w) ∷ m) = ground (arith, length-remove k m, length-pos_of_lookup k m)

  insert_ordered-Above :
      (i k : ℕ) (v : V) (m : Map V) → i < k → Above i m → Above i (insert_ordered k v m)
  unfolding insert_ordered
  insert_ordered-Above i k v [] h a = (h, tt)
  insert_ordered-Above i k v ((j, w) ∷ m) h a = ground (arith, insert_ordered-Above j k v m)

  pub insert_ordered-Ordered :
      (k : ℕ) (v : V) (m : Map V) → Ordered m → Ordered (insert_ordered k v m)
  unfolding insert_ordered
  insert_ordered-Ordered k v [] o = tt
  insert_ordered-Ordered k v ((j, w) ∷ m) o = ground (arith, insert_ordered-Above j k v m)

module _ {ℓ κ} {V : Type ℓ} (P : ℕ → V → Type κ) where
  -- Every entry satisfies `P` with its key.
  abbrev pub Entries : Map V → Type κ
  Entries [] = Unit
  Entries ((k, v) ∷ m) = P k v × Entries m

  pub insert_ordered-Entries :
      (k : ℕ) (v : V) (m : Map V) → P k v → Entries m → Entries (insert_ordered k v m)
  unfolding insert_ordered
  insert_ordered-Entries k v [] p h = (p, tt)
  insert_ordered-Entries k v ((j, w) ∷ m) p h = elim (Bool-cases (j == k)) [
    | inl e ↦ rw e (p, h.1)
    | inr e ↦ rw e (elim (Bool-cases (ltb k j)) [
      | inl f ↦ rw f (p, h)
      | inr f ↦ rw f (h.0, insert_ordered-Entries k v m p h.1)
    ])
  ]

  pub insert-Entries : (k : ℕ) (v : V) (m : Map V) → P k v → Entries m → Entries (insert k v m)
  unfolding insert
  insert-Entries k v [] p h = (p, tt)
  insert-Entries k v ((j, w) ∷ m) p h = elim (Bool-cases (j == k)) [
    | inl e ↦ rw e (p, h.1)
    | inr e ↦ rw e (h.0, insert-Entries k v m p h.1)
  ]

  pub remove-Entries : (k : ℕ) (m : Map V) → Entries m → Entries (remove k m)
  unfolding remove
  remove-Entries k [] h = tt
  remove-Entries k ((j, w) ∷ m) h = elim (Bool-cases (j == k)) [
    | inl e ↦ rw e h.1
    | inr e ↦ rw e (h.0, remove-Entries k m h.1)
  ]

  pub lookup-Entries : (k : ℕ) (m : Map V) {v : V} → Entries m → lookup k m ≡ some v → P k v
  unfolding lookup
  lookup-Entries k [] h e = absurd (ground arith)
  lookup-Entries k ((j, w) ∷ m) {v} h e = elim (Bool-cases (j == k)) [
    | inl f ↦
        let p : j ≡ k = ==→eq j k f in
        let q : w ≡ v = ground arith in subst (λ i. P i v) p (subst (P j) q h.0)
    | inr f ↦ lookup-Entries k m h.1 (ground arith)
  ]

module _ {ℓ} {V : Type ℓ} where
  pub length-values : (m : Map V) → length (values m) ≡ length m
  unfolding values
  length-values [] = refl
  length-values ((k, v) ∷ m) = ground (arith, length-values m)
