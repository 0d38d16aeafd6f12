-- ===== src/Common/Result.antt =====
-- `Result` with the `?` operator as bind, over any type of errors.
use mathlib.Core.Path.{◌≡◌, refl}
use mathlib.Core.Logic.{◌⊎◌, inl, inr}
use mathlib.Core.Bool.{Bool, true, false}
use mathlib.Core.Option.{Option, none, some}
use native.Mathlib.Omega.{arith}

pub data Result {ℓ κ} (E : Type ℓ) (A : Type κ) : Type (ℓ ⊔ κ) where
  ok : A → Result E A
  err : E → Result E A

infixl 5 ◌>>=◌ ◌>>◌
abbrev pub ◌>>=◌ {ℓ κ μ} :
    {E : Type ℓ} {A : Type κ} {B : Type μ} → Result E A → (A → Result E B) → Result E B
ok a >>= f = f a
err e >>= f = err e

abbrev pub ◌>>◌ {ℓ κ} : {E : Type ℓ} {B : Type κ} → Result E (Unit {0}) → Result E B → Result E B
m >> k = m >>= λ _. k

-- `if !condition { return Err(e) }`
abbrev pub ensure {ℓ} : {E : Type ℓ} → Bool → E → Result E (Unit {0})
ensure true e = ok tt
ensure false e = err e

-- `if condition { return Err(e) }`
abbrev pub reject_if {ℓ} : {E : Type ℓ} → Bool → E → Result E (Unit {0})
reject_if true e = err e
reject_if false e = ok tt

-- `.ok_or(e)?`
abbrev pub ok_or {ℓ κ} : {E : Type ℓ} {A : Type κ} → Option A → E → Result E A
ok_or none e = err e
ok_or (some a) e = ok a

pub Result-cases {ℓ κ} :
    {E : Type ℓ} {A : Type κ} (r : Result E A) → ((a : A) × (r ≡ ok a)) ⊎ ((e : E) × (r ≡ err e))
Result-cases (ok a) = inl (a, refl)
Result-cases (err e) = inr (e, refl)

module _ {ℓ κ μ} {E : Type ℓ} {A : Type κ} {B : Type μ} where
  -- A chain that answers has answered at each of its links.
  pub >>=_ok :
      (m : Result E A) (f : A → Result E B) (b : B)
      → (m >>= f) ≡ ok b
      → (a : A) × ((m ≡ ok a) × (f a ≡ ok b))
  >>=_ok (ok a) f b h = (a, (refl, h))
  >>=_ok (err e) f b h = absurd (ground arith)

pub ok_or_ok {ℓ κ} :
    {E : Type ℓ} {A : Type κ} (o : Option A) (e : E) (a : A) → ok_or o e ≡ ok a → o ≡ some a
ok_or_ok none e a h = absurd (ground arith)
ok_or_ok (some b) e a h = ground arith

pub reject_if_ok {ℓ κ} :
    {E : Type ℓ} {B : Type κ} (t : Bool) (e : E) (k : Result E B) (b : B)
    → (reject_if t e >> k) ≡ ok b
    → (t ≡ false) × (k ≡ ok b)
reject_if_ok true e k b h = absurd (ground arith)
reject_if_ok false e k b h = (refl, h)
