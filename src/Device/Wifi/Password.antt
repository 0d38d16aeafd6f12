-- ===== src/Device/Wifi/Password.antt =====
-- The obscured password of src/device.rs is recovered by obscuring it again.
use Prim.Native.Nat.{bit_xor}
use mb_printer_cli.Common.{
  ℕ, zero, suc, ◌+◌, ◌%◌, ◌≡◌, ◌<◌, refl, Bool, true, false, if◌then◌else◌, List, [], ◌∷◌, arith,
  ◌==◌, ==→eq, All,
}
use mb_printer_cli.Device.Wifi.{nth_key, password_key, key_byte, xor_from, xor_password}

-- A test of all numbers below a bound, by evaluation.
passes : (ℕ → Bool) → ℕ → Bool
passes test zero = true
passes test (suc bound) = if test bound then passes test bound else false

passes-at :
    (test : ℕ → Bool) (bound number : ℕ)
    → number < bound
    → passes test bound ≡ true
    → test number ≡ true
unfolding passes
passes-at test zero number below tested = absurd (omega arith)
passes-at test (suc bound) number below tested = ground (arith, passes-at test bound number)

abbrev restores : ℕ → ℕ → Bool
restores j b = let k = nth_key j password_key in bit_xor (bit_xor b k) k == b

key_table : passes (λ i. passes (restores i) 256) 16 ≡ true
unfolding passes
key_table = refl

restores_all : (i b : ℕ) → i < 16 → b < 256 → restores i b ≡ true
restores_all i b p q =
    passes-at (restores i) 256 b q (passes-at (λ i. passes (restores i) 256) 16 i p key_table)

xor_twice : (i b : ℕ) → b < 256 → bit_xor (bit_xor b (key_byte i)) (key_byte i) ≡ b
xor_twice i b q = ==→eq _ b (restores_all (i % 16) b (omega arith) q)

xor_from_twice :
    (i : ℕ) (value : List ℕ) → All (λ b. b < 256) value → xor_from i (xor_from i value) ≡ value
unfolding xor_from
xor_from_twice i [] h = refl
xor_from_twice i (b ∷ value) h = cc (xor_twice i b h.0, xor_from_twice (i + 1) value h.1)

-- Obscuring a password of any length twice gives the password again, so nothing of it is lost.
pub xor_password_twice :
    (value : List ℕ) → All (λ b. b < 256) value → xor_password (xor_password value) ≡ value
unfolding xor_password
xor_password_twice value h = xor_from_twice 0 value h
