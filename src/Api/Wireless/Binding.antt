-- ===== src/Api/Wireless/Binding.antt =====
-- What is hashed of wireless settings (src/api.rs) tells any two of them apart.
use mb_printer_cli.Common.{
  ℕ, ◌/◌, ◌%◌, ◌^◌, ◌≡◌, ◌<◌, refl, ap, arith, Bool, true, false, List, [], ◌∷◌, ◌++◌, length,
}
use mb_printer_cli.Common.Text.{codes}
use mb_printer_cli.Api.Wireless.{WirelessSettings, be32, part, bit, fingerprint_input}

abbrev head_or : ℕ → List ℕ → ℕ
head_or n [] = n
head_or n (x ∷ l) = x

abbrev tail : List ℕ → List ℕ
tail [] = []
tail (x ∷ l) = l

-- Lists of the same length in front of others.
append_parts : (a b x y : List ℕ) → length a ≡ length b → a ++ x ≡ b ++ y → (a ≡ b) × (x ≡ y)
append_parts [] [] x y m h = (refl, h)
append_parts [] (c ∷ b) x y m h = absurd (omega arith)
append_parts (c ∷ a) [] x y m h = absurd (omega arith)
append_parts (c ∷ a) (d ∷ b) x y m h =
    let (p, q) = append_parts a b x y (omega arith) (ap tail h) in (cc p, q)

be32_split :
    (n m : ℕ) (x y : List ℕ)
    → n < 4294967296
    → m < 4294967296
    → be32 n ++ x ≡ be32 m ++ y
    → (n ≡ m) × (x ≡ y)
be32_split n m x y p q h =
    let a : n / 2 ^ 24 % 256 ≡ m / 2 ^ 24 % 256 = ap (head_or 0) h in
    let b : n / 2 ^ 16 % 256 ≡ m / 2 ^ 16 % 256 = ap (λ l. head_or 0 (tail l)) h in
    let c : n / 2 ^ 8 % 256 ≡ m / 2 ^ 8 % 256 = ap (λ l. head_or 0 (tail (tail l))) h in
    let d : n % 256 ≡ m % 256 = ap (λ l. head_or 0 (tail (tail (tail l)))) h in
    (omega arith, ap (λ l. tail (tail (tail (tail l)))) h)

-- A part behind its length, in front of others.
part_split :
    (a b x y : List ℕ)
    → length a < 4294967296
    → length b < 4294967296
    → part a ++ x ≡ part b ++ y
    → (a ≡ b) × (x ≡ y)
part_split a b x y p q h =
    let (m, g) = be32_split (length a) (length b) (a ++ x) (b ++ y) p q h in
    append_parts a b x y m g

bit_split : (a b : Bool) (x y : List ℕ) → part (bit a) ++ x ≡ part (bit b) ++ y → (a ≡ b) × (x ≡ y)
bit_split true true x y h =
    (refl, (part_split (bit true) (bit true) x y (omega arith) (omega arith) h).1)
bit_split false false x y h =
    (refl, (part_split (bit false) (bit false) x y (omega arith) (omega arith) h).1)
bit_split true false x y h =
    let e : ◌≡◌ {A = ℕ} 1 0 =
      ap (head_or 0) (part_split (bit true) (bit false) x y (omega arith) (omega arith) h).0 in
    absurd (omega arith)
bit_split false true x y h =
    let e : ◌≡◌ {A = ℕ} 0 1 =
      ap (head_or 0) (part_split (bit false) (bit true) x y (omega arith) (omega arith) h).0 in
    absurd (omega arith)

abbrev settings_of : List ℕ → List ℕ → ℕ → ℕ → Bool → Bool → Bool → WirelessSettings
settings_of ssid password encryption authentication infrastructure wireless_direct reboot = record {
  ssid = ssid;
  password = password;
  encryption = encryption;
  authentication = authentication;
  infrastructure = infrastructure;
  wireless_direct = wireless_direct;
  reboot = reboot;
}

-- Two settings whose names and passwords have lengths of 32 bits, and of which the same bytes are
-- hashed, are the same: an approval's fingerprint stands for one change only, unless the digest
-- collides.
pub fingerprint_input_injective :
    (s t : WirelessSettings)
    → length s.ssid < 4294967296
    → length s.password < 4294967296
    → length t.ssid < 4294967296
    → length t.password < 4294967296
    → fingerprint_input s ≡ fingerprint_input t
    → s ≡ t
unfolding fingerprint_input
fingerprint_input_injective s t p q p' q' h =
    let version = codes "mb-printer-wifi-approval-v1" in
    let (_, h0) = append_parts version version _ _ refl h in
    let (ssid, h1) = part_split s.ssid t.ssid _ _ p p' (ap tail h0) in
    let (password, h2) = part_split s.password t.password _ _ q q' h1 in
    let (encryption, h3) =
      part_split (s.encryption ∷ []) (t.encryption ∷ []) _ _ (omega arith) (omega arith) h2 in
    let (authentication, h4) =
      part_split (s.authentication ∷ []) (t.authentication ∷ []) _ _ (omega arith) (omega arith)
        h3 in
    let (infrastructure, h5) = bit_split s.infrastructure t.infrastructure _ _ h4 in
    let (direct, h6) = bit_split s.wireless_direct t.wireless_direct _ _ h5 in
    let (reboot, _) = bit_split s.reboot t.reboot [] [] (ap (λ l. l ++ []) h6) in
    let e = ap (head_or 0) encryption in
    let a = ap (head_or 0) authentication in
    cc (ssid, password, e, a, infrastructure, direct, reboot)
