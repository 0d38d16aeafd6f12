-- ===== src/Device/Wifi/Configure.antt =====
-- Which settings `wifi_configure` of src/device.rs accepts.
use Prim.Native.String.{String}
use mb_printer_cli.Common.{
  ℕ, ◌≡◌, ◌≢◌, ◌↔◌, Bool, true, false, some, List, arith, Option-cases, inl, inr,
}
use mb_printer_cli.Common.Text.{Text, is_empty}
use mb_printer_cli.Common.Result.{Result, ok, err}
use mb_printer_cli.Device.Wifi.{
  encryption_code, authentication_code, password_params, wifi_params, wifi_configure,
}

abbrev pub is_ok : Result String (List ℕ) → Bool
is_ok (ok body) = true
is_ok (err e) = false

-- Both names are known, the network has a name, open authentication goes without encryption, and
-- any other has a password.
pub record IsAcceptable (ssid password : List ℕ) (encryption authentication : Text) : Type 0 where
  pub encryption_number : ℕ
  pub authentication_number : ℕ
  pub encryption_known : encryption_code encryption ≡ some encryption_number
  pub authentication_known : authentication_code authentication ≡ some authentication_number
  pub named : is_empty ssid ≡ false
  pub open_unencrypted : authentication_number ≡ 1 → encryption_number ≡ 1
  pub protected : authentication_number ≢ 1 → is_empty password ≡ false

-- A command is made exactly for acceptable settings, whether the device is to restart or not.
pub wifi_configure-IsAcceptable :
    (ssid password : List ℕ) (encryption authentication : Text) (reboot : Bool)
    → (is_ok (wifi_configure ssid password encryption authentication reboot) ≡ true)
      ↔ IsAcceptable ssid password encryption authentication
unfolding wifi_configure
wifi_configure-IsAcceptable ssid password encryption authentication reboot = (
  λ h. elim (Option-cases (encryption_code encryption)) [
    | inl e ↦ absurd (ground arith)
    | inr (n, e) ↦ elim (Option-cases (authentication_code authentication)) [
      | inl f ↦ absurd (ground arith)
      | inr (m, f) ↦ record {
        encryption_number = n;
        authentication_number = m;
        encryption_known = e;
        authentication_known = f;
        named = ground arith;
        open_unencrypted = ground arith;
        protected = ground arith;
      }
    ]
  ],
  λ v.
      ground (
        arith, v.encryption_known, v.authentication_known, v.named, v.open_unencrypted, v.protected,
      ),
)

-- The password travels only with a personal key of WPA, or with WEP: for any other settings the command
-- is the same whatever the password is, although one is required.
pub wifi_configure-unsent :
    (ssid password other : List ℕ) (encryption authentication : Text) (n m : ℕ) (reboot : Bool)
    → encryption_code encryption ≡ some n
    → authentication_code authentication ≡ some m
    → n ≢ 2
    → m ≢ 3
    → m ≢ 18
    → m ≢ 19
    → is_empty password ≡ is_empty other
    → wifi_configure ssid password encryption authentication reboot
      ≡ wifi_configure ssid other encryption authentication reboot
unfolding wifi_configure wifi_params password_params
wifi_configure-unsent ssid password other encryption authentication n m reboot e f a b c d same =
    ground (arith, e, f)
