-- ===== src/Auth/Types.antt =====
-- The data of src/auth.rs, and the code outside the repository that it calls.
use mb_printer_cli.Common.{ℕ, ◌≡◌, ◌++◌, Bool, true, false, Option, some, List, ◌∷◌}
use mb_printer_cli.Common.Text.{Text, codes}
use mb_printer_cli.Common.Map.{Map}

pub data GrantScope : Type 0 where
  print admin : GrantScope

-- `self.allows(required)`
unfoldable pub allows : GrantScope → GrantScope → Bool
allows admin required = true
allows print print = true
allows print admin = false

unfoldable pub scope_eq : GrantScope → GrantScope → Bool
scope_eq print print = true
scope_eq admin admin = true
scope_eq print admin = false
scope_eq admin print = false

-- Seconds.
abbrev pub admin_grant_max_ttl : ℕ
admin_grant_max_ttl = 600

abbrev pub print_grant_max_ttl : ℕ
print_grant_max_ttl = 31536000

abbrev pub wifi_approval_ttl : ℕ
wifi_approval_ttl = 120

pub record Grant : Type 0 where
  pub id : ℕ
  pub origin : Text
  pub scope : GrantScope
  pub token_salt : Text
  pub token_hash : Text
  pub created_at : ℕ  -- u64, seconds
  pub expires_at : ℕ  -- u64, seconds
  pub revoked_at : Option ℕ

pub record PairingSecret : Type 0 where
  pub value : Text
  pub expires_at : ℕ
  pub scope : GrantScope

pub record StoredPairing : Type 0 where
  pub salt : Text
  pub hash : Text
  pub expires_at : ℕ
  pub scope : GrantScope

pub record WifiApproval : Type 0 where
  pub id : ℕ
  pub grant_id : ℕ
  pub origin : Text
  pub connection_id : Text
  pub settings_fingerprint : Text
  pub created_at : ℕ
  pub expires_at : ℕ
  pub approved_at : Option ℕ
  pub consumed_at : Option ℕ

-- The JSON document of grants.json.
pub record Store : Type 0 where
  pub grants : List Grant
  pub pairing : Option StoredPairing
  pub wifi_approval : Option WifiApproval

-- The file at the path of the store.
pub data File : Type 0 where
  missing unreadable : File
  stored : Store → File

-- `AuthStore`, with the file at its path.
pub record AuthStore : Type 0 where
  pub grants : Map Grant
  pub pairing : Option StoredPairing
  pub wifi_approval : Option WifiApproval
  pub file : File

pub data IoError : Type 0 where
  io_error : IoError

-- `http::Uri`, as far as it is inspected.
pub record Uri : Type 0 where
  pub scheme : Option Text
  pub authority : Option Text
  pub path : Text
  pub query : Option Text

-- Code outside the repository: the `sha2`, `base64` and `http` crates.
pub record Crates : Type 0 where
  pub sha256 : Text → List ℕ
  pub encode : List ℕ → Text
  pub decode : Text → Option (List ℕ)
  pub parse_uri : Text → Option Uri

-- Base64 without padding can be read back.
abbrev pub Decodes : Crates → Type 0
Decodes c = (bytes : List ℕ) → c.decode (c.encode bytes) ≡ some bytes

-- What one call meets outside: the readings of the clock, in order, whether each write of the file
-- succeeds, the random texts, and the random identifier.
pub record World : Type 0 where
  pub clock : ℕ → ℕ
  pub disk : ℕ → Bool
  pub random : ℕ → Text
  pub random_id : ℕ

abbrev digest_prefix : Text
digest_prefix = codes "mb-printer-token-v1"

unfoldable pub digest : Crates → Text → Text → List ℕ
digest c salt token = c.sha256 (digest_prefix ++ (0 ∷ (salt ++ (0 ∷ token))))
