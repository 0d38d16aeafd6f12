-- ===== src/Auth/Pairing.antt =====
-- Pairing secrets of src/auth.rs and the grants issued for them.
pub mod OneTime
use Prim.Native.Nat.{min}
use mb_printer_cli.Common.{
  ℕ, ◌≡◌, refl, Bool, true, false, not, ◌||◌, Option, none, some, List, [], if◌then◌else◌, ltb,
  saturating_add,
}
use mb_printer_cli.Common.Text.{Text, text_eq}
use mb_printer_cli.Common.Map.{insert}
use mb_printer_cli.Common.Result.{Result, ok, err}
use mb_printer_cli.Auth.Types.{
  GrantScope, print, admin, scope_eq, admin_grant_max_ttl, print_grant_max_ttl, Grant,
  PairingSecret, StoredPairing, AuthStore, IoError, Crates, World, digest,
}
use mb_printer_cli.Auth.Origin.{valid_origin}
use mb_printer_cli.Auth.Persistence.{persist}

unfoldable pub grant_ttl : GrantScope → ℕ → ℕ
grant_ttl print ttl = min ttl print_grant_max_ttl
grant_ttl admin ttl = min ttl admin_grant_max_ttl

-- `self.persist()?` before a value is returned.
abbrev pub and_return {ℓ} :
    {A : Type ℓ} → A → Result IoError (Unit {0}) × AuthStore → Result IoError A × AuthStore
and_return a (ok u, s) = (ok a, s)
and_return a (err e, s) = (err e, s)

pub and_return-state {ℓ} :
    {A : Type ℓ} (a : A) (r : Result IoError (Unit {0}) × AuthStore) → (and_return a r).1 ≡ r.1
and_return-state a (ok u, s) = refl
and_return-state a (err e, s) = refl

unfoldable pub begin_pairing_for :
    Crates → World → GrantScope → ℕ → AuthStore → Result IoError PairingSecret × AuthStore
begin_pairing_for c w scope ttl s =
    let value = w.random 0 in
    let salt = w.random 1 in
    let expires_at = saturating_add (w.clock 0) (min ttl 600) in
    and_return (record { value = value; expires_at = expires_at; scope = scope })
      (persist (w.disk 0) (record s {
        pairing = some (record {
          salt = salt;
          hash = c.encode (digest c salt value);
          expires_at = expires_at;
          scope = scope;
        });
      }))

unfoldable pub begin_pairing :
    Crates → World → ℕ → AuthStore → Result IoError PairingSecret × AuthStore
begin_pairing c w ttl s = begin_pairing_for c w print ttl s

unfoldable pub begin_admin_pairing :
    Crates → World → ℕ → AuthStore → Result IoError PairingSecret × AuthStore
begin_admin_pairing c w ttl s = begin_pairing_for c w admin ttl s

-- The grant that `issue` creates, at the reading of the clock numbered `t` in the call.
unfoldable pub new_grant : Crates → World → ℕ → Text → GrantScope → ℕ → Grant
unfolding grant_ttl
new_grant c w t origin scope ttl = record {
  id = w.random_id;
  origin = origin;
  scope = scope;
  token_salt = w.random 1;
  token_hash = c.encode (digest c (w.random 1) (w.random 0));
  created_at = w.clock t;
  expires_at = saturating_add (w.clock t) (grant_ttl scope ttl);
  revoked_at = none;
}

-- `issue`, whose reading of the clock and write of the file are those numbered `t` and `n`.
unfoldable pub issue :
    Crates
    → World
    → ℕ
    → ℕ
    → Text
    → GrantScope
    → ℕ
    → AuthStore
    → Result IoError (ℕ × Text) × AuthStore
unfolding new_grant
issue c w t n origin scope ttl s =
    and_return (w.random_id, w.random 0)
      (persist (w.disk n)
        (record s { grants = insert w.random_id (new_grant c w t origin scope ttl) s.grants }))

-- `.map(Some)`
abbrev pub map_some {ℓ} :
    {A : Type ℓ} → Result IoError A × AuthStore → Result IoError (Option A) × AuthStore
map_some (ok a, s) = (ok (some a), s)
map_some (err e, s) = (err e, s)

pub map_some-state {ℓ} : {A : Type ℓ} (r : Result IoError A × AuthStore) → (map_some r).1 ≡ r.1
map_some-state (ok a, s) = refl
map_some-state (err e, s) = refl

unfoldable pub issue_admin :
    Crates → World → Text → ℕ → AuthStore → Result IoError (Option (ℕ × Text)) × AuthStore
issue_admin c w origin ttl s =
    if not (valid_origin c origin)
    then (ok none, s)
    else map_some (issue c w 0 0 origin admin ttl s)

-- `.unwrap_or_default()`
abbrev pub or_default : Option (List ℕ) → List ℕ
or_default none = []
or_default (some bytes) = bytes

-- The secret does not match, or the scope or origin is not the pairing's.
unfoldable pub refuses : Crates → StoredPairing → Text → Text → GrantScope → Bool
unfolding scope_eq
refuses c p secret origin scope =
    not (text_eq (or_default (c.decode p.hash)) (digest c p.salt secret))
    || not (scope_eq p.scope scope)
    || not (valid_origin c origin)

-- After the pairing is consumed in memory and, if `persisted`, on disk.
abbrev pub issue_after :
    Crates
    → World
    → Text
    → GrantScope
    → ℕ
    → Result IoError (Unit {0}) × AuthStore
    → Result IoError (Option (ℕ × Text)) × AuthStore
issue_after c w origin scope ttl (ok u, s) = map_some (issue c w 1 1 origin scope ttl s)
issue_after c w origin scope ttl (err e, s) = (err e, s)

abbrev pub exchange_pairing :
    Crates
    → World
    → Text
    → Text
    → ℕ
    → GrantScope
    → AuthStore
    → Option StoredPairing
    → Result IoError (Option (ℕ × Text)) × AuthStore
exchange_pairing c w secret origin ttl scope s none = (ok none, s)
exchange_pairing c w secret origin ttl scope s (some p) =
    if ltb p.expires_at (w.clock 0)
    then and_return none (persist (w.disk 0) (record s { pairing = none }))
    else if refuses c p secret origin scope
    then (ok none, s)
    else issue_after c w origin scope ttl (persist (w.disk 0) (record s { pairing = none }))

unfoldable pub exchange_for :
    Crates
    → World
    → Text
    → Text
    → ℕ
    → GrantScope
    → AuthStore
    → Result IoError (Option (ℕ × Text)) × AuthStore
exchange_for c w secret origin ttl scope s =
    exchange_pairing c w secret origin ttl scope s s.pairing

unfoldable pub exchange :
    Crates → World → Text → Text → ℕ → AuthStore → Result IoError (Option (ℕ × Text)) × AuthStore
exchange c w secret origin ttl s = exchange_for c w secret origin ttl print s

unfoldable pub exchange_admin :
    Crates → World → Text → Text → ℕ → AuthStore → Result IoError (Option (ℕ × Text)) × AuthStore
exchange_admin c w secret origin ttl s = exchange_for c w secret origin ttl admin s
