-- ===== src/Auth/Grants.antt =====
-- Authentication, revocation and rotation of grants (src/auth.rs).
pub mod Revocation
use mb_printer_cli.Common.{
  ℕ, Bool, true, false, not, ◌&&◌, Option, none, some, List, if◌then◌else◌, leb, is_some,
  saturating_add, find?,
}
use mb_printer_cli.Common.Text.{Text, text_eq}
use mb_printer_cli.Common.Map.{Map, lookup, insert, values}
use mb_printer_cli.Common.Result.{Result, ok, err}
use mb_printer_cli.Auth.Types.{
  GrantScope, print, admin, allows, Grant, AuthStore, IoError, Crates, World, digest,
}
use mb_printer_cli.Auth.Persistence.{persist}
use mb_printer_cli.Auth.Pairing.{grant_ttl, and_return}

abbrev matches_hash : Crates → Grant → Text → Option (List ℕ) → Bool
matches_hash c g token none = false
matches_hash c g token (some expected) = text_eq expected (digest c g.token_salt token)

-- The test of `authenticate_scoped` on one grant, at one reading of the clock.
unfoldable pub accepts : Crates → ℕ → Text → Text → GrantScope → Grant → Bool
unfolding allows
accepts c now token origin required g =
    text_eq g.origin origin
    && not (is_some g.revoked_at)
    && leb now g.expires_at
    && allows g.scope required
    && matches_hash c g token (c.decode g.token_hash)

-- `find` over the values of the map, in the map's order.
unfoldable pub authenticate_scoped :
    Crates → ℕ → Text → Text → GrantScope → AuthStore → Option Grant
authenticate_scoped c now token origin required s =
    find? (accepts c now token origin required) (values s.grants)

unfoldable pub authenticate : Crates → ℕ → Text → Text → AuthStore → Option Grant
authenticate c now token origin s = authenticate_scoped c now token origin print s

unfoldable pub authenticate_admin : Crates → ℕ → Text → Text → AuthStore → Option Grant
authenticate_admin c now token origin s = authenticate_scoped c now token origin admin s

abbrev live_admin : ℕ → Text → Option Grant → Bool
live_admin now origin none = false
live_admin now origin (some g) =
    text_eq g.origin origin
    && not (is_some g.revoked_at)
    && leb now g.expires_at
    && allows g.scope admin

unfoldable pub grant_allows_admin : ℕ → ℕ → Text → AuthStore → Bool
unfolding allows
grant_allows_admin now id origin s = live_admin now origin (lookup id s.grants)

abbrev pub revoke_grant : World → ℕ → AuthStore → Option Grant → Result IoError Bool × AuthStore
revoke_grant w id s none = (ok false, s)
revoke_grant w id s (some g) = and_return true (
    persist (w.disk 0)
      (record s { grants = insert id (record g { revoked_at = some (w.clock 0) }) s.grants }))

unfoldable pub revoke : World → ℕ → AuthStore → Result IoError Bool × AuthStore
revoke w id s = revoke_grant w id s (lookup id s.grants)

-- The grant after a rotation: the clock is read once for each of the two times.
unfoldable pub rotated : Crates → World → ℕ → Grant → Grant
unfolding grant_ttl
rotated c w ttl g = record g {
  token_hash = c.encode (digest c (w.random 1) (w.random 0));
  token_salt = w.random 1;
  created_at = w.clock 0;
  expires_at = saturating_add (w.clock 1) (grant_ttl g.scope ttl);
  revoked_at = none;
}

abbrev pub rotate_grant :
    Crates → World → ℕ → ℕ → AuthStore → Option Grant → Result IoError (Option Text) × AuthStore
rotate_grant c w id ttl s none = (ok none, s)
rotate_grant c w id ttl s (some g) =
    and_return (some (w.random 0))
      (persist (w.disk 0) (record s { grants = insert id (rotated c w ttl g) s.grants }))

unfoldable pub rotate :
    Crates → World → ℕ → ℕ → AuthStore → Result IoError (Option Text) × AuthStore
unfolding rotated
rotate c w id ttl s = rotate_grant c w id ttl s (lookup id s.grants)
