-- ===== src/Auth/Pairing/OneTime.antt =====
-- What the exchange of a pairing secret gives, and that it works once (src/auth.rs).

use mb_printer_cli.Common.{
  ℕ, ◌+◌, ◌≡◌, ◌≤◌, refl, sym, true, false, none, some, arith, Option-cases, is_some, inl, inr,
  saturating_add,
}
use mb_printer_cli.Common.Text.{Text, text_eq→eq, text_eq_refl}
use mb_printer_cli.Common.Map.{lookup, insert, lookup-insert}
use mb_printer_cli.Common.Values.{find?-values_complete}
use mb_printer_cli.Common.Result.{ok}
use mb_printer_cli.Auth.Types.{
  GrantScope, print, admin, allows, scope_eq, Grant, StoredPairing, AuthStore, Crates, Decodes,
  World, digest,
}
use mb_printer_cli.Auth.Origin.{valid_origin}
use mb_printer_cli.Auth.Persistence.{grant_id, reload, persist}
use mb_printer_cli.Auth.Pairing.{grant_ttl, new_grant, issue, or_default, refuses, exchange_for}
use mb_printer_cli.Auth.Grants.{accepts, authenticate_scoped}

-- The states that a successful exchange passes: the pairing is cleared on disk, then the grant is
-- written.
record Exchanged (c : Crates) (w : World) (secret origin : Text) (ttl : ℕ) (scope : GrantScope)
    (s : AuthStore) (p : StoredPairing) : Type 0 where
  pub paired : s.pairing ≡ some p
  pub in_time : w.clock 0 ≤ p.expires_at
  pub matching : refuses c p secret origin scope ≡ false
  pub written : (w.disk 0 ≡ true) × (w.disk 1 ≡ true)

-- The state after a successful exchange.
abbrev exchanged : Crates → World → Text → ℕ → GrantScope → AuthStore → AuthStore
exchanged c w origin ttl scope s =
    (persist true (record s {
      pairing = none;
      grants = insert w.random_id (new_grant c w 1 origin scope ttl) s.grants;
    })).1

exchange_success :
    (c : Crates) (w : World) (secret origin : Text) (ttl : ℕ) (scope : GrantScope) (s : AuthStore)
    (r : ℕ × Text)
    → (exchange_for c w secret origin ttl scope s).0 ≡ ok (some r)
    → (p : StoredPairing) × Exchanged c w secret origin ttl scope s p
      × (exchange_for c w secret origin ttl scope s
          ≡ (ok (some (w.random_id, w.random 0)), exchanged c w origin ttl scope s))
      × (r ≡ (w.random_id, w.random 0))
unfolding exchange_for issue persist
exchange_success c w secret origin ttl scope s r h = elim (Option-cases s.pairing) [
  | inl e ↦ absurd (ground arith)
  | inr (p, e) ↦ (
    p,
    record { paired = e; in_time = ground arith; matching = ground arith; written = ground arith },
    ground arith,
    ground arith,
  )
]

exchange_unpaired :
    (c : Crates) (w : World) (secret origin : Text) (ttl : ℕ) (scope : GrantScope) (s : AuthStore)
    → s.pairing ≡ none
    → exchange_for c w secret origin ttl scope s ≡ (ok none, s)
unfolding exchange_for
exchange_unpaired c w secret origin ttl scope s h = rw (h, exchange_for)

exchanged_unpaired :
    (c : Crates) (w : World) (origin : Text) (ttl : ℕ) (scope : GrantScope) (s : AuthStore)
    → ((exchanged c w origin ttl scope s).pairing ≡ none)
      × ((reload (exchanged c w origin ttl scope s)).1.pairing ≡ none)
unfolding persist reload
exchanged_unpaired c w origin ttl scope s = (refl, refl)

-- A pairing secret is good for one exchange. After one that succeeded, every other exchange, with
-- any secret, origin, lifetime and scope, gives nothing and changes nothing, both on the store in
-- memory and on the store reloaded from its file.
pub exchange_once :
    (c : Crates) (w w' : World) (secret secret' origin origin' : Text) (ttl ttl' : ℕ)
    (scope scope' : GrantScope) (s : AuthStore) (r : ℕ × Text)
    → (exchange_for c w secret origin ttl scope s).0 ≡ ok (some r)
    → let s' = (exchange_for c w secret origin ttl scope s).1 in
      (exchange_for c w' secret' origin' ttl' scope' s' ≡ (ok none, s'))
      × (exchange_for c w' secret' origin' ttl' scope' (reload s').1 ≡ (ok none, (reload s').1))
exchange_once c w w' secret secret' origin origin' ttl ttl' scope scope' s r h =
    let (p, x, e, q) = exchange_success c w secret origin ttl scope s r h in
    let (m, d) = exchanged_unpaired c w origin ttl scope s in
    rw e (
      exchange_unpaired c w' secret' origin' ttl' scope' (exchanged c w origin ttl scope s) m,
      exchange_unpaired c w' secret' origin' ttl' scope'
          (reload (exchanged c w origin ttl scope s)).1 d,
    )

scope_eq→eq : (a b : GrantScope) → scope_eq a b ≡ true → a ≡ b
unfolding scope_eq
scope_eq→eq print print h = refl
scope_eq→eq admin admin h = refl
scope_eq→eq print admin h = ground arith
scope_eq→eq admin print h = ground arith

-- What the pairing that was spent had to satisfy.
pub record IsSpent (c : Crates) (w : World) (secret origin : Text) (scope : GrantScope)
    (p : StoredPairing) : Type 0 where
  pub in_time : w.clock 0 ≤ p.expires_at
  pub same_secret : or_default (c.decode p.hash) ≡ digest c p.salt secret
  pub same_scope : p.scope ≡ scope
  pub https_origin : valid_origin c origin ≡ true

-- The longest life of a grant, in seconds.
unfoldable pub max_ttl : GrantScope → ℕ
max_ttl print = 31536000
max_ttl admin = 600

pub grant_ttl-le-max_ttl : (scope : GrantScope) (ttl : ℕ) → grant_ttl scope ttl ≤ max_ttl scope
unfolding grant_ttl max_ttl
grant_ttl-le-max_ttl print ttl = omega arith
grant_ttl-le-max_ttl admin ttl = omega arith

refuses-IsSpent :
    (c : Crates) (w : World) (secret origin : Text) (scope : GrantScope) (p : StoredPairing)
    → w.clock 0 ≤ p.expires_at
    → refuses c p secret origin scope ≡ false
    → IsSpent c w secret origin scope p
unfolding refuses
refuses-IsSpent c w secret origin scope p t h = record {
  in_time = t;
  same_secret = text_eq→eq (or_default (c.decode p.hash)) (digest c p.salt secret) (ground arith);
  same_scope = scope_eq→eq p.scope scope (ground arith);
  https_origin = ground arith;
}

lookup-exchanged :
    (c : Crates) (w : World) (origin : Text) (ttl : ℕ) (scope : GrantScope) (s : AuthStore)
    → lookup w.random_id (exchanged c w origin ttl scope s).grants
      ≡ some (new_grant c w 1 origin scope ttl)
unfolding persist
lookup-exchanged c w origin ttl scope s =
    ground
      (arith, lookup-insert w.random_id w.random_id (new_grant c w 1 origin scope ttl) s.grants)

new_grant_bound :
    (c : Crates) (w : World) (origin : Text) (ttl : ℕ) (scope : GrantScope)
    → (new_grant c w 1 origin scope ttl).expires_at ≤ w.clock 1 + max_ttl scope
unfolding new_grant
new_grant_bound c w origin ttl scope = ground (arith, grant_ttl-le-max_ttl scope ttl)

-- A grant is issued only for a stored pairing that has not expired, whose stored hash decodes to the
-- salted digest of the secret, and whose scope is the one asked for, and only to a valid origin. The
-- grant has the scope of that pairing, so a print secret never yields an administrator grant; it is
-- bound to the origin, is not revoked, and ends within the longest life of its scope.
pub exchange_issues :
    (c : Crates) (w : World) (secret origin : Text) (ttl : ℕ) (scope : GrantScope) (s : AuthStore)
    (r : ℕ × Text)
    → (exchange_for c w secret origin ttl scope s).0 ≡ ok (some r)
    → (p : StoredPairing) × (s.pairing ≡ some p)
      × IsSpent c w secret origin scope p
      × ((g : Grant) × (lookup r.0 (exchange_for c w secret origin ttl scope s).1.grants ≡ some g)
          × (g.origin ≡ origin)
          × (g.scope ≡ scope)
          × (g.scope ≡ p.scope)
          × (g.revoked_at ≡ none)
          × (g.expires_at ≤ w.clock 1 + max_ttl scope))
unfolding new_grant
exchange_issues c w secret origin ttl scope s r h =
    let (p, x, e, q) = exchange_success c w secret origin ttl scope s r h in
    let spent = refuses-IsSpent c w secret origin scope p x.in_time x.matching in
    (
      p,
      x.paired,
      spent,
      (
        new_grant c w 1 origin scope ttl,
        rw (q, e) (lookup-exchanged c w origin ttl scope s),
        refl,
        refl,
        sym spent.same_scope,
        refl,
        new_grant_bound c w origin ttl scope,
      ),
    )

new_grant-accepts :
    (c : Crates) (w : World) (origin : Text) (ttl : ℕ) (scope : GrantScope) (now : ℕ)
    → Decodes c
    → now ≤ (new_grant c w 1 origin scope ttl).expires_at
    → accepts c now (w.random 0) origin scope (new_grant c w 1 origin scope ttl) ≡ true
unfolding accepts new_grant allows
new_grant-accepts c w origin ttl scope now d h = ground (
  arith,
  d (digest c (w.random 1) (w.random 0)),
  text_eq_refl origin,
  text_eq_refl (digest c (w.random 1) (w.random 0)),
)

-- The token of a successful exchange authenticates at its origin and for its scope until its grant
-- expires, where base64 text can be decoded.
pub exchange_authenticates :
    (c : Crates) (w : World) (secret origin : Text) (ttl : ℕ) (scope : GrantScope) (s : AuthStore)
    (r : ℕ × Text) (now : ℕ)
    → Decodes c
    → (exchange_for c w secret origin ttl scope s).0 ≡ ok (some r)
    → now ≤ saturating_add (w.clock 1) (grant_ttl scope ttl)
    → is_some
        (authenticate_scoped c now r.1 origin scope (exchange_for c w secret origin ttl scope s).1)
      ≡ true
unfolding authenticate_scoped new_grant
exchange_authenticates c w secret origin ttl scope s r now d h t =
    let (p, x, e, q) = exchange_success c w secret origin ttl scope s r h in
    rw (q, e)
      (find?-values_complete grant_id (accepts c now (w.random 0) origin scope) w.random_id
        (exchanged c w origin ttl scope s).grants (new_grant c w 1 origin scope ttl)
        (lookup-exchanged c w origin ttl scope s) (new_grant-accepts c w origin ttl scope now d t))
