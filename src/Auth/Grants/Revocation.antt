-- ===== src/Auth/Grants/Revocation.antt =====
-- What authenticates, and which grants do after a rotation (src/auth.rs).
use mb_printer_cli.Common.{
  ℕ, ◌≡◌, Bool, true, false, some, arith, Option-cases, is_some, subst, inl, inr,
}
use mb_printer_cli.Common.Text.{Text, text_eq→eq}
use mb_printer_cli.Common.Map.{lookup, insert, Unique, lookup-insert, insert-Unique}
use mb_printer_cli.Common.Sort.{Keyed}
use mb_printer_cli.Common.Values.{find?-values, lookup-Keyed, insert-Keyed_at}
use mb_printer_cli.Auth.Types.{GrantScope, Grant, AuthStore, Crates, Decodes, World, digest}
use mb_printer_cli.Auth.Persistence.{grant_id, persist}
use mb_printer_cli.Auth.Pairing.{and_return-state}
use mb_printer_cli.Auth.Grants.{accepts, authenticate_scoped, rotate, rotated}

-- Each grant stands under its own identifier, and no identifier occurs twice.
pub record IsIndexed (s : AuthStore) : Type 0 where
  pub keyed : Keyed grant_id s.grants
  pub unique : Unique s.grants

-- What authentication returns is held under its identifier and passes the test.
pub authenticate_scoped_held :
    (c : Crates) (now : ℕ) (token origin : Text) (required : GrantScope) (s : AuthStore) (g : Grant)
    → IsIndexed s
    → authenticate_scoped c now token origin required s ≡ some g
    → (accepts c now token origin required g ≡ true) × (lookup g.id s.grants ≡ some g)
unfolding authenticate_scoped
authenticate_scoped_held c now token origin required s g v e =
    find?-values grant_id (accepts c now token origin required) s.grants g v.keyed v.unique e

-- A grant written back under its identifier, whatever becomes of the file.
replaced-IsIndexed :
    (disk : Bool) (id : ℕ) (g : Grant) (s : AuthStore)
    → g.id ≡ id
    → IsIndexed s
    → IsIndexed (persist disk (record s { grants = insert id g s.grants })).1
unfolding persist
replaced-IsIndexed true id g s e v = record {
  keyed = insert-Keyed_at grant_id id g s.grants e v.keyed;
  unique = insert-Unique id g s.grants v.unique;
}
replaced-IsIndexed false id g s e v = record {
  keyed = insert-Keyed_at grant_id id g s.grants e v.keyed;
  unique = insert-Unique id g s.grants v.unique;
}

replaced_lookup :
    (disk : Bool) (id : ℕ) (g : Grant) (s : AuthStore)
    → lookup id (persist disk (record s { grants = insert id g s.grants })).1.grants ≡ some g
unfolding persist
replaced_lookup disk id g s = ground (arith, lookup-insert id id g s.grants)

pub rotate-IsIndexed :
    (c : Crates) (w : World) (id ttl : ℕ) (s : AuthStore)
    → IsIndexed s
    → IsIndexed (rotate c w id ttl s).1
unfolding rotate
rotate-IsIndexed c w id ttl s v = elim (Option-cases (lookup id s.grants)) [
  | inl e ↦ rw (e, rotate) v
  | inr (g, e) ↦
      rw (e, rotate, and_return-state)
        (replaced-IsIndexed (w.disk 0) id (rotated c w ttl g) s
          (lookup-Keyed grant_id id s.grants g v.keyed e) v)
]

pub accepts-unrevoked :
    (c : Crates) (now : ℕ) (token origin : Text) (required : GrantScope) (g : Grant)
    → accepts c now token origin required g ≡ true
    → is_some g.revoked_at ≡ false
unfolding accepts
accepts-unrevoked c now token origin required g h = ground arith

-- The hash of a grant that was just rotated is that of the new token.
rotated-accepts :
    (c : Crates) (w : World) (ttl now : ℕ) (token origin : Text) (required : GrantScope) (g : Grant)
    → Decodes c
    → accepts c now token origin required (rotated c w ttl g) ≡ true
    → digest c (w.random 1) token ≡ digest c (w.random 1) (w.random 0)
unfolding accepts rotated
rotated-accepts c w ttl now token origin required g d h = ground (
  arith,
  d (digest c (w.random 1) (w.random 0)),
  text_eq→eq (digest c (w.random 1) (w.random 0)) (digest c (w.random 1) token),
)

rotate-rotated :
    (c : Crates) (w : World) (id ttl : ℕ) (s : AuthStore) (old g : Grant)
    → lookup id s.grants ≡ some old
    → lookup id (rotate c w id ttl s).1.grants ≡ some g
    → g ≡ rotated c w ttl old
unfolding rotate persist
rotate-rotated c w id ttl s old g f h =
    ground (arith, lookup-insert id id (rotated c w ttl old) s.grants)

-- After a rotation of a grant, any token that authenticates as that grant has the same salted
-- digest as the new token: the previous token is refused unless the digests collide.
pub rotate_replaces :
    (c : Crates) (w : World) (id ttl : ℕ) (s : AuthStore) (old : Grant) (now : ℕ)
    (token origin : Text) (required : GrantScope) (g : Grant)
    → Decodes c
    → IsIndexed s
    → lookup id s.grants ≡ some old
    → authenticate_scoped c now token origin required (rotate c w id ttl s).1 ≡ some g
    → g.id ≡ id
    → digest c (w.random 1) token ≡ digest c (w.random 1) (w.random 0)
rotate_replaces c w id ttl s old now token origin required g d v f a same =
    let (t, held) =
      authenticate_scoped_held c now token origin required (rotate c w id ttl s).1 g
        (rotate-IsIndexed c w id ttl s v) a in
    let p =
      rotate-rotated c w id ttl s old g f
        (subst (λ k. lookup k (rotate c w id ttl s).1.grants ≡ some g) same held) in
    rotated-accepts c w ttl now token origin required old d
      (subst (λ x. accepts c now token origin required x ≡ true) p t)
