-- ===== src/Auth/Machine/Revoked.antt =====
-- A revoked grant of src/auth.rs stays refused, whatever calls follow.
use mb_printer_cli.Common.{
  ℕ, ◌≡◌, ◌≢◌, refl, sym, ◌∙◌, true, none, some, List, [], ◌∷◌, arith, is_some, inl, inr,
  Bool-cases, Option-cases, ◌==◌,
}
use mb_printer_cli.Common.Text.{Text}
use mb_printer_cli.Common.Map.{Map, lookup, insert, Unique, Entries, lookup-Entries, insert-Unique}
use mb_printer_cli.Common.Sort.{Keyed}
use mb_printer_cli.Common.Values.{lookup-Keyed, insert-Keyed_at}
use mb_printer_cli.Common.Result.{ok}
use mb_printer_cli.Auth.Types.{GrantScope, Grant, AuthStore, Crates, World}
use mb_printer_cli.Auth.Persistence.{grant_id, persist}
use mb_printer_cli.Auth.Pairing.{new_grant}
use mb_printer_cli.Auth.Grants.{authenticate_scoped, revoke, rotated}
use mb_printer_cli.Auth.Grants.Revocation.{IsIndexed, authenticate_scoped_held, accepts-unrevoked}
use mb_printer_cli.Auth.Machine.{Call, rotates, after, run}
use mb_printer_cli.Auth.Machine.Held.{Holds, written-Holds}
use mb_printer_cli.Auth.Machine.CallsHold.{after-Holds}

-- If the grant has the identifier, it is revoked.
abbrev IsDead : ℕ → Grant → Type 0
IsDead id g = g.id ≡ id → is_some g.revoked_at ≡ true

-- No call draws the identifier for a new grant or rotates the grant.
abbrev pub Apart : ℕ → List (World × Call) → Type 0
Apart id [] = Unit
Apart id ((w, call) ∷ calls) =
    ((w.random_id ≢ id) × ((ttl : ℕ) → call ≢ rotates id ttl)) × Apart id calls

module _ (P : Grant → Type 0) (k : ℕ) (other : (g : Grant) → g.id ≢ k → P g) where
  absent-Entries : (m : Map Grant) → Keyed grant_id m → lookup k m ≡ none → Entries (λ i g. P g) m
  unfolding lookup
  absent-Entries [] h e = tt
  absent-Entries ((j, g) ∷ m) h e =
      (other g (λ q. ground (arith, h.0)), absent-Entries m h.1 (ground arith))

  -- Only the entry that is written may have the identifier.
  replaced-Entries :
      (g : Grant) (m : Map Grant)
      → Keyed grant_id m
      → Unique m
      → P g
      → Entries (λ i x. P x) (insert k g m)
  unfolding insert
  replaced-Entries g [] h u p = (p, tt)
  replaced-Entries g ((j, x) ∷ m) h u p = elim (Bool-cases (j == k)) [
    | inl e ↦ let same : j ≡ k = ground arith in rw e (p, absent-Entries m h.1 (rw same at u.0))
    | inr e ↦ rw e (other x (λ q. ground (arith, h.0)), replaced-Entries g m h.1 u.1 p)
  ]

-- After a successful revocation the grant is revoked in memory and in the file.
revoke-Holds :
    (w : World) (id : ℕ) (s : AuthStore)
    → IsIndexed s
    → (revoke w id s).0 ≡ ok true
    → Holds (IsDead id) (revoke w id s).1
unfolding revoke
revoke-Holds w id s v e = elim (Option-cases (lookup id s.grants)) [
  | inl f ↦ absurd (ground (arith, f))
  | inr (g, f) ↦ elim (Bool-cases (w.disk 0)) [
    | inr d ↦ absurd (unfold persist in ground (arith, f, d))
    | inl d ↦
        rw (f, revoke, d)
          (unfold persist in
            written (record g { revoked_at = some (w.clock 0) })
              (lookup-Keyed grant_id id s.grants g v.keyed f) refl)
  ]
]
  where
    written :
        (g : Grant)
        → g.id ≡ id
        → is_some g.revoked_at ≡ true
        → Holds (IsDead id) (persist true (record s { grants = insert id g s.grants })).1
    written g i r =
        written-Holds (IsDead id) (record s { grants = insert id g s.grants })
          (insert-Keyed_at grant_id id g s.grants i v.keyed) (insert-Unique id g s.grants v.unique)
          (replaced-Entries (IsDead id) id (λ x n q. absurd (n q)) g s.grants v.keyed v.unique
            (λ q. r))

new_grant-IsDead :
    (c : Crates) (w : World) (id : ℕ)
    → w.random_id ≢ id
    → (i : ℕ) (origin : Text) (scope : GrantScope) (ttl : ℕ)
    → IsDead id (new_grant c w i origin scope ttl)
unfolding new_grant
new_grant-IsDead c w id n i origin scope ttl q = absurd (n q)

rotated-IsDead :
    (c : Crates) (w : World) (id ttl k : ℕ) (g : Grant)
    → g.id ≡ k
    → k ≢ id
    → IsDead id (rotated c w ttl g)
unfolding rotated
rotated-IsDead c w id ttl k g e n q = absurd (n (sym e ∙ q))

run-Holds-IsDead :
    (c : Crates) (id : ℕ) (calls : List (World × Call)) (s : AuthStore)
    → Apart id calls
    → Holds (IsDead id) s
    → Holds (IsDead id) (run c calls s)
unfolding run
run-Holds-IsDead c id [] s a h = h
run-Holds-IsDead c id ((w, call) ∷ calls) s a h =
    run-Holds-IsDead c id calls (after c w call s) a.1 (
      after-Holds c w (IsDead id) (new_grant-IsDead c w id a.0.0) (λ g d q. refl) call s
        (λ k ttl e g f. rotated-IsDead c w id ttl k g f (λ same. a.0.1 ttl (rw same at e))) h)

-- After a revocation that reported success, and after any calls on the store that follow, failed writes
-- and reloads included, no token authenticates as the revoked grant, for any origin, scope or time, as
-- long as the grant is not rotated and no new grant draws its identifier.
pub revoke-run :
    (c : Crates) (w : World) (id : ℕ) (s : AuthStore) (calls : List (World × Call)) (now : ℕ)
    (token origin : Text) (required : GrantScope) (g : Grant)
    → IsIndexed s
    → (revoke w id s).0 ≡ ok true
    → Apart id calls
    → authenticate_scoped c now token origin required (run c calls (revoke w id s).1) ≡ some g
    → g.id ≢ id
revoke-run c w id s calls now token origin required g v e a t same =
    let h = run-Holds-IsDead c id calls (revoke w id s).1 a (revoke-Holds w id s v e) in
    let (accepted, held) =
      authenticate_scoped_held c now token origin required (run c calls (revoke w id s).1) g
        (record { keyed = h.keyed; unique = h.unique }) t in
    let dead =
      lookup-Entries (λ k x. IsDead id x) g.id (run c calls (revoke w id s).1).grants h.limited held
        same in
    ground (arith, dead, accepts-unrevoked c now token origin required g accepted)
