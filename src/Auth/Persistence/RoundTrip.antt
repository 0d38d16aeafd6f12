-- ===== src/Auth/Persistence/RoundTrip.antt =====
-- A store that is written to its file and read back (src/auth.rs).
use mb_printer_cli.Common.{ℕ, ◌≡◌, refl, Bool, true, false, arith}
use mb_printer_cli.Common.Map.{lookup, values, Unique}
use mb_printer_cli.Common.Sort.{
  DistinctIds, Keyed, values-DistinctIds, sort_by-DistinctIds, lookup-collect-sort,
}
use mb_printer_cli.Common.Result.{ok}
use mb_printer_cli.Auth.Types.{AuthStore}
use mb_printer_cli.Auth.Persistence.{grant_id, created_le, reload, grants, persist}

-- Two stores that answer alike: the same grant under each identifier, the same pairing and the same
-- approval.
pub record SameView (a b : AuthStore) : Type 0 where
  pub same_grants : (k : ℕ) → lookup k a.grants ≡ lookup k b.grants
  pub same_pairing : a.pairing ≡ b.pairing
  pub same_approval : a.wifi_approval ≡ b.wifi_approval

reload-persist_view :
    (s : AuthStore)
    → Keyed grant_id s.grants
    → Unique s.grants
    → SameView (reload (persist true s).1).1 s
unfolding reload persist
reload-persist_view s h u = record {
  same_grants = λ k. lookup-collect-sort grant_id created_le k s.grants h u;
  same_pairing = refl;
  same_approval = refl;
}

-- Where each grant stands under its own identifier and no identifier occurs twice, a store whose
-- write of the file succeeded reloads without error to a store that answers alike.
pub reload-persist :
    (disk : Bool) (s : AuthStore)
    → Keyed grant_id s.grants
    → Unique s.grants
    → (persist disk s).0 ≡ ok tt
    → ((reload (persist disk s).1).0 ≡ ok tt) × SameView (reload (persist disk s).1).1 s
unfolding reload persist
reload-persist true s h u e = (refl, reload-persist_view s h u)
reload-persist false s h u e = absurd (ground arith)

-- The identifiers of a written file are distinct.
pub persist-DistinctIds :
    (s : AuthStore) → Keyed grant_id s.grants → Unique s.grants → DistinctIds grant_id (grants s)
unfolding grants
persist-DistinctIds s h u =
    sort_by-DistinctIds grant_id created_le (values s.grants)
      (values-DistinctIds grant_id s.grants h u)
