-- ===== src/Auth/Machine/CallsHold.antt =====
-- Each call on the store of src/auth.rs keeps a predicate on grants, where new, revoked and rotated
-- grants have it.
use mb_printer_cli.Common.{
  ℕ, ◌≡◌, refl, true, Option, none, some, Option-cases, Bool-cases, inl, inr, ltb, not, ◌||◌, ◌==◌,
  is_some,
}
use mb_printer_cli.Common.Text.{Text}
use mb_printer_cli.Common.Map.{lookup, lookup-Entries}
use mb_printer_cli.Common.Values.{lookup-Keyed}
use mb_printer_cli.Common.Result.{Result, ok, err}
use mb_printer_cli.Auth.Types.{
  GrantScope, admin, Grant, AuthStore, Crates, World, StoredPairing, WifiApproval, IoError,
}
use mb_printer_cli.Auth.Origin.{valid_origin, valid_approval_binding}
use mb_printer_cli.Auth.Persistence.{grant_id, reload}
use mb_printer_cli.Auth.Pairing.{
  map_some-state, new_grant, issue, begin_pairing_for, exchange_pairing, issue_after, issue_admin,
  refuses, exchange_for,
}
use mb_printer_cli.Auth.Grants.{grant_allows_admin, revoke, rotate, rotated}
use mb_printer_cli.Auth.Wifi.{
  prepare_wifi_approval, approve_wifi_approval, approve_pending, consume_wifi_approval,
  consume_pending, unusable,
}
use mb_printer_cli.Auth.Machine.Held.{
  Holds, persist-Holds, parts-Holds, insert-Holds, returned-Holds, file-Holds,
}
use mb_printer_cli.Auth.Machine.{
  Call, begins, exchanges, issues, prepares, approves, consumes, revokes, rotates, reloads, after,
}

module _ (c : Crates) (w : World) (P : Grant → Type 0)
    (made : (i : ℕ) (origin : Text) (scope : GrantScope) (ttl : ℕ)
      → P (new_grant c w i origin scope ttl))
    (ended : (g : Grant) → P g → P (record g { revoked_at = some (w.clock 0) })) where
  pub begins-Holds :
      (scope : GrantScope) (ttl : ℕ) (s : AuthStore)
      → Holds P s
      → Holds P (begin_pairing_for c w scope ttl s).1
  unfolding begin_pairing_for
  begins-Holds scope ttl s h = returned-Holds P (w.disk 0) _ _ (parts-Holds P _ s.wifi_approval s h)

  pub issue-Holds :
      (i n : ℕ) (origin : Text) (scope : GrantScope) (ttl : ℕ) (s : AuthStore)
      → Holds P s
      → Holds P (issue c w i n origin scope ttl s).1
  unfolding issue
  issue-Holds i n origin scope ttl s h = returned-Holds P (w.disk n) _ _ (
      insert-Holds P w.random_id (new_grant c w i origin scope ttl) s (unfold new_grant in refl)
        (made i origin scope ttl) h)

  pub issues-Holds :
      (origin : Text) (ttl : ℕ) (s : AuthStore)
      → Holds P s
      → Holds P (issue_admin c w origin ttl s).1
  unfolding issue_admin
  issues-Holds origin ttl s h = elim (Bool-cases (not (valid_origin c origin))) [
    | inl e ↦ rw (e, issue_admin) h
    | inr e ↦ rw (e, issue_admin, map_some-state) (issue-Holds 0 0 origin admin ttl s h)
  ]

  pub issue_after-Holds :
      (origin : Text) (scope : GrantScope) (ttl : ℕ) (r : Result IoError (Unit {0}) × AuthStore)
      → Holds P r.1
      → Holds P (issue_after c w origin scope ttl r).1
  issue_after-Holds origin scope ttl (ok u, s) h =
      rw map_some-state (issue-Holds 1 1 origin scope ttl s h)
  issue_after-Holds origin scope ttl (err e, s) h = h

  pub exchange_pairing-Holds :
      (secret origin : Text) (ttl : ℕ) (scope : GrantScope) (s : AuthStore)
      (o : Option StoredPairing)
      → Holds P s
      → Holds P (exchange_pairing c w secret origin ttl scope s o).1
  exchange_pairing-Holds secret origin ttl scope s none h = h
  exchange_pairing-Holds secret origin ttl scope s (some p) h =
      elim (Bool-cases (ltb p.expires_at (w.clock 0))) [
        | inl e ↦ rw e (returned-Holds P (w.disk 0) none _ unpaired)
        | inr e ↦ rw e (elim (Bool-cases (refuses c p secret origin scope)) [
          | inl f ↦ rw f h
          | inr f ↦
              rw f (issue_after-Holds origin scope ttl _ (persist-Holds P (w.disk 0) _ unpaired))
        ])
      ]
    where
      unpaired : Holds P (record s { pairing = none })
      unpaired = parts-Holds P none s.wifi_approval s h

  pub revokes-Holds : (id : ℕ) (s : AuthStore) → Holds P s → Holds P (revoke w id s).1
  unfolding revoke
  revokes-Holds id s h = elim (Option-cases (lookup id s.grants)) [
    | inl e ↦ rw (e, revoke) h
    | inr (g, e) ↦
        rw (e, revoke)
          (returned-Holds P (w.disk 0) true _ (
            insert-Holds P id _ s (lookup-Keyed grant_id id s.grants g h.keyed e)
              (ended g (lookup-Entries (λ k x. P x) id s.grants h.limited e)) h))
  ]

  pub rotates-Holds :
      (id ttl : ℕ) (s : AuthStore)
      → ((g : Grant) → g.id ≡ id → P (rotated c w ttl g))
      → Holds P s
      → Holds P (rotate c w id ttl s).1
  unfolding rotate
  rotates-Holds id ttl s renewed h = elim (Option-cases (lookup id s.grants)) [
    | inl e ↦ rw (e, rotate) h
    | inr (g, e) ↦
        rw (e, rotate)
          (returned-Holds P (w.disk 0) (some (w.random 0)) _ (
            insert-Holds P id (rotated c w ttl g) s (lookup-Keyed grant_id id s.grants g h.keyed e)
              (renewed g (lookup-Keyed grant_id id s.grants g h.keyed e)) h))
  ]

  pub prepares-Holds :
      (grant : ℕ) (origin connection settings : Text) (s : AuthStore)
      → Holds P s
      → Holds P (prepare_wifi_approval c w grant origin connection settings s).1
  unfolding prepare_wifi_approval
  prepares-Holds grant origin connection settings s h =
      elim (Bool-cases (
        not (valid_origin c origin)
        || not (valid_approval_binding connection)
        || not (valid_approval_binding settings)
        || not (grant_allows_admin (w.clock 0) grant origin s))) [
          | inl e ↦ rw (e, prepare_wifi_approval) h
          | inr e ↦
              rw (e, prepare_wifi_approval)
                (returned-Holds P (w.disk 0) _ _ (parts-Holds P s.pairing _ s h))
        ]

  pub approve_pending-Holds :
      (id : ℕ) (s : AuthStore) (o : Option WifiApproval)
      → Holds P s
      → Holds P (approve_pending w id s o).1
  approve_pending-Holds id s none h = h
  approve_pending-Holds id s (some a) h =
      elim (Bool-cases
        (not (a.id == id) || ltb a.expires_at (w.clock 0) || is_some a.consumed_at)) [
          | inl e ↦ rw e h
          | inr e ↦ rw e (returned-Holds P (w.disk 0) true _ (parts-Holds P s.pairing _ s h))
        ]

  pub consume_pending-Holds :
      (id grant : ℕ) (origin connection settings : Text) (s : AuthStore) (o : Option WifiApproval)
      → Holds P s
      → Holds P (consume_pending w id grant origin connection settings s o).1
  consume_pending-Holds id grant origin connection settings s none h = h
  consume_pending-Holds id grant origin connection settings s (some a) h =
      elim (Bool-cases (unusable (w.clock 1) id grant origin connection settings a)) [
        | inl e ↦ rw e h
        | inr e ↦ rw e (returned-Holds P (w.disk 0) true _ (parts-Holds P s.pairing _ s h))
      ]

  pub consumes-Holds :
      (id grant : ℕ) (origin connection settings : Text) (s : AuthStore)
      → Holds P s
      → Holds P (consume_wifi_approval w id grant origin connection settings s).1
  unfolding consume_wifi_approval
  consumes-Holds id grant origin connection settings s h =
      elim (Bool-cases (not (grant_allows_admin (w.clock 0) grant origin s))) [
        | inl e ↦ rw (e, consume_wifi_approval) h
        | inr e ↦
            rw (e, consume_wifi_approval)
              (consume_pending-Holds id grant origin connection settings s s.wifi_approval h)
      ]

  -- The call, with what a rotation in it needs.
  pub after-Holds :
      (call : Call) (s : AuthStore)
      → ((id ttl : ℕ) → call ≡ rotates id ttl → (g : Grant) → g.id ≡ id → P (rotated c w ttl g))
      → Holds P s
      → Holds P (after c w call s)
  unfolding after exchange_for approve_wifi_approval reload
  after-Holds (begins scope ttl) s renewed h = begins-Holds scope ttl s h
  after-Holds (exchanges secret origin ttl scope) s renewed h =
      exchange_pairing-Holds secret origin ttl scope s s.pairing h
  after-Holds (issues origin ttl) s renewed h = issues-Holds origin ttl s h
  after-Holds (prepares grant origin connection settings) s renewed h =
      prepares-Holds grant origin connection settings s h
  after-Holds (approves id) s renewed h = approve_pending-Holds id s s.wifi_approval h
  after-Holds (consumes id grant origin connection settings) s renewed h =
      consumes-Holds id grant origin connection settings s h
  after-Holds (revokes id) s renewed h = revokes-Holds id s h
  after-Holds (rotates id ttl) s renewed h = rotates-Holds id ttl s (renewed id ttl refl) h
  after-Holds reloads s renewed h = file-Holds P s s.file h.on_file h
