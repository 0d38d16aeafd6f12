-- ===== src/Api/Guards/Pairing.antt =====
-- A page that was paired by src/api.rs is authorized.
use mb_printer_cli.Common.{
  ℕ, ◌≡◌, ◌≤◌, refl, Bool, true, false, Option, none, some, List, ◌++◌, arith, is_some,
  saturating_add, get_elem?, inl, inr,
}
use mb_printer_cli.Common.Map.{lookup}
use mb_printer_cli.Common.{Bool-cases, ◌+◌}
use mb_printer_cli.Common.Text.{Text, codes}
use mb_printer_cli.Common.Strings.Digits.{strip_prefix-append}
use mb_printer_cli.Common.Result.{Result, ok, err, Result-cases}
use mb_printer_cli.Auth.Types.{
  Grant, StoredPairing, admin, AuthStore, Crates, World, Decodes, IoError, print, digest,
}
use mb_printer_cli.Auth.Origin.{IsLoopback}
use mb_printer_cli.Api.Guards.Access.{checked_origin_listed}
use mb_printer_cli.Auth.Persistence.{reload}
use mb_printer_cli.Auth.Pairing.{exchange_admin, exchange, exchange_for, grant_ttl, or_default}
use mb_printer_cli.Auth.Pairing.OneTime.{max_ttl, exchange_issues, exchange_authenticates}
use mb_printer_cli.Auth.Grants.{authenticate, authenticate_scoped}
use mb_printer_cli.Api.Errors.{ApiError, unauthorized}
use mb_printer_cli.Api.Guards.{
  pair_admin, require_pairing, Headers, validate_host, origin, bearer, authorize, checked_origin,
  pair, settled,
}

abbrev pub is_ok {ℓ} : {A : Type ℓ} → Result ApiError A → Bool
is_ok (ok a) = true
is_ok (err e) = false

abbrev pub with_token : Text → Headers → Headers
with_token token h = record h { authorization = some (codes "Bearer " ++ token) }

checked_origin-validate :
    (origins : List Text) (h : Headers) (o : Text)
    → checked_origin origins h ≡ ok o
    → (validate_host h ≡ ok tt) × (origin h ≡ ok o)
unfolding checked_origin
checked_origin-validate origins h o e = ground arith

settled_ok :
    (refusal : ApiError) (x : Result IoError (Option (ℕ × Text)) × AuthStore) (r : ℕ × Text)
    → (settled refusal x).0 ≡ ok r
    → (x.0 ≡ ok (some r)) × ((settled refusal x).1 ≡ x.1)
settled_ok refusal (err e, s) r h = absurd (ground arith)
settled_ok refusal (ok none, s) r h = absurd (ground arith)
settled_ok refusal (ok (some a), s) r h = (ground arith, refl)

authorize-with_token :
    (c : Crates) (now : ℕ) (h : Headers) (o token : Text) (s : AuthStore)
    → validate_host h ≡ ok tt
    → origin h ≡ ok o
    → is_some (authenticate_scoped c now token o print s) ≡ true
    → is_ok (authorize c now (with_token token h) s) ≡ true
unfolding authorize validate_host origin bearer authenticate
authorize-with_token c now h o token s v e a =
    ground (arith, v, e, a, strip_prefix-append (codes "Bearer ") token)

-- The token that a pairing returns authorizes requests from the same page, for thirty days from the
-- reading of the clock at which its grant was made, where base64 text can be decoded.
pub pair-authorize :
    (c : Crates) (w : World) (origins : List Text) (h : Headers) (secret : Text) (s : AuthStore)
    (id now : ℕ) (token : Text)
    → Decodes c
    → (pair c w origins h secret s).0 ≡ ok (id, token)
    → now ≤ saturating_add (w.clock 1) (grant_ttl print 2592000)
    → is_ok (authorize c now (with_token token h) (pair c w origins h secret s).1) ≡ true
unfolding pair exchange
pair-authorize c w origins h secret s id now token d e b =
    elim (Result-cases (checked_origin origins h)) [
      | inr (x, f) ↦ absurd (ground (arith, f))
      | inl (o, f) ↦ elim (Result-cases (reload s).0) [
        | inr (y, g) ↦ absurd (ground (arith, f, g))
        | inl (u, g) ↦
            let x = exchange_for c w secret o 2592000 print (reload s).1 in
            let answered : (settled (unauthorized "invalid or expired pairing secret") x).0
                ≡ ok (id, token) =
              ground (arith, f, g, e) in
            let (p, q) =
              settled_ok (unauthorized "invalid or expired pairing secret") x (id, token)
                answered in
            let (host, from) = checked_origin-validate origins h o f in
            rw (f, pair, g, q)
              (authorize-with_token c now h o token x.1 host from (
                exchange_authenticates c w secret o 2592000 print (reload s).1 (id, token) now d p
                  b))
      ]
    ]

-- An administrator grant is issued over the network only if the setting allows it, to a request that
-- names a host on the loopback interface and an origin of the configured list, and for a pairing that
-- was begun for an administrator, is in the file, has not expired, and whose hash decodes to the salted
-- digest of the secret: a secret for printing never yields one. The grant is for that origin and ends
-- within ten minutes of the reading of the clock at which it was made.
pub pair_admin-guarded :
    (c : Crates) (w : World) (origins : List Text) (enabled : Bool) (h : Headers) (secret : Text)
    (s : AuthStore) (id : ℕ) (token : Text)
    → (pair_admin c w origins enabled h secret s).0 ≡ ok (id, token)
    → (enabled ≡ true)
      × ((host : Text) × (h.host ≡ some host) × IsLoopback host)
      × ((o : Text) × (checked_origin origins h ≡ ok o)
          × (h.origin_header ≡ some o)
          × ((i : ℕ) × (get_elem? origins i ≡ some o))
          × ((p : StoredPairing) × ((reload s).1.pairing ≡ some p)
              × (p.scope ≡ admin)
              × (w.clock 0 ≤ p.expires_at)
              × (or_default (c.decode p.hash) ≡ digest c p.salt secret))
          × ((g : Grant) × (lookup id (pair_admin c w origins enabled h secret s).1.grants ≡ some g)
              × (g.origin ≡ o)
              × (g.scope ≡ admin)
              × (g.expires_at ≤ w.clock 1 + 600)))
unfolding pair_admin exchange_admin require_pairing max_ttl
pair_admin-guarded c w origins enabled h secret s id token e =
    elim (Result-cases (checked_origin origins h)) [
      | inr (x, f) ↦ absurd (ground (arith, f))
      | inl (o, f) ↦ elim (Bool-cases enabled) [
        | inr z ↦ absurd (ground (arith, f, z))
        | inl z ↦ elim (Result-cases (reload s).0) [
          | inr (y, g) ↦ absurd (ground (arith, f, g, z))
          | inl (u, g) ↦
              let x = exchange_for c w secret o 600 admin (reload s).1 in
              let answered : (settled
                    (unauthorized "invalid or expired administrator pairing secret") x).0
                  ≡ ok (id, token) =
                ground (arith, f, g, z, e) in
              let (p, q) =
                settled_ok (unauthorized "invalid or expired administrator pairing secret") x
                  (id, token) answered in
              let (pairing, held, spent, (grant, found, from, scope, same, live, late)) =
                exchange_issues c w secret o 600 admin (reload s).1 (id, token) p in
              let (loopback, sent_by, listed) = checked_origin_listed origins h o f in
              (
                z,
                loopback,
                (
                  o,
                  f,
                  sent_by,
                  listed,
                  (pairing, held, spent.same_scope, spent.in_time, spent.same_secret),
                  (grant, rw (f, z, pair_admin, g, q) found, from, scope, late),
                ),
              )
        ]
      ]
    ]
