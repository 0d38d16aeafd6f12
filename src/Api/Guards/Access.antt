-- ===== src/Api/Guards/Access.antt =====
-- What the guards of src/api.rs let through.
use mb_printer_cli.Common.{
  ℕ, ◌≡◌, ◌≤◌, true, none, some, List, [], ◌∷◌, ◌++◌, arith, get_elem?, suc, Option-cases,
  Bool-cases, refl, ap, subst, inl, inr,
}
use mb_printer_cli.Common.Text.{Text, codes, text_eq, text_eq→eq}
use mb_printer_cli.Common.Strings.{strip_prefix}
use mb_printer_cli.Common.Map.{lookup}
use mb_printer_cli.Common.Result.{ok, Result-cases}
use mb_printer_cli.Auth.Types.{Grant, AuthStore, Crates, print, digest}
use mb_printer_cli.Auth.Origin.{IsLoopback, loopback_host-IsLoopback}
use mb_printer_cli.Auth.Grants.{accepts, authenticate, authenticate_scoped}
use mb_printer_cli.Auth.Grants.Revocation.{IsIndexed, authenticate_scoped_held}
use mb_printer_cli.Api.Guards.{
  Headers, validate_host, origin, bearer, authorize, allowed_origin, checked_origin,
}

-- What `strip_prefix` leaves stands after the prefix.
strip_prefix_append : (s p rest : Text) → strip_prefix s p ≡ some rest → s ≡ p ++ rest
unfolding strip_prefix
strip_prefix_append s [] rest h = ground arith
strip_prefix_append [] (p ∷ ps) rest h = absurd (ground arith)
strip_prefix_append (c ∷ s) (p ∷ ps) rest h =
    ground (arith, strip_prefix_append s ps rest (ground arith))

-- The token stands in the header after the word `Bearer` and a space.
bearer_header :
    (h : Headers) (token : Text)
    → bearer h ≡ ok token
    → h.authorization ≡ some (codes "Bearer " ++ token)
unfolding bearer
bearer_header h token e = elim (Option-cases h.authorization) [
  | inl a ↦ absurd (ground arith)
  | inr (v, a) ↦ elim (Option-cases (strip_prefix v (codes "Bearer "))) [
    | inl b ↦ absurd (ground arith)
    | inr (rest, b) ↦
        let same : rest ≡ token = ground arith in
        rw (a, strip_prefix_append v (codes "Bearer ") rest b, same) refl
  ]
]

host-IsLoopback :
    (h : Headers) → validate_host h ≡ ok tt → (host : Text) × (h.host ≡ some host) × IsLoopback host
unfolding validate_host
host-IsLoopback h e = elim (Option-cases h.host) [
  | inl a ↦ absurd (ground arith)
  | inr (host, a) ↦ (host, a, loopback_host-IsLoopback host (ground arith))
]

allowed_origin_listed :
    (origins : List Text) (o : Text)
    → allowed_origin origins o ≡ true
    → (i : ℕ) × (get_elem? origins i ≡ some o)
allowed_origin_listed [] o e = absurd (ground arith)
allowed_origin_listed (a ∷ origins) o e = elim (Bool-cases (text_eq a o)) [
  | inl t ↦ (0, ap some (text_eq→eq a o t))
  | inr f ↦ let (i, q) = allowed_origin_listed origins o (ground arith) in (suc i, q)
]

-- What the checks of the host and of the origin let through: a host on the loopback interface, and an
-- origin that is one of those configured.
pub checked_origin_listed :
    (origins : List Text) (h : Headers) (o : Text)
    → checked_origin origins h ≡ ok o
    → ((host : Text) × (h.host ≡ some host) × IsLoopback host)
      × (h.origin_header ≡ some o)
      × ((i : ℕ) × (get_elem? origins i ≡ some o))
unfolding checked_origin origin
checked_origin_listed origins h o e = elim (Option-cases h.origin_header) [
  | inl b ↦ absurd (ground arith)
  | inr (x, b) ↦
      let same : x ≡ o = ground arith in
      (
        host-IsLoopback h (ground arith),
        ground arith,
        allowed_origin_listed origins o (ground arith),
      )
]

accepted_grant :
    (c : Crates) (now : ℕ) (token o : Text) (g : Grant)
    → accepts c now token o print g ≡ true
    → (g.origin ≡ o)
      × (g.revoked_at ≡ none)
      × (now ≤ g.expires_at)
      × (c.decode g.token_hash ≡ some (digest c g.token_salt token))
unfolding accepts
accepted_grant c now token o g h = elim (Option-cases (c.decode g.token_hash)) [
  | inl e ↦ absurd (ground arith)
  | inr (x, e) ↦
      ground (arith, e, text_eq→eq g.origin o, text_eq→eq x (digest c g.token_salt token))
]

-- A request that is authorized names a host on the loopback interface and an origin, and bears a
-- token; and the store holds the grant that is returned: of that origin, not revoked, not expired, and
-- with a stored hash that decodes to the salted digest of the token.
pub authorize_held :
    (c : Crates) (now : ℕ) (h : Headers) (s : AuthStore) (id : ℕ)
    → IsIndexed s
    → authorize c now h s ≡ ok id
    → (host : Text) × (o : Text) × (token : Text) × (g : Grant) × (h.host ≡ some host)
      × IsLoopback host
      × (h.origin_header ≡ some o)
      × (h.authorization ≡ some (codes "Bearer " ++ token))
      × (lookup id s.grants ≡ some g)
      × (g.origin ≡ o)
      × (g.revoked_at ≡ none)
      × (now ≤ g.expires_at)
      × (c.decode g.token_hash ≡ some (digest c g.token_salt token))
unfolding authorize validate_host origin authenticate
authorize_held c now h s id v e = elim (Option-cases h.host) [
  | inl a ↦ absurd (ground arith)
  | inr (host, a) ↦ elim (Option-cases h.origin_header) [
    | inl b ↦ absurd (ground arith)
    | inr (o, b) ↦ elim (Result-cases (bearer h)) [
      | inr (x, d) ↦ absurd (ground arith)
      | inl (token, d) ↦ elim (Option-cases (authenticate_scoped c now token o print s)) [
        | inl f ↦ absurd (ground arith)
        | inr (g, f) ↦
            let (t, l) = authenticate_scoped_held c now token o print s g v f in
            let (p, q, r, u) = accepted_grant c now token o g t in
            let same : g.id ≡ id = ground arith in
            (
              host,
              o,
              token,
              g,
              a,
              loopback_host-IsLoopback host (ground arith),
              b,
              bearer_header h token d,
              subst (λ k. lookup k s.grants ≡ some g) same l,
              p,
              q,
              r,
              u,
            )
      ]
    ]
  ]
]
