-- ===== src/Auth/Origin.antt =====
-- The tests of src/auth.rs on hosts, origins and the bindings of an approval.
use mb_printer_cli.Common.{
  ◌≡◌, refl, Bool, true, false, not, ◌&&◌, ◌||◌, Option, none, some, arith, leb, is_some, ◌⊎◌, inl,
  inr, [], ◌∷◌, ◌++◌, Bool-cases,
}
use mb_printer_cli.Common.Text.{
  Text, codes, text_eq, text_eq→eq, is_empty, len, contains_char, lowercase, trim, starts_with,
}
use mb_printer_cli.Auth.Types.{Crates, Uri}

unfoldable pub loopback_host : Text → Bool
loopback_host host =
    let h = lowercase (trim host) in
    text_eq h (codes "localhost")
    || starts_with h (codes "localhost:")
    || text_eq h (codes "127.0.0.1")
    || starts_with h (codes "127.0.0.1:")
    || text_eq h (codes "[::1]")
    || starts_with h (codes "[::1]:")

abbrev valid_parts : Uri → Option Text → Option Text → Bool
valid_parts uri none authority = false
valid_parts uri (some scheme) none = false
valid_parts uri (some scheme) (some authority) =
    text_eq uri.path (codes "/")
    && not (is_some uri.query)
    && (text_eq scheme (codes "https") || text_eq scheme (codes "http") && loopback_host authority)

abbrev valid_uri : Option Uri → Bool
valid_uri none = false
valid_uri (some uri) = valid_parts uri uri.scheme uri.authority

unfoldable pub valid_origin : Crates → Text → Bool
valid_origin c origin = valid_uri (c.parse_uri origin)

unfoldable pub valid_approval_binding : Text → Bool
valid_approval_binding value =
    not (is_empty value) && leb (len value) 512 && not (contains_char 0 value)

-- What `starts_with` accepts begins with the prefix.
pub starts_with-append : (s p : Text) → starts_with s p ≡ true → (rest : Text) × (s ≡ p ++ rest)
unfolding starts_with
starts_with-append s [] h = (s, refl)
starts_with-append [] (p ∷ ps) h = absurd (ground arith)
starts_with-append (c ∷ s) (p ∷ ps) h =
    let (rest, e) = starts_with-append s ps (ground arith) in (rest, ground arith)

-- The name itself, or the name, a colon and more text.
abbrev pub IsNamed : Text → Text → Type 0
IsNamed h name = (h ≡ name) ⊎ ((rest : Text) × (h ≡ name ++ (58 ∷ rest)))

-- The text that is tested names the loopback interface.
abbrev pub IsLocal : Text → Type 0
IsLocal h =
    IsNamed h (codes "localhost") ⊎ (IsNamed h (codes "127.0.0.1") ⊎ IsNamed h (codes "[::1]"))

-- Trimmed and in lower case, the host is `localhost`, `127.0.0.1` or `[::1]`, alone or with a colon
-- and more text after it.
abbrev pub IsLoopback : Text → Type 0
IsLoopback host = IsLocal (lowercase (trim host))

IsLocal-cases :
    (h : Text)
    → (text_eq h (codes "localhost")
        || starts_with h (codes "localhost:")
        || text_eq h (codes "127.0.0.1")
        || starts_with h (codes "127.0.0.1:")
        || text_eq h (codes "[::1]")
        || starts_with h (codes "[::1]:"))
      ≡ true
    → IsLocal h
IsLocal-cases h e = elim (Bool-cases (text_eq h (codes "localhost"))) [
  | inl a ↦ inl (inl (text_eq→eq h (codes "localhost") a))
  | inr a ↦ elim (Bool-cases (starts_with h (codes "localhost:"))) [
    | inl b ↦ inl (inr (starts_with-append h (codes "localhost:") b))
    | inr b ↦ elim (Bool-cases (text_eq h (codes "127.0.0.1"))) [
      | inl c ↦ inr (inl (inl (text_eq→eq h (codes "127.0.0.1") c)))
      | inr c ↦ elim (Bool-cases (starts_with h (codes "127.0.0.1:"))) [
        | inl d ↦ inr (inl (inr (starts_with-append h (codes "127.0.0.1:") d)))
        | inr d ↦ elim (Bool-cases (text_eq h (codes "[::1]"))) [
          | inl f ↦ inr (inr (inl (text_eq→eq h (codes "[::1]") f)))
          | inr f ↦ inr (inr (inr (starts_with-append h (codes "[::1]:") (ground arith))))
        ]
      ]
    ]
  ]
]

pub loopback_host-IsLoopback : (host : Text) → loopback_host host ≡ true → IsLoopback host
unfolding loopback_host
loopback_host-IsLoopback host e = IsLocal-cases (lowercase (trim host)) e

-- What the parts of an accepted origin satisfy.
abbrev pub IsSecure : Uri → Text → Text → Type 0
IsSecure uri scheme authority =
    (uri.path ≡ codes "/")
    × (uri.query ≡ none)
    × ((scheme ≡ codes "https") ⊎ ((scheme ≡ codes "http") × IsLoopback authority))

valid_parts-IsSecure :
    (uri : Uri) (scheme authority : Text)
    → valid_parts uri (some scheme) (some authority) ≡ true
    → IsSecure uri scheme authority
valid_parts-IsSecure uri scheme authority h = ground (
  arith,
  text_eq→eq uri.path (codes "/"),
  text_eq→eq scheme (codes "https"),
  text_eq→eq scheme (codes "http"),
  loopback_host-IsLoopback authority,
)

valid_optional_parts-IsSecure :
    (uri : Uri) (s a : Option Text)
    → valid_parts uri s a ≡ true
    → (scheme : Text) × (authority : Text) × (s ≡ some scheme)
      × (a ≡ some authority)
      × IsSecure uri scheme authority
valid_optional_parts-IsSecure uri none a h = absurd (ground arith)
valid_optional_parts-IsSecure uri (some scheme) none h = absurd (ground arith)
valid_optional_parts-IsSecure uri (some scheme) (some authority) h =
    (scheme, authority, refl, refl, valid_parts-IsSecure uri scheme authority h)

-- An accepted origin is a URI with the root path and no query, and its scheme is https, or http with
-- an authority that is, trimmed and in lower case, `localhost`, `127.0.0.1` or `[::1]`, alone or with a
-- colon and more text after it.
pub valid_origin-IsSecure :
    (c : Crates) (origin : Text)
    → valid_origin c origin ≡ true
    → (uri : Uri) × (scheme : Text) × (authority : Text) × (c.parse_uri origin ≡ some uri)
      × (uri.scheme ≡ some scheme)
      × (uri.authority ≡ some authority)
      × IsSecure uri scheme authority
unfolding valid_origin
valid_origin-IsSecure c origin h = go (c.parse_uri origin) refl h
  where
    go :
        (o : Option Uri)
        → c.parse_uri origin ≡ o
        → valid_uri o ≡ true
        → (uri : Uri) × (scheme : Text) × (authority : Text) × (c.parse_uri origin ≡ some uri)
          × (uri.scheme ≡ some scheme)
          × (uri.authority ≡ some authority)
          × IsSecure uri scheme authority
    go none e v = absurd (ground arith)
    go (some uri) e v =
        let (scheme, authority, p, q, r) =
          valid_optional_parts-IsSecure uri uri.scheme uri.authority v in
        (uri, scheme, authority, e, p, q, r)
