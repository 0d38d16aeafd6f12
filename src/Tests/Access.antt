-- ===== src/Tests/Access.antt =====
-- Concrete requests to the local API (src/api.rs).
use mb_printer_cli.Common.{
  ℕ, ◌≡◌, ◌≤◌, refl, Bool, true, false, Option, none, some, List, [], ◌∷◌, ◌++◌, arith,
  saturating_add, get_elem?,
}
use mb_printer_cli.Auth.Persistence.{reload}
use mb_printer_cli.Common.{◌+◌}
use mb_printer_cli.Common.Text.{Text, codes}
use mb_printer_cli.Common.Map.{lookup}
use mb_printer_cli.Common.Result.{ok}
use mb_printer_cli.Auth.Types.{
  StoredPairing, admin, Grant, AuthStore, missing, stored, print, digest,
}
use mb_printer_cli.Auth.Origin.{loopback_host, IsLoopback}
use mb_printer_cli.Auth.Pairing.{grant_ttl, or_default}
use mb_printer_cli.Api.Guards.{pair_admin, checked_origin, Headers, authorize, pair}
use mb_printer_cli.Api.Guards.Access.{authorize_held}
use mb_printer_cli.Api.Guards.Pairing.{pair_admin-guarded, is_ok, with_token, pair-authorize}
use mb_printer_cli.Tests.Grants.{
  shop, crates, world, crates-Decodes, secret, pairing, paired, holding, holding-IsIndexed,
}

abbrev page : Headers
page = record {
  host = some (codes "localhost:9000");
  origin_header = some shop;
  authorization = none;
}

abbrev pub signed : Headers
signed = with_token secret page

signed_authorized : authorize crates 120 signed holding ≡ ok 7
unfolding authorize loopback_host mb_printer_cli.Common.Text.text_eq mb_printer_cli.Common.Text.trim
    mb_printer_cli.Common.Text.to_ascii_lowercase mb_printer_cli.Common.Text.starts_with
    mb_printer_cli.Common.Strings.strip_prefix mb_printer_cli.Auth.Grants.authenticate
    mb_printer_cli.Auth.Grants.authenticate_scoped mb_printer_cli.Common.Map.values
    mb_printer_cli.Auth.Grants.accepts mb_printer_cli.Auth.Types.digest
signed_authorized = refl

authorize_held_example :
    (host : Text) × (o : Text) × (token : Text) × (g : Grant) × (signed.host ≡ some host)
    × IsLoopback host
    × (signed.origin_header ≡ some o)
    × (signed.authorization ≡ some (codes "Bearer " ++ token))
    × (lookup 7 holding.grants ≡ some g)
    × (g.origin ≡ o)
    × (g.revoked_at ≡ none)
    × (120 ≤ g.expires_at)
    × (crates.decode g.token_hash ≡ some (digest crates g.token_salt token))
authorize_held_example =
    authorize_held crates 120 signed holding 7 holding-IsIndexed signed_authorized

-- The file holds the pairing that another process wrote.
abbrev served : AuthStore
served = record paired {
  file = stored (record { grants = []; pairing = some pairing; wifi_approval = none });
}

served_pairs : (pair crates world (shop ∷ []) page secret served).0 ≡ ok (7, 65 ∷ [])
unfolding pair mb_printer_cli.Api.Guards.checked_origin loopback_host
    mb_printer_cli.Common.Text.text_eq mb_printer_cli.Common.Text.trim
    mb_printer_cli.Common.Text.to_ascii_lowercase mb_printer_cli.Common.Text.starts_with
    mb_printer_cli.Auth.Persistence.reload mb_printer_cli.Auth.Pairing.exchange
    mb_printer_cli.Auth.Pairing.exchange_for mb_printer_cli.Auth.Pairing.refuses
    mb_printer_cli.Auth.Types.digest mb_printer_cli.Auth.Origin.valid_origin
    mb_printer_cli.Auth.Persistence.persist mb_printer_cli.Auth.Pairing.issue
served_pairs = refl

in_time : 2000 ≤ saturating_add (world.clock 1) (grant_ttl print 2592000)
unfolding grant_ttl
in_time = omega arith

pair-authorize_example :
    is_ok (
      authorize crates 2000
        (with_token (65 ∷ []) page)
        (pair crates world (shop ∷ []) page secret served).1)
    ≡ true
pair-authorize_example =
    pair-authorize crates world (shop ∷ []) page secret served 7 2000 (65 ∷ []) crates-Decodes
      served_pairs in_time

abbrev served_admin : AuthStore
served_admin = record paired {
  file = stored (record {
    grants = [];
    pairing = some (record pairing { scope = admin });
    wifi_approval = none;
  });
}

served_admin_pairs :
    (pair_admin crates world (shop ∷ []) true page secret served_admin).0 ≡ ok (7, 65 ∷ [])
unfolding pair_admin loopback_host mb_printer_cli.Common.Text.text_eq
    mb_printer_cli.Common.Text.trim mb_printer_cli.Common.Text.to_ascii_lowercase
    mb_printer_cli.Common.Text.starts_with reload mb_printer_cli.Auth.Pairing.exchange_admin
    mb_printer_cli.Auth.Pairing.exchange_for mb_printer_cli.Auth.Pairing.refuses
    mb_printer_cli.Auth.Types.digest mb_printer_cli.Auth.Origin.valid_origin
    mb_printer_cli.Auth.Persistence.persist mb_printer_cli.Auth.Pairing.issue
served_admin_pairs = refl

pair_admin-guarded_example :
    (true ≡ true)
    × ((host : Text) × (page.host ≡ some host) × IsLoopback host)
    × ((o : Text) × (checked_origin (shop ∷ []) page ≡ ok o)
        × (page.origin_header ≡ some o)
        × ((i : ℕ) × (get_elem? (shop ∷ []) i ≡ some o))
        × ((p : StoredPairing) × ((reload served_admin).1.pairing ≡ some p)
            × (p.scope ≡ admin)
            × (world.clock 0 ≤ p.expires_at)
            × (or_default (crates.decode p.hash) ≡ digest crates p.salt secret))
        × ((g : Grant) × (lookup 7
                (pair_admin crates world (shop ∷ []) true page secret served_admin).1.grants
              ≡ some g)
            × (g.origin ≡ o)
            × (g.scope ≡ admin)
            × (g.expires_at ≤ world.clock 1 + 600)))
pair_admin-guarded_example =
    pair_admin-guarded crates world (shop ∷ []) true page secret served_admin 7 (65 ∷ [])
      served_admin_pairs
