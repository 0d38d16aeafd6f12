-- ===== src/Tests/Grants.antt =====
-- Concrete pairings, grants and approvals (src/auth.rs).
use mb_printer_cli.Common.{
  ℕ, ◌+◌, ◌≡◌, ◌≢◌, ◌≤◌, ◌⊎◌, refl, Bool, true, false, Option, none, some, List, [], ◌∷◌, arith,
  is_some, saturating_add, ◌==◌, if◌then◌else◌, ltb,
}
use mb_printer_cli.Common.Text.{Text, codes, text_eq}
use mb_printer_cli.Common.Map.{lookup, Unique}
use mb_printer_cli.Common.Sort.{Keyed}
use mb_printer_cli.Common.Result.{ok}
use mb_printer_cli.Auth.Types.{
  print, admin, Grant, StoredPairing, AuthStore, missing, Uri, Crates, World, digest, Decodes,
}
use mb_printer_cli.Auth.Origin.{valid_origin, IsSecure, valid_origin-IsSecure}
use mb_printer_cli.Auth.Persistence.{grant_id, persist, reload}
use mb_printer_cli.Auth.Persistence.RoundTrip.{SameView, reload-persist}
use mb_printer_cli.Auth.Pairing.{begin_pairing_for, exchange_for, grant_ttl}
use mb_printer_cli.Auth.Pairing.OneTime.{IsSpent, max_ttl, exchange_once, exchange_issues}
use mb_printer_cli.Auth.Grants.{authenticate_scoped, revoke, rotate}
use mb_printer_cli.Auth.Grants.Revocation.{IsIndexed, rotate_replaces}
use mb_printer_cli.Auth.Machine.Revoked.{Apart, revoke-run}
use mb_printer_cli.Auth.Machine.{
  Call, begins, exchanges, prepares, approves, consumes, run, reloads,
}
use mb_printer_cli.Auth.Machine.Limits.{fresh, run_limited}
use mb_printer_cli.Auth.Machine.SingleUse.{
  consumptions, preparations, approvals, approvals_spent_once,
}

abbrev pub shop : Text
shop = codes "https://shop"

abbrev shop_uri : Uri
shop_uri = record {
  scheme = some (codes "https");
  authority = some (codes "shop");
  path = codes "/";
  query = none;
}

-- A digest and an encoding that keep their input, and one address.
abbrev pub crates : Crates
crates = record {
  sha256 = λ t. t;
  encode = λ b. b;
  decode = λ t. some t;
  parse_uri = λ t. if text_eq t shop then some shop_uri else none;
}

abbrev pub world : World
world = record {
  clock = λ i. 100 + i;
  disk = λ i. true;
  random = λ i. (65 + i) ∷ [];
  random_id = 7;
}

abbrev steady : World
steady = record world { clock = λ i. 100 }

pub crates-Decodes : Decodes crates
crates-Decodes bytes = refl

abbrev pub secret : Text
secret = 65 ∷ []

abbrev pub pairing : StoredPairing
pairing = record {
  salt = 66 ∷ [];
  hash = digest crates (66 ∷ []) secret;
  expires_at = 400;
  scope = print;
}

-- The store after `begin_pairing`, in memory.
abbrev pub paired : AuthStore
paired = record { grants = []; pairing = some pairing; wifi_approval = none; file = missing }

abbrev exchanged : AuthStore
exchanged = (exchange_for crates world secret shop 50 print paired).1

paired_exchanges :
    (exchange_for crates world secret shop 50 print paired).0 ≡ ok (some (7, 65 ∷ []))
unfolding exchange_for mb_printer_cli.Auth.Pairing.refuses text_eq digest valid_origin persist
    mb_printer_cli.Auth.Pairing.issue
paired_exchanges = refl

abbrev pub held : Grant
held = record {
  id = 7;
  origin = shop;
  scope = admin;
  token_salt = 66 ∷ [];
  token_hash = digest crates (66 ∷ []) secret;
  created_at = 90;
  expires_at = 500;
  revoked_at = none;
}

abbrev other : Grant
other = record held { id = 8; scope = print }

abbrev pub holding : AuthStore
holding = record {
  grants = (7, held) ∷ (8, other) ∷ [];
  pairing = none;
  wifi_approval = none;
  file = missing;
}

holding-Keyed : Keyed grant_id holding.grants
holding-Keyed = (refl, (refl, tt))

holding-Unique : Unique holding.grants
unfolding lookup
holding-Unique = (refl, (refl, tt))

pub holding-IsIndexed : IsIndexed holding
holding-IsIndexed = record { keyed = holding-Keyed; unique = holding-Unique }

abbrev approving : List (World × Call)
approving =
    (world, begins admin 60)
    ∷ (world, exchanges secret shop 50 admin)
    ∷ (world, prepares 7 shop shop shop)
    ∷ (world, approves 7)
    ∷ (world, consumes 7 7 shop shop shop)
    ∷ (world, consumes 7 7 shop shop shop)
    ∷ []

approvals_spent_once_example :
    (consumptions crates approving fresh ≤ preparations approving)
    × (consumptions crates approving fresh ≤ approvals approving)
approvals_spent_once_example = approvals_spent_once crates approving

exchange_once_example :
    (exchange_for crates world secret shop 50 admin exchanged ≡ (ok none, exchanged))
    × (exchange_for crates world secret shop 50 admin (reload exchanged).1
        ≡ (ok none, (reload exchanged).1))
exchange_once_example =
    exchange_once crates world world secret secret shop shop 50 50 print admin paired (7, 65 ∷ [])
      paired_exchanges

exchange_issues_example :
    (p : StoredPairing) × (paired.pairing ≡ some p)
    × IsSpent crates world secret shop print p
    × ((g : Grant) × (lookup 7 exchanged.grants ≡ some g)
        × (g.origin ≡ shop)
        × (g.scope ≡ print)
        × (g.scope ≡ p.scope)
        × (g.revoked_at ≡ none)
        × (g.expires_at ≤ world.clock 1 + max_ttl print))
exchange_issues_example =
    exchange_issues crates world secret shop 50 print paired (7, 65 ∷ []) paired_exchanges

early_enough : 120 ≤ saturating_add (world.clock 1) (grant_ttl print 50)
unfolding grant_ttl
early_enough = omega arith

abbrev issuing : List (World × Call)
issuing = (steady, begins admin 60) ∷ (steady, exchanges secret shop 5000 admin) ∷ []

clock_bounded : (i : ℕ) → steady.clock i ≤ 100
clock_bounded i = omega arith

abbrev issued : Grant
issued = record {
  id = 7;
  origin = shop;
  scope = admin;
  token_salt = 66 ∷ [];
  token_hash = digest crates (66 ∷ []) secret;
  created_at = 100;
  expires_at = 700;
  revoked_at = none;
}

issuing_issues : lookup 7 (run crates issuing fresh).grants ≡ some issued
unfolding lookup run mb_printer_cli.Auth.Machine.after exchange_for begin_pairing_for persist
    mb_printer_cli.Auth.Pairing.refuses text_eq digest valid_origin
    mb_printer_cli.Auth.Pairing.issue mb_printer_cli.Common.Map.insert
issuing_issues = refl

run_limited_example :
    (issued.id ≡ 7)
    × (issued.scope ≡ print → issued.expires_at ≤ 100 + 31536000)
    × (issued.scope ≡ admin → issued.expires_at ≤ 100 + 600)
run_limited_example =
    run_limited crates 100 issuing 7 issued (clock_bounded, (clock_bounded, tt)) issuing_issues

-- Another grant is issued, and the file is read again.
abbrev after_revocation : List (World × Call)
after_revocation =
    (record world { random_id = 9 }, begins print 60)
    ∷ (record world { random_id = 9 }, exchanges secret shop 50 print)
    ∷ (record world { random_id = 9 }, reloads)
    ∷ []

after_revocation-Apart : Apart 7 after_revocation
after_revocation-Apart = (
  (λ e. absurd (omega arith), λ ttl e. ground arith),
  (
    (λ e. absurd (omega arith), λ ttl e. ground arith),
    ((λ e. absurd (omega arith), λ ttl e. ground arith), tt),
  ),
)

other_authenticates :
    authenticate_scoped crates 120 secret shop print
      (run crates after_revocation (revoke world 7 holding).1)
    ≡ some other
unfolding authenticate_scoped revoke mb_printer_cli.Common.Map.values lookup persist
    mb_printer_cli.Common.Map.insert mb_printer_cli.Auth.Grants.accepts text_eq digest run
    mb_printer_cli.Auth.Machine.after reload exchange_for begin_pairing_for
    mb_printer_cli.Auth.Pairing.refuses valid_origin mb_printer_cli.Auth.Pairing.issue
    mb_printer_cli.Common.Sort.collect_from mb_printer_cli.Common.Sort.sort_by
other_authenticates = refl

held_revokes : (revoke world 7 holding).0 ≡ ok true
unfolding revoke lookup persist
held_revokes = refl

revoke-run_example : other.id ≢ 7
revoke-run_example =
    revoke-run crates world 7 holding after_revocation 120 secret shop print other holding-IsIndexed
      held_revokes after_revocation-Apart other_authenticates

abbrev renewed : Grant
renewed = record held { created_at = 100; expires_at = 151 }

rotated_authenticates :
    authenticate_scoped crates 120 secret shop print (rotate crates world 7 50 holding).1
    ≡ some renewed
unfolding authenticate_scoped rotate mb_printer_cli.Common.Map.values lookup persist
    mb_printer_cli.Common.Map.insert mb_printer_cli.Auth.Grants.accepts text_eq digest
rotated_authenticates = refl

rotate_replaces_example :
    digest crates (world.random 1) secret ≡ digest crates (world.random 1) (world.random 0)
unfolding lookup
rotate_replaces_example =
    rotate_replaces crates world 7 50 holding held 120 secret shop print renewed crates-Decodes
      holding-IsIndexed refl rotated_authenticates refl

holding_persists : (persist true holding).0 ≡ ok tt
unfolding persist
holding_persists = refl

reload-persist_example :
    ((reload (persist true holding).1).0 ≡ ok tt)
    × SameView (reload (persist true holding).1).1 holding
reload-persist_example = reload-persist true holding holding-Keyed holding-Unique holding_persists

shop_is_valid : valid_origin crates shop ≡ true
unfolding valid_origin text_eq
shop_is_valid = refl

valid_origin-IsSecure_example :
    (uri : Uri) × (scheme : Text) × (authority : Text) × (crates.parse_uri shop ≡ some uri)
    × (uri.scheme ≡ some scheme)
    × (uri.authority ≡ some authority)
    × IsSecure uri scheme authority
valid_origin-IsSecure_example = valid_origin-IsSecure crates shop shop_is_valid
