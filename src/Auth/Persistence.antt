-- ===== src/Auth/Persistence.antt =====
-- `load`, `reload`, `grants` and `persist` of src/auth.rs.
pub mod RoundTrip
use mb_printer_cli.Common.{ℕ, Bool, Option, none, List, [], if◌then◌else◌, leb}
use mb_printer_cli.Common.Map.{Map, values}
use mb_printer_cli.Common.Sort.{sort_by, collect_from}
use mb_printer_cli.Common.Result.{Result, ok, err, ◌>>=◌}
use mb_printer_cli.Auth.Types.{
  Grant, Store, File, missing, unreadable, stored, AuthStore, IoError, io_error,
}

abbrev pub grant_id : Grant → ℕ
grant_id g = g.id

abbrev pub created_le : Grant → Grant → Bool
created_le a b = leb a.created_at b.created_at

abbrev read_file : File → Result IoError Store
read_file missing = ok (record { grants = []; pairing = none; wifi_approval = none })
read_file unreadable = err io_error
read_file (stored s) = ok s

unfoldable pub load : File → Result IoError AuthStore
load file = do
  store ← read_file file
  ok (record {
    grants = collect_from grant_id [] store.grants;
    pairing = store.pairing;
    wifi_approval = store.wifi_approval;
    file = file;
  })

-- `AuthStore::reload`, with the store after it: an unreadable file leaves it as it was.
abbrev pub reloaded : AuthStore → Result IoError AuthStore → Result IoError (Unit {0}) × AuthStore
reloaded s (ok refreshed) = (
  ok tt,
  record s {
    grants = refreshed.grants;
    pairing = refreshed.pairing;
    wifi_approval = refreshed.wifi_approval;
  },
)
reloaded s (err e) = (err e, s)

unfoldable pub reload : AuthStore → Result IoError (Unit {0}) × AuthStore
unfolding load
reload s = reloaded s (load s.file)

unfoldable pub grants : AuthStore → List Grant
grants s = sort_by created_le (values s.grants)

-- The temporary file is renamed over the old one, so a write that fails leaves the old file.
unfoldable pub persist : Bool → AuthStore → Result IoError (Unit {0}) × AuthStore
unfolding grants
persist disk s =
    if disk
    then (
      ok tt,
      record s {
        file =
            stored
              (record { grants = grants s; pairing = s.pairing; wifi_approval = s.wifi_approval });
      },
    )
    else (err io_error, s)
