-- ===== src/Auth/Machine/Held.antt =====
-- What the calls keep of the grants of src/auth.rs, in memory and in the file.
use mb_printer_cli.Common.{ℕ, ◌≡◌, Bool, true, false, Option, []}
use mb_printer_cli.Common.Lists.{All}
use mb_printer_cli.Common.Map.{insert, values, Unique, Entries, insert-Entries, insert-Unique}
use mb_printer_cli.Common.Sort.{DistinctIds, Keyed, collect_from, collect_from-Unique, sort_by-All}
use mb_printer_cli.Common.Values.{
  collect_from-Keyed, values-All, collect_from-Entries, insert-Keyed_at,
}
use mb_printer_cli.Auth.Types.{
  Grant, File, missing, unreadable, stored, AuthStore, StoredPairing, WifiApproval,
}
use mb_printer_cli.Auth.Persistence.{grant_id, created_le, load, reloaded, grants, persist}
use mb_printer_cli.Auth.Persistence.RoundTrip.{persist-DistinctIds}
use mb_printer_cli.Auth.Pairing.{and_return, and_return-state}

abbrev pub FileHolds : (Grant → Type 0) → File → Type 0
FileHolds P missing = Unit
FileHolds P unreadable = Unit
FileHolds P (stored f) = DistinctIds grant_id f.grants × All (P) f.grants

-- The grants stand under their identifiers and satisfy the predicate, in memory and in the file.
pub record Holds (P : Grant → Type 0) (s : AuthStore) : Type 0 where
  pub keyed : Keyed grant_id s.grants
  pub unique : Unique s.grants
  pub limited : Entries (λ k g. P g) s.grants
  pub on_file : FileHolds P s.file

-- After a write the file holds what is in memory.
pub written-Holds :
    (P : Grant → Type 0) (s : AuthStore)
    → Keyed grant_id s.grants
    → Unique s.grants
    → Entries (λ k g. P g) s.grants
    → Holds P (persist true s).1
unfolding persist grants
written-Holds P s keyed unique limited = record {
  keyed = keyed;
  unique = unique;
  limited = limited;
  on_file = (
    persist-DistinctIds s keyed unique,
    sort_by-All created_le P (values s.grants) (values-All grant_id P s.grants limited),
  );
}

pub persist-Holds :
    (P : Grant → Type 0) (disk : Bool) (s : AuthStore) → Holds P s → Holds P (persist disk s).1
unfolding persist
persist-Holds P true s h = written-Holds P s h.keyed h.unique h.limited
persist-Holds P false s h = h

-- The pairing and the approval are not read by the invariant.
pub parts-Holds :
    (P : Grant → Type 0) (p : Option StoredPairing) (a : Option WifiApproval) (s : AuthStore)
    → Holds P s
    → Holds P (record s { pairing = p; wifi_approval = a })
parts-Holds P p a s h = record {
  keyed = h.keyed;
  unique = h.unique;
  limited = h.limited;
  on_file = h.on_file;
}

pub insert-Holds :
    (P : Grant → Type 0) (id : ℕ) (g : Grant) (s : AuthStore)
    → g.id ≡ id
    → P g
    → Holds P s
    → Holds P (record s { grants = insert id g s.grants })
insert-Holds P id g s e l h = record {
  keyed = insert-Keyed_at grant_id id g s.grants e h.keyed;
  unique = insert-Unique id g s.grants h.unique;
  limited = insert-Entries (λ k x. P x) id g s.grants l h.limited;
  on_file = h.on_file;
}

pub returned-Holds {ℓ} :
    {A : Type ℓ} (P : Grant → Type 0) (disk : Bool) (a : A) (s : AuthStore)
    → Holds P s
    → Holds P (and_return a (persist disk s)).1
returned-Holds P disk a s h = rw and_return-state (persist-Holds P disk s h)

-- What a file holds comes back into memory.
pub file-Holds :
    (P : Grant → Type 0) (s : AuthStore) (file : File)
    → FileHolds P file
    → Holds P s
    → Holds P (reloaded s (load file)).1
unfolding load collect_from
file-Holds P s missing f h = record { keyed = tt; unique = tt; limited = tt; on_file = h.on_file }
file-Holds P s unreadable f h = h
file-Holds P s (stored x) f h = record {
  keyed = collect_from-Keyed grant_id [] x.grants tt;
  unique = collect_from-Unique grant_id [] x.grants tt;
  limited = collect_from-Entries grant_id (P) [] x.grants tt f.1;
  on_file = h.on_file;
}
