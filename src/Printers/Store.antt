-- ===== src/Printers/Store.antt =====
-- `PrinterStore` of src/printers.rs: validation, look-up, addition and removal.
pub mod Validity
pub mod Removal
use mb_printer_cli.Common.{
  ℕ, ◌+◌, Bool, true, false, not, ◌&&◌, ◌||◌, Option, none, some, List, [], ◌∷◌, ◌++◌,
  if◌then◌else◌, ltb, leb, ◌==◌, length, find?, keep, any, is_some,
}
use mb_printer_cli.Common.Text.{Text, codes, text_eq, is_empty, len, trim}
use mb_printer_cli.Common.Strings.{eq_ignore_ascii_case, is_control}
use mb_printer_cli.Common.Sort.{sort_by}
use mb_printer_cli.Common.Result.{Result, ok, err, ◌>>=◌, ◌>>◌, ok_or, reject_if}
use mb_printer_cli.Printers.Errors.{
  StoreError, unsupported_schema, invalid_printer, duplicate_printer, unknown_printer,
  no_preferred_endpoint, multiple_preferred_endpoints, no_printers, printer_required,
}
use mb_printer_cli.Printers.Endpoint.{PrinterTransport}

pub record PrinterEndpoint : Type 0 where
  pub id : Text
  pub preferred : Bool
  pub transport : PrinterTransport

-- A JSON value, and the defaults of the configuration, stand as their text.
pub record Printer : Type 0 where
  pub id : Text
  pub name : Text
  pub model : Text
  pub endpoints : List PrinterEndpoint
  pub settings : Text
  pub description : Option Text
  pub status : Option Text
  pub media : Option Text

pub record PrinterStore : Type 0 where
  pub schema_version : ℕ  -- u16
  pub default_printer : Option Text
  pub printers : List Printer

abbrev pub printer_store_schema : ℕ
printer_store_schema = 1

-- `PrinterStore::default`
abbrev pub empty_store : PrinterStore
empty_store = record {
  schema_version = printer_store_schema;
  default_printer = none;
  printers = [];
}

-- The endpoints of a new printer from the index on; `ids` are the random identifiers.
unfoldable pub new_endpoints : (ℕ → Text) → Bool → ℕ → List PrinterTransport → List PrinterEndpoint
new_endpoints ids multiple index [] = []
new_endpoints ids multiple index (t ∷ transports) =
    record { id = ids index; preferred = not multiple || index == 0; transport = t }
    ∷ new_endpoints ids multiple (index + 1) transports

-- `Printer::new`, with the identifier and the default settings.
unfoldable pub new : Text → (ℕ → Text) → Text → Text → Text → List PrinterTransport → Printer
unfolding new_endpoints
new id ids settings name model transports = record {
  id = id;
  name = name;
  model = model;
  endpoints = new_endpoints ids (ltb 1 (length transports)) 0 transports;
  settings = settings;
  description = none;
  status = none;
  media = none;
}

abbrev preferred_of :
    Text → List PrinterEndpoint → List PrinterEndpoint → Result StoreError PrinterEndpoint
preferred_of name all (e ∷ []) = ok e
preferred_of name (e ∷ []) [] = ok e
preferred_of name [] [] = err (no_preferred_endpoint name)
preferred_of name (e ∷ f ∷ all) [] = err (no_preferred_endpoint name)
preferred_of name all (e ∷ f ∷ preferred) = err (multiple_preferred_endpoints name)

unfoldable pub preferred_endpoint : Printer → Result StoreError PrinterEndpoint
preferred_endpoint p = preferred_of p.name p.endpoints (keep (λ e. e.preferred) p.endpoints)

abbrev name_shape : StoreError
name_shape =
    invalid_printer (codes "printer name must contain 1 to 120 characters without outer whitespace")

unfoldable pub validate_name : Text → Result StoreError (Unit {0})
unfolding is_control
validate_name name = do
  reject_if (not (text_eq (trim name) name) || is_empty name || ltb 120 (len name)) name_shape
  reject_if (any is_control name)
      (invalid_printer (codes "printer name cannot contain control characters"))

-- The test of `find`.
abbrev pub selected : Text → Printer → Bool
selected selector p = text_eq p.id selector || eq_ignore_ascii_case p.name selector

-- Whether two printers may not stand in one store.
abbrev pub clashes : Printer → Printer → Bool
clashes p other = text_eq other.id p.id || eq_ignore_ascii_case other.name p.name

abbrev no_endpoints : List PrinterEndpoint → Bool
no_endpoints [] = true
no_endpoints (e ∷ es) = false

-- The body of the loop of `validate`, where `earlier` are the printers before this one.
unfoldable pub validate_printer : List Printer → Printer → Result StoreError (Unit {0})
unfolding validate_name preferred_endpoint
validate_printer earlier p = do
  u ← validate_name p.name
  reject_if (is_empty (trim p.id)) (invalid_printer (codes "printer ID is required"))
  reject_if (is_empty (trim p.model))
      (invalid_printer (codes "printer " ++ (p.name ++ codes " has no model")))
  reject_if (no_endpoints p.endpoints)
      (invalid_printer (codes "printer " ++ (p.name ++ codes " has no endpoints")))
  reject_if (any (clashes p) earlier) (duplicate_printer p.name)
  e ← preferred_endpoint p
  ok tt

unfoldable pub validate_from : List Printer → List Printer → Result StoreError (Unit {0})
unfolding validate_printer
validate_from earlier [] = ok tt
validate_from earlier (p ∷ printers) =
    validate_printer earlier p >> validate_from (earlier ++ (p ∷ [])) printers

unfoldable pub find : Text → PrinterStore → Option Printer
find selector s = find? (selected selector) s.printers

abbrev pub found_or_unknown : Text → Option Printer → Result StoreError Printer
found_or_unknown selector found = ok_or found (unknown_printer selector)

abbrev pub validate_default : Option Text → PrinterStore → Result StoreError (Unit {0})
validate_default none s = ok tt
validate_default (some selector) s = do p ← found_or_unknown selector (find selector s); ok tt

unfoldable pub validate : PrinterStore → Result StoreError (Unit {0})
unfolding validate_from
validate s = do
  reject_if (not (s.schema_version == printer_store_schema)) (unsupported_schema s.schema_version)
  validate_from [] s.printers
  validate_default s.default_printer s

abbrev the_only : List Printer → Result StoreError Printer
the_only [] = err no_printers
the_only (p ∷ []) = ok p
the_only (p ∷ q ∷ printers) = err printer_required

abbrev resolve_default : PrinterStore → Option Text → Result StoreError Printer
resolve_default s none = the_only s.printers
resolve_default s (some default) = found_or_unknown default (find default s)

unfoldable pub resolve : Option Text → PrinterStore → Result StoreError Printer
resolve none s = resolve_default s s.default_printer
resolve (some selector) s = found_or_unknown selector (find selector s)

-- The order of `sort_by_key(|printer| printer.name.to_lowercase())`: of texts by code point, which is
-- that of their UTF-8.
unfoldable pub text_le : Text → Text → Bool
text_le [] b = true
text_le (c ∷ a) [] = false
text_le (c ∷ a) (d ∷ b) = if c == d then text_le a b else ltb c d

-- `add`, with the store after it. `to_lowercase` is the table of Unicode. A store that is refused by
-- the validation at the end has the printer nevertheless.
unfoldable pub add :
    (Text → Text) → Printer → PrinterStore → Result StoreError (Unit {0}) × PrinterStore
unfolding text_le find validate
add to_lowercase p s =
    if is_some (find p.name s) || any (λ existing. text_eq existing.id p.id) s.printers
    then (err (duplicate_printer p.name), s)
    else let t : PrinterStore = record s {
      printers =
          sort_by (λ a b. text_le (to_lowercase a.name) (to_lowercase b.name))
            (s.printers ++ (p ∷ []));
    } in
      (validate t, t)

abbrev kept_behind : Printer → Option (Printer × List Printer) → Option (Printer × List Printer)
kept_behind p none = none
kept_behind p (some (q, printers)) = some (q, p ∷ printers)

-- `position` and `remove(index)`: the first match, and the others.
unfoldable pub take_out : (Printer → Bool) → List Printer → Option (Printer × List Printer)
take_out test [] = none
take_out test (p ∷ printers) =
    let rest = take_out test printers in if test p then some (p, printers) else kept_behind p rest

abbrev pub names_default : Printer → Option Text → Bool
names_default p none = false
names_default p (some default) = text_eq default p.id || eq_ignore_ascii_case default p.name

abbrev pub without : PrinterStore → Printer → List Printer → PrinterStore
without s p printers = record s {
  default_printer = if names_default p s.default_printer then none else s.default_printer;
  printers = printers;
}

abbrev pub remove_found :
    Text → PrinterStore → Option (Printer × List Printer) → Result StoreError Printer × PrinterStore
remove_found selector s none = (err (unknown_printer selector), s)
remove_found selector s (some (p, printers)) = (ok p, without s p printers)

unfoldable pub remove : Text → PrinterStore → Result StoreError Printer × PrinterStore
unfolding take_out
remove selector s = remove_found selector s (take_out (selected selector) s.printers)

-- A connection of the format before schema 1, and the printer that `load` makes of it.
pub record LegacyConnection : Type 0 where
  pub id : Text
  pub model : Text
  pub transport : PrinterTransport
  pub status : Option Text
  pub media : Option Text

unfoldable pub migrate : Text → Text → LegacyConnection → Printer
migrate endpoint_id settings c = record {
  id = c.id;
  name = c.id;
  model = c.model;
  endpoints = record { id = endpoint_id; preferred = true; transport = c.transport } ∷ [];
  settings = settings;
  description = none;
  status = c.status;
  media = c.media;
}
