-- ===== src/Printers/Errors.antt =====
-- `StoreError` of src/printers.rs, without the errors of files and of JSON.
use mb_printer_cli.Common.{ℕ}
use mb_printer_cli.Common.Text.{Text}

pub data StoreError : Type 0 where
  unsupported_schema : ℕ → StoreError
  invalid_printer invalid_endpoint duplicate_printer unknown_printer : Text → StoreError
  no_preferred_endpoint multiple_preferred_endpoints : Text → StoreError
  no_printers printer_required : StoreError
