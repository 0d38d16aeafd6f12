-- ===== src/Common/Int.antt =====
-- Integers over the native numbers.
use mb_printer_cli.Common.{ℕ}

pub data ℤ : Type 0 where
  pos negsuc : ℕ → ℤ
