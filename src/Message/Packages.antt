-- ===== src/Message/Packages.antt =====
-- What imap-types and imap-codec take from other packages: dates from chrono, base64 from base64,
-- and the order in which a `HashSet` is walked over.
use imap_codec.Prelude.{Option, ℕ, List, Bytes}

-- `NaiveDate` and `DateTime` (imap-types/src/datetime.rs) wrap the types of chrono, which are
-- arguments wherever they occur.
pub record Packages (NaiveDate DateTime : Type 0) : Type 0 where
  pub iteration_order : List ℕ → List ℕ
  -- `encode` and `decode` of the engine `STANDARD`.
  pub base64_encode : Bytes → Bytes
  pub base64_decode : Bytes → Option Bytes
  -- `format("%d-%b-%Y")`
  pub format_date : NaiveDate → Bytes
  -- `format("%d-%b-%Y %H:%M:%S %z")`
  pub format_date_time : DateTime → Bytes
