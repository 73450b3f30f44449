-- ===== src/Backup/Tools.antt =====
-- Functions that the backups call and that are not the repository's: parsing and printing of
-- durations, timestamps and quantities.
use borgbase_operator.Base.{ℕ, Text, ℤ}
use borgbase_operator.Errors.{Result}

-- A duration and a time are in nanoseconds.
pub record Tools : Type 0 where
  -- time.ParseDuration, and `String` of a Duration
  pub parse_duration : Text → Result ℤ
  pub duration_text : ℤ → Text
  -- time.Parse with time.RFC3339
  pub parse_rfc3339 : Text → Result ℕ
  -- resource.ParseQuantity: the quantity in its canonical form
  pub parse_quantity : Text → Result Text
