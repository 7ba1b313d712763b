-- ===== src/Teams/Models/Checks.antt =====
-- src/mewcode/teams/models.py: the exception classes, and the checks on identifiers and summaries.
use mew_code.Prelude.{Bool, not, ◌&&◌, ◌||◌, ltb, length, contains, Outcome, raise_if, nat_eq}
use mew_code.Prelude.Text.{Text, is_empty, strip}

-- What an operation raises: the class of the exception, and `key_error` for a missing key that
-- nothing catches. `recursion` is the end of the fuel of a recursion in the model.
pub data Failure : Type 0 where
  validation conflict permission not_found lease corruption key_error recursion storage : Failure

-- require_identifier, as a test
unfoldable pub valid_identifier : Text → Bool
unfolding strip contains
valid_identifier s =
    not (is_empty (strip s) || ltb 128 (length s))
    && not (contains s 0 || contains s 13 || contains s 10)

unfoldable pub require_identifier : Text → Outcome Failure (Unit {0})
unfolding valid_identifier
require_identifier s = raise_if (not (valid_identifier s)) Failure.validation

unfoldable pub valid_summary : Text → Bool
unfolding contains
valid_summary s = not (is_empty s || ltb 256 (length s) || contains s 10 || contains s 13)

-- _validate_summary
unfoldable pub checked_summary : Text → Outcome Failure (Unit {0})
unfolding valid_summary
checked_summary s = raise_if (not (valid_summary s)) Failure.validation
