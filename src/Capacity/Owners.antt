-- ===== src/Capacity/Owners.antt =====
-- src/mewcode/agent/capacity.py: the owner of a lease, its kind and its identifier.
use mew_code.Prelude.{Eq, pair_eq, Outcome, ok, raise_if, ◌>>◌}
use mew_code.Prelude.Text.{Text, text_eq, is_empty, strip}

abbrev pub Owner : Type 0
Owner = Text × Text

instance unfoldable pub owner_eq : Eq Owner
owner_eq = pair_eq

-- AgentCapacityClosedError, AgentCapacityError and ValueError
pub data CapacityError : Type 0 where
  closed not_unique already_consumed invalid : CapacityError

-- _validate_owner
unfoldable pub validate_owner : Text → Text → Outcome CapacityError Owner
validate_owner owner_kind owner_id = do
  raise_if (is_empty (strip owner_kind)) CapacityError.invalid
  raise_if (is_empty (strip owner_id)) CapacityError.invalid
  ok (strip owner_kind, strip owner_id)
