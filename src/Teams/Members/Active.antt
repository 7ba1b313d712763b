-- ===== src/Teams/Members/Active.antt =====
-- A member has a run exactly while it is running, and its runs are counted.
use mew_code.Prelude.{◌+◌, ◌≡◌, true, not, ◌||◌, Option, none, some, if◌then◌else◌}
use mew_code.Prelude.Dict.{lookup}
use mew_code.Prelude.Text.{Text, text_eq}
use mathlib.Core.Option
use mew_code.Teams.Models.{TeamState, TeamMemberRecord, TeamMemberStatus}
use mew_code.Teams.Members.{member_transition, same_status, is_running, absent}

-- The member has the identifier of a run exactly while it is running.
abbrev pub IsActive : TeamState → Type 0
IsActive s =
    (k : Text) (m : TeamMemberRecord)
    → lookup k s.members ≡ some m
    → is_running m.status ≡ not (absent m.active_run_id)

-- What a transition makes of a member: the move is one of the table, or to the same status; a move to
-- running starts one more run, with the given identifier, and every other move ends the run.
pub record IsMoved (target : TeamMemberStatus) (run_id : Option Text) (m m' : TeamMemberRecord)
    : Type 0 where
  pub allowed : (same_status target m.status || member_transition m.status target) ≡ true
  pub status : m'.status ≡ target
  pub run : m'.active_run_id ≡ (if is_running target then run_id else none)
  pub count : m'.run_generation ≡ m.run_generation + (if is_running target then 1 else 0)
  pub active : is_running target ≡ not (absent m'.active_run_id)
