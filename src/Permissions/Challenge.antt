-- ===== src/Permissions/Challenge.antt =====
-- src/mewcode/permissions/models.py: PermissionChallenge, a question that is answered once. Its future
-- is open, has the choice, or is cancelled.
use mew_code.Prelude.{Outcome, ok, err}
use mew_code.Permissions.Models.{PermissionChoice}

pub data PermissionChallenge : Type 0 where
  waiting : PermissionChallenge
  answered : PermissionChoice → PermissionChallenge
  cancelled : PermissionChallenge

-- RuntimeError of a challenge that is done
pub data ChallengeError : Type 0 where
  already_resolved : ChallengeError

unfoldable pub resolve :
    PermissionChoice → PermissionChallenge → Outcome ChallengeError PermissionChallenge
resolve choice PermissionChallenge.waiting = ok (PermissionChallenge.answered choice)
resolve choice _ = err ChallengeError.already_resolved

unfoldable pub cancel_challenge : PermissionChallenge → Outcome ChallengeError PermissionChallenge
cancel_challenge PermissionChallenge.waiting = ok PermissionChallenge.cancelled
cancel_challenge _ = err ChallengeError.already_resolved
