-- ===== src/Teams/Members.antt =====
-- src/mewcode/teams/domain.py: the states of a member and the wake queue.
pub mod Active
use mew_code.Prelude.{
  ℕ, suc, ◌+◌, max, Bool, true, false, ◌&&◌, not, Option, none, some, List, [], ◌∷◌, ◌++◌, contains,
  ◌==◌, nat_eq, Outcome, ok, ◌>>=◌, ◌>>◌, raise_if, if◌then◌else◌, keep,
}
use mathlib.Core.Option
use mew_code.Prelude.Dict.{insert}
use mew_code.Prelude.Text.{Text, text_eq, is_empty, bounded_text}
use mew_code.Teams.Models.{
  Time, TeamState, TeamMemberRecord, TeamMemberStatus, MemberQueueEntry, MemberWakeReason, Failure,
  require_identifier,
}
use mew_code.Teams.Tasks.{find_member}

-- _MEMBER_TRANSITIONS
unfoldable pub member_transition : TeamMemberStatus → TeamMemberStatus → Bool
member_transition TeamMemberStatus.provisioning TeamMemberStatus.idle = true
member_transition TeamMemberStatus.provisioning TeamMemberStatus.failed = true
member_transition TeamMemberStatus.idle TeamMemberStatus.queued = true
member_transition TeamMemberStatus.idle TeamMemberStatus.stopped = true
member_transition TeamMemberStatus.queued TeamMemberStatus.running = true
member_transition TeamMemberStatus.queued TeamMemberStatus.stopped = true
member_transition TeamMemberStatus.queued TeamMemberStatus.interrupted = true
member_transition TeamMemberStatus.queued TeamMemberStatus.failed = true
member_transition TeamMemberStatus.running TeamMemberStatus.idle = true
member_transition TeamMemberStatus.running TeamMemberStatus.awaiting_approval = true
member_transition TeamMemberStatus.running TeamMemberStatus.stopped = true
member_transition TeamMemberStatus.running TeamMemberStatus.interrupted = true
member_transition TeamMemberStatus.running TeamMemberStatus.failed = true
member_transition TeamMemberStatus.awaiting_approval TeamMemberStatus.queued = true
member_transition TeamMemberStatus.awaiting_approval TeamMemberStatus.stopped = true
member_transition TeamMemberStatus.awaiting_approval TeamMemberStatus.failed = true
member_transition TeamMemberStatus.stopped TeamMemberStatus.queued = true
member_transition TeamMemberStatus.interrupted TeamMemberStatus.queued = true
member_transition TeamMemberStatus.interrupted TeamMemberStatus.stopped = true
member_transition TeamMemberStatus.failed TeamMemberStatus.queued = true
member_transition TeamMemberStatus.failed TeamMemberStatus.stopped = true
member_transition _ _ = false

abbrev pub same_status : TeamMemberStatus → TeamMemberStatus → Bool
same_status TeamMemberStatus.provisioning TeamMemberStatus.provisioning = true
same_status TeamMemberStatus.queued TeamMemberStatus.queued = true
same_status TeamMemberStatus.running TeamMemberStatus.running = true
same_status TeamMemberStatus.awaiting_approval TeamMemberStatus.awaiting_approval = true
same_status TeamMemberStatus.idle TeamMemberStatus.idle = true
same_status TeamMemberStatus.stopped TeamMemberStatus.stopped = true
same_status TeamMemberStatus.interrupted TeamMemberStatus.interrupted = true
same_status TeamMemberStatus.failed TeamMemberStatus.failed = true
same_status _ _ = false

abbrev pub is_running : TeamMemberStatus → Bool
is_running TeamMemberStatus.running = true
is_running _ = false

abbrev pub absent : Option Text → Bool
absent none = true
absent (some t) = is_empty t

-- _with_member
unfoldable pub with_member : TeamState → TeamMemberRecord → Time → TeamState
with_member state member now = record state {
  members = insert member.member_id member state.members;
  updated_at = now;
}

unfoldable pub transition_member :
    TeamState
    → Text
    → TeamMemberStatus
    → Time
    → Option Text
    → Option Text
    → Outcome Failure TeamState
transition_member state member_id target now active_run_id error = do
  member ← find_member state member_id
  raise_if (not (same_status target member.status) && not (member_transition member.status target))
      Failure.validation
  raise_if (is_running target && absent active_run_id) Failure.validation
  ok (
      with_member state
        (record member {
          status = target;
          active_run_id = if is_running target then active_run_id else none;
          run_generation = member.run_generation + (if is_running target then 1 else 0);
          last_error = Option.map (bounded_text 512) error;
          updated_at = now;
        })
        now)

-- tuple(dict.fromkeys(xs)): the first of equal elements stays
unfoldable pub fromkeys : List Text → List Text → List Text
fromkeys seen [] = []
fromkeys seen (x ∷ xs) =
    let rest = fromkeys (x ∷ seen) xs in if contains seen x then rest else x ∷ rest

-- MemberQueueEntry.__post_init__
unfoldable pub make_entry : MemberQueueEntry → Outcome Failure MemberQueueEntry
make_entry entry = do
  require_identifier entry.queue_id
  require_identifier entry.member_id
  ok (record entry { message_ids = fromkeys [] entry.message_ids })

-- The loop that merges new messages into the member's entry; `none` where there is no entry.
unfoldable pub merge_entry :
    Text
    → List Text
    → List MemberQueueEntry
    → Outcome Failure (Option (List MemberQueueEntry × MemberQueueEntry))
merge_entry member_id message_ids [] = ok none
merge_entry member_id message_ids (entry ∷ queue) =
    let merge =
      make_entry (record entry { message_ids = fromkeys [] (entry.message_ids ++ message_ids) })
      >>= λ merged. ok (some (merged ∷ queue, merged)) in
    let later = merge_entry member_id message_ids queue >>= λ found.
    ok (Option.map (λ p. (entry ∷ p.0, p.1)) found) in
    if entry.member_id == member_id then merge else later

-- max((item.sequence for item in queue), default=-1) + 1
unfoldable pub next_sequence : List MemberQueueEntry → ℕ
next_sequence [] = 0
next_sequence (item ∷ queue) = max (suc item.sequence) (next_sequence queue)

abbrev not_woken : TeamMemberStatus → Bool
not_woken TeamMemberStatus.running = true
not_woken TeamMemberStatus.stopped = true
not_woken _ = false

-- The last part of `enqueue_member`, for a member with no entry.
unfoldable pub append_entry :
    TeamState
    → TeamMemberRecord
    → Text
    → Text
    → MemberWakeReason
    → List Text
    → Time
    → Outcome Failure (TeamState × Option MemberQueueEntry)
append_entry state member member_id queue_id reason message_ids now = do
  entry ← make_entry (record {
    queue_id = queue_id;
    sequence = next_sequence state.queue;
    member_id = member_id;
    reason = reason;
    message_ids = message_ids;
    requested_at = now;
  })
  ok (
    record state {
      queue = state.queue ++ entry ∷ [];
      members =
          insert member_id (record member { status = TeamMemberStatus.queued; updated_at = now })
            state.members;
      updated_at = now;
    },
    some entry,
  )

unfoldable pub enqueue_member :
    TeamState
    → Text
    → Text
    → MemberWakeReason
    → List Text
    → Time
    → Outcome Failure (TeamState × Option MemberQueueEntry)
enqueue_member state member_id queue_id reason message_ids now = do
  member ← find_member state member_id
  let appended = append_entry state member member_id queue_id reason message_ids now
  let merged = merge_entry member_id message_ids state.queue >>= λ found. elim found [
    | none ↦ appended
    | some p ↦ ok (record state { queue = p.0; updated_at = now }, some p.1)
  ]
  if not_woken member.status then ok (state, none) else merged

unfoldable pub dequeue_member : TeamState → Text → Time → TeamState
dequeue_member state member_id now = record state {
  queue = keep (λ item. not (item.member_id == member_id)) state.queue;
  updated_at = now;
}
