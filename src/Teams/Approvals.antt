-- ===== src/Teams/Approvals.antt =====
-- src/mewcode/teams/domain.py: plan approvals, and `PlanApprovalRecord.__post_init__`.
pub mod Keeps
use mew_code.Prelude.{
  ℕ, suc, ◌+◌, max, Bool, true, false, ◌&&◌, ◌||◌, not, Option, none, some, List, [], ◌∷◌, any, ltb,
  ◌==◌, nat_eq, option_eq, Outcome, ok, err, ◌>>=◌, ◌>>◌, raise_if, or_raise, if◌then◌else◌,
}
use mathlib.Core.Option
use mew_code.Prelude.Dict.{Dict, lookup, insert, has, is_some, values}
use mew_code.Prelude.Text.{Text, text_eq, is_empty, utf8_length, bounded_text}
use mew_code.Teams.Models.{
  Time, TeamState, TeamActor, TeamActorKind, TeamMemberRecord, TeamMemberStatus, TeamTask,
  PlanApprovalRecord, PlanApprovalStatus, PlanDecision, Failure, require_identifier,
  checked_summary,
}

abbrev pub approval_is_pending : PlanApprovalStatus → Bool
approval_is_pending PlanApprovalStatus.pending = true
approval_is_pending _ = false

abbrev pub approval_is_approved : PlanApprovalStatus → Bool
approval_is_approved PlanApprovalStatus.approved = true
approval_is_approved _ = false

-- The approvals of the task that are pending or approved become invalidated.
unfoldable pub invalidated : Text → Time → PlanApprovalRecord → PlanApprovalRecord
invalidated task_id now item =
    if item.task_id == task_id
      && (approval_is_pending item.status || approval_is_approved item.status)
    then record item { status = PlanApprovalStatus.invalidated; decided_at = some now }
    else item

unfoldable pub map_values {ℓ} : {V : Type ℓ} → (V → V) → Dict Text V → Dict Text V
map_values f [] = []
map_values f ((k, v) ∷ d) = (k, f v) ∷ map_values f d

unfoldable pub invalidate_approvals : TeamState → Text → Time → TeamState
invalidate_approvals state task_id now = record state {
  approvals = map_values (invalidated task_id now) state.approvals;
  updated_at = now;
}

-- PlanApprovalRecord.__post_init__; the feedback becomes one bounded line
unfoldable pub make_approval : PlanApprovalRecord → Outcome Failure PlanApprovalRecord
make_approval r = do
  require_identifier r.request_id
  require_identifier r.member_id
  require_identifier r.task_id
  raise_if (is_empty r.plan_text || ltb 65536 (utf8_length r.plan_text)) Failure.validation
  checked_summary r.summary
  ok (record r { feedback = Option.map (bounded_text 65536) r.feedback })

-- max((item.plan_version for ...), default=0) over the approvals of the member for the task
unfoldable pub last_version : Text → Text → List PlanApprovalRecord → ℕ
last_version member_id task_id [] = 0
last_version member_id task_id (item ∷ items) =
    let rest = last_version member_id task_id items in
    if item.member_id == member_id && item.task_id == task_id
    then max item.plan_version rest
    else rest

unfoldable pub request_approval :
    TeamState
    → TeamActor
    → Text
    → ℕ
    → Text
    → Text
    → Time
    → Outcome Failure (TeamState × PlanApprovalRecord)
request_approval state actor request_id plan_version plan_text summary now = do
  raise_if (elim actor.kind [ TeamActorKind.member ↦ false | _ ↦ true ]) Failure.permission
  member ← or_raise (lookup actor.participant_id state.members) Failure.validation
  raise_if (not member.requires_approval) Failure.validation
  current ← or_raise member.current_task_id Failure.validation
  task ← or_raise (lookup current state.tasks) Failure.validation
  raise_if
      (not
        (plan_version == last_version member.member_id task.task_id (values state.approvals) + 1))
      Failure.validation
  let updated = invalidate_approvals state task.task_id now
  item ← make_approval (record {
    request_id = request_id;
    member_id = member.member_id;
    task_id = task.task_id;
    task_revision = task.revision;
    approval_epoch = task.approval_epoch;
    plan_version = plan_version;
    plan_text = plan_text;
    summary = summary;
    status = PlanApprovalStatus.pending;
    decision = none;
    feedback = none;
    requested_at = now;
    decided_at = none;
  })
  ok (
    record updated {
      approvals = insert request_id item updated.approvals;
      members =
          insert member.member_id
            (record member {
              status = TeamMemberStatus.awaiting_approval;
              active_run_id = none;
              updated_at = now;
            })
            updated.members;
      updated_at = now;
    },
    item,
  )

abbrev falsy : Option Text → Bool
falsy none = true
falsy (some t) = is_empty t

abbrev pub is_reject : PlanDecision → Bool
is_reject PlanDecision.reject = true
is_reject PlanDecision.approve = false

unfoldable pub decide_approval :
    TeamState
    → TeamActor
    → Text
    → PlanDecision
    → Option Text
    → Time
    → Outcome Failure (TeamState × PlanApprovalRecord)
decide_approval state actor request_id decision feedback now = do
  raise_if (elim actor.kind [ TeamActorKind.lead ↦ false | _ ↦ true ]) Failure.permission
  item ← or_raise (lookup request_id state.approvals) Failure.validation
  raise_if (not (approval_is_pending item.status)) Failure.validation
  raise_if (is_reject decision && falsy feedback) Failure.validation
  decided ← make_approval (record item {
    status =
        if is_reject decision then PlanApprovalStatus.rejected else PlanApprovalStatus.approved;
    decision = some decision;
    feedback = feedback;
    decided_at = some now;
  })
  ok (
    record state { approvals = insert request_id decided state.approvals; updated_at = now },
    decided,
  )

-- The approval that lets the member work on the task as it is now.
unfoldable pub grants : Text → Text → TeamTask → PlanApprovalRecord → Bool
grants member_id task_id task item =
    approval_is_approved item.status
    && item.member_id == member_id
    && item.task_id == task_id
    && item.task_revision == task.revision
    && item.approval_epoch == task.approval_epoch

unfoldable pub approval_is_valid : TeamState → Text → Text → Bool
approval_is_valid state member_id task_id =
    if has member_id state.members
    then elim (lookup task_id state.tasks) [
      | none ↦ false
      | some task ↦
          task.assignee_id == some member_id
          && any (grants member_id task_id task) (values state.approvals)
    ]
    else false
