-- ===== src/Teams/ApprovalService.antt =====
-- src/mewcode/teams/approvals.py: TeamApprovalService over the state transitions and the mutation
-- runner. The member's lock, which orders a permit and an invalidation, is left out: a permit is what
-- is given where the lock is held. The readings are arguments as in the task service.
pub mod Permits
use mew_code.Prelude.{
  ℕ, Bool, true, false, ◌&&◌, not, Option, none, some, List, [], ◌∷◌, ◌++◌, ltb, ◌==◌, nat_eq,
  option_eq, keep, Outcome, ok, err, ◌>>=◌, ◌>>◌, raise_if, or_raise, if◌then◌else◌,
}
use mew_code.Prelude.Dict.{Dict, lookup, values, is_some}
use mew_code.Prelude.Text.{Text, text_eq, codes, is_empty}
use mew_code.Teams.Models.{
  Time, TeamName, TeamState, TeamActor, TeamMemberRecord, TeamTask, PlanApprovalRecord,
  PlanApprovalStatus, PlanDecision, TeamProtocol, PayloadValue, Failure,
}
use mew_code.Teams.Approvals.{
  approval_is_approved, request_approval, decide_approval, make_approval, invalidate_approvals,
}
use mew_code.Teams.Tasks.{is_member}
use mew_code.Teams.Repository.{Disk, Attempt, load, run}
use mew_code.Teams.Outbox.{Readings, message, append_outbox, find_lead}

pub record ApprovalPermit : Type 0 where
  pub member_id : Text
  pub task_id : Text
  pub approval_epoch : ℕ
  pub request_id : Text

abbrev Returned {ℓ} : Type ℓ → Type ℓ
Returned A = Outcome Failure A × Disk

-- committed.approvals[request_id]
abbrev stored_approval : Text → TeamState → Outcome Failure PlanApprovalRecord
stored_approval request_id state = or_raise (lookup request_id state.approvals) Failure.key_error

abbrev plan_request : PlanApprovalRecord → Text → Text → ℕ → Dict Text PayloadValue
plan_request item request_id task_id plan_version =
    (codes "request_id", PayloadValue.str request_id)
    ∷ (codes "task_id", PayloadValue.str task_id)
    ∷ (codes "task_revision", PayloadValue.int item.task_revision)
    ∷ (codes "approval_epoch", PayloadValue.int item.approval_epoch)
    ∷ (codes "plan_version", PayloadValue.int plan_version)
    ∷ []

-- `transform` of `request`
unfoldable pub request_and_tell :
    TeamActor → Text → Text → ℕ → Text → Text → Readings → TeamState → Outcome Failure TeamState
request_and_tell actor request_id task_id plan_version plan_text summary r state = do
  member ← or_raise (lookup actor.participant_id state.members) Failure.validation
  raise_if (not (member.current_task_id == some task_id)) Failure.validation
  requested ← request_approval state actor request_id plan_version plan_text summary r.now
  lead_id ← find_lead state
  told ←
      message r actor.participant_id lead_id summary plan_text TeamProtocol.plan_request
        (plan_request requested.1 request_id task_id plan_version)
  append_outbox r requested.0 told

unfoldable pub request :
    TeamName
    → TeamActor
    → Text
    → Text
    → ℕ
    → Text
    → Text
    → Readings
    → List Attempt
    → Disk
    → Returned PlanApprovalRecord
request team actor request_id task_id plan_version plan_text summary r attempts disk =
    let (returned, after) =
      run team actor.lease_fence
        (request_and_tell actor request_id task_id plan_version plan_text summary r) attempts
        disk in
    (returned >>= stored_approval request_id, after)

-- decision.value
abbrev decision_value : PlanDecision → Text
decision_value PlanDecision.approve = codes "approve"
decision_value PlanDecision.reject = codes "reject"

-- `feedback or default`
abbrev or_default : Option Text → Text → Text
or_default none default = default
or_default (some feedback) default = if is_empty feedback then default else feedback

abbrev plan_decision :
    PlanApprovalRecord → Text → PlanDecision → Option Text → Dict Text PayloadValue
plan_decision item request_id decision feedback =
    (codes "request_id", PayloadValue.str request_id)
    ∷ (codes "task_id", PayloadValue.str item.task_id)
    ∷ (codes "plan_version", PayloadValue.int item.plan_version)
    ∷ (codes "decision", PayloadValue.str (decision_value decision))
    ∷ (codes "feedback", PayloadValue.str (or_default feedback []))
    ∷ []

-- `transform` of `decide`
unfoldable pub decide_and_tell :
    TeamActor → Text → PlanDecision → Option Text → Readings → TeamState → Outcome Failure TeamState
decide_and_tell actor request_id decision feedback r state = do
  decided ← decide_approval state actor request_id decision feedback r.now
  let title = codes "Plan " ++ (decision_value decision ++ (codes ": " ++ decided.1.summary))
  told ←
      message r actor.participant_id decided.1.member_id title
        (or_default feedback (codes "Approved.")) TeamProtocol.plan_decision
        (plan_decision decided.1 request_id decision feedback)
  append_outbox r decided.0 told

unfoldable pub decide :
    TeamName
    → TeamActor
    → Text
    → PlanDecision
    → Option Text
    → Readings
    → List Attempt
    → Disk
    → Returned PlanApprovalRecord
decide team actor request_id decision feedback r attempts disk =
    let (returned, after) =
      run team actor.lease_fence (decide_and_tell actor request_id decision feedback r) attempts
        disk in
    (returned >>= stored_approval request_id, after)

-- invalidate_for_task: the load before the lock raises for a missing task; between it and the run
-- nothing is written
unfoldable pub invalidate_for_task :
    TeamName → Text → Text × ℕ → Time → List Attempt → Disk → Returned (List PlanApprovalRecord)
invalidate_for_task team task_id lease_fence now attempts disk =
    let (returned, after) =
      run team lease_fence (λ current. ok (invalidate_approvals current task_id now)) attempts
        disk in
    let known : Outcome Failure TeamTask = (do
      state ← load team disk
      or_raise (lookup task_id state.tasks) Failure.key_error) in
    elim known [
      | err e ↦ (err e, disk)
      | ok task ↦ (
        returned >>= λ committed.
            ok (keep (λ item. item.task_id == task_id) (values committed.approvals)),
        after,
      )
    ]

-- The test of `records` in `side_effect_permit`
unfoldable pub is_current : TeamMemberRecord → Text → TeamTask → PlanApprovalRecord → Bool
is_current member task_id task item =
    item.member_id == member.member_id
    && item.task_id == task_id
    && approval_is_approved item.status
    && item.task_revision == task.revision
    && item.approval_epoch == task.approval_epoch

-- max(records, key=lambda item: item.plan_version): the first of the greatest; none for no records
unfoldable pub latest : List PlanApprovalRecord → Option PlanApprovalRecord
latest [] = none
latest (item ∷ items) = elim (latest items) [
  | none ↦ some item
  | some other ↦ if ltb item.plan_version other.plan_version then some other else some item
]

abbrev not_required : TeamMemberRecord → Text → TeamTask → Time → PlanApprovalRecord
not_required member task_id task now = record {
  request_id = codes "not-required";
  member_id = member.member_id;
  task_id = task_id;
  task_revision = task.revision;
  approval_epoch = task.approval_epoch;
  plan_version = 0;
  plan_text = codes "Approval is not required.";
  summary = codes "Approval not required";
  status = PlanApprovalStatus.approved;
  decision = some PlanDecision.approve;
  feedback = none;
  requested_at = now;
  decided_at = some now;
}

-- What `side_effect_permit` yields while the member's lock is held.
unfoldable pub side_effect_permit :
    TeamName → TeamActor → Text → Time → Disk → Outcome Failure ApprovalPermit
side_effect_permit team actor task_id now disk = do
  raise_if (not (is_member actor.kind)) Failure.permission
  state ← load team disk
  member ← or_raise (lookup actor.participant_id state.members) Failure.permission
  task ← or_raise (lookup task_id state.tasks) Failure.permission
  raise_if (not (member.current_task_id == some task_id)) Failure.permission
  let records = keep (is_current member task_id task) (values state.approvals)
  let approved = or_raise (latest records) Failure.permission
  let unasked = make_approval (not_required member task_id task now)
  current ← (if member.requires_approval then approved else unasked)
  ok (record {
    member_id = member.member_id;
    task_id = task_id;
    approval_epoch = task.approval_epoch;
    request_id = current.request_id;
  })
