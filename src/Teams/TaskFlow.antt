-- ===== src/Teams/TaskFlow.antt =====
-- src/mewcode/teams/domain.py: assignment, claim, status transitions and deletion of tasks.
pub mod Results
pub mod Keeps
pub mod Rules
use mew_code.Prelude.{
  ℕ, ◌+◌, Bool, true, false, ◌&&◌, ◌||◌, not, Option, none, some, List, any, contains, ◌==◌, nat_eq,
  option_eq, Outcome, ok, err, ◌>>=◌, ◌>>◌, raise_if, or_raise, if◌then◌else◌, [], ◌∷◌,
}
use mew_code.Prelude.Dict.{Dict, lookup, insert, erase, has, is_some, values}
use mew_code.Prelude.Text.{Text, text_eq, texts_eq}
use mew_code.Teams.Models.{
  Time, TeamTask, TeamTaskStatus, TeamTaskView, TeamState, TeamActor, TeamActorKind,
  TeamMemberRecord, PlanApprovalRecord, Failure, terminal,
}
use mew_code.Teams.Approvals.{invalidate_approvals}
use mew_code.Teams.Tasks.{
  is_pending, is_in_progress, is_lead, is_member, make_task, task_view, find_member, find_task,
  check_revision, with_view, Changed,
}

abbrev Members : Type 0
Members = Dict Text TeamMemberRecord

-- The member, if there is one, has no current task.
unfoldable pub release : Option Text → Time → Members → Members
release none now members = members
release (some member_id) now members = elim (lookup member_id members) [
  | none ↦ members
  | some old ↦
      insert old.member_id (record old { current_task_id = none; updated_at = now }) members
]

unfoldable pub assign_task : TeamState → TeamActor → Text → Text → ℕ → Time → Changed
assign_task state actor task_id member_id expected_revision now = do
  raise_if (not (is_lead actor.kind)) Failure.permission
  task ← find_task state task_id
  check_revision task expected_revision
  _ ← find_member state member_id
  let freed = release task.assignee_id now state.members
  target ← or_raise (lookup member_id freed) Failure.key_error
  raise_if (is_some target.current_task_id && not (target.current_task_id == some task_id))
      Failure.validation
  updated_task ← make_task (record task {
    revision = task.revision + 1;
    approval_epoch = task.approval_epoch + 1;
    assignee_id = some member_id;
    updated_at = now;
  })
  with_view
      (invalidate_approvals
        (record state {
          members =
              insert member_id (record target { current_task_id = some task_id; updated_at = now })
                freed;
          tasks = insert task_id updated_task state.tasks;
          updated_at = now;
        })
        task_id now)
      updated_task

unfoldable pub claim_task : TeamState → TeamActor → Text → ℕ → Time → Changed
claim_task state actor task_id expected_revision now = do
  raise_if (not (is_member actor.kind)) Failure.permission
  task ← find_task state task_id
  check_revision task expected_revision
  view ← task_view state task
  raise_if (not view.claimable) Failure.validation
  member ← find_member state actor.participant_id
  raise_if (is_some member.current_task_id) Failure.validation
  let proxy_lead = record actor { kind = TeamActorKind.lead }
  assign_task state proxy_lead task_id member.member_id expected_revision now

-- The table `allowed`.
unfoldable pub allowed_transition : TeamTaskStatus → TeamTaskStatus → Bool
allowed_transition TeamTaskStatus.pending TeamTaskStatus.in_progress = true
allowed_transition TeamTaskStatus.pending TeamTaskStatus.cancelled = true
allowed_transition TeamTaskStatus.in_progress TeamTaskStatus.completed = true
allowed_transition TeamTaskStatus.in_progress TeamTaskStatus.failed = true
allowed_transition TeamTaskStatus.in_progress TeamTaskStatus.cancelled = true
allowed_transition TeamTaskStatus.completed TeamTaskStatus.pending = true
allowed_transition TeamTaskStatus.failed TeamTaskStatus.pending = true
allowed_transition TeamTaskStatus.cancelled TeamTaskStatus.pending = true
allowed_transition _ _ = false

-- `task_view(state, task).blocked`, which is read only for a start.
unfoldable pub blocked_start : TeamState → TeamTask → TeamTaskStatus → Outcome Failure Bool
blocked_start state task TeamTaskStatus.in_progress = do
  view ← task_view state task
  ok view.blocked
blocked_start state task _ = ok false

unfoldable pub transition_task :
    TeamState → TeamActor → Text → TeamTaskStatus → ℕ → Text → Time → Changed
transition_task state actor task_id target expected_revision result now = do
  task ← find_task state task_id
  check_revision task expected_revision
  raise_if (not (is_lead actor.kind) && not (task.assignee_id == some actor.participant_id))
      Failure.permission
  raise_if (not (allowed_transition task.status target)) Failure.validation
  blocked ← blocked_start state task target
  raise_if blocked Failure.validation
  let reset = is_pending target && terminal task.status
  updated_task ← make_task (record task {
    revision = task.revision + 1;
    approval_epoch = task.approval_epoch + (if reset then 1 else 0);
    status = target;
    result = result;
    started_at =
        if is_in_progress target then some now else if reset then none else task.started_at;
    finished_at = if terminal target then some now else none;
    updated_at = now;
  })
  let updated = record state {
    members = if terminal target then release task.assignee_id now state.members else state.members;
    tasks = insert task_id updated_task state.tasks;
    updated_at = now;
  }
  with_view (if reset then invalidate_approvals updated task_id now else updated) updated_task

-- {key: value for key, value in approvals.items() if value.task_id != task_id}
unfoldable pub without_task : Text → Dict Text PlanApprovalRecord → Dict Text PlanApprovalRecord
without_task task_id [] = []
without_task task_id ((k, v) ∷ d) =
    let rest = without_task task_id d in if v.task_id == task_id then rest else (k, v) ∷ rest

unfoldable pub delete_task : TeamState → TeamActor → Text → ℕ → Time → Outcome Failure TeamState
delete_task state actor task_id expected_revision now = do
  task ← find_task state task_id
  check_revision task expected_revision
  raise_if (is_in_progress task.status) Failure.validation
  raise_if (any (λ candidate. contains candidate.dependency_ids task_id) (values state.tasks))
      Failure.validation
  raise_if
      (not (is_lead actor.kind) && not (is_pending task.status && not (is_some task.assignee_id)))
      Failure.permission
  ok (record state {
    tasks = erase task_id state.tasks;
    approvals = without_task task_id state.approvals;
    updated_at = now;
  })
