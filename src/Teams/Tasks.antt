-- ===== src/Teams/Tasks.antt =====
-- src/mewcode/teams/domain.py: the operations on the tasks of a team, and the checks of
-- `TeamTask.__post_init__`, which every construction and every `replace` of a task runs.
-- A time is always aware, so `require_utc` changes nothing. A text is encodable in UTF-8.
pub mod Results
pub mod Keeps
use mew_code.Prelude.{
  ℕ, suc, ◌+◌, Bool, true, false, ◌&&◌, ◌||◌, not, Option, none, some, List, [], ◌∷◌, length, any,
  ltb, contains, distinct, ◌==◌, option_eq, nat_eq, Outcome, ok, err, ◌>>=◌, ◌>>◌, raise_if,
  or_raise, if◌then◌else◌, keep,
}
use mew_code.Prelude.Dict.{Dict, lookup, insert, erase, has, is_some, values}
use mew_code.Prelude.Text.{Text, text_eq, texts_eq, is_empty, utf8_length}
use mew_code.Teams.Models.{
  Time, TeamTask, TeamTaskStatus, TeamTaskView, TeamState, TeamActor, TeamActorKind,
  TeamMemberRecord, PlanApprovalRecord, Failure, terminal, require_identifier,
}
use mew_code.Teams.Dependencies.{Tasks, validate_dependencies}
use mew_code.Teams.Approvals.{invalidate_approvals}

abbrev pub is_pending : TeamTaskStatus → Bool
is_pending TeamTaskStatus.pending = true
is_pending _ = false

abbrev pub is_in_progress : TeamTaskStatus → Bool
is_in_progress TeamTaskStatus.in_progress = true
is_in_progress _ = false

abbrev pub is_completed : TeamTaskStatus → Bool
is_completed TeamTaskStatus.completed = true
is_completed _ = false

abbrev pub is_lead : TeamActorKind → Bool
is_lead TeamActorKind.lead = true
is_lead _ = false

abbrev pub is_member : TeamActorKind → Bool
is_member TeamActorKind.member = true
is_member _ = false

-- TeamTask.__post_init__, as a test
unfoldable pub valid_task : TeamTask → Bool
valid_task t =
    not (is_empty t.title || ltb 256 (length t.title))
    && not (ltb 65536 (utf8_length t.description))
    && not (ltb 64 (length t.dependency_ids))
    && distinct t.dependency_ids
    && not (ltb 20000 (length t.result))

unfoldable pub make_task : TeamTask → Outcome Failure TeamTask
make_task t = do
  require_identifier t.task_id
  require_identifier t.created_by
  raise_if (not (valid_task t)) Failure.validation
  ok t

-- The dependencies that are not completed.
unfoldable pub blockers : Tasks → List Text → Outcome Failure (List Text)
blockers tasks [] = ok []
blockers tasks (d ∷ ds) = do
  task ← or_raise (lookup d tasks) Failure.key_error
  rest ← blockers tasks ds
  ok (if is_completed task.status then rest else d ∷ rest)

abbrev is_nil : List Text → Bool
is_nil [] = true
is_nil (x ∷ xs) = false

unfoldable pub task_view : TeamState → TeamTask → Outcome Failure TeamTaskView
task_view state task = do
  blocking ← blockers state.tasks task.dependency_ids
  ok (record {
    task = task;
    blocked = not (is_nil blocking);
    blocking_task_ids = blocking;
    claimable = is_pending task.status && not (is_some task.assignee_id) && is_nil blocking;
  })

-- _participant
unfoldable pub participant : TeamState → TeamActor → Outcome Failure (Unit {0})
participant state actor = do
  raise_if (not (actor.team_id == state.manifest.team_id)) Failure.permission
  raise_if (is_member actor.kind && not (has actor.participant_id state.members)) Failure.permission

-- _member and _task
unfoldable pub find_member : TeamState → Text → Outcome Failure TeamMemberRecord
find_member state member_id = or_raise (lookup member_id state.members) Failure.validation

unfoldable pub find_task : TeamState → Text → Outcome Failure TeamTask
find_task state task_id = or_raise (lookup task_id state.tasks) Failure.validation

-- _check_revision
unfoldable pub check_revision : TeamTask → ℕ → Outcome Failure (Unit {0})
check_revision task expected = raise_if (not (task.revision == expected)) Failure.validation

-- _can_edit_task
unfoldable pub can_edit_task : TeamState → TeamActor → TeamTask → Outcome Failure Bool
can_edit_task state actor task = do
  participant state actor
  ok (
      is_lead actor.kind
      || task.assignee_id == some actor.participant_id
      || (is_pending task.status && not (is_some task.assignee_id)))

abbrev pub Changed : Type 0
Changed = Outcome Failure (TeamState × TeamTaskView)

-- The state with its view, which every operation returns.
unfoldable pub with_view : TeamState → TeamTask → Changed
with_view state task = do view ← task_view state task; ok (state, view)

unfoldable pub create_task : TeamState → TeamActor → Text → Text → Text → List Text → Time → Changed
create_task state actor task_id title description dependency_ids now = do
  participant state actor
  raise_if (has task_id state.tasks) Failure.validation
  task ← make_task (record {
    task_id = task_id;
    revision = 0;
    approval_epoch = 0;
    title = title;
    description = description;
    status = TeamTaskStatus.pending;
    assignee_id = none;
    dependency_ids = dependency_ids;
    created_by = actor.participant_id;
    result = [];
    created_at = now;
    updated_at = now;
    started_at = none;
    finished_at = none;
  })
  let tasks = insert task_id task state.tasks
  validate_dependencies tasks
  with_view (record state { tasks = tasks; updated_at = now }) task

abbrev pub default {ℓ} : {A : Type ℓ} → Option A → A → A
default none d = d
default (some a) d = a

unfoldable pub update_task :
    TeamState
    → TeamActor
    → Text
    → ℕ
    → Time
    → Option Text
    → Option Text
    → Option (List Text)
    → Changed
update_task state actor task_id expected_revision now title description dependency_ids = do
  task ← find_task state task_id
  check_revision task expected_revision
  editable ← can_edit_task state actor task
  raise_if (not editable) Failure.permission
  let dependencies = default dependency_ids task.dependency_ids
  let changed = not (dependencies == task.dependency_ids)
  updated_task ← make_task (record task {
    revision = task.revision + 1;
    approval_epoch = task.approval_epoch + (if changed then 1 else 0);
    title = default title task.title;
    description = default description task.description;
    dependency_ids = dependencies;
    updated_at = now;
  })
  let tasks = insert task_id updated_task state.tasks
  validate_dependencies tasks
  let updated = record state { tasks = tasks; updated_at = now }
  with_view (if changed then invalidate_approvals updated task_id now else updated) updated_task
