-- ===== src/Teams/Tasks/Results.antt =====
-- What a successful operation on a task returns: the new state, written out.
use mew_code.Prelude.{
  ℕ, ◌+◌, ◌≡◌, Bool, true, not, Option, none, some, List, [], ◌==◌, option_eq, Option-cases, ok,
  err, if◌then◌else◌, arith, ◌&&◌, inl, inr, ◌⊎◌,
}
use mew_code.Prelude.Dict.{lookup, insert}
use mew_code.Prelude.Text.{Text, text_eq, texts_eq}
use mew_code.Teams.Models.{
  Time, TeamState, TeamActor, TeamTask, TeamTaskStatus, TeamTaskView, Failure, require_identifier,
  valid_identifier,
}
use mew_code.Teams.Dependencies.{validate_dependencies}
use mew_code.Teams.Approvals.{invalidate_approvals}
use mew_code.Teams.Tasks.{
  make_task, valid_task, task_view, participant, find_task, check_revision, can_edit_task,
  with_view, create_task, update_task, default,
}

-- A task is constructed as it is given, or not at all.
pub accepted : TeamTask → Bool
accepted t = valid_identifier t.task_id && valid_identifier t.created_by && valid_task t

pub make_task_lem :
    (t : TeamTask) → make_task t ≡ (if accepted t then ok t else err Failure.validation)
unfolding make_task require_identifier accepted
make_task_lem t = ground arith

pub with_view-eq-ok :
    (s s' : TeamState) (t : TeamTask) (v : TeamTaskView)
    → with_view s t ≡ ok (s', v)
    → (s ≡ s') × (task_view s t ≡ ok v)
unfolding with_view
with_view-eq-ok s s' t v h = ground arith

abbrev pub new_task : TeamActor → Text → Text → Text → List Text → Time → TeamTask
new_task actor task_id title description dependency_ids now = record {
  task_id = task_id;
  revision = 0;
  approval_epoch = 0;
  title = title;
  description = description;
  status = TeamTaskStatus.pending;
  assignee_id = none;
  dependency_ids = dependency_ids;
  created_by = actor.participant_id;
  result = [];
  created_at = now;
  updated_at = now;
  started_at = none;
  finished_at = none;
}

module _ (s s' : TeamState) (actor : TeamActor) (id title description : Text) (v : TeamTaskView)
    (now : Time) where
  pub create_task-eq-ok :
      (deps : List Text)
      → create_task s actor id title description deps now ≡ ok (s', v)
      → (lookup id s.tasks ≡ none)
        × (participant s actor ≡ ok tt)
        × (validate_dependencies (insert id (new_task actor id title description deps now) s.tasks)
            ≡ ok tt)
        × (s' ≡ record s {
          tasks = insert id (new_task actor id title description deps now) s.tasks;
          updated_at = now;
        })
  unfolding create_task with_view
  create_task-eq-ok deps h =
      ground (arith, make_task_lem (new_task actor id title description deps now))

abbrev pub updated_task :
    Time → TeamTask → Option Text → Option Text → Option (List Text) → TeamTask
updated_task now task title description deps =
    let changed = not (default deps task.dependency_ids == task.dependency_ids) in
    record task {
      revision = task.revision + 1;
      approval_epoch = task.approval_epoch + (if changed then 1 else 0);
      title = default title task.title;
      description = default description task.description;
      dependency_ids = default deps task.dependency_ids;
      updated_at = now;
    }

module _ (s s' : TeamState) (actor : TeamActor) (id : Text) (v : TeamTaskView) (now : Time) where
  pub update_task-eq-ok :
      (revision : ℕ) (new_title new_description : Option Text) (deps : Option (List Text))
      → update_task s actor id revision now new_title new_description deps ≡ ok (s', v)
      → (task : TeamTask) × (lookup id s.tasks ≡ some task)
        × (task.revision ≡ revision)
        × (can_edit_task s actor task ≡ ok true)
        × (validate_dependencies
              (insert id (updated_task now task new_title new_description deps) s.tasks)
            ≡ ok tt)
        × ((s'
              ≡ invalidate_approvals
                  (record s {
                    tasks =
                        insert id (updated_task now task new_title new_description deps) s.tasks;
                    updated_at = now;
                  })
                  id
                  now)
            ⊎ (s' ≡ record s {
              tasks = insert id (updated_task now task new_title new_description deps) s.tasks;
              updated_at = now;
            }))
  unfolding update_task find_task check_revision with_view
  update_task-eq-ok revision new_title new_description deps h =
      elim (Option-cases (lookup id s.tasks)) [
        | inl missing ↦ absurd (ground arith)
        | inr (task, found) ↦ (
          task,
          found,
          ground arith,
          ground arith,
          ground (arith, make_task_lem (updated_task now task new_title new_description deps)),
          ground (arith, make_task_lem (updated_task now task new_title new_description deps)),
        )
      ]
