-- ===== src/Teams/TaskService/Publish.antt =====
-- src/mewcode/teams/tasks.py: create_batch, which publishes a batch once.
use mew_code.Prelude.{
  Bool, not, List, [], ◌∷◌, all, Outcome, ok, err, ◌>>=◌, ◌>>◌, raise_if, if◌then◌else◌,
}
use mew_code.Prelude.Dict.{has}
use mew_code.Prelude.Sort.{sort_with}
use mew_code.Prelude.Text.{text_eq}
use mew_code.Teams.Models.{Time, TeamName, TeamState, TeamActor, TeamTaskView, Failure}
use mew_code.Teams.Tasks.{is_lead}
use mew_code.Teams.Repository.{Disk, Attempt, load, run}
use mew_code.Teams.TaskService.{Returned, view_of, validate_actor}
use mew_code.Teams.TaskService.Batch.{
  Specs, before, ordered_specs, validate_existing_batch, publish,
}

unfoldable pub views_of : TeamState → Specs → Outcome Failure (List TeamTaskView)
views_of state [] = ok []
views_of state (spec ∷ specs) = do
  view ← view_of state spec.task_id
  rest ← views_of state specs
  ok (view ∷ rest)

-- What precedes the transformation: the ordered batch, and whether every task of it is there.
unfoldable pub begin_batch :
    TeamName → TeamActor → Specs → Disk → Outcome Failure (Specs × TeamState × Bool)
begin_batch team actor specs disk = do
  raise_if (not (is_lead actor.kind)) Failure.validation
  ordered ← ordered_specs specs
  current ← load team disk
  validate_actor current actor
  ok (ordered, current, all (λ s. has s.task_id current.tasks) ordered)

-- Between the first load and the run nothing is written.
unfoldable pub create_batch :
    TeamName → TeamActor → Specs → Time → List Attempt → Disk → Returned (List TeamTaskView)
create_batch team actor specs created_at attempts disk = elim (begin_batch team actor specs disk) [
  | err e ↦ (err e, disk)
  | ok (ordered, current, there) ↦
      let (returned, after) =
        run team actor.lease_fence (publish actor created_at ordered) attempts disk in
      if there
      then (
        validate_existing_batch current actor ordered >> views_of current (sort_with before specs),
        disk,
      )
      else (returned >>= λ committed. views_of committed (sort_with before specs), after)
]
