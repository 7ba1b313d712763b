-- ===== src/Teams/Tasks/Keeps.antt =====
-- Creating and updating a task keeps a team state consistent.
use mew_code.Prelude.{ℕ, ◌≡◌, refl, Option, some, List, inl, inr, ok}
use mew_code.Prelude.Dict.{lookup, insert}
use mew_code.Prelude.Text.{Text, text_eq}
use mew_code.Teams.Models.{Time, TeamState, TeamActor, TeamTask, TeamTaskView}
use mew_code.Teams.Dependencies.{Tasks}
use mew_code.Teams.Dependencies.Sound.{IsKnown, IsRanked, validate_dependencies-IsRanked}
use mew_code.Teams.Approvals.Keeps.{invalidate_approvals-IsConsistent}
use mew_code.Teams.Tasks.{create_task, update_task}
use mew_code.Teams.Tasks.Results.{new_task, create_task-eq-ok, updated_task, update_task-eq-ok}
use mew_code.Teams.Invariant.{
  IsConsistent, put_task-IsConsistent, lookup-insert_cases, has-insert_of_has,
}

-- Creating a task in a consistent state leaves a consistent state.
pub create_task-IsConsistent :
    (s s' : TeamState) (actor : TeamActor) (id title description : Text) (deps : List Text)
    (now : Time) (v : TeamTaskView)
    → IsConsistent s
    → create_task s actor id title description deps now ≡ ok (s', v)
    → IsConsistent s'
create_task-IsConsistent s s' actor id title description deps now v c h =
    let (fresh, _, valid, out) = create_task-eq-ok s s' actor id title description v now deps h in
    let task = new_task actor id title description deps now in
    let graph = validate_dependencies-IsRanked (insert id task s.tasks) valid in
    rw out (
      put_task-IsConsistent s c id task now refl graph.0 graph.1 refl
        (λ k m member cur. cc (rw (cur, fresh) at (c.current_known k m member))))

-- Changing a task of a consistent state leaves a consistent state.
pub update_task-IsConsistent :
    (s s' : TeamState) (actor : TeamActor) (id : Text) (revision : ℕ) (now : Time)
    (title description : Option Text) (deps : Option (List Text)) (v : TeamTaskView)
    → IsConsistent s
    → update_task s actor id revision now title description deps ≡ ok (s', v)
    → IsConsistent s'
update_task-IsConsistent s s' actor id revision now title description deps v c h =
    let (task, found, _, _, valid, out) =
      update_task-eq-ok s s' actor id v now revision title description deps h in
    let next = updated_task now task title description deps in
    let graph = validate_dependencies-IsRanked (insert id next s.tasks) valid in
    let kept =
      put_task-IsConsistent s c id next now (c.tasks_keyed.own_id id task found) graph.0 graph.1
        (c.assignee_known id task found)
        (λ k m member cur. c.current_assigned k m id task member cur found) in
    elim out [
      | inl reset ↦ rw reset (invalidate_approvals-IsConsistent _ id now kept)
      | inr same ↦ rw same kept
    ]

-- A task with the same dependencies in the place of another changes nothing of the graph.
module _ (tasks : Tasks) (id : Text) (task next : TeamTask) (found : lookup id tasks ≡ some task)
    (same : next.dependency_ids ≡ task.dependency_ids) where
  pub same_dependencies-IsKnown : IsKnown tasks → IsKnown (insert id next tasks)
  same_dependencies-IsKnown known k t d h dep =
      has-insert_of_has id d next tasks (elim (lookup-insert_cases id k next t tasks h) [
        | inl new ↦ known id task d found (cc (new.1, same, dep))
        | inr old ↦ known k t d old dep
      ])

  pub same_dependencies-IsRanked :
      (rank : Text → ℕ) → IsRanked tasks rank → IsRanked (insert id next tasks) rank
  same_dependencies-IsRanked rank ranked k t d h dep =
      elim (lookup-insert_cases id k next t tasks h) [
        | inl new ↦ rw (← new.0) (ranked id task d found (cc (new.1, same, dep)))
        | inr old ↦ ranked k t d old dep
      ]
