-- ===== src/Teams/TaskFlow/Rules.antt =====
-- The rules of the task board: what a start, a claim and a change of a task need and cause.
use mew_code.Prelude.{
  ℕ, ◌≡◌, refl, ap, Bool, true, false, none, some, List, [], ◌∷◌, any, contains, ◌==◌, option_eq,
  nat_eq, Bool-cases, Option-cases, Outcome-cases, ok, err, inl, inr, arith, if◌then◌else◌, ==_self,
}
use mew_code.Prelude.Dict.{Dict, lookup, values, lookup-insert}
use mew_code.Prelude.Text.{Text, text_eq}
use mew_code.Teams.Models.{
  Time, TeamState, TeamActor, TeamActorKind, TeamMemberRecord, TeamTask, TeamTaskStatus,
  TeamTaskView, PlanApprovalRecord, Failure,
}
use mew_code.Teams.Dependencies.{Tasks}
use mew_code.Teams.Approvals.{
  grants, approval_is_valid, invalidated, invalidate_approvals, map_values,
}
use mew_code.Teams.Tasks.{blockers, task_view, find_task, check_revision}
use mew_code.Teams.TaskFlow.{assign_task, claim_task, transition_task, blocked_start, release}
use mew_code.Teams.Invariant.{IsConsistent}
use mew_code.Teams.TaskFlow.Results.{
  assigned, assign_task-eq-ok, claim_task-eq-ok, transition_task-eq-ok, transitioned, is_reset,
}

-- Every listed dependency is a task that is completed.
abbrev pub AllCompleted : Tasks → List Text → Type 0
AllCompleted tasks ds =
    (d : Text)
    → contains ds d ≡ true
    → (t : TeamTask) × (lookup d tasks ≡ some t) × (t.status ≡ TeamTaskStatus.completed)

blockers-nil : (tasks : Tasks) (ds : List Text) → blockers tasks ds ≡ ok [] → AllCompleted tasks ds
unfolding blockers contains
blockers-nil tasks [] h d q = cc
blockers-nil tasks (x ∷ ds) h d q = elim (Option-cases (lookup x tasks)) [
  | inl missing ↦ absurd (ground arith)
  | inr (t, found) ↦ elim (Outcome-cases (blockers tasks ds)) [
    | inr (e, bad) ↦ absurd (ground arith)
    | inl (rest, done) ↦
        let none_left : (rest ≡ []) × (t.status ≡ TeamTaskStatus.completed) = ground arith in
        elim (Bool-cases (x == d)) [
          | inl same ↦ (t, ground (arith, text_eq.beq_iff x d), none_left.1)
          | inr other ↦ blockers-nil tasks ds (ground arith) d (ground arith)
        ]
  ]
]

-- A task that starts has all of its dependencies completed.
pub start_needs_completed :
    (s s' : TeamState) (actor : TeamActor) (id : Text) (revision : ℕ) (result : Text) (now : Time)
    (v : TeamTaskView)
    → transition_task s actor id TeamTaskStatus.in_progress revision result now ≡ ok (s', v)
    → (task : TeamTask) × (lookup id s.tasks ≡ some task) × AllCompleted s.tasks task.dependency_ids
unfolding blocked_start task_view
start_needs_completed s s' actor id revision result now v h =
    let (task, found, _, _, _, free, _) =
      transition_task-eq-ok s s' actor id revision now TeamTaskStatus.in_progress result v h in
    (
      task,
      found,
      elim (Outcome-cases (blockers s.tasks task.dependency_ids)) [
        | inr (e, bad) ↦ absurd (ground arith)
        | inl (rest, done) ↦ blockers-nil s.tasks task.dependency_ids (ground arith)
      ],
    )

-- No approval of the task is left that grants anything.
values_granting :
    (member_id id : Text) (now : Time) (task : TeamTask) (d : Dict Text PlanApprovalRecord)
    → any (grants member_id id task) (values (map_values (invalidated id now) d)) ≡ false
unfolding any map_values invalidated grants
values_granting member_id id now task [] = refl
values_granting member_id id now task ((k, a) ∷ d) =
    ground (arith, values_granting member_id id now task d)

invalidate_approvals_revokes :
    (s : TeamState) (member_id id : Text) (now : Time)
    → approval_is_valid (invalidate_approvals s id now) member_id id ≡ false
unfolding approval_is_valid invalidate_approvals
invalidate_approvals_revokes s member_id id now = elim (Option-cases (lookup id s.tasks)) [
  | inl missing ↦ ground arith
  | inr (t, found) ↦ ground (arith, values_granting member_id id now t s.approvals)
]

-- A new assignee starts without any approval of the task, whoever held one before.
pub assign_task_revokes :
    (s s' : TeamState) (actor : TeamActor) (id member_id : Text) (revision : ℕ) (now : Time)
    (v : TeamTaskView)
    → assign_task s actor id member_id revision now ≡ ok (s', v)
    → (holder : Text) → approval_is_valid s' holder id ≡ false
assign_task_revokes s s' actor id member_id revision now v h holder =
    let (task, _, _, _, (target, _, _, out)) =
      (assign_task-eq-ok s s' actor id revision now member_id v h).1 in
    rw out (invalidate_approvals_revokes _ holder id now)

invalidate_if_tasks :
    (b : Bool) (s : TeamState) (id : Text) (now : Time)
    → (if b then invalidate_approvals s id now else s).tasks ≡ s.tasks
unfolding invalidate_approvals
invalidate_if_tasks true s id now = refl
invalidate_if_tasks false s id now = refl

-- Of two status changes made from one revision of a task, the second is refused.
pub transition_task_once :
    (s s' : TeamState) (actor other : TeamActor) (id : Text) (target next : TeamTaskStatus)
    (revision : ℕ) (result message : Text) (now later : Time) (v : TeamTaskView)
    → transition_task s actor id target revision result now ≡ ok (s', v)
    → transition_task s' other id next revision message later ≡ err Failure.validation
unfolding transition_task find_task check_revision
transition_task_once s s' actor other id target next revision result message now later v h =
    let (task, found, at, _, _, _, out) =
      transition_task-eq-ok s s' actor id revision now target result v
        (unfold transition_task find_task check_revision in h) in
    let changed = transitioned now task target result in
    let stored : lookup id s'.tasks ≡ some changed =
      rw (out, invalidate_if_tasks (is_reset task target) _ id now)
        (ground (arith, lookup-insert id id changed s.tasks, ==_self id)) in
    ground (arith, stored, at)

-- In a consistent state, a claimed task was pending, unassigned and free of open dependencies, and is now assigned to the
-- member who claimed it and had no other.
pub claim_task_assigns :
    (s s' : TeamState) (actor : TeamActor) (id : Text) (revision : ℕ) (now : Time)
    (v : TeamTaskView)
    → IsConsistent s
    → claim_task s actor id revision now ≡ ok (s', v)
    → (before : TeamTask) × (lookup id s.tasks ≡ some before)
      × (before.status ≡ TeamTaskStatus.pending)
      × (before.assignee_id ≡ none)
      × AllCompleted s.tasks before.dependency_ids
      × ((after : TeamTask) × (lookup id s'.tasks ≡ some after)
          × (after.assignee_id ≡ some actor.participant_id)
          × ((member : TeamMemberRecord) × (lookup actor.participant_id s'.members ≡ some member)
              × (member.current_task_id ≡ some id)))
unfolding invalidate_approvals
claim_task_assigns s s' actor id revision now v c h =
    let (task, found, pending, free, closed, (member, there, _, _, assign)) =
      claim_task-eq-ok s s' actor id revision now v h in
    let own = c.member_ids actor.participant_id member there in
    let (task', found', _, _, (target, _, _, out)) =
      (assign_task-eq-ok s s' (record actor { kind = TeamActorKind.lead }) id revision now
        member.member_id v assign).1 in
    let same : task' ≡ task = ground arith in
    (
      task,
      found,
      ground arith,
      free,
      blockers-nil s.tasks task.dependency_ids closed,
      (
        assigned now task' member.member_id,
        rw out (
            ground (
              arith,
              lookup-insert id id (assigned now task' member.member_id) s.tasks,
              ==_self id,
            )),
        ap some own,
        (
          record target { current_task_id = some id; updated_at = now },
          rw (out, own)
              (ground (
                arith,
                lookup-insert actor.participant_id actor.participant_id
                    (record target { current_task_id = some id; updated_at = now })
                    (release task'.assignee_id now s.members),
                ==_self actor.participant_id,
              )),
          refl,
        ),
      ),
    )
