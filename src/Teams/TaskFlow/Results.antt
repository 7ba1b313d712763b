-- ===== src/Teams/TaskFlow/Results.antt =====
-- What a successful assignment, claim, transition or deletion returns, written out.
use mew_code.Prelude.{
  ℕ, ◌+◌, ◌≡◌, Bool, true, false, none, some, [], option_eq, any, contains, Option-cases, ok,
  if◌then◌else◌, arith, ◌&&◌, ◌⊎◌, inl, inr,
}
use mew_code.Prelude.Dict.{lookup, insert, erase, has, values}
use mew_code.Prelude.Text.{Text, text_eq}
use mew_code.Teams.Models.{
  Time, TeamState, TeamActor, TeamTask, TeamTaskStatus, TeamTaskView, TeamMemberRecord,
  TeamActorKind, terminal,
}
use mew_code.Teams.Approvals.{invalidate_approvals}
use mew_code.Teams.Tasks.{
  is_pending, is_in_progress, is_lead, is_member, blockers, task_view, find_member, find_task,
  check_revision, with_view,
}
use mew_code.Teams.Tasks.Results.{make_task_lem}
use mew_code.Teams.TaskFlow.{
  release, assign_task, claim_task, allowed_transition, blocked_start, transition_task,
  without_task, delete_task,
}

abbrev pub assigned : Time → TeamTask → Text → TeamTask
assigned now task member_id = record task {
  revision = task.revision + 1;
  approval_epoch = task.approval_epoch + 1;
  assignee_id = some member_id;
  updated_at = now;
}

abbrev pub is_reset : TeamTask → TeamTaskStatus → Bool
is_reset task target = is_pending target && terminal task.status

abbrev pub transitioned : Time → TeamTask → TeamTaskStatus → Text → TeamTask
transitioned now task target result =
    let reset = is_reset task target in
    record task {
      revision = task.revision + 1;
      approval_epoch = task.approval_epoch + (if reset then 1 else 0);
      status = target;
      result = result;
      started_at =
          if is_in_progress target then some now else if reset then none else task.started_at;
      finished_at = if terminal target then some now else none;
      updated_at = now;
    }

-- The state before its approvals are invalidated.
abbrev pub after_transition : TeamState → Text → Time → TeamTask → TeamTaskStatus → Text → TeamState
after_transition s id now task target result = record s {
  members = if terminal target then release task.assignee_id now s.members else s.members;
  tasks = insert id (transitioned now task target result) s.tasks;
  updated_at = now;
}

module _ (s s' : TeamState) (actor : TeamActor) (id : Text) (revision : ℕ) (now : Time) where
  pub assign_task-eq-ok :
      (member_id : Text) (v : TeamTaskView)
      → assign_task s actor id member_id revision now ≡ ok (s', v)
      → (is_lead actor.kind ≡ true)
        × ((task : TeamTask) × (lookup id s.tasks ≡ some task)
            × (task.revision ≡ revision)
            × (has member_id s.members ≡ true)
            × ((target : TeamMemberRecord) × (lookup member_id
                    (release task.assignee_id now s.members)
                  ≡ some target)
                × ((target.current_task_id ≡ none) ⊎ (target.current_task_id ≡ some id))
                × (s'
                    ≡ invalidate_approvals
                        (record s {
                          members =
                              insert member_id
                                (record target { current_task_id = some id; updated_at = now })
                                (release task.assignee_id now s.members);
                          tasks = insert id (assigned now task member_id) s.tasks;
                          updated_at = now;
                        })
                        id
                        now)))
  unfolding assign_task find_task check_revision find_member with_view
  assign_task-eq-ok member_id v h = (
    ground arith,
    elim (Option-cases (lookup id s.tasks)) [
      | inl missing ↦ absurd (ground arith)
      | inr (task, found) ↦
          let freed = release task.assignee_id now s.members in
          (
            task,
            found,
            ground arith,
            ground arith,
            elim (Option-cases (lookup member_id freed)) [
              | inl missing ↦ absurd (ground arith)
              | inr (target, there) ↦ (
                target,
                there,
                ground (arith, (option_eq {A = Text}).beq_iff target.current_task_id (some id)),
                ground (arith, make_task_lem (assigned now task member_id)),
              )
            ],
          )
    ],
  )

  pub claim_task-eq-ok :
      (v : TeamTaskView)
      → claim_task s actor id revision now ≡ ok (s', v)
      → (task : TeamTask) × (lookup id s.tasks ≡ some task)
        × (is_pending task.status ≡ true)
        × (task.assignee_id ≡ none)
        × (blockers s.tasks task.dependency_ids ≡ ok [])
        × ((member : TeamMemberRecord) × (lookup actor.participant_id s.members ≡ some member)
            × (member.current_task_id ≡ none)
            × (is_member actor.kind ≡ true)
            × (assign_task s
                  (record actor { kind = TeamActorKind.lead })
                  id
                  member.member_id
                  revision
                  now
                ≡ ok (s', v)))
  unfolding claim_task find_task check_revision find_member task_view
  claim_task-eq-ok v h = elim (Option-cases (lookup id s.tasks)) [
    | inl missing ↦ absurd (ground arith)
    | inr (task, found) ↦ elim (Option-cases (lookup actor.participant_id s.members)) [
      | inl missing ↦ absurd (ground arith)
      | inr (member, there) ↦ (
        task,
        found,
        ground arith,
        ground arith,
        ground arith,
        (member, there, ground arith, ground arith, ground arith),
      )
    ]
  ]

  pub transition_task-eq-ok :
      (target : TeamTaskStatus) (result : Text) (v : TeamTaskView)
      → transition_task s actor id target revision result now ≡ ok (s', v)
      → (task : TeamTask) × (lookup id s.tasks ≡ some task)
        × (task.revision ≡ revision)
        × ((is_lead actor.kind ≡ true) ⊎ (task.assignee_id ≡ some actor.participant_id))
        × (allowed_transition task.status target ≡ true)
        × (blocked_start s task target ≡ ok false)
        × (s' ≡ (
            if is_reset task target
            then invalidate_approvals (after_transition s id now task target result) id now
            else after_transition s id now task target result))
  unfolding transition_task find_task check_revision with_view
  transition_task-eq-ok target result v h = elim (Option-cases (lookup id s.tasks)) [
    | inl missing ↦ absurd (ground arith)
    | inr (task, found) ↦ (
      task,
      found,
      ground arith,
      ground (arith, (option_eq {A = Text}).beq_iff task.assignee_id (some actor.participant_id)),
      ground arith,
      ground arith,
      ground (arith, make_task_lem (transitioned now task target result)),
    )
  ]

  pub delete_task-eq-ok :
      delete_task s actor id revision now ≡ ok s'
      → (task : TeamTask) × (lookup id s.tasks ≡ some task)
        × (is_in_progress task.status ≡ false)
        × (any (λ candidate. contains candidate.dependency_ids id) (values s.tasks) ≡ false)
        × (s' ≡ record s {
          tasks = erase id s.tasks;
          approvals = without_task id s.approvals;
          updated_at = now;
        })
  unfolding delete_task find_task check_revision
  delete_task-eq-ok h = elim (Option-cases (lookup id s.tasks)) [
    | inl missing ↦ absurd (ground arith)
    | inr (task, found) ↦ (task, found, ground arith, ground arith, ground arith)
  ]
