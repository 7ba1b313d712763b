-- ===== src/Teams/Tests.antt =====
-- The properties of a team at one small team: a task is created, changed, claimed, started and assigned.
use mew_code.Prelude.{
  ℕ, Bool, ◌≡◌, ◌↔◌, ◌⊎◌, ◌<◌, arith, raise_if, leb, refl, true, false, none, some, List, [], ◌∷◌,
  Outcome, ok, err, contains, distinct, any, all,
}
use mew_code.Prelude.Dict.{lookup, insert}
use mew_code.Prelude.Text.{Text, text_eq, texts_eq, codes, strip, lstrip, is_space, utf8_length}
use mew_code.Teams.Models.{
  TeamState, TeamTask, TeamMemberRecord, TeamMemberStatus, TeamTaskStatus, TeamTaskView, Failure,
  require_identifier, valid_identifier,
}
use mew_code.Teams.Dependencies.{
  visit_all, visit, known_dependencies, check_known, validate_dependencies,
}
use mew_code.Teams.Approvals.{invalidated, map_values, invalidate_approvals, approval_is_valid}
use mew_code.Teams.Tasks.{
  valid_task, make_task, blockers, task_view, participant, find_member, find_task, check_revision,
  can_edit_task, with_view, create_task, update_task,
}
use mew_code.Teams.Tasks.Keeps.{create_task-IsConsistent}
use mew_code.Teams.TaskFlow.{
  release, assign_task, claim_task, allowed_transition, blocked_start, transition_task,
}
use mew_code.Teams.TaskFlow.Keeps.{claim_task-IsConsistent}
use mew_code.Teams.TaskFlow.Rules.{
  AllCompleted, start_needs_completed, assign_task_revokes, transition_task_once,
  claim_task_assigns,
}
use mew_code.Teams.Repository.{
  TeamLeadLeaseRecord, Disk, Attempt, validate, valid_registration, valid_member, participant_ids,
  valid_stored_task, valid_approval, valid_queue, load, load_state, validate_fence,
  compare_and_swap, committed_state, atomic_write, stored, Swap, Write, run,
}
use mew_code.Teams.Repository.Commit.{IsCommitted, run-IsCommitted, run-err}
use mew_code.Teams.Dependencies.Complete.{validate_dependencies-decides}
use mew_code.Teams.Dependencies.Sound.{IsKnown, IsRanked}
use mew_code.Teams.Members.{transition_member}
use mew_code.Teams.Leases.{
  TeamLeadLease, acquire, renew, validate_lease, expired, held, checked_record, release_lease,
}
use mew_code.Teams.Leases.Fences.{LeaseReach, stale_lease_refused, acquire_takes_over}
use mew_code.Teams.Creation.{create, create-load}
use mew_code.Teams.Invariant.{IsConsistent}
use mew_code.Teams.Samples.{
  new_team, lead_actor, member_actor, outcome_of, fence, name_of, new_team-IsConsistent,
}

abbrev created : TeamState × TeamTaskView
created = outcome_of (create_task new_team lead_actor (codes "a") (codes "T") [] [] 10)

-- The states that the tests go through.
created-IsConsistent : IsConsistent created.0
unfolding create_task update_task claim_task assign_task transition_task find_task find_member
    check_revision can_edit_task participant text_eq texts_eq lookup insert make_task
    require_identifier valid_identifier valid_task utf8_length is_space lstrip strip distinct
    contains any validate_dependencies check_known known_dependencies visit visit_all with_view
    task_view blockers invalidate_approvals invalidated map_values release allowed_transition
    blocked_start
created-IsConsistent =
    create_task-IsConsistent new_team created.0 lead_actor (codes "a") (codes "T") [] [] 10
      created.1 new_team-IsConsistent refl

abbrev claimed : TeamState × TeamTaskView
claimed = outcome_of (claim_task created.0 member_actor (codes "a") 0 11)

claimed-IsConsistent : IsConsistent claimed.0
unfolding create_task update_task claim_task assign_task transition_task find_task find_member
    check_revision can_edit_task participant text_eq texts_eq lookup insert make_task
    require_identifier valid_identifier valid_task utf8_length is_space lstrip strip distinct
    contains any validate_dependencies check_known known_dependencies visit visit_all with_view
    task_view blockers invalidate_approvals invalidated map_values release allowed_transition
    blocked_start
claimed-IsConsistent =
    claim_task-IsConsistent created.0 claimed.0 member_actor (codes "a") 0 11 claimed.1
      created-IsConsistent refl

abbrev started : TeamState × TeamTaskView
started =
    outcome_of
      (transition_task claimed.0 member_actor (codes "a") TeamTaskStatus.in_progress 1 [] 12)

abbrev assigned : TeamState × TeamTaskView
assigned = outcome_of (assign_task created.0 lead_actor (codes "a") (codes "m") 0 11)

abbrev updated : TeamState × TeamTaskView
updated =
    outcome_of (update_task created.0 lead_actor (codes "a") 0 11 (some (codes "U")) none none)

assign_task_revokes_example : approval_is_valid assigned.0 (codes "m") (codes "a") ≡ false
unfolding create_task update_task claim_task assign_task transition_task find_task find_member
    check_revision can_edit_task participant text_eq texts_eq lookup insert make_task
    require_identifier valid_identifier valid_task utf8_length is_space lstrip strip distinct
    contains any validate_dependencies check_known known_dependencies visit visit_all with_view
    task_view blockers invalidate_approvals invalidated map_values release allowed_transition
    blocked_start
assign_task_revokes_example =
    assign_task_revokes created.0 assigned.0 lead_actor (codes "a") (codes "m") 0 11 assigned.1 refl
      (codes "m")

transition_task_once_example :
    transition_task started.0 lead_actor (codes "a") TeamTaskStatus.cancelled 1 [] 13
    ≡ err Failure.validation
unfolding create_task update_task claim_task assign_task transition_task find_task find_member
    check_revision can_edit_task participant text_eq texts_eq lookup insert make_task
    require_identifier valid_identifier valid_task utf8_length is_space lstrip strip distinct
    contains any validate_dependencies check_known known_dependencies visit visit_all with_view
    task_view blockers invalidate_approvals invalidated map_values release allowed_transition
    blocked_start
transition_task_once_example =
    transition_task_once claimed.0 started.0 member_actor lead_actor (codes "a")
      TeamTaskStatus.in_progress TeamTaskStatus.cancelled 1 [] [] 12 13 started.1 refl

abbrev waiting : Outcome Failure TeamState
waiting = transition_member new_team (codes "m") TeamMemberStatus.queued 12 none none

abbrev state_of : Outcome Failure TeamState → TeamState
state_of (ok s) = s
state_of (err e) = new_team

start_needs_completed_example :
    (task : TeamTask) × (lookup (codes "a") claimed.0.tasks ≡ some task)
    × AllCompleted claimed.0.tasks task.dependency_ids
unfolding create_task update_task claim_task assign_task transition_task find_task find_member
    check_revision can_edit_task participant text_eq texts_eq lookup insert make_task
    require_identifier valid_identifier valid_task utf8_length is_space lstrip strip distinct
    contains any validate_dependencies check_known known_dependencies visit visit_all with_view
    task_view blockers invalidate_approvals invalidated map_values release allowed_transition
    blocked_start
start_needs_completed_example =
    start_needs_completed claimed.0 started.0 member_actor (codes "a") 1 [] 12 started.1 refl

claim_task_assigns_example :
    (before : TeamTask) × (lookup (codes "a") created.0.tasks ≡ some before)
    × (before.status ≡ TeamTaskStatus.pending)
    × (before.assignee_id ≡ none)
    × AllCompleted created.0.tasks before.dependency_ids
    × ((after : TeamTask) × (lookup (codes "a") claimed.0.tasks ≡ some after)
        × (after.assignee_id ≡ some (codes "m"))
        × ((member : TeamMemberRecord) × (lookup (codes "m") claimed.0.members ≡ some member)
            × (member.current_task_id ≡ some (codes "a"))))
unfolding create_task update_task claim_task assign_task transition_task find_task find_member
    check_revision can_edit_task participant text_eq texts_eq lookup insert make_task
    require_identifier valid_identifier valid_task utf8_length is_space lstrip strip distinct
    contains any validate_dependencies check_known known_dependencies visit visit_all with_view
    task_view blockers invalidate_approvals invalidated map_values release allowed_transition
    blocked_start
claim_task_assigns_example =
    claim_task_assigns created.0 claimed.0 member_actor (codes "a") 0 11 claimed.1
      created-IsConsistent refl

validate_dependencies-decides_example :
    ((validate_dependencies created.0.tasks ≡ ok tt)
      ↔ (IsKnown created.0.tasks × ((rank : Text → ℕ) × IsRanked created.0.tasks rank)))
    × ((e : Failure) → validate_dependencies created.0.tasks ≡ err e → e ≡ Failure.validation)
validate_dependencies-decides_example =
    validate_dependencies-decides created.0.tasks created-IsConsistent.tasks_keyed

abbrev lease_record : TeamLeadLeaseRecord
lease_record = record {
  schema_version = 1;
  team_id = codes "g";
  lease_id = codes "f";
  generation = 1;
  holder_session_id = codes "h";
  holder_process_id = codes "p";
  heartbeat_at = 5;
}

abbrev disk : Disk
disk = record { state_file = some new_team; lease_file = some lease_record }

abbrev renamed : TeamState → Outcome Failure TeamState
renamed s = ok (record s { revision = 4 })

-- A swap at a time, where the lease file holds the record.
abbrev swap_at : ℕ → Bool → Write → Swap
swap_at now busy write = record {
  busy = busy;
  lease_read = some lease_record;
  checked_at = now;
  now = now;
  write = write;
}

abbrev attempts : List Attempt
attempts =
    record { interference = λ d. d; swap = swap_at 20 true Write.written }
    ∷ record { interference = λ d. d; swap = swap_at 21 false Write.written }
    ∷ []

abbrev ran : Outcome Failure TeamState × Disk
ran = run (name_of (codes "t")) fence renamed attempts disk

run-IsCommitted_example :
    IsCommitted
      (name_of (codes "t"))
      fence
      renamed
      (record new_team { revision = 4; updated_at = 21 })
      ran.1
      attempts
      disk
unfolding run load load_state compare_and_swap committed_state atomic_write validate
    valid_registration valid_member participant_ids valid_stored_task valid_approval valid_queue
    validate_fence all contains any lookup text_eq distinct
run-IsCommitted_example =
    run-IsCommitted (name_of (codes "t")) fence renamed attempts disk ran.1
      (record new_team { revision = 4; updated_at = 21 }) refl

abbrev broken : List Attempt
broken = record { interference = λ d. d; swap = swap_at 21 false Write.failed_after_replace } ∷ []

abbrev broke : Outcome Failure TeamState × Disk
broke = run (name_of (codes "t")) fence renamed broken disk

run-err_example :
    (broke.1 ≡ disk)
    ⊎ ((Failure.storage ≡ Failure.storage)
        × ((s : TeamState) × IsCommitted (name_of (codes "t")) fence renamed s broke.1 broken disk))
unfolding run load load_state compare_and_swap committed_state atomic_write validate
    valid_registration valid_member participant_ids valid_stored_task valid_approval valid_queue
    validate_fence all contains any lookup text_eq distinct
run-err_example =
    run-err (name_of (codes "t")) fence renamed broken disk broke.1 Failure.storage (λ d. refl, tt)
      refl

abbrev taken : Outcome Failure (TeamLeadLease × Disk)
taken =
    acquire (name_of (codes "t")) false false (codes "h") (codes "p") (codes "n") 70000000 70000001
      disk

abbrev old_lease : TeamLeadLease
old_lease = record { record_of = lease_record; released = false }

abbrev taken_of : Outcome Failure (TeamLeadLease × Disk) → TeamLeadLease × Disk
taken_of (ok p) = p
taken_of (err e) = (old_lease, disk)

acquire_takes_over_example :
    (held (some lease_record) 70000000 ≡ false)
    × (1 < (taken_of taken).0.record_of.generation)
    × (validate_lease (codes "g" ∷ []) 80000000 (taken_of taken).0 (taken_of taken).1
        ≡ raise_if (leb 130000001 80000000) Failure.lease)
unfolding acquire load load_state validate valid_registration valid_member participant_ids
    valid_stored_task valid_approval valid_queue all contains any lookup text_eq distinct expired
    checked_record require_identifier valid_identifier strip lstrip is_space
acquire_takes_over_example =
    acquire_takes_over (name_of (codes "t")) false false (codes "h") (codes "p") (codes "n")
      70000000 70000001 disk (taken_of taken).1 (taken_of taken).0 (codes "g" ∷ []) 80000000 refl
      refl

abbrev newer : Disk
newer = record disk {
  lease_file = some (record lease_record { lease_id = codes "n"; generation = 2 });
}

stale_lease_refused_example :
    (validate_lease (codes "g" ∷ []) 20 old_lease newer ≡ err Failure.lease)
    × (renew (codes "g" ∷ []) false 20 20 old_lease newer ≡ err Failure.lease)
    × ((e : Failure) × (compare_and_swap
            (name_of (codes "t"))
            (record (swap_at 20 false Write.written) { lease_read = newer.lease_file })
            3
            (codes "f", 1)
            new_team
            (some new_team)
          ≡ (err e, some new_team)))
    × (release_lease (codes "g" ∷ []) false old_lease newer ≡ ok newer)
unfolding contains text_eq
stale_lease_refused_example =
    stale_lease_refused old_lease newer newer (codes "g" ∷ []) 20 20 (name_of (codes "t"))
      (record (swap_at 20 false Write.written) { lease_read = newer.lease_file }) 3 new_team
      (some new_team) (omega arith) LeaseReach.here refl refl

abbrev empty : Disk
empty = record { state_file = none; lease_file = none }

abbrev created_team : Outcome Failure TeamState × Disk
created_team = create 5 false Write.written new_team empty

create-load_example :
    (new_team ≡ new_team)
    × (load (name_of (codes "t")) created_team.1 ≡ ok (stored new_team))
    × (lookup (codes "a") (stored new_team).tasks ≡ lookup (codes "a") new_team.tasks)
    × (empty.state_file ≡ none)
    × (leb 128 5 ≡ false)
    × (created_team.1.lease_file ≡ empty.lease_file)
unfolding create atomic_write validate valid_registration valid_member participant_ids
    valid_stored_task valid_approval valid_queue all contains any lookup text_eq distinct
create-load_example =
    create-load 5 false Write.written new_team new_team empty created_team.1 (codes "a") refl
