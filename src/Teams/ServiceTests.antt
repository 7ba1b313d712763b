-- ===== src/Teams/ServiceTests.antt =====
-- The properties of the services at a team with one task, and of a batch at two tasks.
use mathlib.Core.List.{Permᴰ}
use mathlib.Core.Path.{subst}
use mew_code.Prelude.{
  Bool, Outcome, ℕ, ◌-◌, ◌≡◌, ◌≢◌, ◌↔◌, arith, refl, true, false, none, some, List, [], ◌∷◌, ◌++◌,
  ok, err, contains, distinct, any, all, keep,
}
use mew_code.Prelude.Dict.{lookup, insert}
use mew_code.Prelude.Sort.{sort_with, place_with}
use mew_code.Prelude.Text.{
  Text, text_eq, texts_eq, text_less, codes, strip, lstrip, is_space, utf8_length,
}
use mew_code.Teams.Models.{
  Failure, TeamState, TeamMemberRecord, TeamTaskView, require_identifier, valid_identifier,
  checked_summary, valid_summary,
}
use mew_code.Teams.Dependencies.{
  visit_all, visit, known_dependencies, check_known, validate_dependencies,
}
use mew_code.Teams.Approvals.{invalidated, map_values, invalidate_approvals, approval_is_valid}
use mew_code.Teams.Tasks.{
  valid_task, make_task, blockers, task_view, participant, find_member, find_task, check_revision,
  with_view, create_task,
}
use mew_code.Teams.Tasks.Keeps.{create_task-IsConsistent}
use mew_code.Teams.TaskFlow.{release, assign_task, delete_task}
use mew_code.Teams.TaskFlow.Keeps.{assign_task-IsConsistent}
use mew_code.Teams.Repository.{
  Disk, Attempt, validate, valid_registration, valid_member, participant_ids, valid_stored_task,
  valid_approval, valid_queue, load, load_state, validate_fence, compare_and_swap, committed_state,
  atomic_write, stored, Swap, Write, run,
}
use mew_code.Teams.Outbox.{Readings, make_message, message, append_outbox}
use mew_code.Teams.TaskService.{Returned, assign, assign_and_tell, change, view_of, member_id_of}
use mew_code.Teams.TaskService.Batch.{
  DeliveryKind, CoordinatorTaskSpec, Specs, is_ready, order_from, ordered_specs, create_all,
  publish, validate_existing_batch,
}
use mew_code.Teams.TaskService.Batch.Order.{IsOrder, ordered_specs-IsOrder}
use mew_code.Teams.TaskService.Batch.Again.{publish_twice}
use mew_code.Teams.TaskService.Batch.Total.{ordered_specs_total}
use mew_code.Teams.TaskService.Notices.{IsTold, assign_tells}
use mew_code.Teams.Repository.Commit.{Reads}
use mew_code.Teams.TaskService.Titles.{assign_and_tell_line_break}
use mew_code.Teams.TaskService.Keeps.{IsServed, IsSound, run-IsSound}
use mew_code.Teams.ApprovalService.{ApprovalPermit, side_effect_permit}
use mew_code.Teams.ApprovalService.Permits.{side_effect_permit-approval_is_valid}
use mew_code.Teams.Invariant.{IsConsistent}
use mew_code.Teams.Samples.{
  new_team, lead_actor, member_actor, idle_member, outcome_of, fence, name_of,
  new_team-IsConsistent,
}

abbrev spec : Text → ℕ → List Text → CoordinatorTaskSpec
spec id ordinal dependencies = record {
  local_id = id;
  task_id = id;
  ordinal = ordinal;
  title = id;
  description = [];
  dependency_local_ids = dependencies;
  dependency_task_ids = dependencies;
  target_member_id = some (codes "m");
  required_role = none;
  required_tool_names = [];
  acceptance_criteria = id ∷ [];
  delivery_kind = DeliveryKind.git;
}

-- The first of the batch depends on the second.
abbrev batch : Specs
batch = spec (codes "a") 0 (codes "b" ∷ []) ∷ spec (codes "b") 1 [] ∷ []

abbrev in_order : Specs
in_order = spec (codes "b") 1 [] ∷ spec (codes "a") 0 (codes "b" ∷ []) ∷ []

ordered_specs-IsOrder_example : Permᴰ batch in_order × IsOrder [] in_order
unfolding ordered_specs order_from is_ready keep sort_with place_with distinct contains any all
    text_eq text_less
ordered_specs-IsOrder_example = ordered_specs-IsOrder batch in_order refl

abbrev depth : Text → ℕ
depth [] = 0
depth (c ∷ s) = 98 - c

ordered_specs_total_example : (out : Specs) × (ordered_specs batch ≡ ok out)
unfolding distinct contains any all text_eq
ordered_specs_total_example = ordered_specs_total depth batch refl refl refl refl (refl, (refl, tt))

abbrev tasked : TeamState × TeamTaskView
tasked = outcome_of (create_task new_team lead_actor (codes "a") (codes "T") [] [] 10)

abbrev same : Text → Text
same s = s

abbrev readings : Readings
readings = record {
  now = 11;
  message_id = codes "i";
  sent_at = 11;
  outbox_id = codes "o";
  entry_at = 11;
  updated_at = 11;
}

abbrev disk : Disk
disk = record {
  state_file = some tasked.0;
  lease_file = some (record {
    schema_version = 1;
    team_id = codes "g";
    lease_id = codes "f";
    generation = 1;
    holder_session_id = codes "h";
    holder_process_id = codes "p";
    heartbeat_at = 10;
  });
}

abbrev swap_at : ℕ → Bool → Swap
swap_at now busy = record {
  busy = busy;
  lease_read = disk.lease_file;
  checked_at = now;
  now = now;
  write = Write.written;
}

abbrev attempts : List Attempt
attempts =
    record { interference = λ d. d; swap = swap_at 20 true }
    ∷ record { interference = λ d. d; swap = swap_at 21 false }
    ∷ []

abbrev given : Returned TeamTaskView
given =
    assign same (name_of (codes "t")) lead_actor (codes "a") (codes "m") 0 readings attempts disk

abbrev view_given : Returned TeamTaskView → TeamTaskView
view_given (ok view, after) = view
view_given (err e, after) = tasked.1

assign_tells_example :
    (committed : TeamState) × (given.1.state_file ≡ some (stored committed))
    × Reads
        (name_of (codes "t"))
        (IsTold same lead_actor
          (codes "a")
          (codes "m")
          0
          readings
          committed
          (view_given given).task)
        attempts
        disk
unfolding assign change view_of assign_and_tell member_id_of message make_message checked_summary
    valid_summary append_outbox create_task assign_task find_task find_member check_revision
    participant text_eq texts_eq lookup insert make_task require_identifier valid_identifier
    valid_task utf8_length is_space lstrip strip distinct contains any validate_dependencies
    check_known known_dependencies visit visit_all with_view task_view blockers invalidate_approvals
    invalidated map_values release run load load_state compare_and_swap committed_state atomic_write
    validate valid_registration valid_member participant_ids valid_stored_task valid_approval
    valid_queue validate_fence all
assign_tells_example =
    assign_tells same (name_of (codes "t")) lead_actor (codes "a") (codes "m") 0 readings attempts
      disk given.1 (view_given given) refl

abbrev broken : TeamState × TeamTaskView
broken =
    outcome_of
      (create_task new_team lead_actor (codes "a") (codes "T" ++ (10 ∷ codes "U")) [] [] 10)

assign_and_tell_line_break_example :
    assign_and_tell same lead_actor (codes "a") (codes "m") 0 readings broken.0 ≢ ok tasked.0
unfolding create_task participant text_eq texts_eq lookup insert make_task require_identifier
    valid_identifier valid_task utf8_length is_space lstrip strip distinct contains any
    validate_dependencies check_known known_dependencies visit visit_all with_view task_view
    blockers
assign_and_tell_line_break_example =
    assign_and_tell_line_break same lead_actor (codes "a") (codes "m") 0 readings broken.0 tasked.0
      broken.1.task (codes "T") (codes "U") refl refl (omega arith)

tasked-IsConsistent : IsConsistent tasked.0
unfolding create_task participant text_eq texts_eq lookup insert make_task require_identifier
    valid_identifier valid_task utf8_length is_space lstrip strip distinct contains any
    validate_dependencies check_known known_dependencies visit visit_all with_view task_view
    blockers
tasked-IsConsistent =
    create_task-IsConsistent new_team tasked.0 lead_actor (codes "a") (codes "T") [] [] 10 tasked.1
      new_team-IsConsistent refl

disk-IsSound : IsSound disk
disk-IsSound s h = let e : tasked.0 ≡ s = cc in subst IsConsistent e tasked-IsConsistent

run-IsSound_example :
    IsSound
      (run
        (name_of (codes "t"))
        fence
        (λ s. delete_task s lead_actor (codes "a") 0 11)
        attempts
        disk).1
run-IsSound_example =
    run-IsSound (name_of (codes "t")) fence (λ s. delete_task s lead_actor (codes "a") 0 11)
      attempts disk (IsServed.deleted lead_actor (codes "a") 0 11)
      ((λ d sound. sound), ((λ d sound. sound), tt)) disk-IsSound

abbrev working : TeamState × TeamTaskView
working = outcome_of (assign_task tasked.0 lead_actor (codes "a") (codes "m") 0 11)

working-IsConsistent : IsConsistent working.0
unfolding create_task assign_task find_task find_member check_revision participant text_eq texts_eq
    lookup insert make_task require_identifier valid_identifier valid_task utf8_length is_space
    lstrip strip distinct contains any validate_dependencies check_known known_dependencies visit
    visit_all with_view task_view blockers invalidate_approvals invalidated map_values release
working-IsConsistent =
    assign_task-IsConsistent tasked.0 working.0 lead_actor (codes "a") (codes "m") 0 11 working.1
      tasked-IsConsistent refl

abbrev busy_member : TeamMemberRecord
busy_member = record idle_member { current_task_id = some (codes "a"); updated_at = 11 }

abbrev working_disk : Disk
working_disk = record disk { state_file = some working.0 }

side_effect_permit-approval_is_valid_example :
    ((permit : ApprovalPermit) × (side_effect_permit
          (name_of (codes "t"))
          member_actor
          (codes "a")
          12
          working_disk
        ≡ ok permit))
    ↔ ((busy_member.current_task_id ≡ some (codes "a"))
        × (approval_is_valid working.0 (codes "m") (codes "a") ≡ true))
unfolding create_task assign_task find_task find_member check_revision participant text_eq texts_eq
    lookup insert make_task require_identifier valid_identifier valid_task utf8_length is_space
    lstrip strip distinct contains any validate_dependencies check_known known_dependencies visit
    visit_all with_view task_view blockers invalidate_approvals invalidated map_values release load
    load_state validate valid_registration valid_member participant_ids valid_stored_task
    valid_approval valid_queue all
side_effect_permit-approval_is_valid_example =
    side_effect_permit-approval_is_valid (name_of (codes "t")) member_actor (codes "a") 12
      working_disk working.0 busy_member refl refl working-IsConsistent refl refl

abbrev published : Outcome Failure TeamState → TeamState
published (ok s) = s
published (err e) = new_team

abbrev both : TeamState
both = published (publish lead_actor 10 in_order new_team)

publish_twice_example :
    (validate_existing_batch both lead_actor in_order ≡ ok tt)
    × (publish lead_actor 11 in_order both ≡ ok both)
unfolding publish create_all keep create_task participant text_eq texts_eq lookup insert make_task
    require_identifier valid_identifier valid_task utf8_length is_space lstrip strip distinct
    contains any validate_dependencies check_known known_dependencies visit visit_all with_view
    task_view blockers
publish_twice_example = publish_twice lead_actor 10 11 in_order new_team both refl refl
