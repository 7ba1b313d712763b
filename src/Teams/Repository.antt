-- ===== src/Teams/Repository.antt =====
-- src/mewcode/teams/repository.py: the checks of a stored state, the compare-and-swap under the
-- lead's lease, and the runner that repeats a mutation.
-- A file is the state that its bytes decode to: `stored` is what codec.py makes of a state that is
-- written, with its mappings in the order of their keys. The lock is free or busy; other processes act
-- between the steps.
pub mod Swapped
pub mod Commit
pub mod Stored
use mew_code.Prelude.{
  ℕ, zero, suc, ◌+◌, Bool, true, false, ◌&&◌, ◌||◌, not, Option, none, some, List, [], ◌∷◌, map,
  any, all, contains, distinct, ltb, leb, ◌==◌, nat_eq, pair_eq, Outcome, ok, err, ◌>>=◌, ◌>>◌,
  raise_if, if◌then◌else◌,
}
use mew_code.Prelude.Dict.{Dict, lookup, has, values}
use mew_code.Prelude.Dict.Sorted.{sorted_by_key}
use mew_code.Prelude.Text.{Text, text_eq}
use mew_code.Teams.Models.{
  Time, TeamState, TeamTask, TeamMemberRecord, PlanApprovalRecord, MemberQueueEntry, Failure,
  TeamName, MailboxRegistration, TeamOutboxEntry,
}
use mew_code.Teams.Dependencies.{validate_dependencies}

-- TeamLeadLeaseRecord of models.py
pub record TeamLeadLeaseRecord : Type 0 where
  pub schema_version : ℕ
  pub team_id : Text
  pub lease_id : Text
  pub generation : ℕ
  pub holder_session_id : Text
  pub holder_process_id : Text
  pub heartbeat_at : Time

abbrev pub known_or_none {ℓ} : {V : Type ℓ} → Option Text → Dict Text V → Bool
known_or_none none d = true
known_or_none (some k) d = has k d

unfoldable pub participant_ids : TeamState → List Text
participant_ids state = map (λ r. r.participant_id) (values state.registry)

-- The tests of `validate`, one for each loop.
unfoldable pub valid_member : TeamState → Text × TeamMemberRecord → Bool
valid_member state (key, member) =
    key == member.member_id
    && contains (participant_ids state) member.member_id
    && known_or_none member.current_task_id state.tasks

unfoldable pub valid_stored_task : TeamState → Text × TeamTask → Bool
valid_stored_task state (key, task) =
    key == task.task_id
    && all (λ item. has item state.tasks) task.dependency_ids
    && known_or_none task.assignee_id state.members

unfoldable pub valid_approval : TeamState → Text × PlanApprovalRecord → Bool
valid_approval state (key, approval) =
    key == approval.request_id
    && has approval.member_id state.members
    && has approval.task_id state.tasks

unfoldable pub valid_registration : Text × MailboxRegistration → Bool
valid_registration (key, r) = key == r.participant_name.canonical_key

unfoldable pub valid_queue : TeamState → Bool
valid_queue state =
    all (λ entry. has entry.member_id state.members) state.queue
    && distinct (map (λ entry. entry.member_id) state.queue)

-- TeamRepository.validate: every failed test raises the same exception
unfoldable pub validate : TeamState → Outcome Failure (Unit {0})
validate state = do
  raise_if (ltb state.updated_at state.manifest.updated_at) Failure.validation
  raise_if (not (all valid_registration state.registry)) Failure.validation
  raise_if (not (all (valid_member state) state.members)) Failure.validation
  raise_if (not (all (valid_stored_task state) state.tasks)) Failure.validation
  raise_if (not (all (valid_approval state) state.approvals)) Failure.validation
  raise_if (not (valid_queue state)) Failure.validation

-- What the directory of a team holds.
pub record Disk : Type 0 where
  pub state_file : Option TeamState
  pub lease_file : Option TeamLeadLeaseRecord

-- load: an invalid state or a state of another name is corruption
unfoldable pub load_state : TeamName → Option TeamState → Outcome Failure TeamState
load_state name none = err Failure.not_found
load_state name (some state) = elim (validate state) [
  | err e ↦ err Failure.corruption
  | ok _ ↦
      raise_if (not (state.manifest.name.canonical_key == name.canonical_key)) Failure.corruption
      >> ok state
]

unfoldable pub load : TeamName → Disk → Outcome Failure TeamState
load name disk = load_state name disk.state_file

-- _validate_fence; the lease lives for 60 seconds after its heartbeat
unfoldable pub validate_fence :
    Option TeamLeadLeaseRecord → Text → Text × ℕ → Time → Outcome Failure (Unit {0})
validate_fence none team_id expected now = err Failure.lease
validate_fence (some r) team_id expected now = do
  raise_if (not (r.team_id == team_id) || not ((r.lease_id, r.generation) == expected))
      Failure.lease
  raise_if (leb (r.heartbeat_at + 60000000) now) Failure.lease

abbrev stored_entry : TeamOutboxEntry → TeamOutboxEntry
stored_entry entry = record entry {
  message = record entry.message { payload = sorted_by_key entry.message.payload };
}

-- decode_team_state(encode_team_state(state)): the JSON text has its keys sorted
unfoldable pub stored : TeamState → TeamState
stored state = record state {
  members = sorted_by_key state.members;
  registry = sorted_by_key state.registry;
  tasks = sorted_by_key state.tasks;
  approvals = sorted_by_key state.approvals;
  outbox = map stored_entry state.outbox;
}

-- How atomic_write ends: it may raise before it replaces the file, or after, where the directory cannot
-- be synchronized.
pub data Write : Type 0 where
  written failed failed_after_replace : Write

unfoldable pub atomic_write :
    Write → TeamState → Option TeamState → Outcome Failure TeamState × Option TeamState
atomic_write Write.written state file = (ok state, some (stored state))
atomic_write Write.failed state file = (err Failure.storage, file)
atomic_write Write.failed_after_replace state file = (err Failure.storage, some (stored state))

-- What a swap meets: whether the lock of the state is busy, what the lease file holds when the fence is
-- checked (its own lock is not held, so it may change before and after), the time at that check, the
-- time of the commit, and how the write ends.
pub record Swap : Type 0 where
  pub busy : Bool
  pub lease_read : Option TeamLeadLeaseRecord
  pub checked_at : Time
  pub now : Time
  pub write : Write

-- compare_and_swap up to its write: the state to commit
unfoldable pub committed_state :
    TeamName → Swap → ℕ → Text × ℕ → TeamState → Option TeamState → Outcome Failure TeamState
committed_state name swap expected_revision lease_fence candidate file = do
  raise_if swap.busy Failure.conflict
  current ← load_state name file
  raise_if (not (current.revision == expected_revision)) Failure.conflict
  validate_fence swap.lease_read current.manifest.team_id lease_fence swap.checked_at
  raise_if (not (candidate.manifest.team_id == current.manifest.team_id)) Failure.validation
  raise_if
      (not (candidate.revision == expected_revision || candidate.revision == expected_revision + 1))
      Failure.validation
  let committed = record candidate { revision = expected_revision + 1; updated_at = swap.now }
  validate committed
  ok committed

-- compare_and_swap: what is returned or raised, and the state file after it
unfoldable pub compare_and_swap :
    TeamName
    → Swap
    → ℕ
    → Text × ℕ
    → TeamState
    → Option TeamState
    → Outcome Failure TeamState × Option TeamState
compare_and_swap name swap expected_revision lease_fence candidate file =
    elim (committed_state name swap expected_revision lease_fence candidate file) [
      | err e ↦ (err e, file)
      | ok committed ↦ atomic_write swap.write committed file
    ]

-- What happens around one attempt: what other processes write between the load and the swap, and what
-- the swap meets.
pub record Attempt : Type 0 where
  pub interference : Disk → Disk
  pub swap : Swap

abbrev pub is_conflict : Failure → Bool
is_conflict Failure.conflict = true
is_conflict _ = false

-- TeamMutationRunner.run over its attempts; an exception other than the conflict ends the loop.
-- The result is what is returned or raised, and the disk after it.
unfoldable pub run :
    TeamName
    → Text × ℕ
    → (TeamState → Outcome Failure TeamState)
    → List Attempt
    → Disk
    → Outcome Failure TeamState × Disk
run name fence transform [] disk = (err Failure.conflict, disk)
run name fence transform (attempt ∷ attempts) disk =
    let disturbed = attempt.interference disk in
    let prepared : Outcome Failure (TeamState × TeamState) = (do
      current ← load name disk
      candidate ← transform current
      ok (current, candidate)) in
    elim prepared [
      | err e ↦ (err e, disk)
      | ok (current, candidate) ↦
          let (returned, file) =
            compare_and_swap name attempt.swap current.revision fence candidate
              disturbed.state_file in
          let after = record disturbed { state_file = file } in
          let again = run name fence transform attempts after in
          elim returned [
            | ok committed ↦ (ok committed, after)
            | err e ↦ if is_conflict e then again else (err e, after)
          ]
    ]
