-- ===== src/Teams/TaskService.antt =====
-- src/mewcode/teams/tasks.py: TeamTaskService over the state transitions and the mutation runner.
-- The readings of the clock and of the identifiers are arguments. A conflict repeats a transformation
-- with new readings; those of the model are the readings of the attempt that ends the loop.
pub mod Batch
pub mod Publish
pub mod Notices
pub mod Titles
pub mod Keeps
use mew_code.Prelude.{
  ℕ, Bool, true, false, ◌&&◌, ◌||◌, not, Option, none, some, List, [], ◌∷◌, ◌++◌, length, any, all,
  contains, ltb, ◌==◌, nat_eq, option_eq, keep, Outcome, ok, err, ◌>>=◌, ◌>>◌, raise_if, or_raise,
  if◌then◌else◌,
}
use mew_code.Prelude.Dict.{Dict, lookup, values, has}
use mew_code.Prelude.Sort.{sort_with}
use mew_code.Prelude.Text.{Text, text_eq, text_less, codes}
use mew_code.Teams.Models.{
  Time, TeamName, TeamState, TeamActor, TeamTask, TeamTaskStatus, TeamTaskView, TeamProtocol,
  PayloadValue, MailboxRegistration, Failure, terminal,
}
use mew_code.Teams.Tasks.{task_view, create_task, update_task}
use mew_code.Teams.TaskFlow.{assign_task, claim_task, transition_task, delete_task}
use mew_code.Teams.Repository.{Disk, Attempt, load, run, participant_ids}
use mew_code.Teams.Outbox.{Readings, message, append_outbox, find_lead}

-- _member_id; `casefold` is that of Python's str
unfoldable pub member_id_of : (Text → Text) → TeamState → Text → Outcome Failure Text
member_id_of casefold state member_name = do
  registration ← or_raise (lookup (casefold member_name) state.registry) Failure.validation
  raise_if (registration.is_lead || not (has registration.participant_id state.members))
      Failure.validation
  ok registration.participant_id

-- _validate_actor
unfoldable pub validate_actor : TeamState → TeamActor → Outcome Failure (Unit {0})
validate_actor state actor = do
  raise_if (not (actor.team_id == state.manifest.team_id)) Failure.validation
  raise_if (not (contains (participant_ids state) actor.participant_id)) Failure.validation

-- `except KeyError`
abbrev pub without_key_error {ℓ} : {A : Type ℓ} → Outcome Failure A → Outcome Failure A
without_key_error (err Failure.key_error) = err Failure.validation
without_key_error m = m

-- domain.task_view(state, state.tasks[task_id])
unfoldable pub view_of : TeamState → Text → Outcome Failure TeamTaskView
view_of state task_id = do
  task ← or_raise (lookup task_id state.tasks) Failure.key_error
  task_view state task

abbrev pub Returned {ℓ} : Type ℓ → Type ℓ
Returned A = Outcome Failure A × Disk

-- _change
unfoldable pub change :
    TeamName
    → TeamActor
    → Text
    → (TeamState → Outcome Failure TeamState)
    → List Attempt
    → Disk
    → Returned TeamTaskView
change team actor task_id transform attempts disk =
    let (returned, after) = run team actor.lease_fence transform attempts disk in
    (returned >>= λ committed. without_key_error (view_of committed task_id), after)

-- The state of an operation that returns it with a view.
abbrev pub state_of {ℓ} : {A : Type ℓ} → Outcome Failure (TeamState × A) → Outcome Failure TeamState
state_of m = m >>= λ out. ok out.0

unfoldable pub create :
    TeamName
    → TeamActor
    → Text
    → Text
    → Text
    → List Text
    → Time
    → List Attempt
    → Disk
    → Returned TeamTaskView
create team actor task_id title description dependency_ids now attempts disk =
    let transform : TeamState → Outcome Failure TeamState =
      λ state. state_of (create_task state actor task_id title description dependency_ids now) in
    let (returned, after) = run team actor.lease_fence transform attempts disk in
    (returned >>= λ committed. view_of committed task_id, after)

unfoldable pub get : TeamName → TeamActor → Text → Disk → Outcome Failure TeamTaskView
get team actor task_id disk = do
  state ← load team disk
  validate_actor state actor
  without_key_error (view_of state task_id)

abbrev is_status : TeamTaskStatus → TeamTaskStatus → Bool
is_status TeamTaskStatus.pending TeamTaskStatus.pending = true
is_status TeamTaskStatus.in_progress TeamTaskStatus.in_progress = true
is_status TeamTaskStatus.completed TeamTaskStatus.completed = true
is_status TeamTaskStatus.failed TeamTaskStatus.failed = true
is_status TeamTaskStatus.cancelled TeamTaskStatus.cancelled = true
is_status _ _ = false

abbrev is_listed : Option TeamTaskStatus → Option Text → TeamTask → Bool
is_listed none none task = true
is_listed (some status) none task = is_status task.status status
is_listed none (some assignee) task = task.assignee_id == some assignee
is_listed (some status) (some assignee) task =
    is_status task.status status && task.assignee_id == some assignee

abbrev older : TeamTaskView → TeamTaskView → Bool
older v w =
    ltb v.task.created_at w.task.created_at
    || (v.task.created_at == w.task.created_at && text_less v.task.task_id w.task.task_id)

unfoldable pub views : TeamState → List TeamTask → Outcome Failure (List TeamTaskView)
views state [] = ok []
views state (task ∷ tasks) = do
  view ← task_view state task
  rest ← views state tasks
  ok (view ∷ rest)

unfoldable pub list :
    TeamName
    → TeamActor
    → Option TeamTaskStatus
    → Option Text
    → Disk
    → Outcome Failure (List TeamTaskView)
list team actor status assignee disk = do
  state ← load team disk
  validate_actor state actor
  found ← views state (keep (is_listed status assignee) (values state.tasks))
  ok (sort_with older found)

unfoldable pub update :
    TeamName
    → TeamActor
    → Text
    → ℕ
    → Option Text
    → Option Text
    → Option (List Text)
    → Time
    → List Attempt
    → Disk
    → Returned TeamTaskView
update team actor task_id expected_revision title description dependency_ids now attempts disk =
    change team actor task_id
      (λ state.
        state_of
          (update_task state actor task_id expected_revision now title description dependency_ids))
      attempts disk

abbrev pub assignment : TeamActor → TeamTaskView → Text → Dict Text PayloadValue
assignment actor view task_id =
    (codes "task_id", PayloadValue.str task_id)
    ∷ (codes "task_revision", PayloadValue.int view.task.revision)
    ∷ (codes "assigned_by", PayloadValue.str actor.participant_id)
    ∷ []

-- `transform` of `assign`
unfoldable pub assign_and_tell :
    (Text → Text) → TeamActor → Text → Text → ℕ → Readings → TeamState → Outcome Failure TeamState
assign_and_tell casefold actor task_id member_name expected_revision r state = do
  member_id ← member_id_of casefold state member_name
  changed ← assign_task state actor task_id member_id expected_revision r.now
  let title = changed.1.task.title
  told ←
      message r actor.participant_id member_id (codes "Task assigned: " ++ title)
        changed.1.task.description TeamProtocol.task_assignment (assignment actor changed.1 task_id)
  append_outbox r changed.0 told

unfoldable pub assign :
    (Text → Text)
    → TeamName
    → TeamActor
    → Text
    → Text
    → ℕ
    → Readings
    → List Attempt
    → Disk
    → Returned TeamTaskView
assign casefold team actor task_id member_name expected_revision r attempts disk =
    change team actor task_id
      (assign_and_tell casefold actor task_id member_name expected_revision r) attempts disk

unfoldable pub claim :
    TeamName → TeamActor → Text → ℕ → Time → List Attempt → Disk → Returned TeamTaskView
claim team actor task_id expected_revision now attempts disk =
    change team actor task_id
      (λ state. state_of (claim_task state actor task_id expected_revision now)) attempts disk

-- status.value
abbrev pub status_value : TeamTaskStatus → Text
status_value TeamTaskStatus.pending = codes "pending"
status_value TeamTaskStatus.in_progress = codes "in_progress"
status_value TeamTaskStatus.completed = codes "completed"
status_value TeamTaskStatus.failed = codes "failed"
status_value TeamTaskStatus.cancelled = codes "cancelled"

abbrev pub status_change : TeamTaskView → Text → TeamTaskStatus → Dict Text PayloadValue
status_change view task_id status =
    (codes "task_id", PayloadValue.str task_id)
    ∷ (codes "task_revision", PayloadValue.int view.task.revision)
    ∷ (codes "status", PayloadValue.str (status_value status))
    ∷ []

-- `transform` of `transition`
unfoldable pub transition_and_tell :
    TeamActor → Text → TeamTaskStatus → ℕ → Text → Readings → TeamState → Outcome Failure TeamState
transition_and_tell actor task_id status expected_revision result r state = do
  changed ← transition_task state actor task_id status expected_revision result r.now
  let told : Outcome Failure TeamState = (do
    lead_id ← find_lead state
    m ←
        message r actor.participant_id lead_id
          (codes "Task " ++ (status_value status ++ (codes ": " ++ changed.1.task.title))) result
          TeamProtocol.task_status (status_change changed.1 task_id status)
    append_outbox r changed.0 m)
  if terminal status then told else ok changed.0

unfoldable pub transition :
    TeamName
    → TeamActor
    → Text
    → TeamTaskStatus
    → ℕ
    → Text
    → Readings
    → List Attempt
    → Disk
    → Returned TeamTaskView
transition team actor task_id status expected_revision result r attempts disk =
    change team actor task_id (transition_and_tell actor task_id status expected_revision result r)
      attempts disk

unfoldable pub delete :
    TeamName → TeamActor → Text → ℕ → Time → List Attempt → Disk → Returned (Unit {0})
delete team actor task_id expected_revision now attempts disk =
    let (returned, after) =
      run team actor.lease_fence (λ state. delete_task state actor task_id expected_revision now)
        attempts disk in
    (returned >>= λ committed. ok tt, after)
