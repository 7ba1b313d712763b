-- ===== src/Teams/TaskService/Batch.antt =====
-- src/mewcode/teams/tasks.py: the order of a batch of tasks and its publication.
pub mod Order
pub mod Total
pub mod Again
use mew_code.Prelude.{
  ℕ, zero, suc, Bool, true, false, ◌&&◌, ◌||◌, not, Option, none, some, List, [], ◌∷◌, ◌++◌, map,
  length, any, all, contains, distinct, ltb, ◌==◌, nat_eq, keep, Outcome, ok, err, ◌>>=◌, ◌>>◌,
  raise_if, or_raise, if◌then◌else◌,
}
use mew_code.Prelude.Dict.{Dict, lookup, has}
use mew_code.Prelude.Sort.{sort_with}
use mew_code.Prelude.Text.{Text, text_eq, texts_eq, text_less}
use mew_code.Teams.Models.{Time, TeamName, TeamState, TeamActor, TeamTask, TeamTaskView, Failure}
use mew_code.Teams.Tasks.{create_task, is_lead}
use mew_code.Teams.Repository.{Disk, Attempt, load, run}

pub data DeliveryKind : Type 0 where
  git no_git : DeliveryKind

pub record CoordinatorTaskSpec : Type 0 where
  pub local_id : Text
  pub task_id : Text
  pub ordinal : ℕ
  pub title : Text
  pub description : Text
  pub dependency_local_ids : List Text
  pub dependency_task_ids : List Text
  pub target_member_id : Option Text
  pub required_role : Option Text
  pub required_tool_names : List Text
  pub acceptance_criteria : List Text
  pub delivery_kind : DeliveryKind

abbrev pub Specs : Type 0
Specs = List CoordinatorTaskSpec

abbrev pub local_ids : Specs → List Text
local_ids specs = map (λ s. s.local_id) specs

-- key=lambda item: (item.ordinal, item.task_id)
abbrev pub before : CoordinatorTaskSpec → CoordinatorTaskSpec → Bool
before s t = ltb s.ordinal t.ordinal || (s.ordinal == t.ordinal && text_less s.task_id t.task_id)

-- set(by_local[item].dependency_local_ids) <= completed
unfoldable pub is_ready : List Text → CoordinatorTaskSpec → Bool
is_ready completed spec = all (λ d. contains completed d) spec.dependency_local_ids

abbrev pub is_nil : Specs → Bool
is_nil [] = true
is_nil (s ∷ specs) = false

-- The loop of `_ordered_specs`, on fuel. A set is a list of its elements: those pending are kept in the
-- order given, and the order of the ready ones is that of their keys.
unfoldable pub order_from : ℕ → Specs → List Text → Outcome Failure Specs
order_from fuel [] completed = ok []
order_from zero (s ∷ pending) completed = err Failure.recursion
order_from (suc fuel) (s ∷ pending) completed =
    let ready = sort_with before (keep (is_ready completed) (s ∷ pending)) in
    let later =
      order_from fuel (keep (λ t. not (is_ready completed t)) (s ∷ pending))
        (completed ++ local_ids ready) in
    if is_nil ready then err Failure.validation else later >>= λ rest. ok (ready ++ rest)

-- _ordered_specs
unfoldable pub ordered_specs : Specs → Outcome Failure Specs
ordered_specs specs = do
  raise_if (is_nil specs) Failure.validation
  raise_if (not (distinct (local_ids specs)) || not (distinct (map (λ s. s.task_id) specs)))
      Failure.validation
  raise_if (any (λ s. any (λ d. not (contains (local_ids specs) d)) s.dependency_local_ids) specs)
      Failure.validation
  order_from (length specs) specs []

-- _validate_existing_batch
unfoldable pub validate_existing_batch : TeamState → TeamActor → Specs → Outcome Failure (Unit {0})
validate_existing_batch state actor [] = ok tt
validate_existing_batch state actor (spec ∷ specs) = do
  task ← or_raise (lookup spec.task_id state.tasks) Failure.key_error
  raise_if
      (not (task.title == spec.title)
        || not (task.description == spec.description)
        || not (task.dependency_ids == spec.dependency_task_ids)
        || not (task.created_by == actor.participant_id))
      Failure.validation
  validate_existing_batch state actor specs

-- The loop of `transform` over the ordered specs
unfoldable pub create_all : TeamActor → Time → Specs → TeamState → Outcome Failure TeamState
create_all actor created_at [] candidate = ok candidate
create_all actor created_at (spec ∷ specs) candidate = do
  created ←
      create_task candidate actor spec.task_id spec.title spec.description spec.dependency_task_ids
        created_at
  create_all actor created_at specs created.0

-- `transform` of `create_batch`
unfoldable pub publish : TeamActor → Time → Specs → TeamState → Outcome Failure TeamState
publish actor created_at ordered state =
    let existing = keep (λ s. has s.task_id state.tasks) ordered in
    let created = create_all actor created_at ordered state in
    let kept : Outcome Failure TeamState = (do
      raise_if (not (length existing == length ordered)) Failure.validation
      validate_existing_batch state actor ordered
      ok state) in
    if is_nil existing then created else kept
