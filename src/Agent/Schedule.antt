-- ===== src/Agent/Schedule.antt =====
-- src/mewcode/agent/scheduler.py: ToolSchedule, which runs the tool calls of one turn of the agent in
-- batches. The order in which the tasks of a batch end is given by a function.
pub mod Partition
pub mod Complete
pub mod Kept
pub mod Once
pub mod Returns
use mew_code.Prelude.{
  ℕ, zero, suc, Bool, true, false, not, ◌&&◌, ◌||◌, Option, none, some, List, [], ◌∷◌, ◌++◌, map,
  any, length, take, Outcome, ok, err, ◌>>=◌, ◌>>◌, if◌then◌else◌,
}
use mew_code.Prelude.Dict.{Dict, lookup}
use mew_code.Prelude.Sort.{sort_by}
use mew_code.Prelude.Text.{Text, text_eq, codes}
use mew_code.Glob.{Platform}
use mew_code.Permissions.Models.{
  PermissionChoice, PermissionDecision, PermissionMode, PermissionOutcome, PermissionRule,
  PermissionRuleSets, PermissionSource, PermissionTarget,
}
use mew_code.Permissions.Rules.{RuleFailure}
use mew_code.Permissions.Controller.{
  Built, ChoiceFailure, decision, evaluate_preflight, apply_choice,
}
use mew_code.Tools.{
  ErrorText, MetadataValue, ToolResult, ToolCallRequest, ToolSafety, ToolExecution, Tool,
  ToolRegistry, ValidatedToolCall, Ran, failed_result, validate_call, execute_validated,
}
use mew_code.Agent.Calls.{
  Circumstances, TaskEnd, Status, AgentEvent, Run, PreparedCall, ScheduleError, rule_raised,
  choice_raised, cancelled_result, permission_denied_result, hook_denied_result, status_of,
  complete_call, emit,
}
use mew_code.Agent.Prepare.{
  Prepared, deny_call, decided, ask_user, evaluate_call, control_call, policy_denial, gate_call,
  prepare_call,
}

abbrev pub Batch : Type 0
Batch = List (ℕ × ToolCallRequest)

abbrev safe : ToolSafety → Bool
safe ToolSafety.read_only = true
safe ToolSafety.side_effect = false

unfoldable pub is_read_only : ToolRegistry → ToolCallRequest → Bool
is_read_only registry request = elim (lookup request.name registry) [
  | none ↦ false
  | some tool ↦ safe tool.safety
]

-- `if read_batch: batches.append(read_batch)`
unfoldable pub flush : Batch → List Batch
flush [] = []
flush (item ∷ batch) = (item ∷ batch) ∷ []

-- The loop of `_partition`: the read batch so far, the index, and the requests left.
unfoldable pub partition_from : ToolRegistry → Batch → ℕ → List ToolCallRequest → List Batch
partition_from registry read_batch index [] = flush read_batch
partition_from registry read_batch index (request ∷ requests) =
    let reads = is_read_only registry request in
    let item : ℕ × ToolCallRequest = (index, request) in
    let rest =
      partition_from registry (if reads then read_batch ++ item ∷ [] else []) (suc index)
        requests in
    if reads then rest else flush read_batch ++ ((item ∷ []) ∷ rest)

unfoldable pub partition : ToolRegistry → List ToolCallRequest → List Batch
partition registry requests = partition_from registry [] 0 requests

unfoldable pub is_read_batch : ToolRegistry → Batch → Bool
is_read_batch registry [] = false
is_read_batch registry ((index, request) ∷ batch) = is_read_only registry request

-- The first loop of a batch
unfoldable pub prepare_batch :
    Platform
    → PermissionMode
    → ToolRegistry
    → (ℕ → Circumstances)
    → Batch
    → Run
    → Outcome ScheduleError (Run × List PreparedCall)
prepare_batch platform mode registry world [] run = ok (run, [])
prepare_batch platform mode registry world ((index, request) ∷ batch) run = do
  prepared ← prepare_call platform mode registry (world index) index request run
  rest ← prepare_batch platform mode registry world batch prepared.0
  ok (rest.0, elim prepared.1 [ none ↦ rest.1 | some call ↦ call ∷ rest.1 ])

-- The execution of `_run_one`. It does not run once the cancellation was asked for, and a cancelled tool
-- asks for it.
unfoldable pub execution_of : Bool → Circumstances → PreparedCall → ToolExecution
execution_of cancel_requested c prepared =
    let call = prepared.call in
    let ran : ToolResult = elim (execute_validated call c.ran) [
      | none ↦ cancelled_result call.request
      | some result ↦ result
    ] in
    record {
      index = prepared.index;
      request = call.request;
      result = if cancel_requested then cancelled_result call.request else ran;
    }

-- How the task of `_run_one` ends
pub data Ended : Type 0 where
  execution : ToolExecution → Ended
  cancelled raised : Ended

unfoldable pub run_one : Bool → Circumstances → PreparedCall → Ended
run_one cancel_requested c prepared = elim c.task_end [
  | TaskEnd.returns ↦ Ended.execution (execution_of cancel_requested c prepared)
  | TaskEnd.lost ↦ Ended.cancelled
  | TaskEnd.broke ↦ Ended.raised
]

-- What the gather of the tasks left has of executions
unfoldable pub gathered : List Ended → List ToolExecution
gathered [] = []
gathered (Ended.execution e ∷ ends) = e ∷ gathered ends
gathered (_ ∷ ends) = gathered ends

-- The loop of `_run_read_batch` over the tasks in the order in which they end, with whether a task was
-- cancelled: the executions of the others are then gathered, and its own is lost.
unfoldable pub read_executions : List Ended → Outcome ScheduleError (List ToolExecution × Bool)
read_executions [] = ok ([], false)
read_executions (Ended.execution e ∷ ends) = do rest ← read_executions ends; ok (e ∷ rest.0, rest.1)
read_executions (Ended.cancelled ∷ ends) = ok (gathered ends, true)
read_executions (Ended.raised ∷ ends) = err ScheduleError.task_failure

-- _run_serial
unfoldable pub serial_execution : Ended → Outcome ScheduleError (List ToolExecution × Bool)
serial_execution (Ended.execution e) = ok (e ∷ [], false)
serial_execution Ended.cancelled = err ScheduleError.task_cancelled
serial_execution Ended.raised = err ScheduleError.task_failure

abbrev pub stops : Ran → Bool
stops Ran.stopped = true
stops _ = false

-- completed.append(execution) and the events of each execution in turn
unfoldable pub complete_all : List ToolExecution → Run → Run
complete_all [] run = run
complete_all (e ∷ es) run =
    complete_all es (complete_call e.index e.request e.result (status_of e.result) run)

-- The run after the started tasks of a batch, with their executions and whether one was cancelled
abbrev pub after_tasks :
    (ℕ → Circumstances) → List PreparedCall → List ToolExecution × Bool → Run → Run
after_tasks world started (es, cut) run = complete_all es (record run {
  cancel_requested = run.cancel_requested || (cut || any (λ p. stops (world p.index).ran) started);
})

-- _run_read_batch, where the tasks end in the given order; or _run_serial of the first one
unfoldable pub run_prepared :
    ToolRegistry
    → (ℕ → Circumstances)
    → (List PreparedCall → List PreparedCall)
    → Batch
    → List PreparedCall
    → Run
    → Outcome ScheduleError Run
run_prepared registry world order batch [] run = ok run
run_prepared registry world order batch (first ∷ others) run = do
  let one : PreparedCall → Ended = λ p. run_one run.cancel_requested (world p.index) p
  let reads = is_read_batch registry batch
  let started = if reads then order (first ∷ others) else first ∷ []
  ended ← if reads then read_executions (map one started) else serial_execution (one first)
  ok (after_tasks world started ended run)

-- The loop of `events` over the batches
unfoldable pub run_batches :
    Platform
    → PermissionMode
    → ToolRegistry
    → (ℕ → Circumstances)
    → (List PreparedCall → List PreparedCall)
    → ℕ
    → List Batch
    → Run
    → Outcome ScheduleError Run
run_batches platform mode registry world order total [] run = ok run
run_batches platform mode registry world order total (batch ∷ batches) run = do
  let started = emit (AgentEvent.batch_started (length run.completed) total) run
  prepared ← prepare_batch platform mode registry world batch started
  ended ← run_prepared registry world order batch prepared.1 prepared.0
  run_batches platform mode registry world order total batches
      (emit (AgentEvent.batch_completed (length ended.completed) total) ended)

pub data ScheduleState : Type 0 where
  new running complete failed : ScheduleState

-- The fields of ToolSchedule that outlive `events`
pub record ToolSchedule : Type 0 where
  pub state : ScheduleState
  pub requests : List ToolCallRequest
  pub executions_of : Option (List ToolExecution)
  pub cancel_requested : Bool

-- ToolSchedule(...)
abbrev pub new_schedule : List ToolCallRequest → ToolSchedule
new_schedule requests = record {
  state = ScheduleState.new;
  requests = requests;
  executions_of = none;
  cancel_requested = false;
}

abbrev pub is_new : ScheduleState → Bool
is_new ScheduleState.new = true
is_new _ = false

-- The end of `events`: complete with the sorted executions, or failed with what was raised. The run is
-- there where nothing was raised.
unfoldable pub end_events :
    ToolSchedule → Outcome ScheduleError Run → ToolSchedule × Outcome ScheduleError Run
end_events schedule (err e) =
    (record schedule { state = ScheduleState.failed; cancel_requested = true }, err e)
end_events schedule (ok run) = (
  record schedule {
    state = ScheduleState.complete;
    executions_of = some (sort_by (λ e. e.index) run.completed);
    cancel_requested = run.cancel_requested;
  },
  ok run,
)

unfoldable pub events :
    Platform
    → PermissionMode
    → ToolRegistry
    → (ℕ → Circumstances)
    → (List PreparedCall → List PreparedCall)
    → PermissionRuleSets
    → ToolSchedule
    → ToolSchedule × Outcome ScheduleError Run
events platform mode registry world order rules schedule =
    let started : Run = record {
      completed = [];
      events = [];
      cancel_requested = schedule.cancel_requested;
      rules = rules;
    } in
    let ended = end_events schedule (
      run_batches platform mode registry world order (length schedule.requests)
        (partition registry schedule.requests) started) in
    if is_new schedule.state then ended else (schedule, err ScheduleError.state_error)

-- The property `executions`
unfoldable pub executions : ToolSchedule → Outcome ScheduleError (List ToolExecution)
executions schedule = elim schedule.state [
  | ScheduleState.complete ↦ elim schedule.executions_of [
    | some es ↦ ok es
    | none ↦ err ScheduleError.state_error
  ]
  | _ ↦ err ScheduleError.state_error
]
