-- ===== src/Agent/Calls.antt =====
-- src/mewcode/agent/scheduler.py: the data of a schedule, and how a call that ends is recorded.
-- What the world does at a call is given by `Circumstances`. The events are those that the schedule
-- yields but those of a control tool's operation, with the calls of the hooks after a tool among them.
-- The hooks return, but where they run in the task of a call.
use mew_code.Prelude.{
  ℕ, Bool, true, false, Option, none, some, List, [], ◌∷◌, ◌++◌, take, Outcome, ok, err,
  if◌then◌else◌,
}
use mew_code.Prelude.Dict.{lookup}
use mew_code.Prelude.Text.{Text, text_eq, codes}
use mew_code.Permissions.Models.{
  PermissionChoice, PermissionDecision, PermissionOutcome, PermissionRule, PermissionRuleSets,
  PermissionTarget,
}
use mew_code.Permissions.Rules.{RuleFailure}
use mew_code.Permissions.Controller.{Built, ChoiceFailure}
use mew_code.Tools.{
  ErrorText, MetadataValue, ToolResult, ToolCallRequest, ToolExecution, ValidatedToolCall, Ran,
  failed_result,
}

-- A control tool's operation gives a result, is cancelled, or raises.
pub data ControlEnd : Type 0 where
  finished : ToolResult → ControlEnd
  stopped broke : ControlEnd

-- The task of a call gives its execution; or it is cancelled where `_run_one` does not catch it, before
-- its first step or during the hooks after the tool; or it raises.
pub data TaskEnd : Type 0 where
  returns lost broke : TaskEnd

-- What happens at a call: whether `cancel` was called before its turn, what the target builder gives,
-- the policy, a hook's denial, how a control tool's operation ends, the user's choice (none is the
-- cancelled challenge), what the rule file gives, how the tool runs, and how its task ends. The tool is
-- stopped also where the cancellation of another call, or of the schedule, ends it.
pub record Circumstances : Type 0 where
  pub cancel_called : Bool
  pub built : Built
  pub policy_allowed : Bool
  pub hook_denial : Option Text
  pub control_end : ControlEnd
  pub choice : Option PermissionChoice
  pub persisted : Option (List PermissionRule)
  pub ran : Ran
  pub task_end : TaskEnd

-- The status that the hooks after a tool are told
pub data Status : Type 0 where
  cancelled failure denied success : Status

pub data AgentEvent : Type 0 where
  batch_started batch_completed : ℕ → ℕ → AgentEvent
  permission_request : ℕ → PermissionTarget → AgentEvent
  permission_decision : ℕ → PermissionDecision → AgentEvent
  hook_after : ℕ → Status → AgentEvent
  tool_result : ToolExecution → AgentEvent

-- The local variables of `events` and the fields that it changes; `rules` is the rule store.
pub record Run : Type 0 where
  pub completed : List ToolExecution
  pub events : List AgentEvent
  pub cancel_requested : Bool
  pub rules : PermissionRuleSets

pub record PreparedCall : Type 0 where
  pub index : ℕ
  pub call : ValidatedToolCall

pub data ScheduleError : Type 0 where
  rule_failure : RuleFailure → ScheduleError
  choice_failure : ChoiceFailure → ScheduleError
  state_error task_cancelled task_failure control_failure : ScheduleError

abbrev pub rule_raised {ℓ} : {A : Type ℓ} → Outcome RuleFailure A → Outcome ScheduleError A
rule_raised (ok a) = ok a
rule_raised (err e) = err (ScheduleError.rule_failure e)

abbrev pub choice_raised {ℓ} : {A : Type ℓ} → Outcome ChoiceFailure A → Outcome ScheduleError A
choice_raised (ok a) = ok a
choice_raised (err e) = err (ScheduleError.choice_failure e)

-- _cancelled_result
unfoldable pub cancelled_result : ToolCallRequest → ToolResult
cancelled_result request = failed_result request.name ErrorText.cancelled_call (
    (codes "tool_call_id", MetadataValue.text request.id)
    ∷ (codes "cancelled", MetadataValue.flag true)
    ∷ [])

-- _permission_denied_result; the mapping under "permission" is left out
unfoldable pub permission_denied_result : ToolCallRequest → PermissionDecision → ToolResult
permission_denied_result request d =
    failed_result request.name (ErrorText.permission_denied d.source) (
      (codes "tool_call_id", MetadataValue.text request.id)
      ∷ (codes "permission_denied", MetadataValue.flag true)
      ∷ (codes "permission_source", MetadataValue.source d.source)
      ∷ [])

-- _hook_denied_result
unfoldable pub hook_denied_result : ToolCallRequest → Text → ToolResult
hook_denied_result request reason =
    let bounded = take 2048 reason in
    failed_result request.name (ErrorText.hook_denied bounded) (
      (codes "tool_call_id", MetadataValue.text request.id)
      ∷ (codes "hook_denied", MetadataValue.flag true)
      ∷ (codes "hook_reason", MetadataValue.text bounded)
      ∷ [])

-- result.metadata.get("cancelled"), as a truth value; no other flag is false in it
abbrev is_flagged : Option MetadataValue → Bool
is_flagged none = false
is_flagged (some (MetadataValue.flag b)) = b
is_flagged (some _) = true

unfoldable pub status_of : ToolResult → Status
status_of result =
    if is_flagged (lookup (codes "cancelled") result.metadata)
    then Status.cancelled
    else if result.is_ok
    then Status.success
    else Status.failure

-- _dispatch_after, the append to `completed`, and the result's event
unfoldable pub complete_call : ℕ → ToolCallRequest → ToolResult → Status → Run → Run
complete_call index request result status run =
    let execution : ToolExecution = record { index = index; request = request; result = result } in
    record run {
      completed = run.completed ++ execution ∷ [];
      events =
          run.events
          ++ (AgentEvent.hook_after index status ∷ (AgentEvent.tool_result execution ∷ []));
    }

abbrev pub emit : AgentEvent → Run → Run
emit event run = record run { events = run.events ++ event ∷ [] }

abbrev pub is_deny : PermissionOutcome → Bool
is_deny PermissionOutcome.deny = true
is_deny _ = false

abbrev pub is_ask : PermissionOutcome → Bool
is_ask PermissionOutcome.ask = true
is_ask _ = false
