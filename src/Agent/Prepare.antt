-- ===== src/Agent/Prepare.antt =====
-- src/mewcode/agent/scheduler.py: the first loop of a batch, which decides whether a call runs. The
-- permission controller is the one of src/mewcode/permissions; a hook runtime is there, without hooks
-- it denies nothing.
pub mod Records
pub mod Returns
pub mod Gates
use mew_code.Prelude.{
  ℕ, true, not, ◌||◌, Option, none, some, Outcome, ok, err, ◌>>=◌, if◌then◌else◌,
}
use mew_code.Prelude.Text.{text_eq}
use mew_code.Glob.{Platform}
use mew_code.Permissions.Models.{
  PermissionDecision, PermissionMode, PermissionOutcome, PermissionSource, PermissionTarget,
}
use mew_code.Permissions.Controller.{Built, decision, evaluate_preflight, apply_choice}
use mew_code.Tools.{ToolCallRequest, ToolRegistry, ValidatedToolCall, validate_call}
use mew_code.Agent.Calls.{
  Circumstances, ControlEnd, Status, AgentEvent, Run, PreparedCall, ScheduleError, rule_raised,
  choice_raised, cancelled_result, permission_denied_result, hook_denied_result, status_of,
  complete_call, emit, is_deny, is_ask,
}

-- What a call comes to in the first loop of a batch: the run after it, and the call if it is to run.
abbrev pub Prepared : Type 0
Prepared = Run × Option PreparedCall

-- A denial with its decision's event
unfoldable pub deny_call : ℕ → ToolCallRequest → PermissionDecision → Run → Prepared
deny_call index request d run = (
  complete_call index request (permission_denied_result request d) Status.denied
      (emit (AgentEvent.permission_decision index d) run),
  none,
)

-- The last part: the decision is known.
unfoldable pub decided : ℕ → ValidatedToolCall → PermissionDecision → Run → Prepared
decided index call d run = if is_deny d.outcome then deny_call index call.request d run else (
  emit (AgentEvent.permission_decision index d) run,
  some (record { index = index; call = call }),
)

-- The challenge: a choice, or its cancellation, which cancels the schedule.
unfoldable pub ask_user :
    Circumstances
    → ℕ
    → ValidatedToolCall
    → PermissionTarget
    → PermissionDecision
    → Run
    → Outcome ScheduleError Prepared
ask_user c index call target d run =
    let asked = emit (AgentEvent.permission_request index target) run in
    elim c.choice [
      | none ↦ ok (
        complete_call index call.request (cancelled_result call.request) Status.cancelled
            (record asked { cancel_requested = true }),
        none,
      )
      | some choice ↦ choice_raised (apply_choice c.persisted d choice run.rules) >>= λ applied.
          ok (decided index call applied.0 (record asked { rules = applied.1 }))
    ]

unfoldable pub evaluate_call :
    Platform
    → PermissionMode
    → Circumstances
    → ℕ
    → ValidatedToolCall
    → PermissionTarget
    → Run
    → Outcome ScheduleError Prepared
evaluate_call platform mode c index call target run = do
  d ← rule_raised (evaluate_preflight platform mode run.rules target)
  if is_ask d.outcome then ask_user c index call target d run else ok (decided index call d run)

-- A control tool runs here, its result is the operation's; what else the operation raises ends the
-- schedule.
unfoldable pub control_call :
    Circumstances → ℕ → ValidatedToolCall → Run → Outcome ScheduleError Prepared
control_call c index call run = elim c.control_end [
  | ControlEnd.finished result ↦
      ok (complete_call index call.request result (status_of result) run, none)
  | ControlEnd.stopped ↦ ok (
    complete_call index call.request (cancelled_result call.request) Status.cancelled
        (record run { cancel_requested = true }),
    none,
  )
  | ControlEnd.broke ↦ err ScheduleError.control_failure
]

abbrev pub policy_denial : PermissionTarget → PermissionDecision
policy_denial target = decision PermissionOutcome.deny target PermissionSource.subagent_policy none

-- The policy and the hooks, for a call with a target.
unfoldable pub gate_call :
    Platform
    → PermissionMode
    → Circumstances
    → ℕ
    → ValidatedToolCall
    → PermissionTarget
    → Run
    → Outcome ScheduleError Prepared
gate_call platform mode c index call target run =
    let evaluated = evaluate_call platform mode c index call target run in
    if not c.policy_allowed
    then ok (deny_call index call.request (policy_denial target) run)
    else elim c.hook_denial [
      | some reason ↦ ok (
        complete_call index call.request (hook_denied_result call.request reason) Status.denied run,
        none,
      )
      | none ↦ if call.tool.is_control then control_call c index call run else evaluated
    ]

-- The body of the first loop of a batch
unfoldable pub prepare_call :
    Platform
    → PermissionMode
    → ToolRegistry
    → Circumstances
    → ℕ
    → ToolCallRequest
    → Run
    → Outcome ScheduleError Prepared
prepare_call platform mode registry c index request before =
    let run = record before { cancel_requested = before.cancel_requested || c.cancel_called } in
    let prepared : Outcome ScheduleError Prepared = elim (validate_call registry request) [
      | err result ↦ ok (complete_call index request result Status.failure run, none)
      | ok call ↦ elim c.built [
        | Built.refused d ↦ ok (deny_call index request d run)
        | Built.target_of target ↦ gate_call platform mode c index call target run
      ]
    ] in
    if run.cancel_requested
    then ok (complete_call index request (cancelled_result request) Status.cancelled run, none)
    else prepared
