-- ===== src/Agent/Prepare/Records.antt =====
-- The first loop of a batch ends each call or prepares it, and no other.
use mathlib.Core.List.{map-append}
use mew_code.Prelude.{
  ℕ, ◌≡◌, refl, true, ◌||◌, none, some, [], ◌∷◌, ◌++◌, map, Bool-cases, Option-cases, Outcome-cases,
  ok, ◌⊎◌, inl, inr, if_ind, arith,
}
use mathlib.Core.Path.{subst}
use mew_code.Prelude.Text.{text_eq}
use mew_code.Glob.{Platform}
use mew_code.Permissions.Models.{PermissionDecision, PermissionMode, PermissionTarget}
use mew_code.Permissions.Controller.{Built, evaluate_preflight, apply_choice}
use mew_code.Tools.{
  ToolCallRequest, ToolExecution, ToolResult, ToolRegistry, ValidatedToolCall, validate_call,
}
use mew_code.Agent.Calls.{
  Circumstances, ControlEnd, Run, PreparedCall, Status, AgentEvent, emit, complete_call, is_deny,
  is_ask, rule_raised, choice_raised, cancelled_result, hook_denied_result, status_of,
}
use mew_code.Agent.Prepare.{
  Prepared, policy_denial, deny_call, decided, ask_user, evaluate_call, control_call, gate_call,
  prepare_call,
}

-- The call that an execution, or a prepared call, is of.
abbrev pub call_of : ToolExecution → ℕ × ToolCallRequest
call_of e = (e.index, e.request)

abbrev pub prepared_of : PreparedCall → ℕ × ToolCallRequest
prepared_of p = (p.index, p.call.request)

-- What the first loop does with a call: it ends the call with an execution, or prepares it.
abbrev pub Records : ℕ → ToolCallRequest → Run → Prepared → Type 0
Records i r run out =
    ((out.1 ≡ none) × (map call_of out.0.completed ≡ map call_of run.completed ++ (i, r) ∷ []))
    ⊎ ((p : PreparedCall) × (out.1 ≡ some p)
        × (prepared_of p ≡ (i, r))
        × (out.0.completed ≡ run.completed))

pub complete_call-calls :
    (i : ℕ) (r : ToolCallRequest) (result : ToolResult) (s : Status) (run : Run)
    → map call_of (complete_call i r result s run).completed
      ≡ map call_of run.completed ++ (i, r) ∷ []
unfolding complete_call
complete_call-calls i r result s run = map-append call_of run.completed _

pub ControlEnd-cases :
    (e : ControlEnd)
    → ((result : ToolResult) × (e ≡ ControlEnd.finished result))
      ⊎ ((e ≡ ControlEnd.stopped) ⊎ (e ≡ ControlEnd.broke))
ControlEnd-cases (ControlEnd.finished result) = inl (result, refl)
ControlEnd-cases ControlEnd.stopped = inr (inl refl)
ControlEnd-cases ControlEnd.broke = inr (inr refl)

module _ (i : ℕ) (call : ValidatedToolCall) where
  deny_call-Records :
      (run : Run) (d : PermissionDecision)
      → Records i call.request run (deny_call i call.request d run)
  unfolding deny_call
  deny_call-Records run d = inl (refl, complete_call-calls i call.request _ _ _)

  decided-Records :
      (run : Run) (d : PermissionDecision) → Records i call.request run (decided i call d run)
  unfolding decided
  decided-Records run d =
      if_ind (Records i call.request run) (is_deny d.outcome) (λ _. deny_call-Records run d)
        (λ _. inr (record { index = i; call = call }, refl, refl, refl))

  control_call-Records :
      (run : Run) (c : Circumstances) (out : Prepared)
      → control_call c i call run ≡ ok out
      → Records i call.request run out
  unfolding control_call
  control_call-Records run c out h = elim (ControlEnd-cases c.control_end) [
    | inl (result, ended) ↦
        let same : (complete_call i call.request result (status_of result) run, none) ≡ out =
          ground arith in
        subst (Records i call.request run) same
          (inl (refl, complete_call-calls i call.request _ _ _))
    | inr (inl ended) ↦
        let same : (
          complete_call i call.request (cancelled_result call.request) Status.cancelled
              (record run { cancel_requested = true }),
          none,
        )
            ≡ out =
          ground arith in
        subst (Records i call.request run) same
          (inl (refl, complete_call-calls i call.request _ _ _))
    | inr (inr ended) ↦ absurd (ground arith)
  ]

  module _ (run : Run) (c : Circumstances) (out : Prepared) where
    ask_user-Records :
        (target : PermissionTarget) (d : PermissionDecision)
        → ask_user c i call target d run ≡ ok out
        → Records i call.request run out
    unfolding ask_user
    ask_user-Records target d h = elim (Option-cases c.choice) [
      | inl gone ↦
          let run' = record (emit (AgentEvent.permission_request i target) run) {
            cancel_requested = true;
          } in
          let same : (
            complete_call i call.request (cancelled_result call.request) Status.cancelled run',
            none,
          )
              ≡ out =
            ground arith in
          subst (Records i call.request run) same
            (inl (refl, complete_call-calls i call.request _ _ _))
      | inr (choice, chosen) ↦
          elim (Outcome-cases (choice_raised (apply_choice c.persisted d choice run.rules))) [
            | inr (x, bad) ↦ absurd (ground arith)
            | inl ((d', rules'), e) ↦
                let asked : Run = record (emit (AgentEvent.permission_request i target) run) {
                  rules = rules';
                } in
                let same : decided i call d' asked ≡ out = ground arith in
                subst (Records i call.request run) same (decided-Records asked d')
          ]
    ]

    evaluate_call-Records :
        (platform : Platform) (mode : PermissionMode) (target : PermissionTarget)
        → evaluate_call platform mode c i call target run ≡ ok out
        → Records i call.request run out
    unfolding evaluate_call
    evaluate_call-Records platform mode target h =
        elim (Outcome-cases (rule_raised (evaluate_preflight platform mode run.rules target))) [
          | inr (x, bad) ↦ absurd (ground arith)
          | inl (d, e) ↦ elim (Bool-cases (is_ask d.outcome)) [
            | inl asks ↦ ask_user-Records target d (ground arith)
            | inr known ↦
                let same : decided i call d run ≡ out = ground arith in
                subst (Records i call.request run) same (decided-Records run d)
          ]
        ]

    gate_call-Records :
        (platform : Platform) (mode : PermissionMode) (target : PermissionTarget)
        → gate_call platform mode c i call target run ≡ ok out
        → Records i call.request run out
    unfolding gate_call
    gate_call-Records platform mode target h = elim (Bool-cases c.policy_allowed) [
      | inr refused ↦
          let same : deny_call i call.request (policy_denial target) run ≡ out = ground arith in
          subst (Records i call.request run) same (deny_call-Records run (policy_denial target))
      | inl allowed ↦ elim (Option-cases c.hook_denial) [
        | inr (reason, hooked) ↦
            let same : (
              complete_call i call.request (hook_denied_result call.request reason) Status.denied
                  run,
              none,
            )
                ≡ out =
              ground arith in
            subst (Records i call.request run) same
              (inl (refl, complete_call-calls i call.request _ _ _))
        | inl free ↦ elim (Bool-cases call.tool.is_control) [
          | inl control ↦ control_call-Records run c out (ground arith)
          | inr plain ↦ evaluate_call-Records platform mode target (ground arith)
        ]
      ]
    ]

pub validate_call-request :
    (registry : ToolRegistry) (r : ToolCallRequest) (call : ValidatedToolCall)
    → validate_call registry r ≡ ok call
    → call.request ≡ r
unfolding validate_call
validate_call-request registry r call h = ground arith

pub Built-cases :
    (b : Built)
    → ((d : PermissionDecision) × (b ≡ Built.refused d))
      ⊎ ((t : PermissionTarget) × (b ≡ Built.target_of t))
Built-cases (Built.refused d) = inl (d, refl)
Built-cases (Built.target_of t) = inr (t, refl)

module _ (platform : Platform) (mode : PermissionMode) (registry : ToolRegistry) where
  pub prepare_call-Records :
      (c : Circumstances) (i : ℕ) (r : ToolCallRequest) (before : Run) (out : Prepared)
      → prepare_call platform mode registry c i r before ≡ ok out
      → Records i r before out
  unfolding prepare_call
  prepare_call-Records c i r before out h =
      let run : Run = record before {
        cancel_requested = before.cancel_requested || c.cancel_called;
      } in
      elim (Bool-cases run.cancel_requested) [
        | inl stopped ↦
            let same : (complete_call i r (cancelled_result r) Status.cancelled run, none) ≡ out =
              ground arith in
            subst (Records i r before) same (inl (refl, complete_call-calls i r _ _ _))
        | inr going ↦ elim (Outcome-cases (validate_call registry r)) [
          | inr (result, bad) ↦
              let same : (complete_call i r result Status.failure run, none) ≡ out = ground arith in
              subst (Records i r before) same (inl (refl, complete_call-calls i r _ _ _))
          | inl (call, good) ↦
              let own = validate_call-request registry r call good in
              elim (Built-cases c.built) [
                | inl (d, hard) ↦
                    let same : deny_call i r d run ≡ out = ground arith in
                    subst (Records i r before) same (rw (← own) (deny_call-Records i call run d))
                | inr (target, built) ↦
                    rw (← own)
                      (gate_call-Records i call run c out platform mode target (ground arith))
              ]
        ]
      ]
