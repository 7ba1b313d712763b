-- ===== src/Agent/Prepare/Returns.antt =====
-- When the preparation of a call returns.
use mew_code.Prelude.{
  ℕ, ◌≡◌, ◌≢◌, refl, true, not, ◌||◌, none, some, Option-cases, Outcome, Outcome-cases, ok, inl,
  inr, if_ind,
}
use mew_code.Prelude.Text.{text_eq}
use mew_code.Glob.{Platform}
use mew_code.Permissions.Models.{
  PermissionChoice, PermissionDecision, PermissionMode, PermissionRuleSets, PermissionTarget,
}
use mew_code.Permissions.Controller.{Built, evaluate_preflight, apply_choice}
use mew_code.Tools.{ToolCallRequest, ToolRegistry, ValidatedToolCall, validate_call}
use mew_code.Agent.Calls.{
  Circumstances, ControlEnd, Status, Run, AgentEvent, ScheduleError, emit, complete_call,
  cancelled_result, hook_denied_result, is_deny, is_ask,
}
use mew_code.Agent.Prepare.{
  Prepared, policy_denial, deny_call, decided, ask_user, evaluate_call, control_call, gate_call,
  prepare_call,
}
use mew_code.Agent.Prepare.Records.{Built-cases, ControlEnd-cases}

-- The permission controller answers for the targets and the choices of the world, from rules of a kind
-- that the choices keep, and no control tool's operation raises.
pub record Answers (platform : Platform) (mode : PermissionMode) (world : ℕ → Circumstances)
    (P : PermissionRuleSets → Type 0) : Type 0 where
  pub controls : (i : ℕ) → (world i).control_end ≢ ControlEnd.broke
  pub evaluates :
      (i : ℕ) (t : PermissionTarget) (r : PermissionRuleSets)
      → P r
      → (world i).built ≡ Built.target_of t
      → (d : PermissionDecision) × (evaluate_preflight platform mode r t ≡ ok d)
  pub applies :
      (i : ℕ) (t : PermissionTarget) (r : PermissionRuleSets) (d : PermissionDecision)
      (choice : PermissionChoice)
      → P r
      → evaluate_preflight platform mode r t ≡ ok d
      → is_ask d.outcome ≡ true
      → (world i).choice ≡ some choice
      → (d' : PermissionDecision) × (r' : PermissionRuleSets) × (apply_choice
            (world i).persisted
            d
            choice
            r
          ≡ ok (d', r'))
        × P r'

module _ (P : PermissionRuleSets → Type 0) where
  -- The step returns, and the rules are still of the kind.
  abbrev pub Returns : Outcome ScheduleError Prepared → Type 0
  Returns m = (out : Prepared) × (m ≡ ok out) × P out.0.rules

  deny_call-P :
      (i : ℕ) (r : ToolCallRequest) (d : PermissionDecision) (run : Run)
      → P run.rules
      → P (deny_call i r d run).0.rules
  unfolding deny_call complete_call
  deny_call-P i r d run h = h

  decided-P :
      (i : ℕ) (call : ValidatedToolCall) (d : PermissionDecision) (run : Run)
      → P run.rules
      → P (decided i call d run).0.rules
  unfolding decided
  decided-P i call d run h =
      if_ind {A = Prepared} (λ z. P z.0.rules) (is_deny d.outcome)
        (λ _. deny_call-P i call.request d run h) (λ _. h)

  control_call-Returns :
      (c : Circumstances) (i : ℕ) (call : ValidatedToolCall) (run : Run)
      → c.control_end ≢ ControlEnd.broke
      → P run.rules
      → Returns (control_call c i call run)
  unfolding control_call complete_call
  control_call-Returns c i call run sane h = elim (ControlEnd-cases c.control_end) [
    | inl (result, ended) ↦ rw ended (_, refl, h)
    | inr (inl ended) ↦ rw ended (_, refl, h)
    | inr (inr ended) ↦ absurd (sane ended)
  ]

  module _ (platform : Platform) (mode : PermissionMode) (world : ℕ → Circumstances)
      (answers : Answers platform mode world P) (i : ℕ) (call : ValidatedToolCall) where
    ask_user-Returns :
        (t : PermissionTarget) (d : PermissionDecision) (run : Run)
        → P run.rules
        → evaluate_preflight platform mode run.rules t ≡ ok d
        → is_ask d.outcome ≡ true
        → Returns (ask_user (world i) i call t d run)
    unfolding ask_user complete_call
    ask_user-Returns t d run h found asks = elim (Option-cases (world i).choice) [
      | inl gone ↦
          let asked = record (emit (AgentEvent.permission_request i t) run) {
            cancel_requested = true;
          } in
          (
            (
              complete_call i call.request (cancelled_result call.request) Status.cancelled asked,
              none,
            ),
            rw gone refl,
            h,
          )
      | inr (choice, chosen) ↦
          let (d', r', applied, kept) =
            answers.applies i t run.rules d choice h found asks chosen in
          let asked = record (emit (AgentEvent.permission_request i t) run) { rules = r' } in
          (decided i call d' asked, rw (chosen, applied) refl, decided-P i call d' asked kept)
    ]

    evaluate_call-Returns :
        (t : PermissionTarget) (run : Run)
        → (world i).built ≡ Built.target_of t
        → P run.rules
        → Returns (evaluate_call platform mode (world i) i call t run)
    unfolding evaluate_call
    evaluate_call-Returns t run built h =
        let (d, found) = answers.evaluates i t run.rules h built in
        rw found (
          if_ind Returns (is_ask d.outcome) (λ asks. ask_user-Returns t d run h found asks)
            (λ _. (decided i call d run, refl, decided-P i call d run h)))

    gate_call-Returns :
        (t : PermissionTarget) (run : Run)
        → (world i).built ≡ Built.target_of t
        → P run.rules
        → Returns (gate_call platform mode (world i) i call t run)
    unfolding gate_call complete_call
    gate_call-Returns t run built h =
        if_ind Returns (not (world i).policy_allowed)
          (λ _. (
            deny_call i call.request (policy_denial t) run,
            refl,
            deny_call-P i call.request (policy_denial t) run h,
          ))
          (λ _. elim (Option-cases (world i).hook_denial) [
            | inr (reason, hooked) ↦ rw hooked (
              (
                complete_call i call.request (hook_denied_result call.request reason) Status.denied
                    run,
                none,
              ),
              refl,
              h,
            )
            | inl free ↦ rw free (
                if_ind Returns call.tool.is_control
                  (λ _. control_call-Returns (world i) i call run (answers.controls i) h)
                  (λ _. evaluate_call-Returns t run built h))
          ])

module _ (P : PermissionRuleSets → Type 0) (platform : Platform) (mode : PermissionMode)
    (registry : ToolRegistry) (world : ℕ → Circumstances)
    (answers : Answers platform mode world P) where
  pub prepare_call-Returns :
      (i : ℕ) (r : ToolCallRequest) (before : Run)
      → P before.rules
      → Returns P (prepare_call platform mode registry (world i) i r before)
  unfolding prepare_call complete_call
  prepare_call-Returns i r before h =
      let run : Run = record before {
        cancel_requested = before.cancel_requested || (world i).cancel_called;
      } in
      if_ind (Returns P) run.cancel_requested
        (λ _. ((complete_call i r (cancelled_result r) Status.cancelled run, none), refl, h))
        (λ _. elim (Outcome-cases (validate_call registry r)) [
          | inr (result, bad) ↦
              rw bad ((complete_call i r result Status.failure run, none), refl, h)
          | inl (call, good) ↦ rw good (elim (Built-cases (world i).built) [
            | inl (d, hard) ↦ rw hard (deny_call i r d run, refl, deny_call-P P i r d run h)
            | inr (t, built) ↦
                rw built (gate_call-Returns P platform mode world answers i call t run built h)
          ])
        ])
