-- ===== src/Agent/Prepare/Gates.antt =====
-- What every gate said of a call that runs.
use mew_code.Prelude.{
  ℕ, ◌≡◌, ◌≢◌, refl, true, false, ◌||◌, none, some, Bool-cases, Option-cases, Outcome,
  Outcome-cases, ok, err, ◌⊎◌, inl, inr, arith,
}
use mew_code.Prelude.Text.{text_eq}
use mew_code.Glob.{Platform}
use mew_code.Permissions.Models.{
  PermissionChoice, PermissionDecision, PermissionMode, PermissionOutcome, PermissionTarget,
}
use mew_code.Permissions.Rules.{RuleFailure}
use mew_code.Permissions.Controller.{Built, ChoiceFailure, evaluate_preflight, apply_choice}
use mew_code.Tools.{ToolCallRequest, ToolRegistry, ValidatedToolCall, validate_call}
use mew_code.Agent.Calls.{
  Circumstances, Run, PreparedCall, rule_raised, choice_raised, is_deny, is_ask, emit, AgentEvent,
}
use mew_code.Agent.Prepare.{
  deny_call, decided, ask_user, evaluate_call, control_call, gate_call, prepare_call,
}
use mew_code.Agent.Prepare.Records.{Built-cases, ControlEnd-cases}

-- The user allowed an asked call: the choice was made and, applied, is no denial.
abbrev pub IsChosen : Circumstances → PermissionDecision → Run → Run → Type 0
IsChosen c d run run' =
    (choice : PermissionChoice) × (d' : PermissionDecision) × (c.choice ≡ some choice)
    × (apply_choice c.persisted d choice run.rules ≡ ok (d', run'.rules))
    × (is_deny d'.outcome ≡ false)

-- The controller's decision on the target is no denial, and where it is to ask, the user allowed it.
abbrev pub IsPermitted :
    Platform → PermissionMode → Circumstances → PermissionTarget → Run → Run → Type 0
IsPermitted platform mode c target run run' =
    (d : PermissionDecision) × (evaluate_preflight platform mode run.rules target ≡ ok d)
    × (is_deny d.outcome ≡ false)
    × ((is_ask d.outcome ≡ false) ⊎ IsChosen c d run run')

choice_raised-ok :
    {A : Type 0} (m : Outcome ChoiceFailure A) (a : A) → choice_raised m ≡ ok a → m ≡ ok a
choice_raised-ok (ok b) a h = cc
choice_raised-ok (err x) a h = absurd (ground arith)

rule_raised-ok : {A : Type 0} (m : Outcome RuleFailure A) (a : A) → rule_raised m ≡ ok a → m ≡ ok a
rule_raised-ok (ok b) a h = cc
rule_raised-ok (err x) a h = absurd (ground arith)

is_ask-is_deny : (o : PermissionOutcome) → is_ask o ≡ true → is_deny o ≡ false
is_ask-is_deny PermissionOutcome.ask h = refl
is_ask-is_deny PermissionOutcome.allow h = refl
is_ask-is_deny PermissionOutcome.deny h = absurd (ground arith)

module _ (c : Circumstances) (i : ℕ) (call : ValidatedToolCall) (run run' : Run)
    (p : PreparedCall) where
  decided-allowed :
      (d : PermissionDecision) (start : Run)
      → decided i call d start ≡ (run', some p)
      → (is_deny d.outcome ≡ false) × (p.call ≡ call) × (run'.rules ≡ start.rules)
  unfolding decided deny_call
  decided-allowed d start h = elim (Bool-cases (is_deny d.outcome)) [
    | inl bad ↦ absurd (ground arith)
    | inr good ↦ (good, ground arith, ground arith)
  ]

  ask_user-allowed :
      (target : PermissionTarget) (d : PermissionDecision)
      → ask_user c i call target d run ≡ ok (run', some p)
      → IsChosen c d run run' × (p.call ≡ call)
  unfolding ask_user
  ask_user-allowed target d h = elim (Option-cases c.choice) [
    | inl gone ↦ absurd (ground arith)
    | inr (choice, chosen) ↦
        elim (Outcome-cases (choice_raised (apply_choice c.persisted d choice run.rules))) [
          | inr (x, bad) ↦ absurd (ground arith)
          | inl ((d', rules'), e) ↦
              let run1 = record (emit (AgentEvent.permission_request i target) run) {
                rules = rules';
              } in
              let out : decided i call d' run1 ≡ (run', some p) = ground arith in
              let (allowed, same, kept) = decided-allowed d' run1 out in
              let applied = choice_raised-ok (apply_choice c.persisted d choice run.rules) _ e in
              ((choice, d', chosen, rw kept applied, allowed), same)
        ]
  ]

  evaluate_call-allowed :
      (platform : Platform) (mode : PermissionMode) (target : PermissionTarget)
      → evaluate_call platform mode c i call target run ≡ ok (run', some p)
      → IsPermitted platform mode c target run run' × (p.call ≡ call)
  unfolding evaluate_call
  evaluate_call-allowed platform mode target h =
      elim (Outcome-cases (rule_raised (evaluate_preflight platform mode run.rules target))) [
        | inr (x, bad) ↦ absurd (ground arith)
        | inl (d, e) ↦
            let found = rule_raised-ok (evaluate_preflight platform mode run.rules target) d e in
            elim (Bool-cases (is_ask d.outcome)) [
              | inl asks ↦
                  let (chosen, same) = ask_user-allowed target d (ground arith) in
                  ((d, found, is_ask-is_deny d.outcome asks, inr chosen), same)
              | inr known ↦
                  let (allowed, same, kept) = decided-allowed d run (ground arith) in
                  ((d, found, allowed, inl known), same)
            ]
      ]

  control_call-allowed : control_call c i call run ≢ ok (run', some p)
  unfolding control_call
  control_call-allowed h = elim (ControlEnd-cases c.control_end) [
    | inl (result, ended) ↦ ground arith
    | inr (inl ended) ↦ ground arith
    | inr (inr ended) ↦ ground arith
  ]

  gate_call-allowed :
      (platform : Platform) (mode : PermissionMode) (target : PermissionTarget)
      → gate_call platform mode c i call target run ≡ ok (run', some p)
      → (c.policy_allowed ≡ true)
        × (c.hook_denial ≡ none)
        × (p.call.tool.is_control ≡ false)
        × IsPermitted platform mode c target run run'
        × (p.call ≡ call)
  unfolding gate_call deny_call
  gate_call-allowed platform mode target h = elim (Bool-cases c.policy_allowed) [
    | inr refused ↦ absurd (ground arith)
    | inl allowed ↦ elim (Option-cases c.hook_denial) [
      | inr (reason, hooked) ↦ absurd (ground arith)
      | inl free ↦ elim (Bool-cases call.tool.is_control) [
        | inl control ↦ absurd (control_call-allowed (ground arith))
        | inr plain ↦
            let (permitted, same) = evaluate_call-allowed platform mode target (ground arith) in
            (allowed, free, rw same plain, permitted, same)
      ]
    ]
  ]

-- A call that the schedule prepares to run passed every gate: no cancellation was asked for, the
-- arguments fit a registered tool that is no control tool, the target builder gave a target, the
-- policy allowed it, no hook denied it, and the permission controller allowed it, or asked and the
-- user's choice allowed it.
pub prepare_call_allowed :
    (platform : Platform) (mode : PermissionMode) (registry : ToolRegistry) (c : Circumstances)
    (i : ℕ) (r : ToolCallRequest) (run run' : Run) (p : PreparedCall)
    → prepare_call platform mode registry c i r run ≡ ok (run', some p)
    → (target : PermissionTarget) × ((run.cancel_requested || c.cancel_called) ≡ false)
      × (validate_call registry r ≡ ok p.call)
      × (c.built ≡ Built.target_of target)
      × (c.policy_allowed ≡ true)
      × (c.hook_denial ≡ none)
      × (p.call.tool.is_control ≡ false)
      × IsPermitted platform mode c target run run'
unfolding prepare_call deny_call
prepare_call_allowed platform mode registry c i r run run' p h =
    let asked = record run { cancel_requested = run.cancel_requested || c.cancel_called } in
    elim (Bool-cases asked.cancel_requested) [
      | inl stopped ↦ absurd (ground arith)
      | inr going ↦ elim (Outcome-cases (validate_call registry r)) [
        | inr (x, bad) ↦ absurd (ground arith)
        | inl (call, good) ↦ elim (Built-cases c.built) [
          | inl (d, hard) ↦ absurd (ground arith)
          | inr (target, built) ↦
              let (allowed, free, plain, permitted, same) =
                gate_call-allowed c i call asked run' p platform mode target (ground arith) in
              (target, going, rw same good, built, allowed, free, plain, permitted)
        ]
      ]
    ]
