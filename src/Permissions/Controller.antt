-- ===== src/Permissions/Controller.antt =====
-- src/mewcode/permissions/controller.py: the decision on a tool call, and the choice of the user.
-- The target builder's result is given: a target, or a decision of its own. The text of a reason is
-- left out.
pub mod Decisions
pub mod Session
use mew_code.Prelude.{
  Bool, true, false, Option, none, some, List, Outcome, ok, err, ◌>>=◌, ◌>>◌, raise_if,
  if◌then◌else◌,
}
use mew_code.Glob.{Platform}
use mew_code.Permissions.Models.{
  PermissionChoice, PermissionDecision, PermissionEffect, PermissionMatch, PermissionMode,
  PermissionOutcome, PermissionRule, PermissionRuleSets, PermissionSource, PermissionTarget,
}
use mew_code.Permissions.Rules.{
  RuleFailure, denies, match_rules, add_session_allow, persist_project_local_allow,
}

abbrev pub decision :
    PermissionOutcome
    → PermissionTarget
    → PermissionSource
    → Option PermissionMatch
    → PermissionDecision
decision outcome target source match = record {
  outcome = outcome;
  target = some target;
  source = source;
  match = match;
}

abbrev is_session : PermissionSource → Bool
is_session PermissionSource.session_rule = true
is_session _ = false

-- The rest of `evaluate_preflight` after the match, for a rule that matched.
unfoldable pub matched : PermissionMode → PermissionTarget → PermissionMatch → PermissionDecision
matched mode target match =
    if denies match.rule
    then decision PermissionOutcome.deny target match.source (some match)
    else if is_session match.source
    then decision PermissionOutcome.allow target match.source (some match)
    else elim mode [
      | PermissionMode.strict ↦
          decision PermissionOutcome.ask target PermissionSource.mode (some match)
      | PermissionMode.default ↦ decision PermissionOutcome.allow target match.source (some match)
      | PermissionMode.allow ↦ decision PermissionOutcome.allow target match.source (some match)
    ]

-- The same for no match.
unfoldable pub unmatched : PermissionMode → PermissionTarget → PermissionDecision
unmatched mode target = elim mode [
  | PermissionMode.allow ↦ decision PermissionOutcome.allow target PermissionSource.mode none
  | _ ↦ decision PermissionOutcome.ask target PermissionSource.mode none
]

unfoldable pub evaluate_preflight :
    Platform
    → PermissionMode
    → PermissionRuleSets
    → PermissionTarget
    → Outcome RuleFailure PermissionDecision
evaluate_preflight platform mode sets target = do
  match ← match_rules platform target sets
  ok (elim match [ none ↦ unmatched mode target | some m ↦ matched mode target m ])

-- What `PermissionTargetBuilder.build` returns.
pub data Built : Type 0 where
  target_of : PermissionTarget → Built
  refused : PermissionDecision → Built

unfoldable pub evaluate :
    Platform → PermissionMode → PermissionRuleSets → Built → Outcome RuleFailure PermissionDecision
evaluate platform mode sets (Built.target_of target) = evaluate_preflight platform mode sets target
evaluate platform mode sets (Built.refused d) = ok d

-- ValueError of `apply_choice`, or what adding the session rule raises
pub data ChoiceFailure : Type 0 where
  not_an_ask : ChoiceFailure
  rule_failure : RuleFailure → ChoiceFailure

abbrev pub choice_raised {ℓ} : {A : Type ℓ} → Outcome RuleFailure A → Outcome ChoiceFailure A
choice_raised (ok a) = ok a
choice_raised (err e) = err (ChoiceFailure.rule_failure e)

abbrev pub is_ask : PermissionOutcome → Bool
is_ask PermissionOutcome.ask = true
is_ask _ = false

-- The branches of `apply_choice`. `persisted` is what the local writer returns for the target, none
-- where it raises; the result is the decision and the rules after it.
unfoldable pub choose :
    Option (List PermissionRule)
    → PermissionTarget
    → Option PermissionMatch
    → PermissionChoice
    → PermissionRuleSets
    → Outcome RuleFailure (PermissionDecision × PermissionRuleSets)
choose persisted target match PermissionChoice.deny sets =
    ok (decision PermissionOutcome.deny target PermissionSource.user_confirmation match, sets)
choose persisted target match PermissionChoice.once sets =
    ok (decision PermissionOutcome.allow target PermissionSource.user_confirmation match, sets)
choose persisted target match PermissionChoice.session sets = do
  added ← add_session_allow target sets
  ok (decision PermissionOutcome.allow target PermissionSource.user_confirmation match, added)
choose none target match PermissionChoice.permanent sets =
    ok (decision PermissionOutcome.deny target PermissionSource.config_error match, sets)
choose (some updated) target match PermissionChoice.permanent sets = do
  added ← add_session_allow target (persist_project_local_allow updated sets)
  ok (decision PermissionOutcome.allow target PermissionSource.user_confirmation match, added)

unfoldable pub apply_choice :
    Option (List PermissionRule)
    → PermissionDecision
    → PermissionChoice
    → PermissionRuleSets
    → Outcome ChoiceFailure (PermissionDecision × PermissionRuleSets)
apply_choice persisted d choice sets =
    if is_ask d.outcome
    then elim d.target [
      | none ↦ err ChoiceFailure.not_an_ask
      | some target ↦ choice_raised (choose persisted target d.match choice sets)
    ]
    else err ChoiceFailure.not_an_ask
