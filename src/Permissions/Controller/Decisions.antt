-- ===== src/Permissions/Controller/Decisions.antt =====
-- The decisions that are denials.
use mew_code.Prelude.{
  ◌≡◌, ◌≢◌, ◌↔◌, refl, ap, sym, ◌∙◌, true, false, Option, none, some, ok, arith, Bool-cases,
  Outcome-cases, inl, inr,
}
use mew_code.Prelude.Text.{text_eq}
use mew_code.Glob.{Platform}
use mew_code.Permissions.Models.{
  PermissionDecision, PermissionMatch, PermissionMode, PermissionOutcome, PermissionRuleSets,
  PermissionTarget,
}
use mew_code.Permissions.Rules.{denies, match_rules, layers}
use mew_code.Permissions.Rules.Winner.{IsBest, match_rules-IsBest}
use mew_code.Permissions.Controller.{decision, matched, unmatched, evaluate_preflight}

unmatched_not_denied :
    (mode : PermissionMode) (target : PermissionTarget)
    → (unmatched mode target).outcome ≢ PermissionOutcome.deny
unfolding unmatched
unmatched_not_denied PermissionMode.allow target = λ h. cc
unmatched_not_denied PermissionMode.default target = λ h. cc
unmatched_not_denied PermissionMode.strict target = λ h. cc

matched_denied :
    (mode : PermissionMode) (target : PermissionTarget) (m : PermissionMatch)
    → denies m.rule ≡ true
    → matched mode target m ≡ decision PermissionOutcome.deny target m.source (some m)
unfolding matched
matched_denied mode target m h = rw h refl

matched_not_denied :
    (mode : PermissionMode) (target : PermissionTarget) (m : PermissionMatch)
    → denies m.rule ≡ false
    → (matched mode target m).outcome ≢ PermissionOutcome.deny
unfolding matched
matched_not_denied PermissionMode.allow target m h = λ d. ground arith
matched_not_denied PermissionMode.default target m h = λ d. ground arith
matched_not_denied PermissionMode.strict target m h = λ d. ground arith

-- In every mode, the allow mode included, a decision is a denial exactly where the deciding rule denies,
-- which is the best matching one of the first layer with a match; the denial is by that rule.
pub evaluate_preflight_deny :
    (platform : Platform) (mode : PermissionMode) (sets : PermissionRuleSets)
    (target : PermissionTarget) (d : PermissionDecision)
    → evaluate_preflight platform mode sets target ≡ ok d
    → (d.outcome ≡ PermissionOutcome.deny) ↔ (
        (m : PermissionMatch) × (match_rules platform target sets ≡ ok (some m))
        × (denies m.rule ≡ true)
        × IsBest platform target m (layers sets)
        × (d ≡ decision PermissionOutcome.deny target m.source (some m)))
unfolding evaluate_preflight
evaluate_preflight_deny platform mode sets target d h = (
  λ denied. elim (Outcome-cases (match_rules platform target sets)) [
    | inr (x, bad) ↦ absurd (ground arith)
    | inl (o, found) ↦ decided o found denied
  ],
  λ q. ap (λ d. d.outcome) q.4,
)
  where
    decided :
        (o : Option PermissionMatch)
        → match_rules platform target sets ≡ ok o
        → d.outcome ≡ PermissionOutcome.deny
        → (m : PermissionMatch) × (match_rules platform target sets ≡ ok (some m))
          × (denies m.rule ≡ true)
          × IsBest platform target m (layers sets)
          × (d ≡ decision PermissionOutcome.deny target m.source (some m))
    decided none found denied =
        let out : unmatched mode target ≡ d = ground arith in
        absurd (unmatched_not_denied mode target (ap (λ d. d.outcome) out ∙ denied))
    decided (some m) found denied =
        let out : matched mode target m ≡ d = ground arith in
        elim (Bool-cases (denies m.rule)) [
          | inl denial ↦ (
            m,
            found,
            denial,
            match_rules-IsBest platform target sets m found,
            sym out ∙ matched_denied mode target m denial,
          )
          | inr allows ↦
              absurd (matched_not_denied mode target m allows (ap (λ d. d.outcome) out ∙ denied))
        ]
