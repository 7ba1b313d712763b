-- ===== src/Permissions/Tests.antt =====
-- The properties of the permission rules at small rules, with an escape that puts a backslash before
-- each character and an expression that only escaped texts match.
use mew_code.Prelude.{
  ◌≡◌, ◌↔◌, ◌+◌, refl, true, false, none, some, [], ◌∷◌, ◌++◌, ok, contains, length, ◌==◌, ==_self,
}
use mew_code.Prelude.Text.{Text, text_eq, codes, strip, lstrip, is_space}
use mew_code.Glob.{
  Platform, MatchSubjectKind, special, read_tokens, class_step, validate_character_classes,
  tokenize_glob, part, parts, slashes, compile_glob, glob_fullmatch, glob_is_exact,
  glob_specificity, escape_exact_glob,
}
use mew_code.Glob.Escape.{literal_text, compile_glob-escape, escape_exact_glob-IsExact}
use mew_code.Permissions.Models.{
  PermissionChoice, PermissionDecision, PermissionEffect, PermissionMatch, PermissionMode,
  PermissionOutcome, PermissionRule, PermissionRuleSets, PermissionSource, PermissionTarget,
  PermissionTargetKind, RuleScope,
}
use mew_code.Permissions.Rules.{
  denies, exact_rule, parse_permission_rule, rule_matches, candidates, winner, key_less,
  match_layers, match_rules, layers,
}
use mew_code.Permissions.Rules.Winner.{IsBest, match_rules-IsBest}
use mew_code.Permissions.Rules.Exact.{
  IsNamed, ReadsLiterals, exact_allow, exact_rule-parse_permission_rule,
}
use mew_code.Permissions.Controller.{decision, matched, evaluate_preflight, apply_choice}
use mew_code.Permissions.Controller.Decisions.{evaluate_preflight_deny}
use mew_code.Permissions.Controller.Session.{Chosen, with_session_rule, apply_choice_session}

abbrev backslashed : Text → Text
backslashed [] = []
backslashed (c ∷ s) = 92 ∷ c ∷ backslashed s

abbrev platform : Platform
platform = record {
  re_escape = λ c. 92 ∷ c ∷ [];
  re_fullmatch = λ ignore_case p s. some (p == 94 ∷ (backslashed s ++ 36 ∷ []));
  windows = false;
}

literal_text-backslashed : (v : Text) → literal_text platform v ≡ backslashed v
unfolding literal_text
literal_text-backslashed [] = refl
literal_text-backslashed (c ∷ v) = rw (literal_text-backslashed v) refl

platform-ReadsLiterals : ReadsLiterals platform
platform-ReadsLiterals = record {
  total = λ ignore_case v s. (_, refl);
  itself = λ ignore_case v.
      rw (literal_text-backslashed v, ==_self (94 ∷ (backslashed v ++ 36 ∷ []))) refl;
}

abbrev target : PermissionTarget
target = record { tool_name = codes "run"; value = codes "l*"; kind = PermissionTargetKind.command }

target-IsNamed : IsNamed target
unfolding contains strip lstrip is_space
target-IsNamed = record { name = refl; no_paren = refl; stripped = refl; value = refl }

abbrev denial : PermissionRule
denial = record (exact_allow target) { effect = PermissionEffect.deny; scope = RuleScope.user }

abbrev sets : PermissionRuleSets
sets = record {
  session = [];
  project_local = [];
  project = [];
  user = exact_allow target ∷ denial ∷ [];
}

abbrev allowing : PermissionRuleSets
allowing = record { session = []; project_local = []; project = []; user = exact_allow target ∷ [] }

abbrev denied : PermissionMatch
denied = record { rule = denial; source = PermissionSource.user_rule }

abbrev allowed : PermissionMatch
allowed = record { rule = exact_allow target; source = PermissionSource.user_rule }

escape_exact_glob-IsExact_example :
    (glob_is_exact (escape_exact_glob (codes "a/[b]")) ≡ ok true)
    × (glob_specificity (escape_exact_glob (codes "a/[b]"))
        ≡ ok (record {
          exact = 1;
          fixed_text = length (codes "a/[b]");
          segments = slashes (codes "a/[b]") + 1;
        }))
escape_exact_glob-IsExact_example = escape_exact_glob-IsExact (codes "a/[b]")

compile_glob-escape_example :
    compile_glob platform (escape_exact_glob (codes "a*")) MatchSubjectKind.path
    ≡ ok (94 ∷ literal_text platform (codes "a*") ++ 36 ∷ [], false)
compile_glob-escape_example = compile_glob-escape platform (codes "a*") MatchSubjectKind.path

exact_rule-parse_permission_rule_example :
    parse_permission_rule
      (exact_rule target)
      (some PermissionEffect.allow)
      RuleScope.session
      (codes "run" ∷ [])
      []
    ≡ ok (exact_allow target)
exact_rule-parse_permission_rule_example = exact_rule-parse_permission_rule target target-IsNamed

match_rules-IsBest_example : IsBest platform target denied (layers sets)
unfolding match_rules match_layers candidates rule_matches glob_fullmatch compile_glob tokenize_glob
    read_tokens special validate_character_classes class_step parts part escape_exact_glob slashes
    winner key_less text_eq contains
match_rules-IsBest_example = match_rules-IsBest platform target sets denied refl

evaluate_preflight_deny_example : (PermissionOutcome.deny ≡ PermissionOutcome.deny) ↔ (
    (m : PermissionMatch) × (match_rules platform target sets ≡ ok (some m))
    × (denies m.rule ≡ true)
    × IsBest platform target m (layers sets)
    × (decision PermissionOutcome.deny target PermissionSource.user_rule (some denied)
        ≡ decision PermissionOutcome.deny target m.source (some m)))
unfolding evaluate_preflight matched match_rules match_layers candidates rule_matches glob_fullmatch
    compile_glob tokenize_glob read_tokens special validate_character_classes class_step parts part
    escape_exact_glob slashes winner key_less text_eq contains
evaluate_preflight_deny_example =
    evaluate_preflight_deny platform PermissionMode.allow sets target
      (decision PermissionOutcome.deny target PermissionSource.user_rule (some denied)) refl

abbrev asked : PermissionDecision
asked = decision PermissionOutcome.ask target PermissionSource.mode none

apply_choice_session_example :
    (apply_choice none asked PermissionChoice.session sets
      ≡ ok (
        decision PermissionOutcome.allow target PermissionSource.user_confirmation none,
        with_session_rule target sets,
      ))
    × ((m : PermissionMatch) × (evaluate_preflight platform PermissionMode.strict
            (with_session_rule target sets)
            target
          ≡ ok (decision PermissionOutcome.allow target PermissionSource.session_rule (some m))))
apply_choice_session_example =
    apply_choice_session platform PermissionMode.strict sets (with_session_rule target sets) none
      asked target platform-ReadsLiterals target-IsNamed tt refl refl Chosen.here
