-- ===== src/Permissions/Rules.antt =====
-- src/mewcode/permissions/rules.py: the expression of a rule, the match of a target against the four
-- layers of rules, and the store. Two exceptions of the source are two failures.
pub mod Winner
pub mod Exact
use mew_code.Prelude.{
  ℕ, ◌+◌, Bool, true, false, not, ◌&&◌, ◌||◌, Option, none, some, List, [], ◌∷◌, ◌++◌, any,
  contains, ltb, leb, ◌==◌, nat_eq, Outcome, ok, err, ◌>>=◌, ◌>>◌, raise_if, or_raise,
  if◌then◌else◌,
}
use mew_code.Prelude.Text.{Text, text_eq, is_empty, strip}
use mew_code.Glob.{
  MatchError, MatchSubjectKind, Platform, glob_is_exact, glob_specificity, glob_fullmatch,
  escape_exact_glob,
}
use mew_code.Permissions.Models.{
  PermissionEffect, PermissionMatch, PermissionRule, PermissionRuleSets, PermissionSource,
  PermissionTarget, PermissionTargetKind, RuleScope, Specificity,
}

-- PermissionRuleError, and what matching a stored pattern raises
pub data RuleFailure : Type 0 where
  rule_error : RuleFailure
  match_error : MatchError → RuleFailure

-- expression.find("(") with the text before it and after it
unfoldable pub split_at_paren : Text → Option (Text × Text)
split_at_paren [] = none
split_at_paren (c ∷ s) =
    let rest : Option (Text × Text) = elim (split_at_paren s) [
      | none ↦ none
      | some (before, after) ↦ some (c ∷ before, after)
    ] in
    if c == 40 then some ([], s) else rest

-- The text before a last ")".
unfoldable pub without_close : Text → Option Text
without_close [] = none
without_close (c ∷ s) =
    let rest : Option Text = elim (without_close s) [ none ↦ none | some t ↦ some (c ∷ t) ] in
    if is_empty s then (if c == 41 then some [] else none) else rest

unfoldable pub starts_with : Text → Text → Bool
starts_with s [] = true
starts_with [] (p ∷ ps) = false
starts_with (c ∷ s) (p ∷ ps) = c == p && starts_with s ps

-- PermissionTarget.exact_rule with escape_exact_pattern
unfoldable pub exact_rule : PermissionTarget → Text
exact_rule target = target.tool_name ++ 40 ∷ (escape_exact_glob target.value ++ 41 ∷ [])

abbrev pub as_rule {ℓ} : {A : Type ℓ} → Outcome MatchError A → Outcome RuleFailure A
as_rule (ok a) = ok a
as_rule (err e) = err RuleFailure.rule_error

abbrev pub raised {ℓ} : {A : Type ℓ} → Outcome MatchError A → Outcome RuleFailure A
raised (ok a) = ok a
raised (err e) = err (RuleFailure.match_error e)

-- parse_permission_rule; the effect is none for a text that names none
unfoldable pub parse_permission_rule :
    Text
    → Option PermissionEffect
    → RuleScope
    → List Text
    → List Text
    → Outcome RuleFailure PermissionRule
parse_permission_rule expression effect scope known_tools deferred_tool_prefixes = do
  parted ← or_raise (split_at_paren expression) RuleFailure.rule_error
  let tool_name = parted.0
  raise_if (is_empty tool_name) RuleFailure.rule_error
  pattern ← or_raise (without_close parted.1) RuleFailure.rule_error
  raise_if (not (strip tool_name == tool_name)) RuleFailure.rule_error
  raise_if
      (not (contains known_tools tool_name)
        && not (any (starts_with tool_name) deferred_tool_prefixes))
      RuleFailure.rule_error
  raise_if (is_empty pattern) RuleFailure.rule_error
  parsed_effect ← or_raise effect RuleFailure.rule_error
  is_exact ← as_rule (glob_is_exact pattern)
  specificity ← as_rule (glob_specificity pattern)
  ok (record {
    tool_name = tool_name;
    pattern = pattern;
    effect = parsed_effect;
    scope = scope;
    is_exact = is_exact;
    specificity = specificity;
  })

abbrev pub subject_kind : PermissionTargetKind → MatchSubjectKind
subject_kind PermissionTargetKind.path = MatchSubjectKind.path
subject_kind PermissionTargetKind.path_glob = MatchSubjectKind.path
subject_kind _ = MatchSubjectKind.text

unfoldable pub rule_matches :
    Platform → PermissionRule → PermissionTarget → Outcome RuleFailure Bool
rule_matches platform rule target =
    if not (rule.tool_name == target.tool_name)
    then ok false
    else raised (glob_fullmatch platform rule.pattern target.value (subject_kind target.kind))

-- [rule for rule in rules if rule_matches(rule, target)]
unfoldable pub candidates :
    Platform → PermissionTarget → List PermissionRule → Outcome RuleFailure (List PermissionRule)
candidates platform target [] = ok []
candidates platform target (rule ∷ rules) = do
  matches ← rule_matches platform rule target
  rest ← candidates platform target rules
  ok (if matches then rule ∷ rest else rest)

abbrev pub denies : PermissionRule → Bool
denies rule = elim rule.effect [ PermissionEffect.deny ↦ true | PermissionEffect.allow ↦ false ]

-- The order of the pairs (specificity, effect is deny), compared as Python compares tuples.
unfoldable pub key_less : PermissionRule → PermissionRule → Bool
key_less a b =
    let s = a.specificity in
    let t = b.specificity in
    ltb s.exact t.exact
    || (s.exact == t.exact
        && (ltb s.fixed_text t.fixed_text
            || (s.fixed_text == t.fixed_text
                && (ltb s.segments t.segments
                    || (s.segments == t.segments && (not (denies a) && denies b))))))

-- max: the first of the greatest
unfoldable pub winner : PermissionRule → List PermissionRule → PermissionRule
winner best [] = best
winner best (rule ∷ rules) = winner (if key_less best rule then rule else best) rules

abbrev pub source_by_scope : RuleScope → PermissionSource
source_by_scope RuleScope.session = PermissionSource.session_rule
source_by_scope RuleScope.project_local = PermissionSource.project_local_rule
source_by_scope RuleScope.project = PermissionSource.project_rule
source_by_scope RuleScope.user = PermissionSource.user_rule

abbrev pub Layers : Type 0
Layers = List (RuleScope × List PermissionRule)

abbrev pub layers : PermissionRuleSets → Layers
layers sets =
    (RuleScope.session, sets.session)
    ∷ (RuleScope.project_local, sets.project_local)
    ∷ (RuleScope.project, sets.project)
    ∷ (RuleScope.user, sets.user)
    ∷ []

-- The loop of `PermissionRuleMatcher.match`: later layers are not looked at after a match.
unfoldable pub match_layers :
    Platform → PermissionTarget → Layers → Outcome RuleFailure (Option PermissionMatch)
match_layers platform target [] = ok none
match_layers platform target ((scope, rules) ∷ rest) =
    let later = match_layers platform target rest in
    candidates platform target rules >>= λ found. elim found [
      | [] ↦ later
      | rule ∷ others ↦
          ok (some (record { rule = winner rule others; source = source_by_scope scope }))
    ]

unfoldable pub match_rules :
    Platform → PermissionTarget → PermissionRuleSets → Outcome RuleFailure (Option PermissionMatch)
match_rules platform target sets = match_layers platform target (layers sets)

abbrev effect_beq : PermissionEffect → PermissionEffect → Bool
effect_beq PermissionEffect.allow PermissionEffect.allow = true
effect_beq PermissionEffect.deny PermissionEffect.deny = true
effect_beq _ _ = false

abbrev scope_beq : RuleScope → RuleScope → Bool
scope_beq RuleScope.session RuleScope.session = true
scope_beq RuleScope.project_local RuleScope.project_local = true
scope_beq RuleScope.project RuleScope.project = true
scope_beq RuleScope.user RuleScope.user = true
scope_beq _ _ = false

-- The equality of the frozen dataclass; the exactness and the specificity are of the pattern.
unfoldable pub same_rule : PermissionRule → PermissionRule → Bool
unfolding text_eq
same_rule a b =
    a.tool_name == b.tool_name
    && a.pattern == b.pattern
    && effect_beq a.effect b.effect
    && scope_beq a.scope b.scope

-- PermissionRuleStore.add_session_allow
unfoldable pub add_session_allow :
    PermissionTarget → PermissionRuleSets → Outcome RuleFailure PermissionRuleSets
add_session_allow target sets = do
  rule ←
      parse_permission_rule (exact_rule target) (some PermissionEffect.allow) RuleScope.session
        (target.tool_name ∷ []) []
  ok (
      if any (same_rule rule) sets.session
      then sets
      else record sets { session = sets.session ++ rule ∷ [] })

-- persist_project_local_allow with the rules that `add_local_allow` returns
abbrev pub persist_project_local_allow :
    List PermissionRule → PermissionRuleSets → PermissionRuleSets
persist_project_local_allow updated sets = record sets { project_local = updated }
