-- ===== src/Permissions/Rules/Exact.antt =====
-- The rule of a target itself: its expression is read back, and it matches the target.
use mew_code.Prelude.{
  ℕ, ◌+◌, ◌≡◌, ◌≢◌, refl, Bool, true, false, ◌&&◌, some, List, [], ◌∷◌, ◌++◌, length, any, contains,
  ◌==◌, nat_eq, Outcome, ok, if◌then◌else◌, arith, Bool-cases, inl, inr, ==_self, eq_of_==,
}
use mew_code.Prelude.Text.{Text, text_eq, is_empty, strip}
use mew_code.Prelude.Dict.Laws.{All}
use mew_code.Glob.{
  Platform, escape_exact_glob, glob_fullmatch, glob_is_exact, glob_specificity, slashes, is_path,
}
use mew_code.Glob.Escape.{literal_text, compile_glob-escape, escape_exact_glob-IsExact}
use mew_code.Permissions.Models.{
  PermissionEffect, PermissionRule, PermissionTarget, RuleScope, Specificity,
}
use mew_code.Permissions.Rules.{
  RuleFailure, split_at_paren, without_close, exact_rule, parse_permission_rule, rule_matches,
  subject_kind, candidates, same_rule, denies,
}

split_at_paren-append :
    (name rest : Text)
    → contains name 40 ≡ false
    → split_at_paren (name ++ 40 ∷ rest) ≡ some (name, rest)
unfolding split_at_paren contains
split_at_paren-append [] rest h = refl
split_at_paren-append (c ∷ name) rest h = ground (arith, split_at_paren-append name rest)

not_empty_append : (p : Text) (c : ℕ) → is_empty (p ++ c ∷ []) ≡ false
not_empty_append [] c = refl
not_empty_append (x ∷ p) c = refl

without_close-append : (p : Text) → without_close (p ++ 41 ∷ []) ≡ some p
unfolding without_close
without_close-append [] = refl
without_close-append (c ∷ p) = rw (not_empty_append p 41, without_close-append p) refl

escape-not_empty : (v : Text) → is_empty v ≡ false → is_empty (escape_exact_glob v) ≡ false
unfolding escape_exact_glob
escape-not_empty [] h = absurd cc
escape-not_empty (c ∷ v) h = ground arith

-- A target whose rule can be written: a name of a tool, and a value.
pub record IsNamed (target : PermissionTarget) : Type 0 where
  pub name : is_empty target.tool_name ≡ false
  pub no_paren : contains target.tool_name 40 ≡ false
  pub stripped : strip target.tool_name ≡ target.tool_name
  pub value : is_empty target.value ≡ false

abbrev pub exact_allow : PermissionTarget → PermissionRule
exact_allow target = record {
  tool_name = target.tool_name;
  pattern = escape_exact_glob target.value;
  effect = PermissionEffect.allow;
  scope = RuleScope.session;
  is_exact = true;
  specificity = record {
    exact = 1;
    fixed_text = length target.value;
    segments = slashes target.value + 1;
  };
}

-- An expression that is split into a name and a pattern, both of them good.
parse_parted :
    (expression name after pattern : Text) (is_exact : Bool) (specificity : Specificity)
    → split_at_paren expression ≡ some (name, after)
    → is_empty name ≡ false
    → without_close after ≡ some pattern
    → strip name ≡ name
    → is_empty pattern ≡ false
    → glob_is_exact pattern ≡ ok is_exact
    → glob_specificity pattern ≡ ok specificity
    → parse_permission_rule expression
        (some PermissionEffect.allow)
        RuleScope.session
        (name ∷ [])
        []
      ≡ ok (record {
        tool_name = name;
        pattern = pattern;
        effect = PermissionEffect.allow;
        scope = RuleScope.session;
        is_exact = is_exact;
        specificity = specificity;
      })
unfolding parse_permission_rule contains any
parse_parted expression name after pattern is_exact specificity parted named closed stripped full
      exact weight =
    rw (parted, named, closed, stripped, ==_self name, full, exact, weight) refl

-- The expression that a target writes for itself is read as the exact rule of that target.
pub exact_rule-parse_permission_rule :
    (target : PermissionTarget)
    → IsNamed target
    → parse_permission_rule
        (exact_rule target)
        (some PermissionEffect.allow)
        RuleScope.session
        (target.tool_name ∷ [])
        []
      ≡ ok (exact_allow target)
unfolding exact_rule
exact_rule-parse_permission_rule target h =
    let pattern = escape_exact_glob target.value in
    let (exact, weight) = escape_exact_glob-IsExact target.value in
    parse_parted _ target.tool_name (pattern ++ 41 ∷ []) pattern _ _
      (split_at_paren-append target.tool_name (pattern ++ 41 ∷ []) h.no_paren) h.name
      (without_close-append pattern) h.stripped (escape-not_empty target.value h.value) exact weight

-- What `re` documents of an expression whose every character is escaped: it compiles, and the whole
-- of that text matches it.
pub record ReadsLiterals (platform : Platform) : Type 0 where
  pub total :
      (ignore_case : Bool) (v s : Text)
      → (b : Bool) × (platform.re_fullmatch ignore_case (94 ∷ literal_text platform v ++ 36 ∷ []) s
          ≡ some b)
  pub itself :
      (ignore_case : Bool) (v : Text)
      → platform.re_fullmatch ignore_case (94 ∷ literal_text platform v ++ 36 ∷ []) v ≡ some true

-- A rule that only lets a text through, as the store adds them for a session.
abbrev pub AllowsText : PermissionRule → Type 0
AllowsText r = (denies r ≡ false) × (v : Text) × (r.pattern ≡ escape_exact_glob v)

module _ (platform : Platform) (target : PermissionTarget) where
  -- Matching such a rule never raises.
  rule_matches-AllowsText :
      (r : PermissionRule)
      → ReadsLiterals platform
      → AllowsText r
      → (b : Bool) × (rule_matches platform r target ≡ ok b)
  unfolding rule_matches glob_fullmatch
  rule_matches-AllowsText r re (allows, v, e) =
      elim (Bool-cases (r.tool_name == target.tool_name)) [
        | inr other ↦ (false, rw other refl)
        | inl same ↦
            let (b, reads) =
              re.total (is_path (subject_kind target.kind) && platform.windows) v target.value in
            (b, rw (same, e, compile_glob-escape platform v (subject_kind target.kind), reads) refl)
      ]

  rule_matches-same_rule :
      (r : PermissionRule)
      → ReadsLiterals platform
      → same_rule (exact_allow target) r ≡ true
      → rule_matches platform r target ≡ ok true
  unfolding rule_matches glob_fullmatch same_rule
  rule_matches-same_rule r re same =
      let named : target.tool_name ≡ r.tool_name = eq_of_== _ _ (ground arith) in
      let read : escape_exact_glob target.value ≡ r.pattern = eq_of_== _ _ (ground arith) in
      let kind = subject_kind target.kind in
      rw
        (
          ← named,
          ==_self target.tool_name,
          ← read,
          compile_glob-escape platform target.value kind,
          re.itself (is_path kind && platform.windows) target.value,
        )
        refl

  -- Looking through such rules never raises, and finds no denial; it finds a rule if the target's own
  -- is among them.
  pub candidates-AllowsText :
      (rules : List PermissionRule)
      → ReadsLiterals platform
      → All AllowsText rules
      → (found : List PermissionRule) × (candidates platform target rules ≡ ok found)
        × All (λ r. denies r ≡ false) found
        × (any (same_rule (exact_allow target)) rules ≡ true → found ≢ [])
  unfolding candidates any
  candidates-AllowsText [] re h = ([], refl, tt, λ x. cc)
  candidates-AllowsText (r ∷ rules) re h =
      let (found, e, allow, there) = candidates-AllowsText rules re h.1 in
      let (b, matches) = rule_matches-AllowsText r re h.0 in
      rw (matches, e) (kept b matches found allow there)
    where
      stated : List PermissionRule → Outcome RuleFailure (List PermissionRule)
      stated rs = ok rs

      kept :
          (b : Bool)
          → rule_matches platform r target ≡ ok b
          → (found : List PermissionRule) → All (λ r. denies r ≡ false) found
          → (any (same_rule (exact_allow target)) rules ≡ true → found ≢ [])
          → (kept_rules : List PermissionRule) × (stated (if b then r ∷ found else found)
              ≡ ok kept_rules)
            × All (λ r. denies r ≡ false) kept_rules
            × (any (same_rule (exact_allow target)) (r ∷ rules) ≡ true → kept_rules ≢ [])
      kept true m found allow there = (r ∷ found, refl, (h.0.0, allow), λ _ gone. cc)
      kept false m found allow there =
          (found, refl, allow, λ x. there (ground (arith, rule_matches-same_rule r re)))
