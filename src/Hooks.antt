-- ===== src/Hooks.antt =====
-- src/mewcode/hooks/conditions.py with the condition types of hooks/models.py: whether an event fires a
-- hook. Python's `str.isdecimal` with `int` and the library `regex` are parameters. A float is left out.
use mew_code.Prelude.{
  ℕ, zero, suc, Bool, true, false, not, ◌&&◌, Option, none, some, List, [], ◌∷◌, all, any, ◌==◌,
  nat_eq, nat_beq, Outcome, ok, ◌>>=◌, if◌then◌else◌,
}
use mew_code.Prelude.Dict.{Dict, lookup}
use mew_code.Prelude.Text.{Text, text_eq}
use mew_code.Glob.{Platform, MatchSubjectKind, MatchError, glob_fullmatch}

pub data HookMatchKind : Type 0 where
  exact glob regex : HookMatchKind

pub data HookLogic : Type 0 where
  all_of any_of : HookLogic

-- A negative integer is flagged.
pub data Scalar : Type 0 where
  null : Scalar
  boolean : Bool → Scalar
  integer : Bool → ℕ → Scalar
  string : Text → Scalar

-- The value of a field: a scalar, a mapping or a sequence.
mutual
  pub data HookValue : Type 0 where
    scalar : Scalar → HookValue
    mapping : HookFields → HookValue
    sequence : HookItems → HookValue

  pub data HookFields : Type 0 where
    no_field : HookFields
    field : Text → HookValue → HookFields → HookFields

  pub data HookItems : Type 0 where
    no_item : HookItems
    item : HookValue → HookItems → HookItems

pub record HookConditionClause : Type 0 where
  pub field_path : Text
  pub match : HookMatchKind
  pub value : Scalar
  pub negate : Bool

pub record HookCondition : Type 0 where
  pub logic : HookLogic
  pub clauses : List HookConditionClause

pub record HookEventContext : Type 0 where
  pub values : HookFields
  pub match_kinds : Dict Text MatchSubjectKind

-- Python's reading of a decimal part of a path, and the library `regex`: the match of a whole text,
-- none for an error of the expression or the time limit.
pub record HookPlatform : Type 0 where
  pub decimal : Text → Option ℕ
  pub regex_fullmatch : Text → Text → Option Bool
  pub globs : Platform

-- path.split(".")
unfoldable pub split_dots : Text → Text → List Text
split_dots part [] = part ∷ []
split_dots part (c ∷ s) =
    let ended = part ∷ split_dots [] s in
    let longer = split_dots (snoc part c) s in if nat_beq c 46 then ended else longer
  where
    snoc : Text → ℕ → Text
    snoc [] d = d ∷ []
    snoc (x ∷ xs) d = x ∷ snoc xs d

unfoldable pub find_field : Text → HookFields → Option HookValue
find_field name HookFields.no_field = none
find_field name (HookFields.field key value rest) =
    let later = find_field name rest in if key == name then some value else later

unfoldable pub nth_item : ℕ → HookItems → Option HookValue
nth_item n HookItems.no_item = none
nth_item zero (HookItems.item value rest) = some value
nth_item (suc n) (HookItems.item value rest) = nth_item n rest

-- One step of `resolve_field`.
unfoldable pub step_into : HookPlatform → Text → HookValue → Option HookValue
step_into platform part (HookValue.scalar s) = none
step_into platform part (HookValue.mapping fields) = find_field part fields
step_into platform part (HookValue.sequence items) = elim (platform.decimal part) [
  | none ↦ none
  | some index ↦ nth_item index items
]

unfoldable pub resolve_parts : HookPlatform → List Text → HookValue → Option HookValue
resolve_parts platform [] current = some current
resolve_parts platform (part ∷ parts) current = elim (step_into platform part current) [
  | none ↦ none
  | some next ↦ resolve_parts platform parts next
]

-- resolve_field; none is _MISSING
unfoldable pub resolve_field : HookPlatform → HookFields → Text → Option HookValue
resolve_field platform values path =
    resolve_parts platform (split_dots [] path) (HookValue.mapping values)

abbrev bool_beq : Bool → Bool → Bool
bool_beq true b = b
bool_beq false b = not b

-- The same type and equal
unfoldable pub same_scalar : Scalar → Scalar → Bool
same_scalar Scalar.null Scalar.null = true
same_scalar (Scalar.boolean a) (Scalar.boolean b) = bool_beq a b
same_scalar (Scalar.integer s a) (Scalar.integer t b) = bool_beq s t && a == b
same_scalar (Scalar.string a) (Scalar.string b) = a == b
same_scalar _ _ = false

abbrev kind_of : Option MatchSubjectKind → MatchSubjectKind
kind_of none = MatchSubjectKind.text
kind_of (some kind) = kind

abbrev true_of : Option Bool → Bool
true_of none = false
true_of (some b) = b

-- The match of a text against the text of a clause.
unfoldable pub text_matches :
    HookPlatform → HookEventContext → HookConditionClause → Text → Text → Outcome MatchError Bool
text_matches platform event clause pattern actual = elim clause.match [
  | HookMatchKind.exact ↦ ok (pattern == actual)
  | HookMatchKind.glob ↦
      glob_fullmatch platform.globs pattern actual
        (kind_of (lookup clause.field_path event.match_kinds))
  | HookMatchKind.regex ↦ ok (true_of (platform.regex_fullmatch pattern actual))
]

abbrev is_exact_kind : HookMatchKind → Bool
is_exact_kind HookMatchKind.exact = true
is_exact_kind _ = false

-- `matched` of `_clause_matches`, before the negation.
unfoldable pub value_matches :
    HookPlatform
    → HookEventContext
    → HookConditionClause
    → Option HookValue
    → Outcome MatchError Bool
value_matches platform event clause (some (HookValue.scalar (Scalar.string actual))) =
    elim clause.value [
      | Scalar.string pattern ↦ text_matches platform event clause pattern actual
      | _ ↦ ok false
    ]
value_matches platform event clause (some (HookValue.scalar actual)) =
    ok (is_exact_kind clause.match && same_scalar actual clause.value)
value_matches platform event clause _ = ok false

unfoldable pub clause_matches :
    HookPlatform → HookEventContext → HookConditionClause → Outcome MatchError Bool
clause_matches platform event clause = do
  matched ←
      value_matches platform event clause (resolve_field platform event.values clause.field_path)
  ok (if clause.negate then not matched else matched)

-- [self._clause_matches(clause, event) for clause in condition.clauses]
unfoldable pub clause_results :
    HookPlatform → HookEventContext → List HookConditionClause → Outcome MatchError (List Bool)
clause_results platform event [] = ok []
clause_results platform event (clause ∷ clauses) = do
  result ← clause_matches platform event clause
  results ← clause_results platform event clauses
  ok (result ∷ results)

abbrev itself : Bool → Bool
itself b = b

unfoldable pub matches :
    HookPlatform → Option HookCondition → HookEventContext → Outcome MatchError Bool
matches platform none event = ok true
matches platform (some condition) event = do
  results ← clause_results platform event condition.clauses
  ok (elim condition.logic [
    | HookLogic.all_of ↦ all itself results
    | HookLogic.any_of ↦ any itself results
  ])
