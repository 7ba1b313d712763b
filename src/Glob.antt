-- ===== src/Glob.antt =====
-- src/mewcode/matching.py: the glob patterns of permission rules and hooks, and their regular
-- expressions. Python's `re` and the name of the system are the parameter `Platform`.
pub mod Escape
use mew_code.Prelude.{
  ℕ, zero, suc, ◌+◌, Bool, true, false, not, ◌&&◌, ◌||◌, Option, none, some, List, [], ◌∷◌, ◌++◌,
  any, contains, ◌==◌, nat_eq, Outcome, ok, err, ◌>>=◌, ◌>>◌, raise_if, if◌then◌else◌,
}
use mew_code.Prelude.Text.{Text, codes}
use mew_code.Permissions.Models.{Specificity}

pub data MatchSubjectKind : Type 0 where
  text path : MatchSubjectKind

-- GlobPatternError of this file, and `re.error`, which `re.compile` raises
pub data MatchError : Type 0 where
  pattern_error re_error : MatchError

-- The value of a token is one character.
pub record GlobToken : Type 0 where
  pub value : ℕ
  pub escaped : Bool

-- The library `re` and `os.name`: the escape of a character, the match of a whole text against a
-- compiled expression with or without IGNORECASE (none is `re.error`), and whether this is Windows.
pub record Platform : Type 0 where
  pub re_escape : ℕ → Text
  pub re_fullmatch : Bool → Text → Text → Option Bool
  pub windows : Bool

-- The characters that a backslash may stand before: \ * ? [ ]
unfoldable pub special : ℕ → Bool
special c = contains (92 ∷ 42 ∷ 63 ∷ 91 ∷ 93 ∷ []) c

-- The loop of `tokenize_glob`, after a backslash or not.
unfoldable pub read_tokens : Bool → Text → Outcome MatchError (List GlobToken)
read_tokens escaped [] = raise_if escaped MatchError.pattern_error >> ok []
read_tokens escaped (c ∷ s) = do
  let opens = not escaped && c == 92
  raise_if (escaped && not (special c)) MatchError.pattern_error
  rest ← read_tokens opens s
  ok (if opens then rest else record { value = c; escaped = escaped } ∷ rest)

-- One round of `_validate_character_classes`: whether it is inside a class, and its content.
unfoldable pub class_step : Bool → ℕ → GlobToken → Outcome MatchError (Bool × ℕ)
class_step inside content token =
    let counted = if inside then content + 1 else content in
    if token.escaped
    then ok (inside, counted)
    else if token.value == 91
    then (raise_if inside MatchError.pattern_error >> ok (true, 0))
    else if token.value == 93
    then (raise_if (not inside || content == 0) MatchError.pattern_error >> ok (false, content))
    else ok (inside, counted)

unfoldable pub validate_character_classes :
    Bool → ℕ → List GlobToken → Outcome MatchError (Unit {0})
validate_character_classes inside content [] = raise_if inside MatchError.pattern_error
validate_character_classes inside content (token ∷ tokens) = do
  state ← class_step inside content token
  validate_character_classes state.0 state.1 tokens

unfoldable pub tokenize_glob : Text → Outcome MatchError (List GlobToken)
tokenize_glob pattern = do
  tokens ← read_tokens false pattern
  validate_character_classes false 0 tokens
  ok tokens

-- A token that is not fixed text: * ? [
unfoldable pub wild : GlobToken → Bool
wild token = not token.escaped && contains (42 ∷ 63 ∷ 91 ∷ []) token.value

unfoldable pub glob_is_exact : Text → Outcome MatchError Bool
glob_is_exact pattern = do tokens ← tokenize_glob pattern; ok (not (any wild tokens))

unfoldable pub fixed_length : List GlobToken → ℕ
fixed_length [] = 0
fixed_length (token ∷ tokens) =
    (if token.escaped || not (contains (42 ∷ 63 ∷ 91 ∷ 93 ∷ []) token.value) then 1 else 0)
    + fixed_length tokens

-- pattern.count("/")
unfoldable pub slashes : Text → ℕ
slashes [] = 0
slashes (c ∷ s) = (if c == 47 then 1 else 0) + slashes s

unfoldable pub glob_specificity : Text → Outcome MatchError Specificity
glob_specificity pattern = do
  tokens ← tokenize_glob pattern
  ok (record {
    exact = if any wild tokens then 0 else 1;
    fixed_text = fixed_length tokens;
    segments = slashes pattern + 1;
  })

-- Where the loop of `compile_glob` is: so many tokens are still to skip, or inside a class.
pub data Reading : Type 0 where
  skip : ℕ → Reading
  in_class : Reading

abbrev pub plain : ℕ → GlobToken → Bool
plain c token = token.value == c && not token.escaped

abbrev pub begins : ℕ → List GlobToken → Bool
begins c [] = false
begins c (token ∷ tokens) = plain c token

abbrev pub begins_second : ℕ → List GlobToken → Bool
begins_second c [] = false
begins_second c (token ∷ tokens) = begins c tokens

-- The expression of one token outside a class, by what follows it.
unfoldable pub part : Platform → Bool → GlobToken → List GlobToken → Text × Reading
part platform path_mode token after =
    if token.escaped
    then (platform.re_escape token.value, Reading.skip 0)
    else if token.value == 42
    then (if path_mode && begins 42 after
        then (if begins_second 47 after
            then (codes "(?:.*/)?", Reading.skip 2)
            else (codes ".*", Reading.skip 1))
        else (if path_mode then codes "[^/]*" else codes ".*", Reading.skip 0))
    else if token.value == 63
    then (if path_mode then codes "[^/]" else codes ".", Reading.skip 0)
    else if token.value == 91
    then ((if path_mode then codes "(?!/)" else []) ++ codes "[", Reading.in_class)
    else (platform.re_escape token.value, Reading.skip 0)

-- A character of a class; \ ] and ^ have a backslash.
unfoldable pub class_part : GlobToken → Text
class_part token =
    if contains (92 ∷ 93 ∷ 94 ∷ []) token.value then 92 ∷ token.value ∷ [] else token.value ∷ []

unfoldable pub parts : Platform → Bool → Reading → List GlobToken → Text
parts platform path_mode (Reading.skip n) [] = []
parts platform path_mode Reading.in_class [] = codes "]"
parts platform path_mode (Reading.skip (suc n)) (token ∷ tokens) =
    parts platform path_mode (Reading.skip n) tokens
parts platform path_mode (Reading.skip zero) (token ∷ tokens) =
    let (out, next) = part platform path_mode token tokens in
    out ++ parts platform path_mode next tokens
parts platform path_mode Reading.in_class (token ∷ tokens) =
    let ends = plain 93 token in
    (if ends then codes "]" else class_part token)
    ++ parts platform path_mode (if ends then Reading.skip 0 else Reading.in_class) tokens

abbrev pub is_path : MatchSubjectKind → Bool
is_path MatchSubjectKind.path = true
is_path MatchSubjectKind.text = false

-- compile_glob: the text of the expression and whether it has IGNORECASE
unfoldable pub compile_glob : Platform → Text → MatchSubjectKind → Outcome MatchError (Text × Bool)
compile_glob platform pattern kind = do
  tokens ← tokenize_glob pattern
  ok (
    94 ∷ parts platform (is_path kind) (Reading.skip 0) tokens ++ 36 ∷ [],
    is_path kind && platform.windows,
  )

unfoldable pub glob_fullmatch : Platform → Text → Text → MatchSubjectKind → Outcome MatchError Bool
glob_fullmatch platform pattern subject kind = do
  compiled ← compile_glob platform pattern kind
  elim (platform.re_fullmatch compiled.1 compiled.0 subject) [
    | none ↦ err MatchError.re_error
    | some b ↦ ok b
  ]

unfoldable pub escape_exact_glob : Text → Text
escape_exact_glob [] = []
escape_exact_glob (c ∷ s) = (if special c then 92 ∷ c ∷ [] else c ∷ []) ++ escape_exact_glob s
