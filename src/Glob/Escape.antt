-- ===== src/Glob/Escape.antt =====
-- An escaped text is a pattern of that text alone.
use mew_code.Prelude.{
  ℕ, ◌+◌, ◌≡◌, refl, Bool, true, false, ◌&&◌, List, [], ◌∷◌, ◌++◌, map, any, contains, ◌==◌, nat_eq,
  ok, arith, length, Bool-cases, inl, inr,
}
use mew_code.Prelude.Text.{Text}
use mew_code.Glob.{
  MatchSubjectKind, GlobToken, Platform, special, read_tokens, class_step,
  validate_character_classes, tokenize_glob, wild, glob_is_exact, fixed_length, slashes,
  glob_specificity, Reading, part, parts, compile_glob, escape_exact_glob, is_path,
}

-- The token of a character that stands for itself.
abbrev pub literal : ℕ → GlobToken
literal c = record { value = c; escaped = special c }

not_backslash : (c : ℕ) → special c ≡ false → (c == 92) ≡ false
unfolding special contains
not_backslash c h = ground arith

class_step-literal : (c : ℕ) → class_step false 0 (literal c) ≡ ok (false, 0)
unfolding class_step special contains
class_step-literal c = ground arith

part-literal :
    (platform : Platform) (path_mode : Bool) (c : ℕ) (after : List GlobToken)
    → part platform path_mode (literal c) after ≡ (platform.re_escape c, Reading.skip 0)
unfolding part special contains
part-literal platform path_mode c after = ground arith

read_tokens-escape : (v : Text) → read_tokens false (escape_exact_glob v) ≡ ok (map literal v)
unfolding read_tokens escape_exact_glob
read_tokens-escape [] = refl
read_tokens-escape (c ∷ v) = elim (Bool-cases (special c)) [
  | inl s ↦ rw (s, s, read_tokens-escape v) refl
  | inr s ↦ rw (s, not_backslash c s, read_tokens-escape v) refl
]

literals_are_valid : (v : Text) → validate_character_classes false 0 (map literal v) ≡ ok tt
unfolding validate_character_classes
literals_are_valid [] = refl
literals_are_valid (c ∷ v) = rw (class_step-literal c) (literals_are_valid v)

pub tokenize_glob-escape : (v : Text) → tokenize_glob (escape_exact_glob v) ≡ ok (map literal v)
unfolding tokenize_glob
tokenize_glob-escape v = rw (read_tokens-escape v, literals_are_valid v) refl

no_wild : (v : Text) → any wild (map literal v) ≡ false
unfolding any wild special contains
no_wild [] = refl
no_wild (c ∷ v) = ground (arith, no_wild v)

all_fixed : (v : Text) → fixed_length (map literal v) ≡ length v
unfolding fixed_length special contains
all_fixed [] = refl
all_fixed (c ∷ v) = ground (arith, all_fixed v)

slashes-escape : (v : Text) → slashes (escape_exact_glob v) ≡ slashes v
unfolding slashes escape_exact_glob special contains
slashes-escape [] = refl
slashes-escape (c ∷ v) = ground (arith, slashes-escape v)

-- The expression of a text: each character escaped.
unfoldable pub literal_text : Platform → Text → Text
literal_text platform [] = []
literal_text platform (c ∷ v) = platform.re_escape c ++ literal_text platform v

parts-literal :
    (platform : Platform) (path_mode : Bool) (v : Text)
    → parts platform path_mode (Reading.skip 0) (map literal v) ≡ literal_text platform v
unfolding parts literal_text
parts-literal platform path_mode [] = refl
parts-literal platform path_mode (c ∷ v) =
    rw (part-literal platform path_mode c (map literal v), parts-literal platform path_mode v) refl

-- The regular expression of an escaped text is the text with each character escaped for `re`.
pub compile_glob-escape :
    (platform : Platform) (v : Text) (kind : MatchSubjectKind)
    → compile_glob platform (escape_exact_glob v) kind
      ≡ ok (94 ∷ literal_text platform v ++ 36 ∷ [], is_path kind && platform.windows)
unfolding compile_glob
compile_glob-escape platform v kind =
    rw (tokenize_glob-escape v, parts-literal platform (is_path kind) v) refl

-- An escaped text is a pattern without wildcards: it is exact, and its specificity counts every
-- character of the text as fixed.
pub escape_exact_glob-IsExact :
    (v : Text)
    → (glob_is_exact (escape_exact_glob v) ≡ ok true)
      × (glob_specificity (escape_exact_glob v)
          ≡ ok (record { exact = 1; fixed_text = length v; segments = slashes v + 1 }))
unfolding glob_is_exact glob_specificity
escape_exact_glob-IsExact v =
    rw (tokenize_glob-escape v, no_wild v, all_fixed v, slashes-escape v) (refl, refl)
