-- ===== src/Prelude/Text.antt =====
-- Python's `str` as the list of its code points, with the methods that the source calls.
use Prim.Native.Char.{code}
use Prim.Native.String.{String}
use Prim.Native.Nat.{ℕ, ◌+◌}
use mathlib.Core.Bool.{Bool, true, false, ◌&&◌, ◌||◌}
use mathlib.Core.List.{List, [], ◌∷◌, ◌++◌, reverse}
use mew_code.Prelude.Tests.{nat_beq, leb, ltb, if◌then◌else◌}
use mew_code.Prelude.Lists.{take}
use mew_code.Prelude.Keys.{Eq, nat_eq, list_eq}

abbrev pub Text : Type 0
Text = List ℕ

-- The code points of a literal.
abbrev pub codes : String → Text
codes String.[] = []
codes (String.◌∷◌ c s) = code c ∷ codes s

abbrev pub is_empty : Text → Bool
is_empty [] = true
is_empty (c ∷ s) = false

-- The code points that `str.strip` removes.
unfoldable pub is_space : ℕ → Bool
is_space c =
    (leb 9 c && leb c 13)
    || (leb 28 c && leb c 32)
    || nat_beq c 133
    || nat_beq c 160
    || nat_beq c 5760
    || (leb 8192 c && leb c 8202)
    || nat_beq c 8232
    || nat_beq c 8233
    || nat_beq c 8239
    || nat_beq c 8287
    || nat_beq c 12288

unfoldable pub lstrip : Text → Text
unfolding is_space
lstrip [] = []
lstrip (c ∷ s) = if is_space c then lstrip s else c ∷ s

-- s.strip()
unfoldable pub strip : Text → Text
unfolding lstrip
strip s = reverse (lstrip (reverse (lstrip s)))

-- len(s.encode("utf-8"))
unfoldable pub utf8_length : Text → ℕ
utf8_length [] = 0
utf8_length (c ∷ s) =
    (if ltb c 128 then 1 else if ltb c 2048 then 2 else if ltb c 65536 then 3 else 4)
    + utf8_length s

-- The line breaks of `str.splitlines`; "\r\n" is one of them, read in `one_line`.
unfoldable pub is_break : ℕ → Bool
is_break c =
    (leb 10 c && leb c 13)
    || (leb 28 c && leb c 30)
    || nat_beq c 133
    || nat_beq c 8232
    || nat_beq c 8233

-- The break that stands before the text still to read.
pub data Pending : Type 0 where
  nothing carriage_return line_break : Pending

abbrev separator : Pending → Text
separator nothing = []
separator _ = 32 ∷ []

abbrev swallows : Pending → ℕ → Bool
swallows carriage_return c = nat_beq c 10
swallows _ c = false

-- " ".join(s.splitlines()): a break at the end of the text leaves nothing.
unfoldable pub one_line : Pending → Text → Text
unfolding is_break
one_line p [] = []
one_line p (c ∷ s) =
    let joined = swallows p c in
    let out = if joined then [] else separator p ++ (if is_break c then [] else c ∷ []) in
    let next =
      if joined
      then line_break
      else if is_break c
      then (if nat_beq c 13 then carriage_return else line_break)
      else nothing in
    out ++ one_line next s

-- bounded_text for a value that is not None
unfoldable pub bounded_text : ℕ → Text → Text
unfolding one_line
bounded_text limit s = take limit (one_line nothing s)

instance unfoldable pub text_eq : Eq Text
text_eq = list_eq

instance unfoldable pub texts_eq : Eq (List Text)
texts_eq = list_eq

-- s < t for Python's str, which goes by code points
unfoldable pub text_less : Text → Text → Bool
text_less s [] = false
text_less [] (d ∷ t) = true
text_less (c ∷ s) (d ∷ t) = ltb c d || (nat_beq c d && text_less s t)
