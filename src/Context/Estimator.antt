-- ===== src/Context/Estimator.antt =====
-- src/mewcode/context/estimator.py, and _preview_parts of src/mewcode/context/tool_results.py.
-- The hash of a signature and the JSON text of a message and of the tools are given; the cache of the
-- messages, which goes by the identity of the objects, is left out.
pub mod Bounds
pub mod Anchor
use mathlib.Core.List.{reverse}
use mew_code.Prelude.{
  ℕ, zero, suc, ◌++◌, ◌+◌, ◌-◌, ◌*◌, Bool, true, false, ◌&&◌, Option, none, some, List, [], ◌∷◌,
  length, take, ltb, leb, map, if◌then◌else◌,
}
use Prim.Native.Nat.{◌/◌}
use mew_code.Prelude.Dict.{Dict, lookup, insert}
use mew_code.Prelude.Text.{Text, text_eq}

pub record CharacterMeasure : Type 0 where
  pub weighted_characters : ℕ

abbrev pub weight : ℕ → ℕ
weight c = if ltb c 128 then 1 else 4

unfoldable pub weighted : Text → ℕ
weighted [] = 0
weighted (c ∷ s) = weight c + weighted s

unfoldable pub measure_text : Text → CharacterMeasure
measure_text text = record { weighted_characters = weighted text }

abbrev pub estimated_tokens : CharacterMeasure → ℕ
estimated_tokens measure = (measure.weighted_characters + 3) / 4

unfoldable pub estimate_text_tokens : Text → ℕ
estimate_text_tokens text = estimated_tokens (measure_text text)

-- The loop of `take_prefix`, up to the character that does not fit.
unfoldable pub prefix_from : ℕ → Text → Text
prefix_from remaining [] = []
prefix_from remaining (c ∷ s) =
    let rest = prefix_from (remaining - weight c) s in
    if ltb remaining (weight c) then [] else c ∷ rest

unfoldable pub take_prefix : Text → ℕ → Text
take_prefix text token_budget =
    let prefix = prefix_from (token_budget * 4) text in if leb token_budget 0 then [] else prefix

-- The loop of `take_suffix` goes from the last character to the first.
unfoldable pub take_suffix : Text → ℕ → Text
take_suffix text token_budget =
    let suffix = reverse (prefix_from (token_budget * 4) (reverse text)) in
    if leb token_budget 0 then [] else suffix

-- text[n:]
abbrev pub drop : ℕ → Text → Text
drop zero s = s
drop (suc n) [] = []
drop (suc n) (c ∷ s) = drop n s

-- The two steps of _preview_parts that use what is left of the budget: a longer head, a longer tail.
unfoldable pub longer_head : Text → ℕ → Text × Text → Text × Text
longer_head payload token_budget (head, tail) =
    let unused = token_budget - estimate_text_tokens head - estimate_text_tokens tail in
    let longer =
      take_prefix (take (length payload - length tail) payload)
        (estimate_text_tokens head + unused) in
    if ltb 0 unused && ltb (length head + length tail) (length payload)
    then (longer, tail)
    else (head, tail)

unfoldable pub longer_tail : Text → ℕ → Text × Text → Text × Text
longer_tail payload token_budget (head, tail) =
    let unused = token_budget - estimate_text_tokens head - estimate_text_tokens tail in
    let longer = take_suffix (drop (length head) payload) (estimate_text_tokens tail + unused) in
    if ltb 0 unused && ltb (length head + length tail) (length payload)
    then (head, longer)
    else (head, tail)

-- _preview_parts
unfoldable pub preview_parts : Text → ℕ → Text × Text
preview_parts payload token_budget =
    let head_budget = token_budget / 2 in
    let head = take_prefix payload head_budget in
    let tail = take_suffix (drop (length head) payload) (token_budget - head_budget) in
    let parts = longer_tail payload token_budget (longer_head payload token_budget (head, tail)) in
    if leb token_budget 0 then ([], []) else parts

-- The parts of a request that are measured, in their order: the two texts of the prompt, the JSON of
-- each message, and that of the tools.
pub record ModelRequest : Type 0 where
  pub stable_system : Text
  pub dynamic_system : Text
  pub messages : List Text
  pub tools_text : Text

pub record RequestFootprint : Type 0 where
  pub measure : CharacterMeasure
  pub message_count : ℕ
  pub signature : Text

pub record TokenEstimate : Type 0 where
  pub input_tokens : ℕ
  pub anchored : Bool
  pub footprint : RequestFootprint

-- An integer, as a provider may report it
pub data ℤ : Type 0 where
  pos negsuc : ℕ → ℤ

-- The token counts that are used of a provider's usage.
pub record TokenUsage : Type 0 where
  pub input_tokens : Option ℤ
  pub context_input_tokens : Option ℤ

-- The anchor is there as a whole, or not at all.
pub record TokenEstimator : Type 0 where
  pub anchor : Option (ℕ × RequestFootprint)
  pub text_cache : Dict Text CharacterMeasure

abbrev pub new_estimator : TokenEstimator
new_estimator = record { anchor = none; text_cache = [] }

-- _measure_cached, without the signature, by what the cache has of the text
unfoldable pub cached_or_new :
    Option CharacterMeasure → Text → TokenEstimator → CharacterMeasure × TokenEstimator
cached_or_new (some measured) text estimator = (measured, estimator)
cached_or_new none text estimator = (
  measure_text text,
  record estimator { text_cache = insert text (measure_text text) estimator.text_cache },
)

unfoldable pub measure_cached : Text → TokenEstimator → CharacterMeasure × TokenEstimator
measure_cached text estimator = cached_or_new (lookup text estimator.text_cache) text estimator

unfoldable pub total : List ℕ → ℕ
total [] = 0
total (n ∷ ns) = n + total ns

-- footprint; `digest` is the signature of the parts
unfoldable pub footprint_of :
    (List Text → Text) → ModelRequest → TokenEstimator → RequestFootprint × TokenEstimator
footprint_of digest request estimator =
    let (stable, first) = measure_cached request.stable_system estimator in
    let (dynamic, second) = measure_cached request.dynamic_system first in
    let (tools, third) = measure_cached request.tools_text second in
    (
      record {
        measure = record {
          weighted_characters =
              stable.weighted_characters
              + (dynamic.weighted_characters
                  + (total (map weighted request.messages) + tools.weighted_characters));
        };
        message_count = length request.messages;
        signature = digest (
            request.stable_system
            ∷ request.dynamic_system
            ∷ (request.messages ++ request.tools_text ∷ []));
      },
      third,
    )

-- max(0, anchor + ceil((now - before) / 4)) on integers: the ceiling of a negative quarter is the
-- quarter's floor, negated.
unfoldable pub shifted : ℕ → ℕ → ℕ → ℕ
shifted anchor before now =
    if leb before now then anchor + (now - before + 3) / 4 else anchor - (before - now) / 4

unfoldable pub estimate_from : Option (ℕ × RequestFootprint) → RequestFootprint → TokenEstimate
estimate_from none footprint = record {
  input_tokens = estimated_tokens footprint.measure;
  anchored = false;
  footprint = footprint;
}
estimate_from (some (tokens, before)) footprint = record {
  input_tokens =
      shifted tokens before.measure.weighted_characters footprint.measure.weighted_characters;
  anchored = true;
  footprint = footprint;
}

unfoldable pub estimate :
    (List Text → Text) → ModelRequest → TokenEstimator → TokenEstimate × TokenEstimator
estimate digest request estimator =
    let (footprint, measured) = footprint_of digest request estimator in
    (estimate_from estimator.anchor footprint, measured)

abbrev pub actual_of : TokenUsage → Option ℤ
actual_of usage = elim usage.context_input_tokens [ some n ↦ some n | none ↦ usage.input_tokens ]

-- observe: a count that is missing or negative is passed over
unfoldable pub observe : RequestFootprint → TokenUsage → TokenEstimator → TokenEstimator
observe footprint usage estimator = elim (actual_of usage) [
  | none ↦ estimator
  | some (ℤ.negsuc n) ↦ estimator
  | some (ℤ.pos actual) ↦ record estimator { anchor = some (actual, footprint) }
]
