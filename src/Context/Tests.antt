-- ===== src/Context/Tests.antt =====
-- A request whose count is observed, and what is kept of a short text.
use mew_code.Prelude.{◌≡◌, refl, none, some, List, [], ◌∷◌, arith}
use mew_code.Prelude.Dict.{lookup}
use mew_code.Prelude.Text.{Text, codes}
use mew_code.Context.Estimator.{
  ModelRequest, TokenUsage, ℤ, preview_parts, new_estimator, observe, estimate,
}
use mew_code.Context.Estimator.Bounds.{IsPreview, preview_parts-IsPreview}
use mew_code.Context.Estimator.Anchor.{IsCache, estimate-observe}

abbrev request : ModelRequest
request = record {
  stable_system = codes "system";
  dynamic_system = [];
  messages = codes "hello" ∷ [];
  tools_text = codes "[]";
}

abbrev digest : List Text → Text
digest parts = []

abbrev usage : TokenUsage
usage = record { input_tokens = some (ℤ.pos 7); context_input_tokens = none }

new_estimator-IsCache : IsCache new_estimator
unfolding lookup
new_estimator-IsCache text m h = absurd (ground arith)

estimate-observe_example :
    (estimate digest request (
      observe
        (estimate digest request new_estimator).0.footprint
        usage
        (estimate digest request new_estimator).1)).0.input_tokens
    ≡ 7
estimate-observe_example =
    estimate-observe digest request new_estimator usage 7 new_estimator-IsCache refl

preview_parts-IsPreview_example :
    IsPreview (codes "a longer payload") 3 (preview_parts (codes "a longer payload") 3)
preview_parts-IsPreview_example = preview_parts-IsPreview (codes "a longer payload") 3
