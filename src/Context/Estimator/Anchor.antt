-- ===== src/Context/Estimator/Anchor.antt =====
-- The estimate after an observation, and the cache of the texts.
use mew_code.Prelude.{
  ℕ, ◌+◌, ◌≤◌, ◌≡◌, refl, ap, ◌∙◌, Option, none, some, List, [], ◌∷◌, ◌++◌, leb, map, length,
  Bool-cases, inl, inr, arith, ◌==◌, eq_of_==,
}
use mew_code.Prelude.Dict.{lookup, lookup-insert}
use mew_code.Prelude.Text.{Text, text_eq}
use mew_code.Context.Estimator.{
  CharacterMeasure, weighted, measure_text, ModelRequest, RequestFootprint, TokenUsage, ℤ,
  TokenEstimator, cached_or_new, measure_cached, actual_of, estimate_from, total, footprint_of,
  shifted, estimate, observe,
}

-- What the cache holds of a text is the text's measure.
abbrev pub IsCache : TokenEstimator → Type 0
IsCache estimator =
    (text : Text) (m : CharacterMeasure)
    → lookup text estimator.text_cache ≡ some m
    → m ≡ measure_text text

cached_or_new-IsCache :
    (o : Option CharacterMeasure) (text : Text) (estimator : TokenEstimator)
    → lookup text estimator.text_cache ≡ o
    → IsCache estimator
    → ((cached_or_new o text estimator).0 ≡ measure_text text)
      × IsCache (cached_or_new o text estimator).1
      × ((cached_or_new o text estimator).1.anchor ≡ estimator.anchor)
unfolding cached_or_new
cached_or_new-IsCache (some m) text estimator found c = (c text m found, c, refl)
cached_or_new-IsCache none text estimator new c = (
  refl,
  λ other m h.
      let put = lookup-insert text other (measure_text text) estimator.text_cache in
      elim (Bool-cases (text == other)) [
        | inl same ↦
            let e = eq_of_== text other same in
            let stored : some (measure_text text) ≡ some m = ground arith in cc (e, stored)
        | inr old ↦ c other m (ground arith)
      ],
  refl,
)

measure_cached-IsCache :
    (text : Text) (estimator : TokenEstimator)
    → IsCache estimator
    → ((measure_cached text estimator).0 ≡ measure_text text)
      × IsCache (measure_cached text estimator).1
      × ((measure_cached text estimator).1.anchor ≡ estimator.anchor)
unfolding measure_cached
measure_cached-IsCache text estimator c =
    cached_or_new-IsCache (lookup text estimator.text_cache) text estimator refl c

-- The footprint of a request without a cache.
abbrev pub plain_footprint : (List Text → Text) → ModelRequest → RequestFootprint
plain_footprint digest request = record {
  measure = record {
    weighted_characters =
        weighted request.stable_system
        + (weighted request.dynamic_system
            + (total (map weighted request.messages) + weighted request.tools_text));
  };
  message_count = length request.messages;
  signature = digest (
      request.stable_system
      ∷ request.dynamic_system
      ∷ (request.messages ++ request.tools_text ∷ []));
}

module _ (digest : List Text → Text) (request : ModelRequest) where
  footprint_of-plain :
      (estimator : TokenEstimator)
      → IsCache estimator
      → ((footprint_of digest request estimator).0 ≡ plain_footprint digest request)
        × IsCache (footprint_of digest request estimator).1
        × ((footprint_of digest request estimator).1.anchor ≡ estimator.anchor)
  unfolding footprint_of measure_text
  footprint_of-plain estimator c =
      let (e1, c1, a1) = measure_cached-IsCache request.stable_system estimator c in
      let first = (measure_cached request.stable_system estimator).1 in
      let (e2, c2, a2) = measure_cached-IsCache request.dynamic_system first c1 in
      let second = (measure_cached request.dynamic_system first).1 in
      let (e3, c3, a3) = measure_cached-IsCache request.tools_text second c2 in
      (rw (e1, e2, e3) refl, c3, a3 ∙ a2 ∙ a1)

  -- The cache of the texts changes no estimate: from a cache that holds measures of its texts, the
  -- estimate is that of the plain footprint, and the cache it leaves holds measures of its texts.
  pub estimate-plain :
      (estimator : TokenEstimator)
      → IsCache estimator
      → ((estimate digest request estimator).0
          ≡ estimate_from estimator.anchor (plain_footprint digest request))
        × IsCache (estimate digest request estimator).1
  unfolding estimate
  estimate-plain estimator c =
      let (same, kept, anchor) = footprint_of-plain estimator c in
      (ap (estimate_from estimator.anchor) same, kept)

shifted_same : (n w : ℕ) → shifted n w w ≡ n
unfolding shifted
shifted_same n w = ground arith

estimate_from-footprint :
    (anchor : Option (ℕ × RequestFootprint)) (f : RequestFootprint)
    → (estimate_from anchor f).footprint ≡ f
unfolding estimate_from
estimate_from-footprint none f = refl
estimate_from-footprint (some (n, g)) f = refl

observe-anchor :
    (f : RequestFootprint) (usage : TokenUsage) (n : ℕ) (estimator : TokenEstimator)
    → actual_of usage ≡ some (ℤ.pos n)
    → observe f usage estimator ≡ record estimator { anchor = some (n, f) }
unfolding observe
observe-anchor f usage n estimator counted = ground arith

-- After the provider's count of a request is observed, which is not negative, the estimate of the same
-- request is that count.
pub estimate-observe :
    (digest : List Text → Text) (request : ModelRequest) (estimator : TokenEstimator)
    (usage : TokenUsage) (n : ℕ)
    → IsCache estimator
    → actual_of usage ≡ some (ℤ.pos n)
    → (estimate digest request (
        observe
          (estimate digest request estimator).0.footprint
          usage
          (estimate digest request estimator).1)).0.input_tokens
      ≡ n
unfolding estimate_from
estimate-observe digest request estimator usage n c counted =
    let first = estimate digest request estimator in
    let plain = plain_footprint digest request in
    let (same, kept) = estimate-plain digest request estimator c in
    let seen : first.0.footprint ≡ plain =
      ap (λ z. z.footprint) same ∙ estimate_from-footprint estimator.anchor plain in
    let noted = observe-anchor first.0.footprint usage n first.1 counted in
    let (again, _) =
      estimate-plain digest request (record first.1 { anchor = some (n, first.0.footprint) })
        kept in
    ap (λ e. (estimate digest request e).0.input_tokens) noted
    ∙ ap (λ z. z.input_tokens) again
    ∙ ap (λ f. shifted n f.measure.weighted_characters plain.measure.weighted_characters) seen
    ∙ shifted_same n plain.measure.weighted_characters

-- After an observation a longer request is never estimated at less.
pub shifted_mono :
    (anchor before now later : ℕ)
    → now ≤ later
    → shifted anchor before now ≤ shifted anchor before later
unfolding shifted
shifted_mono anchor before now later h = elim (Bool-cases (leb before now)) [
  | inl under ↦ elim (Bool-cases (leb before later)) [
    | inl over ↦ let a : before ≤ now = ground arith in rw (under, over) (omega arith)
    | inr less ↦ absurd (ground arith)
  ]
  | inr above ↦ elim (Bool-cases (leb before later)) [
    | inl over ↦ rw (above, over) (omega arith)
    | inr less ↦ rw (above, less) (omega arith)
  ]
]
