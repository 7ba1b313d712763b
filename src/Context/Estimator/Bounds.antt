-- ===== src/Context/Estimator/Bounds.antt =====
-- What is taken of a text fits its budget, and no more of it would.
use mathlib.Core.List.{
  reverse, append_assoc, append-nil, reverse-cons, reverse-append, reverse-reverse,
}
use mew_code.Prelude.{
  ℕ, ◌+◌, ◌-◌, ◌*◌, ◌≤◌, ◌<◌, ◌≡◌, ◌⊎◌, refl, sym, ap, ◌∙◌, ◌&&◌, [], ◌∷◌, ◌++◌, length, take, ltb,
  leb, Bool-cases, inl, inr, if_ind, arith, length-append,
}
use Prim.Native.Nat.{◌/◌}
use mew_code.Prelude.Text.{Text, text_eq}
use mew_code.Context.Estimator.{
  weight, weighted, measure_text, estimate_text_tokens, prefix_from, take_prefix, take_suffix, drop,
  longer_head, longer_tail, preview_parts,
}

weighted-append : (s t : Text) → weighted (s ++ t) ≡ weighted s + weighted t
unfolding weighted
weighted-append [] t = omega arith
weighted-append (c ∷ s) t = omega (arith, weighted-append s t)

-- The rest of a text after a prefix of it is empty, or starts with a character that does not fit.
abbrev pub IsFull : ℕ → Text → Text → Type 0
IsFull r out rest =
    (rest ≡ []) ⊎ ((c : ℕ) × (more : Text) × (rest ≡ c ∷ more) × (r < weighted out + weight c))

weight-pos : (c : ℕ) → 0 < weight c
weight-pos c = elim (Bool-cases (ltb c 128)) [ inl e ↦ ground arith | inr e ↦ ground arith ]

prefix_from-fits :
    (r : ℕ) (s : Text)
    → (rest : Text) × (s ≡ prefix_from r s ++ rest)
      × (weighted (prefix_from r s) ≤ r)
      × IsFull r (prefix_from r s) rest
unfolding prefix_from weighted
prefix_from-fits r [] = ([], refl, omega arith, inl refl)
prefix_from-fits r (c ∷ s) = elim (Bool-cases (ltb r (weight c))) [
  | inl stops ↦
      let less : r < weight c = ground arith in
      rw stops (c ∷ s, refl, omega arith, inr (c, s, refl, omega arith))
  | inr fits ↦
      let enough : weight c ≤ r = ground arith in
      let (rest, split, within, full) = prefix_from-fits (r - weight c) s in
      rw fits (
        rest,
        ap (λ z. c ∷ z) split,
        omega arith,
        elim full [
          | inl ended ↦ inl ended
          | inr (d, more, next, big) ↦ inr (d, more, next, omega arith)
        ],
      )
]

estimate-le : (s : Text) (budget : ℕ) → weighted s ≤ budget * 4 → estimate_text_tokens s ≤ budget
unfolding estimate_text_tokens measure_text
estimate-le s budget h = omega arith

estimate-nil : (budget : ℕ) → estimate_text_tokens [] ≤ budget
unfolding weighted
estimate-nil budget = estimate-le [] budget (omega arith)

nil-IsFull : (s : Text) (budget : ℕ) → budget ≤ 0 → IsFull (budget * 4) [] s
unfolding weighted
nil-IsFull [] budget h = inl refl
nil-IsFull (c ∷ s) budget h = inr (c, s, refl, omega (arith, weight-pos c))

-- A prefix taken of a text for a budget begins the text, is estimated at no more than the budget, and
-- is all of the text or stops at a character that would take it over four times the budget.
pub take_prefix_fits :
    (s : Text) (budget : ℕ)
    → (rest : Text) × (s ≡ take_prefix s budget ++ rest)
      × (estimate_text_tokens (take_prefix s budget) ≤ budget)
      × IsFull (budget * 4) (take_prefix s budget) rest
unfolding take_prefix
take_prefix_fits s budget =
    let (rest, split, within, full) = prefix_from-fits (budget * 4) s in
    elim (Bool-cases (leb budget 0)) [
      | inl none ↦ rw none (s, refl, estimate-nil budget, nil-IsFull s budget (ground arith))
      | inr more ↦ rw more (rest, split, estimate-le _ budget within, full)
    ]

weighted-reverse : (s : Text) → weighted (reverse s) ≡ weighted s
unfolding weighted
weighted-reverse [] = refl
weighted-reverse (c ∷ s) =
    rw (reverse-cons c s, weighted-append (reverse s) (c ∷ []), weighted-reverse s) (omega arith)

-- The suffix taken of a text for a budget ends the text and is estimated at no more than the budget.
pub take_suffix_fits :
    (s : Text) (budget : ℕ)
    → (front : Text) × (s ≡ front ++ take_suffix s budget)
      × (estimate_text_tokens (take_suffix s budget) ≤ budget)
unfolding take_suffix
take_suffix_fits s budget =
    let (rest, split, within, _) = prefix_from-fits (budget * 4) (reverse s) in
    let back : s ≡ reverse rest ++ reverse (prefix_from (budget * 4) (reverse s)) =
      sym (reverse-reverse s)
      ∙ ap reverse split
      ∙ reverse-append (prefix_from (budget * 4) (reverse s)) rest in
    elim (Bool-cases (leb budget 0)) [
      | inl none ↦ rw none (s, sym (append-nil s), estimate-nil budget)
      | inr more ↦ rw more (
        reverse rest,
        back,
        estimate-le _ budget (rw (weighted-reverse (prefix_from (budget * 4) (reverse s))) within),
      )
    ]

take-append : (s t : Text) → take (length s) (s ++ t) ≡ s
take-append [] t = refl
take-append (c ∷ s) t = ap (λ z. c ∷ z) (take-append s t)

drop-append : (s t : Text) → drop (length s) (s ++ t) ≡ t
drop-append [] t = refl
drop-append (c ∷ s) t = drop-append s t

take-front : (s front tail : Text) → s ≡ front ++ tail → take (length s - length tail) s ≡ front
take-front s front tail e =
    let size : length s - length tail ≡ length front =
      omega (arith, length-append front tail, ap length e) in
    ap (λ n. take n s) size ∙ ap (take (length front)) e ∙ take-append front tail

-- A head and a tail of the payload that do not overlap and fit the budget together.
abbrev pub IsPreview : Text → ℕ → Text × Text → Type 0
IsPreview payload budget parts =
    (middle : Text) × (payload ≡ parts.0 ++ (middle ++ parts.1))
    × (estimate_text_tokens parts.0 + estimate_text_tokens parts.1 ≤ budget)

start-IsPreview :
    (payload : Text) (budget : ℕ)
    → IsPreview payload budget (
      take_prefix payload (budget / 2),
      take_suffix (drop (length (take_prefix payload (budget / 2))) payload) (budget - budget / 2),
    )
start-IsPreview payload budget =
    let head = take_prefix payload (budget / 2) in
    let (rest, split, within, _) = take_prefix_fits payload (budget / 2) in
    let dropped : drop (length head) payload ≡ rest =
      ap (drop (length head)) split ∙ drop-append head rest in
    let (middle, ended, small) =
      take_suffix_fits (drop (length head) payload) (budget - budget / 2) in
    (middle, split ∙ ap (λ z. head ++ z) (sym dropped ∙ ended), omega arith)

longer_head-IsPreview :
    (payload : Text) (budget : ℕ) (parts : Text × Text)
    → IsPreview payload budget parts
    → IsPreview payload budget (longer_head payload budget parts)
unfolding longer_head
longer_head-IsPreview payload budget (head, tail) h =
    let (middle, split, fits) = h in
    let front = take (length payload - length tail) payload in
    let apart = split ∙ sym (append_assoc head middle tail) in
    let whole = take-front payload (head ++ middle) tail apart in
    let unused = budget - estimate_text_tokens head - estimate_text_tokens tail in
    let (rest, begins, within, _) = take_prefix_fits front (estimate_text_tokens head + unused) in
    let longer = take_prefix front (estimate_text_tokens head + unused) in
    if_ind (IsPreview payload budget)
      (ltb 0 unused && ltb (length head + length tail) (length payload))
      (λ _. (
        rest,
        apart ∙ ap (λ z. z ++ tail) (sym whole ∙ begins) ∙ append_assoc longer rest tail,
        omega arith,
      ))
      (λ _. h)

longer_tail-IsPreview :
    (payload : Text) (budget : ℕ) (parts : Text × Text)
    → IsPreview payload budget parts
    → IsPreview payload budget (longer_tail payload budget parts)
unfolding longer_tail
longer_tail-IsPreview payload budget (head, tail) h =
    let (middle, split, fits) = h in
    let dropped : drop (length head) payload ≡ middle ++ tail =
      ap (drop (length head)) split ∙ drop-append head (middle ++ tail) in
    let unused = budget - estimate_text_tokens head - estimate_text_tokens tail in
    let (front, ended, within) =
      take_suffix_fits (drop (length head) payload) (estimate_text_tokens tail + unused) in
    if_ind (IsPreview payload budget)
      (ltb 0 unused && ltb (length head + length tail) (length payload))
      (λ _. (front, split ∙ ap (λ z. head ++ z) (sym dropped ∙ ended), omega arith)) (λ _. h)

-- The preview of an archived tool result is a head and a tail of its text that do not overlap, and they
-- are estimated together at no more than the preview's budget.
pub preview_parts-IsPreview :
    (payload : Text) (budget : ℕ) → IsPreview payload budget (preview_parts payload budget)
unfolding preview_parts
preview_parts-IsPreview payload budget = elim (Bool-cases (leb budget 0)) [
  | inl none ↦ rw none (payload, sym (append-nil payload), omega (arith, estimate-nil 0))
  | inr more ↦ rw more (
      longer_tail-IsPreview payload budget _
        (longer_head-IsPreview payload budget _ (start-IsPreview payload budget)))
]
