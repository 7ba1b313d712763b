-- ===== src/Teams/TaskService/Batch/Order.antt =====
-- An ordered batch has the tasks of the batch, each after those that it depends on.
use mathlib.Core.List.{append_assoc, append-nil, Permᴰ}
use mathlib.Core.List.Permᴰ
use mew_code.Prelude.{
  ℕ, zero, suc, ◌≡◌, refl, Bool, true, not, ◌||◌, List, [], ◌∷◌, ◌++◌, contains, keep, length,
  Bool-cases, Outcome-cases, inl, inr, ok, arith,
}
use mathlib.Core.Path.{subst}
use mew_code.Prelude.Dict.Laws.{All, All-map, all_mono}
use mew_code.Prelude.Sort.{sort_with, sort_with-Permᴰ}
use mew_code.Prelude.Text.{Text, text_eq}
use mew_code.Teams.TaskService.Batch.{
  CoordinatorTaskSpec, Specs, local_ids, before, is_ready, order_from, ordered_specs,
}

-- Each spec's dependencies are among the identifiers before it.
abbrev pub IsOrder : List Text → Specs → Type 0
IsOrder completed [] = Unit
IsOrder completed (s ∷ specs) =
    (is_ready completed s ≡ true) × IsOrder (completed ++ s.local_id ∷ []) specs

pub contains-append :
    (xs ys : List Text) (x : Text) → contains (xs ++ ys) x ≡ (contains xs x || contains ys x)
unfolding contains
contains-append [] ys x = refl
contains-append (y ∷ xs) ys x = rw (contains-append xs ys x) (ground arith)

is_ready_mono :
    (cs ds : List Text) (s : CoordinatorTaskSpec)
    → is_ready cs s ≡ true
    → is_ready (cs ++ ds) s ≡ true
unfolding is_ready
is_ready_mono cs ds s h =
    all_mono _ _ s.dependency_local_ids (λ d q. rw (contains-append cs ds d, q) refl) h

IsOrder-append :
    (cs : List Text) (ready rest : Specs)
    → All (λ s. is_ready cs s ≡ true) ready
    → IsOrder (cs ++ local_ids ready) rest
    → IsOrder cs (ready ++ rest)
IsOrder-append cs [] rest h k = subst (λ z. IsOrder z rest) (append-nil cs) k
IsOrder-append cs (s ∷ ready) rest h k = (
  h.0,
  IsOrder-append (cs ++ s.local_id ∷ []) ready rest
      (All-map ready (λ t. is_ready_mono cs (s.local_id ∷ []) t) h.1)
      (rw (append_assoc cs (s.local_id ∷ []) (local_ids ready)) k),
)

module _ {A : Type 0} (p : A → Bool) where
  All-Permᴰ : {xs ys : List A} → Permᴰ xs ys → All (λ x. p x ≡ true) xs → All (λ x. p x ≡ true) ys
  All-Permᴰ Permᴰ.nil h = tt
  All-Permᴰ (Permᴰ.cons e q) h = (rw (← e) (h.0), All-Permᴰ q h.1)
  All-Permᴰ (Permᴰ.swap e f) h = (rw (← f) h.1.0, (rw (← e) h.0, h.1.1))
  All-Permᴰ (Permᴰ.trans q r) h = All-Permᴰ r (All-Permᴰ q h)

  All-keep : (xs : List A) → All (λ x. p x ≡ true) (keep p xs)
  unfolding keep
  All-keep [] = tt
  All-keep (x ∷ xs) = elim (Bool-cases (p x)) [
    | inl good ↦ rw good (good, All-keep xs)
    | inr bad ↦ rw bad (All-keep xs)
  ]

  keep-Permᴰ : (xs : List A) → Permᴰ xs (keep p xs ++ keep (λ x. not (p x)) xs)
  unfolding keep
  keep-Permᴰ [] = Permᴰ.refl _
  keep-Permᴰ (x ∷ xs) = elim (Bool-cases (p x)) [
    | inl good ↦ rw good (Permᴰ.cons refl (keep-Permᴰ xs))
    | inr bad ↦ rw bad (
        Permᴰ.trans (Permᴰ.cons refl (keep-Permᴰ xs))
          (Permᴰ.symm (Permᴰ.middle x (keep p xs) (keep (λ x. not (p x)) xs))))
  ]

order_from-IsOrder :
    (fuel : ℕ) (pending : Specs) (completed : List Text) (out : Specs)
    → order_from fuel pending completed ≡ ok out
    → Permᴰ pending out × IsOrder completed out
unfolding order_from
order_from-IsOrder fuel [] completed out h =
    let same : [] ≡ out = ground arith in rw (← same) (Permᴰ.refl [], tt)
order_from-IsOrder zero (s ∷ pending) completed out h = absurd (ground arith)
order_from-IsOrder (suc fuel) (s ∷ pending) completed out h =
    let good = keep (is_ready completed) (s ∷ pending) in
    let ready = sort_with before good in
    let left = keep (λ t. not (is_ready completed t)) (s ∷ pending) in
    elim (Outcome-cases (order_from fuel left (completed ++ local_ids ready))) [
      | inr (x, bad) ↦ absurd (ground arith)
      | inl (rest, e) ↦
          let same : ready ++ rest ≡ out = ground arith in
          let (placed, ordered) =
            order_from-IsOrder fuel left (completed ++ local_ids ready) rest e in
          let sorted = sort_with-Permᴰ before good in
          rw (← same) (
            Permᴰ.trans (keep-Permᴰ (is_ready completed) (s ∷ pending))
                (Permᴰ.trans (Permᴰ.append_right left sorted) (Permᴰ.append_left ready placed)),
            IsOrder-append completed ready rest
                (All-Permᴰ (is_ready completed) sorted
                  (All-keep (is_ready completed) (s ∷ pending)))
                ordered,
          )
    ]

-- A batch that is ordered keeps its tasks, each once, and every task comes after all of the tasks it
-- depends on.
pub ordered_specs-IsOrder :
    (specs out : Specs) → ordered_specs specs ≡ ok out → Permᴰ specs out × IsOrder [] out
unfolding ordered_specs
ordered_specs-IsOrder specs out h = order_from-IsOrder (length specs) specs [] out (ground arith)
