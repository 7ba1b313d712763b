-- ===== src/Teams/TaskService/Batch/Total.antt =====
-- A batch without a cycle is ordered: the loop ends, and it ends with an order.
use mew_code.Prelude.{
  ℕ, zero, suc, ◌≤◌, ◌<◌, ◌≡◌, refl, ap, Bool, true, false, not, ◌||◌, List, [], ◌∷◌, ◌++◌, map,
  any, all, contains, ◌==◌, ltb, keep, distinct, length, Bool-cases, inl, inr, ok, arith, eq_of_==,
}
use mew_code.Prelude.Dict.Laws.{All, All-map, all_mono}
use mew_code.Prelude.Sort.{sort_with, place_with, sort_with-Permᴰ, contains-Permᴰ}
use mew_code.Prelude.Text.{Text, text_eq}
use mew_code.Teams.TaskService.Batch.{
  CoordinatorTaskSpec, Specs, local_ids, before, is_nil, is_ready, order_from, ordered_specs,
}
use mew_code.Teams.TaskService.Batch.Order.{contains-append}

-- Each dependency is done or still pending.
abbrev pub IsClosed : List Text → Specs → Specs → Type 0
IsClosed completed pending specs =
    All
      (λ s.
        all (λ d. contains completed d || contains (local_ids pending) d) s.dependency_local_ids
        ≡ true)
      specs

-- The rank of each dependency is less than the spec's, so no cycle goes through it.
abbrev pub IsRanked : (Text → ℕ) → Specs → Type 0
IsRanked rank specs =
    All (λ s. all (λ d. ltb (rank d) (rank s.local_id)) s.dependency_local_ids ≡ true) specs

-- A spec of the list with the identifier.
record IsPicked (pending : Specs) (id : Text) : Type 1 where
  spec : CoordinatorTaskSpec
  own_id : spec.local_id ≡ id
  has_all : (P : CoordinatorTaskSpec → Type 0) → All P pending → P spec
  has_any : (p : CoordinatorTaskSpec → Bool) → p spec ≡ true → any p pending ≡ true

pick : (pending : Specs) (id : Text) → contains (local_ids pending) id ≡ true → IsPicked pending id
unfolding contains any
pick [] id h = absurd (ground arith)
pick (s ∷ pending) id h = elim (Bool-cases (s.local_id == id)) [
  | inl same ↦ record {
    spec = s;
    own_id = eq_of_== s.local_id id same;
    has_all = λ P all. all.0;
    has_any = λ p q. rw q refl;
  }
  | inr other ↦
      let found = pick pending id (ground arith) in
      record {
        spec = found.spec;
        own_id = found.own_id;
        has_all = λ P all. found.has_all P all.1;
        has_any = λ p q. rw (found.has_any p q) (ground arith);
      }
]

missing_of :
    (completed ds : List Text)
    → all (λ d. contains completed d) ds ≡ false
    → (d : Text) × (contains ds d ≡ true) × (contains completed d ≡ false)
unfolding all contains
missing_of completed [] h = absurd (ground arith)
missing_of completed (d ∷ ds) h = elim (Bool-cases (contains completed d)) [
  | inl there ↦
      let (m, among, absent) = missing_of completed ds (ground arith) in
      (m, rw among (ground arith), absent)
  | inr gone ↦ (d, ground (arith, text_eq.beq_iff d d), gone)
]

all-at :
    (p : Text → Bool) (ds : List Text) (d : Text)
    → all p ds ≡ true
    → contains ds d ≡ true
    → p d ≡ true
unfolding all contains
all-at p [] d h k = absurd (ground arith)
all-at p (x ∷ ds) d h k = elim (Bool-cases (x == d)) [
  | inl same ↦ let e = eq_of_== x d same in rw (← e) (ground arith)
  | inr other ↦ all-at p ds d (ground arith) (ground arith)
]

-- Of the pending specs one is ready, since the ranks cannot go down for ever.
some_ready :
    (rank : Text → ℕ) (completed : List Text) (pending : Specs)
    → IsClosed completed pending pending
    → IsRanked rank pending
    → (n : ℕ) (id : Text) → rank id < n
    → contains (local_ids pending) id ≡ true
    → any (is_ready completed) pending ≡ true
unfolding is_ready
some_ready rank completed pending closed ranked zero id less there = absurd (omega arith)
some_ready rank completed pending closed ranked (suc n) id less there =
    let found = pick pending id there in
    elim (Bool-cases (is_ready completed found.spec)) [
      | inl ready ↦ found.has_any (is_ready completed) ready
      | inr waits ↦
          let (d, among, absent) = missing_of completed found.spec.dependency_local_ids waits in
          let known = all-at _ _ d (found.has_all _ closed) among in
          let lower = all-at _ _ d (found.has_all _ ranked) among in
          let own : rank found.spec.local_id ≡ rank id = ap rank found.own_id in
          some_ready rank completed pending closed ranked n d (ground arith) (ground arith)
    ]

module _ (p : CoordinatorTaskSpec → Bool) where
  is_nil-keep : (xs : Specs) → any p xs ≡ true → is_nil (keep p xs) ≡ false
  unfolding keep any
  is_nil-keep [] h = absurd (ground arith)
  is_nil-keep (x ∷ xs) h = ground (arith, is_nil-keep xs)

  length-keep-not-le : (xs : Specs) → length (keep (λ x. not (p x)) xs) ≤ length xs
  unfolding keep
  length-keep-not-le [] = omega arith
  length-keep-not-le (x ∷ xs) = ground (arith, length-keep-not-le xs)

  length-keep-not : (xs : Specs) → any p xs ≡ true → length (keep (λ x. not (p x)) xs) < length xs
  unfolding keep any
  length-keep-not [] h = absurd (ground arith)
  length-keep-not (x ∷ xs) h = ground (arith, length-keep-not xs, length-keep-not-le xs)

  All-keep-of : (P : CoordinatorTaskSpec → Type 0) (xs : Specs) → All P xs → All P (keep p xs)
  unfolding keep
  All-keep-of P [] h = tt
  All-keep-of P (x ∷ xs) h = elim (Bool-cases (p x)) [
    | inl good ↦ rw good (h.0, All-keep-of P xs h.1)
    | inr bad ↦ rw bad (All-keep-of P xs h.1)
  ]

  contains-keep-or :
      (xs : Specs) (d : Text)
      → contains (local_ids xs) d ≡ true
      → (contains (local_ids (keep p xs)) d || contains (local_ids (keep (λ x. not (p x)) xs)) d)
        ≡ true
  unfolding keep contains
  contains-keep-or [] d h = absurd (ground arith)
  contains-keep-or (x ∷ xs) d h = ground (arith, contains-keep-or xs d)

is_nil-place_with : (x : CoordinatorTaskSpec) (ys : Specs) → is_nil (place_with before x ys) ≡ false
unfolding place_with
is_nil-place_with x [] = refl
is_nil-place_with x (y ∷ ys) = elim (Bool-cases (before y x)) [
  | inl later ↦ rw later refl
  | inr here ↦ rw here refl
]

is_nil-sort_with : (xs : Specs) → is_nil xs ≡ false → is_nil (sort_with before xs) ≡ false
unfolding sort_with
is_nil-sort_with [] h = h
is_nil-sort_with (x ∷ xs) h = is_nil-place_with x (sort_with before xs)

module _ (completed : List Text) (pending : Specs) where
  abbrev ready : Specs
  ready = sort_with before (keep (is_ready completed) pending)

  abbrev left : Specs
  left = keep (λ t. not (is_ready completed t)) pending

  still_known :
      (d : Text)
      → (contains completed d || contains (local_ids pending) d) ≡ true
      → (contains (completed ++ local_ids ready) d || contains (local_ids left) d) ≡ true
  still_known d h =
      let moved =
        contains-Permᴰ (λ s. s.local_id)
          (sort_with-Permᴰ before (keep (is_ready completed) pending)) d in
      let split = contains-keep-or (is_ready completed) pending d in
      rw (contains-append completed (local_ids ready) d) (ground arith)

  left-IsClosed :
      IsClosed completed pending pending → IsClosed (completed ++ local_ids ready) left left
  left-IsClosed closed =
      All-map left (λ s h. all_mono _ _ s.dependency_local_ids still_known h)
        (All-keep-of (λ t. not (is_ready completed t)) _ pending closed)

here :
    (s : CoordinatorTaskSpec) (pending : Specs)
    → contains (local_ids (s ∷ pending)) s.local_id ≡ true
unfolding contains
here s pending = ground (arith, text_eq.beq_iff s.local_id s.local_id)

order_from_total :
    (rank : Text → ℕ) (fuel : ℕ) (pending : Specs) (completed : List Text)
    → length pending ≤ fuel
    → IsClosed completed pending pending
    → IsRanked rank pending
    → (out : Specs) × (order_from fuel pending completed ≡ ok out)
unfolding order_from
order_from_total rank fuel [] completed few closed ranked = ([], refl)
order_from_total rank zero (s ∷ pending) completed few closed ranked = absurd (omega arith)
order_from_total rank (suc fuel) (s ∷ pending) completed few closed ranked =
    let found =
      some_ready rank completed (s ∷ pending) closed ranked (suc (rank s.local_id)) s.local_id
        (omega arith) (here s pending) in
    let good = is_nil-sort_with _ (is_nil-keep (is_ready completed) (s ∷ pending) found) in
    let fewer = length-keep-not (is_ready completed) (s ∷ pending) found in
    let (rest, e) =
      order_from_total rank fuel (left completed (s ∷ pending))
        (completed ++ local_ids (ready completed (s ∷ pending))) (omega arith)
        (left-IsClosed completed (s ∷ pending) closed)
        (All-keep-of (λ t. not (is_ready completed t)) _ (s ∷ pending) ranked) in
    (ready completed (s ∷ pending) ++ rest, rw (good, e) refl)

known_dependencies-all :
    (ids ds : List Text)
    → any (λ d. not (contains ids d)) ds ≡ false
    → all (λ d. contains [] d || contains ids d) ds ≡ true
unfolding any all contains
known_dependencies-all ids [] h = refl
known_dependencies-all ids (d ∷ ds) h =
    let rest = known_dependencies-all ids ds (ground arith) in ground arith

known-IsClosed :
    (ids : List Text) (specs : Specs)
    → any (λ s. any (λ d. not (contains ids d)) s.dependency_local_ids) specs ≡ false
    → All (λ s. all (λ d. contains [] d || contains ids d) s.dependency_local_ids ≡ true) specs
unfolding any
known-IsClosed ids [] h = tt
known-IsClosed ids (s ∷ specs) h = (
  known_dependencies-all ids s.dependency_local_ids (ground arith),
  known-IsClosed ids specs (ground arith),
)

-- A batch that is not empty, has no identifier twice, names no dependency that is not in it, and has no
-- cycle is ordered: the loop needs no more rounds than there are tasks.
pub ordered_specs_total :
    (rank : Text → ℕ) (specs : Specs)
    → is_nil specs ≡ false
    → distinct (local_ids specs) ≡ true
    → distinct (map (λ s. s.task_id) specs) ≡ true
    → any (λ s. any (λ d. not (contains (local_ids specs) d)) s.dependency_local_ids) specs ≡ false
    → IsRanked rank specs
    → (out : Specs) × (ordered_specs specs ≡ ok out)
unfolding ordered_specs
ordered_specs_total rank specs some_spec local_once task_once known ranked =
    rw (some_spec, local_once, task_once, known)
      (order_from_total rank (length specs) specs [] (omega arith)
        (known-IsClosed (local_ids specs) specs known) ranked)
