-- ===== src/Prelude/Dict/Sorted.antt =====
-- A mapping in the order of its keys, as json.dumps(..., sort_keys=True) writes it.
use mathlib.Core.Path.{◌≡◌, refl, ◌∙◌}
use mathlib.Core.Bool.{Bool, true, false, ◌||◌, ◌&&◌}
use mathlib.Core.Logic.{inl, inr}
use mathlib.Core.Option.{some}
use mathlib.Core.Path.{subst}
use mathlib.Core.List.{[], ◌∷◌, map}
use native.Mathlib.Omega.{arith}
use mew_code.Prelude.Tests.{if◌then◌else◌, Bool-cases}
use mew_code.Prelude.Keys.{Eq, ◌==◌, contains, distinct}
use mew_code.Prelude.Dict.{Dict, keys, values, lookup}
use mew_code.Prelude.Lists.{all}
use mew_code.Prelude.Text.{Text, text_eq, text_less}
use mew_code.Prelude.Sort.{place_with, sort_with}

text_less_self : (s : Text) → text_less s s ≡ false
unfolding text_less
text_less_self [] = refl
text_less_self (c ∷ s) = ground (arith, text_less_self s)

less_differ : (j k : Text) → text_less j k ≡ true → (j == k) ≡ false
less_differ j k h = elim (Bool-cases (j == k)) [
  | inr other ↦ other
  | inl same ↦
      let e : j ≡ k = (text_eq.beq_iff j k).0 same in
      let loop : text_less k k ≡ true = subst (λ z. text_less z k ≡ true) e h in
      absurd (cc (loop, text_less_self k))
]

module _ {V : Type 0} where
  abbrev before : Text × V → Text × V → Bool
  before p q = text_less p.0 q.0

  unfoldable pub sorted_by_key : Dict Text V → Dict Text V
  sorted_by_key d = sort_with before d

  lookup-place_with :
      (k i : Text) (v : V) (d : Dict Text V)
      → lookup k (place_with before (i, v) d) ≡ (if i == k then some v else lookup k d)
  unfolding lookup place_with
  lookup-place_with k i v [] = refl
  lookup-place_with k i v ((j, w) ∷ d) = elim (Bool-cases (text_less j i)) [
    | inr here ↦ rw here refl
    | inl later ↦
        rw (later, lookup-place_with k i v d)
          (ground (
            arith,
            less_differ j i later,
            text_eq.beq_iff j k,
            text_eq.beq_iff i k,
            text_eq.beq_iff j i,
          ))
  ]

  -- Writing and reading a mapping keeps what each key has.
  pub lookup-sorted : (k : Text) (d : Dict Text V) → lookup k (sorted_by_key d) ≡ lookup k d
  unfolding sorted_by_key lookup sort_with
  lookup-sorted k [] = refl
  lookup-sorted k ((i, v) ∷ d) =
      lookup-place_with k i v (sort_with before d) ∙ rw (lookup-sorted k d) refl

  contains-place_with :
      (k i : Text) (v : V) (d : Dict Text V)
      → contains (keys (place_with before (i, v) d)) k ≡ (i == k || contains (keys d) k)
  unfolding contains place_with
  contains-place_with k i v [] = refl
  contains-place_with k i v ((j, w) ∷ d) = elim (Bool-cases (text_less j i)) [
    | inr here ↦ rw here refl
    | inl later ↦ rw (later, contains-place_with k i v d) (ground arith)
  ]

  distinct-place_with :
      (i : Text) (v : V) (d : Dict Text V)
      → distinct (keys (place_with before (i, v) d)) ≡ distinct (i ∷ keys d)
  unfolding contains distinct place_with
  distinct-place_with i v [] = refl
  distinct-place_with i v ((j, w) ∷ d) = elim (Bool-cases (text_less j i)) [
    | inr here ↦ rw here refl
    | inl later ↦
        rw (later, contains-place_with j i v d, distinct-place_with i v d)
          (ground (arith, text_eq.beq_iff i j, text_eq.beq_iff j i))
  ]

  contains-sorted :
      (k : Text) (d : Dict Text V) → contains (keys (sorted_by_key d)) k ≡ contains (keys d) k
  unfolding sorted_by_key contains sort_with
  contains-sorted k [] = refl
  contains-sorted k ((i, v) ∷ d) =
      contains-place_with k i v (sort_with before d) ∙ rw (contains-sorted k d) refl

  pub distinct-sorted : (d : Dict Text V) → distinct (keys (sorted_by_key d)) ≡ distinct (keys d)
  unfolding sorted_by_key distinct sort_with
  distinct-sorted [] = refl
  distinct-sorted ((i, v) ∷ d) =
      distinct-place_with i v (sort_with before d)
      ∙ rw (contains-sorted i d, distinct-sorted d) refl

module _ {V K : Type 0} ⦃eq : Eq K⦄ (key : V → K) where
  contains-values-place :
      (k : K) (i : Text) (v : V) (d : Dict Text V)
      → contains (map key (values (place_with before (i, v) d))) k
        ≡ (key v == k || contains (map key (values d)) k)
  unfolding contains place_with
  contains-values-place k i v [] = refl
  contains-values-place k i v ((j, w) ∷ d) = elim (Bool-cases (text_less j i)) [
    | inr here ↦ rw here refl
    | inl later ↦ rw (later, contains-values-place k i v d) (ground arith)
  ]

  pub contains-values :
      (k : K) (d : Dict Text V)
      → contains (map key (values (sorted_by_key d))) k ≡ contains (map key (values d)) k
  unfolding sorted_by_key contains sort_with
  contains-values k [] = refl
  contains-values k ((i, v) ∷ d) =
      contains-values-place k i v (sort_with before d) ∙ rw (contains-values k d) refl

module _ {V : Type 0} (p q : Text × V → Bool) (same : (x : Text × V) → p x ≡ q x) where
  all-place : (x : Text × V) (d : Dict Text V) → all p (place_with before x d) ≡ (p x && all p d)
  unfolding all place_with
  all-place x [] = refl
  all-place x (y ∷ d) = elim (Bool-cases (before y x)) [
    | inr here ↦ rw here refl
    | inl later ↦ rw (later, all-place x d) (ground arith)
  ]

  -- A test of every item is the test of those of the sorted mapping.
  pub all-sorted : (d : Dict Text V) → all p (sorted_by_key d) ≡ all q d
  unfolding all sorted_by_key sort_with
  all-sorted [] = refl
  all-sorted (x ∷ d) = all-place x (sort_with before d) ∙ rw (same x, all-sorted d) refl
