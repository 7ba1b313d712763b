-- ===== src/Prelude/Dict/Laws.antt =====
-- Laws of the dictionaries: keys, distinctness, erasure, and what holds of every value.
use mathlib.Core.Path.{◌≡◌, refl, subst}
use mathlib.Core.Bool.{Bool, true, false, ◌||◌}
use mathlib.Core.Option.{none, some}
use mathlib.Core.Logic.{inl, inr}
use mathlib.Core.List.{List, [], ◌∷◌, ◌++◌, map}
use Prim.Native.Nat.{◌+◌}
use native.Mathlib.Omega.{arith}
use mew_code.Prelude.Tests.{if◌then◌else◌, Bool-cases, &&-true}
use mew_code.Prelude.Keys.{Eq, ◌==◌, contains, distinct}
use mew_code.Prelude.Lists.{any, all, length}
use mew_code.Prelude.Dict.{Dict, keys, values, has, lookup, insert, erase}

-- A predicate on every element, by recursion.
abbrev pub All {ℓ κ} : {A : Type ℓ} → (A → Type κ) → List A → Type κ
All P [] = Unit
All P (x ∷ xs) = P x × All P xs

pub All-map {ℓ κ μ} :
    {A : Type ℓ} {P : A → Type κ} {Q : A → Type μ} (xs : List A)
    → ((a : A) → P a → Q a)
    → All P xs
    → All Q xs
All-map [] f h = tt
All-map (x ∷ xs) f h = (f x h.0, All-map xs f h.1)

module _ {ℓ} {K : Type ℓ} ⦃e : Eq K⦄ where
  pub any-contains :
      (p : K → Bool) (xs : List K) (x : K) → any p xs ≡ false → contains xs x ≡ true → p x ≡ false
  unfolding any contains
  any-contains p [] x h q = cc
  any-contains p (y ∷ ys) x h q = elim (Bool-cases (y == x)) [
    | inl same ↦ let e' : y ≡ x = (e.beq_iff y x).0 same in rw (← e') (ground arith)
    | inr other ↦ any-contains p ys x (ground arith) (ground arith)
  ]

  pub any-false :
      (p : K → Bool) (xs : List K)
      → ((x : K) → contains xs x ≡ true → p x ≡ false)
      → any p xs ≡ false
  unfolding any contains
  any-false p [] f = refl
  any-false p (y ∷ ys) f =
      ground
        (arith, f y (ground (arith, e.beq_iff y y)), any-false p ys (λ x q. f x (ground arith)))

module _ {ℓ κ} {K : Type ℓ} {V : Type κ} ⦃e : Eq K⦄ where
  pub contains-keys : (k : K) (d : Dict K V) → contains (keys d) k ≡ has k d
  unfolding contains lookup
  contains-keys k [] = refl
  contains-keys k ((j, v) ∷ d) = ground (arith, contains-keys k d)

  pub contains-keys-insert :
      (k j : K) (v : V) (d : Dict K V)
      → contains (keys (insert k v d)) j ≡ (k == j || contains (keys d) j)
  unfolding contains insert
  contains-keys-insert k j v [] = refl
  contains-keys-insert k j v ((i, w) ∷ d) =
      ground (arith, e.beq_iff k j, e.beq_iff i k, e.beq_iff i j, contains-keys-insert k j v d)

  pub distinct-keys-insert :
      (k : K) (v : V) (d : Dict K V)
      → distinct (keys d) ≡ true
      → distinct (keys (insert k v d)) ≡ true
  unfolding distinct insert contains
  distinct-keys-insert k v [] h = refl
  distinct-keys-insert k v ((i, w) ∷ d) h = ground (
    arith,
    e.beq_iff i k,
    e.beq_iff k i,
    contains-keys-insert k i v d,
    distinct-keys-insert k v d,
  )

  pub lookup-absent : (k : K) (d : Dict K V) → contains (keys d) k ≡ false → lookup k d ≡ none
  unfolding contains lookup
  lookup-absent k [] h = refl
  lookup-absent k ((j, v) ∷ d) h = ground (arith, lookup-absent k d)

  pub lookup-erase :
      (k j : K) (d : Dict K V)
      → distinct (keys d) ≡ true
      → lookup j (erase k d) ≡ (if k == j then none else lookup j d)
  unfolding lookup erase distinct
  lookup-erase k j [] h = ground arith
  lookup-erase k j ((i, w) ∷ d) h = ground (
    arith,
    e.beq_iff k j,
    e.beq_iff i k,
    e.beq_iff i j,
    lookup-erase k j d,
    lookup-absent j d,
    lookup-absent i d,
  )

  pub contains-keys-erase :
      (k j : K) (d : Dict K V) → contains (keys d) j ≡ false → contains (keys (erase k d)) j ≡ false
  unfolding contains erase
  contains-keys-erase k j [] h = refl
  contains-keys-erase k j ((i, w) ∷ d) h = ground (arith, contains-keys-erase k j d)

  pub distinct-keys-erase :
      (k : K) (d : Dict K V) → distinct (keys d) ≡ true → distinct (keys (erase k d)) ≡ true
  unfolding distinct erase
  distinct-keys-erase k [] h = refl
  distinct-keys-erase k ((i, w) ∷ d) h =
      ground (arith, contains-keys-erase k i d, distinct-keys-erase k d)

  -- What holds of every value that a key finds holds of every value.
  pub All-values {μ} :
      (P : K → V → Type μ) (d : Dict K V)
      → distinct (keys d) ≡ true
      → ((k : K) (v : V) → lookup k d ≡ some v → P k v)
      → All (λ (p : K × V). P p.0 p.1) d
  unfolding distinct lookup
  All-values P [] u f = tt
  All-values P ((i, w) ∷ d) u f = (
    f i w (ground (arith, e.beq_iff i i)),
    All-values P d (ground arith) λ k v h. f k v (elim (Bool-cases (i == k)) [
      | inl same ↦ ground (arith, e.beq_iff i k, lookup-absent i d)
      | inr other ↦ rw other h
    ]),
  )

  pub lookup-All {μ} :
      (P : K → V → Type μ) (d : Dict K V)
      → All (λ (p : K × V). P p.0 p.1) d
      → (k : K) (v : V) → lookup k d ≡ some v
      → P k v
  unfolding lookup
  lookup-All P [] h k v q = cc
  lookup-All P ((i, w) ∷ d) h k v q = elim (Bool-cases (i == k)) [
    | inl same ↦
        let found : w ≡ v = ground arith in
        subst (λ u. P k u) found (subst (λ j. P j w) ((e.beq_iff i k).0 same) h.0)
    | inr other ↦ lookup-All P d h.1 k v (ground arith)
  ]

  pub lookup-All-values {μ} :
      (P : V → Type μ) (d : Dict K V)
      → All P (values d)
      → (k : K) (v : V) → lookup k d ≡ some v
      → P v
  unfolding lookup
  lookup-All-values P [] h k v q = cc
  lookup-All-values P ((i, w) ∷ d) h k v q = elim (Bool-cases (i == k)) [
    | inl same ↦ let found : w ≡ v = ground arith in subst P found h.0
    | inr other ↦ lookup-All-values P d h.1 k v (ground arith)
  ]

  -- Every value of a dictionary is found by its key.
  pub All-values-of {μ} :
      (P : V → Type μ) (d : Dict K V)
      → distinct (keys d) ≡ true
      → ((k : K) (v : V) → lookup k d ≡ some v → P v)
      → All P (values d)
  unfolding distinct lookup
  All-values-of P [] u f = tt
  All-values-of P ((i, w) ∷ d) u f = (
    f i w (ground (arith, e.beq_iff i i)),
    All-values-of P d (ground arith) λ k v h. f k v (elim (Bool-cases (i == k)) [
      | inl same ↦ ground (arith, e.beq_iff i k, lookup-absent i d)
      | inr other ↦ rw other h
    ]),
  )

pub all_mono {ℓ} :
    {A : Type ℓ} (p q : A → Bool) (xs : List A)
    → ((x : A) → p x ≡ true → q x ≡ true)
    → all p xs ≡ true
    → all q xs ≡ true
unfolding all
all_mono p q [] f h = refl
all_mono p q (x ∷ xs) f h =
    let both = &&-true (p x) (all p xs) h in rw (f x both.0) (all_mono p q xs f both.1)

module _ {ℓ κ} {K : Type ℓ} {V : Type κ} ⦃e : Eq K⦄ where
  -- A test that fails for every value fails for each value that a key finds.
  pub any-values :
      (p : V → Bool) (d : Dict K V) (k : K) (v : V)
      → any p (values d) ≡ false
      → lookup k d ≡ some v
      → p v ≡ false
  unfolding any lookup
  any-values p [] k v h q = cc
  any-values p ((j, w) ∷ d) k v h q = elim (Bool-cases (j == k)) [
    | inl same ↦ let found : w ≡ v = ground arith in rw (← found) (ground arith)
    | inr other ↦ any-values p d k v (ground arith) (ground arith)
  ]

pub all-All {ℓ} :
    {A : Type ℓ} (f : A → Bool) (xs : List A) → All (λ x. f x ≡ true) xs → all f xs ≡ true
unfolding all
all-All f [] h = refl
all-All f (x ∷ xs) h = rw h.0 (all-All f xs h.1)

pub all-contains {ℓ} :
    {A : Type ℓ} ⦃e : Eq A⦄ (f : A → Bool) (xs : List A)
    → ((x : A) → contains xs x ≡ true → f x ≡ true)
    → all f xs ≡ true
unfolding all contains
all-contains ⦃e⦄ f [] h = refl
all-contains ⦃e⦄ f (x ∷ xs) h =
    rw (h x (ground (arith, e.beq_iff x x))) (all-contains f xs (λ y q. h y (ground arith)))

pub All-map₂ {ℓ κ μ ν} :
    {A : Type ℓ} {P : A → Type κ} {Q : A → Type μ} {R : A → Type ν} (xs : List A)
    → ((a : A) → P a → Q a → R a)
    → All P xs
    → All Q xs
    → All R xs
All-map₂ [] f h k = tt
All-map₂ (x ∷ xs) f h k = (f x h.0 k.0, All-map₂ xs f h.1 k.1)

-- An element that is not listed differs from each listed one.
pub All-ne {ℓ κ} :
    {A : Type ℓ} {B : Type κ} ⦃e : Eq B⦄ (f : A → B) (xs : List A) (b : B)
    → contains (map f xs) b ≡ false
    → All (λ x. (f x == b) ≡ false) xs
unfolding contains
All-ne f [] b h = tt
All-ne f (x ∷ xs) b h = (ground arith, All-ne f xs b (ground arith))

pub All-snoc {ℓ κ} :
    {A : Type ℓ} (P : A → Type κ) (xs : List A) (x : A) → All P xs → P x → All P (xs ++ x ∷ [])
All-snoc P [] x h p = (p, tt)
All-snoc P (y ∷ ys) x h p = (h.0, All-snoc P ys x h.1 p)

module _ {ℓ κ} {K : Type ℓ} {V : Type κ} ⦃e : Eq K⦄ where
  pub length-insert_new :
      (k : K) (v : V) (d : Dict K V) → has k d ≡ false → length (insert k v d) ≡ length d + 1
  unfolding insert lookup
  length-insert_new k v [] h = omega arith
  length-insert_new k v ((j, w) ∷ d) h = ground (arith, length-insert_new k v d)

  pub length-erase : (k : K) (d : Dict K V) → has k d ≡ true → length (erase k d) + 1 ≡ length d
  unfolding erase lookup
  length-erase k [] h = cc
  length-erase k ((j, w) ∷ d) h = ground (arith, length-erase k d)

module _ {ℓ κ} {A : Type ℓ} {B : Type κ} ⦃e : Eq B⦄ where
  pub contains-map-snoc :
      (f : A → B) (xs : List A) (x : A) (b : B)
      → contains (map f (xs ++ x ∷ [])) b ≡ (contains (map f xs) b || f x == b)
  unfolding contains
  contains-map-snoc f [] x b = ground arith
  contains-map-snoc f (y ∷ ys) x b = ground (arith, contains-map-snoc f ys x b)

  pub distinct-map-snoc :
      (f : A → B) (xs : List A) (x : A)
      → distinct (map f xs) ≡ true
      → contains (map f xs) (f x) ≡ false
      → distinct (map f (xs ++ x ∷ [])) ≡ true
  unfolding distinct contains
  distinct-map-snoc f [] x u h = refl
  distinct-map-snoc f (y ∷ ys) x u h = ground (
    arith,
    distinct-map-snoc f ys x,
    contains-map-snoc f ys x (f y),
    e.beq_iff (f x) (f y),
    e.beq_iff (f y) (f x),
  )

  pub distinct-cons :
      (f : A → B) (x : A) (xs : List A)
      → distinct (map f (x ∷ xs)) ≡ true
      → (contains (map f xs) (f x) ≡ false) × (distinct (map f xs) ≡ true)
  unfolding distinct
  distinct-cons f x xs h = ground arith
