-- ===== src/Prelude/Sort.antt =====
-- Python's `sorted` with a key that is a number: stable insertion, and what it does with rearranged lists.
use mathlib.Core.Path.{◌≡◌, refl, sym, ◌∙◌}
use mathlib.Core.Bool.{Bool, true, false}
use mathlib.Core.Logic.{inl, inr}
use mathlib.Core.List.{List, [], ◌∷◌, ◌++◌, map, Permᴰ}
use mathlib.Core.List.Permᴰ
use Prim.Native.Nat.{ℕ, suc, ◌+◌, ◌<◌}
use native.Mathlib.Omega.{arith}
use mew_code.Prelude.Tests.{if◌then◌else◌, Bool-cases, ltb}
use mew_code.Prelude.Keys.{Eq, nat_eq, ◌==◌, contains, distinct}
use mew_code.Prelude.Lists.{length}

module _ {A : Type 0} (key : A → ℕ) where
  unfoldable pub place : A → List A → List A
  place x [] = x ∷ []
  place x (y ∷ ys) = let later = place x ys in if ltb (key y) (key x) then y ∷ later else x ∷ y ∷ ys

  -- sorted(xs, key=key)
  unfoldable pub sort_by : List A → List A
  sort_by [] = []
  sort_by (x ∷ xs) = place x (sort_by xs)

module _ {A K : Type 0} ⦃eq : Eq K⦄ (key : A → K) where
  pub contains-Permᴰ :
      {xs ys : List A} → Permᴰ xs ys → (k : K) → contains (map key xs) k ≡ contains (map key ys) k
  unfolding contains
  contains-Permᴰ Permᴰ.nil k = refl
  contains-Permᴰ (Permᴰ.cons e p) k = rw (e, contains-Permᴰ p k) refl
  contains-Permᴰ (Permᴰ.swap e f) k = rw (e, f) (ground arith)
  contains-Permᴰ (Permᴰ.trans p q) k = contains-Permᴰ p k ∙ contains-Permᴰ q k

distinct_swap :
    (j k : ℕ) (ks : List ℕ) → distinct (j ∷ k ∷ ks) ≡ true → distinct (k ∷ j ∷ ks) ≡ true
unfolding distinct contains
distinct_swap j k ks h = ground arith

distinct_cons :
    (j : ℕ) (ks : List ℕ)
    → distinct (j ∷ ks) ≡ true
    → (contains ks j ≡ false) × (distinct ks ≡ true)
unfolding distinct
distinct_cons j ks h = ground arith

distinct_differ : (j k : ℕ) (ks : List ℕ) → distinct (j ∷ k ∷ ks) ≡ true → (j == k) ≡ false
unfolding distinct contains
distinct_differ j k ks h = ground arith

module _ {A : Type 0} (key : A → ℕ) where
  -- Two items with different keys can be placed in either order.
  place_comm :
      (x y : A) (zs : List A)
      → (key x == key y) ≡ false
      → place key x (place key y zs) ≡ place key y (place key x zs)
  unfolding place
  place_comm x y [] h = ground arith
  place_comm x y (z ∷ zs) h = ground (arith, place_comm x y zs)

  abbrev pub keys_of : List A → List ℕ
  keys_of xs = map key xs

  distinct-Permᴰ :
      {xs ys : List A} → Permᴰ xs ys → distinct (keys_of xs) ≡ true → distinct (keys_of ys) ≡ true
  unfolding distinct contains
  distinct-Permᴰ Permᴰ.nil h = h
  distinct-Permᴰ (Permᴰ.cons {a} {b} e p) h =
      let (new, rest) = distinct_cons (key a) _ h in
      let rest' = distinct-Permᴰ p rest in
      let same = contains-Permᴰ key p (key a) in rw (← e) (ground (arith, same, rest'))
  distinct-Permᴰ (Permᴰ.swap {a} {b} {l = l} e f) h =
      rw (← e, ← f) (distinct_swap (key a) (key b) (keys_of l) h)
  distinct-Permᴰ (Permᴰ.trans p q) h = distinct-Permᴰ q (distinct-Permᴰ p h)

  -- The sorted list is the same however the items come, if no two have one key.
  pub sort_by-Permᴰ :
      {xs ys : List A}
      → Permᴰ xs ys
      → distinct (keys_of xs) ≡ true
      → sort_by key xs ≡ sort_by key ys
  unfolding sort_by distinct contains
  sort_by-Permᴰ Permᴰ.nil h = refl
  sort_by-Permᴰ (Permᴰ.cons {a} {b} e p) h =
      rw (← e, sort_by-Permᴰ p (distinct_cons (key a) _ h).1) refl
  sort_by-Permᴰ (Permᴰ.swap {a} {b} {l = l} e f) h =
      rw (← e, ← f) (place_comm a b (sort_by key l) (distinct_differ (key a) (key b) (keys_of l) h))
  sort_by-Permᴰ (Permᴰ.trans p q) h = sort_by-Permᴰ p h ∙ sort_by-Permᴰ q (distinct-Permᴰ p h)

-- Numbers that go up by one.
unfoldable pub count_up : {A : Type 0} → ℕ → List A → List (ℕ × A)
count_up n [] = []
count_up n (x ∷ xs) = (n, x) ∷ count_up (suc n) xs

module _ {A B : Type 0} (g : A → B) (key : B → ℕ) where
  map-place :
      (x : A) (xs : List A) → map g (place (λ a. key (g a)) x xs) ≡ place key (g x) (map g xs)
  unfolding place
  map-place x [] = refl
  map-place x (y ∷ ys) = elim (Bool-cases (ltb (key (g y)) (key (g x)))) [
    | inl later ↦ rw (later, map-place x ys) refl
    | inr first ↦ rw first refl
  ]

  pub map-sort_by : (xs : List A) → map g (sort_by (λ a. key (g a)) xs) ≡ sort_by key (map g xs)
  unfolding sort_by
  map-sort_by [] = refl
  map-sort_by (x ∷ xs) = rw (map-place x (sort_by (λ a. key (g a)) xs), map-sort_by xs) refl

module _ {A : Type 0} where
  abbrev pub number : ℕ × A → ℕ
  number p = p.0

  count_up_new : (n k : ℕ) (xs : List A) → k < n → contains (map number (count_up n xs)) k ≡ false
  unfolding count_up contains
  count_up_new n k [] h = refl
  count_up_new n k (x ∷ xs) h = let rest = count_up_new (suc n) k xs (omega arith) in ground arith

  pub count_up-distinct : (n : ℕ) (xs : List A) → distinct (map number (count_up n xs)) ≡ true
  unfolding count_up distinct
  count_up-distinct n [] = refl
  count_up-distinct n (x ∷ xs) =
      rw (count_up_new (suc n) n xs (omega arith), count_up-distinct (suc n) xs) refl

  place-count_up :
      (n : ℕ) (x : A) (xs : List A)
      → place number (n, x) (count_up (suc n) xs) ≡ (n, x) ∷ count_up (suc n) xs
  unfolding place count_up
  place-count_up n x [] = refl
  place-count_up n x (y ∷ ys) = ground arith

  sort_by-count_up : (n : ℕ) (xs : List A) → sort_by number (count_up n xs) ≡ count_up n xs
  unfolding sort_by count_up
  sort_by-count_up n [] = refl
  sort_by-count_up n (x ∷ xs) = rw (sort_by-count_up (suc n) xs) (place-count_up n x xs)

  -- Numbered items that come in any order are put back in theirs.
  pub sort_by_restores :
      (ps : List (ℕ × A)) (n : ℕ) (xs : List A)
      → Permᴰ (count_up n xs) ps
      → sort_by number ps ≡ count_up n xs
  sort_by_restores ps n xs p =
      sym (sort_by-Permᴰ number p (count_up-distinct n xs)) ∙ sort_by-count_up n xs

  pub count_up-append :
      (n m : ℕ) (xs ys : List A)
      → length xs + n ≡ m
      → count_up n (xs ++ ys) ≡ count_up n xs ++ count_up m ys
  unfolding count_up
  count_up-append n m [] ys h = let same : n ≡ m = omega arith in rw same refl
  count_up-append n m (x ∷ xs) ys h = rw (count_up-append (suc n) m xs ys (omega arith)) refl

-- sorted(xs, key=key) for a key whose order is `less`: stable insertion
module _ {A : Type 0} (less : A → A → Bool) where
  unfoldable pub place_with : A → List A → List A
  place_with x [] = x ∷ []
  place_with x (y ∷ ys) = let later = place_with x ys in if less y x then y ∷ later else x ∷ y ∷ ys

  unfoldable pub sort_with : List A → List A
  sort_with [] = []
  sort_with (x ∷ xs) = place_with x (sort_with xs)

  place_with-Permᴰ : (x : A) (ys : List A) → Permᴰ (x ∷ ys) (place_with x ys)
  unfolding place_with
  place_with-Permᴰ x [] = Permᴰ.refl _
  place_with-Permᴰ x (y ∷ ys) = elim (Bool-cases (less y x)) [
    | inl later ↦
        rw later (Permᴰ.trans (Permᴰ.swap refl refl) (Permᴰ.cons refl (place_with-Permᴰ x ys)))
    | inr here ↦ rw here (Permᴰ.refl _)
  ]

  pub sort_with-Permᴰ : (xs : List A) → Permᴰ xs (sort_with xs)
  unfolding sort_with
  sort_with-Permᴰ [] = Permᴰ.refl _
  sort_with-Permᴰ (x ∷ xs) =
      Permᴰ.trans (Permᴰ.cons refl (sort_with-Permᴰ xs)) (place_with-Permᴰ x (sort_with xs))
