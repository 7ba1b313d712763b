-- ===== src/Teams/Dependencies/Complete.antt =====
-- The search accepts every graph that has a rank, never runs out of fuel, and raises nothing but
-- the validation error.
use mew_code.Prelude.{
  ℕ, zero, suc, ◌≤◌, ◌<◌, ◌≡◌, refl, inl, inr, true, false, not, some, List, [], ◌∷◌, length,
  contains, distinct, ◌==◌, Bool-cases, Option-cases, Outcome, ok, err, ◌>>=◌, Outcome-cases, ◌↔◌,
  if◌then◌else◌, arith, ==_self, eq_of_==,
}
use mew_code.Prelude.Dict.{lookup, has, keys, values}
use mew_code.Prelude.Dict.Laws.{All, All-values-of, any-false, contains-keys}
use mew_code.Prelude.Text.{Text, text_eq}
use mew_code.Teams.Models.{TeamTask, Failure}
use mew_code.Teams.Dependencies.{
  Tasks, visit_all, visit, known_dependencies, check_known, validate_dependencies,
}
use mew_code.Teams.Dependencies.Sound.{
  IsKnown, IsRanked, check_known-IsKnown, validate_dependencies-IsRanked,
}

-- The map's keys are the identifiers of its values, each once, as in a Python dict.
pub record IsKeyed (tasks : Tasks) : Type 0 where
  pub unique : distinct (keys tasks) ≡ true
  pub own_id : (k : Text) (t : TeamTask) → lookup k tasks ≡ some t → t.task_id ≡ k

-- How many of the keys are not being visited.
waiting : List Text → List Text → ℕ
waiting visiting [] = 0
waiting visiting (k ∷ ks) =
    let rest = waiting visiting ks in if contains visiting k then rest else suc rest

waiting-le : (visiting ks : List Text) → waiting visiting ks ≤ length ks
unfolding waiting
waiting-le visiting [] = omega arith
waiting-le visiting (k ∷ ks) = ground (arith, waiting-le visiting ks)

waiting_mono :
    (id : Text) (visiting ks : List Text) → waiting (id ∷ visiting) ks ≤ waiting visiting ks
unfolding waiting contains
waiting_mono id visiting [] = omega arith
waiting_mono id visiting (k ∷ ks) = ground (arith, waiting_mono id visiting ks)

waiting-lt :
    (id : Text) (visiting ks : List Text)
    → contains visiting id ≡ false
    → contains ks id ≡ true
    → waiting (id ∷ visiting) ks < waiting visiting ks
unfolding waiting contains
waiting-lt id visiting [] fresh m = cc
waiting-lt id visiting (k ∷ ks) fresh m = ground (
  arith,
  text_eq.beq_iff k id,
  text_eq.beq_iff id k,
  waiting_mono id visiting ks,
  waiting-lt id visiting ks,
)

-- A search returns or raises the validation error.
abbrev IsClean : Outcome Failure (List Text) → Type 0
IsClean r = (e : Failure) → r ≡ err e → e ≡ Failure.validation

IsClean-bind :
    (m : Outcome Failure (List Text)) (f : List Text → Outcome Failure (List Text))
    → IsClean m
    → ((v : List Text) → IsClean (f v))
    → IsClean (m >>= f)
IsClean-bind (ok v) f hm hf = hf v
IsClean-bind (err x) f hm hf = λ e p. hm e (cc)

visit_all-IsClean :
    (f : List Text → Text → Outcome Failure (List Text)) (ds : List Text)
    → ((v : List Text) (d : Text) → contains ds d ≡ true → IsClean (f v d))
    → (visited : List Text) → IsClean (visit_all f visited ds)
unfolding visit_all contains
visit_all-IsClean f [] h visited = λ e p. cc
visit_all-IsClean f (d ∷ ds) h visited =
    IsClean-bind (f visited d) (λ v. visit_all f v ds) (h visited d (ground (arith, ==_self d)))
      (visit_all-IsClean f ds (λ v x p. h v x (ground arith)))

visit-IsClean :
    (fuel : ℕ) (tasks : Tasks) (visiting visited : List Text) (id : Text)
    → IsKnown tasks
    → has id tasks ≡ true
    → waiting visiting (keys tasks) < fuel
    → IsClean (visit fuel tasks visiting visited id)
unfolding visit
visit-IsClean zero tasks visiting visited id known there room = elim room [ ]
visit-IsClean (suc fuel) tasks visiting visited id known there room =
    elim (Bool-cases (contains visiting id)) [
      | inl loop ↦ rw loop (λ e p. cc)
      | inr fresh ↦ elim (Bool-cases (contains visited id)) [
        | inl done ↦ rw (fresh, done) (λ e p. cc)
        | inr new ↦
            rw (fresh, new)
              (elim (Option-cases (lookup id tasks)) [
                | inl missing ↦ absurd (cc (rw missing at there))
                | inr (t, found) ↦ rw found (
                    IsClean-bind
                      (visit_all (visit fuel tasks (id ∷ visiting)) visited t.dependency_ids) _
                      (visit_all-IsClean (visit fuel tasks (id ∷ visiting)) t.dependency_ids
                        (λ v d dep.
                          visit-IsClean fuel tasks (id ∷ visiting) v d known
                            (known id t d found dep)
                            (omega (
                              arith,
                              waiting-lt id visiting (keys tasks) fresh
                                  (rw (contains-keys id tasks) there),
                            )))
                        visited)
                      (λ w e p. cc))
              ])
      ]
    ]

-- Under a rank no chain of visits meets its own start.
abbrev Above : (Text → ℕ) → List Text → Text → Type 0
Above rank visiting id = (x : Text) → contains visiting x ≡ true → rank id < rank x

abbrev Returns : Outcome Failure (List Text) → Type 0
Returns r = (v : List Text) × (r ≡ ok v)

Returns-bind :
    (m : Outcome Failure (List Text)) (f : List Text → Outcome Failure (List Text))
    → Returns m
    → ((v : List Text) → Returns (f v))
    → Returns (m >>= f)
Returns-bind m f (v, e) hf = rw e (hf v)

visit_all-Returns :
    (f : List Text → Text → Outcome Failure (List Text)) (ds : List Text)
    → ((v : List Text) (d : Text) → contains ds d ≡ true → Returns (f v d))
    → (visited : List Text) → Returns (visit_all f visited ds)
unfolding visit_all contains
visit_all-Returns f [] h visited = (visited, refl)
visit_all-Returns f (d ∷ ds) h visited =
    Returns-bind (f visited d) (λ v. visit_all f v ds) (h visited d (ground (arith, ==_self d)))
      (visit_all-Returns f ds (λ v x p. h v x (ground arith)))

Above-not-contains :
    (rank : Text → ℕ) (visiting : List Text) (id : Text)
    → Above rank visiting id
    → contains visiting id ≡ false
Above-not-contains rank visiting id above = elim (Bool-cases (contains visiting id)) [
  | inl loop ↦ absurd (omega (arith, above id loop))
  | inr fresh ↦ fresh
]

Above-cons :
    (rank : Text → ℕ) (visiting : List Text) (id d : Text)
    → Above rank visiting id
    → rank d < rank id
    → Above rank (id ∷ visiting) d
unfolding contains
Above-cons rank visiting id d above lt x p = elim (Bool-cases (id == x)) [
  | inl same ↦ rw (← (eq_of_== id x same)) lt
  | inr other ↦ omega (arith, above x (ground arith))
]

module _ (tasks : Tasks) (rank : Text → ℕ) (known : IsKnown tasks)
    (ranked : IsRanked tasks rank) where
  visit-Returns :
      (fuel : ℕ) (visiting visited : List Text) (id : Text)
      → has id tasks ≡ true
      → waiting visiting (keys tasks) < fuel
      → Above rank visiting id
      → Returns (visit fuel tasks visiting visited id)
  unfolding visit
  visit-Returns zero visiting visited id there room above = elim room [ ]
  visit-Returns (suc fuel) visiting visited id there room above =
      let fresh = Above-not-contains rank visiting id above in
      elim (Bool-cases (contains visited id)) [
        | inl done ↦ rw (fresh, done) (visited, refl)
        | inr new ↦
            rw (fresh, new)
              (elim (Option-cases (lookup id tasks)) [
                | inl missing ↦ absurd (cc (rw missing at there))
                | inr (t, found) ↦ rw found (
                    Returns-bind
                      (visit_all (visit fuel tasks (id ∷ visiting)) visited t.dependency_ids) _
                      (visit_all-Returns (visit fuel tasks (id ∷ visiting)) t.dependency_ids
                        (λ v d dep.
                          visit-Returns fuel (id ∷ visiting) v d (known id t d found dep)
                            (omega (
                              arith,
                              waiting-lt id visiting (keys tasks) fresh
                                  (rw (contains-keys id tasks) there),
                            ))
                            (Above-cons rank visiting id d above (ranked id t d found dep)))
                        visited)
                      (λ w. (id ∷ w, refl)))
              ])
      ]

  known_dependencies-true :
      IsKeyed tasks
      → (k : Text) (t : TeamTask) → lookup k tasks ≡ some t
      → known_dependencies tasks t ≡ true
  unfolding known_dependencies
  known_dependencies-true keyed k t found =
      let own = keyed.own_id k t found in
      let loop_free : contains t.dependency_ids t.task_id ≡ false =
        elim (Bool-cases (contains t.dependency_ids t.task_id)) [
          | inl loop ↦ absurd (omega (arith, ranked k t k found (rw own at loop)))
          | inr free ↦ free
        ] in
      let all_known =
        any-false (λ item. not (has item tasks)) t.dependency_ids
          (λ d dep. ground (arith, known k t d found dep)) in
      rw (loop_free, all_known)

check_known-ok :
    (tasks : Tasks) (ts : List TeamTask)
    → All (λ t. known_dependencies tasks t ≡ true) ts
    → check_known tasks ts ≡ ok tt
unfolding check_known
check_known-ok tasks [] h = refl
check_known-ok tasks (t ∷ ts) h = rw h.0 (check_known-ok tasks ts h.1)

-- A graph with known dependencies and a rank is accepted.
pub IsRanked-validate_dependencies :
    (tasks : Tasks) (rank : Text → ℕ)
    → IsKeyed tasks
    → IsKnown tasks
    → IsRanked tasks rank
    → validate_dependencies tasks ≡ ok tt
unfolding validate_dependencies contains
IsRanked-validate_dependencies tasks rank keyed known ranked =
    let first = check_known-ok tasks (values tasks) (
      All-values-of (λ t. known_dependencies tasks t ≡ true) tasks keyed.unique
        (known_dependencies-true tasks rank known ranked keyed)) in
    let search =
      visit_all-Returns (visit (suc (length (keys tasks))) tasks []) (keys tasks)
        (λ v d m.
          visit-Returns tasks rank known ranked (suc (length (keys tasks))) [] v d
            (rw (contains-keys d tasks) at m) (omega (arith, waiting-le [] (keys tasks)))
            (λ x p. cc))
        [] in
    rw (first, search.1)

check_known-IsClean :
    (tasks : Tasks) (ts : List TeamTask) (e : Failure)
    → check_known tasks ts ≡ err e
    → e ≡ Failure.validation
unfolding check_known
check_known-IsClean tasks [] e h = cc
check_known-IsClean tasks (t ∷ ts) e h = elim (Bool-cases (known_dependencies tasks t)) [
  | inl good ↦ check_known-IsClean tasks ts e (rw good at h)
  | inr bad ↦ cc (rw bad at h)
]

-- The fuel suffices and no key is missing: the only failure is the validation error.
validate_dependencies-IsClean :
    (tasks : Tasks) (e : Failure) → validate_dependencies tasks ≡ err e → e ≡ Failure.validation
unfolding validate_dependencies
validate_dependencies-IsClean tasks e h = elim (Outcome-cases (check_known tasks (values tasks))) [
  | inl (_, fine) ↦
      let n = suc (length (keys tasks)) in
      let clean =
        visit_all-IsClean (visit n tasks []) (keys tasks)
          (λ v d m.
            visit-IsClean n tasks [] v d (check_known-IsKnown tasks fine)
              (rw (contains-keys d tasks) at m) (omega (arith, waiting-le [] (keys tasks))))
          [] in
      elim (Outcome-cases (visit_all (visit n tasks []) [] (keys tasks))) [
        | inl (v, done) ↦ cc (rw (fine, done) at h)
        | inr (x, stop) ↦ cc (clean x stop, rw (fine, stop) at h)
      ]
  | inr (x, stop) ↦ cc (check_known-IsClean tasks (values tasks) x stop, rw stop at h)
]

-- For tasks that are each stored once, under their own identifier, the search decides whether the
-- graph is acyclic: it accepts it exactly when every dependency is
-- known and a rank falls along every dependency, and raises the validation error otherwise.
pub validate_dependencies-decides :
    (tasks : Tasks)
    → IsKeyed tasks
    → ((validate_dependencies tasks ≡ ok tt)
        ↔ (IsKnown tasks × ((rank : Text → ℕ) × IsRanked tasks rank)))
      × ((e : Failure) → validate_dependencies tasks ≡ err e → e ≡ Failure.validation)
validate_dependencies-decides tasks keyed = (
  (
    validate_dependencies-IsRanked tasks,
    λ p. IsRanked-validate_dependencies tasks p.1.0 keyed p.0 p.1.1,
  ),
  validate_dependencies-IsClean tasks,
)
