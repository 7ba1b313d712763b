-- ===== src/Teams/Dependencies/Sound.antt =====
-- What an accepted dependency graph satisfies: every dependency is known, and a rank falls along
-- every dependency, so no chain of dependencies comes back to where it started.
use mew_code.Prelude.{
  ℕ, zero, suc, ◌≤◌, ◌<◌, ◌≡◌, inl, inr, true, some, List, [], ◌∷◌, length, contains, ◌==◌,
  Bool-cases, Outcome, ok, ◌>>=◌, >>=-eq-ok, not, if◌then◌else◌, arith, Option-cases, ==_self,
  eq_of_==, ==_of_eq,
}
use mew_code.Prelude.Dict.{lookup, has, keys, values}
use mew_code.Prelude.Dict.Laws.{All, lookup-All-values, any-contains, contains-keys}
use mew_code.Prelude.Text.{Text, text_eq}
use mew_code.Teams.Models.{TeamTask, Failure}
use mew_code.Teams.Dependencies.{
  Tasks, visit_all, dependencies_of, visit, known_dependencies, check_known, validate_dependencies,
}

-- The rank of each task is above the ranks of what it depends on.
abbrev pub IsRanked : Tasks → (Text → ℕ) → Type 0
IsRanked tasks rank =
    (k : Text) (t : TeamTask) (d : Text)
    → lookup k tasks ≡ some t
    → contains t.dependency_ids d ≡ true
    → rank d < rank k

-- Every dependency of a task that a key finds is a task.
abbrev pub IsKnown : Tasks → Type 0
IsKnown tasks =
    (k : Text) (t : TeamTask) (d : Text)
    → lookup k tasks ≡ some t
    → contains t.dependency_ids d ≡ true
    → has d tasks ≡ true

-- Each finished task stands above all of its dependencies.
abbrev Finished : Tasks → List Text → Type 0
Finished tasks [] = Unit
Finished tasks (x ∷ vs) =
    ((t : TeamTask) (d : Text)
      → lookup x tasks ≡ some t
      → contains t.dependency_ids d ≡ true
      → contains vs d ≡ true)
    × Finished tasks vs

record Grown (tasks : Tasks) (before after : List Text) : Type 0 where
  finished : Finished tasks after
  grows : (x : Text) → contains before x ≡ true → contains after x ≡ true

abbrev Step : Tasks → (List Text → Text → Outcome Failure (List Text)) → Type 0
Step tasks f =
    (visited : List Text) (d : Text) (v : List Text)
    → f visited d ≡ ok v
    → Finished tasks visited
    → Grown tasks visited v × (contains v d ≡ true)

visit_all-Grown :
    (tasks : Tasks) (f : List Text → Text → Outcome Failure (List Text))
    → Step tasks f
    → (ds visited v : List Text) → visit_all f visited ds ≡ ok v
    → Finished tasks visited
    → Grown tasks visited v × ((d : Text) → contains ds d ≡ true → contains v d ≡ true)
unfolding visit_all contains
visit_all-Grown tasks f step [] visited v h fin =
    let same : visited ≡ v = cc in
    (record { finished = rw (← same) fin; grows = λ x p. rw (← same) p }, λ d p. cc)
visit_all-Grown tasks f step (d ∷ ds) visited v h fin =
    let (mid, first, rest) = >>=-eq-ok (f visited d) (λ w. visit_all f w ds) h in
    let one = step visited d mid first fin in
    let more = visit_all-Grown tasks f step ds mid v rest one.0.finished in
    (
      record { finished = more.0.finished; grows = λ x p. more.0.grows x (one.0.grows x p) },
      λ x p. elim (Bool-cases (d == x)) [
        | inl same ↦ ground (arith, text_eq.beq_iff d x, more.0.grows d one.1)
        | inr other ↦ more.1 x (ground arith)
      ],
    )

-- A visit that explores `id` puts it above its dependencies.
explore-Grown :
    (tasks : Tasks) (f : List Text → Text → Outcome Failure (List Text))
    → Step tasks f
    → (visited : List Text) (id : Text) (v : List Text)
    → (dependencies_of (lookup id tasks) >>= λ ds. visit_all f visited ds >>= λ w. ok (id ∷ w))
      ≡ ok v
    → Finished tasks visited
    → Grown tasks visited v × (contains v id ≡ true)
unfolding contains
explore-Grown tasks f step visited id v h fin = elim (Option-cases (lookup id tasks)) [
  | inl missing ↦ cc (rw missing at h)
  | inr (t, found) ↦
      let (w, all, top) = >>=-eq-ok (visit_all f visited t.dependency_ids) _ (rw found at h) in
      let same : id ∷ w ≡ v = cc in
      let below = visit_all-Grown tasks f step t.dependency_ids visited w all fin in
      (
        record {
          finished = rw (← same) ((λ u d p q. below.1 d (ground arith)), below.0.finished);
          grows = λ x p. rw (← same) (ground (arith, below.0.grows x p));
        },
        rw (← same) (ground (arith, ==_self id)),
      )
]

visit-Grown :
    (fuel : ℕ) (tasks : Tasks) (visiting : List Text) → Step tasks (visit fuel tasks visiting)
unfolding visit
visit-Grown zero tasks visiting visited id v h fin = cc
visit-Grown (suc fuel) tasks visiting visited id v h fin =
    elim (Bool-cases (contains visiting id)) [
      | inl loop ↦ cc (rw loop at h)
      | inr fresh ↦ elim (Bool-cases (contains visited id)) [
        | inl done ↦
            let same : visited ≡ v = cc (rw (fresh, done) at h) in
            (record { finished = rw (← same) fin; grows = λ x p. rw (← same) p }, rw (← same) done)
        | inr new ↦
            explore-Grown tasks (visit fuel tasks (id ∷ visiting))
              (visit-Grown fuel tasks (id ∷ visiting)) visited id v (rw (fresh, new) at h) fin
      ]
    ]

-- The height of a task in the list of finished tasks.
rank_in : List Text → Text → ℕ
rank_in [] x = 0
rank_in (v ∷ vs) x = if contains vs x then rank_in vs x else if v == x then suc (length vs) else 0

rank_in-le : (vs : List Text) (x : Text) → rank_in vs x ≤ length vs
unfolding rank_in
rank_in-le [] x = omega arith
rank_in-le (v ∷ vs) x = ground (arith, rank_in-le vs x)

rank_in-lt :
    (tasks : Tasks) (vs : List Text)
    → Finished tasks vs
    → (k : Text) (t : TeamTask) (d : Text) → contains vs k ≡ true
    → lookup k tasks ≡ some t
    → contains t.dependency_ids d ≡ true
    → (contains vs d ≡ true) × (rank_in vs d < rank_in vs k)
unfolding rank_in contains
rank_in-lt tasks [] fin k t d p q r = cc
rank_in-lt tasks (v ∷ vs) fin k t d p q r = elim (Bool-cases (contains vs k)) [
  | inl old ↦ ground (arith, rank_in-lt tasks vs fin.1 k t d old q r)
  | inr new ↦
      let same : v ≡ k = eq_of_== v k (ground arith) in
      ground (arith, fin.0 t d (rw same q) r, rank_in-le vs d, ==_of_eq v k same)
]

check_known-All :
    (tasks : Tasks) (ts : List TeamTask)
    → check_known tasks ts ≡ ok tt
    → All (λ t. known_dependencies tasks t ≡ true) ts
unfolding check_known
check_known-All tasks [] h = tt
check_known-All tasks (t ∷ ts) h = elim (Bool-cases (known_dependencies tasks t)) [
  | inl good ↦ (good, check_known-All tasks ts (rw good at h))
  | inr bad ↦ cc (rw bad at h)
]

pub check_known-IsKnown : (tasks : Tasks) → check_known tasks (values tasks) ≡ ok tt → IsKnown tasks
unfolding known_dependencies
check_known-IsKnown tasks h k t d found dep =
    let good =
      lookup-All-values (λ t. known_dependencies tasks t ≡ true) tasks
        (check_known-All tasks (values tasks) h) k t found in
    let known = any-contains (λ item. not (has item tasks)) t.dependency_ids d (ground arith) dep in
    ground arith

-- An accepted graph: all dependencies are known, and some rank falls along each of them.
pub validate_dependencies-IsRanked :
    (tasks : Tasks)
    → validate_dependencies tasks ≡ ok tt
    → IsKnown tasks × ((rank : Text → ℕ) × IsRanked tasks rank)
unfolding validate_dependencies
validate_dependencies-IsRanked tasks h =
    let (_, known, search) = >>=-eq-ok (check_known tasks (values tasks)) _ h in
    let (vs, visits, _) = >>=-eq-ok (visit_all _ [] (keys tasks)) _ search in
    let grown =
      visit_all-Grown tasks (visit (suc (length (keys tasks))) tasks [])
        (visit-Grown (suc (length (keys tasks))) tasks []) (keys tasks) [] vs visits tt in
    (
      check_known-IsKnown tasks known,
      (
        rank_in vs,
        λ k t d found dep.
            (rank_in-lt tasks vs grown.0.finished k t d
              (grown.1 k (rw (contains-keys k tasks, found))) found dep).1,
      ),
    )
