-- ===== src/Teams/Dependencies.antt =====
-- src/mewcode/teams/domain.py, `_validate_dependencies`: the depth-first search for a cycle.
-- A set is the list of its elements. `visiting.remove` after a visit is the return to the
-- caller's list, and a raise drops both sets.
pub mod Sound
pub mod Complete
use mew_code.Prelude.{
  ℕ, zero, suc, Bool, ◌&&◌, not, Option, none, some, List, [], ◌∷◌, length, any, contains, Outcome,
  ok, err, ◌>>=◌, ◌>>◌, raise_if, if◌then◌else◌,
}
use mew_code.Prelude.Dict.{Dict, lookup, has, keys, values}
use mew_code.Prelude.Text.{Text, text_eq}
use mew_code.Teams.Models.{TeamTask, Failure}

abbrev pub Tasks : Type 0
Tasks = Dict Text TeamTask

-- `for dependency in ...: visit(dependency)`, which threads `visited`
unfoldable pub visit_all :
    (List Text → Text → Outcome Failure (List Text))
    → List Text
    → List Text
    → Outcome Failure (List Text)
visit_all f visited [] = ok visited
visit_all f visited (d ∷ ds) = f visited d >>= λ v. visit_all f v ds

-- `mapping[task_id].dependency_ids`
abbrev pub dependencies_of : Option TeamTask → Outcome Failure (List Text)
dependencies_of none = err Failure.key_error
dependencies_of (some task) = ok task.dependency_ids

-- `visit`; the fuel bounds the depth of the recursion
unfoldable pub visit : ℕ → Tasks → List Text → List Text → Text → Outcome Failure (List Text)
visit zero tasks visiting visited task_id = err Failure.recursion
visit (suc fuel) tasks visiting visited task_id =
    let explore = dependencies_of (lookup task_id tasks) >>= λ ds.
    visit_all (visit fuel tasks (task_id ∷ visiting)) visited ds >>= λ v. ok (task_id ∷ v) in
    if contains visiting task_id
    then err Failure.validation
    else if contains visited task_id
    then ok visited
    else explore

-- The first loop: no task depends on itself or on an unknown task.
unfoldable pub known_dependencies : Tasks → TeamTask → Bool
unfolding contains any lookup
known_dependencies tasks task =
    not (contains task.dependency_ids task.task_id)
    && not (any (λ item. not (has item tasks)) task.dependency_ids)

unfoldable pub check_known : Tasks → List TeamTask → Outcome Failure (Unit {0})
unfolding known_dependencies
check_known tasks [] = ok tt
check_known tasks (task ∷ rest) =
    raise_if (not (known_dependencies tasks task)) Failure.validation >> check_known tasks rest

-- The nested visits are of distinct keys, and one more call finds the cycle.
unfoldable pub validate_dependencies : Tasks → Outcome Failure (Unit {0})
unfolding check_known visit visit_all
validate_dependencies tasks =
    check_known tasks (values tasks)
    >> (visit_all (visit (suc (length (keys tasks))) tasks []) [] (keys tasks) >>= λ visited. ok tt)
