-- ===== src/Agent/Tests.antt =====
-- The schedule of a reading call, a call with side effects and a call of an unknown tool, in a mode
-- that allows what no rule decides.
use mathlib.Core.List.Permᴰ
use mathlib.Core.Path.{subst}
use mew_code.Prelude.{
  arith, ℕ, ◌≡◌, refl, true, false, Option, none, some, List, [], ◌∷◌, map, contains, distinct,
  Outcome, ok, err, sym, ◌∙◌, ok-injective, keep, not, ◌↔◌, any,
}
use mew_code.Prelude.Dict.{lookup}
use mew_code.Prelude.Dict.Laws.{All}
use mew_code.Prelude.Sort.{count_up, sort_by, number}
use mew_code.Prelude.Text.{Text, text_eq, codes}
use mew_code.Glob.{Platform}
use mew_code.Permissions.Models.{
  PermissionOutcome, PermissionSource, PermissionChoice, PermissionMode, PermissionRuleSets,
  PermissionDecision, PermissionTarget, PermissionTargetKind,
}
use mew_code.Permissions.Rules.{match_rules, match_layers, candidates, winner}
use mew_code.Permissions.Controller.{
  decision, Built, evaluate_preflight, unmatched, apply_choice, choose,
}
use mew_code.Tools.{
  JsonValue, ToolParameterSchema, Tool, ToolRegistry, ToolSafety, ToolCallRequest, ToolResult,
  ToolExecution, Ran, matches_json_type, validate_call, validate_arguments, missing_argument_of,
  wrong_type_of, make_registry, select_names, without_names, execute_validated,
}
use mew_code.Tools.Registry.{entries, make_registry_lem, select_names_lem, names}
use mew_code.Agent.Calls.{
  Circumstances, ControlEnd, TaskEnd, Run, PreparedCall, ScheduleError, complete_call, status_of,
}
use mew_code.Agent.Prepare.{prepare_call, gate_call, evaluate_call, decided, ask_user}
use mew_code.Agent.Prepare.Records.{call_of}
use mew_code.Agent.Prepare.Gates.{prepare_call_allowed, IsPermitted}
use mew_code.Agent.Schedule.{
  partition, ToolSchedule, new_schedule, events, executions, is_read_only, flush, partition_from,
  is_read_batch, prepare_batch, run_one, complete_all, run_prepared, run_batches, end_events,
  execution_of, read_executions, serial_execution,
}
use mew_code.Agent.Schedule.Partition.{partition_lem, flatten, IsBatch}
use mew_code.Agent.Prepare.Returns.{Answers}
use mew_code.Agent.Schedule.Complete.{executions_complete}
use mew_code.Agent.Schedule.Kept.{Kept}
use mew_code.Agent.Schedule.Returns.{executions_total}

abbrev platform : Platform
platform = record {
  re_escape = λ c. 92 ∷ c ∷ [];
  re_fullmatch = λ ignore_case p s. some true;
  windows = false;
}

abbrev schema : ToolParameterSchema
schema = record {
  required = codes "path" ∷ [];
  properties = (codes "path", some (codes "string")) ∷ [];
}

abbrev tool_of : ToolSafety → Text → Tool
tool_of safety name = record {
  name = name;
  parameters_schema = schema;
  safety = safety;
  is_control = false;
}

abbrev read_file : Tool
read_file = tool_of ToolSafety.read_only (codes "read")

abbrev write_file : Tool
write_file = tool_of ToolSafety.side_effect (codes "write")

abbrev registry : ToolRegistry
registry = (codes "read", read_file) ∷ (codes "write", write_file) ∷ []

abbrev request_of : Text → ToolCallRequest
request_of name = record {
  id = name;
  name = name;
  arguments = some ((codes "path", JsonValue.string (codes "a")) ∷ []);
  raw_arguments = [];
}

abbrev requests : List ToolCallRequest
requests = request_of (codes "read") ∷ request_of (codes "write") ∷ request_of (codes "x") ∷ []

abbrev done : ToolResult
done = record { is_ok = true; tool_name = []; content = codes "a"; error = none; metadata = [] }

abbrev target : PermissionTarget
target = record { tool_name = codes "read"; value = codes "a"; kind = PermissionTargetKind.path }

abbrev world : ℕ → Circumstances
world i = record {
  cancel_called = false;
  built = Built.target_of target;
  policy_allowed = true;
  hook_denial = none;
  control_end = ControlEnd.stopped;
  choice = some PermissionChoice.once;
  persisted = none;
  ran = Ran.returned done;
  task_end = TaskEnd.returns;
}

abbrev rules : PermissionRuleSets
rules = record { session = []; project_local = []; project = []; user = [] }

abbrev in_turn : List PreparedCall → List PreparedCall
in_turn ps = ps

abbrev run_of : ToolSchedule × Outcome ScheduleError Run → Run
run_of (s, ok run) = run
run_of (s, err e) = record { completed = []; events = []; cancel_requested = false; rules = rules }

abbrev ended : ToolSchedule × Outcome ScheduleError Run
ended = events platform PermissionMode.allow registry world in_turn rules (new_schedule requests)

-- The rules stay as they are, since the user allows each call once.
abbrev Same : PermissionRuleSets → Type 0
Same r = r ≡ rules

evaluate_none :
    (t : PermissionTarget) (r : PermissionRuleSets)
    → Same r
    → evaluate_preflight platform PermissionMode.default r t
      ≡ ok (unmatched PermissionMode.default t)
unfolding evaluate_preflight match_rules match_layers candidates winner unmatched
evaluate_none t r same =
    subst
      (λ z.
        evaluate_preflight platform PermissionMode.default z t
        ≡ ok (unmatched PermissionMode.default t))
      (sym same) refl

apply_once :
    (t : PermissionTarget) (r : PermissionRuleSets) (d : PermissionDecision)
    (choice : PermissionChoice)
    → unmatched PermissionMode.default t ≡ d
    → PermissionChoice.once ≡ choice
    → apply_choice none d choice r
      ≡ ok (decision PermissionOutcome.allow t PermissionSource.user_confirmation none, r)
unfolding apply_choice choose unmatched
apply_once t r d choice known once =
    let result = decision PermissionOutcome.allow t PermissionSource.user_confirmation none in
    subst (λ z. apply_choice none d z r ≡ ok (result, r)) once
      (subst (λ z. apply_choice none z PermissionChoice.once r ≡ ok (result, r)) known refl)

asked-Answers : Answers platform PermissionMode.default world Same
asked-Answers = record {
  controls = λ i e. cc;
  evaluates = λ i t r same built. (unmatched PermissionMode.default t, evaluate_none t r same);
  applies = λ i t r d choice same found asks chosen. (
    decision PermissionOutcome.allow t PermissionSource.user_confirmation none,
    r,
    apply_once t r d choice (ok-injective (sym (evaluate_none t r same) ∙ found)) (ground arith),
    same,
  );
}

executions_total_example :
    (es : List ToolExecution) × (executions
        (events platform PermissionMode.default registry world in_turn rules
          (new_schedule requests)).0
      ≡ ok es)
    × (map call_of es ≡ count_up 0 requests)
executions_total_example =
    executions_total Same platform PermissionMode.default registry world asked-Answers (λ i. refl)
      in_turn (λ ps. Permᴰ.refl ps) rules requests refl

executions_complete_example :
    (es : List ToolExecution) × (executions ended.0 ≡ ok es)
    × Kept world (count_up 0 requests) (map call_of (run_of ended).completed)
    × (map call_of es ≡ sort_by number (map call_of (run_of ended).completed))
unfolding events end_events run_batches partition partition_from is_read_only flush lookup
    prepare_batch prepare_call validate_call validate_arguments missing_argument_of wrong_type_of
    gate_call evaluate_call evaluate_preflight match_rules match_layers candidates winner unmatched
    decided run_prepared is_read_batch run_one execution_of read_executions serial_execution
    execute_validated complete_all complete_call any status_of text_eq matches_json_type
executions_complete_example =
    executions_complete platform PermissionMode.allow registry world in_turn (λ ps. Permᴰ.refl ps)
      rules requests ended.0 (run_of ended) refl

abbrev before : Run
before = record { completed = []; events = []; cancel_requested = false; rules = rules }

-- The default mode asks, and the user allows the call once.
abbrev asked : Outcome ScheduleError (Run × Option PreparedCall)
asked =
    prepare_call platform PermissionMode.default registry (world 0) 0 (request_of (codes "read"))
      before

abbrev run_after : Outcome ScheduleError (Run × Option PreparedCall) → Run
run_after (ok out) = out.0
run_after (err e) = before

abbrev prepared : PreparedCall
prepared = record {
  index = 0;
  call = record { request = request_of (codes "read"); tool = read_file };
}

prepare_call_allowed_example :
    (t : PermissionTarget) × (false ≡ false)
    × (validate_call registry (request_of (codes "read")) ≡ ok prepared.call)
    × ((world 0).built ≡ Built.target_of t)
    × ((world 0).policy_allowed ≡ true)
    × ((world 0).hook_denial ≡ none)
    × (prepared.call.tool.is_control ≡ false)
    × IsPermitted platform PermissionMode.default (world 0) t before (run_after asked)
unfolding prepare_call validate_call validate_arguments missing_argument_of wrong_type_of lookup
    gate_call evaluate_call evaluate_preflight match_rules match_layers candidates winner unmatched
    ask_user apply_choice choose decided text_eq matches_json_type
prepare_call_allowed_example =
    prepare_call_allowed platform PermissionMode.default registry (world 0) 0
      (request_of (codes "read")) before (run_after asked) prepared refl

partition_lem_example :
    (flatten (partition registry requests) ≡ count_up 0 requests)
    × All (IsBatch registry) (partition registry requests)
partition_lem_example = partition_lem registry requests

make_registry_lem_example : (make_registry (read_file ∷ write_file ∷ []) ≡ ok registry) ↔ (
    (distinct (names (read_file ∷ write_file ∷ [])) ≡ true)
    × (registry ≡ entries (read_file ∷ write_file ∷ [])))
make_registry_lem_example = make_registry_lem (read_file ∷ write_file ∷ []) registry

select_names_lem_example :
    (select_names (codes "read" ∷ []) registry
      ≡ ok
          (entries (keep (λ t. contains (codes "read" ∷ []) t.name) (read_file ∷ write_file ∷ []))))
    × (without_names (codes "read" ∷ []) registry
        ≡ ok (
            entries (
              keep (λ t. not (contains (codes "read" ∷ []) t.name)) (read_file ∷ write_file ∷ []))))
unfolding distinct contains text_eq
select_names_lem_example =
    select_names_lem (read_file ∷ write_file ∷ []) registry (codes "read" ∷ [])
      ((make_registry_lem (read_file ∷ write_file ∷ []) registry).1 (refl, refl))
