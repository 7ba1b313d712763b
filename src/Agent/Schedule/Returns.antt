-- ===== src/Agent/Schedule/Returns.antt =====
-- When the events of a schedule end without an error.
use mathlib.Core.Path.{subst}
use mathlib.Core.List.{Permᴰ}
use mew_code.Prelude.{
  ℕ, ◌≡◌, refl, sym, ap, ◌∙◌, Bool, Bool-cases, inl, inr, false, none, some, List, [], ◌∷◌, map,
  length, ok,
}
use mathlib.Core.List.{append-nil}
use mew_code.Prelude.Sort.{count_up, sort_by_restores}
use mew_code.Prelude.Text.{text_eq}
use mew_code.Glob.{Platform}
use mew_code.Permissions.Models.{PermissionMode, PermissionRuleSets}
use mew_code.Tools.{ToolCallRequest, ToolExecution, ToolRegistry}
use mew_code.Agent.Calls.{
  Circumstances, TaskEnd, Run, AgentEvent, PreparedCall, emit, complete_call, status_of,
}
use mew_code.Agent.Prepare.Records.{call_of}
use mew_code.Agent.Schedule.{
  Batch, is_read_batch, run_one, execution_of, read_executions, serial_execution, after_tasks,
  prepare_batch, complete_all, run_prepared, run_batches, partition, new_schedule, end_events,
  events, executions,
}
use mew_code.Agent.Schedule.Complete.{executions_complete}
use mew_code.Agent.Schedule.Kept.{Kept}
use mew_code.Agent.Prepare.Returns.{Answers, prepare_call-Returns}

complete_all-rules : (es : List ToolExecution) (run : Run) → (complete_all es run).rules ≡ run.rules
unfolding complete_all complete_call
complete_all-rules [] run = refl
complete_all-rules (e ∷ es) run =
    complete_all-rules es (complete_call e.index e.request e.result (status_of e.result) run)

-- The task of every call gives its execution: none is cancelled before its first step or during the
-- hooks after its tool, and none raises there.
abbrev pub AllReturn : (ℕ → Circumstances) → Type 0
AllReturn world = (i : ℕ) → (world i).task_end ≡ TaskEnd.returns

read_executions-returns :
    (world : ℕ → Circumstances) (stopped : Bool) (ps : List PreparedCall)
    → AllReturn world
    → (out : List ToolExecution × Bool) × (read_executions
          (map (λ p. run_one stopped (world p.index) p) ps)
        ≡ ok out)
unfolding read_executions run_one
read_executions-returns world stopped [] all = (([], false), refl)
read_executions-returns world stopped (p ∷ ps) all =
    let (out, e) = read_executions-returns world stopped ps all in
    ((execution_of stopped (world p.index) p ∷ out.0, out.1), rw (all p.index) (rw e refl))

serial_execution-returns :
    (world : ℕ → Circumstances) (stopped : Bool) (p : PreparedCall)
    → AllReturn world
    → (out : List ToolExecution × Bool) × (serial_execution (run_one stopped (world p.index) p)
        ≡ ok out)
unfolding serial_execution run_one
serial_execution-returns world stopped p all =
    ((execution_of stopped (world p.index) p ∷ [], false), rw (all p.index) refl)

run_prepared-returns :
    (registry : ToolRegistry) (world : ℕ → Circumstances)
    (order : List PreparedCall → List PreparedCall) (batch : Batch) (ps : List PreparedCall)
    (run : Run)
    → AllReturn world
    → (out : Run) × (run_prepared registry world order batch ps run ≡ ok out)
      × (out.rules ≡ run.rules)
unfolding run_prepared
run_prepared-returns registry world order batch [] run all = (run, refl, refl)
run_prepared-returns registry world order batch (p ∷ ps) run all =
    elim (Bool-cases (is_read_batch registry batch)) [
      | inl reads ↦
          let (out, e) = read_executions-returns world run.cancel_requested (order (p ∷ ps)) all in
          (
            after_tasks world (order (p ∷ ps)) out run,
            rw (reads, e) refl,
            complete_all-rules out.0 _,
          )
      | inr serial ↦
          let (out, e) = serial_execution-returns world run.cancel_requested p all in
          (after_tasks world (p ∷ []) out run, rw (serial, e) refl, complete_all-rules out.0 _)
    ]

module _ (P : PermissionRuleSets → Type 0) (platform : Platform) (mode : PermissionMode)
    (registry : ToolRegistry) (world : ℕ → Circumstances) (answers : Answers platform mode world P)
    (all : AllReturn world) where
  prepare_batch-returns :
      (batch : Batch) (run : Run)
      → P run.rules
      → (out : Run × List PreparedCall) × (prepare_batch platform mode registry world batch run
          ≡ ok out)
        × P out.0.rules
  unfolding prepare_batch
  prepare_batch-returns [] run h = ((run, []), refl, h)
  prepare_batch-returns ((i, r) ∷ batch) run h =
      let ((run1, o), e, h1) =
        prepare_call-Returns P platform mode registry world answers i r run h in
      let ((run2, rest), e', h2) = prepare_batch-returns batch run1 h1 in
      ((run2, elim o [ none ↦ rest | some call ↦ call ∷ rest ]), rw (e, e') refl, h2)

  run_batches-returns :
      (order : List PreparedCall → List PreparedCall) (total : ℕ) (batches : List Batch) (run : Run)
      → P run.rules
      → (out : Run) × (run_batches platform mode registry world order total batches run ≡ ok out)
  unfolding run_batches
  run_batches-returns order total [] run h = (run, refl)
  run_batches-returns order total (batch ∷ batches) run h =
      let begun = emit (AgentEvent.batch_started (length run.completed) total) run in
      let ((run1, ps), e, h1) = prepare_batch-returns batch begun h in
      let (ended, done, same) = run_prepared-returns registry world order batch ps run1 all in
      let kept : P ended.rules = subst P (sym same) h1 in
      let (out, e') =
        run_batches-returns order total batches
          (emit (AgentEvent.batch_completed (length ended.completed) total) ended) kept in
      (out, rw (e, done) e')

  no_loss : (calls done : List (ℕ × ToolCallRequest)) → Kept world calls done → Permᴰ calls done
  no_loss calls done ([], p, h) = subst (Permᴰ calls) (append-nil done) p
  no_loss calls done (x ∷ lost, p, h) = absurd (h.0 (all x.0))

  -- Where the permission controller answers for the targets and the choices that come up, from rules of
  -- a kind that the choices keep and that the schedule begins with, no control tool's operation raises,
  -- every task gives its execution, and the order in which the tasks of a batch end is a rearrangement of
  -- them, the events of a new schedule end without an error. `executions` then gives one execution for
  -- each request, in the order of the requests, whatever was denied, cancelled or failed among them.
  pub executions_total :
      (order : List PreparedCall → List PreparedCall)
      → ((ps : List PreparedCall) → Permᴰ ps (order ps))
      → (rules : PermissionRuleSets) (rs : List ToolCallRequest) → P rules
      → (es : List ToolExecution) × (executions
            (events platform mode registry world order rules (new_schedule rs)).0
          ≡ ok es)
        × (map call_of es ≡ count_up 0 rs)
  unfolding events end_events
  executions_total order rearranges rules rs h =
      let started : Run = record {
        completed = [];
        events = [];
        cancel_requested = false;
        rules = rules;
      } in
      let (run, e) = run_batches-returns order (length rs) (partition registry rs) started h in
      let ended = end_events (new_schedule rs) (ok run) in
      let reached : events platform mode registry world order rules (new_schedule rs)
          ≡ (ended.0, ok run) =
        ap (end_events (new_schedule rs)) e in
      let (es, given, kept, sorted) =
        executions_complete platform mode registry world order rearranges rules rs ended.0 run
          reached in
      let restored =
        sort_by_restores (map call_of run.completed) 0 rs (no_loss (count_up 0 rs) _ kept) in
      (es, ap (λ z. executions z.0) reached ∙ given, sorted ∙ restored)
