-- ===== src/Agent/Schedule/Complete.antt =====
-- The executions of a schedule whose events end without an error.
use mathlib.Core.List.{append_assoc, append-nil, Permᴰ}
use mathlib.Core.List.Permᴰ
use mew_code.Prelude.{
  ℕ, ◌≡◌, refl, sym, ap, ◌∙◌, true, false, none, some, List, [], ◌∷◌, ◌++◌, map, length,
  Outcome-cases, Bool-cases, ok, ◌⊎◌, inl, inr, arith,
}
use mathlib.Core.Path.{subst}
use mew_code.Prelude.Dict.Laws.{All}
use mew_code.Prelude.Sort.{count_up, sort_by, number, map-sort_by}
use mew_code.Prelude.Text.{text_eq}
use mew_code.Glob.{Platform}
use mew_code.Permissions.Models.{PermissionMode, PermissionRuleSets}
use mew_code.Tools.{ToolCallRequest, ToolExecution, ToolRegistry}
use mew_code.Agent.Calls.{
  Circumstances, Run, PreparedCall, AgentEvent, emit, complete_call, status_of,
}
use mew_code.Agent.Prepare.{prepare_call}
use mew_code.Agent.Schedule.{
  Batch, is_read_batch, prepare_batch, run_one, read_executions, after_tasks, serial_execution,
  complete_all, run_prepared, run_batches, ToolSchedule, new_schedule, end_events, events,
  executions, partition,
}
use mew_code.Agent.Schedule.Partition.{flatten, IsBatch, partition_lem}
use mew_code.Agent.Prepare.Records.{call_of, prepared_of, complete_call-calls, prepare_call-Records}
use mew_code.Agent.Schedule.Kept.{
  Kept, map-Permᴰ, Kept-Permᴰ, Kept-then, read_executions-Kept, serial_execution-Kept,
}

complete_all-calls :
    (es : List ToolExecution) (run : Run)
    → map call_of (complete_all es run).completed ≡ map call_of run.completed ++ map call_of es
unfolding complete_all
complete_all-calls [] run = sym (append-nil _)
complete_all-calls (e ∷ es) run =
    complete_all-calls es (complete_call e.index e.request e.result (status_of e.result) run)
    ∙ rw (complete_call-calls e.index e.request e.result (status_of e.result) run)
        (append_assoc (map call_of run.completed) (call_of e ∷ []) (map call_of es))

moved :
    {A : Type 0} (x : A) (ys zs us vs : List A)
    → Permᴰ (ys ++ zs) (us ++ vs)
    → Permᴰ (ys ++ (x ∷ zs)) (us ++ (x ∷ vs))
moved x ys zs us vs p =
    Permᴰ.trans (Permᴰ.middle x ys zs)
      (Permᴰ.trans (Permᴰ.cons refl p) (Permᴰ.symm (Permᴰ.middle x us vs)))

module _ (platform : Platform) (mode : PermissionMode) (registry : ToolRegistry)
    (world : ℕ → Circumstances) where
  -- The calls that are done and those of the batch come to those that are done and those prepared.
  prepare_batch-calls :
      (batch : Batch) (run run' : Run) (ps : List PreparedCall)
      → prepare_batch platform mode registry world batch run ≡ ok (run', ps)
      → Permᴰ
          (map call_of run.completed ++ batch)
          (map call_of run'.completed ++ map prepared_of ps)
  unfolding prepare_batch
  prepare_batch-calls [] run run' ps h =
      let same : run ≡ run' = ground arith in
      let nothing : [] ≡ ps = ground arith in rw (← same, ← nothing) (Permᴰ.refl _)
  prepare_batch-calls ((i, r) ∷ batch) run run' ps h =
      elim (Outcome-cases (prepare_call platform mode registry (world i) i r run)) [
        | inr (x, bad) ↦ absurd (ground arith)
        | inl ((run1, o), e) ↦
            elim (Outcome-cases (prepare_batch platform mode registry world batch run1)) [
              | inr (x, bad) ↦ absurd (ground arith)
              | inl ((run2, rest), e') ↦
                  let ih = prepare_batch-calls batch run1 run2 rest e' in
                  let same : run2 ≡ run' = ground arith in
                  elim (prepare_call-Records platform mode registry (world i) i r run (run1, o) e) [
                    | inl (gone, more) ↦
                        let all : rest ≡ ps = ground arith in
                        rw
                          (
                            ← same,
                            ← all,
                            ← append_assoc (map call_of run.completed) ((i, r) ∷ []) batch,
                            ← more,
                          )
                          ih
                    | inr (p, is, of, kept) ↦
                        let all : p ∷ rest ≡ ps = ground arith in
                        rw (← same, ← all, ← of, ← kept)
                          (moved (prepared_of p) (map call_of run1.completed) batch
                            (map call_of run2.completed) (map prepared_of rest) ih)
                  ]
            ]
      ]

  -- A batch of one call prepares one call at most.
  prepare_batch-alone :
      (item : ℕ × ToolCallRequest) (run run' : Run) (ps : List PreparedCall)
      → prepare_batch platform mode registry world (item ∷ []) run ≡ ok (run', ps)
      → (ps ≡ []) ⊎ ((p : PreparedCall) × (ps ≡ p ∷ []))
  unfolding prepare_batch
  prepare_batch-alone (i, r) run run' ps h =
      elim (Outcome-cases (prepare_call platform mode registry (world i) i r run)) [
        | inr (x, bad) ↦ absurd (ground arith)
        | inl ((run1, none), e) ↦ inl (ground arith)
        | inl ((run1, some p), e) ↦ inr (p, ground arith)
      ]

module _ (registry : ToolRegistry) (world : ℕ → Circumstances)
    (order : List PreparedCall → List PreparedCall)
    (rearranges : (ps : List PreparedCall) → Permᴰ ps (order ps)) where
  completed-Kept :
      (calls : List (ℕ × ToolCallRequest)) (es : List ToolExecution) (run : Run)
      → Kept world calls (map call_of es)
      → Kept world
          (map call_of run.completed ++ calls)
          (map call_of (complete_all es run).completed)
  completed-Kept calls es run (lost, p, h) = (
    lost,
    rw (complete_all-calls es run, append_assoc (map call_of run.completed) (map call_of es) lost)
        (Permᴰ.append_left (map call_of run.completed) p),
    h,
  )

  run_prepared-calls :
      (batch : List (ℕ × ToolCallRequest)) (ps : List PreparedCall) (run run' : Run)
      → (is_read_batch registry batch ≡ true) ⊎ ((ps ≡ []) ⊎ ((p : PreparedCall) × (ps ≡ p ∷ [])))
      → run_prepared registry world order batch ps run ≡ ok run'
      → Kept world (map call_of run.completed ++ map prepared_of ps) (map call_of run'.completed)
  unfolding run_prepared
  run_prepared-calls batch [] run run' few h =
      let same : run ≡ run' = ground arith in rw (← same) ([], Permᴰ.refl _, tt)
  run_prepared-calls batch (first ∷ others) run run' few h =
      elim (Bool-cases (is_read_batch registry batch)) [
        | inl reads ↦
            let one = λ (p : PreparedCall). run_one run.cancel_requested (world p.index) p in
            elim (Outcome-cases (read_executions (map one (order (first ∷ others))))) [
              | inr (x, bad) ↦ absurd (ground arith)
              | inl ((es, c), e) ↦
                  let same : after_tasks world (order (first ∷ others)) (es, c) run ≡ run' =
                    ground arith in
                  rw (← same) (
                    Kept-Permᴰ world _ _ _
                      (Permᴰ.append_left (map call_of run.completed)
                        (map-Permᴰ prepared_of (rearranges (first ∷ others))))
                      (completed-Kept (map prepared_of (order (first ∷ others))) es _ (
                        read_executions-Kept world run.cancel_requested (order (first ∷ others)) es
                          c e)))
            ]
        | inr serial ↦
            elim (Outcome-cases
              (serial_execution (run_one run.cancel_requested (world first.index) first))) [
                | inr (x, bad) ↦ absurd (ground arith)
                | inl ((es, c), e) ↦
                    let same : after_tasks world (first ∷ []) (es, c) run ≡ run' = ground arith in
                    let alone : [] ≡ others = ground arith in
                    rw (← same, ← alone)
                      (completed-Kept (prepared_of first ∷ []) es _
                        (serial_execution-Kept world run.cancel_requested first es c e))
              ]
      ]

read_or_alone :
    (platform : Platform) (mode : PermissionMode) (registry : ToolRegistry)
    (world : ℕ → Circumstances) (batch : List (ℕ × ToolCallRequest)) (run run' : Run)
    (ps : List PreparedCall)
    → IsBatch registry batch
    → prepare_batch platform mode registry world batch run ≡ ok (run', ps)
    → (is_read_batch registry batch ≡ true) ⊎ ((ps ≡ []) ⊎ ((p : PreparedCall) × (ps ≡ p ∷ [])))
unfolding is_read_batch prepare_batch
read_or_alone platform mode registry world [] run run' ps (inl reads) h = inr (inl (ground arith))
read_or_alone platform mode registry world (item ∷ batch) run run' ps (inl reads) h = inl reads.0
read_or_alone platform mode registry world batch run run' ps (inr (item, alone, other)) h = inr (
    prepare_batch-alone platform mode registry world item run run' ps
      (subst (λ b. prepare_batch platform mode registry world b run ≡ ok (run', ps)) alone h))

module _ (platform : Platform) (mode : PermissionMode) (registry : ToolRegistry)
    (world : ℕ → Circumstances) (order : List PreparedCall → List PreparedCall)
    (rearranges : (ps : List PreparedCall) → Permᴰ ps (order ps)) where
  run_batches-calls :
      (total : ℕ) (batches : List Batch) (run run' : Run)
      → All (IsBatch registry) batches
      → run_batches platform mode registry world order total batches run ≡ ok run'
      → Kept world (map call_of run.completed ++ flatten batches) (map call_of run'.completed)
  unfolding run_batches
  run_batches-calls total [] run run' all h =
      let same : run ≡ run' = ground arith in
      rw (← same, append-nil (map call_of run.completed))
        ([], rw (append-nil (map call_of run.completed)) (Permᴰ.refl _), tt)
  run_batches-calls total (batch ∷ batches) run run' all h =
      let begun = emit (AgentEvent.batch_started (length run.completed) total) run in
      elim (Outcome-cases (prepare_batch platform mode registry world batch begun)) [
        | inr (x, bad) ↦ absurd (ground arith)
        | inl ((run1, ps), e) ↦
            elim (Outcome-cases (run_prepared registry world order batch ps run1)) [
              | inr (x, bad) ↦ absurd (ground arith)
              | inl (ended, e') ↦
                  let prepared =
                    prepare_batch-calls platform mode registry world batch begun run1 ps e in
                  let few =
                    read_or_alone platform mode registry world batch begun run1 ps all.0 e in
                  let ran =
                    run_prepared-calls registry world order rearranges batch ps run1 ended few e' in
                  let rest =
                    run_batches-calls total batches
                      (emit (AgentEvent.batch_completed (length ended.completed) total) ended) run'
                      all.1 (ground arith) in
                  rw (← append_assoc (map call_of run.completed) batch (flatten batches)) (
                    Kept-then world _ _ (flatten batches) _ (Kept-Permᴰ world _ _ _ prepared ran)
                      rest)
            ]
      ]

  -- A new schedule whose events end without an error is complete, and `executions` gives one execution
  -- for each request but those whose task was cancelled or raised outside its tool, whatever the order
  -- in which the tasks of a batch end, and whatever was denied, cancelled or failed among them; if no task
  -- was, the executions are in the order of the requests.
  pub executions_complete :
      (rules : PermissionRuleSets) (rs : List ToolCallRequest) (s : ToolSchedule) (run : Run)
      → events platform mode registry world order rules (new_schedule rs) ≡ (s, ok run)
      → (es : List ToolExecution) × (executions s ≡ ok es)
        × Kept world (count_up 0 rs) (map call_of run.completed)
        × (map call_of es ≡ sort_by number (map call_of run.completed))
  unfolding events end_events executions
  executions_complete rules rs s run h =
      let started : Run = record {
        completed = [];
        events = [];
        cancel_requested = false;
        rules = rules;
      } in
      let (flat, batched) = partition_lem registry rs in
      elim (Outcome-cases (
        run_batches platform mode registry world order (length rs) (partition registry rs)
          started)) [
            | inr (x, bad) ↦ absurd (ground arith)
            | inl (run1, e) ↦
                let reached : end_events (new_schedule rs) (ok run1) ≡ (s, ok run) =
                  sym (ap (end_events (new_schedule rs)) e) ∙ h in
                let same : run1 ≡ run = ground arith in
                let p =
                  run_batches-calls (length rs) (partition registry rs) started run1 batched e in
                (
                  sort_by (λ e. e.index) run1.completed,
                  subst (λ z. executions z ≡ ok (sort_by (λ e. e.index) run1.completed))
                      (ap (λ z. z.0) reached) refl,
                  rw (← same, ← flat) p,
                  rw (← same) (map-sort_by call_of number run1.completed),
                )
          ]
