-- ===== src/Agent/Schedule/Kept.antt =====
-- The executions that the tasks of a batch give.
use mathlib.Core.List.{append_assoc, Permᴰ}
use mathlib.Core.List.Permᴰ
use mew_code.Prelude.{
  ℕ, ◌≡◌, ◌≢◌, refl, ap, Bool, List, [], ◌∷◌, ◌++◌, map, Outcome-cases, ok, ◌⊎◌, inl, inr, arith,
}
use mathlib.Core.Path.{subst}
use mew_code.Prelude.Dict.Laws.{All}
use mew_code.Prelude.Text.{text_eq}
use mew_code.Tools.{ToolCallRequest, ToolExecution}
use mew_code.Agent.Calls.{Circumstances, TaskEnd, PreparedCall}
use mew_code.Agent.Schedule.{
  Ended, run_one, execution_of, gathered, read_executions, serial_execution,
}
use mew_code.Agent.Prepare.Records.{call_of, prepared_of}

-- The calls whose tasks gave no execution
abbrev pub Lost : (ℕ → Circumstances) → List (ℕ × ToolCallRequest) → Type 0
Lost world calls = All (λ x. (world x.0).task_end ≢ TaskEnd.returns) calls

-- Executions of all the calls but lost ones
abbrev pub Kept :
    (ℕ → Circumstances) → List (ℕ × ToolCallRequest) → List (ℕ × ToolCallRequest) → Type 0
Kept world calls done =
    (lost : List (ℕ × ToolCallRequest)) × Permᴰ calls (done ++ lost) × Lost world lost

module _ (world : ℕ → Circumstances) (stopped : Bool) where
  TaskEnd-cases : (e : TaskEnd) → (e ≡ TaskEnd.returns) ⊎ ((e ≡ TaskEnd.lost) ⊎ (e ≡ TaskEnd.broke))
  TaskEnd-cases TaskEnd.returns = inl refl
  TaskEnd-cases TaskEnd.lost = inr (inl refl)
  TaskEnd-cases TaskEnd.broke = inr (inr refl)

  abbrev one : PreparedCall → Ended
  one p = run_one stopped (world p.index) p

  Kept-cons :
      (x : ℕ × ToolCallRequest) (calls done : List (ℕ × ToolCallRequest))
      → Kept world calls done
      → Kept world (x ∷ calls) (x ∷ done)
  Kept-cons x calls done (lost, p, h) = (lost, Permᴰ.cons refl p, h)

  Kept-lose :
      (x : ℕ × ToolCallRequest) (calls done : List (ℕ × ToolCallRequest))
      → (world x.0).task_end ≢ TaskEnd.returns
      → Kept world calls done
      → Kept world (x ∷ calls) done
  Kept-lose x calls done gone (lost, p, h) =
      (x ∷ lost, Permᴰ.trans (Permᴰ.cons refl p) (Permᴰ.symm (Permᴰ.middle x done lost)), (gone, h))

  pub gathered-Kept :
      (ps : List PreparedCall)
      → Kept world (map prepared_of ps) (map call_of (gathered (map one ps)))
  unfolding gathered run_one execution_of
  gathered-Kept [] = ([], Permᴰ.nil, tt)
  gathered-Kept (p ∷ ps) = elim (TaskEnd-cases (world p.index).task_end) [
    | inl ends ↦ rw ends (Kept-cons (prepared_of p) (map prepared_of ps) _ (gathered-Kept ps))
    | inr (inl ends) ↦
        rw ends
          (Kept-lose (prepared_of p) (map prepared_of ps) _ (λ e. cc (e, ends)) (gathered-Kept ps))
    | inr (inr ends) ↦
        rw ends
          (Kept-lose (prepared_of p) (map prepared_of ps) _ (λ e. cc (e, ends)) (gathered-Kept ps))
  ]

  pub read_executions-Kept :
      (ps : List PreparedCall) (es : List ToolExecution) (c : Bool)
      → read_executions (map one ps) ≡ ok (es, c)
      → Kept world (map prepared_of ps) (map call_of es)
  unfolding read_executions run_one execution_of
  read_executions-Kept [] es c h =
      let nothing : [] ≡ es = ground arith in rw (← nothing) ([], Permᴰ.nil, tt)
  read_executions-Kept (p ∷ ps) es c h = elim (TaskEnd-cases (world p.index).task_end) [
    | inr (inr ends) ↦ absurd (ground arith)
    | inr (inl ends) ↦
        let same : gathered (map one ps) ≡ es = ground arith in
        rw (← same)
          (Kept-lose (prepared_of p) (map prepared_of ps) _ (λ e. cc (e, ends)) (gathered-Kept ps))
    | inl ends ↦ elim (Outcome-cases (read_executions (map one ps))) [
      | inr (x, bad) ↦ absurd (ground arith)
      | inl ((rest, c'), e) ↦
          let same : execution_of stopped (world p.index) p ∷ rest ≡ es = ground arith in
          subst (λ z. Kept world (prepared_of p ∷ map prepared_of ps) (map call_of z)) same
            (Kept-cons (prepared_of p) (map prepared_of ps) (map call_of rest)
              (read_executions-Kept ps rest c' e))
    ]
  ]

  pub serial_execution-Kept :
      (p : PreparedCall) (es : List ToolExecution) (c : Bool)
      → serial_execution (one p) ≡ ok (es, c)
      → Kept world (prepared_of p ∷ []) (map call_of es)
  unfolding serial_execution run_one execution_of
  serial_execution-Kept p es c h = elim (TaskEnd-cases (world p.index).task_end) [
    | inr (inr ends) ↦ absurd (ground arith)
    | inr (inl ends) ↦ absurd (ground arith)
    | inl ends ↦
        let same : execution_of stopped (world p.index) p ∷ [] ≡ es = ground arith in
        rw (← same) ([], Permᴰ.refl _, tt)
  ]

pub map-Permᴰ :
    {A B : Type 0} (f : A → B) {xs ys : List A} → Permᴰ xs ys → Permᴰ (map f xs) (map f ys)
map-Permᴰ f Permᴰ.nil = Permᴰ.nil
map-Permᴰ f (Permᴰ.cons e p) = Permᴰ.cons (ap f e) (map-Permᴰ f p)
map-Permᴰ f (Permᴰ.swap e d) = Permᴰ.swap (ap f e) (ap f d)
map-Permᴰ f (Permᴰ.trans p q) = Permᴰ.trans (map-Permᴰ f p) (map-Permᴰ f q)

pub Kept-Permᴰ :
    (world : ℕ → Circumstances) (calls calls' done : List (ℕ × ToolCallRequest))
    → Permᴰ calls calls'
    → Kept world calls' done
    → Kept world calls done
Kept-Permᴰ world calls calls' done p (lost, q, h) = (lost, Permᴰ.trans p q, h)

All-append : {A : Type 0} (P : A → Type 0) (xs ys : List A) → All P xs → All P ys → All P (xs ++ ys)
All-append P [] ys h k = k
All-append P (x ∷ xs) ys h k = (h.0, All-append P xs ys h.1 k)

-- What one batch keeps, and then the others.
pub Kept-then :
    (world : ℕ → Circumstances) (calls done rest ended : List (ℕ × ToolCallRequest))
    → Kept world calls done
    → Kept world (done ++ rest) ended
    → Kept world (calls ++ rest) ended
Kept-then world calls done rest ended (lost, p, h) (lost', p', h') =
    let first = Permᴰ.append_right rest p in
    let moved_on : Permᴰ ((done ++ lost) ++ rest) ((done ++ rest) ++ lost) =
      rw (append_assoc done lost rest, append_assoc done rest lost)
        (Permᴰ.append_left done (Permᴰ.append_comm lost rest)) in
    let last : Permᴰ ((done ++ rest) ++ lost) (ended ++ (lost' ++ lost)) =
      rw (← append_assoc ended lost' lost) (Permᴰ.append_right lost p') in
    (lost' ++ lost, Permᴰ.trans first (Permᴰ.trans moved_on last), All-append _ lost' lost h' h)
