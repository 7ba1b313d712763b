-- ===== src/Teams/Repository/Commit.antt =====
-- The commit of a mutation, and the disk after one that raises.
use mew_code.Prelude.{
  ℕ, ◌≡◌, ◌⊎◌, ◌∙◌, refl, sym, ap, true, Option, some, List, [], ◌∷◌, pair_eq, nat_eq, Bool-cases,
  Outcome, Outcome-cases, ok-injective, ok, err, inl, inr, arith,
}
use mathlib.Core.Path.{subst}
use mew_code.Prelude.Dict.Laws.{All}
use mew_code.Prelude.Text.{Text, text_eq}
use mew_code.Teams.Models.{TeamState, TeamName, Failure}
use mew_code.Teams.Repository.{
  Disk, load, compare_and_swap, Attempt, Swap, stored, is_conflict, run,
}
use mew_code.Teams.Repository.Swapped.{IsSwapped, IsEnding, compare_and_swap-IsEnding}

module _ (name : TeamName) (fence : Text × ℕ)
    (transform : TeamState → Outcome Failure TeamState) where
  -- What an attempt on a disk reads and makes of it.
  pub record IsPrepared (before : Disk) : Type 0 where
    pub current : TeamState
    pub candidate : TeamState
    pub loaded : load name before ≡ ok current
    pub computed : transform current ≡ ok candidate

  -- The attempts on a disk, up to the one that ends them: what is returned or raised, and the disk.
  pub data Ran : List Attempt → Disk → Outcome Failure TeamState → Disk → Type 0 where
    exhausted : {before : Disk} → Ran [] before (err Failure.conflict) before
    unprepared :
        {a : Attempt} {attempts : List Attempt} {before : Disk} (e : Failure)
        → Ran (a ∷ attempts) before (err e) before
    ended :
        {a : Attempt} {attempts : List Attempt} {before : Disk} {out : Outcome Failure TeamState}
        {file : Option TeamState} (p : IsPrepared before)
        → IsEnding name a.swap p.current.revision fence p.candidate
            (a.interference before).state_file
            out
            file
        → Ran (a ∷ attempts) before out (record (a.interference before) { state_file = file })
    again :
        {a : Attempt} {attempts : List Attempt} {before after : Disk}
        {out : Outcome Failure TeamState}
        → IsPrepared before
        → Ran attempts (a.interference before) out after
        → Ran (a ∷ attempts) before out after

  -- A conflict leaves the file as the swap found it.
  conflict-file :
      (swap : Swap) (expected : ℕ) (candidate : TeamState) (before after : Option TeamState)
      (e : Failure)
      → IsEnding name swap expected fence candidate before (err e) after
      → is_conflict e ≡ true
      → after ≡ before
  conflict-file swap expected candidate before _ e (IsEnding.refused _) h = refl
  conflict-file swap expected candidate before after _ (IsEnding.broke committed swapped) h =
      absurd cc

  pub run-Ran :
      (attempts : List Attempt) (before : Disk)
      → Ran attempts before
          (run name fence transform attempts before).0
          (run name fence transform attempts before).1
  unfolding run
  run-Ran [] before = Ran.exhausted
  run-Ran (a ∷ attempts) before = elim (Outcome-cases (load name before)) [
    | inr (e, bad) ↦ rw (run, bad) (Ran.unprepared e)
    | inl (s, loaded) ↦ elim (Outcome-cases (transform s)) [
      | inr (e, bad) ↦ rw (run, loaded, bad) (Ran.unprepared e)
      | inl (candidate, computed) ↦
          let p : IsPrepared before = record {
            current = s;
            candidate = candidate;
            loaded = loaded;
            computed = computed;
          } in
          let disturbed = a.interference before in
          let swapped =
            compare_and_swap name a.swap s.revision fence candidate disturbed.state_file in
          let ending =
            compare_and_swap-IsEnding name a.swap s.revision fence candidate disturbed.state_file in
          elim (Outcome-cases swapped.0) [
            | inl (committed, done) ↦
                rw (run, loaded, computed, done)
                  (Ran.ended p (
                    subst
                      (λ o.
                        IsEnding name a.swap s.revision fence candidate disturbed.state_file o
                          swapped.1)
                      done ending))
            | inr (e, stopped) ↦ elim (Bool-cases (is_conflict e)) [
              | inr other ↦
                  rw (run, loaded, computed, stopped, other)
                    (Ran.ended p (
                      subst
                        (λ o.
                          IsEnding name a.swap s.revision fence candidate disturbed.state_file o
                            swapped.1)
                        stopped ending))
              | inl retried ↦
                  let same : record disturbed { state_file = swapped.1 } ≡ disturbed =
                    ap (λ f. record disturbed { state_file = f })
                      (conflict-file a.swap s.revision candidate disturbed.state_file swapped.1 e
                        (subst
                          (λ o.
                            IsEnding name a.swap s.revision fence candidate disturbed.state_file o
                              swapped.1)
                          stopped ending)
                        retried) in
                  rw (run, loaded, computed, stopped, retried)
                    (Ran.again p (
                      subst
                        (λ d.
                          Ran attempts disturbed (run name fence transform attempts d).0
                            (run name fence transform attempts d).1)
                        (sym same) (run-Ran attempts disturbed)))
            ]
          ]
    ]
  ]

  -- A commit by one of the attempts on a disk: it read the state, no other process changed its revision
  -- before the swap, and the state file went from what the others left to the transformed state.
  pub data IsCommitted (committed : TeamState) (after : Disk) : List Attempt → Disk → Type 0 where
    now :
        {a : Attempt} {attempts : List Attempt} {before : Disk} (p : IsPrepared before)
        → IsSwapped name p.current.revision fence a.swap p.candidate committed
            (a.interference before).state_file
            after.state_file
        → IsCommitted committed after (a ∷ attempts) before
    later :
        {a : Attempt} {attempts : List Attempt} {before : Disk}
        → IsCommitted committed after attempts (a.interference before)
        → IsCommitted committed after (a ∷ attempts) before

  Ran-IsCommitted :
      (attempts : List Attempt) (before after : Disk) (committed : TeamState)
      (out : Outcome Failure TeamState)
      → Ran attempts before out after
      → out ≡ ok committed
      → IsCommitted committed after attempts before
  Ran-IsCommitted _ before _ committed _ Ran.exhausted h = absurd cc
  Ran-IsCommitted _ before _ committed _ (Ran.unprepared e) h = absurd cc
  Ran-IsCommitted _ before _ committed _ (Ran.ended {a} p (IsEnding.returned {after} c swapped)) h =
      IsCommitted.now p (
        subst
          (λ z.
            IsSwapped name p.current.revision fence a.swap p.candidate z
              (a.interference before).state_file after)
          (ok-injective h) swapped)
  Ran-IsCommitted _ before _ committed _ (Ran.ended p (IsEnding.refused e)) h = absurd cc
  Ran-IsCommitted _ before _ committed _ (Ran.ended p (IsEnding.broke c swapped)) h = absurd cc
  Ran-IsCommitted _ before after committed out (Ran.again {a} {attempts} p r) h =
      IsCommitted.later (Ran-IsCommitted attempts (a.interference before) after committed out r h)

  -- A mutation that returns has committed: one of its attempts read the state from the disk as the
  -- attempts and the other processes before had left it, transformed it, found that the state file that
  -- the other processes left meanwhile has the same revision and that its fence is that of a live lease,
  -- and replaced that file by the transformed state, one revision later.
  pub run-IsCommitted :
      (attempts : List Attempt) (before after : Disk) (committed : TeamState)
      → run name fence transform attempts before ≡ (ok committed, after)
      → IsCommitted committed after attempts before
  run-IsCommitted attempts before after committed h =
      Ran-IsCommitted attempts before after committed (ok committed)
        (subst (λ z. Ran attempts before z.0 z.1) h (run-Ran attempts before)) refl

  Ran-err :
      (attempts : List Attempt) (before after : Disk) (e : Failure)
      (out : Outcome Failure TeamState)
      → All (λ a. (d : Disk) → a.interference d ≡ d) attempts
      → Ran attempts before out after
      → out ≡ err e
      → (after ≡ before)
        ⊎ ((e ≡ Failure.storage) × ((s : TeamState) × IsCommitted s after attempts before))
  Ran-err _ before _ e _ quiet Ran.exhausted h = inl refl
  Ran-err _ before _ e _ quiet (Ran.unprepared x) h = inl refl
  Ran-err _ before _ e _ quiet (Ran.ended p (IsEnding.returned c swapped)) h = absurd cc
  Ran-err _ before _ e _ quiet (Ran.ended p (IsEnding.refused x)) h = inl (quiet.0 before)
  Ran-err _ before _ e _ quiet (Ran.ended p (IsEnding.broke c swapped)) h =
      inr (ground arith, (c, IsCommitted.now p swapped))
  Ran-err _ before after e out quiet (Ran.again {a} {attempts} p r) h =
      elim (Ran-err attempts (a.interference before) after e out quiet.1 r h) [
        | inl same ↦ inl (same ∙ quiet.0 before)
        | inr (storage, (s, c)) ↦ inr (storage, (s, IsCommitted.later c))
      ]

  -- Where no other process writes, a mutation that raises leaves the disk as it was, but where its write
  -- raises after it has replaced the state file: the disk then holds the commit.
  pub run-err :
      (attempts : List Attempt) (before after : Disk) (e : Failure)
      → All (λ a. (d : Disk) → a.interference d ≡ d) attempts
      → run name fence transform attempts before ≡ (err e, after)
      → (after ≡ before)
        ⊎ ((e ≡ Failure.storage) × ((s : TeamState) × IsCommitted s after attempts before))
  run-err attempts before after e quiet h =
      Ran-err attempts before after e (err e) quiet
        (subst (λ z. Ran attempts before z.0 z.1) h (run-Ran attempts before)) refl

-- A state that one of the attempts reads from the disk has the property.
pub data Reads (name : TeamName) (P : TeamState → Type 0) : List Attempt → Disk → Type 0 where
  now :
      {a : Attempt} {attempts : List Attempt} {before : Disk} (current : TeamState)
      → load name before ≡ ok current
      → P current
      → Reads name P (a ∷ attempts) before
  later :
      {a : Attempt} {attempts : List Attempt} {before : Disk}
      → Reads name P attempts (a.interference before)
      → Reads name P (a ∷ attempts) before

module _ (name : TeamName) (fence : Text × ℕ)
    (transform : TeamState → Outcome Failure TeamState) where
  pub IsCommitted-Reads :
      (P : TeamState → Type 0) (committed : TeamState) (after : Disk) (attempts : List Attempt)
      (before : Disk)
      → ((current candidate : TeamState) (n now : ℕ)
          → transform current ≡ ok candidate
          → committed ≡ record candidate { revision = n; updated_at = now }
          → P current)
      → IsCommitted name fence transform committed after attempts before
      → (after.state_file ≡ some (stored committed)) × Reads name P attempts before
  IsCommitted-Reads P committed after _ before f (IsCommitted.now p swapped) = (
    swapped.replaced,
    Reads.now p.current p.loaded (f p.current p.candidate _ _ p.computed swapped.result),
  )
  IsCommitted-Reads P committed after _ before f (IsCommitted.later {a} {attempts} c) =
      let (file, r) = IsCommitted-Reads P committed after attempts (a.interference before) f c in
      (file, Reads.later r)
