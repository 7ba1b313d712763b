-- ===== src/Teams/TaskService/Batch/Again.antt =====
-- A published batch is there as it was given, and to publish it again changes nothing.
use mathlib.Core.Path.{subst}
use mew_code.Prelude.{
  ◌≡◌, refl, false, some, List, [], ◌∷◌, keep, length, ◌==◌, nat_eq, Bool-cases, Option-cases, inl,
  inr, ok, arith, >>=-eq-ok, ==_self, eq_of_==,
}
use mew_code.Prelude.Dict.{lookup, has, lookup-insert}
use mew_code.Prelude.Text.{Text, text_eq, texts_eq}
use mew_code.Teams.Models.{Time, TeamState, TeamActor, TeamTask, TeamTaskView}
use mew_code.Teams.Tasks.{create_task}
use mew_code.Teams.Tasks.Results.{new_task, create_task-eq-ok}
use mew_code.Teams.TaskService.Batch.{Specs, is_nil, validate_existing_batch, create_all, publish}

module _ (s s1 : TeamState) (actor : TeamActor) (id title description : Text) (deps : List Text)
    (now : Time) (v : TeamTaskView)
    (made : create_task s actor id title description deps now ≡ ok (s1, v)) where
  create_task-stores : lookup id s1.tasks ≡ some (new_task actor id title description deps now)
  create_task-stores =
      let (fresh, _, valid, out) =
        create_task-eq-ok s s1 actor id title description v now deps made in
      rw
        (
          out,
          lookup-insert id id (new_task actor id title description deps now) s.tasks,
          ==_self id,
        )
        refl

  create_task-others :
      (j : Text) (t : TeamTask) → lookup j s.tasks ≡ some t → lookup j s1.tasks ≡ some t
  create_task-others j t h =
      let (fresh, _, valid, out) =
        create_task-eq-ok s s1 actor id title description v now deps made in
      let put = lookup-insert id j (new_task actor id title description deps now) s.tasks in
      rw out (elim (Bool-cases (id == j)) [
        | inl same ↦ let e = eq_of_== id j same in absurd (cc (e, fresh, h))
        | inr other ↦ ground arith
      ])

create_all-others :
    (actor : TeamActor) (now : Time) (specs : Specs) (s s' : TeamState) (j : Text) (t : TeamTask)
    → create_all actor now specs s ≡ ok s'
    → lookup j s.tasks ≡ some t
    → lookup j s'.tasks ≡ some t
unfolding create_all
create_all-others actor now [] s s' j t h found =
    let same : s ≡ s' = ground arith in subst (λ z. lookup j z.tasks ≡ some t) same found
create_all-others actor now (spec ∷ specs) s s' j t h found =
    let ((s1, v), made, rest) =
      >>=-eq-ok
        (create_task s actor spec.task_id spec.title spec.description spec.dependency_task_ids now)
        _ h in
    create_all-others actor now specs s1 s' j t rest (
      create_task-others s s1 actor spec.task_id spec.title spec.description
        spec.dependency_task_ids now v made j t found)

create_all-stores :
    (actor : TeamActor) (now : Time) (specs : Specs) (s s' : TeamState)
    → create_all actor now specs s ≡ ok s'
    → validate_existing_batch s' actor specs ≡ ok tt
unfolding create_all validate_existing_batch
create_all-stores actor now [] s s' h = refl
create_all-stores actor now (spec ∷ specs) s s' h =
    let ((s1, v), made, rest) =
      >>=-eq-ok
        (create_task s actor spec.task_id spec.title spec.description spec.dependency_task_ids now)
        _ h in
    let stored =
      create_task-stores s s1 actor spec.task_id spec.title spec.description
        spec.dependency_task_ids now v made in
    let kept = create_all-others actor now specs s1 s' spec.task_id _ rest stored in
    let later = create_all-stores actor now specs s1 s' rest in
    rw
      (
        kept,
        ==_self spec.title,
        ==_self spec.description,
        ==_self spec.dependency_task_ids,
        ==_self actor.participant_id,
      )
      later

validate_existing_batch-has :
    (s : TeamState) (actor : TeamActor) (specs : Specs)
    → validate_existing_batch s actor specs ≡ ok tt
    → keep (λ spec. has spec.task_id s.tasks) specs ≡ specs
unfolding validate_existing_batch keep
validate_existing_batch-has s actor [] h = refl
validate_existing_batch-has s actor (spec ∷ specs) h =
    elim (Option-cases (lookup spec.task_id s.tasks)) [
      | inl missing ↦ absurd (ground arith)
      | inr (t, found) ↦
          let rest = validate_existing_batch-has s actor specs (ground arith) in
          rw (found, rest) refl
    ]

publish-stores :
    (actor : TeamActor) (now : Time) (ordered : Specs) (s s' : TeamState)
    → publish actor now ordered s ≡ ok s'
    → validate_existing_batch s' actor ordered ≡ ok tt
unfolding publish
publish-stores actor now ordered s s' h =
    elim (Bool-cases (is_nil (keep (λ spec. has spec.task_id s.tasks) ordered))) [
      | inl fresh ↦ create_all-stores actor now ordered s s' (ground arith)
      | inr there ↦
          let same : s ≡ s' = ground arith in
          let valid : validate_existing_batch s actor ordered ≡ ok tt = ground arith in
          subst (λ z. validate_existing_batch z actor ordered ≡ ok tt) same valid
    ]

-- Once a batch is published by an actor, each of its tasks is stored as it was given, and to publish it
-- again leaves the state as it is, whatever the time.
pub publish_twice :
    (actor : TeamActor) (now later : Time) (ordered : Specs) (s s' : TeamState)
    → is_nil ordered ≡ false
    → publish actor now ordered s ≡ ok s'
    → (validate_existing_batch s' actor ordered ≡ ok tt) × (publish actor later ordered s' ≡ ok s')
unfolding publish
publish_twice actor now later ordered s s' some_spec h =
    let stored = publish-stores actor now ordered s s' h in
    let there = validate_existing_batch-has s' actor ordered stored in
    (stored, rw (there, some_spec, stored, ==_self (length ordered)) refl)
