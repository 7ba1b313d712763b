-- ===== src/Teams/TaskFlow/Keeps.antt =====
-- Assigning, claiming, moving and deleting a task keeps a team state consistent.
use mew_code.Prelude.{
  ℕ, ◌≡◌, ◌≢◌, refl, ap, sym, Bool, true, false, Option, none, some, [], ◌∷◌, ◌==◌, distinct,
  contains, Bool-cases, Option-cases, ◌⊎◌, inl, inr, ok, arith, if◌then◌else◌, eq_of_==, ==_of_ne,
}
use mew_code.Prelude.Dict.{Dict, lookup, insert, erase, keys, lookup-insert}
use mew_code.Prelude.Dict.Laws.{lookup-erase, distinct-keys-erase, any-values, lookup-absent}
use mew_code.Prelude.Text.{Text, text_eq}
use mew_code.Teams.Models.{
  Time, TeamState, TeamActor, TeamActorKind, TeamTask, TeamTaskStatus, TeamTaskView,
  TeamMemberRecord, PlanApprovalRecord, terminal,
}
use mew_code.Teams.Approvals.{invalidate_approvals}
use mew_code.Teams.Approvals.Keeps.{invalidate_approvals-IsConsistent}
use mew_code.Teams.Tasks.Keeps.{same_dependencies-IsKnown, same_dependencies-IsRanked}
use mew_code.Teams.TaskFlow.{
  release, assign_task, claim_task, transition_task, without_task, delete_task,
}
use mew_code.Teams.TaskFlow.Results.{
  assigned, assign_task-eq-ok, claim_task-eq-ok, is_reset, transitioned, transition_task-eq-ok,
  delete_task-eq-ok,
}
use mew_code.Teams.Repository.{known_or_none, participant_ids}
use mew_code.Teams.Invariant.{
  IsConsistent, put_member-IsConsistent, put_task-IsConsistent, put_queue-IsConsistent,
}

abbrev freed : Time → TeamMemberRecord → TeamMemberRecord
freed now old = record old { current_task_id = none; updated_at = now }

-- The released member has no current task, and no other member changes.
release_cases :
    (s : TeamState) (c : IsConsistent s) (o : Option Text) (now : Time) (k : Text)
    (m : TeamMemberRecord)
    → lookup k (release o now s.members) ≡ some m
    → ((m.current_task_id ≡ none) × (o ≡ some k)) ⊎ ((lookup k s.members ≡ some m) × (o ≢ some k))
unfolding release
release_cases s c none now k m h = inr (h, λ p. cc)
release_cases s c (some a) now k m h = elim (Option-cases (lookup a s.members)) [
  | inl missing ↦ inr (ground arith, λ p. ground arith)
  | inr (old, found) ↦
      let own = c.member_ids a old found in
      elim (Bool-cases (a == k)) [
        | inl same ↦
            let e = eq_of_== a k same in
            inl (ground (arith, lookup-insert a k (freed now old) s.members), ap some e)
        | inr other ↦ inr (
          ground (arith, lookup-insert a k (freed now old) s.members),
          λ p. ground (arith, text_eq.beq_iff a k),
        )
      ]
]

release-IsConsistent :
    (s : TeamState) (o : Option Text) (now : Time)
    → IsConsistent s
    → IsConsistent (record s { members = release o now s.members; updated_at = now })
unfolding release
release-IsConsistent s none now c =
    put_queue-IsConsistent s c s.queue now c.queue_known c.queue_distinct
release-IsConsistent s (some a) now c = elim (Option-cases (lookup a s.members)) [
  | inl missing ↦
      rw (missing, release) (put_queue-IsConsistent s c s.queue now c.queue_known c.queue_distinct)
  | inr (old, found) ↦
      rw (found, release)
        (put_member-IsConsistent s c old.member_id (freed now old) now refl
          (rw (c.member_ids a old found, found)) refl (λ j t cur at. cc))
]

release_if-IsConsistent :
    (s : TeamState) (b : Bool) (o : Option Text) (now : Time)
    → IsConsistent s
    → IsConsistent
        (record s { members = if b then release o now s.members else s.members; updated_at = now })
release_if-IsConsistent s true o now c = release-IsConsistent s o now c
release_if-IsConsistent s false o now c =
    put_queue-IsConsistent s c s.queue now c.queue_known c.queue_distinct

invalidate_if-IsConsistent :
    (s : TeamState) (b : Bool) (id : Text) (now : Time)
    → IsConsistent s
    → IsConsistent (if b then invalidate_approvals s id now else s)
invalidate_if-IsConsistent s true id now c = invalidate_approvals-IsConsistent s id now c
invalidate_if-IsConsistent s false id now c = c

-- Assigning a task of a consistent state leaves a consistent state.
pub assign_task-IsConsistent :
    (s s' : TeamState) (actor : TeamActor) (id member_id : Text) (revision : ℕ) (now : Time)
    (v : TeamTaskView)
    → IsConsistent s
    → assign_task s actor id member_id revision now ≡ ok (s', v)
    → IsConsistent s'
assign_task-IsConsistent s s' actor id member_id revision now v c h =
    let (task, found, _, there, held_by) =
      (assign_task-eq-ok s s' actor id revision now member_id v h).1 in
    let (target, at, cur, out) = held_by in
    let next = assigned now task member_id in
    let c1 = release-IsConsistent s task.assignee_id now c in
    let s1 = record s { members = release task.assignee_id now s.members; updated_at = now } in
    let (rank, ranked) = c.acyclic in
    let c2 =
      put_task-IsConsistent s1 c1 id next now (c.tasks_keyed.own_id id task found)
        (same_dependencies-IsKnown s.tasks id task next found refl c.dependencies_known)
        (rank, same_dependencies-IsRanked s.tasks id task next found refl rank ranked) (rw at)
        (λ k m member held. elim (release_cases s c task.assignee_id now k m member) [
          | inl gone ↦ cc (gone.0, held)
          | inr other ↦ absurd (other.1 (c.current_assigned k m id task other.0 held found))
        ]) in
    let s2 = record s1 { tasks = insert id next s.tasks } in
    let c3 =
      put_member-IsConsistent s2 c2 member_id
        (record target { current_task_id = some id; updated_at = now }) now
        (c1.member_ids member_id target at) (rw at)
        (ground (arith, lookup-insert id id next s.tasks, text_eq.beq_iff id id))
        (λ j t held stored.
          ground (arith, lookup-insert id id next s.tasks, text_eq.beq_iff id id)) in
    rw out (invalidate_approvals-IsConsistent _ id now c3)

-- Claiming a task of a consistent state leaves a consistent state.
pub claim_task-IsConsistent :
    (s s' : TeamState) (actor : TeamActor) (id : Text) (revision : ℕ) (now : Time)
    (v : TeamTaskView)
    → IsConsistent s
    → claim_task s actor id revision now ≡ ok (s', v)
    → IsConsistent s'
claim_task-IsConsistent s s' actor id revision now v c h =
    let (_, _, _, _, _, by) = claim_task-eq-ok s s' actor id revision now v h in
    let (member, _, _, _, assign) = by in
    assign_task-IsConsistent s s' (record actor { kind = TeamActorKind.lead }) id member.member_id
      revision now v c assign

-- Moving a task of a consistent state to another status leaves a consistent state.
pub transition_task-IsConsistent :
    (s s' : TeamState) (actor : TeamActor) (id : Text) (target : TeamTaskStatus) (revision : ℕ)
    (result : Text) (now : Time) (v : TeamTaskView)
    → IsConsistent s
    → transition_task s actor id target revision result now ≡ ok (s', v)
    → IsConsistent s'
transition_task-IsConsistent s s' actor id target revision result now v c h =
    let (task, found, _, _, _, _, out) =
      transition_task-eq-ok s s' actor id revision now target result v h in
    let next = transitioned now task target result in
    let (rank, ranked) = c.acyclic in
    let c1 = release_if-IsConsistent s (terminal target) task.assignee_id now c in
    let c2 =
      put_task-IsConsistent _ c1 id next now (c.tasks_keyed.own_id id task found)
        (same_dependencies-IsKnown s.tasks id task next found refl c.dependencies_known)
        (rank, same_dependencies-IsRanked s.tasks id task next found refl rank ranked)
        (c1.assignee_known id task found)
        (λ k m member held. c1.current_assigned k m id task member held found) in
    rw out (invalidate_if-IsConsistent _ (is_reset task target) id now c2)

lookup-erase-some :
    {V : Type 0} (id k : Text) (v : V) (d : Dict Text V)
    → distinct (keys d) ≡ true
    → lookup k (erase id d) ≡ some v
    → lookup k d ≡ some v
lookup-erase-some id k v d u q = ground (arith, lookup-erase id k d u)

known_or_none-erase :
    {V : Type 0} (id : Text) (o : Option Text) (d : Dict Text V)
    → distinct (keys d) ≡ true
    → o ≢ some id
    → known_or_none o d ≡ true
    → known_or_none o (erase id d) ≡ true
known_or_none-erase id none d u ne h = refl
known_or_none-erase id (some k) d u ne h =
    let other = ==_of_ne id k (λ p. ne (ap some (sym p))) in ground (arith, lookup-erase id k d u)

lookup-without_task :
    (id k : Text) (a : PlanApprovalRecord) (d : Dict Text PlanApprovalRecord)
    → distinct (keys d) ≡ true
    → lookup k (without_task id d) ≡ some a
    → (lookup k d ≡ some a) × ((a.task_id == id) ≡ false)
unfolding lookup without_task distinct
lookup-without_task id k a [] u h = cc
lookup-without_task id k a ((j, w) ∷ d) u h =
    ground (arith, lookup-without_task id k a d, lookup-absent j d, text_eq.beq_iff j k)

contains-keys-without_task :
    (id k : Text) (d : Dict Text PlanApprovalRecord)
    → contains (keys d) k ≡ false
    → contains (keys (without_task id d)) k ≡ false
unfolding without_task contains
contains-keys-without_task id k [] h = refl
contains-keys-without_task id k ((j, w) ∷ d) h = ground (arith, contains-keys-without_task id k d)

distinct-keys-without_task :
    (id : Text) (d : Dict Text PlanApprovalRecord)
    → distinct (keys d) ≡ true
    → distinct (keys (without_task id d)) ≡ true
unfolding without_task distinct
distinct-keys-without_task id [] u = refl
distinct-keys-without_task id ((j, w) ∷ d) u =
    ground (arith, distinct-keys-without_task id d, contains-keys-without_task id j d)

-- A deleted task leaves a consistent state, if it was no member's current task.
pub delete_task-IsConsistent :
    (s s' : TeamState) (actor : TeamActor) (id : Text) (revision : ℕ) (now : Time)
    → IsConsistent s
    → ((k : Text) (m : TeamMemberRecord)
        → lookup k s.members ≡ some m
        → m.current_task_id ≢ some id)
    → delete_task s actor id revision now ≡ ok s'
    → IsConsistent s'
unfolding participant_ids
delete_task-IsConsistent s s' actor id revision now c idle h =
    let (task, found, _, free, out) = delete_task-eq-ok s s' actor id revision now h in
    let unique = c.tasks_keyed.unique in
    let stored = λ (k : Text) (t : TeamTask) (q : lookup k (erase id s.tasks) ≡ some t).
      lookup-erase-some id k t s.tasks unique q in
    let (rank, ranked) = c.acyclic in
    rw out (record {
      members_unique = c.members_unique;
      member_ids = c.member_ids;
      registered = c.registered;
      current_known = λ k m q.
          known_or_none-erase id m.current_task_id s.tasks unique (idle k m q)
            (c.current_known k m q);
      tasks_keyed = record {
        unique = distinct-keys-erase id s.tasks unique;
        own_id = λ k t q. c.tasks_keyed.own_id k t (stored k t q);
      };
      dependencies_known = λ k t d q dep.
          known_or_none-erase id (some d) s.tasks unique
            (λ p. cc (
              any-values (λ candidate. contains candidate.dependency_ids id) s.tasks k t free
                  (stored k t q),
              dep,
              p,
            ))
            (c.dependencies_known k t d (stored k t q) dep);
      acyclic = (rank, λ k t d q dep. ranked k t d (stored k t q) dep);
      assignee_known = λ k t q. c.assignee_known k t (stored k t q);
      current_assigned = λ k m j t q held at_j. c.current_assigned k m j t q held (stored j t at_j);
      approvals_unique = distinct-keys-without_task id s.approvals c.approvals_unique;
      approvals_known = λ k a q.
          let kept = lookup-without_task id k a s.approvals c.approvals_unique q in
          let (own, member, of_task) = c.approvals_known k a kept.0 in
          (
            own,
            member,
            known_or_none-erase id (some a.task_id) s.tasks unique
                (λ p. ground (arith, text_eq.beq_iff a.task_id id)) of_task,
          );
      queue_known = c.queue_known;
      queue_distinct = c.queue_distinct;
    })
