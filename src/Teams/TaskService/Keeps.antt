-- ===== src/Teams/TaskService/Keeps.antt =====
-- The service keeps the stored state consistent, whatever other processes of its kind write.
use mew_code.Prelude.{
  ℕ, ◌+◌, ◌≡◌, ◌≢◌, refl, true, Bool, none, all, distinct, ◌==◌, ==_self, sym, ap, ◌∙◌, Option,
  some, List, [], ◌∷◌, ◌++◌, keep, Bool-cases, Outcome, ok, err, ◌>>=◌, inl, inr, arith, >>=-eq-ok,
}
use mathlib.Core.Path.{subst}
use mew_code.Prelude.Dict.{Dict, has, lookup, keys, erase}
use mew_code.Prelude.Dict.Laws.{All, lookup-erase}
use mew_code.Prelude.Text.{Text, text_eq, codes}
use mew_code.Teams.Models.{
  Time, TeamName, TeamState, TeamMemberRecord, TeamActor, TeamTaskStatus, TeamProtocol, TeamMessage,
  Failure, terminal,
}
use mew_code.Teams.Invariant.{IsConsistent}
use mew_code.Teams.Tasks.{create_task, update_task}
use mew_code.Teams.Tasks.Keeps.{create_task-IsConsistent, update_task-IsConsistent}
use mew_code.Teams.TaskFlow.{claim_task, transition_task, delete_task}
use mew_code.Teams.TaskFlow.Results.{delete_task-eq-ok}
use mew_code.Teams.TaskFlow.Keeps.{
  assign_task-IsConsistent, claim_task-IsConsistent, delete_task-IsConsistent,
  transition_task-IsConsistent,
}
use mew_code.Teams.Repository.{
  Disk, Attempt, Swap, TeamLeadLeaseRecord, run, stored, validate, valid_member, known_or_none,
  participant_ids,
}
use mew_code.Teams.Repository.Stored.{stored-IsConsistent}
use mew_code.Teams.Repository.Swapped.{load-eq-ok, IsSwapped, IsEnding}
use mew_code.Teams.Repository.Commit.{Ran, run-Ran}
use mew_code.Teams.Outbox.{
  Readings, message, find_lead, append_outbox, entry_of, put_outbox-IsConsistent,
}
use mew_code.Teams.TaskService.{
  state_of, assign_and_tell, transition_and_tell, status_value, status_change,
}
use mew_code.Teams.TaskService.Batch.{Specs, create_all, publish, is_nil}
use mew_code.Teams.TaskService.Notices.{assign_and_tell-eq-ok}

-- The transformations that the service runs.
pub data IsServed : (TeamState → Outcome Failure TeamState) → Type 0 where
  created :
      (actor : TeamActor) (id title description : Text) (deps : List Text) (now : Time)
      → IsServed (λ s. state_of (create_task s actor id title description deps now))
  updated :
      (actor : TeamActor) (id : Text) (revision : ℕ) (title description : Option Text)
      (deps : Option (List Text)) (now : Time)
      → IsServed (λ s. state_of (update_task s actor id revision now title description deps))
  assigned :
      (casefold : Text → Text) (actor : TeamActor) (id name : Text) (revision : ℕ) (r : Readings)
      → IsServed (assign_and_tell casefold actor id name revision r)
  claimed :
      (actor : TeamActor) (id : Text) (revision : ℕ) (now : Time)
      → IsServed (λ s. state_of (claim_task s actor id revision now))
  moved :
      (actor : TeamActor) (id : Text) (status : TeamTaskStatus) (revision : ℕ) (result : Text)
      (r : Readings)
      → IsServed (transition_and_tell actor id status revision result r)
  deleted :
      (actor : TeamActor) (id : Text) (revision : ℕ) (now : Time)
      → IsServed (λ s. delete_task s actor id revision now)
  published :
      (actor : TeamActor) (now : Time) (ordered : Specs) → IsServed (publish actor now ordered)

state_of-eq-ok :
    {A : Type 0} (m : Outcome Failure (TeamState × A)) (s : TeamState)
    → state_of m ≡ ok s
    → (a : A) × (m ≡ ok (s, a))
state_of-eq-ok (ok (s', a)) s h = (a, ground arith)
state_of-eq-ok (err e) s h = absurd (ground arith)

append_outbox-IsConsistent :
    (r : Readings) (s s' : TeamState) (m : TeamMessage)
    → IsConsistent s
    → append_outbox r s m ≡ ok s'
    → IsConsistent s'
unfolding append_outbox
append_outbox-IsConsistent r s s' m c h =
    let same : record s { outbox = s.outbox ++ entry_of r m ∷ []; updated_at = r.updated_at } ≡ s' =
      ground arith in
    subst IsConsistent same (put_outbox-IsConsistent s _ r.updated_at c)

create_all-IsConsistent :
    (actor : TeamActor) (now : Time) (specs : Specs) (s s' : TeamState)
    → IsConsistent s
    → create_all actor now specs s ≡ ok s'
    → IsConsistent s'
unfolding create_all
create_all-IsConsistent actor now [] s s' c h =
    let same : s ≡ s' = ground arith in subst IsConsistent same c
create_all-IsConsistent actor now (spec ∷ specs) s s' c h =
    let ((s1, v), made, rest) =
      >>=-eq-ok
        (create_task s actor spec.task_id spec.title spec.description spec.dependency_task_ids now)
        _ h in
    create_all-IsConsistent actor now specs s1 s'
      (create_task-IsConsistent s s1 actor spec.task_id spec.title spec.description
        spec.dependency_task_ids now v c made)
      rest

publish-IsConsistent :
    (actor : TeamActor) (now : Time) (ordered : Specs) (s s' : TeamState)
    → IsConsistent s
    → publish actor now ordered s ≡ ok s'
    → IsConsistent s'
unfolding publish
publish-IsConsistent actor now ordered s s' c h =
    elim (Bool-cases (is_nil (keep (λ spec. has spec.task_id s.tasks) ordered))) [
      | inl fresh ↦ create_all-IsConsistent actor now ordered s s' c (ground arith)
      | inr there ↦ let same : s ≡ s' = ground arith in subst IsConsistent same c
    ]

transition_and_tell-IsConsistent :
    (actor : TeamActor) (id : Text) (status : TeamTaskStatus) (revision : ℕ) (result : Text)
    (r : Readings) (s s' : TeamState)
    → IsConsistent s
    → transition_and_tell actor id status revision result r s ≡ ok s'
    → IsConsistent s'
unfolding transition_and_tell
transition_and_tell-IsConsistent actor id status revision result r s s' c h =
    let ((s1, v), done, told) =
      >>=-eq-ok (transition_task s actor id status revision result r.now) _ h in
    let c1 = transition_task-IsConsistent s s1 actor id status revision result r.now v c done in
    elim (Bool-cases (terminal status)) [
      | inr going ↦ let same : s1 ≡ s' = ground arith in subst IsConsistent same c1
      | inl ended ↦
          let telling : (find_lead s >>= λ lead_id.
          message r actor.participant_id lead_id
            (codes "Task " ++ (status_value status ++ (codes ": " ++ v.task.title))) result
            TeamProtocol.task_status (status_change v id status)
          >>= λ m. append_outbox r s1 m)
              ≡ ok s' =
            ground arith in
          let (lead_id, _, sending) = >>=-eq-ok (find_lead s) _ telling in
          let (m, _, put) =
            >>=-eq-ok (message r actor.participant_id lead_id _ result _ _) _ sending in
          append_outbox-IsConsistent r s1 s' m c1 put
    ]

all-lookup :
    {V : Type 0} (p : Text × V → Bool) (d : Dict Text V) (k : Text) (v : V)
    → all p d ≡ true
    → lookup k d ≡ some v
    → p (k, v) ≡ true
unfolding all lookup
all-lookup p [] k v h found = absurd cc
all-lookup p ((j, w) ∷ d) k v h found = elim (Bool-cases (j == k)) [
  | inl same ↦
      let e : j ≡ k = (text_eq.beq_iff j k).0 same in
      let e' : w ≡ v = ground arith in
      let first : p (j, w) ≡ true = ground arith in
      subst (λ z. p (z, v) ≡ true) e (subst (λ z. p (j, z) ≡ true) e' first)
  | inr other ↦ all-lookup p d k v (ground arith) (ground arith)
]

-- The checks of a commit refuse a state with a member whose current task is not there.
validate-current_known :
    (s : TeamState) (k : Text) (m : TeamMemberRecord)
    → validate s ≡ ok tt
    → lookup k s.members ≡ some m
    → known_or_none m.current_task_id s.tasks ≡ true
unfolding validate valid_member
validate-current_known s k m h found =
    let good = all-lookup (valid_member s) s.members k m (ground arith) found in ground arith

known_or_none-erased :
    {V : Type 0} (id : Text) (o : Option Text) (d : Dict Text V)
    → distinct (keys d) ≡ true
    → known_or_none o (erase id d) ≡ true
    → o ≢ some id
known_or_none-erased id none d unique h e = cc
known_or_none-erased id (some j) d unique h e =
    let same : j ≡ id = ground arith in
    let gone = lookup-erase id id d unique in
    let none_there : lookup id (erase id d) ≡ none = gone ∙ rw (==_self id) refl in
    let there : has id (erase id d) ≡ true = subst (λ z. has z (erase id d) ≡ true) same h in
    absurd (ground arith)

IsServed-IsConsistent :
    (f : TeamState → Outcome Failure TeamState) (s s' : TeamState) (n : ℕ) (at : Time)
    → IsServed f
    → IsConsistent s
    → f s ≡ ok s'
    → validate (record s' { revision = n; updated_at = at }) ≡ ok tt
    → IsConsistent s'
IsServed-IsConsistent f s s' n at (created actor id title description deps now) c h good =
    let (v, made) = state_of-eq-ok _ s' h in
    create_task-IsConsistent s s' actor id title description deps now v c made
IsServed-IsConsistent f s s' n at (updated actor id revision title description deps now) c h good =
    let (v, made) = state_of-eq-ok _ s' h in
    update_task-IsConsistent s s' actor id revision now title description deps v c made
IsServed-IsConsistent f s s' n at (assigned casefold actor id name revision r) c h good =
    let (member_id, s1, v, m, _, done, _, out) =
      assign_and_tell-eq-ok casefold actor id name revision r s s' h in
    rw out (
      put_outbox-IsConsistent s1 _ r.updated_at
        (assign_task-IsConsistent s s1 actor id member_id revision r.now v c done))
IsServed-IsConsistent f s s' n at (claimed actor id revision now) c h good =
    let (v, made) = state_of-eq-ok _ s' h in
    claim_task-IsConsistent s s' actor id revision now v c made
IsServed-IsConsistent f s s' n at (moved actor id status revision result r) c h good =
    transition_and_tell-IsConsistent actor id status revision result r s s' c h
IsServed-IsConsistent f s s' n at (published actor now ordered) c h good =
    publish-IsConsistent actor now ordered s s' c h
IsServed-IsConsistent f s s' n at (deleted actor id revision now) c h good =
    let (task, found, _, _, out) = delete_task-eq-ok s s' actor id revision now h in
    let members : s'.members ≡ s.members = ap (λ z. z.members) out in
    let tasks : s'.tasks ≡ erase id s.tasks = ap (λ z. z.tasks) out in
    delete_task-IsConsistent s s' actor id revision now c
      (λ k m there. known_or_none-erased id m.current_task_id s.tasks c.tasks_keyed.unique (
        subst (λ z. known_or_none m.current_task_id z ≡ true) tasks
          (validate-current_known (record s' { revision = n; updated_at = at }) k m good
            (ap (lookup k) members ∙ there))))
      h

-- The state file, if there is one, holds a consistent state.
abbrev pub IsSound : Disk → Type 0
IsSound disk = (s : TeamState) → disk.state_file ≡ some s → IsConsistent s

committed-IsConsistent :
    (s : TeamState) (n : ℕ) (now : Time)
    → IsConsistent s
    → IsConsistent (record s { revision = n; updated_at = now })
unfolding participant_ids
committed-IsConsistent s n now c = record {
  members_unique = c.members_unique;
  member_ids = c.member_ids;
  registered = c.registered;
  current_known = c.current_known;
  tasks_keyed = c.tasks_keyed;
  dependencies_known = c.dependencies_known;
  acyclic = c.acyclic;
  assignee_known = c.assignee_known;
  current_assigned = c.current_assigned;
  approvals_unique = c.approvals_unique;
  approvals_known = c.approvals_known;
  queue_known = c.queue_known;
  queue_distinct = c.queue_distinct;
}

swapped-IsSound :
    (name : TeamName) (fence : Text × ℕ) (f : TeamState → Outcome Failure TeamState) (swap : Swap)
    (current candidate committed : TeamState) (before after : Option TeamState)
    (lease : Option TeamLeadLeaseRecord)
    → IsServed f
    → IsConsistent current
    → f current ≡ ok candidate
    → IsSwapped name current.revision fence swap candidate committed before after
    → IsSound (record { state_file = after; lease_file = lease })
swapped-IsSound name fence f swap current candidate committed before after lease served c h w s
      found =
    let at : validate (record candidate { revision = current.revision + 1; updated_at = swap.now })
        ≡ ok tt =
      subst (λ z. validate z ≡ ok tt) w.result w.valid in
    let c' = IsServed-IsConsistent f current candidate _ _ served c h at in
    let whole = committed-IsConsistent candidate (current.revision + 1) swap.now c' in
    let file : stored committed ≡ s = ground (arith, w.replaced) in
    subst IsConsistent file
      (stored-IsConsistent committed (subst IsConsistent (sym w.result) whole))

Ran-IsSound :
    (name : TeamName) (fence : Text × ℕ) (f : TeamState → Outcome Failure TeamState)
    (attempts : List Attempt) (before after : Disk) (out : Outcome Failure TeamState)
    → IsServed f
    → All (λ a. (d : Disk) → IsSound d → IsSound (a.interference d)) attempts
    → IsSound before
    → Ran name fence f attempts before out after
    → IsSound after
Ran-IsSound name fence f _ before _ _ served fair sound Ran.exhausted = sound
Ran-IsSound name fence f _ before _ _ served fair sound (Ran.unprepared e) = sound
Ran-IsSound name fence f _ before _ _ served fair sound (Ran.ended {a} p (IsEnding.refused e)) =
    fair.0 before sound
Ran-IsSound name fence f _ before _ _ served fair sound
      (Ran.ended {a} p (IsEnding.returned {after} s swapped)) =
    swapped-IsSound name fence f a.swap p.current p.candidate s _ after
      (a.interference before).lease_file served
      (sound p.current (load-eq-ok name before p.current p.loaded)) p.computed swapped
Ran-IsSound name fence f _ before _ _ served fair sound
      (Ran.ended {a} p (IsEnding.broke {after} s swapped)) =
    swapped-IsSound name fence f a.swap p.current p.candidate s _ after
      (a.interference before).lease_file served
      (sound p.current (load-eq-ok name before p.current p.loaded)) p.computed swapped
Ran-IsSound name fence f _ before after out served fair sound (Ran.again {a} {attempts} p r) =
    Ran-IsSound name fence f attempts (a.interference before) after out served fair.1
      (fair.0 before sound) r

-- A mutation of the service, the deletion of a task among them, however it ends, a write that raises
-- included, leaves a sound disk sound, where the other processes that write between its steps do.
pub run-IsSound :
    (name : TeamName) (fence : Text × ℕ) (f : TeamState → Outcome Failure TeamState)
    (attempts : List Attempt) (before : Disk)
    → IsServed f
    → All (λ a. (d : Disk) → IsSound d → IsSound (a.interference d)) attempts
    → IsSound before
    → IsSound (run name fence f attempts before).1
run-IsSound name fence f attempts before served fair sound =
    Ran-IsSound name fence f attempts before _ _ served fair sound
      (run-Ran name fence f attempts before)
