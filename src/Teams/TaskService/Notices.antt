-- ===== src/Teams/TaskService/Notices.antt =====
-- An assignment puts one message in the outbox: to the member, about the task as it is stored.
use mathlib.Core.Path.{subst}
use mew_code.Prelude.{
  ℕ, ◌+◌, ◌≡◌, refl, ap, ◌∙◌, false, none, some, List, [], ◌∷◌, take, ==_self, ◌++◌, Outcome-cases,
  Option-cases, Outcome, ok, err, inl, inr, arith, >>=-eq-ok,
}
use mew_code.Prelude.Dict.{lookup, insert, lookup-insert}
use mew_code.Prelude.Text.{Text, text_eq, codes}
use mew_code.Teams.Models.{
  TeamName, TeamState, TeamActor, TeamMessage, TeamTaskView, TeamTask, TeamProtocol, PayloadValue,
  Failure,
}
use mew_code.Teams.Approvals.{invalidate_approvals}
use mew_code.Teams.Tasks.{with_view, task_view, find_task, find_member, check_revision}
use mew_code.Teams.Tasks.Results.{make_task_lem}
use mew_code.Teams.TaskFlow.{assign_task, release}
use mew_code.Teams.TaskFlow.Results.{assign_task-eq-ok, assigned}
use mew_code.Teams.Repository.{Disk, Attempt, stored, run}
use mew_code.Teams.Repository.Commit.{Reads, run-IsCommitted, IsCommitted-Reads}
use mew_code.Teams.Outbox.{Readings, make_message, message, append_outbox, entry_of}
use mew_code.Teams.TaskService.{
  member_id_of, assign_and_tell, assign, change, view_of, assignment, without_key_error,
}

-- What the message of an assignment says.
pub record IsAssignment (actor : TeamActor) (member_id task_id : Text) (revision : ℕ)
    (m : TeamMessage) : Type 0 where
  pub sender : m.sender_id ≡ actor.participant_id
  pub recipient : m.recipient_id ≡ member_id
  pub task : lookup (codes "task_id") m.payload ≡ some (PayloadValue.str task_id)
  pub at_revision : lookup (codes "task_revision") m.payload ≡ some (PayloadValue.int revision)

message-IsAssignment :
    (r : Readings) (actor : TeamActor) (member_id task_id summary body : Text) (v : TeamTaskView)
    (m : TeamMessage)
    → message r actor.participant_id member_id summary body TeamProtocol.task_assignment
        (assignment actor v task_id)
      ≡ ok m
    → IsAssignment actor member_id task_id v.task.revision m
unfolding message make_message lookup text_eq
message-IsAssignment r actor member_id task_id summary body v m h =
    let sent : TeamMessage = record {
      schema_version = 1;
      message_id = r.message_id;
      correlation_id = none;
      sender_id = actor.participant_id;
      recipient_id = member_id;
      summary = take 256 summary;
      body = body;
      protocol = TeamProtocol.task_assignment;
      payload = assignment actor v task_id;
      sent_at = r.sent_at;
      read = false;
    } in
    let same : sent ≡ m = ground arith in
    rw (← same) (record { sender = refl; recipient = refl; task = refl; at_revision = refl })

with_view-task :
    (s s' : TeamState) (t : TeamTask) (v : TeamTaskView) → with_view s t ≡ ok (s', v) → v.task ≡ t
unfolding with_view task_view
with_view-task s s' t v h = ground arith

pub assign_task-task :
    (s s' : TeamState) (actor : TeamActor) (id member_id : Text) (revision : ℕ) (now : ℕ)
    (v : TeamTaskView) (task : TeamTask)
    → lookup id s.tasks ≡ some task
    → assign_task s actor id member_id revision now ≡ ok (s', v)
    → v.task ≡ assigned now task member_id
unfolding assign_task find_task find_member check_revision
assign_task-task s s' actor id member_id revision now v task found h =
    let freed = release task.assignee_id now s.members in
    elim (Option-cases (lookup member_id freed)) [
      | inl missing ↦ absurd (ground arith)
      | inr (target, there) ↦
          let stored =
            invalidate_approvals
              (record s {
                members =
                    insert member_id (record target { current_task_id = some id; updated_at = now })
                      freed;
                tasks = insert id (assigned now task member_id) s.tasks;
                updated_at = now;
              })
              id now in
          with_view-task stored s' (assigned now task member_id) v
            (ground (arith, make_task_lem (assigned now task member_id)))
    ]

assign_task-stores :
    (s s' : TeamState) (actor : TeamActor) (id member_id : Text) (revision : ℕ) (now : ℕ)
    (v : TeamTaskView)
    → assign_task s actor id member_id revision now ≡ ok (s', v)
    → (s'.outbox ≡ s.outbox)
      × ((t : TeamTask) × (lookup id s'.tasks ≡ some t)
          × (v.task ≡ t)
          × (t.revision ≡ revision + 1)
          × (t.assignee_id ≡ some member_id))
unfolding invalidate_approvals
assign_task-stores s s' actor id member_id revision now v h =
    let (task, found, at, there, held_by) =
      (assign_task-eq-ok s s' actor id revision now member_id v h).1 in
    let (target, placed, cur, out) = held_by in
    let next = assigned now task member_id in
    let same : v.task ≡ next =
      assign_task-task s s' actor id member_id revision now v task found h in
    rw out (
      refl,
      (
        next,
        rw (lookup-insert id id next s.tasks, ==_self id) refl,
        same,
        ap (λ z. z + 1) at,
        refl,
      ),
    )

without_key_error-eq-ok :
    {A : Type 0} (m : Outcome Failure A) (a : A) → without_key_error m ≡ ok a → m ≡ ok a
without_key_error-eq-ok (ok b) a h = h
without_key_error-eq-ok (err Failure.key_error) a h = cc
without_key_error-eq-ok (err Failure.validation) a h = cc
without_key_error-eq-ok (err Failure.conflict) a h = cc
without_key_error-eq-ok (err Failure.permission) a h = cc
without_key_error-eq-ok (err Failure.not_found) a h = cc
without_key_error-eq-ok (err Failure.lease) a h = cc
without_key_error-eq-ok (err Failure.corruption) a h = cc
without_key_error-eq-ok (err Failure.recursion) a h = cc
without_key_error-eq-ok (err Failure.storage) a h = cc

pub view_of-eq-ok :
    (s : TeamState) (id : Text) (v : TeamTaskView)
    → view_of s id ≡ ok v
    → lookup id s.tasks ≡ some v.task
unfolding view_of task_view
view_of-eq-ok s id v h = elim (Option-cases (lookup id s.tasks)) [
  | inl missing ↦ absurd (ground arith)
  | inr (task, found) ↦ let same : v.task ≡ task = ground arith in rw same found
]

-- A change that returns a view has committed, and the view is that of the stored task.
pub change-eq-ok :
    (team : TeamName) (actor : TeamActor) (id : Text)
    (transform : TeamState → Outcome Failure TeamState) (attempts : List Attempt)
    (disk after : Disk) (view : TeamTaskView)
    → change team actor id transform attempts disk ≡ (ok view, after)
    → (committed : TeamState) × (run team actor.lease_fence transform attempts disk
        ≡ (ok committed, after))
      × (lookup id committed.tasks ≡ some view.task)
unfolding change
change-eq-ok team actor id transform attempts disk after view h =
    let (returned, there) = run team actor.lease_fence transform attempts disk in
    elim (Outcome-cases returned) [
      | inr (x, bad) ↦ absurd (ground arith)
      | inl (committed, e) ↦
          let seen : without_key_error (view_of committed id) ≡ ok view = ground arith in
          (
            committed,
            ground arith,
            view_of-eq-ok committed id view
                (without_key_error-eq-ok (view_of committed id) view seen),
          )
    ]

-- What the transformation of an assignment makes of a state.
pub assign_and_tell-eq-ok :
    (casefold : Text → Text) (actor : TeamActor) (task_id member_name : Text) (revision : ℕ)
    (r : Readings) (s s' : TeamState)
    → assign_and_tell casefold actor task_id member_name revision r s ≡ ok s'
    → (member_id : Text) × (s1 : TeamState) × (v : TeamTaskView) × (m : TeamMessage) × (member_id_of
          casefold s member_name
        ≡ ok member_id)
      × (assign_task s actor task_id member_id revision r.now ≡ ok (s1, v))
      × IsAssignment actor member_id task_id v.task.revision m
      × (s' ≡ record s1 { outbox = s1.outbox ++ entry_of r m ∷ []; updated_at = r.updated_at })
unfolding assign_and_tell append_outbox
assign_and_tell-eq-ok casefold actor task_id member_name revision r s s' h =
    let (member_id, named, next) = >>=-eq-ok (member_id_of casefold s member_name) _ h in
    let ((s1, v), moved, told) =
      >>=-eq-ok (assign_task s actor task_id member_id revision r.now) _ next in
    let (m, sent, put) =
      >>=-eq-ok
        (message r actor.participant_id member_id (codes "Task assigned: " ++ v.task.title)
          v.task.description TeamProtocol.task_assignment (assignment actor v task_id))
        _ told in
    (
      member_id,
      s1,
      v,
      m,
      named,
      moved,
      message-IsAssignment r actor member_id task_id _ _ v m sent,
      ground arith,
    )

-- The committed state is the read one with one more message in its outbox, from the actor to the member
-- of the given name, which names the task and its new revision; the task is assigned to that member.
pub record IsTold (casefold : Text → Text) (actor : TeamActor) (task_id member_name : Text)
    (revision : ℕ) (r : Readings) (committed : TeamState) (task : TeamTask) (read : TeamState)
    : Type 0 where
  pub member_id : Text
  pub told : TeamMessage
  pub named : member_id_of casefold read member_name ≡ ok member_id
  pub outbox : committed.outbox ≡ read.outbox ++ entry_of r told ∷ []
  pub says : IsAssignment actor member_id task_id (revision + 1) told
  pub placed : lookup task_id committed.tasks ≡ some task
  pub assignee : task.assignee_id ≡ some member_id

assign_and_tell-IsTold :
    (casefold : Text → Text) (actor : TeamActor) (task_id member_name : Text) (revision : ℕ)
    (r : Readings) (committed : TeamState) (task : TeamTask) (read candidate : TeamState)
    (n now : ℕ)
    → lookup task_id committed.tasks ≡ some task
    → assign_and_tell casefold actor task_id member_name revision r read ≡ ok candidate
    → committed ≡ record candidate { revision = n; updated_at = now }
    → IsTold casefold actor task_id member_name revision r committed task read
assign_and_tell-IsTold casefold actor task_id member_name revision r committed task read candidate n
      now stored computed result =
    let (member_id, s1, v, m, named, moved, says, out) =
      assign_and_tell-eq-ok casefold actor task_id member_name revision r read candidate computed in
    let (same_box, (t, placed, shown, next, held)) =
      assign_task-stores read s1 actor task_id member_id revision r.now v moved in
    let kept : committed.outbox ≡ candidate.outbox = ap (λ z. z.outbox) result in
    let tasks : committed.tasks ≡ candidate.tasks = ap (λ z. z.tasks) result in
    let box : candidate.outbox ≡ s1.outbox ++ entry_of r m ∷ [] = ap (λ z. z.outbox) out in
    let their : candidate.tasks ≡ s1.tasks = ap (λ z. z.tasks) out in
    let one : task ≡ t = cc in
    record {
      member_id = member_id;
      told = m;
      named = named;
      outbox = kept ∙ box ∙ ap (λ z. z ++ entry_of r m ∷ []) same_box;
      says =
          subst (λ n. IsAssignment actor member_id task_id n m) (ap (λ t. t.revision) shown ∙ next)
            says;
      placed = stored;
      assignee = ap (λ t. t.assignee_id) one ∙ held;
    }

-- An assignment through the service that returns has committed a state that one of its attempts read
-- from the disk, with exactly one more message in its outbox: it goes from the actor to the member of
-- the given name, and names the task and its new revision; the task is assigned to that member, and the
-- returned view shows it so.
pub assign_tells :
    (casefold : Text → Text) (team : TeamName) (actor : TeamActor) (task_id member_name : Text)
    (revision : ℕ) (r : Readings) (attempts : List Attempt) (disk after : Disk)
    (view : TeamTaskView)
    → assign casefold team actor task_id member_name revision r attempts disk ≡ (ok view, after)
    → (committed : TeamState) × (after.state_file ≡ some (stored committed))
      × Reads team
          (IsTold casefold actor task_id member_name revision r committed view.task)
          attempts
          disk
unfolding assign change
assign_tells casefold team actor task_id member_name revision r attempts disk after view h =
    let transform = assign_and_tell casefold actor task_id member_name revision r in
    let (committed, ran, shown) =
      change-eq-ok team actor task_id transform attempts disk after view h in
    let c = run-IsCommitted team actor.lease_fence transform attempts disk after committed ran in
    let (file, read) =
      IsCommitted-Reads team actor.lease_fence transform
        (IsTold casefold actor task_id member_name revision r committed view.task) committed after
        attempts disk
        (λ read candidate n now computed result.
          assign_and_tell-IsTold casefold actor task_id member_name revision r committed view.task
            read candidate n now shown computed result)
        c in
    (committed, file, read)
