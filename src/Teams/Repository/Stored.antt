-- ===== src/Teams/Repository/Stored.antt =====
-- A state that is written and read again: its mappings are in another order, each key has what it had.
use mew_code.Prelude.{
  ◌≡◌, refl, sym, ap, ◌∙◌, Bool, Option, none, some, List, [], ◌∷◌, all, contains,
}
use mew_code.Prelude.Dict.{Dict, has, lookup, is_some}
use mew_code.Prelude.Dict.Sorted.{
  sorted_by_key, lookup-sorted, distinct-sorted, contains-values, all-sorted,
}
use mew_code.Prelude.Text.{Text, text_eq}
use mew_code.Teams.Models.{TeamState, TeamTask, TeamMemberRecord}
use mew_code.Teams.Invariant.{IsConsistent}
use mew_code.Teams.Repository.{
  known_or_none, participant_ids, valid_member, valid_stored_task, valid_approval,
  valid_registration, valid_queue, validate, stored,
}

has-sorted : {V : Type 0} (k : Text) (d : Dict Text V) → has k (sorted_by_key d) ≡ has k d
has-sorted k d = ap is_some (lookup-sorted k d)

known_or_none-sorted :
    {V : Type 0} (o : Option Text) (d : Dict Text V)
    → known_or_none o (sorted_by_key d) ≡ known_or_none o d
known_or_none-sorted none d = refl
known_or_none-sorted (some k) d = has-sorted k d

all-ext : {A : Type 0} (p q : A → Bool) (xs : List A) → ((x : A) → p x ≡ q x) → all p xs ≡ all q xs
unfolding all
all-ext p q [] f = refl
all-ext p q (x ∷ xs) f = rw (f x, all-ext p q xs f) refl

participant_ids-sorted :
    (s : TeamState) (k : Text)
    → contains (participant_ids (stored s)) k ≡ contains (participant_ids s) k
unfolding participant_ids stored sorted_by_key
participant_ids-sorted s k = contains-values (λ r. r.participant_id) k s.registry

-- The repository's checks take the written state as they take the given one.
pub validate-stored : (s : TeamState) → validate (stored s) ≡ validate s
unfolding validate stored valid_member valid_stored_task valid_approval valid_queue participant_ids
validate-stored s =
    let members =
      all-sorted (valid_member (stored s)) (valid_member s)
        (λ (k, m).
          rw (participant_ids-sorted s m.member_id, known_or_none-sorted m.current_task_id s.tasks)
            refl)
        s.members in
    let tasks =
      all-sorted (valid_stored_task (stored s)) (valid_stored_task s)
        (λ (k, t).
          rw
            (
              all-ext (λ item. has item (stored s).tasks) (λ item. has item s.tasks)
                  t.dependency_ids (λ item. has-sorted item s.tasks),
              known_or_none-sorted t.assignee_id s.members,
            )
            refl)
        s.tasks in
    let approvals =
      all-sorted (valid_approval (stored s)) (valid_approval s)
        (λ (k, a). rw (has-sorted a.member_id s.members, has-sorted a.task_id s.tasks) refl)
        s.approvals in
    let registry = all-sorted valid_registration valid_registration (λ x. refl) s.registry in
    let queue =
      all-ext (λ entry. has entry.member_id (sorted_by_key s.members))
        (λ entry. has entry.member_id s.members) s.queue
        (λ entry. has-sorted entry.member_id s.members) in
    rw (members, tasks, approvals, registry, queue) refl

-- A state that is written and read again is as consistent as it was.
pub stored-IsConsistent : (s : TeamState) → IsConsistent s → IsConsistent (stored s)
unfolding stored
stored-IsConsistent s c =
    let member = λ (k : Text) (m : TeamMemberRecord) (h : lookup k (stored s).members ≡ some m).
      sym (lookup-sorted k s.members) ∙ h in
    let task = λ (k : Text) (t : TeamTask) (h : lookup k (stored s).tasks ≡ some t).
      sym (lookup-sorted k s.tasks) ∙ h in
    let (rank, ranked) = c.acyclic in
    record {
      members_unique = distinct-sorted s.members ∙ c.members_unique;
      member_ids = λ k m h. c.member_ids k m (member k m h);
      registered = λ k m h. participant_ids-sorted s k ∙ c.registered k m (member k m h);
      current_known = λ k m h.
          known_or_none-sorted m.current_task_id s.tasks ∙ c.current_known k m (member k m h);
      tasks_keyed = record {
        unique = distinct-sorted s.tasks ∙ c.tasks_keyed.unique;
        own_id = λ k t h. c.tasks_keyed.own_id k t (task k t h);
      };
      dependencies_known =
          λ k t d h dep. has-sorted d s.tasks ∙ c.dependencies_known k t d (task k t h) dep;
      acyclic = (rank, λ k t d h dep. ranked k t d (task k t h) dep);
      assignee_known =
          λ k t h. known_or_none-sorted t.assignee_id s.members ∙ c.assignee_known k t (task k t h);
      current_assigned =
          λ k m id t h e q. c.current_assigned k m id t (member k m h) e (task id t q);
      approvals_unique = distinct-sorted s.approvals ∙ c.approvals_unique;
      approvals_known = λ k a h.
          let (own, there, known) = c.approvals_known k a (sym (lookup-sorted k s.approvals) ∙ h) in
          (own, has-sorted a.member_id s.members ∙ there, has-sorted a.task_id s.tasks ∙ known);
      queue_known =
          all-ext (λ entry. has entry.member_id (sorted_by_key s.members))
            (λ entry. has entry.member_id s.members) s.queue
            (λ entry. has-sorted entry.member_id s.members)
          ∙ c.queue_known;
      queue_distinct = c.queue_distinct;
    }
