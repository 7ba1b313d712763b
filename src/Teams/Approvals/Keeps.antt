-- ===== src/Teams/Approvals/Keeps.antt =====
-- Writing approvals keeps the state consistent.
use mathlib.Core.Option
use mew_code.Prelude.{
  ◌≡◌, refl, sym, ◌∙◌, inl, inr, Option, none, some, [], ◌∷◌, Option-cases, Outcome-cases, ok,
  if◌then◌else◌, arith,
}
use mew_code.Prelude.Dict.{Dict, lookup, insert, keys}
use mew_code.Prelude.Text.{Text, text_eq}
use mew_code.Teams.Models.{
  Time, TeamState, TeamActor, PlanApprovalRecord, PlanDecision, PlanApprovalStatus,
}
use mew_code.Teams.Approvals.{
  invalidated, map_values, invalidate_approvals, make_approval, is_reject, decide_approval,
}
use mew_code.Teams.Invariant.{IsConsistent, put_approvals-IsConsistent}

keys-map_values : {V : Type 0} (f : V → V) (d : Dict Text V) → keys (map_values f d) ≡ keys d
unfolding map_values
keys-map_values f [] = refl
keys-map_values f ((k, v) ∷ d) = rw (keys-map_values f d)

pub lookup-map_values :
    {V : Type 0} (f : V → V) (d : Dict Text V) (k : Text)
    → lookup k (map_values f d) ≡ Option.map f (lookup k d)
unfolding map_values lookup
lookup-map_values f [] k = refl
lookup-map_values f ((j, v) ∷ d) k = ground (arith, lookup-map_values f d k)

lookup-map_values-some :
    {V : Type 0} (f : V → V) (d : Dict Text V) (k : Text) {a : V}
    → lookup k (map_values f d) ≡ some a
    → (old : V) × (lookup k d ≡ some old) × (f old ≡ a)
lookup-map_values-some {V} f d k {a} h = split (lookup k d) refl (sym (lookup-map_values f d k) ∙ h)
  where
    split :
        (o : Option V)
        → lookup k d ≡ o
        → Option.map f o ≡ some a
        → (old : V) × (lookup k d ≡ some old) × (f old ≡ a)
    split none e q = cc
    split (some old) e q = (old, e, cc)

invalidated_ids :
    (task_id : Text) (now : Time) (a : PlanApprovalRecord)
    → ((invalidated task_id now a).request_id ≡ a.request_id)
      × ((invalidated task_id now a).member_id ≡ a.member_id)
      × ((invalidated task_id now a).task_id ≡ a.task_id)
unfolding invalidated
invalidated_ids task_id now a = ground arith

pub invalidate_approvals-IsConsistent :
    (s : TeamState) (task_id : Text) (now : Time)
    → IsConsistent s
    → IsConsistent (invalidate_approvals s task_id now)
unfolding invalidate_approvals
invalidate_approvals-IsConsistent s task_id now c =
    put_approvals-IsConsistent s c (map_values (invalidated task_id now) s.approvals) now
      (rw (keys-map_values (invalidated task_id now) s.approvals) c.approvals_unique)
      λ k a h.
        let (old, found, same) = lookup-map_values-some (invalidated task_id now) s.approvals k h in
        let (own_id, member, task) = c.approvals_known k old found in
        let ids = invalidated_ids task_id now old in
        rw (← same) (cc (ids.0, own_id), rw ids.1 member, rw ids.2 task)

-- A checked record differs from the record at most in its feedback.
abbrev SameApproval : PlanApprovalRecord → PlanApprovalRecord → Type 0
SameApproval a b =
    (a.request_id ≡ b.request_id)
    × (a.member_id ≡ b.member_id)
    × (a.task_id ≡ b.task_id)
    × (a.task_revision ≡ b.task_revision)
    × (a.approval_epoch ≡ b.approval_epoch)
    × (a.plan_version ≡ b.plan_version)
    × (a.status ≡ b.status)

pub make_approval-SameApproval :
    (a b : PlanApprovalRecord) → make_approval a ≡ ok b → SameApproval b a
unfolding make_approval
make_approval-SameApproval a b h = ground arith

-- What a decided request leaves behind.
pub decide_approval-eq-ok :
    (s s' : TeamState) (actor : TeamActor) (id : Text) (d : PlanDecision) (feedback : Option Text)
    (now : Time) (r : PlanApprovalRecord)
    → decide_approval s actor id d feedback now ≡ ok (s', r)
    → (item : PlanApprovalRecord) × (lookup id s.approvals ≡ some item)
      × (SameApproval r (record item {
        status = if is_reject d then PlanApprovalStatus.rejected else PlanApprovalStatus.approved;
      }))
      × (s' ≡ record s { approvals = insert id r s.approvals; updated_at = now })
unfolding decide_approval
decide_approval-eq-ok s s' actor id d feedback now r h =
    elim (Option-cases (lookup id s.approvals)) [
      | inl missing ↦ absurd (ground arith)
      | inr (item, found) ↦
          let checked = record item {
            status =
                if is_reject d then PlanApprovalStatus.rejected else PlanApprovalStatus.approved;
            decision = some d;
            feedback = feedback;
            decided_at = some now;
          } in
          elim (Outcome-cases (make_approval checked)) [
            | inl (decided, made) ↦
                let same = make_approval-SameApproval checked decided made in
                let end : (s'
                      ≡ record s { approvals = insert id decided s.approvals; updated_at = now })
                    × (r ≡ decided) =
                  ground arith in
                (item, found, rw end.1 same, rw end.1 end.0)
            | inr (e, bad) ↦ absurd (ground arith)
          ]
    ]
