-- ===== src/Teams/ApprovalService/Permits.antt =====
-- When a member that needs approval gets a permit.
use mew_code.Prelude.{
  ◌≡◌, refl, ap, ◌∙◌, ◌↔◌, Bool, true, some, List, [], ◌∷◌, any, keep, ◌==◌, nat_eq, option_eq,
  Bool-cases, Option-cases, ok, inl, inr, arith,
}
use mew_code.Prelude.Dict.{lookup, values, is_some}
use mew_code.Prelude.Text.{Text, text_eq}
use mew_code.Teams.Models.{
  Time, TeamName, TeamState, TeamActor, TeamMemberRecord, TeamTask, PlanApprovalRecord,
}
use mew_code.Teams.Invariant.{IsConsistent}
use mew_code.Teams.Approvals.{grants, approval_is_valid}
use mew_code.Teams.Tasks.{is_member}
use mew_code.Teams.Repository.{Disk, load}
use mew_code.Teams.ApprovalService.{ApprovalPermit, is_current, latest, side_effect_permit}

latest-keep :
    (p : PlanApprovalRecord → Bool) (items : List PlanApprovalRecord)
    → is_some (latest (keep p items)) ≡ any p items
unfolding latest keep any
latest-keep p [] = refl
latest-keep p (item ∷ items) = elim (Option-cases (latest (keep p items))) [
  | inl nothing ↦ ground (arith, latest-keep p items)
  | inr (other, found) ↦ ground (arith, latest-keep p items)
]

is_current-grants :
    (member : TeamMemberRecord) (id : Text) (task : TeamTask) (item : PlanApprovalRecord)
    → is_current member id task item ≡ grants member.member_id id task item
unfolding is_current grants
is_current-grants member id task item = ground arith

any-cong :
    (p q : PlanApprovalRecord → Bool) (items : List PlanApprovalRecord)
    → ((item : PlanApprovalRecord) → p item ≡ q item)
    → any p items ≡ any q items
unfolding any
any-cong p q [] same = refl
any-cong p q (item ∷ items) same = rw (same item, any-cong p q items same) refl

abbrev permit_of : TeamMemberRecord → Text → TeamTask → PlanApprovalRecord → ApprovalPermit
permit_of member id task item = record {
  member_id = member.member_id;
  task_id = id;
  approval_epoch = task.approval_epoch;
  request_id = item.request_id;
}

-- For a member of a consistent state whose work needs approval, a permit for a task is given exactly
-- where the task is its current one and the approval of it is valid by the rule of the state.
pub side_effect_permit-approval_is_valid :
    (team : TeamName) (actor : TeamActor) (id : Text) (now : Time) (disk : Disk) (s : TeamState)
    (member : TeamMemberRecord)
    → is_member actor.kind ≡ true
    → load team disk ≡ ok s
    → IsConsistent s
    → lookup actor.participant_id s.members ≡ some member
    → member.requires_approval ≡ true
    → ((permit : ApprovalPermit) × (side_effect_permit team actor id now disk ≡ ok permit))
      ↔ ((member.current_task_id ≡ some id) × (approval_is_valid s actor.participant_id id ≡ true))
unfolding side_effect_permit approval_is_valid
side_effect_permit-approval_is_valid team actor id now disk s member kind loaded c found needs =
    elim (Option-cases (lookup id s.tasks)) [
      | inl missing ↦ (λ h. absurd (ground (arith)), λ h. absurd (ground arith))
      | inr (task, there) ↦
          let own = c.member_ids actor.participant_id member found in
          let same =
            any-cong (is_current member id task) (grants actor.participant_id id task)
              (values s.approvals)
              (λ item.
                is_current-grants member id task item ∙ ap (λ z. grants z id task item) own) in
          let some_record = latest-keep (is_current member id task) (values s.approvals) in
          let reads = (option_eq {A = Text}).beq_iff member.current_task_id (some id) in
          elim (Bool-cases (member.current_task_id == some id)) [
            | inr other ↦ (λ h. absurd (ground arith), λ h. absurd (cc (other, reads.1 h.0)))
            | inl current ↦
                let cur = reads.0 current in
                let assignee =
                  c.current_assigned actor.participant_id member id task found cur there in
                let mine =
                  (option_eq {A = Text}).beq_iff task.assignee_id (some actor.participant_id) in
                let is_mine = mine.1 assignee in
                elim (Option-cases
                  (latest (keep (is_current member id task) (values s.approvals)))) [
                    | inl nothing ↦ (λ h. absurd (ground arith), λ h. absurd (ground arith))
                    | inr (item, newest) ↦ (
                      λ h. (cur, ground arith),
                      λ h. (permit_of member id task item, ground arith),
                    )
                  ]
          ]
    ]
