-- ===== src/Teams/Invariant.antt =====
-- The consistency that a stored team state has, and how a write of one task or one member keeps it.
use mew_code.Prelude.{
  ℕ, ◌≡◌, refl, ◌⊎◌, inl, inr, true, ◌||◌, Option, none, some, List, map, all, contains, distinct,
  ◌==◌, Bool-cases, Option-cases, arith, eq_of_==,
}
use mew_code.Prelude.Dict.{Dict, lookup, insert, has, keys, lookup-insert}
use mew_code.Prelude.Dict.Laws.{distinct-keys-insert, all_mono}
use mew_code.Prelude.Text.{Text, text_eq}
use mew_code.Teams.Models.{
  Time, TeamState, TeamTask, TeamMemberRecord, PlanApprovalRecord, MemberQueueEntry,
}
use mew_code.Teams.Dependencies.Sound.{IsKnown, IsRanked}
use mew_code.Teams.Dependencies.Complete.{IsKeyed}
use mew_code.Teams.Repository.{known_or_none, participant_ids}

pub record IsConsistent (s : TeamState) : Type 0 where
  pub members_unique : distinct (keys s.members) ≡ true
  pub member_ids : (k : Text) (m : TeamMemberRecord) → lookup k s.members ≡ some m → m.member_id ≡ k
  pub registered :
      (k : Text) (m : TeamMemberRecord)
      → lookup k s.members ≡ some m
      → contains (participant_ids s) k ≡ true
  pub current_known :
      (k : Text) (m : TeamMemberRecord)
      → lookup k s.members ≡ some m
      → known_or_none m.current_task_id s.tasks ≡ true
  pub tasks_keyed : IsKeyed s.tasks
  pub dependencies_known : IsKnown s.tasks
  pub acyclic : (rank : Text → ℕ) × IsRanked s.tasks rank
  pub assignee_known :
      (k : Text) (t : TeamTask)
      → lookup k s.tasks ≡ some t
      → known_or_none t.assignee_id s.members ≡ true
  -- A member's current task is assigned to that member, so it is current for no other.
  pub current_assigned :
      (k : Text) (m : TeamMemberRecord) (id : Text) (t : TeamTask)
      → lookup k s.members ≡ some m
      → m.current_task_id ≡ some id
      → lookup id s.tasks ≡ some t
      → t.assignee_id ≡ some k
  pub approvals_unique : distinct (keys s.approvals) ≡ true
  pub approvals_known :
      (k : Text) (a : PlanApprovalRecord)
      → lookup k s.approvals ≡ some a
      → (a.request_id ≡ k) × (has a.member_id s.members ≡ true) × (has a.task_id s.tasks ≡ true)
  pub queue_known : all (λ entry. has entry.member_id s.members) s.queue ≡ true
  pub queue_distinct : distinct (map (λ entry. entry.member_id) s.queue) ≡ true

module _ {V : Type 0} where
  pub has-insert :
      (k j : Text) (v : V) (d : Dict Text V) → has j (insert k v d) ≡ (k == j || has j d)
  has-insert k j v d =
      rw (lookup-insert k j v d) (elim (Bool-cases (k == j)) [ inl e ↦ rw e | inr e ↦ rw e ])

  pub has-insert_of_has :
      (k j : Text) (v : V) (d : Dict Text V) → has j d ≡ true → has j (insert k v d) ≡ true
  has-insert_of_has k j v d h = ground (arith, has-insert k j v d)

  pub known_or_none-insert :
      (o : Option Text) (k : Text) (v : V) (d : Dict Text V)
      → known_or_none o d ≡ true
      → known_or_none o (insert k v d) ≡ true
  known_or_none-insert none k v d h = refl
  known_or_none-insert (some j) k v d h = has-insert_of_has k j v d h

  -- What a lookup in an updated dictionary finds: the new value, or the old one.
  pub lookup-insert_cases :
      (k j : Text) (v w : V) (d : Dict Text V)
      → lookup j (insert k v d) ≡ some w
      → ((k ≡ j) × (v ≡ w)) ⊎ (lookup j d ≡ some w)
  lookup-insert_cases k j v w d h = elim (Bool-cases (k == j)) [
    | inl same ↦ inl (eq_of_== k j same, ground (arith, lookup-insert k j v d))
    | inr other ↦ inr (ground (arith, lookup-insert k j v d))
  ]

module _ (s : TeamState) (c : IsConsistent s) where
  -- One member is written.
  pub put_member-IsConsistent :
      (id : Text) (m : TeamMemberRecord) (now : Time)
      → m.member_id ≡ id
      → has id s.members ≡ true
      → known_or_none m.current_task_id s.tasks ≡ true
      → ((j : Text) (t : TeamTask)
          → m.current_task_id ≡ some j
          → lookup j s.tasks ≡ some t
          → t.assignee_id ≡ some id)
      → IsConsistent (record s { members = insert id m s.members; updated_at = now })
  unfolding participant_ids
  put_member-IsConsistent id m now own there known link = record {
    members_unique = distinct-keys-insert id m s.members c.members_unique;
    member_ids = λ k n h. elim (lookup-insert_cases id k m n s.members h) [
      | inl new ↦ cc (new.0, new.1)
      | inr old ↦ c.member_ids k n old
    ];
    registered = λ k n h. elim (lookup-insert_cases id k m n s.members h) [
      | inl new ↦ elim (Option-cases (lookup id s.members)) [
        | inl missing ↦ cc (rw missing at there)
        | inr (old, found) ↦ rw (← new.0) (c.registered id old found)
      ]
      | inr old ↦ c.registered k n old
    ];
    current_known = λ k n h. elim (lookup-insert_cases id k m n s.members h) [
      | inl new ↦ rw (← new.1) known
      | inr old ↦ c.current_known k n old
    ];
    tasks_keyed = c.tasks_keyed;
    dependencies_known = c.dependencies_known;
    acyclic = c.acyclic;
    assignee_known =
        λ k t h. known_or_none-insert t.assignee_id id m s.members (c.assignee_known k t h);
    current_assigned = λ k n j t h cur found. elim (lookup-insert_cases id k m n s.members h) [
      | inl new ↦ cc (new.0, link j t (cc (new.1, cur)) found)
      | inr old ↦ c.current_assigned k n j t old cur found
    ];
    approvals_unique = c.approvals_unique;
    approvals_known = λ k a h.
        let (own_id, member, task) = c.approvals_known k a h in
        (own_id, has-insert_of_has id a.member_id m s.members member, task);
    queue_known =
        all_mono _ _ s.queue (λ entry h. has-insert_of_has id entry.member_id m s.members h)
          c.queue_known;
    queue_distinct = c.queue_distinct;
  }

  -- One task is written, and the graph with it is acyclic.
  pub put_task-IsConsistent :
      (id : Text) (t : TeamTask) (now : Time)
      → t.task_id ≡ id
      → IsKnown (insert id t s.tasks)
      → ((rank : Text → ℕ) × IsRanked (insert id t s.tasks) rank)
      → known_or_none t.assignee_id s.members ≡ true
      → ((k : Text) (m : TeamMemberRecord)
          → lookup k s.members ≡ some m
          → m.current_task_id ≡ some id
          → t.assignee_id ≡ some k)
      → IsConsistent (record s { tasks = insert id t s.tasks; updated_at = now })
  unfolding participant_ids
  put_task-IsConsistent id t now own known ranked there link = record {
    members_unique = c.members_unique;
    member_ids = c.member_ids;
    registered = c.registered;
    current_known =
        λ k m h. known_or_none-insert m.current_task_id id t s.tasks (c.current_known k m h);
    tasks_keyed = record {
      unique = distinct-keys-insert id t s.tasks c.tasks_keyed.unique;
      own_id = λ k u h. elim (lookup-insert_cases id k t u s.tasks h) [
        | inl new ↦ cc (new.0, new.1)
        | inr old ↦ c.tasks_keyed.own_id k u old
      ];
    };
    dependencies_known = known;
    acyclic = ranked;
    assignee_known = λ k u h. elim (lookup-insert_cases id k t u s.tasks h) [
      | inl new ↦ rw (← new.1) there
      | inr old ↦ c.assignee_known k u old
    ];
    current_assigned = λ k m j u h cur found. elim (lookup-insert_cases id j t u s.tasks found) [
      | inl new ↦ cc (new.1, link k m h (cc (cur, new.0)))
      | inr old ↦ c.current_assigned k m j u h cur old
    ];
    approvals_unique = c.approvals_unique;
    approvals_known = λ k a h.
        let (own_id, member, task) = c.approvals_known k a h in
        (own_id, member, has-insert_of_has id a.task_id t s.tasks task);
    queue_known = c.queue_known;
    queue_distinct = c.queue_distinct;
  }

  -- The approvals change, each to one of a known member and task.
  pub put_approvals-IsConsistent :
      (d : Dict Text PlanApprovalRecord) (now : Time)
      → distinct (keys d) ≡ true
      → ((k : Text) (a : PlanApprovalRecord)
          → lookup k d ≡ some a
          → (a.request_id ≡ k)
            × (has a.member_id s.members ≡ true)
            × (has a.task_id s.tasks ≡ true))
      → IsConsistent (record s { approvals = d; updated_at = now })
  unfolding participant_ids
  put_approvals-IsConsistent d now unique known = record {
    members_unique = c.members_unique;
    member_ids = c.member_ids;
    registered = c.registered;
    current_known = c.current_known;
    tasks_keyed = c.tasks_keyed;
    dependencies_known = c.dependencies_known;
    acyclic = c.acyclic;
    assignee_known = c.assignee_known;
    current_assigned = c.current_assigned;
    approvals_unique = unique;
    approvals_known = known;
    queue_known = c.queue_known;
    queue_distinct = c.queue_distinct;
  }

  -- The queue changes, and holds known members once each.
  pub put_queue-IsConsistent :
      (q : List MemberQueueEntry) (now : Time)
      → all (λ entry. has entry.member_id s.members) q ≡ true
      → distinct (map (λ entry. entry.member_id) q) ≡ true
      → IsConsistent (record s { queue = q; updated_at = now })
  unfolding participant_ids
  put_queue-IsConsistent q now known unique = record {
    members_unique = c.members_unique;
    member_ids = c.member_ids;
    registered = c.registered;
    current_known = c.current_known;
    tasks_keyed = c.tasks_keyed;
    dependencies_known = c.dependencies_known;
    acyclic = c.acyclic;
    assignee_known = c.assignee_known;
    current_assigned = c.current_assigned;
    approvals_unique = c.approvals_unique;
    approvals_known = c.approvals_known;
    queue_known = known;
    queue_distinct = unique;
  }
