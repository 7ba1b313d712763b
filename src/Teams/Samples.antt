-- ===== src/Teams/Samples.antt =====
-- A small team for the tests: a lead, one member, and the tasks that the tests create.
use mew_code.Prelude.{
  ℕ, ◌≡◌, refl, Bool, true, false, none, some, [], ◌∷◌, Outcome, ok, err, contains, distinct, all,
}
use mew_code.Prelude.Dict.{lookup}
use mew_code.Prelude.Dict.Laws.{lookup-All}
use mew_code.Prelude.Text.{Text, text_eq, codes}
use mew_code.Permissions.Models.{PermissionMode}
use mew_code.Teams.Models.{
  TeamState, TeamMemberRecord, TeamMemberStatus, TeamMemberBackend, TeamName, TeamActor,
  TeamActorKind, TeamTaskStatus, TeamTaskView, MailboxRegistration, Failure,
}
use mew_code.Teams.Repository.{participant_ids}
use mew_code.Teams.Invariant.{IsConsistent}

abbrev pub name_of : Text → TeamName
name_of s = record { value = s; canonical_key = s }

abbrev pub fence : Text × ℕ
fence = (codes "f", 1)

abbrev pub lead_actor : TeamActor
lead_actor = record {
  participant_id = codes "l";
  name = name_of (codes "l");
  kind = TeamActorKind.lead;
  team_id = codes "g";
  lease_fence = fence;
}

abbrev pub member_actor : TeamActor
member_actor = record lead_actor {
  participant_id = codes "m";
  name = name_of (codes "m");
  kind = TeamActorKind.member;
}

abbrev pub idle_member : TeamMemberRecord
idle_member = record {
  member_id = codes "m";
  name = name_of (codes "m");
  role = record {
    snapshot_id = codes "r";
    role_name = codes "r";
    source_fingerprint = codes "r";
    description = codes "r";
    system_prompt = codes "r";
    profile_name = codes "r";
    max_turns = 5;
    permission_mode = PermissionMode.default;
    allowed_tool_names = [];
    denied_tool_names = [];
    permission_rules = record { session = []; project_local = []; project = []; user = [] };
    created_at = 1;
  };
  backend = TeamMemberBackend.in_process;
  requires_approval = true;
  status = TeamMemberStatus.idle;
  worktree_name = codes "w";
  worktree_root = codes "w";
  worktree_owner_id = codes "w";
  mailbox_name = codes "m";
  session_name = codes "m";
  current_task_id = none;
  active_run_id = none;
  run_generation = 0;
  last_error = none;
  created_at = 1;
  updated_at = 1;
  pane_binding = none;
}

abbrev registration : Text → Bool → Text × MailboxRegistration
registration id is_lead = (
  id,
  record {
    participant_id = id;
    participant_name = name_of id;
    mailbox_name = id;
    is_lead = is_lead;
  },
)

abbrev pub new_team : TeamState
new_team = record {
  schema_version = 1;
  revision = 3;
  manifest = record {
    team_id = codes "g";
    name = name_of (codes "t");
    leader_name = codes "l";
    repository = record {
      repository_marker_id = codes "r";
      repository_id = codes "r";
      workspace_root = codes "r";
      common_dir = codes "r";
      proof_nonce = codes "r";
      created_at = 1;
      relinked_at = none;
    };
    created_at = 1;
    updated_at = 1;
  };
  members = (codes "m", idle_member) ∷ [];
  registry = registration (codes "l") true ∷ registration (codes "m") false ∷ [];
  tasks = [];
  approvals = [];
  queue = [];
  outbox = [];
  updated_at = 2;
}

abbrev blank : TeamTaskView
blank = record {
  task = record {
    task_id = [];
    revision = 0;
    approval_epoch = 0;
    title = [];
    description = [];
    status = TeamTaskStatus.pending;
    assignee_id = none;
    dependency_ids = [];
    created_by = [];
    result = [];
    created_at = 0;
    updated_at = 0;
    started_at = none;
    finished_at = none;
  };
  blocked = false;
  blocking_task_ids = [];
  claimable = false;
}

-- The result of an operation, or the new team where it raises.
abbrev pub outcome_of : Outcome Failure (TeamState × TeamTaskView) → TeamState × TeamTaskView
outcome_of (ok p) = p
outcome_of (err e) = (new_team, blank)

abbrev Idle : Text → TeamMemberRecord → Type 0
Idle k m =
    (m.member_id ≡ k) × (contains (participant_ids new_team) k ≡ true) × (m.current_task_id ≡ none)

all-Idle : (k : Text) (m : TeamMemberRecord) → lookup k new_team.members ≡ some m → Idle k m
unfolding participant_ids contains text_eq
all-Idle = lookup-All Idle new_team.members ((refl, refl, refl), tt)

pub new_team-IsConsistent : IsConsistent new_team
unfolding lookup distinct all contains
new_team-IsConsistent = record {
  members_unique = refl;
  member_ids = λ k m h. (all-Idle k m h).0;
  registered = λ k m h. (all-Idle k m h).1;
  current_known = λ k m h. rw (all-Idle k m h).2 refl;
  tasks_keyed = record { unique = refl; own_id = λ k t h. cc };
  dependencies_known = λ k t d h c. cc;
  acyclic = (λ k. 0, λ k t d h c. cc);
  assignee_known = λ k t h. cc;
  current_assigned = λ k m id t h c l. cc;
  approvals_unique = refl;
  approvals_known = λ k a h. cc;
  queue_known = refl;
  queue_distinct = refl;
}
