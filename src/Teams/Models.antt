-- ===== src/Teams/Models.antt =====
-- src/mewcode/teams/models.py: the enumerations and records of a team's persistent state.
-- A time is the number of microseconds of an aware datetime since the epoch. A path is its text.
mod Checks
pub use Checks.{Failure}
unfoldable pub use Checks.{valid_identifier, valid_summary, require_identifier, checked_summary}
use mew_code.Prelude.{ℕ, Bool, true, false, Option, List}
use mew_code.Prelude.Dict.{Dict}
use mew_code.Prelude.Text.{Text}
use mew_code.Permissions.Models.{PermissionMode, PermissionRuleSets}

abbrev pub Time : Type 0
Time = ℕ

pub data TeamMemberStatus : Type 0 where
  provisioning queued running awaiting_approval : TeamMemberStatus
  idle stopped interrupted failed : TeamMemberStatus

pub data TeamMemberBackend : Type 0 where
  in_process windows_terminal tmux : TeamMemberBackend

pub data TeamTaskStatus : Type 0 where
  pending in_progress completed failed cancelled : TeamTaskStatus

abbrev pub terminal : TeamTaskStatus → Bool
terminal TeamTaskStatus.completed = true
terminal TeamTaskStatus.failed = true
terminal TeamTaskStatus.cancelled = true
terminal _ = false

pub data PlanApprovalStatus : Type 0 where
  pending approved rejected invalidated : PlanApprovalStatus

pub data PlanDecision : Type 0 where
  approve reject : PlanDecision

pub data MemberWakeReason : Type 0 where
  message explicit_resume approval_decision recovered_queue : MemberWakeReason

pub data TeamActorKind : Type 0 where
  lead member system : TeamActorKind

pub record TeamName : Type 0 where
  pub value : Text
  pub canonical_key : Text

pub record TeamActor : Type 0 where
  pub participant_id : Text
  pub name : TeamName
  pub kind : TeamActorKind
  pub team_id : Text
  pub lease_fence : Text × ℕ

pub record RepositoryBinding : Type 0 where
  pub repository_marker_id : Text
  pub repository_id : Text
  pub workspace_root : Text
  pub common_dir : Text
  pub proof_nonce : Text
  pub created_at : Time
  pub relinked_at : Option Time

pub record TeamManifest : Type 0 where
  pub team_id : Text
  pub name : TeamName
  pub leader_name : Text
  pub repository : RepositoryBinding
  pub created_at : Time
  pub updated_at : Time

pub record FrozenRoleSnapshot : Type 0 where
  pub snapshot_id : Text
  pub role_name : Text
  pub source_fingerprint : Text
  pub description : Text
  pub system_prompt : Text
  pub profile_name : Text
  pub max_turns : ℕ
  pub permission_mode : PermissionMode
  pub allowed_tool_names : List Text
  pub denied_tool_names : List Text
  pub permission_rules : PermissionRuleSets
  pub created_at : Time

pub record TerminalPaneBinding : Type 0 where
  pub schema_version : ℕ
  pub backend : TeamMemberBackend
  pub host_id : Text
  pub backend_handle : Option Text
  pub created_at : Time
  pub last_connected_at : Option Time
  pub last_error : Option Text

pub record TeamMemberRecord : Type 0 where
  pub member_id : Text
  pub name : TeamName
  pub role : FrozenRoleSnapshot
  pub backend : TeamMemberBackend
  pub requires_approval : Bool
  pub status : TeamMemberStatus
  pub worktree_name : Text
  pub worktree_root : Text
  pub worktree_owner_id : Text
  pub mailbox_name : Text
  pub session_name : Text
  pub current_task_id : Option Text
  pub active_run_id : Option Text
  pub run_generation : ℕ
  pub last_error : Option Text
  pub created_at : Time
  pub updated_at : Time
  pub pane_binding : Option TerminalPaneBinding

pub record TeamTask : Type 0 where
  pub task_id : Text
  pub revision : ℕ
  pub approval_epoch : ℕ
  pub title : Text
  pub description : Text
  pub status : TeamTaskStatus
  pub assignee_id : Option Text
  pub dependency_ids : List Text
  pub created_by : Text
  pub result : Text
  pub created_at : Time
  pub updated_at : Time
  pub started_at : Option Time
  pub finished_at : Option Time

pub record TeamTaskView : Type 0 where
  pub task : TeamTask
  pub blocked : Bool
  pub blocking_task_ids : List Text
  pub claimable : Bool

pub record PlanApprovalRecord : Type 0 where
  pub request_id : Text
  pub member_id : Text
  pub task_id : Text
  pub task_revision : ℕ
  pub approval_epoch : ℕ
  pub plan_version : ℕ
  pub plan_text : Text
  pub summary : Text
  pub status : PlanApprovalStatus
  pub decision : Option PlanDecision
  pub feedback : Option Text
  pub requested_at : Time
  pub decided_at : Option Time

pub record MailboxRegistration : Type 0 where
  pub participant_id : Text
  pub participant_name : TeamName
  pub mailbox_name : Text
  pub is_lead : Bool

pub record MemberQueueEntry : Type 0 where
  pub queue_id : Text
  pub sequence : ℕ
  pub member_id : Text
  pub reason : MemberWakeReason
  pub message_ids : List Text
  pub requested_at : Time

pub data TeamProtocol : Type 0 where
  text task_assignment task_status plan_request plan_decision member_idle stop_request :
      TeamProtocol

-- The values that a message's payload holds.
pub data PayloadValue : Type 0 where
  str : Text → PayloadValue
  int : ℕ → PayloadValue

pub record TeamMessage : Type 0 where
  pub schema_version : ℕ
  pub message_id : Text
  pub correlation_id : Option Text
  pub sender_id : Text
  pub recipient_id : Text
  pub summary : Text
  pub body : Text
  pub protocol : TeamProtocol
  pub payload : Dict Text PayloadValue
  pub sent_at : Time
  pub read : Bool

pub record TeamOutboxEntry : Type 0 where
  pub outbox_id : Text
  pub message : TeamMessage
  pub delivered : Bool
  pub created_at : Time
  pub delivered_at : Option Time
  pub last_error : Option Text

pub record TeamState : Type 0 where
  pub schema_version : ℕ
  pub revision : ℕ
  pub manifest : TeamManifest
  pub members : Dict Text TeamMemberRecord
  pub registry : Dict Text MailboxRegistration
  pub tasks : Dict Text TeamTask
  pub approvals : Dict Text PlanApprovalRecord
  pub queue : List MemberQueueEntry
  pub outbox : List TeamOutboxEntry
  pub updated_at : Time
