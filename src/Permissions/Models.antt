-- ===== src/Permissions/Models.antt =====
-- src/mewcode/permissions/models.py: the enumerations and the records of the permission system.
use mew_code.Prelude.{ℕ, Bool, Option, List}
use mew_code.Prelude.Text.{Text}

pub data PermissionMode : Type 0 where
  strict default allow : PermissionMode

pub data PermissionEffect : Type 0 where
  allow deny : PermissionEffect

pub data PermissionOutcome : Type 0 where
  allow deny ask : PermissionOutcome

pub data PermissionChoice : Type 0 where
  deny once session permanent : PermissionChoice

pub data RuleScope : Type 0 where
  session project_local project user : RuleScope

pub data PermissionSource : Type 0 where
  blacklist sandbox session_rule project_local_rule project_rule user_rule : PermissionSource
  mode user_confirmation config_error subagent_policy subagent_non_interactive : PermissionSource

-- `PermissionTargetKind` of src/mewcode/tools/base.py.
pub data PermissionTargetKind : Type 0 where
  command path path_glob tool : PermissionTargetKind

pub record PermissionTarget : Type 0 where
  pub tool_name : Text
  pub value : Text
  pub kind : PermissionTargetKind

-- `specificity` is the tuple (exact, fixed text, path segments).
pub record Specificity : Type 0 where
  pub exact : ℕ
  pub fixed_text : ℕ
  pub segments : ℕ

pub record PermissionRule : Type 0 where
  pub tool_name : Text
  pub pattern : Text
  pub effect : PermissionEffect
  pub scope : RuleScope
  pub is_exact : Bool
  pub specificity : Specificity

pub record PermissionRuleSets : Type 0 where
  pub session : List PermissionRule
  pub project_local : List PermissionRule
  pub project : List PermissionRule
  pub user : List PermissionRule

pub record PermissionMatch : Type 0 where
  pub rule : PermissionRule
  pub source : PermissionSource

-- The reason is text for the user and is left out.
pub record PermissionDecision : Type 0 where
  pub outcome : PermissionOutcome
  pub target : Option PermissionTarget
  pub source : PermissionSource
  pub match : Option PermissionMatch
