-- ===== src/Gate.antt =====
-- src/gate.rs: the gate before each tool call. `NoGate` has only the hard gate; `TrustGate` consults
-- the policy and the approvals too. `Key` has the approval key, and `Decide` the trust gate.
pub mod Key
pub mod Decide
pub mod Hard
pub mod Safety
pub mod Escalation
pub mod Modes
mod Tests
use local_agent.Base.{
  ℕ, String, Bool, true, false, not, ◌&&◌, ◌||◌, Option, none, some, List, str_eq, if◌then◌else◌,
}
use local_agent.Base.Assoc.{Assoc}
use local_agent.Types.{ToolCall}
use local_agent.Taint.{TaintLevel, TaintMode}

pub data ProviderKind : Type 0 where
  lmstudio llamacpp ollama mock : ProviderKind

pub data ExecTargetKind : Type 0 where
  host docker : ExecTargetKind

pub data ApprovalMode : Type 0 where
  interrupt auto fail : ApprovalMode

pub data AutoApproveScope : Type 0 where
  scope_run scope_session : AutoApproveScope

pub data ApprovalKeyVersion : Type 0 where
  v1 v2 : ApprovalKeyVersion

abbrev pub version_str : ApprovalKeyVersion → String
version_str v1 = "v1"
version_str v2 = "v2"

abbrev pub target_str : ExecTargetKind → String
target_str host = "host"
target_str docker = "docker"

pub data GateDecision : Type 0 where
  allow :
      (approval_id approval_key reason source : Option String)
      → (taint_enforced escalated : Bool) → (escalation_reason : Option String) → GateDecision
  deny :
      (reason : String)
      → (approval_key source : Option String) → (taint_enforced escalated : Bool)
      → (escalation_reason : Option String) → GateDecision
  require_approval :
      (reason approval_id : String)
      → (approval_key source : Option String) → (taint_enforced escalated : Bool)
      → (escalation_reason : Option String) → GateDecision

pub record GateContext : Type 0 where
  pub workdir : String
  pub allow_shell : Bool
  pub allow_write : Bool
  pub approval_mode : ApprovalMode
  pub auto_approve_scope : AutoApproveScope
  pub unsafe_mode : Bool
  pub unsafe_bypass_allow_flags : Bool
  pub run_id : Option String
  pub enable_write_tools : Bool
  pub max_tool_output_bytes : ℕ
  pub max_read_bytes : ℕ
  pub provider : ProviderKind
  pub model : String
  pub exec_target : ExecTargetKind
  pub approval_key_version : ApprovalKeyVersion
  pub tool_schema_hashes : Assoc String
  pub hooks_config_hash_hex : Option String
  pub planner_hash_hex : Option String
  pub taint_enabled : Bool
  pub taint_mode : TaintMode
  pub taint_overall : TaintLevel
  pub taint_sources : List String

abbrev pub is_write_tool : String → Bool
is_write_tool name =
    str_eq name "write_file"
    || str_eq name "apply_patch"
    || str_eq name "edit"
    || str_eq name "str_replace"

-- The two guards with which both gates begin: the reason of the denial, if one applies.
unfoldable pub hard_gate : GateContext → ToolCall → Option String
hard_gate ctx call =
    if str_eq call.name "shell" && not ctx.allow_shell && not ctx.unsafe_bypass_allow_flags
    then some "shell requires --allow-shell"
    else if is_write_tool call.name && not ctx.allow_write && not ctx.unsafe_bypass_allow_flags
    then some "writes require --allow-write"
    else none

abbrev pub hard_denial : Option String → String → GateDecision
hard_denial key reason = deny reason key (some "hard_gate") false false none

-- `NoGate::decide`.
unfoldable pub no_gate_decide : GateContext → ToolCall → GateDecision
unfolding hard_gate
no_gate_decide ctx call = elim (hard_gate ctx call) [
  | some reason ↦ hard_denial none reason
  | none ↦ allow none none none none false false none
]
