-- ===== src/Gate/Tests.antt =====
-- Runs of the gates at a concrete policy and store.
use local_agent.Base.{
  String, ◌≡◌, inl, refl, Bool, true, false, some, none, [], ◌∷◌, concat, if◌then◌else◌, str_eq,
}
use local_agent.Json.{object, end, field, text, get_str}
use local_agent.Types.{ToolCall, tool_side_effects}
use local_agent.Taint.{TaintLevel, clean, tainted, propagate_and_enforce}
use local_agent.Trust.Policy.{require_approval, mcp_tool_allowed, evaluate}
use local_agent.Trust.Approvals.{ApprovalRequest, Clock, Disk, approved, consume_matching_approved}
use local_agent.Gate.{
  GateContext, interrupt, auto, scope_run, mock, host, v1, target_str, hard_gate, hard_denial,
  no_gate_decide,
}
use local_agent.Gate.Key.{
  compute_approval_key_with_version, fields_of, with_exec_target_arg, get_str-with_exec_target_arg,
}
use local_agent.Gate.Decide.{
  GateEnv, TrustGate, approval_key, decide, deny_as, evaluation, should_escalate, taint_enforced,
}
use local_agent.Gate.Hard.{Forbidden, hard_gate-denies}
use local_agent.Gate.Escalation.{is_allow, escalation-never_allows}
use local_agent.Gate.Modes.{asks, auto-never_asks, unreadable-denies}
use local_agent.Gate.Safety.{Justified, allow-Justified}

abbrev clock : Clock
clock = record {
  now = 10;
  now_rfc3339 = "t10";
  hours_from_now = λ hours. "later";
  parse = λ s. none;
}

abbrev env : GateEnv
env = record {
  clock = clock;
  glob_new = λ pat. none;
  key_env = record {
    sha256_hex = λ s. s;
    to_string = λ v. some "{}";
    canonicalize = λ path. some path;
  };
  describe = λ e. "failed";
  fresh = "u1";
  fresh_escalated = "u2";
}

-- Every tool wants an approval.
abbrev gate : TrustGate
gate = record {
  policy = record {
    default = require_approval;
    rules = [];
    version = 1;
    includes_resolved = [];
    mcp_allow = none;
    taint = none;
  };
  policy_hash_hex = "p";
}

abbrev context : Bool → TaintLevel → GateContext
context allow_shell level = record {
  workdir = "/w";
  allow_shell = allow_shell;
  allow_write = false;
  approval_mode = interrupt;
  auto_approve_scope = scope_run;
  unsafe_mode = false;
  unsafe_bypass_allow_flags = false;
  run_id = none;
  enable_write_tools = false;
  max_tool_output_bytes = 0;
  max_read_bytes = 0;
  provider = mock;
  model = "m";
  exec_target = host;
  approval_key_version = v1;
  tool_schema_hashes = [];
  hooks_config_hash_hex = none;
  planner_hash_hex = none;
  taint_enabled = true;
  taint_mode = propagate_and_enforce;
  taint_overall = level;
  taint_sources = [];
}

abbrev shell_call : ToolCall
shell_call = record { id = "c1"; name = "shell"; arguments = object end }

-- One approval for the call, without a limit.
abbrev approval : ApprovalRequest
approval = record {
  created_at = "t1";
  tool = "shell";
  arguments = object end;
  status = approved;
  approval_key = some "v1\nshell\n{}\n/w\np\n";
  expires_at = none;
  max_uses = none;
  uses = none;
  approval_key_version = none;
  tool_schema_hash_hex = none;
  hooks_config_hash_hex = none;
  exec_target = none;
  planner_hash_hex = none;
}

abbrev disk : Disk
disk = record {
  file =
      some (record { schema_version = "openagent.approvals.v1"; requests = ("a", approval) ∷ [] });
  readable = true;
  writable = true;
  renames = true;
  windows = false;
  removes = true;
  renames_again = true;
}

get_str-with_exec_target_arg_example :
    get_str
      (with_exec_target_arg (object (field "__exec_target" (text "docker") end)) host)
      "__exec_target"
    ≡ (if str_eq "__exec_target" "__exec_target"
        then some (target_str host)
        else get_str
            (object (fields_of (object (field "__exec_target" (text "docker") end))))
            "__exec_target")
get_str-with_exec_target_arg_example =
    get_str-with_exec_target_arg (object (field "__exec_target" (text "docker") end)) host
      "__exec_target"

shell-Forbidden : Forbidden (context false clean) shell_call
unfolding tool_side_effects
shell-Forbidden = (refl, inl (refl, refl))

hard_gate-denies_example :
    (reason : String) × (no_gate_decide (context false clean) shell_call ≡ hard_denial none reason)
    × (decide env gate (context false clean) shell_call disk ≡ (
      hard_denial (some (approval_key env gate (context false clean) shell_call)) reason,
      disk,
    ))
hard_gate-denies_example =
    hard_gate-denies env gate (context false clean) shell_call disk shell-Forbidden

due : should_escalate env gate (context true tainted) shell_call ≡ true
unfolding should_escalate taint_enforced tool_side_effects
due = refl

escalation-never_allows_example :
    is_allow (decide env gate (context true tainted) shell_call disk).0 ≡ false
escalation-never_allows_example =
    escalation-never_allows env gate (context true tainted) shell_call disk refl due

passes : is_allow (decide env gate (context true clean) shell_call disk).0 ≡ true
unfolding decide hard_gate mcp_tool_allowed evaluation evaluate should_escalate taint_enforced
    consume_matching_approved approval_key compute_approval_key_with_version
passes = refl

allow-Justified_example :
    (hard_gate (context true clean) shell_call ≡ none)
    × (mcp_tool_allowed gate.policy "shell" ≡ none)
    × (should_escalate env gate (context true clean) shell_call ≡ false)
    × Justified env gate
        (context true clean)
        shell_call
        (evaluation env gate (context true clean) shell_call).decision
        disk
        (decide env gate (context true clean) shell_call disk).1
allow-Justified_example =
    allow-Justified env gate (context true clean) shell_call disk (tt, tt) refl passes

-- The same run in automatic mode, and over a store that cannot be read.
abbrev auto_context : GateContext
auto_context = record (context true tainted) { approval_mode = auto }

auto-never_asks_example : asks (decide env gate auto_context shell_call disk).0 ≡ false
auto-never_asks_example = auto-never_asks env gate auto_context shell_call disk refl

abbrev unreadable : Disk
unreadable = record disk { readable = false }

wants_approval : (evaluation env gate (context true tainted) shell_call).decision ≡ require_approval
unfolding evaluation evaluate
wants_approval = refl

passes_hard : hard_gate (context true tainted) shell_call ≡ none
unfolding hard_gate
passes_hard = refl

passes_mcp : mcp_tool_allowed gate.policy "shell" ≡ none
unfolding mcp_tool_allowed
passes_mcp = refl

unreadable-denies_example : decide env gate (context true tainted) shell_call unreadable ≡ (
  deny_as env gate
      (context true tainted)
      shell_call
      (concat ("failed to read approvals store: " ∷ "failed" ∷ [])),
  unreadable,
)
unreadable-denies_example =
    unreadable-denies env gate (context true tainted) shell_call unreadable
      (record { schema_version = "openagent.approvals.v1"; requests = ("a", approval) ∷ [] }) refl
      refl refl passes_hard passes_mcp wants_approval
