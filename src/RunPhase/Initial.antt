-- ===== src/RunPhase/Initial.antt =====
-- The checkpoint that a run starts with, with the defaults of src/agent_runtime/state.rs. The functions
-- that build it (`initial_runtime_checkpoint` of src/agent.rs and `initial_runtime_state_checkpoint` of
-- src/agent_runtime/checkpoint.rs) are in Artifact.
use local_agent.Base.{String, Bool, false, Option, none, []}
use local_agent.RunPhase.{
  executing, ExecutionTier, RetryState, ToolProtocolState, ApprovalState, RunCheckpoint,
}

abbrev pub default_retry_state : RetryState
default_retry_state = record {
  blocked_runtime_completion_count = 0;
  required_validation_retry_count = 0;
  exact_final_answer_retry_count = 0;
  post_write_guard_retry_count = 0;
  post_write_follow_on_turn_count = 0;
  blocked_required_validation_phase_count = 0;
  blocked_validation_failure_repair_count = 0;
  blocked_post_validation_final_answer_count = 0;
}

abbrev pub default_tool_protocol_state : ToolProtocolState
default_tool_protocol_state = record {
  operator_delivery_count = 0;
  blocked_control_envelope_count = 0;
  blocked_tool_only_count = 0;
  tool_only_phase_active = false;
}

abbrev pub default_approval_state : ApprovalState
default_approval_state = record {
  approval_id = none;
  tool_call_id = none;
  awaiting_approval = false;
}

-- The record that both functions build.
abbrev pub start_checkpoint : ExecutionTier → Bool → Option String → Bool → RunCheckpoint
start_checkpoint execution_tier tool_only required_command exact = record {
  schema_version = "openagent.runtime_state_checkpoint.v1";
  phase = executing;
  step_index = 0;
  execution_tier = execution_tier;
  terminal_boundary = false;
  retry_state = default_retry_state;
  tool_protocol_state = record default_tool_protocol_state { tool_only_phase_active = tool_only };
  validation_state = record {
    required_command = required_command;
    satisfied = false;
    repair_mode = false;
    exact_final_answer_required = exact;
    collecting_final_answer = false;
  };
  approval_state = default_approval_state;
  active_plan_step_id = none;
  last_tool_fact_envelopes = [];
}
