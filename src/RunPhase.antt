-- ===== src/RunPhase.antt =====
-- src/agent_runtime/state.rs: the phases of a run and its checkpoint, with the names of the phases and
-- the outcome's interrupts (src/agent/interrupts.rs) and the transitions between phases
-- (src/agent/completion_policy.rs).
pub mod Resume
pub mod Once
pub mod Initial
mod Tests
use local_agent.Base.{ℕ, String, Bool, true, false, Option, none, some, List, []}
use local_agent.ToolFacts.{ToolFact}

pub data RunPhase : Type 0 where
  setup planning executing waiting_for_approval waiting_for_operator_input : RunPhase
  verifying_changes validating collecting_final_answer : RunPhase
  finalizing done failed cancelled : RunPhase

pub data ExecutionTier : Type 0 where
  no_side_effects read_only_host scoped_host_write scoped_host_shell : ExecutionTier
  docker_isolated mcp_only : ExecutionTier

pub record RetryState : Type 0 where
  pub blocked_runtime_completion_count : ℕ
  pub required_validation_retry_count : ℕ
  pub exact_final_answer_retry_count : ℕ
  pub post_write_guard_retry_count : ℕ
  pub post_write_follow_on_turn_count : ℕ
  pub blocked_required_validation_phase_count : ℕ
  pub blocked_validation_failure_repair_count : ℕ
  pub blocked_post_validation_final_answer_count : ℕ

pub record ToolProtocolState : Type 0 where
  pub operator_delivery_count : ℕ
  pub blocked_control_envelope_count : ℕ
  pub blocked_tool_only_count : ℕ
  pub tool_only_phase_active : Bool

pub record ValidationState : Type 0 where
  pub required_command : Option String
  pub satisfied : Bool
  pub repair_mode : Bool
  pub exact_final_answer_required : Bool
  pub collecting_final_answer : Bool

pub record ApprovalState : Type 0 where
  pub approval_id : Option String
  pub tool_call_id : Option String
  pub awaiting_approval : Bool

pub record PhaseSummaryEntry : Type 0 where
  pub phase : RunPhase
  pub entered_at : String
  pub exited_at : Option String

pub data InterruptKind : Type 0 where
  approval_required operator_interrupt : InterruptKind

pub record InterruptHistoryEntry : Type 0 where
  pub kind : InterruptKind
  pub created_at : String
  pub resolved_at : Option String
  pub approval_id : Option String
  pub tool_call_id : Option String
  pub reason : Option String

pub record CompletionDecisionRecord : Type 0 where
  pub kind : String
  pub allowed : Bool
  pub retryable : Bool
  pub next_phase : Option RunPhase
  pub reason : String
  pub unmet_requirements : List String

-- `ToolFactEnvelopeV1`: the source is the execution records or the transcript.
pub data ToolFactSource : Type 0 where
  execution_records transcript : ToolFactSource

pub record ToolFactEnvelope : Type 0 where
  pub fact : ToolFact
  pub source : ToolFactSource
  pub phase : Option String
  pub checkpoint_phase : Option String

pub record RunCheckpoint : Type 0 where
  pub schema_version : String
  pub phase : RunPhase
  pub step_index : ℕ
  pub execution_tier : ExecutionTier
  pub terminal_boundary : Bool
  pub retry_state : RetryState
  pub tool_protocol_state : ToolProtocolState
  pub validation_state : ValidationState
  pub approval_state : ApprovalState
  pub active_plan_step_id : Option String
  pub last_tool_fact_envelopes : List ToolFactEnvelope

unfoldable pub run_phase_name : RunPhase → String
run_phase_name setup = "setup"
run_phase_name planning = "planning"
run_phase_name executing = "executing"
run_phase_name waiting_for_approval = "waiting_for_approval"
run_phase_name waiting_for_operator_input = "waiting_for_operator_input"
run_phase_name verifying_changes = "verifying_changes"
run_phase_name validating = "validating"
run_phase_name collecting_final_answer = "collecting_final_answer"
run_phase_name finalizing = "finalizing"
run_phase_name done = "done"
run_phase_name failed = "failed"
run_phase_name cancelled = "cancelled"

unfoldable pub interrupt_kind_name : InterruptKind → String
interrupt_kind_name approval_required = "approval_required"
interrupt_kind_name operator_interrupt = "operator_interrupt"

-- The Boolean test that `RunPhase` derives.
unfoldable pub phase_eq : RunPhase → RunPhase → Bool
phase_eq setup setup = true
phase_eq planning planning = true
phase_eq executing executing = true
phase_eq waiting_for_approval waiting_for_approval = true
phase_eq waiting_for_operator_input waiting_for_operator_input = true
phase_eq verifying_changes verifying_changes = true
phase_eq validating validating = true
phase_eq collecting_final_answer collecting_final_answer = true
phase_eq finalizing finalizing = true
phase_eq done done = true
phase_eq failed failed = true
phase_eq cancelled cancelled = true
phase_eq _ _ = false

pub record RuntimePhaseTransitionDecision : Type 0 where
  pub from_phase : RunPhase
  pub to_phase : RunPhase
  pub completion_reason : String

pub record ApprovalBoundaryTransitionDecision : Type 0 where
  pub from_phase : RunPhase
  pub to_phase : RunPhase
  pub interrupt_kind : InterruptKind
  pub completion_reason : String

abbrev pub approval_boundary_transition_decision : ApprovalBoundaryTransitionDecision
approval_boundary_transition_decision = record {
  from_phase = executing;
  to_phase = waiting_for_approval;
  interrupt_kind = approval_required;
  completion_reason = "run blocked pending operator approval";
}

abbrev pub operator_boundary_transition_decision : ApprovalBoundaryTransitionDecision
operator_boundary_transition_decision = record {
  from_phase = executing;
  to_phase = waiting_for_operator_input;
  interrupt_kind = operator_interrupt;
  completion_reason = "run interrupted by operator message";
}

abbrev pub required_validation_boundary_transition_decision : RuntimePhaseTransitionDecision
required_validation_boundary_transition_decision = record {
  from_phase = executing;
  to_phase = validating;
  completion_reason = "run blocked until required validation command is executed";
}

abbrev pub validation_resume_execution_transition_decision : RuntimePhaseTransitionDecision
validation_resume_execution_transition_decision = record {
  from_phase = validating;
  to_phase = executing;
  completion_reason = "validation phase handed control back to execution";
}

abbrev pub post_validation_final_answer_transition_decision : RuntimePhaseTransitionDecision
post_validation_final_answer_transition_decision = record {
  from_phase = validating;
  to_phase = collecting_final_answer;
  completion_reason = "validation succeeded and the runtime is collecting the final answer";
}

abbrev pub exact_final_answer_boundary_transition_decision : RuntimePhaseTransitionDecision
exact_final_answer_boundary_transition_decision = record {
  from_phase = executing;
  to_phase = collecting_final_answer;
  completion_reason = "task work is complete and the runtime is collecting the final answer";
}
