-- ===== src/Completion/Checkpoint.antt =====
-- src/agent/phase_transitions.rs: how the checkpoint of a run follows a completion, the facts after
-- tools, and a verified write.
use local_agent.Base.{ℕ, ◌+◌, String, Bool, true, false, Option, none, some, List, map}
use local_agent.Types.{ToolCall}
use local_agent.ToolFacts.{ToolExecutionRecord, ToolFact, tool_facts_from_calls_and_executions}
use local_agent.ImplGuard.{prompt_required_validation_command}
use local_agent.RunPhase.{
  RunPhase, executing, validating, verifying_changes, collecting_final_answer, RunCheckpoint,
  ToolFactEnvelope, execution_records, run_phase_name, RuntimePhaseTransitionDecision,
  validation_resume_execution_transition_decision, post_validation_final_answer_transition_decision,
}
use local_agent.Completion.{
  ValidationFacts, collect_validation_facts, ValidationPhaseTransitionDecision, no_change,
  enter_repair, enter_final_answer_only, clear_repair, decide_validation_phase_transition,
}
use local_agent.Completion.Run.{AgentOutcome}
use local_agent.Completion.Action.{
  RuntimeCompletionAction, continue_step, continue_agent_step, continue_exact_final_answer,
  continue_required_validation, proceed_to_tools, finalize,
}

pub data PhaseLoopControl : Type 0 where
  proceed next_step next_agent_step : PhaseLoopControl

-- `Result<PhaseLoopControl, AgentOutcome>`.
pub data Control : Type 0 where
  goes_on : PhaseLoopControl → Control
  ends_with : AgentOutcome → Control

-- The two counters that every action sets.
abbrev pub with_counts : ℕ → ℕ → RunCheckpoint → RunCheckpoint
with_counts blocked deliveries c = record c {
  retry_state = record c.retry_state { blocked_runtime_completion_count = blocked };
  tool_protocol_state = record c.tool_protocol_state { operator_delivery_count = deliveries };
}

abbrev pub with_blocked : ℕ → RunCheckpoint → RunCheckpoint
with_blocked blocked c = record c {
  retry_state = record c.retry_state { blocked_runtime_completion_count = blocked };
}

abbrev pub to_exact_final_answer : RunCheckpoint → RunCheckpoint
to_exact_final_answer c = record c {
  retry_state = record c.retry_state {
    exact_final_answer_retry_count = c.retry_state.exact_final_answer_retry_count + 1;
  };
  phase = collecting_final_answer;
  validation_state = record c.validation_state { collecting_final_answer = true };
}

abbrev pub to_required_validation : RunCheckpoint → RunCheckpoint
to_required_validation c = record c {
  retry_state = record c.retry_state {
    required_validation_retry_count = c.retry_state.required_validation_retry_count + 1;
    blocked_validation_failure_repair_count = 0;
    blocked_post_validation_final_answer_count = 0;
  };
  phase = validating;
  validation_state = record c.validation_state { repair_mode = false; satisfied = false };
}

abbrev pub to_tools : RunCheckpoint → RunCheckpoint
to_tools c = record c {
  phase = executing;
  validation_state = record c.validation_state { repair_mode = false };
}

unfoldable pub apply_runtime_completion_action_to_checkpoint :
    RuntimeCompletionAction → RunCheckpoint → Control × RunCheckpoint
apply_runtime_completion_action_to_checkpoint (continue_step blocked) c =
    (goes_on next_step, with_blocked blocked c)
apply_runtime_completion_action_to_checkpoint (continue_agent_step blocked deliveries) c =
    (goes_on next_agent_step, with_counts blocked deliveries c)
apply_runtime_completion_action_to_checkpoint (continue_exact_final_answer blocked deliveries) c =
    (goes_on next_agent_step, to_exact_final_answer (with_counts blocked deliveries c))
apply_runtime_completion_action_to_checkpoint (continue_required_validation blocked deliveries) c =
    (goes_on next_agent_step, to_required_validation (with_counts blocked deliveries c))
apply_runtime_completion_action_to_checkpoint (proceed_to_tools blocked) c =
    (goes_on proceed, to_tools (with_blocked blocked c))
apply_runtime_completion_action_to_checkpoint (finalize outcome) c = (ends_with outcome, c)

pub data PostToolPhaseRefreshEffect : Type 0 where
  no_effect : PostToolPhaseRefreshEffect
  completion_blocked :
      (transition : RuntimePhaseTransitionDecision) (reason : String) → PostToolPhaseRefreshEffect

-- `tool_fact_envelopes_from_facts`, with the executions as the source.
unfoldable pub tool_fact_envelopes_from_tool_facts :
    List ToolFact → RunPhase → List ToolFactEnvelope
tool_fact_envelopes_from_tool_facts facts phase =
    map
      (λ fact. record {
        fact = fact;
        source = execution_records;
        phase = some (run_phase_name phase);
        checkpoint_phase = none;
      })
      facts

abbrev pub apply_validation_transition :
    ValidationPhaseTransitionDecision → RunCheckpoint → PostToolPhaseRefreshEffect × RunCheckpoint
apply_validation_transition enter_repair c = (
  completion_blocked validation_resume_execution_transition_decision
      "validation failed and runtime requires a code-fix repair step",
  record c {
    phase = executing;
    validation_state = record c.validation_state {
      repair_mode = true;
      collecting_final_answer = false;
    };
  },
)
apply_validation_transition enter_final_answer_only c = (
  completion_blocked post_validation_final_answer_transition_decision
      post_validation_final_answer_transition_decision.completion_reason,
  record c {
    phase = collecting_final_answer;
    validation_state = record c.validation_state {
      repair_mode = false;
      satisfied = true;
      collecting_final_answer = true;
    };
    retry_state = record c.retry_state { blocked_post_validation_final_answer_count = 0 };
  },
)
apply_validation_transition clear_repair c = (
  no_effect,
  record c {
    validation_state = record c.validation_state { repair_mode = false };
    retry_state = record c.retry_state { blocked_validation_failure_repair_count = 0 };
  },
)
apply_validation_transition no_change c = (no_effect, c)

-- The facts that the checkpoint is brought up to.
abbrev pub refreshed_facts :
    RunCheckpoint → List ToolCall → List ToolExecutionRecord → ValidationFacts
refreshed_facts c calls executions =
    let required = c.validation_state.required_command in
    collect_validation_facts required c.validation_state.exact_final_answer_required
      (tool_facts_from_calls_and_executions required calls executions)

unfoldable pub refresh_phase_state_from_tool_facts :
    RunCheckpoint
    → List ToolCall
    → List ToolExecutionRecord
    → Bool
    → PostToolPhaseRefreshEffect × RunCheckpoint
refresh_phase_state_from_tool_facts c calls executions successful_write =
    let facts = refreshed_facts c calls executions in
    apply_validation_transition (decide_validation_phase_transition facts successful_write)
      (record c {
        validation_state = record c.validation_state { satisfied = facts.satisfied };
        last_tool_fact_envelopes =
            tool_fact_envelopes_from_tool_facts
              (tool_facts_from_calls_and_executions c.validation_state.required_command calls
                executions)
              c.phase;
      })

pub data VerifiedWriteResult : Type 0 where
  write_done : AgentOutcome → VerifiedWriteResult
  guard_retry : (message : String) → VerifiedWriteResult
  start_final_answer_phase : (message : String) → VerifiedWriteResult
  start_required_validation_phase : (message : String) → VerifiedWriteResult

-- What the follow-on of a write sets in any case but a retry.
abbrev pub write_settled : RunPhase → RunCheckpoint → RunCheckpoint
write_settled phase c = record c {
  retry_state = record c.retry_state {
    post_write_guard_retry_count = 0;
    blocked_runtime_completion_count = 0;
  };
  phase = phase;
}

abbrev pub require_command : String → RunCheckpoint → RunCheckpoint
require_command user_prompt c = elim c.validation_state.required_command [
  | some command ↦ c
  | none ↦ record c {
    validation_state = record c.validation_state {
      required_command = prompt_required_validation_command user_prompt;
    };
  }
]

-- The control and the message of the developer that the source puts into one record.
unfoldable pub apply_verified_write_follow_on :
    String
    → RunCheckpoint
    → VerifiedWriteResult
    → Option (PhaseLoopControl × String) × RunCheckpoint
apply_verified_write_follow_on user_prompt c (guard_retry message) = (
  some (next_agent_step, message),
  record c {
    retry_state = record c.retry_state {
      post_write_guard_retry_count = c.retry_state.post_write_guard_retry_count + 1;
      blocked_runtime_completion_count = 0;
    };
    phase = verifying_changes;
  },
)
apply_verified_write_follow_on user_prompt c (start_final_answer_phase message) = (
  some (next_agent_step, message),
  record (write_settled collecting_final_answer c) {
    validation_state = record c.validation_state { collecting_final_answer = true };
  },
)
apply_verified_write_follow_on user_prompt c (start_required_validation_phase message) =
    (some (next_agent_step, message), require_command user_prompt (write_settled validating c))
apply_verified_write_follow_on user_prompt c (write_done outcome) = (none, c)
