-- ===== src/Completion/Phase.antt =====
-- `run_runtime_completion_phase` of src/agent.rs, which decides, completes and applies.
use local_agent.Base.{
  ℕ, String, Bool, Option, some, List, u32_max, saturating_add, length, and_then,
}
use local_agent.Types.{ToolCall}
use local_agent.RunPhase.{collecting_final_answer, RunCheckpoint, phase_eq}
use local_agent.Completion.{RuntimeCompletionInputs, runtime_completion_decision}
use local_agent.Completion.Run.{Agent, Run}
use local_agent.Completion.Handler.{handle_runtime_completion_action}
use local_agent.Completion.Action.{Turn}
use local_agent.Completion.Checkpoint.{Control, apply_runtime_completion_action_to_checkpoint}

-- What `run_runtime_completion_phase` takes from the turn of the model.
pub record Response : Type 0 where
  pub has_actionable_tool_calls : Bool
  pub content : Option String

pub record Observed : Type 0 where
  pub user_prompt : String
  pub last_user_output : Option String
  pub active_plan_step_idx : ℕ
  pub enforce_implementation_integrity_guard : Bool
  pub tool_calls : List ToolCall

abbrev pub completion_inputs : Agent → Observed → Response → RunCheckpoint → RuntimeCompletionInputs
completion_inputs agent observed response c = record {
  has_tool_calls = response.has_actionable_tool_calls;
  plan_tool_enforcement = agent.plan_tool_enforcement;
  active_plan_step_idx = observed.active_plan_step_idx;
  plan_step_constraints_len = length agent.plan_step_constraints;
  tool_only_phase_active = c.tool_protocol_state.tool_only_phase_active;
  exact_final_answer_only_phase_active = phase_eq c.phase collecting_final_answer;
  enforce_implementation_integrity_guard = observed.enforce_implementation_integrity_guard;
  observed_tool_calls_len = length observed.tool_calls;
  blocked_attempt_count_next =
      saturating_add u32_max c.retry_state.blocked_runtime_completion_count 1;
}

abbrev pub completion_turn : Observed → Response → RunCheckpoint → Turn
completion_turn observed response c = record {
  user_prompt = observed.user_prompt;
  last_user_output = observed.last_user_output;
  assistant_content = response.content;
  active_plan_step_idx = observed.active_plan_step_idx;
  enforce_implementation_integrity_guard = observed.enforce_implementation_integrity_guard;
  blocked_runtime_completion_count =
      saturating_add u32_max c.retry_state.blocked_runtime_completion_count 1;
  operator_delivery_count = c.tool_protocol_state.operator_delivery_count;
  tool_calls = observed.tool_calls;
  exact_final_answer_retry_count = c.retry_state.exact_final_answer_retry_count;
  required_validation_retry_count = c.retry_state.required_validation_retry_count;
}

-- The decision on a turn, what comes of it, and the checkpoint after it.
unfoldable pub run_runtime_completion_phase :
    ℕ → Agent → Observed → Response → RunCheckpoint → Run → Option (Control × RunCheckpoint × Run)
run_runtime_completion_phase fuel agent observed response c run =
    and_then
      (handle_runtime_completion_action fuel agent (completion_turn observed response c)
        (runtime_completion_decision (completion_inputs agent observed response c)) run)
      λ completed.
        let (control, next) = apply_runtime_completion_action_to_checkpoint completed.0 c in
        some (control, next, completed.1)
