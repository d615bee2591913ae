-- ===== src/Completion/Action.antt =====
-- What the completion of a turn takes and returns, and how it sends a turn back or ends the run:
-- the first two cases of `handle_runtime_completion_action` of src/agent/runtime_completion.rs.
use local_agent.Base.{
  ℕ, String, Bool, ◌&&◌, Option, none, some, List, [], ◌∷◌, str_eq, unwrap_or, u32_max,
  saturating_add, if◌then◌else◌,
}
use local_agent.Types.{ToolCall}
use local_agent.Completion.Run.{
  Event, error_event, step_blocked, Agent, Run, AgentOutcome, emit, developer_message, push_message,
  finalize_planner_error_with_end, plan_enforcement_active, pending_plan_step_text,
  pending_plan_step_corrective_message,
}

-- The arguments of a completion that it only reads.
pub record Turn : Type 0 where
  pub user_prompt : String
  pub last_user_output : Option String
  pub assistant_content : Option String
  pub active_plan_step_idx : ℕ
  pub enforce_implementation_integrity_guard : Bool
  pub blocked_runtime_completion_count : ℕ
  pub operator_delivery_count : ℕ
  pub tool_calls : List ToolCall
  pub exact_final_answer_retry_count : ℕ
  pub required_validation_retry_count : ℕ

pub data RuntimeCompletionAction : Type 0 where
  continue_step : (blocked : ℕ) → RuntimeCompletionAction
  continue_agent_step : (blocked deliveries : ℕ) → RuntimeCompletionAction
  continue_exact_final_answer : (blocked deliveries : ℕ) → RuntimeCompletionAction
  continue_required_validation : (blocked deliveries : ℕ) → RuntimeCompletionAction
  proceed_to_tools : (blocked : ℕ) → RuntimeCompletionAction
  finalize : AgentOutcome → RuntimeCompletionAction

abbrev pub Result : Type 0
Result = Option (RuntimeCompletionAction × Run)

abbrev pub finalized : AgentOutcome × Run → Result
finalized (outcome, run) = some (finalize outcome, run)

abbrev pub fail_with : Event → String → Turn → Run → Result
fail_with event reason turn run =
    finalized (finalize_planner_error_with_end reason turn.tool_calls (emit (event ∷ []) run))

abbrev pub next_blocked : Turn → ℕ
next_blocked turn = saturating_add u32_max turn.blocked_runtime_completion_count 1

-- The events and the message of a turn that is sent back.
abbrev pub send_back : String → String → String → List Event → Turn → Run → Run
send_back instruction source reason_code more turn run =
    push_message (developer_message instruction) (
      emit
        (error_event instruction source (some reason_code) none (some (next_blocked turn))
          ∷ step_blocked reason_code none (some (next_blocked turn))
          ∷ more)
        run)

abbrev pub plan_text : Agent → Turn → String → Option String → Option String
plan_text agent turn reason_code text =
    if str_eq reason_code "pending_plan_step" && plan_enforcement_active agent then text else none

abbrev pub source_of : Option String → String
source_of none = "runtime_completion_policy"
source_of (some text) = "plan_halt_guard"

unfoldable pub handle_continue : Agent → Turn → String → String → Run → Result
handle_continue agent turn reason_code instruction run =
    let pending =
      plan_text agent turn reason_code (pending_plan_step_text agent turn.active_plan_step_idx) in
    let corrective =
      plan_text agent turn reason_code
        (pending_plan_step_corrective_message agent turn.active_plan_step_idx) in
    let count = turn.blocked_runtime_completion_count in
    some (
      continue_step count,
      push_message (developer_message (unwrap_or corrective instruction)) (
          emit
            (error_event (unwrap_or pending instruction) (source_of pending) (some reason_code) none
                (some count)
              ∷ step_blocked reason_code none (some count)
              ∷ [])
            run),
    )
