-- ===== src/Completion/Run.antt =====
-- The state that the completion of a turn works on, and the operations that it is made of: the events
-- (`emit_event`, `emit_phase_transition` of src/agent.rs), the outcome (src/agent/run_finalize.rs), and
-- the texts of src/agent/run_setup.rs. An event leaves out the run's id and the step, which are the same in all.
use local_agent.Base.{
  ℕ, String, Bool, true, false, not, ◌&&◌, Option, none, some, List, [], ◌∷◌, ◌++◌, concat,
  contains, is_empty, unwrap_or, get_elem?, join, to_ascii_uppercase, if◌then◌else◌, any,
}
use mathlib.Core.Option
use mathlib.Core.List.{reverse}
use local_agent.Types.{developer, assistant, Message, ToolCall}
use local_agent.OperatorQueue.{PendingMessageQueue, QueueDelivery}
use local_agent.ToolFacts.{ToolExecutionRecord}
use local_agent.RunPhase.{RunPhase, InterruptKind, RuntimePhaseTransitionDecision}
use local_agent.Completion.{PlanToolEnforcementMode, is_off}
use local_agent.Completion.Answer.{ValidationRequirement, FinalAnswerMode}

pub data Event : Type 0 where
  error_event :
      (error source : String) (reason_code failure_class : Option String) (blocked_count : Option ℕ)
      → Event
  step_blocked : (reason : String) (source : Option String) (blocked_count : Option ℕ) → Event
  phase_exited : (phase next_phase : RunPhase) → Event
  phase_entered : (phase : RunPhase) → Event
  completion_blocked : (reason : String) (next_phase : RunPhase) → Event
  queue_delivered : (delivery : QueueDelivery) → Event
  queue_interrupt : (delivery : QueueDelivery) → Event
  interrupt_raised : (kind : InterruptKind) (reason : String) → Event
  post_write_verify_start : (path : String) (timeout_ms : ℕ) → Event
  post_write_verify_end : (path : String) (ok : Bool) (status : String) → Event
  run_end : (exit_reason : String) → Event

pub record PlanStepConstraint : Type 0 where
  pub step_id : String
  pub intended_tools : List String

-- What reading a file through the execution target ends in, within the timeout or not.
pub data Readback : Type 0 where
  timed_out : Readback
  was_read : (ok : Bool) (content : String) → Readback

-- What a turn does not change. The file system is the parameter `read_file`.
pub record Agent : Type 0 where
  pub plan_tool_enforcement : PlanToolEnforcementMode
  pub plan_step_constraints : List PlanStepConstraint
  pub validation_requirement : Option ValidationRequirement
  pub final_answer_mode : Option FinalAnswerMode
  pub post_write_verify_timeout_ms : ℕ
  pub read_file : String → Readback

pub record Run : Type 0 where
  pub operator_queue : PendingMessageQueue
  pub events : List Event
  pub messages : List Message
  pub tool_executions : List ToolExecutionRecord

pub data AgentExitReason : Type 0 where
  exit_ok exit_provider_error exit_planner_error exit_denied exit_approval_required :
      AgentExitReason
  exit_hook_aborted exit_max_steps exit_budget_exceeded exit_cancelled : AgentExitReason

-- The fields of `AgentOutcome` that a completion decides; the others are passed through.
pub record AgentOutcome : Type 0 where
  pub exit_reason : AgentExitReason
  pub final_output : String
  pub error : Option String
  pub messages : List Message
  pub tool_calls : List ToolCall

abbrev pub emit : List Event → Run → Run
emit new_events run = record run { events = run.events ++ new_events }

abbrev pub developer_message : String → Message
developer_message content = record {
  role = developer;
  content = some content;
  tool_call_id = none;
  tool_name = none;
  tool_calls = none;
}

abbrev pub push_message : Message → Run → Run
push_message message run = record run { messages = run.messages ++ message ∷ [] }

abbrev pub transition_events : RuntimePhaseTransitionDecision → List Event
transition_events transition =
    phase_exited transition.from_phase transition.to_phase
    ∷ phase_entered transition.to_phase
    ∷ completion_blocked transition.completion_reason transition.to_phase
    ∷ []

-- `finalize_ok_with_end`.
abbrev pub finalize_ok_with_end : String → List ToolCall → Run → AgentOutcome × Run
finalize_ok_with_end final_output tool_calls run = (
  record {
    exit_reason = exit_ok;
    final_output = final_output;
    error = none;
    messages = run.messages;
    tool_calls = tool_calls;
  },
  emit (run_end "ok" ∷ []) run,
)

abbrev pub is_assistant : Message → Bool
is_assistant m = elim m.role [ assistant ↦ true | _ ↦ false ]

-- The content of the first message of the assistant, in a list that is read from its end.
abbrev pub first_assistant_content : List Message → Option String
first_assistant_content [] = none
first_assistant_content (m ∷ ms) =
    let rest = first_assistant_content ms in if is_assistant m then m.content else rest

-- `finalize_planner_error_with_end`.
abbrev pub finalize_planner_error_with_end : String → List ToolCall → Run → AgentOutcome × Run
finalize_planner_error_with_end error tool_calls run = (
  record {
    exit_reason = exit_planner_error;
    final_output = unwrap_or (first_assistant_content (reverse run.messages)) "";
    error = some error;
    messages = run.messages;
    tool_calls = tool_calls;
  },
  emit (run_end "planner_error" ∷ []) run,
)

abbrev pub plan_enforcement_active : Agent → Bool
plan_enforcement_active agent =
    not (is_off agent.plan_tool_enforcement) && not (is_empty agent.plan_step_constraints)

abbrev pub allowed_tools_text : PlanStepConstraint → String
allowed_tools_text constraint =
    if is_empty constraint.intended_tools then "none" else join ", " constraint.intended_tools

unfoldable pub pending_plan_step_text : Agent → ℕ → Option String
pending_plan_step_text agent active_plan_step_idx =
    Option.map
      (λ (c : PlanStepConstraint). concat (
        "premature finalization blocked: plan step "
        ∷ c.step_id
        ∷ " still pending (allowed tools: "
        ∷ allowed_tools_text c
        ∷ ")"
        ∷ []))
      (get_elem? agent.plan_step_constraints active_plan_step_idx)

unfoldable pub pending_plan_step_corrective_message : Agent → ℕ → Option String
pending_plan_step_corrective_message agent active_plan_step_idx =
    Option.map
      (λ (c : PlanStepConstraint). concat (
        "Continue execution. Do not finalize yet. Complete pending step "
        ∷ c.step_id
        ∷ " using only intended tools ("
        ∷ allowed_tools_text c
        ∷ "), then return the next tool call."
        ∷ []))
      (get_elem? agent.plan_step_constraints active_plan_step_idx)

unfoldable pub final_output_for_completion : Agent → Option String → Option String → String
final_output_for_completion agent last_user_output assistant_content =
    if plan_enforcement_active agent
    then unwrap_or last_user_output ""
    else unwrap_or assistant_content ""

-- With `contains_tool_wrapper_markers` of src/agent_tool_exec.rs.
unfoldable pub assistant_content_has_protocol_artifacts : Option String → Bool
assistant_content_has_protocol_artifacts assistant_content =
    let upper = to_ascii_uppercase (unwrap_or assistant_content "") in
    any (contains upper) (
      "[TOOL_CALL]" ∷ "[END_TOOL_CALL]" ∷ "<|BEGIN_OF_BOX|>" ∷ "<|END_OF_BOX|>" ∷ "[TOOL_RESULT]"
      ∷ "[END_TOOL_RESULT]" ∷ [])
