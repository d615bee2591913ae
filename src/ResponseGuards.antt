-- ===== src/ResponseGuards.antt =====
-- src/agent/response_guards.rs, and the effects of its decisions on the messages
-- (src/agent/runtime_effects.rs): a turn of the model that breaks the protocol of the phase is sent
-- back, and the second in a row ends the run.
pub mod Bounded
mod Tests
use local_agent.Base.{
  ℕ, String, Bool, true, false, not, ◌&&◌, Option, none, some, List, [], ◌∷◌, ◌++◌, all, leb,
  unwrap_or, is_blank, str_eq, u32_max, saturating_add, if◌then◌else◌,
}
use local_agent.Types.{Message, ToolCall}
use local_agent.RunPhase.{
  RunCheckpoint, RunPhase, validating, executing, collecting_final_answer, phase_eq,
  RuntimePhaseTransitionDecision, validation_resume_execution_transition_decision,
}
use local_agent.Completion.Run.{developer_message}

pub data RequiredValidationPhaseDecision : Type 0 where
  phase_proceed : RequiredValidationPhaseDecision
  transition_to_executing : RequiredValidationPhaseDecision
  phase_continue :
      (developer_message : String) (blocked_count : ℕ) → RequiredValidationPhaseDecision
  phase_error : (reason : String) (blocked_count : ℕ) → RequiredValidationPhaseDecision

pub data PostResponseGuardDecision : Type 0 where
  guard_proceed : PostResponseGuardDecision
  guard_continue :
      (developer_message : String) (blocked_count : ℕ) (step_block_reason : String)
      → PostResponseGuardDecision
  guard_error :
      (reason : String) (blocked_count : ℕ) (step_block_reason failure_class error_source : String)
      → PostResponseGuardDecision

abbrev pub is_single_shell : List ToolCall → Bool
is_single_shell [] = false
is_single_shell (call ∷ []) = str_eq call.name "shell"
is_single_shell (call ∷ next ∷ calls) = false

abbrev pub has_prose : Option String → Bool
has_prose content = not (is_blank (unwrap_or content ""))

abbrev pub one_more : ℕ → ℕ
one_more n = saturating_add u32_max n 1

abbrev pub with_phase_count : ℕ → RunCheckpoint → RunCheckpoint
with_phase_count n c = record c {
  retry_state = record c.retry_state { blocked_required_validation_phase_count = n };
}

abbrev pub back_to_executing : RunCheckpoint → RunCheckpoint
back_to_executing c = record (with_phase_count 0 c) { phase = executing }

-- The turn does not run the validation.
abbrev pub refuse_validation_turn :
    String → RunCheckpoint → RequiredValidationPhaseDecision × RunCheckpoint
refuse_validation_turn message c =
    let n = one_more c.retry_state.blocked_required_validation_phase_count in
    (
      if leb 2 n
          then phase_error
              "MODEL_TOOL_PROTOCOL_VIOLATION: required validation phase requires exactly one shell tool call and no prose"
              n
          else phase_continue message n,
      with_phase_count n c,
    )

unfoldable pub decide_required_validation_phase_response :
    Bool
    → RunCheckpoint
    → Message
    → List ToolCall
    → String
    → RequiredValidationPhaseDecision × RunCheckpoint
decide_required_validation_phase_response shell_available c assistant tool_calls message =
    if not (phase_eq c.phase validating)
    then (phase_proceed, c)
    else if not shell_available
    then (phase_proceed, back_to_executing c)
    else if is_single_shell tool_calls && not (has_prose assistant.content)
    then (transition_to_executing, back_to_executing c)
    else refuse_validation_turn message c

abbrev pub error_or_continue :
    ℕ → PostResponseGuardDecision → PostResponseGuardDecision → PostResponseGuardDecision
error_or_continue n fail retry = if leb 2 n then fail else retry

-- A shell call again, where the code has to be changed first.
abbrev pub refuse_unrepaired : RunCheckpoint → PostResponseGuardDecision × RunCheckpoint
refuse_unrepaired c =
    let n = one_more c.retry_state.blocked_validation_failure_repair_count in
    (
      error_or_continue n
          (guard_error
            "MODEL_TOOL_PROTOCOL_VIOLATION: validation is still failing; inspect and change code before retrying shell"
            n "validation_failure_requires_code_fix" "E_PROTOCOL_VALIDATION_RETRY_WITHOUT_FIX"
            "runtime_required_validation_guard")
          (guard_continue
            "Validation is still failing. Do not rerun shell yet. Use read_file or grep to inspect the code, make a real code change with edit/apply_patch, then rerun the validation command."
            n "validation_failure_requires_code_fix"),
      record c {
        retry_state = record c.retry_state { blocked_validation_failure_repair_count = n };
      },
    )

-- A call of a tool, where only the final answer is due.
abbrev pub refuse_after_validation :
    String → RunCheckpoint → PostResponseGuardDecision × RunCheckpoint
refuse_after_validation message c =
    let n = one_more c.retry_state.blocked_post_validation_final_answer_count in
    (
      error_or_continue n
          (guard_error
            "MODEL_TOOL_PROTOCOL_VIOLATION: validation already succeeded; reply with final answer only"
            n "post_validation_final_answer_only" "E_PROTOCOL_POST_VALIDATION_TOOL_CALL"
            "runtime_required_validation_guard")
          (guard_continue message n "post_validation_final_answer_only"),
      record c {
        retry_state = record c.retry_state { blocked_post_validation_final_answer_count = n };
      },
    )

-- Prose, where only tools are due.
abbrev pub refuse_prose : String → RunCheckpoint → PostResponseGuardDecision × RunCheckpoint
refuse_prose message c =
    let n = one_more c.tool_protocol_state.blocked_tool_only_count in
    (
      error_or_continue n
          (guard_error "MODEL_TOOL_PROTOCOL_VIOLATION: repeated prose output during tool-only phase"
            n "tool_only_violation" "E_PROTOCOL_TOOL_ONLY" "tool_protocol_guard")
          (guard_continue message n "tool_only_violation"),
      record c {
        tool_protocol_state = record c.tool_protocol_state { blocked_tool_only_count = n };
      },
    )

abbrev pub is_shell_call : ToolCall → Bool
is_shell_call call = str_eq call.name "shell"

unfoldable pub decide_post_response_phase_guard :
    RunCheckpoint
    → Message
    → Bool
    → Bool
    → List ToolCall
    → String
    → String
    → PostResponseGuardDecision × RunCheckpoint
decide_post_response_phase_guard c assistant has_calls model_signaled_finalize tool_calls
      final_message tool_message =
    if c.validation_state.repair_mode && (has_calls && all is_shell_call tool_calls)
    then refuse_unrepaired c
    else if phase_eq c.phase collecting_final_answer && (c.validation_state.satisfied && has_calls)
    then refuse_after_validation final_message c
    else if c.tool_protocol_state.tool_only_phase_active
        && (model_signaled_finalize && has_prose assistant.content)
    then refuse_prose tool_message c
    else (guard_proceed, c)

-- `GuardEffect` of src/agent/runtime_effects.rs.
pub data GuardEffect : Type 0 where
  effect_proceed : GuardEffect
  effect_continue_step : (reason : String) (blocked_count : ℕ) → GuardEffect
  effect_continue_agent_step : (reason : String) (blocked_count : ℕ) → GuardEffect
  effect_error :
      (reason step_reason : String) (blocked_count : ℕ) (failure_class error_source : String)
      → GuardEffect
  effect_transition : RuntimePhaseTransitionDecision → GuardEffect

abbrev pub append_assistant_and_developer : Message → String → List Message → List Message
append_assistant_and_developer assistant message messages =
    messages ++ assistant ∷ developer_message message ∷ []

unfoldable pub apply_required_validation_guard_decision :
    RequiredValidationPhaseDecision → Message → List Message → GuardEffect × List Message
apply_required_validation_guard_decision phase_proceed assistant messages =
    (effect_proceed, messages)
apply_required_validation_guard_decision transition_to_executing assistant messages =
    (effect_transition validation_resume_execution_transition_decision, messages)
apply_required_validation_guard_decision (phase_continue message n) assistant messages = (
  effect_continue_step "required_validation_phase_requires_shell" n,
  append_assistant_and_developer assistant message messages,
)
apply_required_validation_guard_decision (phase_error reason n) assistant messages = (
  effect_error reason "required_validation_phase_requires_shell" n
      "E_PROTOCOL_REQUIRED_VALIDATION_PHASE" "runtime_required_validation_guard",
  messages,
)

unfoldable pub apply_post_response_guard_decision :
    PostResponseGuardDecision → Message → List Message → GuardEffect × List Message
apply_post_response_guard_decision guard_proceed assistant messages = (effect_proceed, messages)
apply_post_response_guard_decision (guard_continue message n reason) assistant messages =
    (effect_continue_agent_step reason n, append_assistant_and_developer assistant message messages)
apply_post_response_guard_decision (guard_error reason n step_reason failure_class source) assistant
      messages =
    (effect_error reason step_reason n failure_class source, messages)
