-- ===== src/Completion.antt =====
-- src/agent/completion_policy.rs and the decision of src/agent/runtime_completion.rs: when a run that
-- stops calling tools may end, and what it has to do first.
pub mod Answer
pub mod Recover
pub mod Run
pub mod Boundary
pub mod Handler
pub mod Action
pub mod EndsOk
pub mod Answered
pub mod Checkpoint
pub mod Phase
pub mod Retries
pub mod Refresh
pub mod Capital
pub mod Terminates
pub mod Written
pub mod GoesOn
mod Tests
use local_agent.Base.{
  ℕ, String, Bool, true, false, not, ◌&&◌, ◌||◌, Option, none, some, List, [], ◌∷◌, map, any, ltb,
  leb, ◌==◌, concat, is_some, unwrap_or, if◌then◌else◌,
}
use local_agent.ToolFacts.{ToolFact}
use local_agent.ToolFacts.Guard.{
  validates, required_validation_command_satisfied_from_facts,
  required_validation_failure_needs_repair_from_facts,
}
use local_agent.RunPhase.{RunCheckpoint, ToolFactEnvelope}

pub data PlanToolEnforcementMode : Type 0 where
  off soft hard : PlanToolEnforcementMode

abbrev pub is_off : PlanToolEnforcementMode → Bool
is_off off = true
is_off soft = false
is_off hard = false

pub record RuntimeCompletionInputs : Type 0 where
  pub has_tool_calls : Bool
  pub plan_tool_enforcement : PlanToolEnforcementMode
  pub active_plan_step_idx : ℕ
  pub plan_step_constraints_len : ℕ
  pub tool_only_phase_active : Bool
  pub exact_final_answer_only_phase_active : Bool
  pub enforce_implementation_integrity_guard : Bool
  pub observed_tool_calls_len : ℕ
  pub blocked_attempt_count_next : ℕ

pub data RuntimeCompletionDecision : Type 0 where
  execute_tools : RuntimeCompletionDecision
  continue_with : (reason_code corrective_instruction : String) → RuntimeCompletionDecision
  finalize_ok : RuntimeCompletionDecision
  finalize_error : (reason source failure_class : String) → RuntimeCompletionDecision

abbrev pub block_or_fail :
    RuntimeCompletionInputs
    → RuntimeCompletionDecision
    → RuntimeCompletionDecision
    → RuntimeCompletionDecision
block_or_fail inputs fail block = if leb 2 inputs.blocked_attempt_count_next then fail else block

unfoldable pub runtime_completion_decision : RuntimeCompletionInputs → RuntimeCompletionDecision
runtime_completion_decision inputs =
    if inputs.exact_final_answer_only_phase_active && inputs.has_tool_calls
    then finalize_error "exact final-answer retry does not allow additional tool calls"
        "runtime_exact_final_answer_guard" "E_RUNTIME_COMPLETION_EXACT_FINAL_TOOL_CALL"
    else if inputs.has_tool_calls
    then execute_tools
    else if not (is_off inputs.plan_tool_enforcement)
        && (ltb 0 inputs.plan_step_constraints_len
            && ltb inputs.active_plan_step_idx inputs.plan_step_constraints_len)
    then block_or_fail inputs
        (finalize_error
          "model repeatedly attempted to halt before completing required planner steps"
          "runtime_completion_policy" "E_RUNTIME_COMPLETION_PENDING_PLAN")
        (continue_with "pending_plan_step"
          "Continue execution. Do not finalize yet. Complete the pending planner step and return the next tool call.")
    else if inputs.tool_only_phase_active
    then block_or_fail inputs
        (finalize_error
          "model repeatedly attempted to finalize during tool-only phase without a tool call"
          "runtime_completion_policy" "E_RUNTIME_COMPLETION_TOOL_ONLY")
        (continue_with "tool_only_requires_tool_call"
          "Tool-only phase active. Return exactly one valid tool call and no prose.")
    else if inputs.enforce_implementation_integrity_guard && inputs.observed_tool_calls_len == 0
    then block_or_fail inputs
        (finalize_error "implementation guard: file-edit task finalized without any tool calls"
          "implementation_integrity_guard" "E_RUNTIME_COMPLETION_IMPLEMENTATION_NO_TOOLS")
        (continue_with "implementation_requires_tool_calls"
          "Implementation task requires concrete tool-backed changes. Read/edit files with tools and then continue.")
    else finalize_ok

pub record ValidationFacts : Type 0 where
  pub required_command : Option String
  pub satisfied : Bool
  pub repair_needed : Bool
  pub exact_final_answer_required : Bool

unfoldable pub collect_validation_facts : Option String → Bool → List ToolFact → ValidationFacts
collect_validation_facts required exact facts = record {
  required_command = required;
  satisfied = required_validation_command_satisfied_from_facts required facts;
  repair_needed = required_validation_failure_needs_repair_from_facts required facts;
  exact_final_answer_required = exact;
}

-- Here the required command is not brought into lower case.
unfoldable pub collect_validation_facts_from_checkpoint :
    RunCheckpoint → List ToolFactEnvelope → ValidationFacts
collect_validation_facts_from_checkpoint checkpoint envelopes =
    let facts = map (λ (envelope : ToolFactEnvelope). envelope.fact) envelopes in
    let required = checkpoint.validation_state.required_command in
    record {
      required_command = required;
      satisfied = elim required [ none ↦ true | some r ↦ any (validates r true) facts ];
      repair_needed = elim required [ none ↦ false | some r ↦ any (validates r false) facts ];
      exact_final_answer_required = checkpoint.validation_state.exact_final_answer_required;
    }

-- The text of `required_validation_phase_message` and of `required_validation_before_final_message`.
abbrev pub validation_message : String → String
validation_message required_command = concat (
    "Validation required now. Return exactly one shell tool call and no prose. Run `"
    ∷ required_command ∷ "`. Example arguments: {\"command\":\"" ∷ required_command
    ∷ "\"}. After it succeeds, reply with the final answer only." ∷ [])

pub data RequiredValidationCompletionDecision : Type 0 where
  validation_done : RequiredValidationCompletionDecision
  validate_first : (instruction : String) → RequiredValidationCompletionDecision
  not_validated : (reason : String) → RequiredValidationCompletionDecision

unfoldable pub decide_required_validation_completion :
    ValidationFacts → ℕ → RequiredValidationCompletionDecision
decide_required_validation_completion facts required_validation_retry_count =
    elim facts.required_command [
      | none ↦ validation_done
      | some required_command ↦
          if facts.satisfied
          then validation_done
          else if ltb required_validation_retry_count 1
          then validate_first (validation_message required_command)
          else not_validated
              "required validation command was not executed successfully before final answer"
    ]

pub data ValidationPhaseTransitionDecision : Type 0 where
  no_change enter_repair enter_final_answer_only clear_repair : ValidationPhaseTransitionDecision

unfoldable pub decide_validation_phase_transition :
    ValidationFacts → Bool → ValidationPhaseTransitionDecision
decide_validation_phase_transition facts successful_write_tool_ok_this_step =
    if facts.repair_needed
    then enter_repair
    else if is_some facts.required_command && (facts.exact_final_answer_required && facts.satisfied)
    then enter_final_answer_only
    else if successful_write_tool_ok_this_step
    then clear_repair
    else no_change

pub data VerifiedWriteCompletionDecision : Type 0 where
  finalize_now : VerifiedWriteCompletionDecision
  start_final_answer : (message : String) → VerifiedWriteCompletionDecision
  start_required_validation : (message : String) → VerifiedWriteCompletionDecision

-- The paths and the count of turns are arguments of the source that it does not read.
unfoldable pub decide_verified_write_completion :
    Option String → Bool → Bool → VerifiedWriteCompletionDecision
decide_verified_write_completion required exact has_closeout =
    if is_some required && not has_closeout
    then start_required_validation
        (validation_message (unwrap_or required "the required validation command"))
    else if not has_closeout
    then start_final_answer (
        if exact
        then "Task work is complete. Do not call more tools. Reply now with the required final answer only, exactly matching the requested format."
        else "Task work is complete. Do not call more tools. Reply now with the final answer only.")
    else finalize_now
