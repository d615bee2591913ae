-- ===== src/Completion/Handler.antt =====
-- `handle_runtime_completion_action` of src/agent/runtime_completion.rs, over Action. It does not return where the
-- search for the required answer does not end, and `none` is that case.
use local_agent.Base.{
  ℕ, ◌+◌, String, Bool, true, false, not, ◌&&◌, ◌||◌, Option, none, some, List, [], ◌∷◌, ◌++◌, any,
  concat, contains, ltb, str_eq, take, unwrap_or, and_then, to_ascii_uppercase, if◌then◌else◌,
}
use mathlib.Core.List.{reverse}
use local_agent.OperatorQueue.{turn_idle}
use local_agent.ToolFacts.{ToolExecutionRecord, is_write_name, tool_facts_from_calls_and_executions}
use local_agent.ImplGuard.{
  implementation_integrity_violation_with_tool_executions, pending_post_write_verification_paths,
}
use local_agent.RunPhase.{
  required_validation_boundary_transition_decision, exact_final_answer_boundary_transition_decision,
}
use local_agent.Completion.{
  RuntimeCompletionDecision, execute_tools, continue_with, finalize_ok, finalize_error,
  collect_validation_facts, RequiredValidationCompletionDecision, validation_done, validate_first,
  not_validated, decide_required_validation_completion,
}
use local_agent.Completion.Answer.{
  required_validation_command, exact_final_answer_required,
  final_output_matches_required_exact_answer, recover_required_exact_final_answer,
}
use local_agent.Completion.Run.{
  Event, error_event, Agent, Run, transition_events, finalize_ok_with_end,
  final_output_for_completion, assistant_content_has_protocol_artifacts,
}
use local_agent.Completion.Boundary.{
  deliver_operator_queue_at_boundary, verified, not_verified, verify_post_write_path,
}
use local_agent.Completion.Action.{
  Result, Turn, continue_agent_step, continue_exact_final_answer, continue_required_validation,
  fail_with, finalized, handle_continue, next_blocked, proceed_to_tools, send_back,
}

unfoldable pub assistant_content_fabricates_tool_result : Option String → Bool
assistant_content_fabricates_tool_result assistant_content =
    let text = to_ascii_uppercase (unwrap_or assistant_content "") in
    contains text "[TOOL_RESULT]" || contains text "[END_TOOL_RESULT]"

abbrev pub first_read_path : List ToolExecutionRecord → Option String
first_read_path [] = none
first_read_path (e ∷ es) =
    let rest = first_read_path es in
    if e.ok && str_eq e.name "read_file"
    then elim e.path [ none ↦ rest | some p ↦ some p ]
    else rest

unfoldable pub last_successful_read_path : List ToolExecutionRecord → Option String
last_successful_read_path executions = first_read_path (reverse executions)

-- The instruction and its code, for an answer that echoes the protocol of tools.
abbrev pub artifact_instruction : Bool → Option String → String × String
artifact_instruction fabricated (some path) = (
  concat (
      "Do not simulate tool results. Emit exactly one real tool call now and no prose. You already read `"
      ∷ path ∷ "`. Use edit or apply_patch on that file." ∷ []),
  "assistant_fabricated_tool_result_after_read",
)
artifact_instruction true none = (
  "Do not simulate tool results. Emit exactly one real tool call now and no prose. If you already inspected the file, use edit or apply_patch on that file.",
  "assistant_fabricated_tool_result",
)
artifact_instruction false none = (
  "Your last message repeated tool protocol artifacts instead of a user-facing answer. Do not echo [TOOL_CALL] or [TOOL_RESULT] blocks. If the task is complete, reply with the final answer only.",
  "assistant_protocol_artifact_echo",
)

unfoldable pub send_back_artifact : Turn → Run → Result
send_back_artifact turn run =
    let fabricated = assistant_content_fabricates_tool_result turn.assistant_content in
    let recent =
      if fabricated && turn.enforce_implementation_integrity_guard
      then last_successful_read_path run.tool_executions
      else none in
    let (instruction, reason_code) = artifact_instruction fabricated recent in
    some (
      continue_agent_step (next_blocked turn) turn.operator_delivery_count,
      send_back instruction "tool_protocol_guard" reason_code [] turn run,
    )

abbrev pub push_execution : ToolExecutionRecord → Run → Run
push_execution record_ run = record run { tool_executions = run.tool_executions ++ record_ ∷ [] }

abbrev pub guard_error : String → Event
guard_error reason = error_event reason "implementation_integrity_guard" none none none

-- The loop over the paths that wait for a readback: the reason of the first that fails.
unfoldable pub verify_paths : Agent → List String → Run → Option String × Run
verify_paths agent [] run = (none, run)
verify_paths agent (path ∷ paths) run =
    let (result, run') = verify_post_write_path agent path run in
    elim result [
      | verified read_back ↦ verify_paths agent paths (push_execution read_back run')
      | not_verified reason ↦ (some reason, run')
    ]

abbrev pub verify_written : Agent → Turn → Run → Option String × Run
verify_written agent turn run =
    if turn.enforce_implementation_integrity_guard
    then verify_paths agent
        (take 10 (pending_post_write_verification_paths turn.tool_calls run.tool_executions)) run
    else (none, run)

abbrev pub saw_effective_write : List ToolExecutionRecord → Bool
saw_effective_write executions =
    any (λ (e : ToolExecutionRecord). e.ok && (is_write_name e.name && unwrap_or e.changed true))
      executions

abbrev pub is_retryable : String → Run → Bool
is_retryable reason run =
    not (saw_effective_write run.tool_executions) && contains reason "without an effective write"
    || contains reason "requires prior read_file"

abbrev pub write_instruction : String → String
write_instruction reason =
    if contains reason "requires prior read_file"
    then "You must read_file on a path before editing it. Use read_file to inspect the file contents first, then edit or apply_patch to make changes, then read_file again to verify."
    else "Implementation task requires at least one effective write tool call. Use read_file + edit/apply_patch (or write_file when creating a new file), then verify with read_file before finalizing."

unfoldable pub handle_violation : Turn → String → Run → Result
handle_violation turn reason run =
    if is_retryable reason run && ltb turn.blocked_runtime_completion_count 2
    then some (
      continue_agent_step (next_blocked turn) turn.operator_delivery_count,
      send_back (write_instruction reason) "implementation_integrity_guard"
          "implementation_requires_effective_write" [] turn run,
    )
    else fail_with (guard_error reason) reason turn run

abbrev pub exact_instruction : String
exact_instruction =
    "The task work is complete. Do not explain your steps. Reply now with the required final answer only, exactly matching the requested format. Do not call tools."

abbrev pub exact_reason : String
exact_reason = "model failed exact final-answer compliance after bounded retry"

-- The required answer is not there: once it is asked for, and then the run fails.
unfoldable pub ask_exact : Turn → Run → Result
ask_exact turn run =
    if ltb turn.exact_final_answer_retry_count 1
    then some (
      continue_exact_final_answer (next_blocked turn) turn.operator_delivery_count,
      send_back exact_instruction "runtime_exact_final_answer_guard" "exact_final_answer_required"
          (transition_events exact_final_answer_boundary_transition_decision) turn run,
    )
    else fail_with
        (error_event exact_reason "runtime_exact_final_answer_guard" none
          (some "E_RUNTIME_COMPLETION_EXACT_FINAL_OUTPUT") none)
        exact_reason turn run

abbrev pub finish_recovered : Turn → Run → Option String → Result
finish_recovered turn run (some recovered) =
    finalized (finalize_ok_with_end recovered turn.tool_calls run)
finish_recovered turn run none = ask_exact turn run

unfoldable pub finish_answer : ℕ → Agent → Turn → String → Run → Result
finish_answer fuel agent turn final_output run =
    if exact_final_answer_required agent.final_answer_mode turn.user_prompt
      && not (
          final_output_matches_required_exact_answer agent.final_answer_mode turn.user_prompt
            final_output)
    then and_then
        (recover_required_exact_final_answer fuel agent.final_answer_mode turn.user_prompt
          final_output)
        (finish_recovered turn run)
    else finalized (finalize_ok_with_end final_output turn.tool_calls run)

abbrev pub validation_decision : Agent → Turn → Run → RequiredValidationCompletionDecision
validation_decision agent turn run =
    let required = required_validation_command agent.validation_requirement turn.user_prompt in
    decide_required_validation_completion
      (collect_validation_facts required
        (exact_final_answer_required agent.final_answer_mode turn.user_prompt)
        (tool_facts_from_calls_and_executions required turn.tool_calls run.tool_executions))
      turn.required_validation_retry_count

unfoldable pub finish_validation :
    ℕ → Agent → Turn → String → Run → RequiredValidationCompletionDecision → Result
finish_validation fuel agent turn final_output run validation_done =
    finish_answer fuel agent turn final_output run
finish_validation fuel agent turn final_output run (validate_first instruction) = some (
  continue_required_validation (next_blocked turn) turn.operator_delivery_count,
  send_back instruction "runtime_required_validation_guard" "required_validation_before_final"
      (transition_events required_validation_boundary_transition_decision) turn run,
)
finish_validation fuel agent turn final_output run (not_validated reason) =
    fail_with
      (error_event reason "runtime_required_validation_guard" none
        (some "E_RUNTIME_COMPLETION_REQUIRED_VALIDATION") none)
      reason turn run

-- After the readbacks: the guard of an implementation, and then the validation.
unfoldable pub finish_guard : ℕ → Agent → Turn → String → Option String × Run → Result
finish_guard fuel agent turn final_output (some reason, run) =
    fail_with (guard_error reason) reason turn run
finish_guard fuel agent turn final_output (none, run) =
    elim (implementation_integrity_violation_with_tool_executions turn.user_prompt final_output
      turn.tool_calls run.tool_executions turn.enforce_implementation_integrity_guard) [
        | some reason ↦ handle_violation turn reason run
        | none ↦
            finish_validation fuel agent turn final_output run (validation_decision agent turn run)
      ]

unfoldable pub finish_ok : ℕ → Agent → Turn → Run → Result
finish_ok fuel agent turn run =
    if assistant_content_has_protocol_artifacts turn.assistant_content
    then send_back_artifact turn run
    else finish_guard fuel agent turn
        (final_output_for_completion agent turn.last_user_output turn.assistant_content)
        (verify_written agent turn run)

-- Queued messages of the operator come first, three times in a step at most.
unfoldable pub handle_finalize_ok : ℕ → Agent → Turn → Run → Result
handle_finalize_ok fuel agent turn run =
    if ltb turn.operator_delivery_count 3
    then (let (delivered, interrupted, run') = deliver_operator_queue_at_boundary turn_idle run in
        if interrupted || delivered
        then some (continue_agent_step 0 (turn.operator_delivery_count + 1), run')
        else finish_ok fuel agent turn run')
    else finish_ok fuel agent turn run

unfoldable pub handle_runtime_completion_action :
    ℕ → Agent → Turn → RuntimeCompletionDecision → Run → Result
handle_runtime_completion_action fuel agent turn (continue_with reason_code instruction) run =
    handle_continue agent turn reason_code instruction run
handle_runtime_completion_action fuel agent turn (finalize_error reason source failure_class) run =
    fail_with (error_event reason source none (some failure_class) none) reason turn run
handle_runtime_completion_action fuel agent turn finalize_ok run =
    handle_finalize_ok fuel agent turn run
handle_runtime_completion_action fuel agent turn execute_tools run = some (proceed_to_tools 0, run)
