-- ===== src/Completion/Tests.antt =====
-- Completions of a concrete turn: a file was read, edited and validated, and the model answers.
use local_agent.Base.{
  String, trim, ◌≡◌, refl, Bool, true, false, Option, none, some, List, [], ◌∷◌, ◌++◌, arith,
  to_ascii_lowercase, to_ascii_uppercase, set_insert, set_remove,
}
use local_agent.Json.{object, field, end, text}
use local_agent.Types.{ToolCall, Message, tool}
use package.text.Mathlib.Text.{find?}
use local_agent.OperatorQueue
use local_agent.RunPhase.{
  RunCheckpoint, ToolFactEnvelope, execution_records, scoped_host_shell, phase_eq,
  required_validation_boundary_transition_decision,
}
use local_agent.RunPhase.Initial.{start_checkpoint}
use local_agent.Completion.Written.{finalize_verified_write_step_or_error}
use local_agent.Completion.GoesOn.{GoesOn, step-GoesOn}
use local_agent.Completion.Capital.{from_checkpoint-capital}
use local_agent.Completion.Retries.{RetriesBounded, run_runtime_completion_phase-RetriesBounded}
use local_agent.Completion.Refresh.{Refreshed, refresh-Refreshed}
use local_agent.Completion.Checkpoint.{
  Control, goes_on, next_agent_step, to_required_validation, with_counts,
  apply_runtime_completion_action_to_checkpoint, refresh_phase_state_from_tool_facts,
  tool_fact_envelopes_from_tool_facts,
}
use local_agent.Completion.Phase.{Observed, Response, completion_turn, run_runtime_completion_phase}
use local_agent.ToolFacts.{
  ToolExecutionRecord, sequence, is_effective_write, tool_facts_from_calls_and_executions,
  facts_from, facts_for_rest, facts_for_call, facts_for_runtime_execution, facts_for_observed_tool,
  shell_command_text, normalized_path_from_execution_or_call, normalized_path_from_call,
  tool_call_alignment_is_consistent, validation,
}
use local_agent.ToolPath.{normalize_tool_path}
use local_agent.ToolFacts.Guard.{
  required_validation_command_satisfied_from_facts,
  required_validation_failure_needs_repair_from_facts,
  pending_post_write_verification_paths_from_facts, pending_from, pending_after,
  implementation_integrity_violation_from_facts, output_has_placeholder_artifacts,
  read_before_edit_violation_from_facts, edit_violation_from, sort_by_sequence, insert_fact,
  repair_from, repair_after,
}
use local_agent.ImplGuard.{
  pending_post_write_verification_paths, implementation_integrity_violation_with_tool_executions,
  prompt_required_validation_command,
}
use local_agent.Completion.{
  off, finalize_ok, decide_required_validation_completion, collect_validation_facts,
  collect_validation_facts_from_checkpoint, decide_validation_phase_transition,
  runtime_completion_decision, validation_message,
}
use local_agent.Completion.Answer.{
  validate_by, exactly, recover_text, exact_final_answer_required, exact_final_answer_required_text,
  final_output_matches_required_exact_answer, matches_text, required_validation_command,
}
use local_agent.Completion.Run.{
  Agent, Run, AgentOutcome, exit_ok, was_read, post_write_verify_start, post_write_verify_end,
  run_end, assistant_content_has_protocol_artifacts, final_output_for_completion, transition_events,
}
use local_agent.Completion.Boundary.{readback_record, verify_post_write_path}
use local_agent.Completion.Handler.{
  finish_validation, finish_answer, handle_runtime_completion_action, handle_finalize_ok, finish_ok,
  finish_guard, verify_paths,
}
use local_agent.Completion.Action.{Turn, send_back}
use local_agent.Completion.EndsOk.{EndedOk, handle-EndedOk}
use local_agent.Completion.Answered.{success}
use local_agent.Completion.Terminates.{Acts, handle-Acts}
use local_agent.Completion.Recover.{recover_text-diverges}

abbrev agent : Agent
agent = record {
  plan_tool_enforcement = off;
  plan_step_constraints = [];
  validation_requirement = some (validate_by "cargo test");
  final_answer_mode = some (exactly "done");
  post_write_verify_timeout_ms = 0;
  read_file = λ path. was_read true "fn main() {}";
}

abbrev call_on : String → String → String → ToolCall
call_on id name path = record {
  id = id;
  name = name;
  arguments = object (field "path" (text path) end);
}

abbrev validation_call : ToolCall
validation_call = record {
  id = "c3";
  name = "shell";
  arguments = object (field "command" (text "cargo test --all") end);
}

abbrev turn : Turn
turn = record {
  user_prompt = "mend it";
  last_user_output = none;
  assistant_content = some "done";
  active_plan_step_idx = 0;
  enforce_implementation_integrity_guard = true;
  blocked_runtime_completion_count = 1;
  operator_delivery_count = 3;
  tool_calls = call_on "c1" "read_file" "a.rs" ∷ call_on "c2" "edit" "a.rs" ∷ validation_call ∷ [];
  exact_final_answer_retry_count = 0;
  required_validation_retry_count = 0;
}

abbrev executed : String → Option String → Option Bool → ToolExecutionRecord
executed name path changed = record { name = name; path = path; ok = true; changed = changed }

abbrev run : Run
run = record {
  operator_queue = OperatorQueue.new;
  events = [];
  messages = [];
  tool_executions =
      executed "read_file" (some "a.rs") none
      ∷ executed "edit" (some "a.rs") (some true)
      ∷ executed "shell" none none
      ∷ [];
}

abbrev outcome : AgentOutcome
outcome = record {
  exit_reason = exit_ok;
  final_output = "done";
  error = none;
  messages = [];
  tool_calls = turn.tool_calls;
}

abbrev after : Run
after = record run {
  events =
      post_write_verify_start "a.rs" 5000
      ∷ post_write_verify_end "a.rs" true "ok"
      ∷ run_end "ok"
      ∷ [];
  tool_executions = run.tool_executions ++ readback_record "a.rs" ∷ [];
}

ends :
    success (handle_runtime_completion_action 10 agent turn finalize_ok run) ≡ some (outcome, after)
unfolding handle_runtime_completion_action handle_finalize_ok finish_ok
    assistant_content_has_protocol_artifacts final_output_for_completion finish_guard verify_paths
    verify_post_write_path pending_post_write_verification_paths
    implementation_integrity_violation_with_tool_executions finish_validation finish_answer
    exact_final_answer_required exact_final_answer_required_text
    final_output_matches_required_exact_answer matches_text required_validation_command
    decide_required_validation_completion collect_validation_facts
    required_validation_command_satisfied_from_facts
    required_validation_failure_needs_repair_from_facts
    pending_post_write_verification_paths_from_facts pending_from pending_after
    implementation_integrity_violation_from_facts output_has_placeholder_artifacts
    read_before_edit_violation_from_facts edit_violation_from sort_by_sequence insert_fact sequence
    is_effective_write repair_from repair_after tool_facts_from_calls_and_executions facts_from
    facts_for_rest facts_for_call facts_for_runtime_execution facts_for_observed_tool
    shell_command_text normalized_path_from_execution_or_call normalized_path_from_call
    tool_call_alignment_is_consistent normalize_tool_path to_ascii_lowercase to_ascii_uppercase
    prompt_required_validation_command trim set_insert set_remove
ends = refl

-- Where the operator has nothing to say, the turn ends the run.
handle-EndedOk_example : (finalize_ok ≡ finalize_ok) × EndedOk agent turn outcome after
handle-EndedOk_example = handle-EndedOk 10 agent turn outcome after finalize_ok run ends

handle-Acts_example : Acts (handle_runtime_completion_action 10 agent turn finalize_ok run)
handle-Acts_example =
    handle-Acts 10 agent turn (unfold trim final_output_for_completion in (omega arith))
      (unfold trim exact_final_answer_required_text in refl) finalize_ok run

no_fence : find? (trim "done") "```" ≡ none
unfolding trim
no_fence = refl

recover_text-diverges_example : recover_text 1000 " " "done" ≡ none
recover_text-diverges_example =
    recover_text-diverges 1000 " " "done" (unfold trim in refl) (unfold trim in refl) no_fence

abbrev checkpoint : RunCheckpoint
checkpoint = start_checkpoint scoped_host_shell false (some "Cargo test") false

abbrev validated : List ToolFactEnvelope
validated =
    record {
      fact = validation 0 "c1" "Cargo test" true;
      source = execution_records;
      phase = none;
      checkpoint_phase = none;
    }
    ∷ []

-- The same facts satisfy the requirement of the facts' own test.
from_facts :
    required_validation_command_satisfied_from_facts
      (some "Cargo test")
      (validation 0 "c1" "Cargo test" true ∷ [])
    ≡ true
unfolding required_validation_command_satisfied_from_facts to_ascii_lowercase
from_facts = refl

from_checkpoint-capital_example :
    ((collect_validation_facts_from_checkpoint checkpoint validated).satisfied ≡ false)
    × ((collect_validation_facts_from_checkpoint checkpoint validated).repair_needed ≡ false)
from_checkpoint-capital_example =
    from_checkpoint-capital checkpoint "Cargo test" validated refl refl

-- The model answers without a validation: it is asked for one, once.
abbrev waiting : RunCheckpoint
waiting = record checkpoint {
  tool_protocol_state = record checkpoint.tool_protocol_state { operator_delivery_count = 3 };
}

abbrev observed : Observed
observed = record {
  user_prompt = "mend it";
  last_user_output = none;
  active_plan_step_idx = 0;
  enforce_implementation_integrity_guard = false;
  tool_calls = [];
}

abbrev answer : Response
answer = record { has_actionable_tool_calls = false; content = some "done" }

abbrev asked : Control × RunCheckpoint × Run
asked = (
  goes_on next_agent_step,
  to_required_validation (with_counts 2 3 waiting),
  send_back (validation_message "cargo test") "runtime_required_validation_guard"
      "required_validation_before_final"
      (transition_events required_validation_boundary_transition_decision)
      (completion_turn observed answer waiting) run,
)

asks : run_runtime_completion_phase 10 agent observed answer waiting run ≡ some asked
unfolding run_runtime_completion_phase runtime_completion_decision phase_eq
    apply_runtime_completion_action_to_checkpoint handle_runtime_completion_action
    handle_finalize_ok finish_ok assistant_content_has_protocol_artifacts
    final_output_for_completion finish_guard implementation_integrity_violation_with_tool_executions
    finish_validation required_validation_command decide_required_validation_completion
    collect_validation_facts required_validation_command_satisfied_from_facts
    tool_facts_from_calls_and_executions facts_from implementation_integrity_violation_from_facts
    to_ascii_uppercase to_ascii_lowercase facts_for_rest facts_for_runtime_execution
    facts_for_observed_tool normalize_tool_path
asks = refl

run_runtime_completion_phase-RetriesBounded_example : RetriesBounded asked.1
run_runtime_completion_phase-RetriesBounded_example =
    run_runtime_completion_phase-RetriesBounded 10 agent observed answer waiting run asked
      (record { validation_retries = omega arith; exact_retries = omega arith }) asks

-- The validation has failed.
abbrev failed_run : List ToolExecutionRecord
failed_run = record { name = "shell"; path = none; ok = false; changed = none } ∷ []

refresh-Refreshed_example :
    Refreshed "Cargo test"
      (tool_facts_from_calls_and_executions (some "Cargo test") (validation_call ∷ []) failed_run)
      (refresh_phase_state_from_tool_facts checkpoint (validation_call ∷ []) failed_run false).1
refresh-Refreshed_example =
    refresh-Refreshed "Cargo test" checkpoint (validation_call ∷ []) failed_run false refl refl

mends :
    (refresh_phase_state_from_tool_facts checkpoint
      (validation_call ∷ [])
      failed_run
      false).1.validation_state.repair_mode
    ≡ true
unfolding refresh_phase_state_from_tool_facts decide_validation_phase_transition
    collect_validation_facts required_validation_failure_needs_repair_from_facts repair_from
    repair_after sort_by_sequence insert_fact sequence tool_facts_from_calls_and_executions
    facts_from facts_for_rest facts_for_call facts_for_observed_tool shell_command_text
    normalized_path_from_execution_or_call normalized_path_from_call
    tool_call_alignment_is_consistent to_ascii_lowercase trim
    required_validation_command_satisfied_from_facts tool_fact_envelopes_from_tool_facts
mends = refl

abbrev read_result : Message
read_result = record {
  role = tool;
  content = some "ok";
  tool_call_id = some "c2";
  tool_name = some "edit";
  tool_calls = none;
}

abbrev written_run : Run
written_run = record run { messages = read_result ∷ [] }

-- The step has edited: the validation is asked for.
step-GoesOn_example :
    GoesOn
      (required_validation_command agent.validation_requirement turn.user_prompt)
      (finalize_verified_write_step_or_error agent turn 0 written_run).0
step-GoesOn_example = step-GoesOn agent turn 0 [] read_result refl written_run refl
