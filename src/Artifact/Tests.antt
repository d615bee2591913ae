-- ===== src/Artifact/Tests.antt =====
-- The ends of concrete runs.
use local_agent.Base.{
  ◌≡◌, refl, true, false, none, some, [], ◌∷◌, ◌||◌, last, to_ascii_lowercase, trim, and_then,
}
use mathlib.Core.Option
use local_agent.Json.{object, field, text, end, get_str, get, get_field}
use local_agent.Types.{ToolCall, Message, tool}
use local_agent.ToolFacts.{
  tool_call_alignment_is_consistent, facts_for_observed_tool, shell_command_text,
  normalized_path_from_call,
}
use local_agent.ToolFacts.Transcript.{
  tool_facts_from_transcript, facts_from_results, tool_result_has_error, tool_result_changed_flag,
}
use local_agent.ToolFacts.Guard.{required_validation_command_satisfied_from_facts}
use local_agent.RunPhase.{scoped_host_shell, waiting_for_approval}
use local_agent.Completion.Answer.{validate_by, freeform, required_validation_command}
use local_agent.Completion.Run.{AgentExitReason, exit_ok, exit_approval_required}
use local_agent.Completion.{collect_validation_facts_from_checkpoint}
use local_agent.RunPhase.Resume.{
  RuntimeRunCheckpointRecord, decide_runtime_checkpoint_resume, resumes, approval_granted,
  transition_runtime_checkpoint_to_executing,
}
use local_agent.Artifact.{
  final_approval, find_last, FinishedRun, ToolDecision, contract_command, facts_satisfy,
  runtime_state_checkpoint_for_outcome,
}
use local_agent.Artifact.History.{completion_decisions_for_outcome_with_prior, final_decision}
use local_agent.Artifact.Finalize.{
  FinalizeInput, recorded, finalize_run_artifacts, finalize_envelopes, artifact_of,
  tool_fact_envelopes_from_facts,
}
use local_agent.Artifact.Accepted.{is_recorded, finalize-recorded}
use local_agent.Artifact.Summary.{Settled}
use local_agent.Artifact.Resumed.{left_over, approval-resumes}

abbrev asked : ToolDecision
asked = record {
  step = 2;
  tool_call_id = "c1";
  decision = "require_approval";
  reason = none;
  approval_id = some "a1";
}

-- A call of the shell, and its result.
abbrev test_call : ToolCall
test_call = record {
  id = "c1";
  name = "shell";
  arguments = object (field "command" (text "Cargo test") end);
}

abbrev test_result : Message
test_result = record {
  role = tool;
  content = some "{}";
  tool_call_id = some "c1";
  tool_name = some "shell";
  tool_calls = none;
}

abbrev ended : AgentExitReason → FinishedRun
ended exit_reason = record {
  run_id = "r1";
  started_at = "t0";
  finished_at = "t1";
  outcome = record {
    exit_reason = exit_reason;
    final_output = "done";
    error = none;
    messages = test_result ∷ [];
    tool_calls = test_call ∷ [];
  };
  tool_decisions = asked ∷ [];
}

abbrev input : FinalizeInput
input = record {
  prompt = "mend it";
  resume_argv = [];
  validation_command_override = none;
  exact_final_answer_override = none;
  execution_tier = scoped_host_shell;
  task_contract = record {
    validation_requirement = validate_by "Cargo test";
    final_answer_mode = freeform;
  };
  prior = none;
  to_string = λ v. "{}";
  parse = λ s. some (object end);
}

finalize-recorded_example : is_recorded (finalize_run_artifacts (ended exit_ok) input) ≡ (
    false
    || facts_satisfy
        (contract_command (some input.task_contract) "mend it")
        (finalize_envelopes (ended exit_ok) input))
finalize-recorded_example = finalize-recorded (ended exit_ok) input tt

-- The run is recorded as one that ended well, and its last decision says that it did not.
satisfied_and_refused :
    let artifact = artifact_of (ended exit_ok) input in
    (artifact.final_checkpoint.validation_state.satisfied ≡ true)
    × (Option.map (λ d. d.allowed) (last artifact.completion_decisions) ≡ some false)
unfolding runtime_state_checkpoint_for_outcome required_validation_command to_ascii_lowercase
    required_validation_command_satisfied_from_facts tool_fact_envelopes_from_facts
    completion_decisions_for_outcome_with_prior final_decision
    collect_validation_facts_from_checkpoint tool_facts_from_transcript facts_from_results
    tool_result_has_error tool_result_changed_flag get_str get get_field
    tool_call_alignment_is_consistent facts_for_observed_tool shell_command_text trim
    normalized_path_from_call
satisfied_and_refused = (refl, refl)

abbrev stopped : FinishedRun
stopped = ended exit_approval_required

abbrev left : RuntimeRunCheckpointRecord
left = left_over stopped input tt refl

approval-resumes_example :
    (finalize_run_artifacts stopped input ≡ recorded (artifact_of stopped input) (some left))
    × (decide_runtime_checkpoint_resume left
        ≡ resumes (record {
          kind = approval_granted;
          phase = waiting_for_approval;
          approval_id = and_then (final_approval stopped) (λ d. d.approval_id);
        }))
    × Settled (some (transition_runtime_checkpoint_to_executing "t2" left))
approval-resumes_example = approval-resumes stopped input tt refl "t2"

right_approval : and_then (final_approval stopped) (λ d. d.approval_id) ≡ some "a1"
unfolding find_last
right_approval = refl
