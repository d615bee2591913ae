-- ===== src/Completion/EndsOk.antt =====
-- What a run has done that a completion ends as a success.
use local_agent.Base.{
  ℕ, String, ◌≡◌, refl, Bool, true, false, ◌||◌, Option, none, some, List, arith, inl, inr,
  Bool-cases, Option-cases, ltb,
}
use local_agent.OperatorQueue.{turn_idle}
use local_agent.Types.{ToolCall}
use local_agent.ToolFacts.{ToolFact, ToolExecutionRecord, tool_facts_from_calls_and_executions}
use local_agent.ToolFacts.Guard.{required_validation_command_satisfied_from_facts}
use local_agent.ToolFacts.Guarded.{Guarded, violation-none_iff}
use local_agent.ImplGuard.{
  prompt_required_validation_command, implementation_integrity_violation_with_tool_executions,
}
use local_agent.Completion.{
  RuntimeCompletionDecision, execute_tools, continue_with, finalize_ok, finalize_error,
  collect_validation_facts, RequiredValidationCompletionDecision, validation_done, validate_first,
  not_validated, decide_required_validation_completion,
}
use local_agent.Completion.Answer.{
  required_validation_command, exact_final_answer_required_text, exact_final_answer_required,
}
use local_agent.Completion.Run.{
  Agent, Run, AgentOutcome, final_output_for_completion, assistant_content_has_protocol_artifacts,
}
use local_agent.Completion.Boundary.{deliver_operator_queue_at_boundary}
use local_agent.Completion.Handler.{
  send_back_artifact, verify_written, handle_violation, validation_decision, finish_validation,
  finish_guard, finish_ok, handle_finalize_ok, handle_runtime_completion_action,
}
use local_agent.Completion.Action.{Turn, handle_continue}
use local_agent.Completion.Answered.{Answered, Answers, Validated, finish_answer-Answered, success}

decide-Validated :
    (required : Option String) (exact : Bool) (facts : List ToolFact) (retries : ℕ)
    → decide_required_validation_completion (collect_validation_facts required exact facts) retries
      ≡ validation_done
    → Validated required facts
unfolding decide_required_validation_completion collect_validation_facts
    required_validation_command_satisfied_from_facts
decide-Validated none exact facts retries h = tt
decide-Validated (some required) exact facts retries h = ground arith

finish_validation-done :
    (fuel : ℕ) (agent : Agent) (turn : Turn) (output : String) (run : Run)
    (decision : RequiredValidationCompletionDecision) (outcome : AgentOutcome) (after : Run)
    → success (finish_validation fuel agent turn output run decision) ≡ some (outcome, after)
    → (decision ≡ validation_done) × Answered agent turn run after outcome
unfolding finish_validation
finish_validation-done fuel agent turn output run validation_done outcome after h =
    (refl, finish_answer-Answered fuel agent turn output run outcome after h)
finish_validation-done fuel agent turn output run (validate_first instruction) outcome after h = cc
finish_validation-done fuel agent turn output run (not_validated reason) outcome after h = cc

handle_violation-fails :
    (turn : Turn) (reason : String) (run : Run) → success (handle_violation turn reason run) ≡ none
unfolding handle_violation
handle_violation-fails turn reason run = ground arith

handle_continue-fails :
    (agent : Agent) (turn : Turn) (reason_code instruction : String) (run : Run)
    → success (handle_continue agent turn reason_code instruction run) ≡ none
unfolding handle_continue
handle_continue-fails agent turn reason_code instruction run = refl

send_back_artifact-fails : (turn : Turn) (run : Run) → success (send_back_artifact turn run) ≡ none
unfolding send_back_artifact
send_back_artifact-fails turn run = refl

violation-Guarded :
    (prompt output : String) (calls : List ToolCall) (executions : List ToolExecutionRecord)
    (enforce : Bool)
    → implementation_integrity_violation_with_tool_executions prompt output calls executions enforce
      ≡ none
    → enforce ≡ true
    → Guarded output (
        tool_facts_from_calls_and_executions
          (prompt_required_validation_command prompt)
          calls
          executions)
unfolding implementation_integrity_violation_with_tool_executions
violation-Guarded prompt output calls executions true h on =
    (violation-none_iff calls executions (prompt_required_validation_command prompt) output).0 h
violation-Guarded prompt output calls executions false h on = absurd (cc)

-- The output that the guard reads, before a required answer is recovered from it.
abbrev pub guarded_output : Agent → Turn → String
guarded_output agent turn =
    final_output_for_completion agent turn.last_user_output turn.assistant_content

-- What a success shows: of the executions at its end, with the readbacks that the completion made.
pub record EndedOk (agent : Agent) (turn : Turn) (outcome : AgentOutcome) (after : Run)
    : Type 0 where
  pub no_artifacts : assistant_content_has_protocol_artifacts turn.assistant_content ≡ false
  pub guarded :
      turn.enforce_implementation_integrity_guard ≡ true
      → Guarded (guarded_output agent turn) (
          tool_facts_from_calls_and_executions
            (prompt_required_validation_command turn.user_prompt)
            turn.tool_calls
            after.tool_executions)
  pub validated_run :
      let required = required_validation_command agent.validation_requirement turn.user_prompt in
      Validated required
        (tool_facts_from_calls_and_executions required turn.tool_calls after.tool_executions)
  pub answered :
      Answers
        (exact_final_answer_required_text agent.final_answer_mode turn.user_prompt)
        outcome.final_output

module _ (fuel : ℕ) (agent : Agent) (turn : Turn) (outcome : AgentOutcome) (after : Run) where
  finish_guard-EndedOk :
      (read_back : Option String × Run)
      → assistant_content_has_protocol_artifacts turn.assistant_content ≡ false
      → success (finish_guard fuel agent turn (guarded_output agent turn) read_back)
        ≡ some (outcome, after)
      → EndedOk agent turn outcome after
  unfolding finish_guard
  finish_guard-EndedOk (some reason, run) clean h = cc
  finish_guard-EndedOk (none, run) clean h =
      elim (Option-cases (
        implementation_integrity_violation_with_tool_executions turn.user_prompt
          (guarded_output agent turn) turn.tool_calls run.tool_executions
          turn.enforce_implementation_integrity_guard)) [
            | inr (reason, e) ↦
                absurd (let fails = handle_violation-fails turn reason run in ground arith)
            | inl e ↦
                let (done, last) =
                  finish_validation-done fuel agent turn (guarded_output agent turn) run
                    (validation_decision agent turn run) outcome after (ground arith) in
                record {
                  no_artifacts = clean;
                  guarded = (λ on. rw last.executed (
                      violation-Guarded turn.user_prompt (guarded_output agent turn) turn.tool_calls
                        run.tool_executions turn.enforce_implementation_integrity_guard e on));
                  validated_run =
                      (let required =
                          required_validation_command agent.validation_requirement
                            turn.user_prompt in
                        rw last.executed (
                          decide-Validated required
                            (exact_final_answer_required agent.final_answer_mode turn.user_prompt)
                            (tool_facts_from_calls_and_executions required turn.tool_calls
                              run.tool_executions)
                            turn.required_validation_retry_count done));
                  answered = last.answers;
                }
          ]

  finish_ok-EndedOk :
      (run : Run)
      → success (finish_ok fuel agent turn run) ≡ some (outcome, after)
      → EndedOk agent turn outcome after
  unfolding finish_ok
  finish_ok-EndedOk run h =
      elim (Bool-cases (assistant_content_has_protocol_artifacts turn.assistant_content)) [
        | inl e ↦ absurd (let fails = send_back_artifact-fails turn run in ground arith)
        | inr e ↦ finish_guard-EndedOk (verify_written agent turn run) e (ground arith)
      ]

  handle_finalize_ok-EndedOk :
      (run : Run)
      → success (handle_finalize_ok fuel agent turn run) ≡ some (outcome, after)
      → EndedOk agent turn outcome after
  unfolding handle_finalize_ok
  handle_finalize_ok-EndedOk run h =
      let delivery = deliver_operator_queue_at_boundary turn_idle run in
      elim (Bool-cases (ltb turn.operator_delivery_count 3)) [
        | inr late ↦ finish_ok-EndedOk run (ground arith)
        | inl early ↦ elim (Bool-cases (delivery.1 || delivery.0)) [
          | inl waits ↦ absurd (ground arith)
          | inr idle ↦ finish_ok-EndedOk delivery.2 (ground arith)
        ]
      ]

  -- A completion ends a run as a success only where the turn was to be finalized, and the answer does not
  -- echo the protocol of tools; where the guard of an implementation is on, the executions at the end
  -- pass it (edits come after reads, writes are read back, something was written); where a validation is
  -- required, its command was run successfully; and where an exact answer is required, the final output
  -- is that answer, up to blanks around it.
  pub handle-EndedOk :
      (decision : RuntimeCompletionDecision) (run : Run)
      → success (handle_runtime_completion_action fuel agent turn decision run)
        ≡ some (outcome, after)
      → (decision ≡ finalize_ok) × EndedOk agent turn outcome after
  unfolding handle_runtime_completion_action
  handle-EndedOk finalize_ok run h = (refl, handle_finalize_ok-EndedOk run h)
  handle-EndedOk execute_tools run h = cc
  handle-EndedOk (finalize_error reason source failure_class) run h = cc
  handle-EndedOk (continue_with reason_code instruction) run h =
      absurd (let fails = handle_continue-fails agent turn reason_code instruction run in cc)
