-- ===== src/Completion/Terminates.antt =====
-- A completion always comes to an action, unless a blank answer is required.
use local_agent.Base.{
  ℕ, ◌<◌, String, len, ◌≡◌, refl, false, not, ◌&&◌, ◌||◌, Option, none, some, inl, inr, Bool-cases,
  Option-cases, and_then, ltb, trim, is_blank,
}
use local_agent.OperatorQueue.{turn_idle}
use local_agent.ImplGuard.{implementation_integrity_violation_with_tool_executions}
use local_agent.Completion.{
  RuntimeCompletionDecision, execute_tools, continue_with, finalize_ok, finalize_error,
  RequiredValidationCompletionDecision, validation_done, validate_first, not_validated,
}
use local_agent.Completion.Answer.{
  exact_final_answer_required_text, exact_final_answer_required,
  final_output_matches_required_exact_answer, recover_required_exact_final_answer, recover_text,
}
use local_agent.Completion.Recover.{recover_text-terminates}
use local_agent.Completion.Run.{
  Agent, Run, final_output_for_completion, assistant_content_has_protocol_artifacts,
}
use local_agent.Completion.Boundary.{deliver_operator_queue_at_boundary}
use local_agent.Completion.Handler.{
  send_back_artifact, verify_written, handle_violation, is_retryable, ask_exact, finish_recovered,
  finish_answer, validation_decision, finish_validation, finish_guard, finish_ok,
  handle_finalize_ok, handle_runtime_completion_action,
}
use local_agent.Completion.Action.{Turn, RuntimeCompletionAction, Result, handle_continue}

-- The completion comes to an action.
abbrev pub Acts : Result → Type 0
Acts r = (done : RuntimeCompletionAction × Run) × (r ≡ some done)

-- The answer that is required, if one is, is not blank.
abbrev pub NotBlank : Option String → Type 0
NotBlank none = Unit
NotBlank (some required) = is_blank required ≡ false

ask_exact-Acts : (turn : Turn) (run : Run) → Acts (ask_exact turn run)
unfolding ask_exact
ask_exact-Acts turn run = elim (Bool-cases (ltb turn.exact_final_answer_retry_count 1)) [
  | inl e ↦ rw e (_, refl)
  | inr e ↦ rw e (_, refl)
]

finish_recovered-Acts :
    (turn : Turn) (run : Run) (recovered : Option String)
    → Acts (finish_recovered turn run recovered)
finish_recovered-Acts turn run (some answer) = (_, refl)
finish_recovered-Acts turn run none = ask_exact-Acts turn run

handle_violation-Acts :
    (turn : Turn) (reason : String) (run : Run) → Acts (handle_violation turn reason run)
unfolding handle_violation
handle_violation-Acts turn reason run =
    elim (Bool-cases (is_retryable reason run && ltb turn.blocked_runtime_completion_count 2)) [
      | inl e ↦ rw e (_, refl)
      | inr e ↦ rw e (_, refl)
    ]

module _ (fuel : ℕ) (agent : Agent) (turn : Turn) (output : String)
    (enough : len (trim output) < fuel) where
  searched-Acts :
      (text : Option String) (run : Run)
      → NotBlank text
      → Acts (
          and_then
            (elim text [ none ↦ some none | some required ↦ recover_text fuel required output ])
            (finish_recovered turn run))
  searched-Acts none run h = finish_recovered-Acts turn run none
  searched-Acts (some required) run h =
      let (answer, e) = recover_text-terminates fuel required output h enough in
      rw e (finish_recovered-Acts turn run answer)

  finish_answer-Acts :
      (run : Run)
      → NotBlank (exact_final_answer_required_text agent.final_answer_mode turn.user_prompt)
      → Acts (finish_answer fuel agent turn output run)
  unfolding finish_answer recover_required_exact_final_answer
  finish_answer-Acts run h =
      elim (Bool-cases (
        exact_final_answer_required agent.final_answer_mode turn.user_prompt
        && not (
            final_output_matches_required_exact_answer agent.final_answer_mode turn.user_prompt
              output))) [
                | inl e ↦ rw e (
                    searched-Acts
                      (exact_final_answer_required_text agent.final_answer_mode turn.user_prompt)
                      run h)
                | inr e ↦ rw e (_, refl)
              ]

  finish_validation-Acts :
      (run : Run) (decision : RequiredValidationCompletionDecision)
      → NotBlank (exact_final_answer_required_text agent.final_answer_mode turn.user_prompt)
      → Acts (finish_validation fuel agent turn output run decision)
  unfolding finish_validation
  finish_validation-Acts run validation_done h = finish_answer-Acts run h
  finish_validation-Acts run (validate_first instruction) h = (_, refl)
  finish_validation-Acts run (not_validated reason) h = (_, refl)

  finish_guard-Acts :
      (read_back : Option String × Run)
      → NotBlank (exact_final_answer_required_text agent.final_answer_mode turn.user_prompt)
      → Acts (finish_guard fuel agent turn output read_back)
  unfolding finish_guard
  finish_guard-Acts (some reason, run) h = (_, refl)
  finish_guard-Acts (none, run) h =
      elim (Option-cases (
        implementation_integrity_violation_with_tool_executions turn.user_prompt output
          turn.tool_calls run.tool_executions turn.enforce_implementation_integrity_guard)) [
            | inr (reason, e) ↦ rw (e, finish_guard) (handle_violation-Acts turn reason run)
            | inl e ↦
                rw (e, finish_guard)
                  (finish_validation-Acts run (validation_decision agent turn run) h)
          ]

module _ (fuel : ℕ) (agent : Agent) (turn : Turn)
    (enough : len
        (trim (final_output_for_completion agent turn.last_user_output turn.assistant_content))
      < fuel)
    (solid : NotBlank
      (exact_final_answer_required_text agent.final_answer_mode turn.user_prompt)) where
  finish_ok-Acts : (run : Run) → Acts (finish_ok fuel agent turn run)
  unfolding finish_ok send_back_artifact
  finish_ok-Acts run =
      elim (Bool-cases (assistant_content_has_protocol_artifacts turn.assistant_content)) [
        | inl e ↦ rw e (_, refl)
        | inr e ↦ rw e (
            finish_guard-Acts fuel agent turn
              (final_output_for_completion agent turn.last_user_output turn.assistant_content)
              enough (verify_written agent turn run) solid)
      ]

  handle_finalize_ok-Acts : (run : Run) → Acts (handle_finalize_ok fuel agent turn run)
  unfolding handle_finalize_ok
  handle_finalize_ok-Acts run =
      let delivery = deliver_operator_queue_at_boundary turn_idle run in
      elim (Bool-cases (ltb turn.operator_delivery_count 3)) [
        | inr late ↦ rw late (finish_ok-Acts run)
        | inl early ↦ elim (Bool-cases (delivery.1 || delivery.0)) [
          | inl waits ↦ rw (early, waits) (_, refl)
          | inr idle ↦ rw (early, idle) (finish_ok-Acts delivery.2)
        ]
      ]

  -- Where the answer that is required, if one is, is not blank, more fuel than the trimmed output has
  -- bytes is enough for a completion to come to an action, whatever was decided.
  pub handle-Acts :
      (decision : RuntimeCompletionDecision) (run : Run)
      → Acts (handle_runtime_completion_action fuel agent turn decision run)
  unfolding handle_runtime_completion_action handle_continue
  handle-Acts finalize_ok run = handle_finalize_ok-Acts run
  handle-Acts execute_tools run = (_, refl)
  handle-Acts (finalize_error reason source failure_class) run = (_, refl)
  handle-Acts (continue_with reason_code instruction) run = (_, refl)
