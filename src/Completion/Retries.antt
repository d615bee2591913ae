-- ===== src/Completion/Retries.antt =====
-- A run asks for the required validation and for the exact answer once each.
use local_agent.Base.{
  ℕ, ◌≤◌, ◌<◌, String, ◌≡◌, refl, subst, not, ◌&&◌, ◌||◌, Option, none, some, arith, inl, inr,
  Bool-cases, Option-cases, and_then, and_then-some, ltb,
}
use local_agent.OperatorQueue.{turn_idle}
use local_agent.RunPhase.{RunCheckpoint}
use local_agent.ImplGuard.{implementation_integrity_violation_with_tool_executions}
use local_agent.Completion.{
  RuntimeCompletionDecision, execute_tools, continue_with, finalize_ok, finalize_error,
  collect_validation_facts, ValidationFacts, RequiredValidationCompletionDecision, validation_done,
  validate_first, not_validated, decide_required_validation_completion, runtime_completion_decision,
}
use local_agent.ToolFacts.{tool_facts_from_calls_and_executions}
use local_agent.Completion.Answer.{
  recover_required_exact_final_answer, exact_final_answer_required, required_validation_command,
  final_output_matches_required_exact_answer,
}
use local_agent.Completion.Run.{
  Agent, Run, final_output_for_completion, assistant_content_has_protocol_artifacts,
}
use local_agent.Completion.Boundary.{deliver_operator_queue_at_boundary}
use local_agent.Completion.Handler.{
  send_back_artifact, verify_written, handle_violation, ask_exact, finish_recovered, finish_answer,
  validation_decision, is_retryable, finish_validation, finish_guard, finish_ok, handle_finalize_ok,
  handle_runtime_completion_action,
}
use local_agent.Completion.Action.{
  Turn, RuntimeCompletionAction, continue_step, continue_agent_step, continue_exact_final_answer,
  continue_required_validation, proceed_to_tools, finalize, Result, handle_continue,
}
use local_agent.Completion.Checkpoint.{Control, apply_runtime_completion_action_to_checkpoint}
use local_agent.Completion.Phase.{
  Observed, Response, completion_turn, completion_inputs, run_runtime_completion_phase,
}

-- The retries that an action takes are left.
abbrev Affords : Turn → Result → Type 0
Affords turn none = Unit
Affords turn (some (continue_exact_final_answer _ _, run)) = turn.exact_final_answer_retry_count < 1
Affords turn (some (continue_required_validation _ _, run)) =
    turn.required_validation_retry_count < 1
Affords turn (some (continue_step _, run)) = Unit
Affords turn (some (continue_agent_step _ _, run)) = Unit
Affords turn (some (proceed_to_tools _, run)) = Unit
Affords turn (some (finalize _, run)) = Unit

ask_exact-Affords : (turn : Turn) (run : Run) → Affords turn (ask_exact turn run)
unfolding ask_exact
ask_exact-Affords turn run = elim (Bool-cases (ltb turn.exact_final_answer_retry_count 1)) [
  | inl e ↦ rw e (ground arith)
  | inr e ↦ rw e tt
]

finish_recovered-Affords :
    (turn : Turn) (run : Run) (recovered : Option String)
    → Affords turn (finish_recovered turn run recovered)
finish_recovered-Affords turn run (some answer) = tt
finish_recovered-Affords turn run none = ask_exact-Affords turn run

recovered-Affords :
    (turn : Turn) (run : Run) (search : Option (Option String))
    → Affords turn (and_then search (finish_recovered turn run))
recovered-Affords turn run none = tt
recovered-Affords turn run (some recovered) = finish_recovered-Affords turn run recovered

finish_answer-Affords :
    (fuel : ℕ) (agent : Agent) (turn : Turn) (output : String) (run : Run)
    → Affords turn (finish_answer fuel agent turn output run)
unfolding finish_answer
finish_answer-Affords fuel agent turn output run =
    elim (Bool-cases (
      exact_final_answer_required agent.final_answer_mode turn.user_prompt
      && not (
          final_output_matches_required_exact_answer agent.final_answer_mode turn.user_prompt
            output))) [
              | inl e ↦ rw e (
                  recovered-Affords turn run (
                    recover_required_exact_final_answer fuel agent.final_answer_mode
                      turn.user_prompt output))
              | inr e ↦ rw e tt
            ]

decide-Affords :
    (facts : ValidationFacts) (retries : ℕ) (instruction : String)
    → decide_required_validation_completion facts retries ≡ validate_first instruction
    → retries < 1
unfolding decide_required_validation_completion
decide-Affords facts retries instruction h = ground arith

finish_validation-Affords :
    (fuel : ℕ) (agent : Agent) (turn : Turn) (output : String) (run : Run)
    (decision : RequiredValidationCompletionDecision)
    → ((instruction : String)
        → decision ≡ validate_first instruction
        → turn.required_validation_retry_count < 1)
    → Affords turn (finish_validation fuel agent turn output run decision)
unfolding finish_validation
finish_validation-Affords fuel agent turn output run validation_done h =
    finish_answer-Affords fuel agent turn output run
finish_validation-Affords fuel agent turn output run (validate_first instruction) h =
    h instruction refl
finish_validation-Affords fuel agent turn output run (not_validated reason) h = tt

handle_violation-Affords :
    (turn : Turn) (reason : String) (run : Run) → Affords turn (handle_violation turn reason run)
unfolding handle_violation
handle_violation-Affords turn reason run =
    elim (Bool-cases (is_retryable reason run && ltb turn.blocked_runtime_completion_count 2)) [
      | inl e ↦ rw e tt
      | inr e ↦ rw e tt
    ]

abbrev validation_facts : Agent → Turn → Run → ValidationFacts
validation_facts agent turn run =
    let required = required_validation_command agent.validation_requirement turn.user_prompt in
    collect_validation_facts required
      (exact_final_answer_required agent.final_answer_mode turn.user_prompt)
      (tool_facts_from_calls_and_executions required turn.tool_calls run.tool_executions)

module _ (fuel : ℕ) (agent : Agent) (turn : Turn) where
  finish_guard-Affords :
      (output : String) (read_back : Option String × Run)
      → Affords turn (finish_guard fuel agent turn output read_back)
  unfolding finish_guard
  finish_guard-Affords output (some reason, run) = tt
  finish_guard-Affords output (none, run) =
      elim (Option-cases (
        implementation_integrity_violation_with_tool_executions turn.user_prompt output
          turn.tool_calls run.tool_executions turn.enforce_implementation_integrity_guard)) [
            | inr (reason, e) ↦ rw (e, finish_guard) (handle_violation-Affords turn reason run)
            | inl e ↦
                rw (e, finish_guard)
                  (finish_validation-Affords fuel agent turn output run
                    (validation_decision agent turn run)
                    (λ instruction h.
                      decide-Affords (validation_facts agent turn run)
                        turn.required_validation_retry_count instruction h))
          ]

  finish_ok-Affords : (run : Run) → Affords turn (finish_ok fuel agent turn run)
  unfolding finish_ok send_back_artifact
  finish_ok-Affords run =
      elim (Bool-cases (assistant_content_has_protocol_artifacts turn.assistant_content)) [
        | inl e ↦ rw e tt
        | inr e ↦ rw e (
            finish_guard-Affords
              (final_output_for_completion agent turn.last_user_output turn.assistant_content)
              (verify_written agent turn run))
      ]

  handle_finalize_ok-Affords : (run : Run) → Affords turn (handle_finalize_ok fuel agent turn run)
  unfolding handle_finalize_ok
  handle_finalize_ok-Affords run =
      let delivery = deliver_operator_queue_at_boundary turn_idle run in
      elim (Bool-cases (ltb turn.operator_delivery_count 3)) [
        | inr late ↦ rw late (finish_ok-Affords run)
        | inl early ↦ elim (Bool-cases (delivery.1 || delivery.0)) [
          | inl waits ↦ rw (early, waits) tt
          | inr idle ↦ rw (early, idle) (finish_ok-Affords delivery.2)
        ]
      ]

  handle-Affords :
      (decision : RuntimeCompletionDecision) (run : Run)
      → Affords turn (handle_runtime_completion_action fuel agent turn decision run)
  unfolding handle_runtime_completion_action handle_continue
  handle-Affords finalize_ok run = handle_finalize_ok-Affords run
  handle-Affords execute_tools run = tt
  handle-Affords (finalize_error reason source failure_class) run = tt
  handle-Affords (continue_with reason_code instruction) run = tt

-- At most one retry of each kind has been taken.
pub record RetriesBounded (c : RunCheckpoint) : Type 0 where
  pub validation_retries : c.retry_state.required_validation_retry_count ≤ 1
  pub exact_retries : c.retry_state.exact_final_answer_retry_count ≤ 1

apply-RetriesBounded :
    (observed : Observed) (response : Response) (c : RunCheckpoint)
    (action : RuntimeCompletionAction) (run : Run)
    → Affords (completion_turn observed response c) (some (action, run))
    → RetriesBounded c
    → RetriesBounded (apply_runtime_completion_action_to_checkpoint action c).1
unfolding apply_runtime_completion_action_to_checkpoint
apply-RetriesBounded observed response c (continue_step blocked) run a h = ground arith
apply-RetriesBounded observed response c (continue_agent_step blocked n) run a h = ground arith
apply-RetriesBounded observed response c (continue_exact_final_answer blocked n) run a h =
    ground arith
apply-RetriesBounded observed response c (continue_required_validation blocked n) run a h =
    ground arith
apply-RetriesBounded observed response c (proceed_to_tools blocked) run a h = ground arith
apply-RetriesBounded observed response c (finalize outcome) run a h = h

-- The completion of a turn keeps the count of the turns that were sent back for the required validation,
-- and that of those sent back for the exact answer, at one at most.
pub run_runtime_completion_phase-RetriesBounded :
    (fuel : ℕ) (agent : Agent) (observed : Observed) (response : Response) (c : RunCheckpoint)
    (run : Run) (after : Control × RunCheckpoint × Run)
    → RetriesBounded c
    → run_runtime_completion_phase fuel agent observed response c run ≡ some after
    → RetriesBounded after.1
unfolding run_runtime_completion_phase
run_runtime_completion_phase-RetriesBounded fuel agent observed response c run after h e =
    let turn = completion_turn observed response c in
    let decision = runtime_completion_decision (completion_inputs agent observed response c) in
    let (completed, handled, applied) =
      and_then-some (handle_runtime_completion_action fuel agent turn decision run) _ e in
    let affords = subst (Affords turn) handled (handle-Affords fuel agent turn decision run) in
    let kept = apply-RetriesBounded observed response c completed.0 completed.1 affords h in
    let same : (apply_runtime_completion_action_to_checkpoint completed.0 c).1 ≡ after.1 = cc in
    subst RetriesBounded same kept
