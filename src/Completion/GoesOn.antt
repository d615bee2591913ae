-- ===== src/Completion/GoesOn.antt =====
-- A step that has written does not end a run as a success by itself.
use local_agent.Base.{
  ℕ, String, ◌≡◌, refl, ap, ◌∙◌, Bool, true, false, ◌&&◌, Option, none, some, List, [], ◌∷◌, ◌++◌,
  arith, inl, inr, Option-cases, is_some, ltb, if_both, ◌⊎◌,
}
use local_agent.Types.{Message}
use local_agent.ToolFacts.{ToolExecutionRecord}
use local_agent.ImplGuard.{implementation_integrity_violation_with_tool_executions}
use local_agent.RunPhase.Once.{any-last}
use local_agent.Completion.{decide_verified_write_completion}
use local_agent.Completion.Answer.{required_validation_command, exact_final_answer_required}
use local_agent.Completion.Run.{Agent, Run, exit_planner_error}
use local_agent.Completion.Boundary.{Verified, verified, not_verified, verify_post_write_path}
use local_agent.Completion.Handler.{verify_paths, push_execution}
use local_agent.Completion.Action.{Turn}
use local_agent.Completion.Checkpoint.{
  VerifiedWriteResult, write_done, guard_retry, start_final_answer_phase,
  start_required_validation_phase,
}
use local_agent.Completion.Written.{
  is_tool_message, after_last_tool, has_user_facing_assistant_closeout_after_last_tool,
  written_decided, written_failure, written_paths, post_verify_note,
  finalize_verified_write_completion, after_readbacks, finalize_verified_write_step_or_error,
}

-- A step that ends the run ends it with an error, and a step after which the validation is due, or only
-- the answer, fits what is required.
abbrev pub GoesOn : Option String → VerifiedWriteResult → Type 0
GoesOn required (write_done outcome) = outcome.exit_reason ≡ exit_planner_error
GoesOn required (guard_retry message) = Unit
GoesOn required (start_final_answer_phase message) = required ≡ none
GoesOn required (start_required_validation_phase message) = is_some required ≡ true

verify-messages :
    (agent : Agent) (path : String) (run : Run)
    → (verify_post_write_path agent path run).1.messages ≡ run.messages
unfolding verify_post_write_path
verify-messages agent path run = ground arith

Verified-cases :
    (v : Verified)
    → ((read_back : ToolExecutionRecord) × (v ≡ verified read_back))
      ⊎ ((reason : String) × (v ≡ not_verified reason))
Verified-cases (verified read_back) = inl (read_back, refl)
Verified-cases (not_verified reason) = inr (reason, refl)

verify_paths-messages :
    (agent : Agent) (paths : List String) (run : Run)
    → (verify_paths agent paths run).1.messages ≡ run.messages
unfolding verify_paths
verify_paths-messages agent [] run = refl
verify_paths-messages agent (path ∷ paths) run =
    let next = verify_post_write_path agent path run in
    elim (Verified-cases next.0) [
      | inl (read_back, e) ↦
          rw (verify_paths, e)
            (verify_paths-messages agent paths (push_execution read_back next.1)
              ∙ verify-messages agent path run)
      | inr (reason, e) ↦ rw (verify_paths, e) (verify-messages agent path run)
    ]

closeout-tool :
    (earlier : List Message) (result : Message)
    → is_tool_message result ≡ true
    → has_user_facing_assistant_closeout_after_last_tool (earlier ++ result ∷ []) ≡ false
unfolding has_user_facing_assistant_closeout_after_last_tool after_last_tool
closeout-tool [] result h = ground arith
closeout-tool (m ∷ earlier) result h =
    rw (after_last_tool, any-last is_tool_message (λ z. z) result h earlier)
      (closeout-tool earlier result h)

decided-GoesOn :
    (required : Option String) (exact : Bool) (turn : Turn) (run : Run)
    → GoesOn required
        (written_decided (decide_verified_write_completion required exact false) turn run).0
unfolding decide_verified_write_completion
decided-GoesOn none exact turn run = refl
decided-GoesOn (some command) exact turn run = refl

failure-GoesOn :
    (required : Option String) (turn : Turn) (retries : ℕ) (is_retryable : Bool)
    (corrective reason : String) (run : Run)
    → GoesOn required (written_failure turn retries is_retryable corrective reason run).0
failure-GoesOn required turn retries is_retryable corrective reason run =
    if_both (λ (r : VerifiedWriteResult × Run). GoesOn required r.0) (is_retryable && ltb retries 1)
      tt refl

module _ (agent : Agent) (turn : Turn) (retries : ℕ) (earlier : List Message) (result : Message)
    (of_tool : is_tool_message result ≡ true) where
  abbrev required : Option String
  required = required_validation_command agent.validation_requirement turn.user_prompt

  completion-GoesOn :
      (paths : List String) (run : Run)
      → run.messages ≡ earlier ++ result ∷ []
      → GoesOn required (finalize_verified_write_completion agent turn retries paths run).0
  unfolding finalize_verified_write_completion
  completion-GoesOn paths run last =
      let no_closeout =
        ap has_user_facing_assistant_closeout_after_last_tool last
        ∙ closeout-tool earlier result of_tool in
      elim (Option-cases (
        implementation_integrity_violation_with_tool_executions turn.user_prompt
          (post_verify_note paths) turn.tool_calls run.tool_executions
          turn.enforce_implementation_integrity_guard)) [
            | inr (reason, e) ↦
                rw (finalize_verified_write_completion, e)
                  (failure-GoesOn required turn retries _ _ reason run)
            | inl e ↦
                rw (finalize_verified_write_completion, e, no_closeout)
                  (decided-GoesOn required
                    (exact_final_answer_required agent.final_answer_mode turn.user_prompt) turn run)
          ]

  readbacks-GoesOn :
      (paths : List String) (read_back : Option String × Run)
      → read_back.1.messages ≡ earlier ++ result ∷ []
      → GoesOn required (after_readbacks agent turn retries paths read_back).0
  readbacks-GoesOn paths (some reason, run) last =
      failure-GoesOn required turn retries _ _ reason run
  readbacks-GoesOn paths (none, run) last = completion-GoesOn paths run last

  -- Where the last message is the result of a tool, the end of a step that has written never ends the run
  -- as a success: it ends it with an error, sends it back, or asks for the required validation, if there
  -- is one, and else for the final answer.
  pub step-GoesOn :
      (run : Run)
      → run.messages ≡ earlier ++ result ∷ []
      → GoesOn required (finalize_verified_write_step_or_error agent turn retries run).0
  unfolding finalize_verified_write_step_or_error
  step-GoesOn run last =
      readbacks-GoesOn (written_paths turn run) (verify_paths agent (written_paths turn run) run)
        (verify_paths-messages agent (written_paths turn run) run ∙ last)
