-- ===== src/Completion/Written.antt =====
-- The end of a step that has written: `finalize_verified_write_step_or_error` of
-- src/agent/runtime_completion.rs, `finalize_verified_write_completion` of src/agent/run_finalize.rs, and
-- `handle_verified_write_follow_on_phase` of src/agent.rs.
use local_agent.Base.{
  ℕ, String, Bool, true, false, not, ◌&&◌, ◌||◌, Option, none, some, List, [], ◌∷◌, any, contains,
  concat, join, is_empty, is_nil, ltb, take, trim, unwrap_or, if◌then◌else◌,
}
use mathlib.Core.List.{reverse}
use local_agent.Types.{Message, tool}
use local_agent.ImplGuard.{
  implementation_integrity_violation_with_tool_executions, pending_post_write_verification_paths,
}
use local_agent.RunPhase.{RunCheckpoint}
use local_agent.Completion.{
  VerifiedWriteCompletionDecision, finalize_now, start_final_answer, start_required_validation,
  decide_verified_write_completion,
}
use local_agent.Completion.Answer.{required_validation_command, exact_final_answer_required}
use local_agent.Completion.Run.{
  Event, error_event, step_blocked, Agent, Run, AgentOutcome, emit, developer_message, push_message,
  is_assistant, finalize_ok_with_end, finalize_planner_error_with_end,
  assistant_content_has_protocol_artifacts,
}
use local_agent.Completion.Handler.{guard_error, verify_paths}
use local_agent.Completion.Action.{Turn}
use local_agent.Completion.Checkpoint.{
  PhaseLoopControl, VerifiedWriteResult, write_done, guard_retry, start_final_answer_phase,
  start_required_validation_phase, apply_verified_write_follow_on,
}

-- A text of the assistant that the user can read.
abbrev pub is_user_facing : String → Bool
is_user_facing content =
    not (is_nil content) && not (assistant_content_has_protocol_artifacts (some content))

abbrev pub is_closeout : Message → Bool
is_closeout m =
    is_assistant m && elim m.content [ none ↦ false | some content ↦ is_user_facing (trim content) ]

abbrev pub is_tool_message : Message → Bool
is_tool_message m = elim m.role [ tool ↦ true | _ ↦ false ]

-- The messages after the last result of a tool, or all.
unfoldable pub after_last_tool : List Message → List Message
after_last_tool [] = []
after_last_tool (m ∷ ms) =
    let later = after_last_tool ms in
    if any is_tool_message ms then later else if is_tool_message m then ms else m ∷ ms

unfoldable pub has_user_facing_assistant_closeout_after_last_tool : List Message → Bool
has_user_facing_assistant_closeout_after_last_tool messages =
    any is_closeout (after_last_tool messages)

-- The first closeout of messages that are read from their end.
abbrev pub first_closeout : List Message → String
first_closeout [] = ""
first_closeout (m ∷ ms) =
    let rest = first_closeout ms in if is_closeout m then trim (unwrap_or m.content "") else rest

abbrev pub post_verify_note : List String → String
post_verify_note verified_paths =
    if is_empty verified_paths
    then "Runtime note: post-write verification succeeded. Prefer finishing now. If the requested change is complete, provide the final answer immediately and do not call another write tool. Only call another tool if the prompt still has an unfinished required step, such as running tests or inspecting another file."
    else concat (
        "Runtime note: post-write verification succeeded for "
        ∷ join ", " verified_paths
        ∷ ". Prefer finishing now. If the requested change is complete, provide the final answer immediately and do not call another write tool for that path. Only call another tool if the prompt still has an unfinished required step, such as running tests or inspecting another file."
        ∷ [])

abbrev pub retry_event : String → Event
retry_event reason =
    error_event reason "implementation_integrity_guard" (some "post_write_guard_retry") none none

abbrev pub written_done : AgentOutcome × Run → VerifiedWriteResult × Run
written_done (outcome, run) = (write_done outcome, run)

-- A reason that ends the run, or sends it back once.
abbrev pub written_failure : Turn → ℕ → Bool → String → String → Run → VerifiedWriteResult × Run
written_failure turn retries is_retryable corrective reason run =
    if is_retryable && ltb retries 1
    then (guard_retry corrective, emit (retry_event reason ∷ []) run)
    else written_done (
        finalize_planner_error_with_end reason turn.tool_calls (emit (guard_error reason ∷ []) run))

abbrev pub written_violation : Turn → ℕ → String → Run → VerifiedWriteResult × Run
written_violation turn retries reason run =
    written_failure turn retries
      (contains reason "requires prior read_file"
        || contains reason "post-write verification missing")
      (if contains reason "requires prior read_file"
        then "You must read_file on a path before editing it. Use read_file to inspect the file contents first, then apply your changes, then read_file again to verify."
        else "Post-write verification requires a read_file call after writing. Use read_file on the modified path to verify your changes.")
      reason run

abbrev pub follow_on_event : String → Event
follow_on_event reason = step_blocked reason (some "runtime_post_write_follow_on") none

abbrev pub written_decided :
    VerifiedWriteCompletionDecision → Turn → Run → VerifiedWriteResult × Run
written_decided (start_final_answer message) turn run = (
  start_final_answer_phase message,
  emit (follow_on_event "post_write_final_answer_only_phase" ∷ []) run,
)
written_decided (start_required_validation message) turn run = (
  start_required_validation_phase message,
  emit (follow_on_event "post_write_validation_only_phase" ∷ []) run,
)
written_decided finalize_now turn run =
    written_done (finalize_ok_with_end (first_closeout (reverse run.messages)) turn.tool_calls run)

unfoldable pub finalize_verified_write_completion :
    Agent → Turn → ℕ → List String → Run → VerifiedWriteResult × Run
finalize_verified_write_completion agent turn retries verified_paths run =
    elim (implementation_integrity_violation_with_tool_executions turn.user_prompt
      (post_verify_note verified_paths) turn.tool_calls run.tool_executions
      turn.enforce_implementation_integrity_guard) [
        | some reason ↦ written_violation turn retries reason run
        | none ↦
            written_decided
              (decide_verified_write_completion
                (required_validation_command agent.validation_requirement turn.user_prompt)
                (exact_final_answer_required agent.final_answer_mode turn.user_prompt)
                (has_user_facing_assistant_closeout_after_last_tool run.messages))
              turn run
      ]

-- The paths that are read back.
abbrev pub written_paths : Turn → Run → List String
written_paths turn run =
    take 10 (pending_post_write_verification_paths turn.tool_calls run.tool_executions)

abbrev pub after_readbacks :
    Agent → Turn → ℕ → List String → Option String × Run → VerifiedWriteResult × Run
after_readbacks agent turn retries paths (some reason, run) =
    written_failure turn retries (contains reason "requires prior read_file")
      "You must read_file on a path before editing it. Use read_file to inspect the file contents first, then apply your changes, then read_file again to verify."
      reason run
after_readbacks agent turn retries paths (none, run) =
    finalize_verified_write_completion agent turn retries paths run

unfoldable pub finalize_verified_write_step_or_error :
    Agent → Turn → ℕ → Run → VerifiedWriteResult × Run
finalize_verified_write_step_or_error agent turn retries run =
    after_readbacks agent turn retries (written_paths turn run)
      (verify_paths agent (written_paths turn run) run)

-- What the loop does next: nothing special, a control, or the end of the run.
pub data FollowOn : Type 0 where
  nothing_to_do : FollowOn
  dispatch : PhaseLoopControl → FollowOn
  run_over : AgentOutcome → FollowOn

abbrev pub apply_follow_on : Option (PhaseLoopControl × String) → Run → FollowOn × Run
apply_follow_on none run = (nothing_to_do, run)
apply_follow_on (some (control, message)) run =
    (dispatch control, push_message (developer_message message) run)

abbrev pub follow_on_of :
    String → RunCheckpoint → VerifiedWriteResult × Run → FollowOn × RunCheckpoint × Run
follow_on_of user_prompt c (write_done outcome, run) = (run_over outcome, c, run)
follow_on_of user_prompt c (result, run) =
    let update = apply_verified_write_follow_on user_prompt c result in
    let applied = apply_follow_on update.0 run in (applied.0, update.1, applied.1)

unfoldable pub handle_verified_write_follow_on_phase :
    Agent → Turn → Bool → RunCheckpoint → Run → FollowOn × RunCheckpoint × Run
handle_verified_write_follow_on_phase agent turn successful_write c run =
    if not (turn.enforce_implementation_integrity_guard && successful_write)
    then (nothing_to_do, c, run)
    else follow_on_of turn.user_prompt c (
        finalize_verified_write_step_or_error agent turn c.retry_state.post_write_guard_retry_count
          run)
