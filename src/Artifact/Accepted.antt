-- ===== src/Artifact/Accepted.antt =====
-- When the end of a run is recorded, and not refused by the checks on what is recorded.
use local_agent.Base.{
  ◌≡◌, refl, ap, ◌∙◌, Bool, true, false, not, ◌||◌, Option, none, some, List, any, list_laws, last,
  arith, if◌then◌else◌,
}
use local_agent.RunPhase.{
  RunCheckpoint, CompletionDecisionRecord, PhaseSummaryEntry, InterruptHistoryEntry, phase_eq,
}
use local_agent.RunPhase.Resume.{BoundaryCheckpoint}
use local_agent.RunPhase.Once.{any-last, phase_eq_refl}
use local_agent.ToolFacts.Guard.{required_validation_command_satisfied_from_facts}
use local_agent.Completion.Run.{AgentExitReason, exit_cancelled}
use local_agent.Artifact.{
  FinishedRun, terminal_phase_for_outcome, contract_command, facts_satisfy, checkpoint_for_outcome,
  is_terminal_phase, runtime_state_checkpoint_for_outcome,
}
use local_agent.Artifact.History.{
  phase_summary_for_outcome_with_prior, final_decision, interrupt_history_for_outcome,
  prior_interrupts, prior_decisions, completion_decisions_for_outcome_with_prior,
  interrupt_history_for_outcome_with_prior,
}
use local_agent.Artifact.Check.{
  is_ok, is_cancelled, unresolved, is_resolved_operator, check_interrupts, has_phase,
  validate_terminal_runtime_state_checkpoint, validate_final_run_artifact_consistency,
}
use local_agent.Artifact.Finalize.{
  FinalizeInput, Finalized, rejected, recorded, finalize_envelopes, artifact_of,
  finalize_run_artifacts,
}
use local_agent.Artifact.Summary.{Settled, last-append, prior_unresolved, summary-EndsIn}

-- The checks hold where the last decision and the last entry have the phase, and the interrupts fit.
checks_pass :
    (run : FinishedRun) (boundary : Option BoundaryCheckpoint) (c : RunCheckpoint)
    (history : List InterruptHistoryEntry) (summary : List PhaseSummaryEntry)
    (decisions : List CompletionDecisionRecord) (decision : CompletionDecisionRecord)
    (e : PhaseSummaryEntry)
    → let expected = terminal_phase_for_outcome run.outcome.exit_reason in
      phase_eq c.phase expected ≡ true
      → last decisions ≡ some decision
      → has_phase expected decision.next_phase ≡ true
      → last summary ≡ some e
      → phase_eq e.phase expected ≡ true
      → e.exited_at ≡ none
      → check_interrupts run.outcome.exit_reason boundary c history ≡ none
      → validate_final_run_artifact_consistency run boundary c history summary decisions ≡ none
unfolding validate_final_run_artifact_consistency
checks_pass run boundary c history summary decisions decision e phase made leads ended same open_now
      fits =
    rw (validate_final_run_artifact_consistency, phase, made, leads, ended, same, open_now) fits

decision_phase :
    (run : FinishedRun) (c : RunCheckpoint)
    → c.phase ≡ terminal_phase_for_outcome run.outcome.exit_reason
    → has_phase
        (terminal_phase_for_outcome run.outcome.exit_reason)
        (final_decision run c).next_phase
      ≡ true
unfolding final_decision terminal_phase_for_outcome phase_eq
decision_phase run c e = ground arith

module _ (run : FinishedRun) (input : FinalizeInput) (settled : Settled input.prior) where
  abbrev reason : AgentExitReason
  reason = run.outcome.exit_reason

  abbrev state : RunCheckpoint
  state = (artifact_of run input).final_checkpoint

  -- What waits at the end is what the run itself leaves.
  unresolved_now :
      unresolved (interrupt_history_for_outcome_with_prior run input.prior)
      ≡ unresolved (interrupt_history_for_outcome run)
  unfolding interrupt_history_for_outcome_with_prior
  unresolved_now = simp (list_laws, prior_unresolved input.prior settled) refl

  cancellation_recorded :
      is_cancelled reason ≡ true
      → any is_resolved_operator (interrupt_history_for_outcome_with_prior run input.prior) ≡ true
  unfolding interrupt_history_for_outcome_with_prior interrupt_history_for_outcome
  cancellation_recorded e =
      let same : reason ≡ exit_cancelled = ground arith in
      rw (interrupt_history_for_outcome, same)
        (any-last is_resolved_operator (λ z. z) _ refl (prior_interrupts input.prior))

  interrupts_pass :
      check_interrupts reason
        (checkpoint_for_outcome run)
        state
        (interrupt_history_for_outcome_with_prior run input.prior)
      ≡ none
  unfolding checkpoint_for_outcome interrupt_history_for_outcome
      runtime_state_checkpoint_for_outcome
  interrupts_pass = let u = unresolved_now in let c = cancellation_recorded in ground arith

  consistent :
      let artifact = artifact_of run input in
      validate_final_run_artifact_consistency run artifact.run_checkpoint artifact.final_checkpoint
        artifact.interrupt_history artifact.phase_summary artifact.completion_decisions
      ≡ none
  unfolding runtime_state_checkpoint_for_outcome completion_decisions_for_outcome_with_prior
  consistent =
      let (earlier, current, summary, _, open_now, in_phase) =
        summary-EndsIn run input.prior settled in
      let phase = terminal_phase_for_outcome reason in
      checks_pass run (checkpoint_for_outcome run) state
        (interrupt_history_for_outcome_with_prior run input.prior)
        (phase_summary_for_outcome_with_prior run input.prior)
        (completion_decisions_for_outcome_with_prior run state input.prior)
        (final_decision run state) current (phase_eq_refl phase)
        (last-append (prior_decisions input.prior) (final_decision run state))
        (decision_phase run state refl) (ap last summary ∙ last-append earlier current)
        (rw in_phase (phase_eq_refl phase)) open_now interrupts_pass

  terminal : validate_terminal_runtime_state_checkpoint run state ≡ (
      if not (is_ok reason)
        || facts_satisfy
            (contract_command (some input.task_contract) input.prompt)
            (finalize_envelopes run input)
      then none
      else some "done runtime checkpoint must satisfy required validation before finalization")
  unfolding validate_terminal_runtime_state_checkpoint runtime_state_checkpoint_for_outcome
      terminal_phase_for_outcome is_terminal_phase required_validation_command_satisfied_from_facts
  terminal = ground arith

abbrev pub is_recorded : Finalized → Bool
is_recorded (rejected _) = false
is_recorded (recorded _ _) = true

-- Where what is stored of the run from before is settled, the end of a run is recorded unless the run
-- ended as a success and its facts do not satisfy the validation that is required; else it is refused.
pub finalize-recorded :
    (run : FinishedRun) (input : FinalizeInput)
    → Settled input.prior
    → is_recorded (finalize_run_artifacts run input) ≡ (
        not (is_ok run.outcome.exit_reason)
        || facts_satisfy
            (contract_command (some input.task_contract) input.prompt)
            (finalize_envelopes run input))
unfolding finalize_run_artifacts
finalize-recorded run input settled =
    ground (arith, consistent run input settled, terminal run input settled)
