-- ===== src/Artifact/History.antt =====
-- The phases, the decisions and the interrupts that are recorded of a run that has ended:
-- src/agent_runtime/checkpoint.rs and `interrupt_history_for_outcome` of src/agent/interrupts.rs.
use local_agent.Base.{
  String, Bool, true, false, not, Option, none, some, List, [], ◌∷◌, ◌++◌, is_empty, is_some,
  and_then, unwrap_or, if◌then◌else◌,
}
use mathlib.Core.Option
use local_agent.RunPhase.{
  RunPhase, setup, executing, waiting_for_approval, done, cancelled, RunCheckpoint,
  PhaseSummaryEntry, approval_required, operator_interrupt, InterruptHistoryEntry,
  CompletionDecisionRecord, phase_eq,
}
use local_agent.RunPhase.Resume.{RuntimeRunCheckpointRecord, update_last}
use local_agent.Completion.{collect_validation_facts_from_checkpoint}
use local_agent.Completion.Run.{exit_ok, exit_approval_required, exit_cancelled}
use local_agent.Artifact.{
  FinishedRun, ToolDecision, final_approval, find_last, terminal_phase_for_outcome,
}

abbrev pub entry : RunPhase → String → Option String → PhaseSummaryEntry
entry phase entered_at exited_at = record {
  phase = phase;
  entered_at = entered_at;
  exited_at = exited_at;
}

abbrev pub last_entry : FinishedRun → PhaseSummaryEntry
last_entry run = entry (terminal_phase_for_outcome run.outcome.exit_reason) run.finished_at none

unfoldable pub phase_summary_for_outcome : FinishedRun → List PhaseSummaryEntry
phase_summary_for_outcome run =
    entry setup run.started_at (some run.started_at)
    ∷ entry executing run.started_at (some run.finished_at)
    ∷ last_entry run
    ∷ []

abbrev pub is_open_entry : PhaseSummaryEntry → Bool
is_open_entry e = not (is_some e.exited_at)

-- The open entry of the prior summary goes on where it has the last phase, and is closed else.
unfoldable pub extend_summary : FinishedRun → List PhaseSummaryEntry → List PhaseSummaryEntry
extend_summary run summary = elim (find_last is_open_entry summary) [
  | none ↦ summary ++ last_entry run ∷ []
  | some last_open ↦
      if phase_eq last_open.phase (terminal_phase_for_outcome run.outcome.exit_reason)
      then summary
      else update_last is_open_entry (λ e. record e { exited_at = some run.finished_at }) summary
        ++ last_entry run ∷ []
]

unfoldable pub phase_summary_for_outcome_with_prior :
    FinishedRun → Option RuntimeRunCheckpointRecord → List PhaseSummaryEntry
phase_summary_for_outcome_with_prior run none = phase_summary_for_outcome run
phase_summary_for_outcome_with_prior run (some prior) =
    if is_empty prior.phase_summary
    then phase_summary_for_outcome run
    else extend_summary run prior.phase_summary

abbrev pub success_decision : Bool → CompletionDecisionRecord
success_decision satisfied = record {
  kind = "finalize";
  allowed = satisfied;
  retryable = false;
  next_phase = some done;
  reason =
      if satisfied
      then "run finalized successfully"
      else "run finalized without satisfying required validation evidence";
  unmet_requirements = if satisfied then [] else "required_validation" ∷ [];
}

abbrev pub refusal : Bool → RunPhase → String → String → CompletionDecisionRecord
refusal retryable next_phase reason unmet = record {
  kind = "finalize";
  allowed = false;
  retryable = retryable;
  next_phase = some next_phase;
  reason = reason;
  unmet_requirements = unmet ∷ [];
}

unfoldable pub final_decision : FinishedRun → RunCheckpoint → CompletionDecisionRecord
final_decision run c = elim run.outcome.exit_reason [
  | exit_ok ↦
      success_decision
        (collect_validation_facts_from_checkpoint c c.last_tool_fact_envelopes).satisfied
  | exit_approval_required ↦
      refusal true waiting_for_approval "run blocked pending operator approval" "approval_required"
  | exit_cancelled ↦ refusal false cancelled "run cancelled before completion" "operator_interrupt"
  | _ ↦
      refusal false c.phase
        (unwrap_or run.outcome.error "run ended without satisfying completion policy")
        "runtime_failure"
]

abbrev pub prior_decisions : Option RuntimeRunCheckpointRecord → List CompletionDecisionRecord
prior_decisions none = []
prior_decisions (some prior) = prior.completion_decisions

unfoldable pub completion_decisions_for_outcome_with_prior :
    FinishedRun → RunCheckpoint → Option RuntimeRunCheckpointRecord → List CompletionDecisionRecord
completion_decisions_for_outcome_with_prior run c prior =
    prior_decisions prior ++ final_decision run c ∷ []

-- `interrupt_history_for_outcome` of src/agent/interrupts.rs.
unfoldable pub interrupt_history_for_outcome : FinishedRun → List InterruptHistoryEntry
interrupt_history_for_outcome run = elim run.outcome.exit_reason [
  | exit_approval_required ↦
      record {
        kind = approval_required;
        created_at = run.finished_at;
        resolved_at = none;
        approval_id = and_then (final_approval run) (λ d. d.approval_id);
        tool_call_id = Option.map (λ (d : ToolDecision). d.tool_call_id) (final_approval run);
        reason = and_then (final_approval run) (λ d. d.reason);
      }
      ∷ []
  | exit_cancelled ↦
      record {
        kind = operator_interrupt;
        created_at = run.finished_at;
        resolved_at = some run.finished_at;
        approval_id = none;
        tool_call_id = none;
        reason = run.outcome.error;
      }
      ∷ []
  | _ ↦ []
]

abbrev pub prior_interrupts : Option RuntimeRunCheckpointRecord → List InterruptHistoryEntry
prior_interrupts none = []
prior_interrupts (some prior) = prior.interrupt_history

unfoldable pub interrupt_history_for_outcome_with_prior :
    FinishedRun → Option RuntimeRunCheckpointRecord → List InterruptHistoryEntry
interrupt_history_for_outcome_with_prior run prior =
    prior_interrupts prior ++ interrupt_history_for_outcome run
