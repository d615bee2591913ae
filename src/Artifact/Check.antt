-- ===== src/Artifact/Check.antt =====
-- The checks of src/agent_runtime/checkpoint.rs on what is recorded of a run that has ended; `none` is
-- the `Ok` of the source.
use local_agent.Base.{
  String, Bool, true, false, not, ◌&&◌, ◌||◌, Option, none, some, List, [], ◌∷◌, any, filter,
  is_empty, is_some, concat, last, if◌then◌else◌,
}
use local_agent.RunPhase.{
  RunPhase, done, failed, cancelled, RunCheckpoint, PhaseSummaryEntry, InterruptKind,
  approval_required, operator_interrupt, InterruptHistoryEntry, CompletionDecisionRecord, phase_eq,
}
use local_agent.RunPhase.Resume.{
  BoundaryCheckpoint, at_approval, interrupted, approval_pending, is_open_interrupt, debug_name,
}
use local_agent.Completion.Run.{AgentExitReason, exit_ok, exit_approval_required, exit_cancelled}
use local_agent.Artifact.{FinishedRun, is_terminal_phase, terminal_phase_for_outcome, asks_approval}

-- `anyhow::ensure!`, and what follows it.
abbrev pub ensure : Bool → String → Option String → Option String
ensure holds message rest = if holds then rest else some message

abbrev pub is_ok : AgentExitReason → Bool
is_ok exit_ok = true
is_ok _ = false

abbrev pub is_cancelled : AgentExitReason → Bool
is_cancelled exit_cancelled = true
is_cancelled _ = false

abbrev pub check_done : FinishedRun → RunCheckpoint → Option String
check_done run c =
    ensure (is_ok run.outcome.exit_reason) "done runtime checkpoint must map to AgentExitReason::Ok"
      (ensure (not (is_some c.validation_state.required_command) || c.validation_state.satisfied)
        "done runtime checkpoint must satisfy required validation before finalization" none)

abbrev pub check_failed : FinishedRun → Option String
check_failed run =
    ensure
      (not (
        is_ok run.outcome.exit_reason
        || (is_cancelled run.outcome.exit_reason || asks_approval run.outcome.exit_reason)))
      "failed runtime checkpoint cannot map to ok/cancelled/approval_required outcomes" none

abbrev pub check_by_phase : FinishedRun → RunCheckpoint → RunPhase → Option String
check_by_phase run c done = check_done run c
check_by_phase run c failed = check_failed run
check_by_phase run c cancelled =
    ensure (is_cancelled run.outcome.exit_reason)
      "cancelled runtime checkpoint must map to AgentExitReason::Cancelled" none
check_by_phase run c _ = none

unfoldable pub validate_terminal_runtime_state_checkpoint :
    FinishedRun → RunCheckpoint → Option String
validate_terminal_runtime_state_checkpoint run c =
    if not (is_terminal_phase c.phase)
    then none
    else ensure c.terminal_boundary "terminal runtime checkpoint must set terminal_boundary=true" (
        ensure (not c.approval_state.awaiting_approval)
          "terminal runtime checkpoint cannot leave approval_state.awaiting_approval active"
          (check_by_phase run c c.phase))

-- `{:?}` of an optional phase.
abbrev pub debug_option : Option RunPhase → String
debug_option none = "None"
debug_option (some phase) = concat ("Some(" ∷ debug_name phase ∷ ")" ∷ [])

abbrev pub unresolved : List InterruptHistoryEntry → List InterruptHistoryEntry
unresolved history = filter is_open_interrupt history

abbrev pub is_approval_kind : InterruptKind → Bool
is_approval_kind approval_required = true
is_approval_kind operator_interrupt = false

-- Exactly one interrupt is unresolved, and it waits for an approval.
abbrev pub one_approval : List InterruptHistoryEntry → Bool
one_approval [] = false
one_approval (e ∷ []) = is_approval_kind e.kind
one_approval (e ∷ f ∷ es) = false

abbrev pub is_resolved_operator : InterruptHistoryEntry → Bool
is_resolved_operator e = not (is_approval_kind e.kind) && is_some e.resolved_at

abbrev pub at_boundary : BoundaryCheckpoint → Bool
at_boundary b = elim b.phase [ at_approval ↦ true | interrupted ↦ false ]

abbrev pub check_approval :
    Option BoundaryCheckpoint → RunCheckpoint → List InterruptHistoryEntry → Option String
check_approval none c history = some "approval-required run artifact must keep a run checkpoint"
check_approval (some boundary) c history =
    ensure (at_boundary boundary)
      "approval-required run checkpoint must stay in waiting_for_approval"
      (ensure (approval_pending boundary.pending_interrupt)
        "approval-required run checkpoint must carry an approval-required interrupt"
        (ensure c.approval_state.awaiting_approval
          "approval-required final checkpoint must leave approval_state.awaiting_approval active"
          (ensure (one_approval (unresolved history))
            "approval-required run artifact must have exactly one unresolved approval interrupt"
            none)))

abbrev pub check_cancelled : Option BoundaryCheckpoint → List InterruptHistoryEntry → Option String
check_cancelled boundary history =
    ensure (not (is_some boundary)) "cancelled run artifact cannot keep a resumable run checkpoint"
      (ensure (is_empty (unresolved history))
        "cancelled run artifact cannot keep unresolved interrupts"
        (ensure (any is_resolved_operator history)
          "cancelled run artifact must record a resolved operator interrupt" none))

abbrev pub check_ended : Option BoundaryCheckpoint → List InterruptHistoryEntry → Option String
check_ended boundary history =
    ensure (not (is_some boundary)) "terminal run artifact cannot keep a resumable run checkpoint" (
      ensure (is_empty (unresolved history))
        "terminal run artifact cannot keep unresolved interrupts" none)

abbrev pub check_interrupts :
    AgentExitReason
    → Option BoundaryCheckpoint
    → RunCheckpoint
    → List InterruptHistoryEntry
    → Option String
check_interrupts exit_approval_required boundary c history = check_approval boundary c history
check_interrupts exit_cancelled boundary c history = check_cancelled boundary history
check_interrupts _ boundary c history = check_ended boundary history

abbrev pub has_phase : RunPhase → Option RunPhase → Bool
has_phase expected none = false
has_phase expected (some phase) = phase_eq phase expected

-- The last decision and the last entry of the summary, where there are some.
abbrev pub check_decision :
    RunPhase → Option CompletionDecisionRecord → Option String → Option String
check_decision expected none rest = some "final run artifact is missing completion decisions"
check_decision expected (some decision) rest =
    ensure (has_phase expected decision.next_phase)
      (concat (
        "final completion decision next_phase "
        ∷ debug_option decision.next_phase
        ∷ " does not match outcome phase "
        ∷ debug_name expected
        ∷ []))
      rest

abbrev pub check_summary : RunPhase → Option PhaseSummaryEntry → Option String → Option String
check_summary expected none rest = some "final run artifact is missing phase summary"
check_summary expected (some final) rest =
    ensure (phase_eq final.phase expected)
      (concat (
        "final phase summary entry "
        ∷ debug_name final.phase
        ∷ " does not match outcome phase "
        ∷ debug_name expected
        ∷ []))
      (ensure (not (is_some final.exited_at))
        "final phase summary entry must remain open for the terminal/boundary phase" rest)

unfoldable pub validate_final_run_artifact_consistency :
    FinishedRun
    → Option BoundaryCheckpoint
    → RunCheckpoint
    → List InterruptHistoryEntry
    → List PhaseSummaryEntry
    → List CompletionDecisionRecord
    → Option String
validate_final_run_artifact_consistency run boundary c history summary decisions =
    let expected = terminal_phase_for_outcome run.outcome.exit_reason in
    ensure (phase_eq c.phase expected)
      (concat (
        "final run artifact phase "
        ∷ debug_name c.phase
        ∷ " does not match outcome phase "
        ∷ debug_name expected
        ∷ []))
      (check_decision expected (last decisions) (
        check_summary expected (last summary)
          (check_interrupts run.outcome.exit_reason boundary c history)))
