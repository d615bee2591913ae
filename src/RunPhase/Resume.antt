-- ===== src/RunPhase/Resume.antt =====
-- The resumption of a checkpoint: `decide_runtime_checkpoint_resume` and
-- `resume_phase_from_checkpoint_state` of src/agent/completion_policy.rs, and
-- `transition_runtime_checkpoint_to_executing` of src/agent/interrupts.rs, over the record of
-- src/store/types.rs.
use local_agent.Base.{
  String, Bool, true, false, not, ◌&&◌, ◌||◌, Option, none, some, List, [], ◌∷◌, ◌++◌, any, ltb,
  is_some, and_then, u32_max, saturating_add, concat, if◌then◌else◌,
}
use local_agent.Types.{Message}
use local_agent.ToolFacts.{ToolFact}
use local_agent.RunPhase.{
  RunPhase, executing, verifying_changes, validating, collecting_final_answer, waiting_for_approval,
  waiting_for_operator_input, setup, planning, finalizing, done, failed, cancelled, ExecutionTier,
  RunCheckpoint, InterruptHistoryEntry, PhaseSummaryEntry, CompletionDecisionRecord,
  ToolFactEnvelope, phase_eq,
}

pub data BoundaryPhase : Type 0 where
  at_approval interrupted : BoundaryPhase

pub data BoundaryInterruptKind : Type 0 where
  approval_interrupt operator_message : BoundaryInterruptKind

pub record BoundaryInterrupt : Type 0 where
  pub kind : BoundaryInterruptKind
  pub reason : Option String

-- `RunCheckpointV1` of src/store/types.rs.
pub record BoundaryCheckpoint : Type 0 where
  pub schema_version : String
  pub phase : BoundaryPhase
  pub terminal_boundary : Bool
  pub pending_interrupt : Option BoundaryInterrupt

pub record PendingApprovalToolCall : Type 0 where
  pub tool_call_id : String
  pub tool_name : String
  pub arguments : String
  pub approval_id : Option String
  pub reason : Option String

pub record RuntimeRunCheckpointRecord : Type 0 where
  pub schema_version : String
  pub runtime_run_id : String
  pub prompt : String
  pub resume_argv : List String
  pub validation_command_override : Option String
  pub exact_final_answer_override : Option String
  pub checkpoint : Option BoundaryCheckpoint
  pub runtime_state_checkpoint : RunCheckpoint
  pub execution_tier : ExecutionTier
  pub resume_session_messages : List Message
  pub interrupt_history : List InterruptHistoryEntry
  pub phase_summary : List PhaseSummaryEntry
  pub completion_decisions : List CompletionDecisionRecord
  pub tool_facts : List ToolFact
  pub tool_fact_envelopes : List ToolFactEnvelope
  pub pending_tool_call : Option PendingApprovalToolCall
  pub boundary_output : Option String

pub data ResumeKind : Type 0 where
  approval_granted operator_continue : ResumeKind

pub record ResumeDecision : Type 0 where
  pub kind : ResumeKind
  pub phase : RunPhase
  pub approval_id : Option String

-- What the four messages say.
pub data ResumeError : Type 0 where
  missing_boundary_checkpoint : (run_id : String) → ResumeError
  boundary_phase_is : (run_id : String) (phase : BoundaryPhase) → ResumeError
  missing_approval_interrupt : (run_id : String) → ResumeError
  runtime_phase_is : (run_id : String) (phase : RunPhase) → ResumeError

pub data Resumption : Type 0 where
  resumes : ResumeDecision → Resumption
  refused : ResumeError → Resumption

abbrev pub approval_pending : Option BoundaryInterrupt → Bool
approval_pending none = false
approval_pending (some it) = elim it.kind [ approval_interrupt ↦ true | operator_message ↦ false ]

-- `approval_id.clone().or_else(…)`.
abbrev pub or_pending_id : Option String → Option PendingApprovalToolCall → Option String
or_pending_id (some id) pending = some id
or_pending_id none pending = and_then pending (λ tool. tool.approval_id)

abbrev pub resume_at_boundary : RuntimeRunCheckpointRecord → Option BoundaryCheckpoint → Resumption
resume_at_boundary checkpoint none = refused (missing_boundary_checkpoint checkpoint.runtime_run_id)
resume_at_boundary checkpoint (some boundary) = elim boundary.phase [
  | interrupted ↦ refused (boundary_phase_is checkpoint.runtime_run_id interrupted)
  | at_approval ↦
      if approval_pending boundary.pending_interrupt
      then resumes (record {
        kind = approval_granted;
        phase = waiting_for_approval;
        approval_id =
            or_pending_id checkpoint.runtime_state_checkpoint.approval_state.approval_id
              checkpoint.pending_tool_call;
      })
      else refused (missing_approval_interrupt checkpoint.runtime_run_id)
]

abbrev pub resume_in : RuntimeRunCheckpointRecord → RunPhase → Resumption
resume_in checkpoint waiting_for_approval = resume_at_boundary checkpoint checkpoint.checkpoint
resume_in checkpoint waiting_for_operator_input =
    resumes
      (record { kind = operator_continue; phase = waiting_for_operator_input; approval_id = none })
resume_in checkpoint phase = refused (runtime_phase_is checkpoint.runtime_run_id phase)

unfoldable pub decide_runtime_checkpoint_resume : RuntimeRunCheckpointRecord → Resumption
decide_runtime_checkpoint_resume checkpoint =
    resume_in checkpoint checkpoint.runtime_state_checkpoint.phase

unfoldable pub resume_phase_from_checkpoint_state : RuntimeRunCheckpointRecord → RunPhase
resume_phase_from_checkpoint_state checkpoint =
    let state = checkpoint.runtime_state_checkpoint in
    if state.validation_state.collecting_final_answer && state.validation_state.satisfied
    then collecting_final_answer
    else if is_some state.validation_state.required_command && not state.validation_state.satisfied
    then validating
    else if ltb 0 state.retry_state.post_write_guard_retry_count
        || ltb 0 state.retry_state.post_write_follow_on_turn_count
    then verifying_changes
    else executing

-- `iter_mut().rev().find(p)`, followed by a write.
unfoldable pub update_last {ℓ} : {A : Type ℓ} → (A → Bool) → (A → A) → List A → List A
update_last p f [] = []
update_last p f (x ∷ xs) =
    let later = update_last p f xs in
    if any p xs then x ∷ later else if p x then f x ∷ xs else x ∷ xs

abbrev pub is_open_phase : RunPhase → PhaseSummaryEntry → Bool
is_open_phase phase entry = phase_eq entry.phase phase && not (is_some entry.exited_at)

abbrev pub is_open_interrupt : InterruptHistoryEntry → Bool
is_open_interrupt entry = not (is_some entry.resolved_at)

-- The state that runs on. `{:?}` prints the name of a phase as the source spells it.
abbrev pub resumed_state : RunPhase → RunCheckpoint → RunCheckpoint
resumed_state phase state = record state {
  phase = phase;
  terminal_boundary = false;
  approval_state = record { approval_id = none; tool_call_id = none; awaiting_approval = false };
  step_index = saturating_add u32_max state.step_index 1;
}

abbrev pub debug_name : RunPhase → String
debug_name setup = "Setup"
debug_name planning = "Planning"
debug_name executing = "Executing"
debug_name waiting_for_approval = "WaitingForApproval"
debug_name waiting_for_operator_input = "WaitingForOperatorInput"
debug_name verifying_changes = "VerifyingChanges"
debug_name validating = "Validating"
debug_name collecting_final_answer = "CollectingFinalAnswer"
debug_name finalizing = "Finalizing"
debug_name done = "Done"
debug_name failed = "Failed"
debug_name cancelled = "Cancelled"

abbrev pub resume_record : RunPhase → RunPhase → CompletionDecisionRecord
resume_record prior resumed = record {
  kind = "resume";
  allowed = true;
  retryable = false;
  next_phase = some resumed;
  reason = concat (
      "checkpoint resume accepted from "
      ∷ debug_name prior
      ∷ " and transitioned back to "
      ∷ debug_name resumed
      ∷ []);
  unmet_requirements = [];
}

-- `now` is the clock's time, as text.
unfoldable pub transition_runtime_checkpoint_to_executing :
    String → RuntimeRunCheckpointRecord → RuntimeRunCheckpointRecord
transition_runtime_checkpoint_to_executing now checkpoint =
    let prior_phase = checkpoint.runtime_state_checkpoint.phase in
    let resumed_phase = resume_phase_from_checkpoint_state checkpoint in
    record checkpoint {
      phase_summary =
          update_last (is_open_phase prior_phase) (λ entry. record entry { exited_at = some now })
            checkpoint.phase_summary
          ++ record { phase = resumed_phase; entered_at = now; exited_at = none } ∷ [];
      interrupt_history =
          update_last is_open_interrupt (λ entry. record entry { resolved_at = some now })
            checkpoint.interrupt_history;
      runtime_state_checkpoint = resumed_state resumed_phase checkpoint.runtime_state_checkpoint;
      checkpoint = none;
      pending_tool_call = none;
      completion_decisions =
          checkpoint.completion_decisions ++ resume_record prior_phase resumed_phase ∷ [];
    }
