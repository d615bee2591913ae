-- ===== src/Artifact/Finalize.antt =====
-- What the end of a run leaves on disk: `runtime_checkpoint_record_for_outcome` of
-- src/agent_runtime/checkpoint.rs, `extract_session_messages` of src/store/render.rs, and the second half
-- of `finalize_run_artifacts` of src/agent_runtime/finalize.rs. The arguments for a resumption, the text
-- of a JSON value and its parser are parameters.
use local_agent.Base.{
  String, Bool, false, not, ◌||◌, Option, none, some, List, [], ◌∷◌, map, and_then, is_empty,
  str_eq, contains, starts_with, unwrap_or, filter, if◌then◌else◌,
}
use mathlib.Core.Option
use local_agent.Json.{Value}
use local_agent.Types.{Message, ToolCall, system, developer}
use local_agent.ToolFacts.{ToolFact}
use local_agent.ToolFacts.Transcript.{tool_facts_from_transcript}
use local_agent.RunPhase.{
  ExecutionTier, RunCheckpoint, PhaseSummaryEntry, InterruptHistoryEntry, CompletionDecisionRecord,
  ToolFactEnvelope, transcript,
}
use local_agent.RunPhase.Resume.{
  BoundaryPhase, BoundaryCheckpoint, at_approval, interrupted, PendingApprovalToolCall,
  RuntimeRunCheckpointRecord,
}
use local_agent.Artifact.{
  ToolDecision, FinishedRun, TaskContract, contract_command, checkpoint_for_outcome, find_last,
  final_approval, runtime_state_checkpoint_for_outcome,
}
use local_agent.Artifact.History.{
  phase_summary_for_outcome_with_prior, completion_decisions_for_outcome_with_prior,
  interrupt_history_for_outcome_with_prior,
}
use local_agent.Artifact.Check.{
  validate_terminal_runtime_state_checkpoint, validate_final_run_artifact_consistency,
}

-- `tool_fact_envelopes_from_facts` of src/agent/tool_facts.rs, with the transcript as the source.
unfoldable pub tool_fact_envelopes_from_facts :
    List ToolFact → Option String → Option String → List ToolFactEnvelope
tool_fact_envelopes_from_facts facts phase checkpoint_phase =
    map
      (λ fact. record {
        fact = fact;
        source = transcript;
        phase = phase;
        checkpoint_phase = checkpoint_phase;
      })
      facts

abbrev pub checkpoint_phase_name : BoundaryPhase → String
checkpoint_phase_name at_approval = "waiting_for_approval"
checkpoint_phase_name interrupted = "interrupted"

abbrev pub is_prologue : Message → Bool
is_prologue m = elim m.role [
  | system ↦ contains (unwrap_or m.content "") "You are an agent that may call tools"
  | _ ↦ false
]

abbrev pub is_handed_over : Message → Bool
is_handed_over m = elim m.role [
  | developer ↦
      starts_with (unwrap_or m.content "") "TASK MEMORY (user-authored, authoritative)"
      || starts_with (unwrap_or m.content "") "PLANNER HANDOFF (openagent.plan.v1)"
  | _ ↦ false
]

-- The prologue is left out where it is the first message, and what each run adds anew anywhere.
unfoldable pub extract_session_messages : List Message → List Message
extract_session_messages [] = []
extract_session_messages (m ∷ ms) =
    let rest = filter (λ (n : Message). not (is_handed_over n)) ms in
    if is_prologue m || is_handed_over m then rest else m ∷ rest

abbrev pub pending_call : (Value → String) → ToolDecision → ToolCall → PendingApprovalToolCall
pending_call to_string decision call = record {
  tool_call_id = call.id;
  tool_name = call.name;
  arguments = to_string call.arguments;
  approval_id = decision.approval_id;
  reason = decision.reason;
}

unfoldable pub pending_approval_tool_call :
    (Value → String) → FinishedRun → Option PendingApprovalToolCall
pending_approval_tool_call to_string run = and_then (final_approval run) λ decision.
    Option.map (pending_call to_string decision)
      (find_last (λ (call : ToolCall). str_eq call.id decision.tool_call_id) run.outcome.tool_calls)

-- What a run is started with, as far as it is recorded. `resume_argv` stands for `build_resume_argv`.
pub record FinalizeInput : Type 0 where
  pub prompt : String
  pub resume_argv : List String
  pub validation_command_override : Option String
  pub exact_final_answer_override : Option String
  pub execution_tier : ExecutionTier
  pub task_contract : TaskContract
  pub prior : Option RuntimeRunCheckpointRecord
  pub to_string : Value → String
  pub parse : String → Option Value

-- The facts of the transcript.
abbrev pub finalize_facts : FinishedRun → FinalizeInput → List ToolFact
finalize_facts run input =
    tool_facts_from_transcript input.parse
      (contract_command (some input.task_contract) input.prompt) run.outcome.tool_calls
      run.outcome.messages

abbrev pub not_nil : String → Option String
not_nil s = if str_eq s "" then none else some s

abbrev pub or_transcript :
    List ToolFact → BoundaryCheckpoint → List ToolFactEnvelope → List ToolFactEnvelope
or_transcript facts boundary envelopes =
    if is_empty envelopes
    then tool_fact_envelopes_from_facts facts (some "checkpoint_boundary")
        (some (checkpoint_phase_name boundary.phase))
    else envelopes

abbrev pub record_at :
    FinishedRun
    → FinalizeInput
    → List ToolFactEnvelope
    → BoundaryCheckpoint
    → RuntimeRunCheckpointRecord
record_at run input envelopes boundary =
    let state =
      runtime_state_checkpoint_for_outcome run input.prompt input.execution_tier envelopes
        (some input.task_contract) in
    record {
      schema_version = "openagent.runtime_checkpoint.v1";
      runtime_run_id = run.run_id;
      prompt = input.prompt;
      resume_argv = input.resume_argv;
      validation_command_override = input.validation_command_override;
      exact_final_answer_override = input.exact_final_answer_override;
      checkpoint = some boundary;
      runtime_state_checkpoint = state;
      execution_tier = input.execution_tier;
      resume_session_messages = extract_session_messages run.outcome.messages;
      interrupt_history = interrupt_history_for_outcome_with_prior run input.prior;
      phase_summary = phase_summary_for_outcome_with_prior run input.prior;
      completion_decisions = completion_decisions_for_outcome_with_prior run state input.prior;
      tool_facts = finalize_facts run input;
      tool_fact_envelopes = or_transcript (finalize_facts run input) boundary envelopes;
      pending_tool_call = pending_approval_tool_call input.to_string run;
      boundary_output = not_nil run.outcome.final_output;
    }

unfoldable pub runtime_checkpoint_record_for_outcome :
    FinishedRun → FinalizeInput → List ToolFactEnvelope → Option RuntimeRunCheckpointRecord
runtime_checkpoint_record_for_outcome run input envelopes =
    Option.map (record_at run input envelopes) (checkpoint_for_outcome run)

-- What goes into the artifact of the run.
pub record RunArtifact : Type 0 where
  pub tool_fact_envelopes : List ToolFactEnvelope
  pub run_checkpoint : Option BoundaryCheckpoint
  pub final_checkpoint : RunCheckpoint
  pub interrupt_history : List InterruptHistoryEntry
  pub phase_summary : List PhaseSummaryEntry
  pub completion_decisions : List CompletionDecisionRecord

-- An error, or the artifact that is written, with the record for a resumption, which is deleted where
-- there is none.
pub data Finalized : Type 0 where
  rejected : (error : String) → Finalized
  recorded : RunArtifact → Option RuntimeRunCheckpointRecord → Finalized

abbrev pub finalize_envelopes : FinishedRun → FinalizeInput → List ToolFactEnvelope
finalize_envelopes run input =
    tool_fact_envelopes_from_facts (finalize_facts run input) (some "finalize") (
      Option.map (λ (b : BoundaryCheckpoint). checkpoint_phase_name b.phase)
        (checkpoint_for_outcome run))

abbrev pub artifact_of : FinishedRun → FinalizeInput → RunArtifact
artifact_of run input =
    let state =
      runtime_state_checkpoint_for_outcome run input.prompt input.execution_tier
        (finalize_envelopes run input) (some input.task_contract) in
    record {
      tool_fact_envelopes = finalize_envelopes run input;
      run_checkpoint = checkpoint_for_outcome run;
      final_checkpoint = state;
      interrupt_history = interrupt_history_for_outcome_with_prior run input.prior;
      phase_summary = phase_summary_for_outcome_with_prior run input.prior;
      completion_decisions = completion_decisions_for_outcome_with_prior run state input.prior;
    }

abbrev pub record_checked : FinishedRun → FinalizeInput → Option String → Option String → Finalized
record_checked run input (some error) consistent = rejected error
record_checked run input none (some error) = rejected error
record_checked run input none none =
    recorded (artifact_of run input)
      (runtime_checkpoint_record_for_outcome run input (finalize_envelopes run input))

unfoldable pub finalize_run_artifacts : FinishedRun → FinalizeInput → Finalized
finalize_run_artifacts run input =
    let artifact = artifact_of run input in
    record_checked run input
      (validate_terminal_runtime_state_checkpoint run artifact.final_checkpoint)
      (validate_final_run_artifact_consistency run artifact.run_checkpoint artifact.final_checkpoint
        artifact.interrupt_history artifact.phase_summary artifact.completion_decisions)
