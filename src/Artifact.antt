-- ===== src/Artifact.antt =====
-- src/agent_runtime/checkpoint.rs: the checkpoint that a run starts with, and the last one of a run that
-- has ended.
pub mod Check
pub mod History
pub mod Finalize
pub mod Accepted
pub mod Summary
pub mod Resumed
mod Tests
use local_agent.Base.{
  ℕ, String, Bool, true, false, not, ◌&&◌, Option, none, some, List, [], ◌∷◌, ◌++◌, any, is_empty,
  is_some, leb, map, and_then, str_eq, unwrap_or, if◌then◌else◌,
}
use mathlib.Core.Option
use local_agent.Gate.{ExecTargetKind, host, docker}
use local_agent.ImplGuard.{prompt_requires_tool_only}
use local_agent.ToolFacts.Guard.{required_validation_command_satisfied_from_facts}
use local_agent.RunPhase.{
  RunPhase, setup, executing, waiting_for_approval, done, failed, cancelled, ExecutionTier,
  docker_isolated, scoped_host_shell, scoped_host_write, read_only_host, RunCheckpoint,
  PhaseSummaryEntry, approval_required, operator_interrupt, InterruptHistoryEntry,
  CompletionDecisionRecord, ToolFactEnvelope, phase_eq,
}
use local_agent.RunPhase.Initial.{
  default_retry_state, default_tool_protocol_state, start_checkpoint,
}
use local_agent.RunPhase.Resume.{
  BoundaryCheckpoint, at_approval, approval_interrupt, RuntimeRunCheckpointRecord, update_last,
}
use local_agent.Completion.{collect_validation_facts_from_checkpoint}
use local_agent.Completion.Answer.{
  ValidationRequirement, FinalAnswerMode, required_validation_command, exact_final_answer_required,
}
use local_agent.Completion.Run.{
  Agent, AgentExitReason, exit_ok, exit_approval_required, exit_cancelled, AgentOutcome,
}

-- The fields of `ToolDecisionRecord` that are read here.
pub record ToolDecision : Type 0 where
  pub step : ℕ
  pub tool_call_id : String
  pub decision : String
  pub reason : Option String
  pub approval_id : Option String

-- `AgentOutcome`: what a completion decides, and the rest that is read here.
pub record FinishedRun : Type 0 where
  pub run_id : String
  pub started_at : String
  pub finished_at : String
  pub outcome : AgentOutcome
  pub tool_decisions : List ToolDecision

pub record TaskContract : Type 0 where
  pub validation_requirement : ValidationRequirement
  pub final_answer_mode : FinalAnswerMode

-- What a contract, or else the prompt, requires.
abbrev pub contract_command : Option TaskContract → String → Option String
contract_command contract prompt =
    required_validation_command
      (Option.map (λ (c : TaskContract). c.validation_requirement) contract) prompt

abbrev pub contract_exact : Option TaskContract → String → Bool
contract_exact contract prompt =
    exact_final_answer_required (Option.map (λ (c : TaskContract). c.final_answer_mode) contract)
      prompt

unfoldable pub initial_runtime_state_checkpoint :
    ExecutionTier → String → Option TaskContract → RunCheckpoint
initial_runtime_state_checkpoint execution_tier prompt contract =
    start_checkpoint execution_tier (prompt_requires_tool_only prompt)
      (contract_command contract prompt) (contract_exact contract prompt)

-- `initial_runtime_checkpoint` of src/agent.rs, whose agent has the two requirements.
unfoldable pub initial_runtime_checkpoint :
    ExecTargetKind → Bool → Bool → Agent → String → RunCheckpoint
initial_runtime_checkpoint target allow_shell allow_write agent user_prompt =
    start_checkpoint
      (elim target [
        | docker ↦ docker_isolated
        | host ↦
            if allow_shell
            then scoped_host_shell
            else if allow_write
            then scoped_host_write
            else read_only_host
      ])
      (prompt_requires_tool_only user_prompt)
      (required_validation_command agent.validation_requirement user_prompt)
      (exact_final_answer_required agent.final_answer_mode user_prompt)

unfoldable pub is_terminal_phase : RunPhase → Bool
is_terminal_phase done = true
is_terminal_phase failed = true
is_terminal_phase cancelled = true
is_terminal_phase _ = false

unfoldable pub terminal_phase_for_outcome : AgentExitReason → RunPhase
terminal_phase_for_outcome exit_approval_required = waiting_for_approval
terminal_phase_for_outcome exit_cancelled = cancelled
terminal_phase_for_outcome exit_ok = done
terminal_phase_for_outcome _ = failed

unfoldable pub checkpoint_for_outcome : FinishedRun → Option BoundaryCheckpoint
checkpoint_for_outcome run = elim run.outcome.exit_reason [
  | exit_approval_required ↦ some (record {
    schema_version = "openagent.run_checkpoint.v1";
    phase = at_approval;
    terminal_boundary = true;
    pending_interrupt =
        some (record { kind = approval_interrupt; reason = some run.outcome.final_output });
  })
  | _ ↦ none
]

-- `iter().rev().find(p)`.
unfoldable pub find_last {ℓ} : {A : Type ℓ} → (A → Bool) → List A → Option A
find_last p [] = none
find_last p (x ∷ xs) =
    let later = find_last p xs in if any p xs then later else if p x then some x else none

abbrev pub final_approval : FinishedRun → Option ToolDecision
final_approval run =
    find_last (λ (d : ToolDecision). str_eq d.decision "require_approval") run.tool_decisions

abbrev pub max_step : List ToolDecision → ℕ
max_step [] = 0
max_step (d ∷ ds) = let rest = max_step ds in if leb d.step rest then rest else d.step

abbrev pub asks_approval : AgentExitReason → Bool
asks_approval exit_approval_required = true
asks_approval _ = false

abbrev pub facts_satisfy : Option String → List ToolFactEnvelope → Bool
facts_satisfy required envelopes =
    required_validation_command_satisfied_from_facts required
      (map (λ (envelope : ToolFactEnvelope). envelope.fact) envelopes)

unfoldable pub runtime_state_checkpoint_for_outcome :
    FinishedRun
    → String
    → ExecutionTier
    → List ToolFactEnvelope
    → Option TaskContract
    → RunCheckpoint
runtime_state_checkpoint_for_outcome run prompt execution_tier envelopes contract = record {
  schema_version = "openagent.runtime_state_checkpoint.v1";
  phase = terminal_phase_for_outcome run.outcome.exit_reason;
  step_index = max_step run.tool_decisions;
  execution_tier = execution_tier;
  terminal_boundary = true;
  retry_state = default_retry_state;
  tool_protocol_state = default_tool_protocol_state;
  validation_state = record {
    required_command = contract_command contract prompt;
    satisfied = facts_satisfy (contract_command contract prompt) envelopes;
    repair_mode = false;
    exact_final_answer_required = contract_exact contract prompt;
    collecting_final_answer = contract_exact contract prompt;
  };
  approval_state = record {
    approval_id = and_then (final_approval run) (λ d. d.approval_id);
    tool_call_id = Option.map (λ (d : ToolDecision). d.tool_call_id) (final_approval run);
    awaiting_approval = asks_approval run.outcome.exit_reason;
  };
  active_plan_step_id = none;
  last_tool_fact_envelopes = envelopes;
}
