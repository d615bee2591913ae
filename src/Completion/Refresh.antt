-- ===== src/Completion/Refresh.antt =====
-- The phase of a run follows its facts: a failed validation puts it into repair.
use local_agent.Base.{
  String, ◌≡◌, refl, sym, ◌∙◌, ◌↔◌, Bool, true, false, some, List, any, arith, to_ascii_lowercase,
}
use local_agent.Types.{ToolCall}
use local_agent.ToolFacts.{ToolExecutionRecord, ToolFact, tool_facts_from_calls_and_executions}
use local_agent.ToolFacts.Guard.{
  validates, required_validation_command_satisfied_from_facts,
  required_validation_failure_needs_repair_from_facts,
}
use local_agent.ToolFacts.Repair.{LastFailed, needs_repair-LastFailed}
use local_agent.RunPhase.{RunCheckpoint, executing}
use local_agent.Completion.{collect_validation_facts, decide_validation_phase_transition}
use local_agent.Completion.Checkpoint.{refreshed_facts, refresh_phase_state_from_tool_facts}

-- The checkpoint that tools leave, for the facts of the run up to then.
pub record Refreshed (required : String) (facts : List ToolFact) (c : RunCheckpoint) : Type 0 where
  pub repairs :
      (c.validation_state.repair_mode ≡ true) ↔ LastFailed (to_ascii_lowercase required) facts
  pub repair_executes :
      c.validation_state.repair_mode ≡ true
      → (c.phase ≡ executing) × (c.validation_state.collecting_final_answer ≡ false)
  pub satisfies :
      c.validation_state.satisfied ≡ any (validates (to_ascii_lowercase required) true) facts

abbrev after_tools : RunCheckpoint → List ToolCall → List ToolExecutionRecord → Bool → RunCheckpoint
after_tools c calls executions successful_write =
    (refresh_phase_state_from_tool_facts c calls executions successful_write).1

refresh-repair_mode :
    (c : RunCheckpoint) (calls : List ToolCall) (executions : List ToolExecutionRecord)
    (successful_write : Bool)
    → c.validation_state.repair_mode ≡ false
    → let after = after_tools c calls executions successful_write in
      (after.validation_state.repair_mode ≡ (refreshed_facts c calls executions).repair_needed)
      × (after.validation_state.repair_mode ≡ true
          → (after.phase ≡ executing) × (after.validation_state.collecting_final_answer ≡ false))
      × (after.validation_state.satisfied ≡ (refreshed_facts c calls executions).satisfied)
unfolding refresh_phase_state_from_tool_facts decide_validation_phase_transition
refresh-repair_mode c calls executions successful_write h =
    (ground arith, λ on. ground arith, ground arith)

module _ (required : String) (c : RunCheckpoint) (calls : List ToolCall)
    (executions : List ToolExecutionRecord)
    (command : c.validation_state.required_command ≡ some required) where
  repair_needed-required :
      (refreshed_facts c calls executions).repair_needed
      ≡ required_validation_failure_needs_repair_from_facts
          (some required)
          (tool_facts_from_calls_and_executions (some required) calls executions)
  unfolding collect_validation_facts
  repair_needed-required = rw command refl

  satisfied-required :
      (refreshed_facts c calls executions).satisfied
      ≡ any
          (validates (to_ascii_lowercase required) true)
          (tool_facts_from_calls_and_executions (some required) calls executions)
  unfolding collect_validation_facts required_validation_command_satisfied_from_facts
  satisfied-required = rw command refl

-- After tools, a run with a required command that was not in repair is put into repair, and back to
-- executing, exactly where the last fact that decides is a failed run of the command; and its checkpoint
-- counts the validation as done exactly where some run of the command succeeded.
pub refresh-Refreshed :
    (required : String) (c : RunCheckpoint) (calls : List ToolCall)
    (executions : List ToolExecutionRecord) (successful_write : Bool)
    → c.validation_state.required_command ≡ some required
    → c.validation_state.repair_mode ≡ false
    → Refreshed required
        (tool_facts_from_calls_and_executions (some required) calls executions)
        (refresh_phase_state_from_tool_facts c calls executions successful_write).1
refresh-Refreshed required c calls executions successful_write command no_repair =
    let (repair, executes, satisfied) =
      refresh-repair_mode c calls executions successful_write no_repair in
    let facts = tool_facts_from_calls_and_executions (some required) calls executions in
    let last = needs_repair-LastFailed required calls executions in
    let needed = repair_needed-required required c calls executions command in
    record {
      repairs = (
        λ on. last.0 (sym needed ∙ (sym repair ∙ on)),
        λ failed. repair ∙ (needed ∙ last.1 failed),
      );
      repair_executes = executes;
      satisfies = satisfied ∙ satisfied-required required c calls executions command;
    }
