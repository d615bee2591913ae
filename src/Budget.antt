-- ===== src/Budget.antt =====
-- src/agent_budget.rs: the counters of tool calls in a run, and the limits that they are held to,
-- with the two checks in the order in which src/agent/gate_paths.rs makes them before a call.
-- The message of an exceeded budget is the data it prints.
pub mod Limits
mod Tests
use local_agent.Base.{
  ℕ, String, Bool, true, false, ◌&&◌, Option, none, some, List, [], ◌∷◌, ltb, u64_max, is_some,
  saturating_add, starts_with, if◌then◌else◌,
}
use local_agent.Types.{
  SideEffects, no_effect, filesystem_read, filesystem_write, shell_exec, network, browser,
  tool_side_effects,
}

pub record ToolCallBudget : Type 0 where
  pub max_wall_time_ms : ℕ
  pub max_total_tool_calls : ℕ
  pub max_mcp_calls : ℕ
  pub max_filesystem_read_calls : ℕ
  pub max_filesystem_write_calls : ℕ
  pub max_shell_calls : ℕ
  pub max_network_calls : ℕ
  pub max_browser_calls : ℕ
  pub tool_exec_timeout_ms : ℕ
  pub post_write_verify_timeout_ms : ℕ

pub record ToolCallBudgetUsage : Type 0 where
  pub total_tool_calls : ℕ
  pub mcp_calls : ℕ
  pub filesystem_read_calls : ℕ
  pub filesystem_write_calls : ℕ
  pub shell_calls : ℕ
  pub network_calls : ℕ
  pub browser_calls : ℕ

abbrev pub no_usage : ToolCallBudgetUsage
no_usage = record {
  total_tool_calls = 0;
  mcp_calls = 0;
  filesystem_read_calls = 0;
  filesystem_write_calls = 0;
  shell_calls = 0;
  network_calls = 0;
  browser_calls = 0;
}

-- What the three messages say: the count that the call would have made, and the limit.
pub data BudgetExceeded : Type 0 where
  total_exceeded : (next limit : ℕ) → BudgetExceeded
  kind_exceeded : (label : String) (next limit : ℕ) → BudgetExceeded
  mcp_exceeded : (next limit : ℕ) → BudgetExceeded

-- `usize` is 64 bits wide.
abbrev pub add_one : ℕ → ℕ
add_one n = saturating_add u64_max n 1

abbrev pub side_effect_limit_label : SideEffects → String
side_effect_limit_label filesystem_read = "filesystem_read"
side_effect_limit_label filesystem_write = "filesystem_write"
side_effect_limit_label shell_exec = "shell"
side_effect_limit_label network = "network"
side_effect_limit_label browser = "browser"
side_effect_limit_label no_effect = "none"

unfoldable pub budget_limit_for_side_effects : ToolCallBudget → SideEffects → ℕ
budget_limit_for_side_effects budget filesystem_read = budget.max_filesystem_read_calls
budget_limit_for_side_effects budget filesystem_write = budget.max_filesystem_write_calls
budget_limit_for_side_effects budget shell_exec = budget.max_shell_calls
budget_limit_for_side_effects budget network = budget.max_network_calls
budget_limit_for_side_effects budget browser = budget.max_browser_calls
budget_limit_for_side_effects budget no_effect = 0

unfoldable pub budget_usage_for_side_effects : ToolCallBudgetUsage → SideEffects → ℕ
budget_usage_for_side_effects usage filesystem_read = usage.filesystem_read_calls
budget_usage_for_side_effects usage filesystem_write = usage.filesystem_write_calls
budget_usage_for_side_effects usage shell_exec = usage.shell_calls
budget_usage_for_side_effects usage network = usage.network_calls
budget_usage_for_side_effects usage browser = usage.browser_calls
budget_usage_for_side_effects usage no_effect = 0

abbrev pub increment_kind : ToolCallBudgetUsage → SideEffects → ToolCallBudgetUsage
increment_kind usage filesystem_read = record usage {
  filesystem_read_calls = add_one usage.filesystem_read_calls;
}
increment_kind usage filesystem_write = record usage {
  filesystem_write_calls = add_one usage.filesystem_write_calls;
}
increment_kind usage shell_exec = record usage { shell_calls = add_one usage.shell_calls }
increment_kind usage network = record usage { network_calls = add_one usage.network_calls }
increment_kind usage browser = record usage { browser_calls = add_one usage.browser_calls }
increment_kind usage no_effect = usage

unfoldable pub increment_budget_usage : ToolCallBudgetUsage → SideEffects → ToolCallBudgetUsage
increment_budget_usage usage side_effects =
    increment_kind (record usage { total_tool_calls = add_one usage.total_tool_calls }) side_effects

-- A limit of zero is no limit.
abbrev pub exceeds : ℕ → ℕ → Bool
exceeds limit next = ltb 0 limit && ltb limit next

unfoldable pub check_and_consume_tool_budget :
    ToolCallBudget → ToolCallBudgetUsage → SideEffects → Option BudgetExceeded × ToolCallBudgetUsage
check_and_consume_tool_budget budget usage side_effects =
    let next_total = add_one usage.total_tool_calls in
    let side_effect_limit = budget_limit_for_side_effects budget side_effects in
    let next_side_effect_count = add_one (budget_usage_for_side_effects usage side_effects) in
    if exceeds budget.max_total_tool_calls next_total
    then (some (total_exceeded next_total budget.max_total_tool_calls), usage)
    else if exceeds side_effect_limit next_side_effect_count
    then (
      some (
          kind_exceeded (side_effect_limit_label side_effects) next_side_effect_count
            side_effect_limit),
      usage,
    )
    else (none, increment_budget_usage usage side_effects)

unfoldable pub check_and_consume_mcp_budget :
    ToolCallBudget → ToolCallBudgetUsage → Bool → Option BudgetExceeded × ToolCallBudgetUsage
check_and_consume_mcp_budget budget usage is_mcp_tool =
    let next_mcp = add_one usage.mcp_calls in
    if is_mcp_tool
    then (if exceeds budget.max_mcp_calls next_mcp
        then (some (mcp_exceeded next_mcp budget.max_mcp_calls), usage)
        else (none, record usage { mcp_calls = next_mcp }))
    else (none, usage)

abbrev pub then_mcp :
    ToolCallBudget
    → Bool
    → Option BudgetExceeded × ToolCallBudgetUsage
    → Option BudgetExceeded × ToolCallBudgetUsage
then_mcp budget is_mcp_tool (some e, usage) = (some e, usage)
then_mcp budget is_mcp_tool (none, usage) = check_and_consume_mcp_budget budget usage is_mcp_tool

-- The two checks before a call. The run is over at the first that reports an exceeded budget.
unfoldable pub charge :
    ToolCallBudget → ToolCallBudgetUsage → String → Option BudgetExceeded × ToolCallBudgetUsage
charge budget usage name =
    then_mcp budget (starts_with name "mcp.")
      (check_and_consume_tool_budget budget usage (tool_side_effects name))

-- The calls that are made, of those that are asked for in turn.
unfoldable pub charge_all : ToolCallBudget → ToolCallBudgetUsage → List String → List String
unfolding charge
charge_all budget usage [] = []
charge_all budget usage (name ∷ names) =
    let rest = charge_all budget (charge budget usage name).1 names in
    if is_some (charge budget usage name).0 then [] else name ∷ rest
