-- ===== src/Budget/Tests.antt =====
-- Runs of the budget.
use local_agent.Base.{◌+◌, ◌≤◌, String, [], ◌∷◌, List, arith}
use local_agent.Types.{shell_exec}
use local_agent.Budget.{
  ToolCallBudget, no_usage, charge_all, budget_limit_for_side_effects,
  budget_usage_for_side_effects,
}
use local_agent.Budget.Limits.{kind, limit_of, usage_of, count_calls, charge_all-fits}

abbrev two_shells : ToolCallBudget
two_shells = record {
  max_wall_time_ms = 0;
  max_total_tool_calls = 0;
  max_mcp_calls = 0;
  max_filesystem_read_calls = 0;
  max_filesystem_write_calls = 0;
  max_shell_calls = 2;
  max_network_calls = 0;
  max_browser_calls = 0;
  tool_exec_timeout_ms = 0;
  post_write_verify_timeout_ms = 0;
}

abbrev four_calls : List String
four_calls = "shell" ∷ "read_file" ∷ "shell" ∷ "shell" ∷ []

charge_all-fits_example :
    count_calls (kind shell_exec) (charge_all two_shells no_usage four_calls)
      + usage_of no_usage (kind shell_exec)
    ≤ limit_of two_shells (kind shell_exec)
unfolding budget_limit_for_side_effects budget_usage_for_side_effects
charge_all-fits_example =
    charge_all-fits two_shells no_usage four_calls (kind shell_exec) (omega arith) (omega arith)
      (omega arith)
