-- ===== src/Types.antt =====
-- src/types.rs and the table of src/tools/catalog.rs.
use local_agent.Base.{String, ◌||◌, Option, List, str_eq, starts_with, if◌then◌else◌}
use local_agent.Json.{Value}

pub data Role : Type 0 where
  system developer user assistant tool : Role

pub record ToolCall : Type 0 where
  pub id : String
  pub name : String
  pub arguments : Value

pub record Message : Type 0 where
  pub role : Role
  pub content : Option String
  pub tool_call_id : Option String
  pub tool_name : Option String
  pub tool_calls : Option (List ToolCall)

pub data SideEffects : Type 0 where
  no_effect filesystem_read filesystem_write shell_exec network browser : SideEffects

unfoldable pub tool_side_effects : String → SideEffects
tool_side_effects tool_name =
    if str_eq tool_name "list_dir"
      || str_eq tool_name "read_file"
      || str_eq tool_name "glob"
      || str_eq tool_name "grep"
    then filesystem_read
    else if str_eq tool_name "update_plan"
    then no_effect
    else if str_eq tool_name "shell"
    then shell_exec
    else if str_eq tool_name "write_file"
        || str_eq tool_name "apply_patch"
        || str_eq tool_name "edit"
        || str_eq tool_name "str_replace"
    then filesystem_write
    else if starts_with tool_name "mcp.playwright."
    then browser
    else if starts_with tool_name "mcp."
    then network
    else no_effect
