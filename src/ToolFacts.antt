-- ===== src/ToolFacts.antt =====
-- src/agent/tool_facts.rs: what a run has read, written, run and validated, as facts in the order of
-- the executions, and what the runtime concludes from them.
pub mod Guard
pub mod Guarded
pub mod Order
pub mod Repair
pub mod Readback
pub mod Transcript
mod Tests
use local_agent.Base.{
  ℕ, String, Bool, true, false, not, ◌&&◌, ◌||◌, Option, none, some, List, [], ◌∷◌, ◌++◌, map,
  and_then, str_eq, contains, concat, decimal, u32_max, saturating_add, unwrap_or, is_some,
  is_blank, join, to_ascii_lowercase, if◌then◌else◌, drop,
}
use mathlib.Core.Option
use local_agent.Json.{
  Value, Items, Fields, text, array, object, nil, cons, end, field, get_field, get_str, as_str,
}
use local_agent.Types.{ToolCall}
use local_agent.ToolPath.{normalize_tool_path}

-- `ToolExecutionRecord` of src/agent_impl_guard.rs.
pub record ToolExecutionRecord : Type 0 where
  pub name : String
  pub path : Option String
  pub ok : Bool
  pub changed : Option Bool

pub data ToolFact : Type 0 where
  read : (sequence : ℕ) (tool_call_id tool path : String) (ok : Bool) → ToolFact
  write :
      (sequence : ℕ) (tool_call_id tool path : String) (ok : Bool) (changed : Option Bool)
      → ToolFact
  shell : (sequence : ℕ) (tool_call_id command : String) (ok : Bool) → ToolFact
  validation : (sequence : ℕ) (tool_call_id command : String) (ok : Bool) → ToolFact

unfoldable pub sequence : ToolFact → ℕ
sequence (read n _ _ _ _) = n
sequence (write n _ _ _ _ _) = n
sequence (shell n _ _ _) = n
sequence (validation n _ _ _) = n

unfoldable pub is_effective_write : ToolFact → Bool
is_effective_write (write _ _ _ _ ok changed) = ok && unwrap_or changed true
is_effective_write (read _ _ _ _ _) = false
is_effective_write (shell _ _ _ _) = false
is_effective_write (validation _ _ _ _) = false

-- The counter after `next_sequence`, which returns the one before.
abbrev pub next_sequence : ℕ → ℕ
next_sequence n = saturating_add u32_max n 1

unfoldable pub tool_call_alignment_is_consistent : ToolCall → String → Bool
tool_call_alignment_is_consistent call observed_tool_name =
    not (is_blank call.id) && str_eq call.name observed_tool_name

unfoldable pub normalized_path_from_call : ToolCall → Option String
normalized_path_from_call call = Option.map normalize_tool_path (get_str call.arguments "path")

unfoldable pub normalized_path_from_execution_or_call : Option String → ToolCall → Option String
unfolding normalized_path_from_call
normalized_path_from_execution_or_call none call = normalized_path_from_call call
normalized_path_from_execution_or_call (some path) call = some (normalize_tool_path path)

-- The texts among `args`.
abbrev pub text_args : Items → List String
text_args nil = []
text_args (cons (text s) rest) = s ∷ text_args rest
text_args (cons _ rest) = text_args rest

abbrev pub args_of : Option Value → List String
args_of (some (array items)) = text_args items
args_of _ = []

abbrev pub cmd_text : Fields → Option String
cmd_text obj =
    Option.map (λ cmd. join " " (cmd ∷ args_of (get_field "args" obj)))
      (and_then (get_field "cmd" obj) as_str)

abbrev pub command_of : Value → Option String
command_of (object obj) = elim (and_then (get_field "command" obj) as_str) [
  | some command ↦ some command
  | none ↦ cmd_text obj
]
command_of _ = none

unfoldable pub shell_command_text : ToolCall → Option String
unfolding get_field as_str join
shell_command_text call = if str_eq call.name "shell" then command_of call.arguments else none

-- `command.to_ascii_lowercase().contains(required)`.
abbrev pub mentions : String → String → Bool
mentions command required = contains (to_ascii_lowercase command) required

abbrev pub is_write_name : String → Bool
is_write_name name =
    str_eq name "apply_patch"
    || str_eq name "edit"
    || str_eq name "write_file"
    || str_eq name "str_replace"

abbrev pub shell_facts : ℕ → String → String → Bool → Option String → List ToolFact × ℕ
shell_facts n id command ok required =
    if elim required [ none ↦ false | some r ↦ mentions command (to_ascii_lowercase r) ]
    then (
      shell n id command ok ∷ validation (next_sequence n) id command ok ∷ [],
      next_sequence (next_sequence n),
    )
    else (shell n id command ok ∷ [], next_sequence n)

abbrev pub shell_command_facts : ℕ → ToolCall → Bool → Option String → List ToolFact × ℕ
shell_command_facts n call ok required = elim (shell_command_text call) [
  | none ↦ ([], n)
  | some command ↦ shell_facts n call.id command ok required
]

unfoldable pub facts_for_observed_tool :
    ℕ → ToolCall → String → Bool → Option String → Option Bool → Option String → List ToolFact × ℕ
facts_for_observed_tool n call tool_name ok normalized_path changed required =
    if str_eq tool_name "read_file"
    then elim normalized_path [
      | none ↦ ([], n)
      | some path ↦ (read n call.id tool_name path ok ∷ [], next_sequence n)
    ]
    else if is_write_name tool_name
    then elim normalized_path [
      | none ↦ ([], n)
      | some path ↦ (write n call.id tool_name path ok changed ∷ [], next_sequence n)
    ]
    else if str_eq tool_name "shell"
    then shell_command_facts n call ok required
    else ([], n)

-- An execution that no call of the model stands for.
abbrev pub runtime_call : ℕ → String → String → ToolCall
runtime_call n name path = record {
  id = concat ("runtime_execution_" ∷ decimal n ∷ []);
  name = name;
  arguments = object (field "path" (text path) end);
}

unfoldable pub facts_for_runtime_execution :
    ℕ → ToolExecutionRecord → Option String → List ToolFact × ℕ
facts_for_runtime_execution n execution required =
    if str_eq execution.name "read_file" || is_write_name execution.name
    then elim (Option.map normalize_tool_path execution.path) [
      | none ↦ ([], n)
      | some path ↦
          facts_for_observed_tool n (runtime_call n execution.name path) execution.name execution.ok
            (some path) execution.changed required
    ]
    else ([], n)

abbrev pub aligned_facts : ℕ → ToolCall → ToolExecutionRecord → Option String → List ToolFact × ℕ
aligned_facts n call execution required =
    facts_for_observed_tool n call execution.name execution.ok
      (normalized_path_from_execution_or_call execution.path call) execution.changed required

-- The inner loop for one call: the facts, the counter, and the executions that are left.
unfoldable pub facts_for_call :
    ℕ
    → ToolCall
    → List ToolExecutionRecord
    → Option String
    → List ToolFact × ℕ × List ToolExecutionRecord
facts_for_call n call [] required = ([], n, [])
facts_for_call n call (execution ∷ executions) required =
    elim (tool_call_alignment_is_consistent call execution.name) [
      | true ↦ let r = aligned_facts n call execution required in (r.0, r.1, executions)
      | false ↦
          let r = facts_for_runtime_execution n execution required in
          let rest = facts_for_call r.1 call executions required in (r.0 ++ rest.0, rest.1, rest.2)
    ]

unfoldable pub facts_for_rest : ℕ → List ToolExecutionRecord → Option String → List ToolFact
facts_for_rest n [] required = []
facts_for_rest n (execution ∷ executions) required =
    let r = facts_for_runtime_execution n execution required in
    r.0 ++ facts_for_rest r.1 executions required

unfoldable pub facts_from :
    ℕ → Option String → List ToolCall → List ToolExecutionRecord → List ToolFact
facts_from n required [] executions = facts_for_rest n executions required
facts_from n required (call ∷ calls) executions =
    let r = facts_for_call n call executions required in r.0 ++ facts_from r.1 required calls r.2

unfoldable pub tool_facts_from_calls_and_executions :
    Option String → List ToolCall → List ToolExecutionRecord → List ToolFact
tool_facts_from_calls_and_executions required calls executions =
    facts_from 0 required calls executions
