-- ===== src/ImplGuard.antt =====
-- src/agent_impl_guard.rs: what a prompt asks of a run, and the guard of an implementation over the
-- calls and executions of a run. The facts it reads are those of ToolFacts.
use text.Mathlib.Text.{find?}
use Prim.Native.Char.{code}
use Prim.Native.String.{[], ◌∷◌}
use local_agent.Base.{
  ℕ, ◌+◌, String, len, slice, Bool, true, false, ◌&&◌, ◌||◌, Option, none, some, List, and_then,
  ltb, ◌==◌, contains, is_nil, trim, trim_start, to_ascii_lowercase, if◌then◌else◌,
}
use mathlib.Core.List.{[], ◌∷◌}
use local_agent.Types.{ToolCall}
use local_agent.ToolFacts.{ToolExecutionRecord, tool_facts_from_calls_and_executions}
use local_agent.ToolFacts.Guard.{
  pending_post_write_verification_paths_from_facts, implementation_integrity_violation_from_facts,
}

unfoldable pub prompt_requires_tool_only : String → Bool
prompt_requires_tool_only prompt =
    let p = to_ascii_lowercase prompt in
    (contains p "tool calls only" || contains p "tool-only" || contains p "exactly one tool call")
    && (contains p "no prose" || contains p "do not output code" || contains p "do not explain")

abbrev pub first_contained : String → List String → Option String
first_contained p [] = none
first_contained p (needle ∷ needles) =
    let rest = first_contained p needles in if contains p needle then some needle else rest

unfoldable pub prompt_required_validation_command : String → Option String
prompt_required_validation_command prompt =
    first_contained (to_ascii_lowercase prompt)
      ("node --test" ∷ "cargo test" ∷ "npm test" ∷ "pnpm test" ∷ [])

abbrev pub when_not_empty : String → Option String
when_not_empty s = if is_nil s then none else some s

-- What stands between the quote that the text begins with and the next one.
abbrev pub quoted : String → Option String
quoted [] = none
quoted (quote ∷ body) =
    if code quote == 96 || code quote == 34 || code quote == 39
    then and_then (find? body (quote ∷ [])) (λ end_. when_not_empty (trim (slice body 0 end_)))
    else none

unfoldable pub extract_inline_exact_answer : String → Option String
extract_inline_exact_answer rest = quoted (trim_start rest)

-- The index of a marker, the marker, and whether the answer is all that follows.
abbrev pub Marker : Type 0
Marker = ℕ × String × Bool

abbrev pub find_marker : String → String → Bool → Option Marker
find_marker lower marker requires_block =
    and_then (find? lower marker) (λ idx. some (idx, marker, requires_block))

-- `min_by_key` keeps the first of equal ones.
abbrev pub earlier_marker : Option Marker → Option Marker → Option Marker
earlier_marker none b = b
earlier_marker (some a) none = some a
earlier_marker (some a) (some b) = if ltb b.0 a.0 then some b else some a

abbrev pub answer_after : String → Marker → Option String
answer_after prompt (idx, marker, requires_block) =
    let rest = slice prompt (idx + len marker) (len prompt) in
    if requires_block then when_not_empty (trim rest) else extract_inline_exact_answer rest

-- ASCII lower case keeps the length of a text in bytes, so an index into one is one into the other.
unfoldable pub prompt_required_exact_final_answer : String → Option String
prompt_required_exact_final_answer prompt =
    let lower = to_ascii_lowercase prompt in
    and_then
      (earlier_marker
        (earlier_marker (find_marker lower "your final answer must be exactly:" true)
          (find_marker lower "reply with exactly:" true))
        (find_marker lower "reply with exactly" false))
      (answer_after prompt)

unfoldable pub implementation_integrity_violation_with_tool_executions :
    String → String → List ToolCall → List ToolExecutionRecord → Bool → Option String
implementation_integrity_violation_with_tool_executions user_prompt final_output calls executions
      enforce =
    implementation_integrity_violation_from_facts final_output
      (tool_facts_from_calls_and_executions (prompt_required_validation_command user_prompt) calls
        executions)
      enforce

unfoldable pub pending_post_write_verification_paths :
    List ToolCall → List ToolExecutionRecord → List String
pending_post_write_verification_paths calls executions =
    pending_post_write_verification_paths_from_facts
      (tool_facts_from_calls_and_executions none calls executions)
