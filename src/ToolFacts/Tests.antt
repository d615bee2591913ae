-- ===== src/ToolFacts/Tests.antt =====
-- The facts of a concrete run, and what they show.
use local_agent.Base.{
  ◌≡◌, refl, ◌↔◌, true, none, some, List, [], ◌∷◌, String, set_insert, set_remove,
  to_ascii_lowercase, trim,
}
use local_agent.Json.{get_str, object, field, end, text}
use local_agent.Types.{ToolCall}
use local_agent.ToolPath.{normalize_tool_path}
use local_agent.ToolFacts.{
  ToolExecutionRecord, tool_facts_from_calls_and_executions, ToolFact, sequence, facts_from,
  facts_for_rest, facts_for_call, facts_for_observed_tool, normalized_path_from_execution_or_call,
  normalized_path_from_call, tool_call_alignment_is_consistent,
}
use local_agent.ToolFacts.Guard.{
  implementation_integrity_violation_from_facts, output_has_placeholder_artifacts,
  read_before_edit_violation_from_facts, edit_violation_from, sort_by_sequence, insert_fact,
  pending_post_write_verification_paths_from_facts, pending_from, pending_after,
}
use local_agent.ToolFacts.Guarded.{Guarded, violation-none_iff}

abbrev call_on : String → String → String → ToolCall
call_on id name path = record {
  id = id;
  name = name;
  arguments = object (field "path" (text path) end);
}

abbrev calls : List ToolCall
calls = call_on "c1" "read_file" "a.rs" ∷ call_on "c2" "edit" "./A.rs" ∷ []

abbrev executed : String → ToolExecutionRecord
executed name = record { name = name; path = none; ok = true; changed = none }

abbrev executions : List ToolExecutionRecord
executions = executed "read_file" ∷ executed "edit" ∷ []

abbrev facts : List ToolFact
facts = tool_facts_from_calls_and_executions none calls executions

-- The written path was not read back.
unread :
    implementation_integrity_violation_from_facts "done" facts true
    ≡ some "implementation guard: post-write verification missing read_file on 'a.rs'"
unfolding implementation_integrity_violation_from_facts output_has_placeholder_artifacts
    read_before_edit_violation_from_facts edit_violation_from sort_by_sequence insert_fact sequence
    pending_post_write_verification_paths_from_facts pending_from pending_after set_insert
    set_remove tool_facts_from_calls_and_executions facts_from facts_for_rest facts_for_call
    facts_for_observed_tool normalized_path_from_execution_or_call normalized_path_from_call
    tool_call_alignment_is_consistent normalize_tool_path to_ascii_lowercase trim get_str
unread = refl

violation-none_iff_example :
    (implementation_integrity_violation_from_facts "done" facts true ≡ none) ↔ Guarded "done" facts
violation-none_iff_example = violation-none_iff calls executions none "done"
