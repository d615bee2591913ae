-- ===== src/ToolFacts/Guard.antt =====
-- What src/agent/tool_facts.rs concludes from facts: the paths that wait for a readback, whether the
-- required validation was run or calls for a repair, and why an implementation may not end.
use local_agent.Base.{
  String, Bool, true, false, not, ◌&&◌, Option, none, some, List, [], ◌∷◌, str_eq, leb, contains,
  concat, unwrap_or, any, is_empty, has, set_insert, set_remove, to_ascii_lowercase, if◌then◌else◌,
}
use local_agent.ToolFacts.{
  ToolFact, read, write, shell, validation, sequence, is_effective_write, mentions,
}

-- One round of the loop of `pending_post_write_verification_paths_from_facts`.
unfoldable pub pending_after : List String → ToolFact → List String
pending_after pending (read _ _ _ path ok) = if ok then set_remove path pending else pending
pending_after pending (write _ _ _ path ok _) = if ok then set_insert path pending else pending
pending_after pending (shell _ _ _ _) = pending
pending_after pending (validation _ _ _ _) = pending

unfoldable pub pending_from : List String → List ToolFact → List String
pending_from pending [] = pending
pending_from pending (fact ∷ facts) = pending_from (pending_after pending fact) facts

unfoldable pub pending_post_write_verification_paths_from_facts : List ToolFact → List String
pending_post_write_verification_paths_from_facts facts = pending_from [] facts

-- A validation whose command mentions the text, with the result.
abbrev pub validates : String → Bool → ToolFact → Bool
validates required result (validation _ _ command ok) =
    (if result then ok else not ok) && mentions command required
validates required result (read _ _ _ _ _) = false
validates required result (write _ _ _ _ _ _) = false
validates required result (shell _ _ _ _) = false

unfoldable pub required_validation_command_satisfied_from_facts :
    Option String → List ToolFact → Bool
required_validation_command_satisfied_from_facts none facts = true
required_validation_command_satisfied_from_facts (some required) facts =
    any (validates (to_ascii_lowercase required) true) facts

-- `sort_by_key` is stable: a fact stays before those of its own sequence number.
unfoldable pub insert_fact : ToolFact → List ToolFact → List ToolFact
insert_fact fact [] = fact ∷ []
insert_fact fact (next ∷ facts) =
    let later = insert_fact fact facts in
    if leb (sequence fact) (sequence next) then fact ∷ next ∷ facts else next ∷ later

unfoldable pub sort_by_sequence : List ToolFact → List ToolFact
sort_by_sequence [] = []
sort_by_sequence (fact ∷ facts) = insert_fact fact (sort_by_sequence facts)

unfoldable pub repair_after : String → Bool → ToolFact → Bool
repair_after required needs_repair (write _ _ _ _ ok changed) =
    if ok && unwrap_or changed true then false else needs_repair
repair_after required needs_repair (validation _ _ command ok) =
    if mentions command required then not ok else needs_repair
repair_after required needs_repair (read _ _ _ _ _) = needs_repair
repair_after required needs_repair (shell _ _ _ _) = needs_repair

unfoldable pub repair_from : String → Bool → List ToolFact → Bool
repair_from required needs_repair [] = needs_repair
repair_from required needs_repair (fact ∷ facts) =
    repair_from required (repair_after required needs_repair fact) facts

unfoldable pub required_validation_failure_needs_repair_from_facts :
    Option String → List ToolFact → Bool
required_validation_failure_needs_repair_from_facts none facts = false
required_validation_failure_needs_repair_from_facts (some required) facts =
    repair_from (to_ascii_lowercase required) false (sort_by_sequence facts)

-- A successful write to a path that was not read, by a tool that changes what is there.
abbrev pub is_unread_edit : List String → String → String → Bool → Bool
is_unread_edit read_paths tool path ok =
    ok && (not (str_eq tool "write_file") && not (has path read_paths))

unfoldable pub edit_violation_from : List String → List ToolFact → Option String
edit_violation_from read_paths [] = none
edit_violation_from read_paths (read _ _ _ path ok ∷ facts) =
    edit_violation_from (if ok then set_insert path read_paths else read_paths) facts
edit_violation_from read_paths (write _ _ tool path ok _ ∷ facts) =
    let rest = edit_violation_from read_paths facts in
    if is_unread_edit read_paths tool path ok
    then some (
        concat (
          "implementation guard: " ∷ tool ∷ " on '" ∷ path
          ∷ "' requires prior read_file on the same path" ∷ []))
    else rest
edit_violation_from read_paths (shell _ _ _ _ ∷ facts) = edit_violation_from read_paths facts
edit_violation_from read_paths (validation _ _ _ _ ∷ facts) = edit_violation_from read_paths facts

unfoldable pub read_before_edit_violation_from_facts : List ToolFact → Option String
read_before_edit_violation_from_facts facts = edit_violation_from [] (sort_by_sequence facts)

unfoldable pub output_has_placeholder_artifacts : String → Bool
output_has_placeholder_artifacts output =
    any (λ p. contains (to_ascii_lowercase output) p)
      ("... (full implementation) ..." ∷ "...full implementation..." ∷ "same css as before"
        ∷ "same html structure" ∷ "additional improvements coming" ∷ "todo:" ∷ "coming soon" ∷ [])

-- The last two checks: what waits for a readback, and whether anything was written.
abbrev pub write_violation : List String → List ToolFact → Option String
write_violation (path ∷ _) facts = some (
    concat
      ("implementation guard: post-write verification missing read_file on '" ∷ path ∷ "'" ∷ []))
write_violation [] facts =
    if any is_effective_write facts
    then none
    else some
        "implementation guard: file-edit task finalized without an effective write (writes failed or write tool changed:false)"

unfoldable pub implementation_integrity_violation_from_facts :
    String → List ToolFact → Bool → Option String
implementation_integrity_violation_from_facts final_output facts enforce =
    if not enforce
    then none
    else if is_empty facts
    then some "implementation guard: file-edit task finalized without any tool calls"
    else if output_has_placeholder_artifacts final_output
    then some
        "implementation guard: final answer contains placeholder artifacts instead of concrete implementation"
    else elim (read_before_edit_violation_from_facts facts) [
      | some reason ↦ some reason
      | none ↦ write_violation (pending_post_write_verification_paths_from_facts facts) facts
    ]
