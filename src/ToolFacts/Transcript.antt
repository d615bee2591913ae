-- ===== src/ToolFacts/Transcript.antt =====
-- `tool_facts_from_transcript` of src/agent/tool_facts.rs, which reads how a call ended in the message of
-- its result, with `tool_result_has_error` and `tool_result_changed_flag` of src/agent_tool_exec.rs. The
-- parser of JSON is the parameter `parse`.
use local_agent.Base.{
  ℕ, String, Bool, true, false, not, Option, none, some, List, [], ◌∷◌, ◌++◌, and_then, filter,
  is_some,
}
use local_agent.Json.{Value, boolean, get, get_str}
use local_agent.Types.{Message, ToolCall, tool}
use local_agent.ToolFacts.{
  ToolFact, tool_call_alignment_is_consistent, normalized_path_from_call, facts_for_observed_tool,
}

-- `Value::as_bool`.
abbrev pub as_bool : Value → Option Bool
as_bool (boolean b) = some b
as_bool _ = none

module _ (parse : String → Option Value) where
  unfoldable pub tool_result_has_error : String → Bool
  tool_result_has_error content = elim (parse content) [
    | none ↦ false
    | some v ↦ elim (and_then (get v "ok") as_bool) [
      | some ok ↦ not ok
      | none ↦ is_some (get v "error")
    ]
  ]

  unfoldable pub tool_result_changed_flag : String → Option Bool
  tool_result_changed_flag content = and_then (parse content) λ outer.
      and_then (get_str outer "content")
        λ inner_raw. and_then (parse inner_raw) λ inner. and_then (get inner "changed") as_bool

  abbrev pub result_ok : Option String → Bool
  result_ok none = false
  result_ok (some content) = not (tool_result_has_error content)

  -- The calls with the results, in their order, as far as both go.
  unfoldable pub facts_from_results :
      ℕ → Option String → List ToolCall → List Message → List ToolFact
  facts_from_results n required [] results = []
  facts_from_results n required (call ∷ calls) [] = []
  facts_from_results n required (call ∷ calls) (result ∷ results) =
      elim (tool_call_alignment_is_consistent call call.name) [
        | false ↦ facts_from_results n required calls results
        | true ↦
            let r =
              facts_for_observed_tool n call call.name (result_ok result.content)
                (normalized_path_from_call call) (and_then result.content tool_result_changed_flag)
                required in
            r.0 ++ facts_from_results r.1 required calls results
      ]

  abbrev pub is_result : Message → Bool
  is_result m = elim m.role [ tool ↦ true | _ ↦ false ]

  unfoldable pub tool_facts_from_transcript :
      Option String → List ToolCall → List Message → List ToolFact
  tool_facts_from_transcript required calls messages =
      facts_from_results 0 required calls (filter is_result messages)
