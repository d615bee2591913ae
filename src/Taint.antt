-- ===== src/Taint.antt =====
-- src/taint.rs: which messages and tool calls carry content from untrusted sources.
pub mod Propagation
mod Tests
use local_agent.Base.{
  ℕ, suc, ◌+◌, String, Bool, true, false, Option, none, some, List, [], ◌∷◌, ◌++◌, map, ◌==◌,
  is_empty, if◌then◌else◌, unwrap_or,
}
use local_agent.Base.Assoc.{Assoc, lookup, insert}

pub data TaintLevel : Type 0 where
  clean tainted : TaintLevel

pub data TaintMode : Type 0 where
  propagate propagate_and_enforce : TaintMode

pub data TaintToggle : Type 0 where
  toggle_off toggle_on : TaintToggle

pub record TaintSpan : Type 0 where
  pub source : String
  pub detail : String
  pub digest : String

-- A message is known by its position, and the map from positions is a function; no code iterates
-- over it.
pub record TaintState : Type 0 where
  pub message_taints : ℕ → Option (List TaintSpan)
  pub spans_by_tool_call_id : Assoc (List TaintSpan)
  pub overall : TaintLevel
  pub last_sources : List String

abbrev pub new : TaintState
new = record {
  message_taints = λ id. none;
  spans_by_tool_call_id = [];
  overall = clean;
  last_sources = [];
}

-- `map.entry(id).or_default().extend(spans)`.
abbrev pub extend_at :
    ℕ → List TaintSpan → (ℕ → Option (List TaintSpan)) → ℕ → Option (List TaintSpan)
extend_at id spans m j = if id == j then some (unwrap_or (m id) [] ++ spans) else m j

unfoldable pub add_tool_spans : String → ℕ → List TaintSpan → TaintState → TaintState
unfolding lookup insert
add_tool_spans tool_call_id message_id [] s = s
add_tool_spans tool_call_id message_id (span ∷ spans) s = record {
  message_taints = extend_at message_id (span ∷ spans) s.message_taints;
  spans_by_tool_call_id =
      insert tool_call_id
        (unwrap_or (lookup tool_call_id s.spans_by_tool_call_id) [] ++ span ∷ spans)
        s.spans_by_tool_call_id;
  overall = tainted;
  last_sources = map (λ x. x.source) (span ∷ spans);
}

abbrev pub context_span : TaintSpan
context_span = record { source = "other"; detail = "tainted_context"; digest = "" }

-- `if !matches!(self.overall, Tainted) { return; }`.
abbrev mark_when : TaintLevel → ℕ → TaintState → TaintState
mark_when clean message_id s = s
mark_when tainted message_id s = record s {
  message_taints = extend_at message_id (context_span ∷ []) s.message_taints;
}

unfoldable pub mark_assistant_context_tainted : ℕ → TaintState → TaintState
mark_assistant_context_tainted message_id s = mark_when s.overall message_id s

-- `*out.entry(src).or_insert(0) += 1` for each source.
count_sources : Assoc ℕ → List String → Assoc ℕ
unfolding lookup insert
count_sources out [] = out
count_sources out (src ∷ sources) =
    count_sources (insert src (unwrap_or (lookup src out) 0 + 1) out) sources

pub sources_count_for_last_update : TaintState → Assoc ℕ
unfolding count_sources
sources_count_for_last_update s = count_sources [] s.last_sources

pub overall_str : TaintState → String
overall_str s = elim s.overall [ clean ↦ "clean" | tainted ↦ "tainted" ]
