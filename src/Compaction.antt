-- ===== src/Compaction.antt =====
-- src/compaction.rs: the conversation is cut to a summary and its last messages once it is too long.
-- `sha256_hex` and `serde_json::from_str` are parameters. The error that the tests can force is not
-- modelled, so `maybe_compact` always returns an outcome.
pub mod Keeps
mod Tests
use local_agent.Base.{
  ℕ, zero, suc, ◌+◌, ◌-◌, String, count, Bool, true, false, not, ◌&&◌, ◌||◌, Option, none, some,
  List, [], ◌∷◌, ◌==◌, leb, length, take, drop, is_some, concat, decimal, take_chars, unwrap_or,
  if◌then◌else◌,
}
use local_agent.Json.{Value, get}
use local_agent.Types.{Role, system, developer, user, assistant, tool, Message}

pub data CompactionMode : Type 0 where
  off summary : CompactionMode

pub data ToolResultPersist : Type 0 where
  persist_all persist_digest persist_none : ToolResultPersist

pub record CompactionSettings : Type 0 where
  pub max_context_chars : ℕ
  pub mode : CompactionMode
  pub keep_last : ℕ
  pub tool_result_persist : ToolResultPersist

pub record CompactionReport : Type 0 where
  pub before_chars : ℕ
  pub after_chars : ℕ
  pub before_messages : ℕ
  pub after_messages : ℕ
  pub compacted_messages : ℕ
  pub summary_digest_sha256 : String
  pub summary_text : String

pub record CompactionOutcome : Type 0 where
  pub messages : List Message
  pub report : Option CompactionReport

unfoldable pub role_name : Role → String
role_name system = "system"
role_name developer = "developer"
role_name user = "user"
role_name assistant = "assistant"
role_name tool = "tool"

abbrev optional_chars : Option String → ℕ
optional_chars none = 0
optional_chars (some s) = count s

unfoldable pub message_size_chars : Message → ℕ
unfolding role_name
message_size_chars m =
    count (role_name m.role)
    + optional_chars m.content
    + optional_chars m.tool_call_id
    + optional_chars m.tool_name

unfoldable pub context_size_chars : List Message → ℕ
unfolding message_size_chars
context_size_chars [] = 0
context_size_chars (m ∷ ms) = message_size_chars m + context_size_chars ms

abbrev pub is_off : CompactionMode → Bool
is_off off = true
is_off summary = false

abbrev pub is_tool : Role → Bool
is_tool tool = true
is_tool _ = false

abbrev pub system_message : String → Message
system_message content = record {
  role = system;
  content = some content;
  tool_call_id = none;
  tool_name = none;
  tool_calls = none;
}

module _ (sha256_hex : String → String) (from_str : String → Option Value) where
  unfoldable pub tool_status : String → String
  tool_status content = elim (from_str content) [
    | some v ↦ if is_some (get v "error") then "error" else "ok"
    | none ↦ "unknown"
  ]

  unfoldable pub digest_tool_output : String → String
  digest_tool_output content = concat (
      "TOOL_OUTPUT_DIGEST v1\nsha256="
      ∷ sha256_hex content
      ∷ "\nlen="
      ∷ decimal (count content)
      ∷ "\nhead="
      ∷ take_chars 200 content
      ∷ "\ntruncated=true"
      ∷ [])

  unfoldable pub summarize_tool_output_minimal : String → Option String → String
  unfolding tool_status
  summarize_tool_output_minimal content tool_name = concat (
      "TOOL_OUTPUT_OMITTED v1\ntool="
      ∷ unwrap_or tool_name "unknown"
      ∷ "\nstatus="
      ∷ tool_status content
      ∷ [])

  -- The new content of a tool's message.
  unfoldable pub persisted_content : ToolResultPersist → Message → String
  unfolding digest_tool_output summarize_tool_output_minimal
  persisted_content persist_all m = unwrap_or m.content ""
  persisted_content persist_digest m = digest_tool_output (unwrap_or m.content "")
  persisted_content persist_none m =
      summarize_tool_output_minimal (unwrap_or m.content "") m.tool_name

  unfoldable pub persist_message : ToolResultPersist → Message → Message
  unfolding persisted_content
  persist_message mode m =
      if is_tool m.role then record m { content = some (persisted_content mode m) } else m

  -- The loop over the messages, once the mode is not `All`.
  unfoldable pub persist_messages : ToolResultPersist → List Message → List Message
  unfolding persist_message
  persist_messages mode [] = []
  persist_messages mode (m ∷ ms) = persist_message mode m ∷ persist_messages mode ms

  unfoldable pub apply_tool_persistence : List Message → ToolResultPersist → List Message
  unfolding persist_messages
  apply_tool_persistence ms persist_all = ms
  apply_tool_persistence ms persist_digest = persist_messages persist_digest ms
  apply_tool_persistence ms persist_none = persist_messages persist_none ms

  abbrev line_of : Role → Option String → String → String → String → String
  line_of user tool_name status head hash =
      concat ("- user: " ∷ head ∷ " [sha256=" ∷ hash ∷ "]" ∷ [])
  line_of assistant tool_name status head hash =
      concat ("- assistant: " ∷ head ∷ " [sha256=" ∷ hash ∷ "]" ∷ [])
  line_of tool tool_name status head hash = concat (
      "- tool("
      ∷ unwrap_or tool_name "unknown"
      ∷ "): status="
      ∷ status
      ∷ " "
      ∷ head
      ∷ " [sha256="
      ∷ hash
      ∷ "]"
      ∷ [])
  line_of system tool_name status head hash =
      concat ("- system: " ∷ head ∷ " [sha256=" ∷ hash ∷ "]" ∷ [])
  line_of developer tool_name status head hash =
      concat ("- developer: " ∷ head ∷ " [sha256=" ∷ hash ∷ "]" ∷ [])

  unfoldable pub summary_line : Message → String
  unfolding tool_status
  summary_line m =
      let content = unwrap_or m.content "" in
      line_of m.role m.tool_name (tool_status content) (take_chars 200 content) (sha256_hex content)

  -- The lines with their ends: the text that is hashed, and that the summary closes with.
  unfoldable pub summary_lines : List Message → List String
  unfolding summary_line
  summary_lines [] = []
  summary_lines (m ∷ ms) = summary_line m ∷ "\n" ∷ summary_lines ms

  unfoldable pub build_summary : List Message → String
  unfolding summary_lines
  build_summary ms =
      let lines = concat (summary_lines ms) in
      concat (
        "COMPACTED SUMMARY (v1)\n"
        ∷ "rolling_digest_sha256="
        ∷ sha256_hex lines
        ∷ "\n"
        ∷ "compacted_messages="
        ∷ decimal (length ms)
        ∷ "\n"
        ∷ lines
        ∷ [])

  -- The outcome of a conversation that is over the limit, cut at `split_at`.
  unfoldable pub compact_at : ℕ → List Message → ToolResultPersist → CompactionOutcome
  unfolding build_summary apply_tool_persistence context_size_chars
  compact_at split_at messages persist =
      let compacted = take split_at messages in
      let tail = apply_tool_persistence (drop split_at messages) persist in
      let summary_text = build_summary compacted in
      let out_messages = system_message summary_text ∷ tail in
      record {
        messages = out_messages;
        report = some (record {
          before_chars = context_size_chars messages;
          after_chars = context_size_chars out_messages;
          before_messages = length messages;
          after_messages = length out_messages;
          compacted_messages = length compacted;
          summary_digest_sha256 = sha256_hex summary_text;
          summary_text = summary_text;
        });
      }

  unfoldable pub maybe_compact : List Message → CompactionSettings → CompactionOutcome
  unfolding compact_at context_size_chars
  maybe_compact messages settings =
      if settings.max_context_chars == 0 || is_off settings.mode
      then record { messages = messages; report = none }
      else if leb (context_size_chars messages) settings.max_context_chars
      then record { messages = messages; report = none }
      else compact_at (length messages - settings.keep_last) messages settings.tool_result_persist
