-- ===== src/Compaction/Keeps.antt =====
-- `maybe_compact` of src/compaction.rs: the messages of its outcome, and its report.
use local_agent.Base.{
  ℕ, suc, ◌+◌, ◌-◌, ◌≤◌, ◌<◌, min, String, ◌≡◌, ◌≢◌, refl, ap, ◌⊎◌, inl, inr, true, false, Option,
  none, some, List, [], ◌∷◌, arith, ◌==◌, leb, length, take, drop, length-take, length-drop,
  Bool-cases,
}
use local_agent.Json.{Value}
use local_agent.Types.{Role, tool, Message}
use local_agent.Compaction.{
  CompactionSettings, CompactionReport, CompactionOutcome, context_size_chars, maybe_compact,
  compact_at, ToolResultPersist, persist_all, persist_digest, persist_none, persist_message,
  persist_messages, apply_tool_persistence, system_message, build_summary, is_off, is_tool,
}

-- A message and what is kept of it: all of it, but for the content of a tool's message.
pub record Kept (before after : Message) : Type 0 where
  pub role : after.role ≡ before.role
  pub tool_call_id : after.tool_call_id ≡ before.tool_call_id
  pub tool_name : after.tool_name ≡ before.tool_name
  pub tool_calls : after.tool_calls ≡ before.tool_calls
  pub content : before.role ≢ tool → after.content ≡ before.content

-- Two conversations of one length whose messages are kept, each in its place.
abbrev pub AllKept : List Message → List Message → Type 0
AllKept [] [] = Unit
AllKept (m ∷ ms) (n ∷ ns) = Kept m n × AllKept ms ns
AllKept _ _ = ⊥

Kept-refl : (m : Message) → Kept m m
Kept-refl m = record {
  role = refl;
  tool_call_id = refl;
  tool_name = refl;
  tool_calls = refl;
  content = λ _. refl;
}

AllKept-refl : (ms : List Message) → AllKept ms ms
AllKept-refl [] = tt
AllKept-refl (m ∷ ms) = (Kept-refl m, AllKept-refl ms)

AllKept-length : (ms ns : List Message) → AllKept ms ns → length ns ≡ length ms
AllKept-length [] [] h = refl
AllKept-length [] (n ∷ ns) h = absurd h
AllKept-length (m ∷ ms) [] h = absurd h
AllKept-length (m ∷ ms) (n ∷ ns) (_, h) = ap suc (AllKept-length ms ns h)

is_tool-eq : (r : Role) → is_tool r ≡ true → r ≡ tool
is_tool-eq r h = ground arith

module _ (sha256_hex : String → String) (from_str : String → Option Value) where
  persist_message-Kept :
      (mode : ToolResultPersist) (m : Message) → Kept m (persist_message sha256_hex from_str mode m)
  unfolding persist_message
  persist_message-Kept mode m = elim (Bool-cases (is_tool m.role)) [
    | inl t ↦ rw t (record {
      role = refl;
      tool_call_id = refl;
      tool_name = refl;
      tool_calls = refl;
      content = λ other. absurd (other (is_tool-eq m.role t));
    })
    | inr t ↦ rw t (Kept-refl m)
  ]

  persist_messages-AllKept :
      (mode : ToolResultPersist) (ms : List Message)
      → AllKept ms (persist_messages sha256_hex from_str mode ms)
  unfolding persist_messages
  persist_messages-AllKept mode [] = tt
  persist_messages-AllKept mode (m ∷ ms) =
      (persist_message-Kept mode m, persist_messages-AllKept mode ms)

  apply_tool_persistence-AllKept :
      (ms : List Message) (mode : ToolResultPersist)
      → AllKept ms (apply_tool_persistence sha256_hex from_str ms mode)
  unfolding apply_tool_persistence
  apply_tool_persistence-AllKept ms persist_all = AllKept-refl ms
  apply_tool_persistence-AllKept ms persist_digest = persist_messages-AllKept persist_digest ms
  apply_tool_persistence-AllKept ms persist_none = persist_messages-AllKept persist_none ms

  -- How `maybe_compact` may end.
  pub data Compacted (messages : List Message) (settings : CompactionSettings)
      (outcome : CompactionOutcome) : Type 0 where
    untouched :
        outcome.messages ≡ messages
        → outcome.report ≡ none
        → (settings.max_context_chars ≡ 0)
          ⊎ ((is_off settings.mode ≡ true)
              ⊎ (context_size_chars messages ≤ settings.max_context_chars))
        → Compacted messages settings outcome
    cut :
        (split_at : ℕ) (tail : List Message) (report : CompactionReport)
        → is_off settings.mode ≡ false
        → 0 < settings.max_context_chars
        → settings.max_context_chars < context_size_chars messages
        → split_at + min settings.keep_last (length messages) ≡ length messages
        → outcome.messages
          ≡ system_message (build_summary sha256_hex from_str (take split_at messages)) ∷ tail
        → AllKept (drop split_at messages) tail
        → outcome.report ≡ some report
        → report.before_chars ≡ context_size_chars messages
        → report.after_chars ≡ context_size_chars outcome.messages
        → report.before_messages ≡ length messages
        → report.after_messages ≡ length outcome.messages
        → report.compacted_messages + report.after_messages ≡ suc report.before_messages
        → Compacted messages settings outcome

  compact_at-Compacted :
      (messages : List Message) (settings : CompactionSettings)
      → is_off settings.mode ≡ false
      → 0 < settings.max_context_chars
      → settings.max_context_chars < context_size_chars messages
      → Compacted messages settings (
          compact_at sha256_hex from_str
            (length messages - settings.keep_last)
            messages
            settings.tool_result_persist)
  unfolding compact_at
  compact_at-Compacted messages settings on pos over =
      let k = length messages - settings.keep_last in
      let persist = settings.tool_result_persist in
      let tail = apply_tool_persistence sha256_hex from_str (drop k messages) persist in
      let kept = apply_tool_persistence-AllKept (drop k messages) persist in
      let tail_length = AllKept-length (drop k messages) tail kept in
      cut k tail _ on pos over (omega arith) refl kept refl refl refl refl refl
        (omega (arith, tail_length, length-drop k messages, length-take k messages (omega arith)))

  -- Every way in which `maybe_compact` can end. It leaves the conversation alone where the limit is
  -- zero, the mode is off or the text fits; and else it keeps exactly the last `keep_last` messages
  -- (all of them, if there are fewer) after the summary of the others, each as it was but for the
  -- content of a tool's message, with a report that counts the messages and the characters.
  pub maybe_compact-Compacted :
      (messages : List Message) (settings : CompactionSettings)
      → Compacted messages settings (maybe_compact sha256_hex from_str messages settings)
  unfolding maybe_compact
  maybe_compact-Compacted messages settings = elim (Bool-cases (settings.max_context_chars == 0)) [
    | inl z ↦ rw z (untouched refl refl (inl (ground arith)))
    | inr nz ↦ elim (Bool-cases (is_off settings.mode)) [
      | inl o ↦ rw (nz, o) (untouched refl refl (inr (inl o)))
      | inr on ↦ elim (Bool-cases (leb (context_size_chars messages) settings.max_context_chars)) [
        | inl fits ↦ rw (nz, on, fits) (untouched refl refl (inr (inr (ground arith))))
        | inr over ↦
            rw (nz, on, over)
              (compact_at-Compacted messages settings on (ground arith) (ground arith))
      ]
    ]
  ]
