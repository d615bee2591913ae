-- ===== src/Compaction/Tests.antt =====
-- A run of the compaction.
use local_agent.Base.{none, some, [], ◌∷◌, List}
use local_agent.Types.{Message, user, tool}
use local_agent.Compaction.{CompactionSettings, summary, persist_digest, maybe_compact}
use local_agent.Compaction.Keeps.{Compacted, maybe_compact-Compacted}

abbrev settings : CompactionSettings
settings = record {
  max_context_chars = 5;
  mode = summary;
  keep_last = 1;
  tool_result_persist = persist_digest;
}

abbrev conversation : List Message
conversation =
    record {
      role = user;
      content = some "a question";
      tool_call_id = none;
      tool_name = none;
      tool_calls = none;
    }
    ∷ record {
      role = tool;
      content = some "a long result";
      tool_call_id = some "t1";
      tool_name = some "shell";
      tool_calls = none;
    }
    ∷ []

maybe_compact-Compacted_example :
    Compacted
      (λ s. s)
      (λ s. none)
      conversation
      settings
      (maybe_compact (λ s. s) (λ s. none) conversation settings)
maybe_compact-Compacted_example = maybe_compact-Compacted (λ s. s) (λ s. none) conversation settings
