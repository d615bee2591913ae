-- ===== src/ResponseGuards/Tests.antt =====
-- The guards on concrete turns.
use local_agent.Base.{◌≡◌, ◌≤◌, refl, true, false, none, some, [], ◌∷◌, trim}
use local_agent.Types.{assistant, Message}
use local_agent.RunPhase.{RunCheckpoint, scoped_host_shell, phase_eq}
use local_agent.RunPhase.Initial.{start_checkpoint}
use local_agent.ResponseGuards.{decide_post_response_phase_guard}
use local_agent.ResponseGuards.Bounded.{GuardTurn, sent_back_turns, spare, sent_back_turns-le-spare}

abbrev prose : Message
prose = record {
  role = assistant;
  content = some "I am done";
  tool_call_id = none;
  tool_name = none;
  tool_calls = none;
}

abbrev turn : GuardTurn
turn = record {
  assistant = prose;
  has_calls = false;
  signals_finalize = true;
  tool_calls = [];
  final_message = "answer";
  tool_message = "call a tool";
}

-- Only tools are asked for.
abbrev tools_only : RunCheckpoint
tools_only = start_checkpoint scoped_host_shell true none false

-- Of three turns of prose the first is sent back, and the second ends the run.
once : sent_back_turns tools_only (turn ∷ turn ∷ turn ∷ []) ≡ 1
unfolding sent_back_turns decide_post_response_phase_guard trim phase_eq
once = refl

sent_back_turns-le-spare_example :
    (sent_back_turns tools_only (turn ∷ turn ∷ turn ∷ []) ≤ spare tools_only)
    × (spare tools_only ≤ 3)
sent_back_turns-le-spare_example = sent_back_turns-le-spare tools_only (turn ∷ turn ∷ turn ∷ [])
