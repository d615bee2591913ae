-- ===== src/ResponseGuards/Bounded.antt =====
-- A guard sends a run back once: the next turn that breaks the same rule ends it.
use mathlib.Core.List.{[], ◌∷◌}
use local_agent.Base.{
  ℕ, zero, suc, ◌+◌, ◌≤◌, String, ◌≡◌, Bool, true, false, List, arith, inl, inr, Bool-cases, leb,
  if◌then◌else◌,
}
use local_agent.Types.{Message, ToolCall}
use local_agent.RunPhase.{RunCheckpoint}
use local_agent.ResponseGuards.{
  RequiredValidationPhaseDecision, phase_proceed, transition_to_executing, phase_continue,
  phase_error, PostResponseGuardDecision, guard_proceed, guard_continue, guard_error, one_more,
  decide_required_validation_phase_response, decide_post_response_phase_guard,
}

-- One turn of the model in the validation phase.
pub record ValidationTurn : Type 0 where
  pub assistant : Message
  pub tool_calls : List ToolCall
  pub message : String

abbrev pub answer_in :
    Bool → RunCheckpoint → ValidationTurn → RequiredValidationPhaseDecision × RunCheckpoint
answer_in shell c turn =
    decide_required_validation_phase_response shell c turn.assistant turn.tool_calls turn.message

abbrev pub sent_back : RequiredValidationPhaseDecision → Bool
sent_back (phase_continue _ _) = true
sent_back phase_proceed = false
sent_back transition_to_executing = false
sent_back (phase_error _ _) = false

-- A turn that the validation phase sends back leaves the run in the phase, one turn from its end.
sent_back-count :
    (shell : Bool) (c : RunCheckpoint) (turn : ValidationTurn)
    → sent_back (answer_in shell c turn).0 ≡ true
    → ((answer_in shell c turn).1.retry_state.blocked_required_validation_phase_count ≡ 1)
unfolding decide_required_validation_phase_response
sent_back-count shell c turn h = ground arith

count-sent_back :
    (shell : Bool) (c : RunCheckpoint) (turn : ValidationTurn)
    → c.retry_state.blocked_required_validation_phase_count ≡ 1
    → sent_back (answer_in shell c turn).0 ≡ false
unfolding decide_required_validation_phase_response
count-sent_back shell c turn h = ground arith

-- In the validation phase no two turns in a row are sent back, whatever the model answers: after the
-- first, a turn is let through or ends the run.
pub validation-never_twice :
    (shell shell' : Bool) (c : RunCheckpoint) (turn next : ValidationTurn)
    → sent_back (answer_in shell c turn).0 ≡ true
    → sent_back (answer_in shell' (answer_in shell c turn).1 next).0 ≡ false
validation-never_twice shell shell' c turn next h =
    count-sent_back shell' (answer_in shell c turn).1 next (sent_back-count shell c turn h)

-- One turn of the model, as the guard after a response reads it.
pub record GuardTurn : Type 0 where
  pub assistant : Message
  pub has_calls : Bool
  pub signals_finalize : Bool
  pub tool_calls : List ToolCall
  pub final_message : String
  pub tool_message : String

abbrev pub guard_in : RunCheckpoint → GuardTurn → PostResponseGuardDecision × RunCheckpoint
guard_in c turn =
    decide_post_response_phase_guard c turn.assistant turn.has_calls turn.signals_finalize
      turn.tool_calls turn.final_message turn.tool_message

-- The rules that no turn has broken yet.
abbrev pub unbroken : ℕ → ℕ
unbroken zero = 1
unbroken (suc n) = 0

abbrev pub spare : RunCheckpoint → ℕ
spare c =
    unbroken c.retry_state.blocked_validation_failure_repair_count
    + unbroken c.retry_state.blocked_post_validation_final_answer_count
    + unbroken c.tool_protocol_state.blocked_tool_only_count

abbrev pub lets_on : PostResponseGuardDecision → Bool
lets_on (guard_continue _ _ _) = true
lets_on guard_proceed = false
lets_on (guard_error _ _ _ _ _) = false

-- The turns that the guard sends back, of turns that come in a row; the run is over at an error, and
-- what is done after a turn that passes is not the guard's.
unfoldable pub sent_back_turns : RunCheckpoint → List GuardTurn → ℕ
sent_back_turns c [] = 0
sent_back_turns c (turn ∷ turns) =
    let later = sent_back_turns (guard_in c turn).1 turns in
    if lets_on (guard_in c turn).0 then suc later else 0

one_more-unbroken : (n : ℕ) → leb 2 (one_more n) ≡ false → (n ≡ 0) × (one_more n ≡ 1)
one_more-unbroken n h = ground arith

lets_on-spare :
    (c : RunCheckpoint) (turn : GuardTurn)
    → lets_on (guard_in c turn).0 ≡ true
    → spare c ≡ suc (spare (guard_in c turn).1)
unfolding decide_post_response_phase_guard
lets_on-spare c turn h = ground (
  arith,
  one_more-unbroken c.retry_state.blocked_validation_failure_repair_count,
  one_more-unbroken c.retry_state.blocked_post_validation_final_answer_count,
  one_more-unbroken c.tool_protocol_state.blocked_tool_only_count,
)

bounded : (c : RunCheckpoint) (turns : List GuardTurn) → sent_back_turns c turns ≤ spare c
unfolding sent_back_turns
bounded c [] = omega arith
bounded c (turn ∷ turns) = elim (Bool-cases (lets_on (guard_in c turn).0)) [
  | inl e ↦ rw e (
      let ih = bounded (guard_in c turn).1 turns in
      let used = lets_on-spare c turn e in omega arith)
  | inr e ↦ rw e (omega arith)
]

-- The guard sends back at most one turn in a row for each of its three rules that no turn has broken
-- yet, whatever the model answers, so at most three.
pub sent_back_turns-le-spare :
    (c : RunCheckpoint) (turns : List GuardTurn)
    → (sent_back_turns c turns ≤ spare c) × (spare c ≤ 3)
unfolding sent_back_turns
sent_back_turns-le-spare c turns = (bounded c turns, ground arith)
