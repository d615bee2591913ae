-- ===== src/Completion/Answered.antt =====
-- The last step of a completion gives an answer that is the required one.
use local_agent.Base.{
  ℕ, String, ◌≡◌, refl, sym, ap, ◌∙◌, true, false, not, ◌&&◌, Option, none, some, List, any, arith,
  inl, inr, ◌⊎◌, Bool-cases, Option-cases, str_eq, trim, to_ascii_lowercase, is_some,
}
use local_agent.ToolFacts.{ToolFact}
use local_agent.ToolFacts.Guard.{validates}
use local_agent.Completion.Answer.{
  FinalAnswerMode, exact_final_answer_required_text, exact_final_answer_required, matches_text,
  final_output_matches_required_exact_answer, recover_text, recover_required_exact_final_answer,
}
use local_agent.Completion.Run.{Agent, Run, AgentOutcome, exit_ok}
use local_agent.Completion.Handler.{ask_exact, finish_recovered, finish_answer}
use local_agent.Completion.Action.{
  Turn, continue_step, continue_agent_step, continue_exact_final_answer,
  continue_required_validation, proceed_to_tools, finalize, Result,
}

-- The outcome and the state of a run that is ended as a success.
abbrev pub success_of : AgentOutcome → Run → Option (AgentOutcome × Run)
success_of outcome run = elim outcome.exit_reason [ exit_ok ↦ some (outcome, run) | _ ↦ none ]

abbrev pub success : Result → Option (AgentOutcome × Run)
success (some (finalize outcome, run)) = success_of outcome run
success (some (continue_step _, run)) = none
success (some (continue_agent_step _ _, run)) = none
success (some (continue_exact_final_answer _ _, run)) = none
success (some (continue_required_validation _ _, run)) = none
success (some (proceed_to_tools _, run)) = none
success none = none

-- The output has, but for blanks around it, or is, the answer that is asked for.
abbrev pub Answers : Option String → String → Type 0
Answers none output = Unit
Answers (some required) output = (str_eq (trim output) required ≡ true) ⊎ (output ≡ required)

-- A run of the required command has succeeded.
abbrev pub Validated : Option String → List ToolFact → Type 0
Validated none facts = Unit
Validated (some required) facts = any (validates (to_ascii_lowercase required) true) facts ≡ true

recover_text-required :
    (fuel : ℕ) (required raw answer : String)
    → recover_text fuel required raw ≡ some (some answer)
    → answer ≡ required
unfolding recover_text
recover_text-required fuel required raw answer h = ground arith

recover-required :
    (fuel : ℕ) (mode : Option FinalAnswerMode) (prompt raw answer : String)
    → recover_required_exact_final_answer fuel mode prompt raw ≡ some (some answer)
    → exact_final_answer_required_text mode prompt ≡ some answer
unfolding recover_required_exact_final_answer
recover-required fuel mode prompt raw answer h =
    elim (Option-cases (exact_final_answer_required_text mode prompt)) [
      | inl e ↦ absurd (ground arith)
      | inr (required, e) ↦
          e
          ∙ ap (λ (t : String). some t)
              (sym (recover_text-required fuel required raw answer (ground arith)))
    ]

ask_exact-fails : (turn : Turn) (run : Run) → success (ask_exact turn run) ≡ none
unfolding ask_exact
ask_exact-fails turn run = ground arith

-- What a successful end by the last step shows.
pub record Answered (agent : Agent) (turn : Turn) (before after : Run) (outcome : AgentOutcome)
    : Type 0 where
  pub executed : after.tool_executions ≡ before.tool_executions
  pub answers :
      Answers
        (exact_final_answer_required_text agent.final_answer_mode turn.user_prompt)
        outcome.final_output

finish_recovered-Answered :
    (agent : Agent) (turn : Turn) (run : Run) (recovered : Option String) (outcome : AgentOutcome)
    (after : Run)
    → ((answer : String)
        → recovered ≡ some answer
        → exact_final_answer_required_text agent.final_answer_mode turn.user_prompt ≡ some answer)
    → success (finish_recovered turn run recovered) ≡ some (outcome, after)
    → Answered agent turn run after outcome
finish_recovered-Answered agent turn run (some answer) outcome after required h = record {
  executed = cc;
  answers = rw (required answer refl) (inr (cc));
}
finish_recovered-Answered agent turn run none outcome after required h =
    absurd (let fails = ask_exact-fails turn run in cc)

text-Answers :
    (text : Option String) (output : String)
    → (is_some text && not (matches_text text output)) ≡ false
    → Answers text output
unfolding matches_text
text-Answers none output h = tt
text-Answers (some required) output h = inl (ground arith)

matching-Answers :
    (mode : Option FinalAnswerMode) (prompt output : String)
    → (exact_final_answer_required mode prompt
        && not (final_output_matches_required_exact_answer mode prompt output))
      ≡ false
    → Answers (exact_final_answer_required_text mode prompt) output
unfolding exact_final_answer_required final_output_matches_required_exact_answer
matching-Answers mode prompt output h =
    text-Answers (exact_final_answer_required_text mode prompt) output h

pub finish_answer-Answered :
    (fuel : ℕ) (agent : Agent) (turn : Turn) (output : String) (run : Run) (outcome : AgentOutcome)
    (after : Run)
    → success (finish_answer fuel agent turn output run) ≡ some (outcome, after)
    → Answered agent turn run after outcome
unfolding finish_answer
finish_answer-Answered fuel agent turn output run outcome after h =
    let mode = agent.final_answer_mode in
    let prompt = turn.user_prompt in
    elim (Bool-cases (
      exact_final_answer_required mode prompt
      && not (final_output_matches_required_exact_answer mode prompt output))) [
        | inl asks ↦
            elim (Option-cases (recover_required_exact_final_answer fuel mode prompt output)) [
              | inl e ↦ absurd (ground arith)
              | inr (recovered, e) ↦
                  finish_recovered-Answered agent turn run recovered outcome after
                    (λ answer same.
                      recover-required fuel mode prompt output answer
                        (e ∙ ap (λ (r : Option String). some r) same))
                    (ground arith)
            ]
        | inr done ↦ record {
          executed = ground arith;
          answers =
              (let same : outcome.final_output ≡ output = ground arith in
                rw same (matching-Answers mode prompt output done));
        }
      ]
