-- ===== src/ToolFacts/Repair.antt =====
-- When a run must repair the code before it validates again.
use local_agent.Base.{
  String, ◌≡◌, refl, ap, ◌∙◌, ◌↔◌, Bool, true, false, ◌||◌, some, List, [], ◌∷◌, ◌++◌, All, arith,
  to_ascii_lowercase, if◌then◌else◌, Bool-cases, inl, inr, ◌⊎◌,
}
use local_agent.Types.{ToolCall}
use local_agent.ToolFacts.{
  ToolExecutionRecord, ToolFact, read, write, shell, validation, is_effective_write,
  tool_facts_from_calls_and_executions,
}
use local_agent.ToolFacts.Guard.{
  validates, repair_after, repair_from, required_validation_failure_needs_repair_from_facts,
}
use local_agent.ToolFacts.Order.{sort_by_sequence-tool_facts}

-- A fact that decides anew whether a repair is needed: a change of a file, or a run of the command.
abbrev settles : String → ToolFact → Bool
settles required fact =
    is_effective_write fact || (validates required true fact || validates required false fact)

-- The last fact that decides is a failed run of the command.
abbrev pub LastFailed : String → List ToolFact → Type 0
LastFailed required facts =
    (before : List ToolFact) × (failed : ToolFact) × (after : List ToolFact) × (facts
      ≡ before ++ failed ∷ after)
    × (validates required false failed ≡ true)
    × All (λ fact. settles required fact ≡ false) after

repair_after-settled :
    (required : String) (needs : Bool) (fact : ToolFact)
    → repair_after required needs fact
      ≡ (if settles required fact then validates required false fact else needs)
unfolding repair_after is_effective_write
repair_after-settled required needs (read n id tool path ok) = refl
repair_after-settled required needs (write n id tool path ok changed) = ground arith
repair_after-settled required needs (shell n id command ok) = refl
repair_after-settled required needs (validation n id command ok) = ground arith

decided :
    (required : String) (needs : Bool) (fact : ToolFact)
    → settles required fact ≡ true
    → repair_after required needs fact ≡ true
    → validates required false fact ≡ true
decided required needs fact h now = ground (arith, repair_after-settled required needs fact)

kept :
    (required : String) (needs : Bool) (fact : ToolFact)
    → settles required fact ≡ false
    → repair_after required needs fact ≡ true
    → needs ≡ true
kept required needs fact h now = ground (arith, repair_after-settled required needs fact)

repair_after-failed :
    (required : String) (needs : Bool) (fact : ToolFact)
    → validates required false fact ≡ true
    → repair_after required needs fact ≡ true
repair_after-failed required needs fact h = ground (arith, repair_after-settled required needs fact)

repair_from-Unsettled :
    (required : String) (needs : Bool) (facts : List ToolFact)
    → All (λ fact. settles required fact ≡ false) facts
    → repair_from required needs facts ≡ needs
unfolding repair_from
repair_from-Unsettled required needs [] h = refl
repair_from-Unsettled required needs (fact ∷ facts) (first, rest) =
    rw (repair_after-settled required needs fact, first)
      (repair_from-Unsettled required needs facts rest)

-- The state before counts only where nothing decides.
repair_from-cases :
    (required : String) (needs : Bool) (facts : List ToolFact)
    → repair_from required needs facts ≡ true
    → LastFailed required facts ⊎ (needs ≡ true) × All (λ fact. settles required fact ≡ false) facts
unfolding repair_from
repair_from-cases required needs [] h = inr (h, tt)
repair_from-cases required needs (fact ∷ facts) h =
    elim (repair_from-cases required (repair_after required needs fact) facts h) [
      | inl (before, failed, after, e, failing, later) ↦
          inl (fact ∷ before, failed, after, cc, failing, later)
      | inr (now, later) ↦ elim (Bool-cases (settles required fact)) [
        | inl decides ↦ inl ([], fact, facts, refl, decided required needs fact decides now, later)
        | inr quiet ↦ inr (kept required needs fact quiet now, (quiet, later))
      ]
    ]

repair_from-after :
    (required : String) (needs : Bool) (before after : List ToolFact) (failed : ToolFact)
    → validates required false failed ≡ true
    → All (λ fact. settles required fact ≡ false) after
    → repair_from required needs (before ++ failed ∷ after) ≡ true
unfolding repair_from
repair_from-after required needs [] after failed h later =
    ap (λ (b : Bool). repair_from required b after) (repair_after-failed required needs failed h)
    ∙ repair_from-Unsettled required true after later
repair_from-after required needs (fact ∷ before) after failed h later =
    repair_from-after required (repair_after required needs fact) before after failed h later

-- After the executions of a run, the code must be repaired exactly where the last fact that decides (a
-- successful write that may have changed its file, or a run of the required command) is a failed run of
-- the command.
pub needs_repair-LastFailed :
    (required : String) (calls : List ToolCall) (executions : List ToolExecutionRecord)
    → let facts = tool_facts_from_calls_and_executions (some required) calls executions in
      (required_validation_failure_needs_repair_from_facts (some required) facts ≡ true)
      ↔ LastFailed (to_ascii_lowercase required) facts
unfolding required_validation_failure_needs_repair_from_facts
needs_repair-LastFailed required calls executions =
    let facts = tool_facts_from_calls_and_executions (some required) calls executions in
    let lower = to_ascii_lowercase required in
    rw (sort_by_sequence-tool_facts (some required) calls executions) (
      (λ h. elim (repair_from-cases lower false facts h) [
        | inl last ↦ last
        | inr (absurd_now, _) ↦ cc
      ]),
      λ (before, failed, after, e, failing, later).
          rw e (repair_from-after lower false before after failed failing later),
    )
