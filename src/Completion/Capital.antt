-- ===== src/Completion/Capital.antt =====
-- A required command with a capital letter is never found in the checkpoint's facts.
use text.Mathlib.TextFind.{find_cases}
use Prim.Native.String.append
use Prim.Native.String.{[], ◌∷◌, ◌++◌}
use mathlib.Core.List.{[], ◌∷◌}
use local_agent.Base.{
  String, ◌≡◌, refl, ap, Bool, true, false, ◌||◌, some, List, map, any, arith, inl, inr,
  has_capital, to_ascii_lowercase, to_ascii_lowercase-has_capital,
}
use local_agent.ToolFacts.{ToolFact, read, write, shell, validation, mentions}
use local_agent.ToolFacts.Guard.{validates}
use local_agent.RunPhase.{RunCheckpoint, ToolFactEnvelope}
use local_agent.Completion.{collect_validation_facts_from_checkpoint}

has_capital-append : (s t : String) → has_capital (s ++ t) ≡ (has_capital s || has_capital t)
has_capital-append [] t = rw (append.nil t) refl
has_capital-append (c ∷ s) t = rw (append.cons c s t) (ground (arith, has_capital-append s t))

-- A text in lower case contains no capital letter.
mentions-capital :
    (command required : String) → has_capital required ≡ true → mentions command required ≡ false
mentions-capital command required h = elim (find_cases (to_ascii_lowercase command) required) [
  | inr miss ↦ ground (arith, miss)
  | inl (before, after, e, at) ↦ absurd (
      let low = to_ascii_lowercase-has_capital command in
      let split = ap has_capital e in
      ground
        (arith, has_capital-append before (required ++ after), has_capital-append required after))
]

validates-capital :
    (required : String) (result : Bool) (fact : ToolFact)
    → has_capital required ≡ true
    → validates required result fact ≡ false
validates-capital required result (read n id tool path ok) h = refl
validates-capital required result (write n id tool path ok changed) h = refl
validates-capital required result (shell n id command ok) h = refl
validates-capital required result (validation n id command ok) h =
    ground (arith, mentions-capital command required h)

any-validates-capital :
    (required : String) (result : Bool) (envelopes : List ToolFactEnvelope)
    → has_capital required ≡ true
    → any
        (validates required result)
        (map (λ (envelope : ToolFactEnvelope). envelope.fact) envelopes)
      ≡ false
any-validates-capital required result [] h = refl
any-validates-capital required result (envelope ∷ envelopes) h = ground (
  arith,
  validates-capital required result envelope.fact h,
  any-validates-capital required result envelopes h,
)

-- Where the required command has a capital letter, the facts of a checkpoint never count as a
-- validation, whatever was run: neither as one that succeeded nor as one that failed.
pub from_checkpoint-capital :
    (checkpoint : RunCheckpoint) (required : String) (envelopes : List ToolFactEnvelope)
    → checkpoint.validation_state.required_command ≡ some required
    → has_capital required ≡ true
    → ((collect_validation_facts_from_checkpoint checkpoint envelopes).satisfied ≡ false)
      × ((collect_validation_facts_from_checkpoint checkpoint envelopes).repair_needed ≡ false)
unfolding collect_validation_facts_from_checkpoint
from_checkpoint-capital checkpoint required envelopes command h =
    let good = any-validates-capital required true envelopes h in
    let bad = any-validates-capital required false envelopes h in (ground arith, ground arith)
