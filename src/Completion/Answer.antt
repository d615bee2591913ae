-- ===== src/Completion/Answer.antt =====
-- The final answer that a run has to give: `required_validation_command` to
-- `recover_required_exact_final_answer` of src/agent.rs, with the requirements of
-- src/agent/task_contract.rs.
use text.Mathlib.Text.{find?}
use Prim.Native.Char.{Char, code}
use Prim.Native.String.{[], ◌∷◌}
use local_agent.Base.{
  ℕ, zero, suc, ◌+◌, String, len, slice, Bool, true, false, ◌&&◌, ◌||◌, Option, none, some, List,
  ltb, ◌==◌, str_eq, filter, length, is_some, and_then, trim, if◌then◌else◌,
}
use mathlib.Core.List.{[], ◌∷◌}
use local_agent.ImplGuard.{prompt_required_validation_command, prompt_required_exact_final_answer}

pub data ValidationRequirement : Type 0 where
  no_validation : ValidationRequirement
  validate_by : (command : String) → ValidationRequirement

pub data FinalAnswerMode : Type 0 where
  freeform : FinalAnswerMode
  exactly : (required_text : String) → FinalAnswerMode

unfoldable pub required_validation_command : Option ValidationRequirement → String → Option String
required_validation_command none user_prompt = prompt_required_validation_command user_prompt
required_validation_command (some no_validation) user_prompt = none
required_validation_command (some (validate_by command)) user_prompt = some command

unfoldable pub exact_final_answer_required_text : Option FinalAnswerMode → String → Option String
exact_final_answer_required_text none user_prompt = prompt_required_exact_final_answer user_prompt
exact_final_answer_required_text (some freeform) user_prompt = none
exact_final_answer_required_text (some (exactly required_text)) user_prompt = some required_text

unfoldable pub exact_final_answer_required : Option FinalAnswerMode → String → Bool
exact_final_answer_required mode user_prompt =
    is_some (exact_final_answer_required_text mode user_prompt)

unfoldable pub matches_text : Option String → String → Bool
matches_text none raw = true
matches_text (some required) raw = str_eq (trim raw) required

unfoldable pub final_output_matches_required_exact_answer :
    Option FinalAnswerMode → String → String → Bool
unfolding matches_text
final_output_matches_required_exact_answer mode user_prompt raw =
    matches_text (exact_final_answer_required_text mode user_prompt) raw

-- The rest of a text from an index on.
abbrev pub rest_from : String → ℕ → String
rest_from s start = slice s start (len s)

-- A block that a fence opens in the text: what is in it, and what follows its closing fence.
abbrev pub fenced_block : String → Option (String × String)
fenced_block rest = and_then (find? rest "```") λ start.
    let after_ticks = rest_from rest (start + 3) in
    and_then (find? after_ticks "\n") λ idx.
      let after_lang = rest_from after_ticks (idx + 1) in
      and_then (find? after_lang "```")
        λ end_. some (slice after_lang 0 end_, rest_from after_lang (end_ + 3))

-- The loop over the fences; `none` means that the fuel ran out.
unfoldable pub fenced_blocks : ℕ → String → Option (List String)
fenced_blocks zero rest = none
fenced_blocks (suc fuel) rest = elim (fenced_block rest) [
  | none ↦ some []
  | some block ↦ and_then (fenced_blocks fuel block.1) (λ blocks. some (block.0 ∷ blocks))
]

abbrev pub is_line_break : Char → Bool
is_line_break c = code c == 10 || code c == 13

-- `chars().last()` and `chars().next()`, with the test on them.
abbrev pub ends_in_break : String → Bool
ends_in_break [] = false
ends_in_break (c ∷ []) = is_line_break c
ends_in_break (c ∷ d ∷ s) = ends_in_break (d ∷ s)

abbrev pub begins_with_break : String → Bool
begins_with_break [] = false
begins_with_break (c ∷ s) = is_line_break c

-- The text at the index stands on lines of its own.
unfoldable pub stands_alone : String → String → ℕ → Bool
stands_alone output required idx =
    let after_idx = idx + len required in
    (idx == 0 || ends_in_break (slice output 0 idx))
    && (after_idx == len output || begins_with_break (rest_from output after_idx))

-- The loop over the occurrences: whether exactly one stands alone. The early return at a second is the
-- answer `false` too; `none` means that the fuel ran out.
unfoldable pub search_alone : ℕ → String → String → ℕ → ℕ → Option Bool
search_alone zero output required search_start substring_matches = none
search_alone (suc fuel) output required search_start substring_matches =
    elim (find? (rest_from output search_start) required) [
      | none ↦ some (substring_matches == 1)
      | some rel_idx ↦
          let idx = search_start + rel_idx in
          let found =
            if stands_alone output required idx then substring_matches + 1 else substring_matches in
          let later = search_alone fuel output required (idx + len required) found in
          if ltb 1 found then some false else later
    ]

-- What the function returns, where its loops end: `some none` is the source's `None`.
unfoldable pub recover_text : ℕ → String → String → Option (Option String)
recover_text fuel required raw =
    let required_trimmed = trim required in
    let output_trimmed = trim raw in
    if str_eq output_trimmed required_trimmed
    then some (some required)
    else and_then (fenced_blocks fuel output_trimmed) λ blocks.
      if length (filter (λ block. str_eq (trim block) required_trimmed) blocks) == 1
      then some (some required)
      else and_then (search_alone fuel output_trimmed required_trimmed 0 0)
          λ once. some (if once then some required else none)

unfoldable pub recover_required_exact_final_answer :
    ℕ → Option FinalAnswerMode → String → String → Option (Option String)
recover_required_exact_final_answer fuel mode user_prompt raw =
    elim (exact_final_answer_required_text mode user_prompt) [
      | none ↦ some none
      | some required ↦ recover_text fuel required raw
    ]
