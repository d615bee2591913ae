-- ===== src/ToolFacts/Order.antt =====
-- The facts of a run stand in the order of their sequence numbers, also where the counter has reached
-- its end, so sorting by them keeps the order of the executions.
use local_agent.Base.{
  ℕ, ◌≤◌, String, ◌≡◌, refl, Bool, ◌||◌, Option, none, some, List, [], ◌∷◌, ◌++◌, if_both, inl, inr,
  Bool-cases, arith, str_eq, u32_max, Option-cases,
}
use mathlib.Core.Option
use local_agent.Types.{ToolCall}
use local_agent.ToolPath.{normalize_tool_path}
use local_agent.ToolFacts.{
  ToolExecutionRecord, ToolFact, read, write, sequence, next_sequence, shell_facts,
  shell_command_facts, facts_for_observed_tool, facts_for_runtime_execution, facts_for_call,
  facts_for_rest, facts_from, tool_facts_from_calls_and_executions, runtime_call,
  normalized_path_from_execution_or_call, tool_call_alignment_is_consistent, is_write_name,
  shell_command_text,
}
use local_agent.ToolFacts.Guard.{insert_fact, sort_by_sequence}

-- The sequence numbers ascend from one number to another.
abbrev Runs : ℕ → List ToolFact → ℕ → Type 0
Runs n [] m = n ≤ m
Runs n (fact ∷ facts) m = (n ≤ sequence fact) × Runs (sequence fact) facts m

-- What a counter and facts are after a step, within `u32`.
abbrev Counted : ℕ → List ToolFact × ℕ → Type 0
Counted n r = Runs n r.0 r.1 × (r.1 ≤ u32_max)

Runs-append :
    (n m k : ℕ) (facts more : List ToolFact)
    → Runs n facts m
    → Runs m more k
    → Runs n (facts ++ more) k
Runs-append n m k [] [] h l = omega arith
Runs-append n m k [] (fact ∷ more) h (first, rest) = (omega arith, rest)
Runs-append n m k (fact ∷ facts) more (first, rest) l =
    (first, Runs-append (sequence fact) m k facts more rest l)

module _ (n : ℕ) (bound : n ≤ u32_max) where
  no_fact-Counted : Counted n ([], n)
  no_fact-Counted = (omega arith, bound)

  one_fact-Counted : (fact : ToolFact) → sequence fact ≡ n → Counted n (fact ∷ [], next_sequence n)
  one_fact-Counted fact e = rw e (ground arith)

  shell_facts-Counted :
      (id command : String) (ok : Bool) (required : Option String)
      → Counted n (shell_facts n id command ok required)
  unfolding sequence
  shell_facts-Counted id command ok required = ground arith

  shell_branch :
      (call : ToolCall) (ok : Bool) (required : Option String)
      → Counted n (shell_command_facts n call ok required)
  shell_branch call ok required = elim (Option-cases (shell_command_text call)) [
    | inl e ↦ rw (e, shell_command_facts) no_fact-Counted
    | inr (command, e) ↦
        rw (e, shell_command_facts) (shell_facts-Counted call.id command ok required)
  ]

  facts_for_observed_tool-Counted :
      (call : ToolCall) (tool_name : String) (ok : Bool) (path : Option String)
      (changed : Option Bool) (required : Option String)
      → Counted n (facts_for_observed_tool n call tool_name ok path changed required)
  unfolding facts_for_observed_tool
  facts_for_observed_tool-Counted call tool_name ok none changed required =
      if_both (Counted n) (str_eq tool_name "read_file") no_fact-Counted (
        if_both (Counted n) (is_write_name tool_name) no_fact-Counted (
          if_both (Counted n) (str_eq tool_name "shell") (shell_branch call ok required)
            no_fact-Counted))
  facts_for_observed_tool-Counted call tool_name ok (some path) changed required =
      if_both (Counted n) (str_eq tool_name "read_file")
        (one_fact-Counted (read n call.id tool_name path ok) (unfold sequence in refl))
        (if_both (Counted n) (is_write_name tool_name)
          (one_fact-Counted (write n call.id tool_name path ok changed) (unfold sequence in refl))
          (if_both (Counted n) (str_eq tool_name "shell") (shell_branch call ok required)
            no_fact-Counted))

  facts_for_runtime_execution-Counted :
      (execution : ToolExecutionRecord) (required : Option String)
      → Counted n (facts_for_runtime_execution n execution required)
  unfolding facts_for_runtime_execution
  facts_for_runtime_execution-Counted execution required =
      if_both (Counted n) (str_eq execution.name "read_file" || is_write_name execution.name)
        (elim (Option-cases (Option.map normalize_tool_path execution.path)) [
          | inl e ↦ rw e no_fact-Counted
          | inr (path, e) ↦ rw e (
              facts_for_observed_tool-Counted (runtime_call n execution.name path) execution.name
                execution.ok (some path) execution.changed required)
        ])
        no_fact-Counted

-- The facts for one call, the counter after them, and the executions that are left.
facts_for_call-Counted :
    (n : ℕ) (call : ToolCall) (executions : List ToolExecutionRecord) (required : Option String)
    → n ≤ u32_max
    → let r = facts_for_call n call executions required in Counted n (r.0, r.1)
unfolding facts_for_call
facts_for_call-Counted n call [] required bound = no_fact-Counted n bound
facts_for_call-Counted n call (execution ∷ executions) required bound =
    elim (Bool-cases (tool_call_alignment_is_consistent call execution.name)) [
      | inl e ↦
          rw (e, facts_for_call)
            (facts_for_observed_tool-Counted n bound call execution.name execution.ok
              (normalized_path_from_execution_or_call execution.path call) execution.changed
              required)
      | inr e ↦
          let r = facts_for_runtime_execution n execution required in
          let first = facts_for_runtime_execution-Counted n bound execution required in
          let rest = facts_for_call-Counted r.1 call executions required first.1 in
          rw (e, facts_for_call)
            (
              Runs-append n r.1 (facts_for_call r.1 call executions required).1 r.0
                  (facts_for_call r.1 call executions required).0 first.0 rest.0,
              rest.1,
            )
    ]

-- Facts that ascend from a number.
abbrev IsAscending : ℕ → List ToolFact → Type 0
IsAscending n [] = Unit
IsAscending n (fact ∷ facts) = (n ≤ sequence fact) × IsAscending (sequence fact) facts

Runs-IsAscending :
    (n m : ℕ) (facts more : List ToolFact)
    → Runs n facts m
    → IsAscending m more
    → IsAscending n (facts ++ more)
Runs-IsAscending n m [] [] h a = tt
Runs-IsAscending n m [] (fact ∷ more) h (first, rest) = (omega arith, rest)
Runs-IsAscending n m (fact ∷ facts) more (first, rest) a =
    (first, Runs-IsAscending (sequence fact) m facts more rest a)

facts_for_rest-IsAscending :
    (n : ℕ) (executions : List ToolExecutionRecord) (required : Option String)
    → n ≤ u32_max
    → IsAscending n (facts_for_rest n executions required)
unfolding facts_for_rest
facts_for_rest-IsAscending n [] required bound = tt
facts_for_rest-IsAscending n (execution ∷ executions) required bound =
    let r = facts_for_runtime_execution n execution required in
    let first = facts_for_runtime_execution-Counted n bound execution required in
    Runs-IsAscending n r.1 r.0 (facts_for_rest r.1 executions required) first.0
      (facts_for_rest-IsAscending r.1 executions required first.1)

facts_from-IsAscending :
    (n : ℕ) (required : Option String) (calls : List ToolCall)
    (executions : List ToolExecutionRecord)
    → n ≤ u32_max
    → IsAscending n (facts_from n required calls executions)
unfolding facts_from
facts_from-IsAscending n required [] executions bound =
    facts_for_rest-IsAscending n executions required bound
facts_from-IsAscending n required (call ∷ calls) executions bound =
    let r = facts_for_call n call executions required in
    let first = facts_for_call-Counted n call executions required bound in
    Runs-IsAscending n r.1 r.0 (facts_from r.1 required calls r.2) first.0
      (facts_from-IsAscending r.1 required calls r.2 first.1)

insert_fact-first :
    (n : ℕ) (fact : ToolFact) (facts : List ToolFact)
    → IsAscending (sequence fact) facts
    → insert_fact fact facts ≡ fact ∷ facts
unfolding insert_fact
insert_fact-first n fact [] h = refl
insert_fact-first n fact (next ∷ facts) (first, rest) = ground arith

sort_by_sequence-IsAscending :
    (n : ℕ) (facts : List ToolFact) → IsAscending n facts → sort_by_sequence facts ≡ facts
unfolding sort_by_sequence
sort_by_sequence-IsAscending n [] h = refl
sort_by_sequence-IsAscending n (fact ∷ facts) (first, rest) =
    rw (sort_by_sequence-IsAscending (sequence fact) facts rest)
      (insert_fact-first n fact facts rest)

-- The facts of a run are in the order of their sequence numbers, so the stable sort that the guards
-- begin with keeps the order in which the tools were executed, also where the counter has stopped at
-- the largest u32.
pub sort_by_sequence-tool_facts :
    (required : Option String) (calls : List ToolCall) (executions : List ToolExecutionRecord)
    → sort_by_sequence (tool_facts_from_calls_and_executions required calls executions)
      ≡ tool_facts_from_calls_and_executions required calls executions
unfolding tool_facts_from_calls_and_executions
sort_by_sequence-tool_facts required calls executions =
    sort_by_sequence-IsAscending 0 (facts_from 0 required calls executions)
      (facts_from-IsAscending 0 required calls executions (omega arith))
