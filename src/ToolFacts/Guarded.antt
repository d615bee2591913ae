-- ===== src/ToolFacts/Guarded.antt =====
-- The guard of an implementation lets a run end exactly where its edits were read before, its writes
-- were read back, and something was changed.
use local_agent.Base.{
  ℕ, String, ◌≡◌, refl, sym, ap, ◌∙◌, ◌↔◌, Bool, true, false, ◌||◌, Option, none, List, [], ◌∷◌,
  ◌++◌, any, arith, str_eq, eq_refl, has, set_insert, has-set_insert, if◌then◌else◌, List-cases,
  inl, inr, is_empty,
}
use local_agent.Types.{ToolCall}
use local_agent.ToolFacts.{
  ToolExecutionRecord, ToolFact, read, write, shell, validation, is_effective_write,
  tool_facts_from_calls_and_executions,
}
use local_agent.ToolFacts.Guard.{
  pending_post_write_verification_paths_from_facts, is_unread_edit, edit_violation_from,
  read_before_edit_violation_from_facts, write_violation,
  implementation_integrity_violation_from_facts, output_has_placeholder_artifacts,
}
use local_agent.ToolFacts.Order.{sort_by_sequence-tool_facts}
use local_agent.ToolFacts.Readback.{reads, AwaitsReadback, pending-Awaits}

-- A successful write by a tool that changes what is there comes after a successful read of its path;
-- `known` are the paths that were read before.
abbrev pub EditsRead : List String → List ToolFact → Type 0
EditsRead known facts =
    (before after : List ToolFact) (n : ℕ) (id tool path : String) (changed : Option Bool)
    → facts ≡ before ++ write n id tool path true changed ∷ after
    → str_eq tool "write_file" || (has path known || any (reads path) before) ≡ true

known_after : List String → ToolFact → List String
known_after known (read _ _ _ path ok) = if ok then set_insert path known else known
known_after known (write _ _ _ _ _ _) = known
known_after known (shell _ _ _ _) = known
known_after known (validation _ _ _ _) = known

has-known_after :
    (path : String) (known : List String) (fact : ToolFact)
    → has path (known_after known fact) ≡ (reads path fact || has path known)
unfolding known_after
has-known_after path known (read n id tool there ok) =
    ground (arith, has-set_insert there path known)
has-known_after path known (write n id tool there ok changed) = refl
has-known_after path known (shell n id command ok) = refl
has-known_after path known (validation n id command ok) = refl

abbrev breaks : List String → ToolFact → Bool
breaks known (write _ _ tool path ok _) = is_unread_edit known tool path ok
breaks known (read _ _ _ _ _) = false
breaks known (shell _ _ _ _) = false
breaks known (validation _ _ _ _) = false

-- One round of the loop, both ways.
edit_violation-next :
    (known : List String) (fact : ToolFact) (facts : List ToolFact)
    → edit_violation_from known (fact ∷ facts) ≡ none
    → (breaks known fact ≡ false) × (edit_violation_from (known_after known fact) facts ≡ none)
unfolding edit_violation_from known_after
edit_violation-next known (read n id tool path ok) facts h = (refl, h)
edit_violation-next known (write n id tool path ok changed) facts h = ground arith
edit_violation-next known (shell n id command ok) facts h = (refl, h)
edit_violation-next known (validation n id command ok) facts h = (refl, h)

edit_violation-none :
    (known : List String) (fact : ToolFact) (facts : List ToolFact)
    → breaks known fact ≡ false
    → edit_violation_from (known_after known fact) facts ≡ none
    → edit_violation_from known (fact ∷ facts) ≡ none
unfolding edit_violation_from known_after
edit_violation-none known (read n id tool path ok) facts b h = h
edit_violation-none known (write n id tool path ok changed) facts b h = rw b h
edit_violation-none known (shell n id command ok) facts b h = h
edit_violation-none known (validation n id command ok) facts b h = h

edit_violation_sound :
    (known : List String) (facts : List ToolFact)
    → edit_violation_from known facts ≡ none
    → EditsRead known facts
edit_violation_sound known [] h [] after n id tool path changed e = cc
edit_violation_sound known [] h (first ∷ before) after n id tool path changed e = cc
edit_violation_sound known (fact ∷ facts) h [] after n id tool path changed e =
    let fine = (edit_violation-next known fact facts h).0 in
    let same : fact ≡ write n id tool path true changed = cc in
    let broken = ap (breaks known) same in ground arith
edit_violation_sound known (fact ∷ facts) h (first ∷ before) after n id tool path changed e =
    let later = (edit_violation-next known fact facts h).1 in
    let ih =
      edit_violation_sound (known_after known fact) facts later before after n id tool path changed
        (cc) in
    let same : fact ≡ first = cc in
    let learned = has-known_after path known fact in
    let read_it = ap (reads path) same in ground arith

not_broken :
    (known : List String) (fact : ToolFact) (facts : List ToolFact)
    → EditsRead known (fact ∷ facts)
    → breaks known fact ≡ false
not_broken known (read n id tool path ok) facts h = refl
not_broken known (write n id tool path false changed) facts h = refl
not_broken known (write n id tool path true changed) facts h =
    let k = h [] facts n id tool path changed refl in ground arith
not_broken known (shell n id command ok) facts h = refl
not_broken known (validation n id command ok) facts h = refl

edit_violation_complete :
    (known : List String) (facts : List ToolFact)
    → EditsRead known facts
    → edit_violation_from known facts ≡ none
edit_violation_complete known [] h = unfold edit_violation_from in refl
edit_violation_complete known (fact ∷ facts) h =
    edit_violation-none known fact facts (not_broken known fact facts h) (
      edit_violation_complete (known_after known fact) facts
        λ before after n id tool path changed e.
          (let k = h (fact ∷ before) after n id tool path changed (cc) in
            let learned = has-known_after path known fact in ground arith))

pub record Guarded (output : String) (facts : List ToolFact) : Type 0 where
  pub concrete : output_has_placeholder_artifacts output ≡ false
  pub edits_read : EditsRead [] facts
  pub read_back : (path : String) → ¬ AwaitsReadback path facts
  pub effective : any is_effective_write facts ≡ true

-- Nothing waits for a readback, as a list and by its members.
nothing_pending :
    (facts : List ToolFact)
    → pending_post_write_verification_paths_from_facts facts ≡ []
    → (path : String) → ¬ AwaitsReadback path facts
nothing_pending facts e path awaits =
    let waits = (pending-Awaits path facts).1 awaits in ground arith

none_pending :
    (facts : List ToolFact)
    → ((path : String) → ¬ AwaitsReadback path facts)
    → pending_post_write_verification_paths_from_facts facts ≡ []
none_pending facts h = elim (List-cases (pending_post_write_verification_paths_from_facts facts)) [
  | inl e ↦ e
  | inr (path, rest, e) ↦
      absurd (h path ((pending-Awaits path facts).0 (rw e (ground (arith, eq_refl path)))))
]

write_violation-none :
    (pending : List String) (facts : List ToolFact)
    → write_violation pending facts ≡ none
    → (pending ≡ []) × (any is_effective_write facts ≡ true)
write_violation-none [] facts h = ground arith
write_violation-none (path ∷ pending) facts h = cc

violation-none :
    (output : String) (facts : List ToolFact)
    → implementation_integrity_violation_from_facts output facts true ≡ none
    → (output_has_placeholder_artifacts output ≡ false)
      × (read_before_edit_violation_from_facts facts ≡ none)
      × (write_violation (pending_post_write_verification_paths_from_facts facts) facts ≡ none)
unfolding implementation_integrity_violation_from_facts
violation-none output facts h = ground arith

is_empty-effective :
    (facts : List ToolFact) → any is_effective_write facts ≡ true → is_empty facts ≡ false
is_empty-effective [] h = cc
is_empty-effective (fact ∷ facts) h = refl

-- The edits of a run are in order exactly where the loop over them finds nothing: the sort before it
-- changes nothing.
module _ (calls : List ToolCall) (executions : List ToolExecutionRecord)
    (required : Option String) where
  abbrev run_facts : List ToolFact
  run_facts = tool_facts_from_calls_and_executions required calls executions

  read_before_edit-run_facts :
      read_before_edit_violation_from_facts run_facts ≡ edit_violation_from [] run_facts
  unfolding read_before_edit_violation_from_facts
  read_before_edit-run_facts =
      ap (λ (facts : List ToolFact). edit_violation_from [] facts)
        (sort_by_sequence-tool_facts required calls executions)

  violation-Guarded :
      (output : String)
      → implementation_integrity_violation_from_facts output run_facts true ≡ none
      → Guarded output run_facts
  violation-Guarded output h =
      let parts = violation-none output run_facts h in
      let written =
        write_violation-none (pending_post_write_verification_paths_from_facts run_facts) run_facts
          parts.2 in
      record {
        concrete = parts.0;
        edits_read = edit_violation_sound [] run_facts (sym read_before_edit-run_facts ∙ parts.1);
        read_back = nothing_pending run_facts written.0;
        effective = written.1;
      }

  Guarded-violation :
      (output : String)
      → Guarded output run_facts
      → implementation_integrity_violation_from_facts output run_facts true ≡ none
  unfolding implementation_integrity_violation_from_facts
  Guarded-violation output g =
      let no_edit =
        read_before_edit-run_facts ∙ edit_violation_complete [] run_facts g.edits_read in
      let no_path = none_pending run_facts g.read_back in
      rw (is_empty-effective run_facts g.effective, g.concrete) (ground arith)

  -- The guard of an implementation lets the facts of a run pass exactly where the final answer has no
  -- placeholder, every successful write (but by write_file) comes after a successful read of its path,
  -- every successful write is followed by a successful read of its path, and some successful write may
  -- have changed its file.
  pub violation-none_iff :
      (output : String)
      → (implementation_integrity_violation_from_facts output run_facts true ≡ none)
        ↔ Guarded output run_facts
  violation-none_iff output = (violation-Guarded output, Guarded-violation output)
