-- ===== src/Taint/Propagation.antt =====
-- The state of src/taint.rs over a run of updates.
use local_agent.Base.{
  ℕ, occurrences, ◌+◌, String, ◌≡◌, refl, ◌∙◌, inl, inr, Bool, true, false, Option, none, some,
  List, [], ◌∷◌, ◌++◌, arith, sym, any, Bool-cases, eq_iff, unwrap_or, if◌then◌else◌,
}
use native.Mathlib.Nat.{add-zero, zero-add}
use local_agent.Base.Assoc.{Assoc, lookup, insert, lookup-insert}
use local_agent.Taint.{
  TaintLevel, clean, tainted, TaintSpan, TaintState, new, extend_at, add_tool_spans, context_span,
  mark_when, mark_assistant_context_tainted, count_sources, sources_count_for_last_update,
}

-- What the agent does to the state: it adds the spans of a tool call, or marks its own message.
pub data Update : Type 0 where
  tool_spans : (tool_call_id : String) (message_id : ℕ) → List TaintSpan → Update
  assistant : (message_id : ℕ) → Update

unfoldable pub step : TaintState → Update → TaintState
unfolding add_tool_spans mark_assistant_context_tainted
step s (tool_spans call message spans) = add_tool_spans call message spans s
step s (assistant message) = mark_assistant_context_tainted message s

pub run : TaintState → List Update → TaintState
unfolding step
run s [] = s
run s (u ∷ us) = run (step s u) us

-- A state is tainted exactly where a message of it is.
pub record IsCoherent (s : TaintState) : Type 0 where
  pub clean_means : s.overall ≡ clean → (j : ℕ) → s.message_taints j ≡ none
  pub tainted_means :
      s.overall ≡ tainted → (j : ℕ) × (spans : List TaintSpan) × (s.message_taints j ≡ some spans)

step-tainted : (s : TaintState) (u : Update) → s.overall ≡ tainted → (step s u).overall ≡ tainted
unfolding step
step-tainted s (tool_spans call message []) h = h
step-tainted s (tool_spans call message (x ∷ xs)) h = refl
step-tainted s (assistant message) h = ground arith

extend_at-here :
    (id : ℕ) (spans : List TaintSpan) (m : ℕ → Option (List TaintSpan))
    → extend_at id spans m id ≡ some (unwrap_or (m id) [] ++ spans)
extend_at-here id spans m = ground arith

mark_when-IsCoherent :
    (s : TaintState) (message : ℕ)
    → IsCoherent s
    → (l : TaintLevel) → s.overall ≡ l
    → IsCoherent (mark_when l message s)
mark_when-IsCoherent s message h clean e = h
mark_when-IsCoherent s message h tainted e = record {
  clean_means = λ k. cc;
  tainted_means = λ k. (message, _, extend_at-here message (context_span ∷ []) s.message_taints);
}

step-IsCoherent : (s : TaintState) (u : Update) → IsCoherent s → IsCoherent (step s u)
unfolding step
step-IsCoherent s (tool_spans call message []) h = h
step-IsCoherent s (tool_spans call message (x ∷ xs)) h = record {
  clean_means = λ e. cc;
  tainted_means = λ e. (message, _, extend_at-here message (x ∷ xs) s.message_taints);
}
step-IsCoherent s (assistant message) h = mark_when-IsCoherent s message h s.overall refl

pub adds : Update → Bool
adds (tool_spans call message []) = false
adds (tool_spans call message (x ∷ xs)) = true
adds (assistant message) = false

run-tainted :
    (s : TaintState) (us : List Update) → s.overall ≡ tainted → (run s us).overall ≡ tainted
unfolding run
run-tainted s [] h = h
run-tainted s (u ∷ us) h = run-tainted (step s u) us (step-tainted s u h)

step-overall :
    (s : TaintState) (u : Update)
    → s.overall ≡ clean
    → (step s u).overall ≡ (if adds u then tainted else clean)
unfolding step adds
step-overall s (tool_spans call message []) h = h
step-overall s (tool_spans call message (x ∷ xs)) h = refl
step-overall s (assistant message) h = ground arith

run-overall :
    (s : TaintState) (us : List Update)
    → s.overall ≡ clean
    → (run s us).overall ≡ (if any adds us then tainted else clean)
unfolding run
run-overall s [] h = h
run-overall s (u ∷ us) h = elim (Bool-cases (adds u)) [
  | inl e ↦ rw e (run-tainted (step s u) us (step-overall s u h ∙ rw e))
  | inr e ↦ rw e (run-overall (step s u) us (step-overall s u h ∙ rw e))
]

run-IsCoherent : (s : TaintState) (us : List Update) → IsCoherent s → IsCoherent (run s us)
unfolding run
run-IsCoherent s [] h = h
run-IsCoherent s (u ∷ us) h = run-IsCoherent (step s u) us (step-IsCoherent s u h)

IsCoherent-new : IsCoherent new
IsCoherent-new = record { clean_means = λ e j. refl; tainted_means = λ e. absurd (clean≢tainted e) }
  where
    clean≢tainted : clean ≡ tainted → ⊥
    clean≢tainted e = cc

-- After any updates of a new state the overall level says whether some update brought spans, and
-- the state is tainted exactly where one of its messages is.
pub run-new-overall :
    (us : List Update)
    → ((run new us).overall ≡ (if any adds us then tainted else clean)) × IsCoherent (run new us)
run-new-overall us = (run-overall new us refl, run-IsCoherent new us IsCoherent-new)

count_sources-occurrences :
    (out : Assoc ℕ) (sources : List String) (src : String)
    → unwrap_or (lookup src (count_sources out sources)) 0
      ≡ unwrap_or (lookup src out) 0 + occurrences src sources
unfolding count_sources occurrences
count_sources-occurrences out [] src = sym (add-zero _)
count_sources-occurrences out (x ∷ xs) src = ground (
  arith,
  count_sources-occurrences (insert x (unwrap_or (lookup x out) 0 + 1) out) xs src,
  lookup-insert x src (unwrap_or (lookup x out) 0 + 1) out,
  eq_iff x src,
)

-- The count of the last update has each source with the number of times that it occurs.
pub sources_count-occurrences :
    (s : TaintState) (src : String)
    → unwrap_or (lookup src (sources_count_for_last_update s)) 0 ≡ occurrences src s.last_sources
unfolding sources_count_for_last_update lookup
sources_count-occurrences s src = count_sources-occurrences [] s.last_sources src ∙ zero-add _
