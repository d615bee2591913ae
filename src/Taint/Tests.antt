-- ===== src/Taint/Tests.antt =====
-- Runs of the taint state.
use local_agent.Base.{◌≡◌, [], ◌∷◌, List, any, if◌then◌else◌}
use local_agent.Taint.{TaintSpan, clean, tainted, new}
use local_agent.Taint.Propagation.{
  Update, tool_spans, assistant, adds, run, run-new-overall, IsCoherent,
}

abbrev span : TaintSpan
span = record { source = "browser"; detail = "page"; digest = "d" }

-- A page of the browser, and what the assistant says after it.
abbrev updates : List Update
updates = tool_spans "t1" 3 (span ∷ span ∷ []) ∷ assistant 4 ∷ []

run-new-overall_example :
    ((run new updates).overall ≡ (if any adds updates then tainted else clean))
    × IsCoherent (run new updates)
run-new-overall_example = run-new-overall updates
