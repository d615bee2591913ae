-- ===== src/Artifact/Resumed.antt =====
-- A run that stops for an approval leaves a record that is resumed with it, and that is settled then, so
-- that the end of the resumed run is recorded.
use local_agent.Base.{
  String, ◌≡◌, refl, ap, ◌∙◌, Option, none, some, List, [], ◌∷◌, ◌++◌, and_then, list_laws, arith,
  true, str_eq,
}
use mathlib.Core.Option
use local_agent.Json.{Value}
use local_agent.Types.{ToolCall}
use local_agent.RunPhase.{waiting_for_approval, InterruptHistoryEntry}
use local_agent.RunPhase.Resume.{
  BoundaryCheckpoint, at_approval, approval_interrupt, or_pending_id, RuntimeRunCheckpointRecord,
  approval_granted, resumes, is_open_interrupt, update_last, resume_in,
  decide_runtime_checkpoint_resume, transition_runtime_checkpoint_to_executing,
}
use local_agent.RunPhase.Once.{EndsInPhase, transition-EndsInPhase, update_last-last}
use local_agent.Completion.Run.{exit_approval_required}
use local_agent.Artifact.{
  FinishedRun, final_approval, checkpoint_for_outcome, runtime_state_checkpoint_for_outcome,
  terminal_phase_for_outcome, ToolDecision, find_last,
}
use local_agent.Artifact.History.{
  interrupt_history_for_outcome, interrupt_history_for_outcome_with_prior, prior_interrupts,
}
use local_agent.Artifact.Check.{unresolved}
use local_agent.Artifact.Finalize.{
  FinalizeInput, recorded, record_at, artifact_of, finalize_envelopes, pending_approval_tool_call,
  pending_call, record_checked, runtime_checkpoint_record_for_outcome, finalize_run_artifacts,
}
use local_agent.Artifact.Accepted.{is_recorded, finalize-recorded}
use local_agent.Artifact.Summary.{Settled, summary-EndsIn, prior_unresolved}

recorded-exact :
    (run : FinishedRun) (input : FinalizeInput) (terminal consistent : Option String)
    → is_recorded (record_checked run input terminal consistent) ≡ true
    → record_checked run input terminal consistent
      ≡ recorded
          (artifact_of run input)
          (runtime_checkpoint_record_for_outcome run input (finalize_envelopes run input))
recorded-exact run input (some error) consistent h = cc
recorded-exact run input none (some error) h = cc
recorded-exact run input none none h = refl

-- The pending call has the approval of the decision, so nothing else comes of it.
pending_id :
    (to_string : Value → String) (decision : Option ToolDecision)
    (call_of : ToolDecision → Option ToolCall)
    → let id = and_then decision (λ d. d.approval_id) in
      or_pending_id id (and_then decision (λ d. Option.map (pending_call to_string d) (call_of d)))
      ≡ id
pending_id to_string none call_of = refl
pending_id to_string (some decision) call_of = ground arith

-- A resumption closes the one interrupt that waits.
closing :
    (now : String) (earlier : List InterruptHistoryEntry) (e : InterruptHistoryEntry)
    → unresolved earlier ≡ []
    → e.resolved_at ≡ none
    → unresolved (
        update_last is_open_interrupt
          (λ (entry : InterruptHistoryEntry). record entry { resolved_at = some now })
          (earlier ++ e ∷ []))
      ≡ []
closing now earlier e none_waits waits =
    let opens : is_open_interrupt e ≡ true = rw waits refl in
    let close = λ (entry : InterruptHistoryEntry). record entry { resolved_at = some now } in
    ap unresolved (update_last-last is_open_interrupt close e opens earlier)
    ∙ simp (list_laws, none_waits) refl

module _ (run : FinishedRun) (input : FinalizeInput) (settled : Settled input.prior)
    (stopped : run.outcome.exit_reason ≡ exit_approval_required) where
  abbrev boundary : BoundaryCheckpoint
  boundary = record {
    schema_version = "openagent.run_checkpoint.v1";
    phase = at_approval;
    terminal_boundary = true;
    pending_interrupt =
        some (record { kind = approval_interrupt; reason = some run.outcome.final_output });
  }

  abbrev pub left_over : RuntimeRunCheckpointRecord
  left_over = record_at run input (finalize_envelopes run input) boundary

  at_boundary : checkpoint_for_outcome run ≡ some boundary
  unfolding checkpoint_for_outcome
  at_boundary = rw stopped refl

  recorded_with :
      finalize_run_artifacts run input ≡ recorded (artifact_of run input) (some left_over)
  unfolding finalize_run_artifacts runtime_checkpoint_record_for_outcome
  recorded_with =
      let passes = finalize-recorded run input settled in
      recorded-exact run input _ _ (ground arith)
      ∙ ap
          (λ (b : Option BoundaryCheckpoint).
            recorded (artifact_of run input)
              (Option.map (record_at run input (finalize_envelopes run input)) b))
          at_boundary

  -- The approval of the last decision that asks for one.
  resumes_with :
      decide_runtime_checkpoint_resume left_over
      ≡ resumes (record {
        kind = approval_granted;
        phase = waiting_for_approval;
        approval_id = and_then (final_approval run) (λ d. d.approval_id);
      })
  unfolding decide_runtime_checkpoint_resume runtime_state_checkpoint_for_outcome
      terminal_phase_for_outcome pending_approval_tool_call
  resumes_with =
      ap (resume_in left_over) (ap terminal_phase_for_outcome stopped)
      ∙ ap
          (λ (id : Option String).
            resumes
              (record { kind = approval_granted; phase = waiting_for_approval; approval_id = id }))
          (pending_id input.to_string (final_approval run) λ (d : ToolDecision).
            find_last (λ (call : ToolCall). str_eq call.id d.tool_call_id) run.outcome.tool_calls)

  ends_in_phase : EndsInPhase left_over
  unfolding runtime_state_checkpoint_for_outcome
  ends_in_phase =
      let (earlier, current, summary, closed, open_now, in_phase) =
        summary-EndsIn run input.prior settled in
      record {
        earlier = earlier;
        current = current;
        summary = summary;
        closed = closed;
        open_now = open_now;
        in_phase = in_phase;
      }

  nothing_waits :
      (now : String)
      → unresolved (transition_runtime_checkpoint_to_executing now left_over).interrupt_history ≡ []
  unfolding transition_runtime_checkpoint_to_executing interrupt_history_for_outcome_with_prior
      interrupt_history_for_outcome
  nothing_waits now =
      rw (interrupt_history_for_outcome, stopped)
        (closing now (prior_interrupts input.prior) _ (prior_unresolved input.prior settled) refl)

  -- Where what is stored of the run from before is settled, a run that stops for an approval leaves a
  -- record, which is resumed with the approval of the last decision that asked for one, and is settled
  -- once it is resumed, at whatever time.
  pub approval-resumes :
      (now : String)
      → (finalize_run_artifacts run input ≡ recorded (artifact_of run input) (some left_over))
        × (decide_runtime_checkpoint_resume left_over
            ≡ resumes (record {
              kind = approval_granted;
              phase = waiting_for_approval;
              approval_id = and_then (final_approval run) (λ d. d.approval_id);
            }))
        × Settled (some (transition_runtime_checkpoint_to_executing now left_over))
  approval-resumes now = (
    recorded_with,
    resumes_with,
    (transition-EndsInPhase now left_over ends_in_phase, nothing_waits now),
  )
