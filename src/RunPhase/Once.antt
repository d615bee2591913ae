-- ===== src/RunPhase/Once.antt =====
-- A checkpoint is resumed once, and its summary of phases always ends in the phase it is in.
use local_agent.Base.{
  String, ◌≡◌, refl, ap, Bool, true, none, some, List, [], ◌∷◌, ◌++◌, All, All-append, any, is_some,
  arith,
}
use local_agent.RunPhase.{
  RunPhase, executing, verifying_changes, validating, collecting_final_answer, waiting_for_approval,
  waiting_for_operator_input, setup, planning, finalizing, done, failed, cancelled,
  PhaseSummaryEntry, phase_eq,
}
use local_agent.RunPhase.Resume.{
  RuntimeRunCheckpointRecord, refused, runtime_phase_is, resume_in,
  decide_runtime_checkpoint_resume, resume_phase_from_checkpoint_state, update_last, is_open_phase,
  transition_runtime_checkpoint_to_executing,
}

-- The phases in which a run goes on.
abbrev Runs : RuntimeRunCheckpointRecord → RunPhase → Type 0
Runs checkpoint phase =
    resume_in checkpoint phase ≡ refused (runtime_phase_is checkpoint.runtime_run_id phase)

resume_phase-Runs :
    (checkpoint later : RuntimeRunCheckpointRecord)
    → Runs later (resume_phase_from_checkpoint_state checkpoint)
unfolding resume_phase_from_checkpoint_state
resume_phase-Runs checkpoint later = ground arith

-- After a resumption a checkpoint is refused, with the phase that the run goes on in, whatever it was
-- before.
pub transition-refused :
    (now : String) (checkpoint : RuntimeRunCheckpointRecord)
    → decide_runtime_checkpoint_resume (transition_runtime_checkpoint_to_executing now checkpoint)
      ≡ refused (
          runtime_phase_is checkpoint.runtime_run_id
            (resume_phase_from_checkpoint_state checkpoint))
unfolding decide_runtime_checkpoint_resume transition_runtime_checkpoint_to_executing
transition-refused now checkpoint =
    resume_phase-Runs checkpoint (transition_runtime_checkpoint_to_executing now checkpoint)

-- All entries but the last are closed, and the last is open and has the phase of the checkpoint.
pub record EndsInPhase (checkpoint : RuntimeRunCheckpointRecord) : Type 0 where
  pub earlier : List PhaseSummaryEntry
  pub current : PhaseSummaryEntry
  pub summary : checkpoint.phase_summary ≡ earlier ++ current ∷ []
  pub closed : All (λ (entry : PhaseSummaryEntry). is_some entry.exited_at ≡ true) earlier
  pub open_now : current.exited_at ≡ none
  pub in_phase : current.phase ≡ checkpoint.runtime_state_checkpoint.phase

pub phase_eq_refl : (phase : RunPhase) → phase_eq phase phase ≡ true
unfolding phase_eq
phase_eq_refl setup = refl
phase_eq_refl planning = refl
phase_eq_refl executing = refl
phase_eq_refl waiting_for_approval = refl
phase_eq_refl waiting_for_operator_input = refl
phase_eq_refl verifying_changes = refl
phase_eq_refl validating = refl
phase_eq_refl collecting_final_answer = refl
phase_eq_refl finalizing = refl
phase_eq_refl done = refl
phase_eq_refl failed = refl
phase_eq_refl cancelled = refl

module _ {ℓ} {A : Type ℓ} (p : A → Bool) (f : A → A) (last : A) (fits : p last ≡ true) where
  pub any-last : (before : List A) → any p (before ++ last ∷ []) ≡ true
  any-last [] = ground (arith, fits)
  any-last (x ∷ before) = ground (arith, any-last before)

  pub update_last-last :
      (before : List A) → update_last p f (before ++ last ∷ []) ≡ before ++ f last ∷ []
  unfolding update_last
  update_last-last [] = rw fits refl
  update_last-last (x ∷ before) =
      rw (any-last before) (ap (λ (xs : List A). x ∷ xs) (update_last-last before))

is_open_current :
    (phase : RunPhase) (entry : PhaseSummaryEntry)
    → entry.phase ≡ phase
    → entry.exited_at ≡ none
    → is_open_phase phase entry ≡ true
is_open_current phase entry same open_now = rw (same, open_now, phase_eq_refl phase) refl

-- A resumption keeps the summary of phases in order: it closes the phase that the checkpoint waited in,
-- and ends in the one phase that is open, which is the phase that the run goes on in.
pub transition-EndsInPhase :
    (now : String) (checkpoint : RuntimeRunCheckpointRecord)
    → EndsInPhase checkpoint
    → EndsInPhase (transition_runtime_checkpoint_to_executing now checkpoint)
unfolding transition_runtime_checkpoint_to_executing
transition-EndsInPhase now checkpoint h =
    let phase = checkpoint.runtime_state_checkpoint.phase in
    let close = λ (entry : PhaseSummaryEntry). record entry { exited_at = some now } in
    let closing =
      update_last-last (is_open_phase phase) close h.current
        (is_open_current phase h.current h.in_phase h.open_now) h.earlier in
    record {
      earlier = h.earlier ++ close h.current ∷ [];
      current = record {
        phase = resume_phase_from_checkpoint_state checkpoint;
        entered_at = now;
        exited_at = none;
      };
      summary = rw (h.summary, closing) refl;
      closed = All-append _ h.earlier (close h.current ∷ []) h.closed (refl, tt);
      open_now = refl;
      in_phase = refl;
    }
