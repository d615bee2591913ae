-- ===== src/Artifact/Summary.antt =====
-- What is settled of the run from before, and the summary of phases at the end of a run.
use local_agent.Base.{
  ◌≡◌, refl, Bool, true, false, Option, none, some, List, [], ◌∷◌, ◌++◌, All, All-append, is_empty,
  last, arith, inl, inr, Bool-cases, is_some,
}
use local_agent.RunPhase.{RunPhase, PhaseSummaryEntry, phase_eq, setup, executing}
use local_agent.RunPhase.Resume.{RuntimeRunCheckpointRecord}
use local_agent.RunPhase.Once.{EndsInPhase, any-last, update_last-last}
use local_agent.Artifact.{FinishedRun, terminal_phase_for_outcome, find_last}
use local_agent.Artifact.History.{
  is_open_entry, last_entry, extend_summary, phase_summary_for_outcome,
  phase_summary_for_outcome_with_prior, entry, prior_interrupts,
}
use local_agent.Artifact.Check.{unresolved}

-- What is stored of the run from before, if something is: its last phase is the one that is open, and
-- no interrupt waits.
abbrev pub Settled : Option RuntimeRunCheckpointRecord → Type 0
Settled none = Unit
Settled (some prior) = EndsInPhase prior × (unresolved prior.interrupt_history ≡ [])

module _ {ℓ} {A : Type ℓ} where
  pub last-append : (xs : List A) (x : A) → last (xs ++ x ∷ []) ≡ some x
  last-append [] x = refl
  last-append (y ∷ []) x = refl
  last-append (y ∷ z ∷ xs) x = last-append (z ∷ xs) x

  find_last-last :
      (p : A → Bool) (xs : List A) (x : A) → p x ≡ true → find_last p (xs ++ x ∷ []) ≡ some x
  unfolding find_last
  find_last-last p [] x h = rw h refl
  find_last-last p (y ∷ xs) x h = rw (any-last p (λ z. z) x h xs) (find_last-last p xs x h)

-- The last entry of a summary is the only one that is open, and has the phase.
abbrev pub EndsIn : RunPhase → List PhaseSummaryEntry → Type 0
EndsIn phase summary =
    (earlier : List PhaseSummaryEntry) × (current : PhaseSummaryEntry) × (summary
      ≡ earlier ++ current ∷ [])
    × All (λ (e : PhaseSummaryEntry). is_some e.exited_at ≡ true) earlier
    × (current.exited_at ≡ none)
    × (current.phase ≡ phase)

phase_eq-eq : (a b : RunPhase) → phase_eq a b ≡ true → a ≡ b
unfolding phase_eq
phase_eq-eq a b h = ground arith

not_empty {ℓ} : {A : Type ℓ} → (xs : List A) (x : A) → is_empty (xs ++ x ∷ []) ≡ false
not_empty [] x = refl
not_empty (y ∷ xs) x = refl

is_open_current : (e : PhaseSummaryEntry) → e.exited_at ≡ none → is_open_entry e ≡ true
is_open_current e h = rw h refl

extend_summary-EndsIn :
    (run : FinishedRun) (earlier : List PhaseSummaryEntry) (current : PhaseSummaryEntry)
    → All (λ (e : PhaseSummaryEntry). is_some e.exited_at ≡ true) earlier
    → current.exited_at ≡ none
    → EndsIn
        (terminal_phase_for_outcome run.outcome.exit_reason)
        (extend_summary run (earlier ++ current ∷ []))
unfolding extend_summary
extend_summary-EndsIn run earlier current closed open_now =
    let phase = terminal_phase_for_outcome run.outcome.exit_reason in
    let opens = is_open_current current open_now in
    let found = find_last-last is_open_entry earlier current opens in
    let close = λ (e : PhaseSummaryEntry). record e { exited_at = some run.finished_at } in
    let closing = update_last-last is_open_entry close current opens earlier in
    elim (Bool-cases (phase_eq current.phase phase)) [
      | inl same ↦
          rw (extend_summary, found, same)
            (earlier, current, refl, closed, open_now, phase_eq-eq current.phase phase same)
      | inr other ↦
          rw (extend_summary, found, other, closing)
            (
              earlier ++ close current ∷ [],
              last_entry run,
              refl,
              All-append _ earlier (close current ∷ []) closed (refl, tt),
              refl,
              refl,
            )
    ]

pub summary-EndsIn :
    (run : FinishedRun) (prior : Option RuntimeRunCheckpointRecord)
    → Settled prior
    → EndsIn
        (terminal_phase_for_outcome run.outcome.exit_reason)
        (phase_summary_for_outcome_with_prior run prior)
unfolding phase_summary_for_outcome_with_prior phase_summary_for_outcome
summary-EndsIn run none h = (
  entry setup run.started_at (some run.started_at)
      ∷ entry executing run.started_at (some run.finished_at)
      ∷ [],
  last_entry run,
  refl,
  (refl, (refl, tt)),
  refl,
  refl,
)
summary-EndsIn run (some prior) (ends, _) =
    rw (ends.summary, not_empty ends.earlier ends.current)
      (extend_summary-EndsIn run ends.earlier ends.current ends.closed ends.open_now)

pub prior_unresolved :
    (prior : Option RuntimeRunCheckpointRecord)
    → Settled prior
    → unresolved (prior_interrupts prior) ≡ []
prior_unresolved none h = refl
prior_unresolved (some prior) (_, none_waits) = none_waits
