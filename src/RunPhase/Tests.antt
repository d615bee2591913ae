-- ===== src/RunPhase/Tests.antt =====
-- The resumption of a concrete checkpoint that waits for an approval.
use local_agent.Base.{◌≡◌, refl, true, false, none, some, [], ◌∷◌}
use local_agent.RunPhase.{
  RunCheckpoint, waiting_for_approval, executing, validating, scoped_host_shell,
}
use local_agent.RunPhase.Initial.{start_checkpoint}
use local_agent.RunPhase.Resume.{
  RuntimeRunCheckpointRecord, refused, runtime_phase_is, at_approval, approval_interrupt, resumes,
  approval_granted, decide_runtime_checkpoint_resume, resume_phase_from_checkpoint_state,
  transition_runtime_checkpoint_to_executing,
}
use local_agent.RunPhase.Once.{EndsInPhase, transition-refused, transition-EndsInPhase}

abbrev waiting : RunCheckpoint
waiting = record (start_checkpoint scoped_host_shell false (some "cargo test") false) {
  phase = waiting_for_approval;
  terminal_boundary = true;
  approval_state = record {
    approval_id = some "a1";
    tool_call_id = some "c1";
    awaiting_approval = true;
  };
}

abbrev checkpoint : RuntimeRunCheckpointRecord
checkpoint = record {
  schema_version = "openagent.runtime_checkpoint.v1";
  runtime_run_id = "r1";
  prompt = "mend it";
  resume_argv = [];
  validation_command_override = none;
  exact_final_answer_override = none;
  checkpoint = some (record {
    schema_version = "openagent.run_checkpoint.v1";
    phase = at_approval;
    terminal_boundary = true;
    pending_interrupt = some (record { kind = approval_interrupt; reason = none });
  });
  runtime_state_checkpoint = waiting;
  execution_tier = scoped_host_shell;
  resume_session_messages = [];
  interrupt_history = [];
  phase_summary =
      record { phase = executing; entered_at = "t0"; exited_at = some "t1" }
      ∷ record { phase = waiting_for_approval; entered_at = "t1"; exited_at = none }
      ∷ [];
  completion_decisions = [];
  tool_facts = [];
  tool_fact_envelopes = [];
  pending_tool_call = none;
  boundary_output = none;
}

-- It is resumed, with the approval, and goes on with the validation.
resumed :
    decide_runtime_checkpoint_resume checkpoint
    ≡ resumes
        (record { kind = approval_granted; phase = waiting_for_approval; approval_id = some "a1" })
unfolding decide_runtime_checkpoint_resume
resumed = refl

goes_on : resume_phase_from_checkpoint_state checkpoint ≡ validating
unfolding resume_phase_from_checkpoint_state
goes_on = refl

transition-refused_example :
    decide_runtime_checkpoint_resume (transition_runtime_checkpoint_to_executing "t2" checkpoint)
    ≡ refused (runtime_phase_is "r1" (resume_phase_from_checkpoint_state checkpoint))
transition-refused_example = transition-refused "t2" checkpoint

transition-EndsInPhase_example :
    EndsInPhase (transition_runtime_checkpoint_to_executing "t2" checkpoint)
transition-EndsInPhase_example = transition-EndsInPhase "t2" checkpoint (record {
  earlier = record { phase = executing; entered_at = "t0"; exited_at = some "t1" } ∷ [];
  current = record { phase = waiting_for_approval; entered_at = "t1"; exited_at = none };
  summary = refl;
  closed = (refl, tt);
  open_now = refl;
  in_phase = refl;
})
