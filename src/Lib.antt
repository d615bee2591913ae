-- ===== src/Lib.antt =====
-- A verification library for LocalAgent, an agent that runs tools for a language model on the user's
-- machine. It covers the parts that decide what a run may do and that keep its bookkeeping.
--
-- The program. The agent asks a gate before each tool call. The gate (src/gate.rs) first applies the
-- flags of the run, then asks the policy (src/trust/policy.rs) for a decision, and where an approval
-- is required it consults a store of approvals on disk (src/trust/approvals.rs). Content from
-- untrusted tools taints the run (src/taint.rs), and a gate that enforces this escalates calls with
-- side effects. An allowed call is charged to the budgets of the run (src/agent_budget.rs). The
-- operator can queue messages, which are delivered at boundaries of a turn (src/operator_queue.rs),
-- and a conversation that has grown too long is compacted (src/compaction.rs). A task file runs the
-- agent on several nodes, in an order in which dependencies come first (src/taskgraph.rs).
--
-- A turn of the agent (src/agent.rs) passes the guards of its phase (src/agent/response_guards.rs). Where
-- the model calls no tool, the completion (src/agent/runtime_completion.rs) decides whether the run may
-- end: it reads written files back, looks at the facts of the run (src/agent/tool_facts.rs), asks for
-- the required validation or the exact answer once, or ends the run; and the checkpoint of the run
-- follows (src/agent/phase_transitions.rs). What the end of a run leaves is checked and recorded
-- (src/agent_runtime/checkpoint.rs, src/agent_runtime/finalize.rs), and a run that waits for an approval
-- is resumed from its record (src/agent/completion_policy.rs, src/agent/interrupts.rs).
--
-- The files. Base has the shared names: tests, lists, texts, and maps as association lists that keep
-- the order of their keys (`BTreeMap`). Json models `serde_json::Value`. Types models src/types.rs
-- and the table of side effects in src/tools/catalog.rs.
--   OperatorQueue        src/operator_queue.rs: `submit`, `deliver_at_boundary`, `truncate_utf8_to_bytes`
--   Trust.Policy         src/trust/policy.rs: `evaluate`, `mcp_tool_allowed`, `taint_file_match`
--   Trust.Policy.Compile, Load, SafeDefault
--                        `from_yaml`, `from_path` with its includes, `safe_default`
--   Trust.Approvals      src/trust/approvals.rs: every operation of `ApprovalsStore`
--   Gate, Gate.Key, Gate.Decide
--                        src/gate.rs and src/gate/helpers.rs: `NoGate::decide`, the approval keys and
--                        `TrustGate::decide`
--   Taint                src/taint.rs: the operations of `TaintState`
--   Budget               src/agent_budget.rs, and the charge before a call in src/agent/gate_paths.rs
--   Compaction           src/compaction.rs: `maybe_compact`
--   TaskGraph, TaskGraph.Checkpoint
--                        src/taskgraph.rs: `topo_order`, `load_or_init_checkpoint`, `ensure_resume_allowed`
--   ToolPath             `normalize_tool_path` of src/agent_impl_guard.rs
--   ToolFacts, ToolFacts.Transcript, ToolFacts.Guard
--                        src/agent/tool_facts.rs: the facts of executions and of a transcript, and what
--                        is concluded from facts
--   ImplGuard            src/agent_impl_guard.rs: the requirements of prompts, the guard
--   RunPhase, RunPhase.Initial, RunPhase.Resume
--                        src/agent_runtime/state.rs, and the resumption of a checkpoint
--   Completion           src/agent/completion_policy.rs and `runtime_completion_decision`
--   Completion.Answer    the required answer, of src/agent.rs
--   Completion.Run, Completion.Boundary
--                        the state of a completion, queued messages, the readback of a path
--   Completion.Action, Completion.Handler
--                        `handle_runtime_completion_action`
--   Completion.Written   `finalize_verified_write_step_or_error` and what it calls
--   Completion.Checkpoint, Completion.Phase
--                        src/agent/phase_transitions.rs, and `run_runtime_completion_phase`
--   ResponseGuards       src/agent/response_guards.rs and src/agent/runtime_effects.rs
--   Artifact, Artifact.History, Artifact.Check, Artifact.Finalize
--                        src/agent_runtime/checkpoint.rs, and the second half of
--                        `finalize_run_artifacts`
-- The children of a module that are named for what they prove hold its lemmas, and Tests its runs.
--
-- State. A method that mutates `self` takes the state and returns it. The approvals store is one
-- file: `Disk` holds it parsed, with whether reading, writing and each rename work, so that every
-- error path of the store and of the gate is a value. A completion works on `Run` (queue, events, messages,
-- executions), whose events leave out the run's id and the step, and on `RunCheckpoint`. Clocks,
-- fresh ids, the hash, globs, YAML, JSON text and the file system are parameters.
--
-- Bounds. `u32` and `u64` (also `usize`) are saturating where the code is. Loops recur on their lists.
-- On fuel are the loading of policy files, where one more than the number of readable files is
-- enough, since a chain of includes repeats no file; and the queue of `topo_order`, where the number
-- of nodes is enough, since each is put out once. Printing a number recurs on the number.
-- The search for a required answer runs on fuel, where more than the bytes of the trimmed output is
-- enough if what is required is not blank; if it is blank, the source's loop need not end.
--
-- Not modelled: the audit log, the texts of errors that come from libraries, the agent's own loop
-- around its completion and guards, providers,
-- tool execution, the front ends, and the other parts that are mostly input and output.
pub mod Base
pub mod Json
pub mod Types
pub mod OperatorQueue
pub mod Trust
pub mod Taint
pub mod Gate
pub mod ToolPath
pub mod ToolFacts
pub mod ImplGuard
pub mod Artifact
pub mod RunPhase
pub mod Completion
pub mod ResponseGuards
pub mod Budget
pub mod Compaction
pub mod TaskGraph
