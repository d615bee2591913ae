-- ===== src/Gate/Hard.antt =====
-- The two guards with which `NoGate::decide` and `TrustGate::decide` of src/gate.rs begin.
use local_agent.Base.{
  String, ◌≡◌, ap, ◌⊎◌, inl, inr, true, false, none, some, arith, str_eq, eq_iff, Bool-cases,
}
use local_agent.Types.{ToolCall, shell_exec, filesystem_write, tool_side_effects}
use local_agent.Trust.Approvals.{Disk}
use local_agent.Gate.{GateContext, hard_gate, hard_denial, is_write_tool, no_gate_decide}
use local_agent.Gate.Decide.{GateEnv, TrustGate, decide, approval_key}

-- The tools whose side effects are those of the shell or of a write.
shell_name : (name : String) → tool_side_effects name ≡ shell_exec → str_eq name "shell" ≡ true
unfolding tool_side_effects
shell_name name h = ground arith

write_name : (name : String) → tool_side_effects name ≡ filesystem_write → is_write_tool name ≡ true
unfolding tool_side_effects
write_name name h = ground arith

not-shell_of_write : (name : String) → is_write_tool name ≡ true → str_eq name "shell" ≡ false
not-shell_of_write name h = elim (Bool-cases (str_eq name "shell")) [
  | inl e ↦ (let k = ap is_write_tool ((eq_iff name "shell").0 e) in cc)
  | inr e ↦ e
]

-- A tool that acts on the host with its flag off, and no bypass.
abbrev pub Forbidden : GateContext → ToolCall → Type 0
Forbidden ctx call =
    (ctx.unsafe_bypass_allow_flags ≡ false)
    × ((tool_side_effects call.name ≡ shell_exec) × (ctx.allow_shell ≡ false)
        ⊎ (tool_side_effects call.name ≡ filesystem_write) × (ctx.allow_write ≡ false))

hard_gate-Forbidden :
    (ctx : GateContext) (call : ToolCall)
    → Forbidden ctx call
    → (reason : String) × (hard_gate ctx call ≡ some reason)
unfolding hard_gate
hard_gate-Forbidden ctx call (bypass, inl (effects, off)) =
    ("shell requires --allow-shell", ground (arith, shell_name call.name effects))
hard_gate-Forbidden ctx call (bypass, inr (effects, off)) =
    let w = write_name call.name effects in
    ("writes require --allow-write", ground (arith, w, not-shell_of_write call.name w))

-- A forbidden call is denied by either gate, whatever the policy and the approvals say, and the
-- trust gate leaves the store as it was.
pub hard_gate-denies :
    (env : GateEnv) (gate : TrustGate) (ctx : GateContext) (call : ToolCall) (d : Disk)
    → Forbidden ctx call
    → (reason : String) × (no_gate_decide ctx call ≡ hard_denial none reason)
      × (decide env gate ctx call d
          ≡ (hard_denial (some (approval_key env gate ctx call)) reason, d))
unfolding no_gate_decide decide
hard_gate-denies env gate ctx call d h =
    let (reason, e) = hard_gate-Forbidden ctx call h in
    (reason, rw (e, no_gate_decide), rw (e, decide))
