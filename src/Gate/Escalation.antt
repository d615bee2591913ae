-- ===== src/Gate/Escalation.antt =====
-- The escalation at the end of `TrustGate::decide` of src/gate.rs.
use local_agent.Base.{String, ◌≡◌, refl, ◌⊎◌, inl, inr, Bool, true, false, none, some, Option-cases}
use local_agent.Types.{ToolCall}
use local_agent.Trust.Policy
use local_agent.Trust.Policy.{PolicyDecision, mcp_tool_allowed}
use local_agent.Trust.Approvals.{Disk}
use local_agent.Gate.{
  GateDecision, allow, deny, require_approval, GateContext, hard_gate, hard_denial,
}
use local_agent.Gate.Decide.{
  GateEnv, TrustGate, is_auto, decide, decide_policy, escalate, finish, evaluation, should_escalate,
  approval_key, denied_by_mcp, allow_as, consult_approvals,
}

abbrev pub is_allow : GateDecision → Bool
is_allow (allow id key reason source enforced escalated why) = true
is_allow _ = false

module _ (env : GateEnv) (gate : TrustGate) (ctx : GateContext) (call : ToolCall) where
  -- The four ends of `decide`.
  pub decide-hard :
      (d : Disk) (reason : String)
      → hard_gate ctx call ≡ some reason
      → decide env gate ctx call d ≡ (hard_denial (some (approval_key env gate ctx call)) reason, d)
  unfolding decide
  decide-hard d reason e = rw (e, decide)

  pub decide-mcp :
      (d : Disk) (reason : String)
      → hard_gate ctx call ≡ none
      → mcp_tool_allowed gate.policy call.name ≡ some reason
      → decide env gate ctx call d ≡ (denied_by_mcp env gate ctx call reason, d)
  unfolding decide
  decide-mcp d reason e m = rw (e, decide) (rw m)

  pub decide-policy :
      (d : Disk)
      → hard_gate ctx call ≡ none
      → mcp_tool_allowed gate.policy call.name ≡ none
      → decide env gate ctx call d
        ≡ finish env gate ctx call
            (decide_policy env gate ctx call (evaluation env gate ctx call).decision d)
  unfolding decide
  decide-policy d e m = rw (e, decide) (rw m)

  -- Passing the first two guards, or a denial that leaves the disk.
  pub decide-cases :
      (d : Disk)
      → ((is_allow (decide env gate ctx call d).0 ≡ false) × ((decide env gate ctx call d).1 ≡ d))
        ⊎ (hard_gate ctx call ≡ none) × (mcp_tool_allowed gate.policy call.name ≡ none)
  decide-cases d = elim (Option-cases (hard_gate ctx call)) [
    | inr (reason, e) ↦ inl (rw (decide-hard d reason e) (refl, refl))
    | inl e ↦ elim (Option-cases (mcp_tool_allowed gate.policy call.name)) [
      | inr (reason, m) ↦ inl (rw (decide-mcp d reason e m) (refl, refl))
      | inl m ↦ inr (e, m)
    ]
  ]

  escalate-not_allow :
      (g : GateDecision) (d : Disk)
      → is_auto ctx.approval_mode ≡ false
      → is_allow (escalate env gate ctx call g d).0 ≡ false
  unfolding escalate
  escalate-not_allow (allow id key reason source enforced escalated why) d h = rw h
  escalate-not_allow (deny reason key source enforced escalated why) d h = refl
  escalate-not_allow (require_approval reason id key source enforced escalated why) d h = refl

  finish-not_allow :
      (p : PolicyDecision) (d : Disk)
      → is_auto ctx.approval_mode ≡ false
      → should_escalate env gate ctx call ≡ true
      → is_allow (finish env gate ctx call (decide_policy env gate ctx call p d)).0 ≡ false
  unfolding finish decide_policy
  finish-not_allow Policy.allow d m s =
      rw s (escalate-not_allow (allow_as env gate ctx call none) d m)
  finish-not_allow Policy.deny d m s = rw s
  finish-not_allow Policy.require_approval d m s =
      rw (m, s)
        (escalate-not_allow (consult_approvals env gate ctx call d).0
          (consult_approvals env gate ctx call d).1 m)

  -- Outside automatic mode no approval lets a call through that an escalation is due for: whatever
  -- the policy, the store and its approvals are, the decision is not to allow.
  pub escalation-never_allows :
      (d : Disk)
      → is_auto ctx.approval_mode ≡ false
      → should_escalate env gate ctx call ≡ true
      → is_allow (decide env gate ctx call d).0 ≡ false
  escalation-never_allows d m s = elim (decide-cases d) [
    | inl (h, _) ↦ h
    | inr (e, c) ↦ rw (decide-policy d e c) (finish-not_allow _ d m s)
  ]
