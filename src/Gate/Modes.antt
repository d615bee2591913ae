-- ===== src/Gate/Modes.antt =====
-- `TrustGate::decide` of src/gate.rs in automatic mode, and over a store that cannot be read.
use local_agent.Base.{
  String, ◌≡◌, refl, inl, inr, Bool, true, false, Option, none, some, [], ◌∷◌, concat, Bool-cases,
}
use local_agent.Types.{ToolCall}
use local_agent.Trust.Policy
use local_agent.Trust.Policy.{mcp_tool_allowed}
use local_agent.Trust.Approvals.{
  ApprovalsData, Result, ok, err, cannot_read, Disk, load_data, consume_matching_approved,
}
use local_agent.Gate.{
  AutoApproveScope, scope_run, scope_session, GateDecision, require_approval, GateContext,
  hard_gate,
}
use local_agent.Gate.Decide.{
  GateEnv, TrustGate, is_auto, decide, decide_policy, escalate, finish, evaluation, should_escalate,
  deny_as, auto_approve, after_ensure, consult_approvals,
}
use local_agent.Gate.Escalation.{decide-hard, decide-mcp, decide-policy}

abbrev pub asks : GateDecision → Bool
asks (require_approval reason id key source enforced escalated why) = true
asks _ = false

module _ (env : GateEnv) (gate : TrustGate) (ctx : GateContext) (call : ToolCall) where
  after_ensure-asks : (r : Result String) → asks (after_ensure env gate ctx call r) ≡ false
  after_ensure-asks (ok id) = refl
  after_ensure-asks (err e) = refl

  auto_approve-asks :
      (scope : AutoApproveScope) (d : Disk)
      → asks (auto_approve env gate ctx call scope d).0 ≡ false
  unfolding auto_approve
  auto_approve-asks scope_run d = refl
  auto_approve-asks scope_session d = after_ensure-asks _

  finish-asks :
      (p : Policy.PolicyDecision) (d : Disk)
      → is_auto ctx.approval_mode ≡ true
      → asks (finish env gate ctx call (decide_policy env gate ctx call p d)).0 ≡ false
  unfolding finish decide_policy escalate
  finish-asks Policy.allow d m = elim (Bool-cases (should_escalate env gate ctx call)) [
    | inl s ↦ rw s (rw m refl)
    | inr s ↦ rw s refl
  ]
  finish-asks Policy.deny d m = elim (Bool-cases (should_escalate env gate ctx call)) [
    | inl s ↦ rw s refl
    | inr s ↦ rw s refl
  ]
  finish-asks Policy.require_approval d m = rw m (auto_approve-asks ctx.auto_approve_scope d)

  -- In automatic mode the trust gate never asks: each decision is to allow or to deny, whatever the
  -- policy, the taint and the store are.
  pub auto-never_asks :
      (d : Disk) → is_auto ctx.approval_mode ≡ true → asks (decide env gate ctx call d).0 ≡ false
  auto-never_asks d m = go (hard_gate ctx call) refl (mcp_tool_allowed gate.policy call.name) refl
    where
      go :
          (h : Option String)
          → hard_gate ctx call ≡ h
          → (a : Option String) → mcp_tool_allowed gate.policy call.name ≡ a
          → asks (decide env gate ctx call d).0 ≡ false
      go (some reason) e a c = rw (decide-hard env gate ctx call d reason e) refl
      go none e (some reason) c = rw (decide-mcp env gate ctx call d reason e c) refl
      go none e none c =
          rw (decide-policy env gate ctx call d e c)
            (finish-asks (evaluation env gate ctx call).decision d m)

  load_data-unreadable :
      (d : Disk) (stored : ApprovalsData)
      → d.file ≡ some stored
      → d.readable ≡ false
      → load_data d ≡ (err cannot_read, d)
  unfolding load_data
  load_data-unreadable d stored f r = rw (f, r) refl

  consult-unreadable :
      (d : Disk)
      → load_data d ≡ (err cannot_read, d)
      → consult_approvals env gate ctx call d ≡ (
        deny_as env gate ctx call
            (concat ("failed to read approvals store: " ∷ env.describe cannot_read ∷ [])),
        d,
      )
  unfolding consult_approvals consume_matching_approved
  consult-unreadable d l = rw l refl

  finish-denied :
      (reason : String) (d d' : Disk)
      → is_auto ctx.approval_mode ≡ false
      → consult_approvals env gate ctx call d ≡ (deny_as env gate ctx call reason, d')
      → finish env gate ctx call (decide_policy env gate ctx call Policy.require_approval d)
        ≡ (deny_as env gate ctx call reason, d')
  unfolding finish decide_policy escalate
  finish-denied reason d d' m c = elim (Bool-cases (should_escalate env gate ctx call)) [
    | inl s ↦ rw m (rw c (rw s refl))
    | inr s ↦ rw m (rw c (rw s refl))
  ]

  -- Outside automatic mode, a call that needs an approval is denied where the store is there and
  -- cannot be read, also in a tainted context, and the disk is left as it was.
  pub unreadable-denies :
      (d : Disk) (stored : ApprovalsData)
      → d.file ≡ some stored
      → d.readable ≡ false
      → is_auto ctx.approval_mode ≡ false
      → hard_gate ctx call ≡ none
      → mcp_tool_allowed gate.policy call.name ≡ none
      → (evaluation env gate ctx call).decision ≡ Policy.require_approval
      → decide env gate ctx call d ≡ (
        deny_as env gate ctx call
            (concat ("failed to read approvals store: " ∷ env.describe cannot_read ∷ [])),
        d,
      )
  unreadable-denies d stored f r m e c p =
      rw (decide-policy env gate ctx call d e c, p)
        (finish-denied _ d d m (consult-unreadable d (load_data-unreadable d stored f r)))
