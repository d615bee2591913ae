-- ===== src/Gate/Safety.antt =====
-- `TrustGate::decide` of src/gate.rs outside automatic mode: the calls that are let through.
use local_agent.Base.{String, ◌≡◌, refl, ◌⊎◌, inl, inr, true, false, Option, none, some, Bool-cases}
use local_agent.Base.Assoc.{lookup, update, IsMap}
use local_agent.Types.{ToolCall}
use local_agent.Trust.Policy
use local_agent.Trust.Policy.{mcp_tool_allowed}
use local_agent.Trust.Approvals.{
  ApprovalRequest, Result, ok, err, StoreError, Disk, count_use, consume_matching_approved,
  find_matching_decision, ApprovalDecisionMatch, match_pending, match_denied,
}
use local_agent.Trust.Approvals.Usable.{IsUsable}
use local_agent.Trust.Approvals.Consume.{
  requests_of, failed, lost_store, nothing, took, consume-Consumed,
}
use local_agent.Gate.{GateContext, hard_gate, version_str}
use local_agent.Gate.Decide.{
  GateEnv, TrustGate, is_auto, decide, decide_policy, finish, evaluation, should_escalate,
  approval_key, consult_approvals, after_find, after_create,
}
use local_agent.Gate.Escalation.{is_allow, decide-cases, decide-policy, escalation-never_allows}

module _ (env : GateEnv) (gate : TrustGate) (ctx : GateContext) (call : ToolCall) where
  abbrev version : String
  version = version_str ctx.approval_key_version

  -- The grant of one request: it was usable, and the disk that is left counts one use more of it
  -- and has changed nothing else.
  pub Granted : Disk → Disk → Type 0
  Granted d after =
      (id : String) × (req : ApprovalRequest) × (lookup id (requests_of d) ≡ some req)
      × IsUsable env.clock (approval_key env gate ctx call) version req
      × (requests_of after ≡ update id count_use (requests_of d))

  after_create-not_allow : (r : Result String) → is_allow (after_create env gate ctx call r) ≡ false
  after_create-not_allow (ok id) = refl
  after_create-not_allow (err e) = refl

  after_find-not_allow :
      (r : Result (Option ApprovalDecisionMatch)) (d : Disk)
      → is_allow (after_find env gate ctx call r d).0 ≡ false
  after_find-not_allow (err e) d = refl
  after_find-not_allow (ok none) d = after_create-not_allow _
  after_find-not_allow (ok (some m)) d = go m.status
    where
      go :
          (s : _)
          → is_allow (after_find env gate ctx call (ok (some (record m { status = s }))) d).0
            ≡ false
      go match_denied = refl
      go match_pending = refl

  consult-error :
      (d left : Disk) (e : StoreError)
      → consume_matching_approved env.clock (approval_key env gate ctx call) version d
        ≡ (err e, left)
      → is_allow (consult_approvals env gate ctx call d).0 ≡ false
  unfolding consult_approvals
  consult-error d left e eq = rw eq refl

  consult-nothing :
      (d : Disk)
      → consume_matching_approved env.clock (approval_key env gate ctx call) version d
        ≡ (ok none, d)
      → is_allow (consult_approvals env gate ctx call d).0 ≡ false
  unfolding consult_approvals
  consult-nothing d eq = rw eq (
      after_find-not_allow (find_matching_decision (approval_key env gate ctx call) version d).0
        (find_matching_decision (approval_key env gate ctx call) version d).1)

  consult-Granted :
      (d : Disk)
      → IsMap (requests_of d)
      → is_allow (consult_approvals env gate ctx call d).0 ≡ true
      → Granted d (consult_approvals env gate ctx call d).1
  unfolding consult_approvals Granted
  consult-Granted d o h =
      elim (consume-Consumed env.clock (approval_key env gate ctx call) version d o) [
        | failed e _ eq ↦ (let k = consult-error d _ e eq in cc)
        | lost_store _ eq ↦ (let k = consult-error d _ _ eq in cc)
        | nothing eq _ ↦ (let k = consult-nothing d eq in cc)
        | took id req result found usable left ↦ (id, req, found, usable, rw result left)
      ]

  -- A decision of the policy that lets a call through, with the grant where one is needed.
  pub Justified : Policy.PolicyDecision → Disk → Disk → Type 0
  Justified p d after =
      ((p ≡ Policy.allow) × (after ≡ d)) ⊎ ((p ≡ Policy.require_approval) × Granted d after)

  denied-not_allow :
      (d : Disk)
      → should_escalate env gate ctx call ≡ false
      → is_allow (finish env gate ctx call (decide_policy env gate ctx call Policy.deny d)).0
        ≡ false
  unfolding finish decide_policy
  denied-not_allow d s = rw s refl

  consulted :
      (d : Disk)
      → is_auto ctx.approval_mode ≡ false
      → should_escalate env gate ctx call ≡ false
      → finish env gate ctx call (decide_policy env gate ctx call Policy.require_approval d)
        ≡ consult_approvals env gate ctx call d
  unfolding finish decide_policy
  consulted d m s = rw (m, s) refl

  decide_policy-Justified :
      (p : Policy.PolicyDecision) (d : Disk)
      → IsMap (requests_of d)
      → is_auto ctx.approval_mode ≡ false
      → should_escalate env gate ctx call ≡ false
      → is_allow (finish env gate ctx call (decide_policy env gate ctx call p d)).0 ≡ true
      → Justified p d (finish env gate ctx call (decide_policy env gate ctx call p d)).1
  unfolding finish decide_policy Justified
  decide_policy-Justified Policy.allow d o m s h = inl (refl, rw s refl)
  decide_policy-Justified Policy.deny d o m s h = (let k = denied-not_allow d s in cc)
  decide_policy-Justified Policy.require_approval d o m s h =
      let eq = consulted d m s in inr (refl, rw eq (consult-Granted d o (rw (← eq) h)))

  -- Outside automatic mode, over a store whose ids are distinct and in order, a call that is let
  -- through has passed the hard gate and the server allowlist and is not due for an escalation; and
  -- the policy allows it, and the disk is as it was, or the policy requires an approval and a usable
  -- one of exactly this call's key and version was there, whose use is now counted.
  pub allow-Justified :
      (d : Disk)
      → IsMap (requests_of d)
      → is_auto ctx.approval_mode ≡ false
      → is_allow (decide env gate ctx call d).0 ≡ true
      → (hard_gate ctx call ≡ none)
        × (mcp_tool_allowed gate.policy call.name ≡ none)
        × (should_escalate env gate ctx call ≡ false)
        × Justified (evaluation env gate ctx call).decision d (decide env gate ctx call d).1
  allow-Justified d o m h = elim (decide-cases env gate ctx call d) [
    | inl (k, _) ↦ cc
    | inr (e, c) ↦ elim (Bool-cases (should_escalate env gate ctx call)) [
      | inl s ↦ (let k = escalation-never_allows env gate ctx call d m s in cc)
      | inr s ↦
          let eq = decide-policy env gate ctx call d e c in
          (
            e,
            c,
            s,
            rw eq (
                decide_policy-Justified (evaluation env gate ctx call).decision d o m s
                  (rw (← eq) h)),
          )
    ]
  ]
