-- ===== src/Gate/Decide.antt =====
-- `TrustGate::decide` of src/gate.rs. It takes the disk of the approvals store and returns it: each
-- call of the store that may change it stands where the code makes it.
-- The audit log that `record` appends to is not modelled.
use local_agent.Base.{
  String, Bool, true, false, ◌&&◌, Option, none, some, [], ◌∷◌, concat, str_eq, unwrap_or,
  if◌then◌else◌,
}
use local_agent.Base.Assoc.{lookup}
use local_agent.Types.{
  ToolCall, SideEffects, filesystem_write, shell_exec, network, tool_side_effects,
}
use local_agent.Taint.{TaintLevel, clean, tainted, TaintMode, propagate, propagate_and_enforce}
use local_agent.Trust.Policy.{Policy, PolicyEvaluation, evaluate, mcp_tool_allowed}
use local_agent.Trust.Policy
use local_agent.Trust.Approvals.{
  ApprovalDecisionMatch, ApprovedUsage, ApprovalProvenance, match_pending, match_denied, Result, ok,
  err, StoreError, Clock, Disk, consume_matching_approved, find_matching_decision, create_pending,
  ensure_approved_for_key,
}
use local_agent.Gate.{
  ApprovalMode, auto, fail, AutoApproveScope, scope_run, scope_session, GateDecision, allow, deny,
  require_approval, GateContext, hard_gate, hard_denial, version_str, target_str,
}
use local_agent.Gate.Key.{KeyEnv, compute_approval_key_with_version, with_exec_target_arg}

-- What the gate reads of its surroundings: the clock, the compiled globs, the hash, the text of an
-- error, and two fresh `Uuid`s, for the decision and for an escalation.
pub record GateEnv : Type 0 where
  pub clock : Clock
  pub glob_new : String → Option (String → Bool)
  pub key_env : KeyEnv
  pub describe : StoreError → String
  pub fresh : String
  pub fresh_escalated : String

pub record TrustGate : Type 0 where
  pub policy : Policy
  pub policy_hash_hex : String

abbrev pub is_propagate_and_enforce : TaintMode → Bool
is_propagate_and_enforce propagate = false
is_propagate_and_enforce propagate_and_enforce = true

abbrev pub is_tainted : TaintLevel → Bool
is_tainted clean = false
is_tainted tainted = true

abbrev pub is_side_effecting : SideEffects → Bool
is_side_effecting filesystem_write = true
is_side_effecting shell_exec = true
is_side_effecting network = true
is_side_effecting _ = false

abbrev pub is_auto : ApprovalMode → Bool
is_auto auto = true
is_auto _ = false

-- A decision that is returned at once, or one that an escalation may still change.
pub data Flow : Type 0 where
  returned later : GateDecision → Flow

module _ (env : GateEnv) (gate : TrustGate) (ctx : GateContext) (call : ToolCall) where
  abbrev pub schema_hash : Option String
  schema_hash = lookup call.name ctx.tool_schema_hashes

  unfoldable pub approval_key : String
  approval_key =
      compute_approval_key_with_version env.key_env ctx.approval_key_version call.name
        call.arguments ctx.workdir gate.policy_hash_hex schema_hash ctx.hooks_config_hash_hex
        ctx.exec_target ctx.planner_hash_hex

  abbrev pub provenance : ApprovalProvenance
  provenance = record {
    approval_key_version = version_str ctx.approval_key_version;
    tool_schema_hash_hex = schema_hash;
    hooks_config_hash_hex = ctx.hooks_config_hash_hex;
    exec_target = some (target_str ctx.exec_target);
    planner_hash_hex = ctx.planner_hash_hex;
  }

  unfoldable pub evaluation : PolicyEvaluation
  evaluation =
      evaluate env.glob_new gate.policy call.name
        (with_exec_target_arg call.arguments ctx.exec_target)

  unfoldable pub taint_enforced : Bool
  taint_enforced =
      ctx.taint_enabled && is_propagate_and_enforce ctx.taint_mode && is_tainted ctx.taint_overall

  unfoldable pub should_escalate : Bool
  should_escalate = taint_enforced && is_side_effecting (tool_side_effects call.name)

  abbrev pub auto_id : String
  auto_id = concat ("auto:" ∷ unwrap_or ctx.run_id "run" ∷ ":" ∷ call.id ∷ [])

  -- The decision that is not escalated, with the fields that all its branches share.
  abbrev pub allow_as : Option String → GateDecision
  allow_as id =
      allow id (some approval_key) evaluation.reason evaluation.source taint_enforced false none

  abbrev pub deny_as : String → GateDecision
  deny_as reason = deny reason (some approval_key) evaluation.source taint_enforced false none

  abbrev pub require_as : String → String → GateDecision
  require_as default_reason id =
      require_approval (unwrap_or evaluation.reason default_reason) id (some approval_key)
        evaluation.source taint_enforced false none

  abbrev pub after_create : Result String → GateDecision
  after_create (ok id) =
      require_as
        (elim ctx.approval_mode [
          | fail ↦ concat ("approval required (fail mode): " ∷ id ∷ [])
          | _ ↦ concat ("approval required: " ∷ id ∷ [])
        ])
        id
  after_create (err e) =
      deny_as (concat ("failed to create approval request: " ∷ env.describe e ∷ []))

  -- Neither approved nor decided: a pending request is made.
  abbrev pub request_approval : Disk → GateDecision × Disk
  request_approval d =
      let r =
        create_pending env.clock env.fresh call.name call.arguments (some approval_key)
          (some provenance) d in
      (after_create r.0, r.1)

  abbrev pub after_find : Result (Option ApprovalDecisionMatch) → Disk → GateDecision × Disk
  after_find (err e) d =
      (deny_as (concat ("failed to read approvals store: " ∷ env.describe e ∷ [])), d)
  after_find (ok none) d = request_approval d
  after_find (ok (some m)) d = elim m.status [
    | match_denied ↦ (deny_as (concat ("approval denied: " ∷ m.id ∷ [])), d)
    | match_pending ↦ (require_as (concat ("approval pending: " ∷ m.id ∷ [])) m.id, d)
  ]

  abbrev pub after_consume : Result (Option ApprovedUsage) → Disk → GateDecision × Disk
  after_consume (err e) d =
      (deny_as (concat ("failed to read approvals store: " ∷ env.describe e ∷ [])), d)
  after_consume (ok (some usage)) d = (
    allow (some usage.id) (some usage.approval_key) evaluation.reason evaluation.source
        taint_enforced false none,
    d,
  )
  after_consume (ok none) d =
      let r = find_matching_decision approval_key (version_str ctx.approval_key_version) d in
      after_find r.0 r.1

  unfoldable pub consult_approvals : Disk → GateDecision × Disk
  consult_approvals d =
      let r =
        consume_matching_approved env.clock approval_key (version_str ctx.approval_key_version) d in
      after_consume r.0 r.1

  abbrev pub after_ensure : Result String → GateDecision
  after_ensure (ok id) = allow_as (some id)
  after_ensure (err e) = deny_as (concat ("failed to auto-approve: " ∷ env.describe e ∷ []))

  unfoldable pub auto_approve : AutoApproveScope → Disk → GateDecision × Disk
  auto_approve scope_run d = (allow_as (some auto_id), d)
  auto_approve scope_session d =
      let r =
        ensure_approved_for_key env.clock env.fresh call.name call.arguments approval_key
          (some provenance) d in
      (after_ensure r.0, r.1)

  -- The match on the policy's decision. In automatic mode a required approval is given, and the
  -- function returns there.
  unfoldable pub decide_policy : Policy.PolicyDecision → Disk → Flow × Disk
  unfolding auto_approve consult_approvals
  decide_policy Policy.allow d = (later (allow_as none), d)
  decide_policy Policy.deny d = (
    later (
        deny_as
          (unwrap_or evaluation.reason (concat ("policy denied tool '" ∷ call.name ∷ "'" ∷ [])))),
    d,
  )
  decide_policy Policy.require_approval d =
      if is_auto ctx.approval_mode
      then (let r = auto_approve ctx.auto_approve_scope d in (returned r.0, r.1))
      else (let r = consult_approvals d in (later r.0, r.1))

  abbrev ok_or {ℓ} : {A : Type ℓ} → Result A → A → A
  ok_or (ok a) x = a
  ok_or (err e) x = x

  abbrev pub escalated_auto_id : AutoApproveScope → Option String → Disk → String × Disk
  escalated_auto_id scope_run key d = (auto_id, d)
  escalated_auto_id scope_session key d =
      let r =
        ensure_approved_for_key env.clock env.fresh_escalated call.name call.arguments
          (unwrap_or key "") (some provenance) d in
      (ok_or r.0 auto_id, r.1)

  -- What a tainted context makes of a decision on a tool with side effects. Outside automatic mode
  -- an allowed call gets a new pending request, whatever approval it had.
  unfoldable pub escalate : GateDecision → Disk → GateDecision × Disk
  escalate (deny reason key source enforced escalated why) d =
      (deny reason key source enforced escalated why, d)
  escalate (require_approval reason id key source enforced escalated why) d = (
    require_approval
        (if str_eq reason "" then "approval required due to tainted content" else reason) id key
        source enforced true (some "taint_escalation"),
    d,
  )
  escalate (allow id key reason source enforced escalated why) d =
      if is_auto ctx.approval_mode
      then (let r = escalated_auto_id ctx.auto_approve_scope key d in
          (
            allow (some r.0) key (some "taint_escalation") source enforced true
                (some "taint_escalation"),
            r.1,
          ))
      else (let r =
            create_pending env.clock env.fresh_escalated call.name call.arguments key
              (some provenance) d in
          (
            require_approval "approval required due to tainted content"
                (ok_or r.0 (concat ("pending:" ∷ call.name ∷ ":" ∷ call.id ∷ []))) key source
                enforced true (some "taint_escalation"),
            r.1,
          ))

  -- `if should_escalate { … } decision`.
  unfoldable pub finish : Flow × Disk → GateDecision × Disk
  unfolding escalate
  finish (returned decision, d) = (decision, d)
  finish (later decision, d) = if should_escalate then escalate decision d else (decision, d)

  abbrev pub denied_by_mcp : String → GateDecision
  denied_by_mcp reason = deny reason (some approval_key) (some "mcp_allowlist") false false none

  unfoldable pub decide : Disk → GateDecision × Disk
  unfolding finish decide_policy
  decide d = elim (hard_gate ctx call) [
    | some reason ↦ (hard_denial (some approval_key) reason, d)
    | none ↦ elim (mcp_tool_allowed gate.policy call.name) [
      | some reason ↦ (denied_by_mcp reason, d)
      | none ↦ finish (decide_policy evaluation.decision d)
    ]
  ]
