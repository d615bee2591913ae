-- ===== src/Trust/Policy/Evaluate.antt =====
-- `Policy::evaluate` of src/trust/policy.rs, and the order of the rules.
use local_agent.Base.{
  String, ◌≡◌, refl, ap, Bool, true, false, ◌&&◌, Option, none, some, List, [], ◌∷◌, ◌++◌, arith,
  inl, inr, All, any, Bool-cases, if◌then◌else◌,
}
use local_agent.Json.{Value}
use local_agent.Trust.Policy.{
  PolicyDecision, PolicyEvaluation, CompiledRule, Policy, matches_tool, matches_conditions,
  evaluate_rules, evaluate,
}

module _ (glob_new : String → Option (String → Bool)) (tool : String) (args : Value) where
  abbrev pub applies : CompiledRule → Bool
  applies rule = matches_tool rule.tool tool && matches_conditions glob_new rule args

  abbrev pub decided_by : CompiledRule → PolicyEvaluation
  decided_by rule = record {
    decision = rule.decision;
    reason = rule.reason;
    source = some rule.source.path;
  }

  abbrev pub decided_by_default : PolicyDecision → PolicyEvaluation
  decided_by_default d = record { decision = d; reason = none; source = some "default" }

  -- How an evaluation came about: by a rule before which none applies, or by the default, where no
  -- rule applies.
  pub data FirstMatch (rules : List CompiledRule) (default : PolicyDecision) (e : PolicyEvaluation)
      : Type 0 where
    found :
        (before : List CompiledRule) (rule : CompiledRule) (after : List CompiledRule)
        → rules ≡ before ++ rule ∷ after
        → All (λ r. applies r ≡ false) before
        → applies rule ≡ true
        → e ≡ decided_by rule
        → FirstMatch rules default e
    absent :
        All (λ r. applies r ≡ false) rules
        → e ≡ decided_by_default default
        → FirstMatch rules default e

  evaluate_rules-skip :
      (rule : CompiledRule) (rules : List CompiledRule) (default : PolicyDecision)
      → applies rule ≡ false
      → evaluate_rules glob_new (rule ∷ rules) default tool args
        ≡ evaluate_rules glob_new rules default tool args
  unfolding evaluate_rules
  evaluate_rules-skip rule rules default h = ground arith

  evaluate_rules-take :
      (rule : CompiledRule) (rules : List CompiledRule) (default : PolicyDecision)
      → applies rule ≡ true
      → evaluate_rules glob_new (rule ∷ rules) default tool args ≡ decided_by rule
  unfolding evaluate_rules
  evaluate_rules-take rule rules default h = ground arith

  FirstMatch-skip :
      (rule : CompiledRule) (rules : List CompiledRule) (default : PolicyDecision)
      (e : PolicyEvaluation)
      → applies rule ≡ false
      → FirstMatch rules default e
      → FirstMatch (rule ∷ rules) default e
  FirstMatch-skip rule rules default e h (found before r after split none_before here decides) =
      found (rule ∷ before) r after (ap (λ l. rule ∷ l) split) (h, none_before) here decides
  FirstMatch-skip rule rules default e h (absent all_skip decides) = absent (h, all_skip) decides

  evaluate_rules-FirstMatch :
      (rules : List CompiledRule) (default : PolicyDecision)
      → FirstMatch rules default (evaluate_rules glob_new rules default tool args)
  unfolding evaluate_rules
  evaluate_rules-FirstMatch [] default = absent tt refl
  evaluate_rules-FirstMatch (rule ∷ rules) default = elim (Bool-cases (applies rule)) [
    | inl h ↦ found [] rule rules refl tt h (evaluate_rules-take rule rules default h)
    | inr h ↦
        rw (evaluate_rules-skip rule rules default h)
          (FirstMatch-skip rule rules default _ h (evaluate_rules-FirstMatch rules default))
  ]

  -- The evaluation of a policy is that of the first rule that applies, and the default's where no
  -- rule applies.
  pub evaluate-FirstMatch :
      (p : Policy) → FirstMatch p.rules p.default (evaluate glob_new p tool args)
  unfolding evaluate
  evaluate-FirstMatch p = evaluate_rules-FirstMatch p.rules p.default

  -- Rules that stand first decide alone where one of them applies; else the later ones decide.
  pub evaluate_rules-append :
      (xs ys : List CompiledRule) (default : PolicyDecision)
      → evaluate_rules glob_new (xs ++ ys) default tool args ≡ (
          if any applies xs
          then evaluate_rules glob_new xs default tool args
          else evaluate_rules glob_new ys default tool args)
  evaluate_rules-append [] ys default = refl
  evaluate_rules-append (x ∷ xs) ys default = elim (Bool-cases (applies x)) [
    | inl h ↦
        rw (evaluate_rules-take x (xs ++ ys) default h)
          (rw (evaluate_rules-take x xs default h) (rw h))
    | inr h ↦
        rw (evaluate_rules-skip x (xs ++ ys) default h)
          (rw (evaluate_rules-skip x xs default h) (rw h (evaluate_rules-append xs ys default)))
  ]
