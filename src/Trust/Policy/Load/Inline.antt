-- ===== src/Trust/Policy/Load/Inline.antt =====
-- `from_yaml` and `from_path` of src/trust/policy.rs on a file without includes.
use local_agent.Base.{
  ℕ, suc, String, ◌≡◌, refl, ◌∙◌, sym, inl, inr, Bool, true, false, Option, none, some, List, [],
  ◌∷◌, arith, Bool-cases, List-cases,
}
use local_agent.Json.{Value}
use local_agent.Trust.Policy.{
  PolicyDecision, CompiledRule, ToolMatcher, McpAllowlist, TaintConfig, Policy, matches_conditions,
  evaluate, evaluate_rules,
}
use local_agent.Trust.Policy.Compile.{
  PolicyFile, RawRule, PolicyError, unsupported_version, includes_need_path, Result, ok, err, ◌>>=◌,
  map_decision, unsupported, bind-ok, compile_matcher, compile_rules, compile_mcp_allowlist,
  compile_taint_config, transpose, compile_policy, compile_inline, from_yaml,
}
use local_agent.Trust.Policy.Load.{
  Fs, LoadState, start, normalize_path, read_policy, absorb, visit_rules, load_includes, load_file,
  load_policy_recursive, merge_default, first_given, merge_settings, add_rules, finish_load,
  from_path, pop,
}

-- Two compilations of one list of rules, which differ in their sources alone.
SameRules : List CompiledRule → List CompiledRule → Type 0
SameRules [] [] = Unit
SameRules (r ∷ rs) (s ∷ ss) =
    (r.tool ≡ s.tool)
    × (r.decision ≡ s.decision)
    × (r.when ≡ s.when)
    × (r.reason ≡ s.reason)
    × SameRules rs ss
SameRules _ _ = ⊥

ok-injective {ℓ} : {A : Type ℓ} (a b : A) → ok a ≡ ok b → a ≡ b
ok-injective a b h = cc

module _ (glob_new : String → Option (String → Bool)) where
  compiled : RawRule → ToolMatcher → String → CompiledRule
  compiled rr m path = record {
    tool_pattern = rr.tool;
    tool = m;
    decision = map_decision rr.decision;
    when = rr.when;
    reason = rr.reason;
    source = record { path = path };
  }

  compile_rules-cons :
      (rr : RawRule) (raw : List RawRule) (path : String) (m : ToolMatcher) (ss : List CompiledRule)
      → compile_matcher glob_new rr.tool ≡ ok m
      → compile_rules glob_new raw path ≡ ok ss
      → compile_rules glob_new (rr ∷ raw) path ≡ ok (compiled rr m path ∷ ss)
  unfolding compile_rules compiled
  compile_rules-cons rr raw path m ss e k = rw (e, k) refl

  compile_rules-SameRules :
      (raw : List RawRule) (path path' : String) (rs : List CompiledRule)
      → compile_rules glob_new raw path ≡ ok rs
      → (ss : List CompiledRule) × (compile_rules glob_new raw path' ≡ ok ss) × SameRules ss rs
  unfolding compile_rules SameRules compiled
  compile_rules-SameRules [] path path' rs h =
      (let z : [] ≡ rs = ok-injective [] rs h in ([], refl, rw (← z) tt))
  compile_rules-SameRules (rr ∷ raw) path path' rs h =
      let (m, e, h1) = bind-ok (compile_matcher glob_new rr.tool) _ h in
      let (rest, k, h2) = bind-ok (compile_rules glob_new raw path) _ h1 in
      let (ss, k', same) = compile_rules-SameRules raw path path' rest k in
      let z = ok-injective _ rs h2 in
      (_, compile_rules-cons rr raw path' m ss e k', rw (← z) (refl, refl, refl, refl, same))

  evaluate_rules-SameRules :
      (rs ss : List CompiledRule) (default : PolicyDecision) (tool : String) (args : Value)
      → SameRules ss rs
      → ((evaluate_rules glob_new ss default tool args).decision
          ≡ (evaluate_rules glob_new rs default tool args).decision)
        × ((evaluate_rules glob_new ss default tool args).reason
            ≡ (evaluate_rules glob_new rs default tool args).reason)
  unfolding evaluate_rules SameRules matches_conditions
  evaluate_rules-SameRules [] [] default tool args h = (refl, refl)
  evaluate_rules-SameRules [] (s ∷ ss) default tool args h = absurd h
  evaluate_rules-SameRules (r ∷ rs) [] default tool args h = absurd h
  evaluate_rules-SameRules (r ∷ rs) (s ∷ ss) default tool args (t, d, w, e, same) =
      ground (arith, evaluate_rules-SameRules rs ss default tool args same)

  -- Loading a file without includes, once it is read and compiles.
  module _ (fs : Fs) (raw : PolicyFile) (canonical : String) (rs : List CompiledRule)
      (mcp : Option McpAllowlist) (taint : Option TaintConfig) (u : unsupported raw.version ≡ false)
      (r : compile_rules glob_new raw.rules canonical ≡ ok rs)
      (m : transpose (compile_mcp_allowlist glob_new) raw.mcp ≡ ok mcp)
      (t : transpose (compile_taint_config glob_new) raw.taint ≡ ok taint) where
    opened : LoadState
    opened = record start { chain = canonical ∷ [] }

    absorbed : LoadState
    absorbed =
        add_rules canonical (merge_settings raw.version (map_decision raw.default) mcp taint opened)
          rs

    absorb-start : absorb fs glob_new canonical raw opened ≡ ok absorbed
    unfolding absorb visit_rules merge_default first_given merge_settings add_rules opened absorbed
    absorb-start = rw u (rw m (rw t (rw r refl)))

    load_includes-nil :
        (load : String → LoadState → Result LoadState) (parent : Option String)
        (includes : List String) (s : LoadState)
        → includes ≡ []
        → load_includes fs glob_new load parent includes s ≡ ok s
    unfolding load_includes
    load_includes-nil load parent includes s e = rw e refl

    load_file-start :
        (load : String → LoadState → Result LoadState)
        → read_policy fs canonical ≡ ok raw
        → raw.includes ≡ []
        → load_file fs glob_new load canonical start
          ≡ ok (record absorbed { chain = pop absorbed.chain })
    unfolding load_file opened
    load_file-start load got alone = rw got (
        rw absorb-start
          (rw (load_includes-nil load (fs.parent canonical) raw.includes absorbed alone) refl))

    loaded : Policy
    loaded = record {
      default = map_decision raw.default;
      rules = rs;
      version = raw.version;
      includes_resolved = [];
      mcp_allow = mcp;
      taint = taint;
    }

    from_path-start :
        (fuel : ℕ) (path : String)
        → normalize_path fs (normalize_path fs path none) none ≡ canonical
        → read_policy fs canonical ≡ ok raw
        → raw.includes ≡ []
        → from_path fs glob_new (suc fuel) path ≡ ok loaded
    unfolding from_path load_policy_recursive finish_load compile_policy loaded absorbed opened
        add_rules merge_settings
    from_path-start fuel path at got alone =
        rw at (rw (load_file-start (load_policy_recursive fs glob_new fuel) got alone) refl)

  inline-version :
      (raw : PolicyFile)
      → unsupported raw.version ≡ true
      → compile_inline glob_new raw ≡ err (unsupported_version raw.version)
  unfolding compile_inline
  inline-version raw e = rw e refl

  inline-includes :
      (raw : PolicyFile) (x : String) (xs : List String)
      → unsupported raw.version ≡ false
      → raw.includes ≡ x ∷ xs
      → compile_inline glob_new raw ≡ err includes_need_path
  unfolding compile_inline
  inline-includes raw x xs e k = rw e (rw k refl)

  inline-compiles :
      (raw : PolicyFile)
      → unsupported raw.version ≡ false
      → raw.includes ≡ []
      → compile_inline glob_new raw ≡ (do
        rules ← compile_rules glob_new raw.rules "<inline>"
        mcp_allow ← transpose (compile_mcp_allowlist glob_new) raw.mcp
        taint ← transpose (compile_taint_config glob_new) raw.taint
        compile_policy raw.version (map_decision raw.default) rules mcp_allow taint [])
  unfolding compile_inline
  inline-compiles raw e k = rw e (rw k refl)

  err-ok : {e : PolicyError} {q : Policy} → err e ≡ ok q → ⊥
  err-ok h = cc

  -- What an inline policy that compiles is made of.
  compile_inline-ok :
      (raw : PolicyFile) (q : Policy)
      → compile_inline glob_new raw ≡ ok q
      → (unsupported raw.version ≡ false)
        × (raw.includes ≡ [])
        × ((rs : List CompiledRule) × (mcp : Option McpAllowlist) × (taint : Option TaintConfig)
            × (compile_rules glob_new raw.rules "<inline>" ≡ ok rs)
            × (transpose (compile_mcp_allowlist glob_new) raw.mcp ≡ ok mcp)
            × (transpose (compile_taint_config glob_new) raw.taint ≡ ok taint)
            × (compile_policy raw.version (map_decision raw.default) rs mcp taint [] ≡ ok q))
  unfolding compile_inline
  compile_inline-ok raw q h = elim (Bool-cases (unsupported raw.version)) [
    | inl e ↦ absurd (err-ok (sym (inline-version raw e) ∙ h))
    | inr e ↦ elim (List-cases raw.includes) [
      | inr (x, xs, k) ↦ absurd (err-ok (sym (inline-includes raw x xs e k) ∙ h))
      | inl k ↦
          let (rs, r, h1) =
            bind-ok (compile_rules glob_new raw.rules "<inline>") _
              (sym (inline-compiles raw e k) ∙ h) in
          let (mcp, m, h2) = bind-ok (transpose (compile_mcp_allowlist glob_new) raw.mcp) _ h1 in
          let (taint, t, h3) = bind-ok (transpose (compile_taint_config glob_new) raw.taint) _ h2 in
          (e, k, (rs, mcp, taint, r, m, t, h3))
    ]
  ]

  from_yaml-parsed :
      (from_str : String → Option PolicyFile) (yaml : String) (raw : PolicyFile)
      → from_str yaml ≡ some raw
      → from_yaml glob_new from_str yaml ≡ compile_inline glob_new raw
  unfolding from_yaml
  from_yaml-parsed from_str yaml raw e = rw (e, from_yaml) refl

  -- A policy text that is accepted inline is loaded from a file with the same parsed content too, on
  -- any fuel but zero, and the two policies give every call the same decision for the
  -- same reason.
  pub from_yaml-from_path :
      (fs : Fs) (from_str : String → Option PolicyFile) (yaml path : String) (fuel : ℕ)
      (raw : PolicyFile) (q : Policy)
      → from_str yaml ≡ some raw
      → read_policy fs (normalize_path fs (normalize_path fs path none) none) ≡ ok raw
      → from_yaml glob_new from_str yaml ≡ ok q
      → (p : Policy) × (from_path fs glob_new (suc fuel) path ≡ ok p)
        × ((tool : String) (args : Value)
            → ((evaluate glob_new p tool args).decision ≡ (evaluate glob_new q tool args).decision)
              × ((evaluate glob_new p tool args).reason ≡ (evaluate glob_new q tool args).reason))
  unfolding evaluate compile_policy loaded
  from_yaml-from_path fs from_str yaml path fuel raw q parsed got h =
      let canonical = normalize_path fs (normalize_path fs path none) none in
      let inline : compile_inline glob_new raw ≡ ok q =
        sym (from_yaml-parsed from_str yaml raw parsed) ∙ h in
      let (u, alone, (rs, mcp, taint, r, m, t, e)) = compile_inline-ok raw q inline in
      let (ss, r', same) = compile_rules-SameRules raw.rules "<inline>" canonical rs r in
      let z = ok-injective _ q e in
      (
        loaded fs raw canonical ss mcp taint u r' m t,
        from_path-start fs raw canonical ss mcp taint u r' m t fuel path refl got alone,
        λ tool args.
            rw (← z) (evaluate_rules-SameRules rs ss (map_decision raw.default) tool args same),
      )
