-- ===== src/Trust/Policy/Load/Root.antt =====
-- The root file and its includes in `from_path` of src/trust/policy.rs.
use mathlib.Core.Path.{subst}
use local_agent.Base.{
  ℕ, zero, suc, String, ◌≡◌, ◌∙◌, ap, Bool, true, Option, none, some, List, [], ◌∷◌, ◌++◌, arith,
  any, unwrap_or,
}
use local_agent.Json.{Value}
use local_agent.Trust.Policy.{PolicyDecision, CompiledRule, Policy, evaluate, evaluate_rules}
use local_agent.Trust.Policy.Evaluate.{applies, evaluate_rules-append}
use local_agent.Trust.Policy.Compile.{PolicyFile, ok, map_decision, bind-ok, compile_rules}
use local_agent.Trust.Policy.Load.{
  add_rules, merge_settings, start, Fs, PolicyLoadContext, LoadState, normalize_path, read_policy,
  absorb, load_includes, load_file, load_policy_recursive, finish_load, from_path,
}
use local_agent.Trust.Policy.Load.Grows.{
  Extends, Grows, load_includes-Grows, load-Grows, context_of,
}

-- What the root leaves in the context, before its includes are loaded.
record AtRoot (raw : PolicyFile) (rs : List CompiledRule) (c : PolicyLoadContext) : Type 0 where
  rules : c.rules ≡ rs
  default : c.default ≡ some (map_decision raw.default)
  version : c.version ≡ some raw.version

module _ (fs : Fs) (glob_new : String → Option (String → Bool)) where
  absorb-root :
      (root : String) (raw : PolicyFile) (rs : List CompiledRule) (t : LoadState)
      → compile_rules glob_new raw.rules root ≡ ok rs
      → absorb fs glob_new root raw (record start { chain = root ∷ [] }) ≡ ok t
      → AtRoot raw rs t.ctx
  unfolding absorb merge_settings add_rules
  absorb-root root raw rs t compiled h = ground (arith, compiled)

  -- The file at which `from_path` starts.
  abbrev pub root_of : String → String
  root_of path = normalize_path fs (normalize_path fs path none) none

  load-root :
      (fuel : ℕ) (path : String) (raw : PolicyFile) (rs : List CompiledRule) (s : LoadState)
      → read_policy fs (root_of path) ≡ ok raw
      → compile_rules glob_new raw.rules (root_of path) ≡ ok rs
      → load_policy_recursive fs glob_new fuel (normalize_path fs path none) start ≡ ok s
      → (t : LoadState) × AtRoot raw rs t.ctx × Extends t.ctx s.ctx
  unfolding load_policy_recursive load_file context_of
  load-root zero path raw rs s got compiled h = cc
  load-root (suc fuel) path raw rs s got compiled h =
      let root = root_of path in
      let load = load_policy_recursive fs glob_new fuel in
      let (raw', same, h1) = bind-ok (read_policy fs root) _ h in
      let (t, absorbed, h2) =
        bind-ok (absorb fs glob_new root raw' (record start { chain = root ∷ [] })) _ h1 in
      let (u, included, h3) =
        bind-ok (load_includes fs glob_new load (fs.parent root) raw'.includes t) _ h2 in
      let e : raw' ≡ raw = cc in
      let grown : Extends t.ctx u.ctx = subst (Grows t.ctx) included (
        load_includes-Grows fs glob_new load (load-Grows fs glob_new fuel) (fs.parent root)
          raw'.includes t) in
      let kept : u.ctx ≡ s.ctx = ap context_of h3 in
      (
        t,
        subst (λ r. AtRoot r rs t.ctx) e (absorb-root root raw' rs t (rw e compiled) absorbed),
        subst (Extends t.ctx) kept grown,
      )

  finish_load-ok :
      (c : PolicyLoadContext) (d : PolicyDecision) (p : Policy)
      → c.default ≡ some d
      → finish_load fs glob_new c ≡ ok p
      → (p.rules ≡ c.rules) × (p.default ≡ d) × (p.version ≡ unwrap_or c.version 1)
  unfolding finish_load
  finish_load-ok c d p e h = ground arith

  -- A policy that is loaded holds the root file's rules first and in order, and the default and the
  -- version of the root file, whatever it includes.
  pub from_path-root :
      (fuel : ℕ) (path : String) (raw : PolicyFile) (rs : List CompiledRule) (p : Policy)
      → read_policy fs (root_of path) ≡ ok raw
      → compile_rules glob_new raw.rules (root_of path) ≡ ok rs
      → from_path fs glob_new fuel path ≡ ok p
      → (more : List CompiledRule) × (p.rules ≡ rs ++ more)
        × (p.default ≡ map_decision raw.default)
        × (p.version ≡ raw.version)
  unfolding from_path
  from_path-root fuel path raw rs p got compiled h =
      let (s, loaded, h1) =
        bind-ok (load_policy_recursive fs glob_new fuel (normalize_path fs path none) start) _ h in
      let (t, at, grown) = load-root fuel path raw rs s got compiled loaded in
      let (rules, default, version) =
        finish_load-ok s.ctx (map_decision raw.default) p (grown.default _ at.default) h1 in
      (
        grown.more,
        rules ∙ grown.rules ∙ ap (λ l. l ++ grown.more) at.rules,
        default,
        version ∙ ap (λ v. unwrap_or v 1) (grown.version _ at.version),
      )

  -- Where a rule of the root file applies, the included files have no say: the root file's rules
  -- alone give the evaluation.
  pub from_path-root_decides :
      (fuel : ℕ) (path : String) (raw : PolicyFile) (rs : List CompiledRule) (p : Policy)
      (tool : String) (args : Value)
      → read_policy fs (root_of path) ≡ ok raw
      → compile_rules glob_new raw.rules (root_of path) ≡ ok rs
      → from_path fs glob_new fuel path ≡ ok p
      → any (applies glob_new tool args) rs ≡ true
      → evaluate glob_new p tool args
        ≡ evaluate_rules glob_new rs (map_decision raw.default) tool args
  unfolding evaluate
  from_path-root_decides fuel path raw rs p tool args got compiled h some_applies =
      let (more, rules, default, _) = from_path-root fuel path raw rs p got compiled h in
      rw (rules, default)
        (rw (evaluate_rules-append glob_new tool args rs more (map_decision raw.default))
          (rw some_applies))
