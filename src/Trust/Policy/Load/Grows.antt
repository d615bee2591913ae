-- ===== src/Trust/Policy/Load/Grows.antt =====
-- What each step of loading leaves of the context that it is given.
use mathlib.Core.List.{append_assoc, append-nil}
use local_agent.Base.{
  ℕ, zero, suc, String, ◌≡◌, refl, ◌∙◌, sym, inl, inr, Bool, Option, none, some, List, [], ◌∷◌,
  ◌++◌, arith, Bool-cases,
}
use local_agent.Trust.Policy.{PolicyDecision, CompiledRule, McpAllowlist, TaintConfig}
use local_agent.Trust.Policy.Compile.{
  PolicyFile, Result, ok, err, ◌>>=◌, map_decision, unsupported, compile_rules,
  compile_mcp_allowlist, compile_taint_config,
}
use local_agent.Trust.Policy.Load.{
  add_rules, merge_settings, push_include, resolve_include_path, Fs, PolicyLoadContext, LoadState,
  empty_context, last, holds, merge_default, first_given, normalize_path, read_policy, absorb,
  visit_rules, load_includes, load_file, load_policy_recursive,
}

-- What later files leave of a context: they add rules at the end, and change neither the default
-- nor the version once these are given.
pub record Extends (s t : PolicyLoadContext) : Type 0 where
  pub more : List CompiledRule
  pub rules : t.rules ≡ s.rules ++ more
  pub default : (d : PolicyDecision) → s.default ≡ some d → t.default ≡ some d
  pub version : (v : ℕ) → s.version ≡ some v → t.version ≡ some v

pub Extends-refl :
    (s t : PolicyLoadContext)
    → t.rules ≡ s.rules
    → t.default ≡ s.default
    → t.version ≡ s.version
    → Extends s t
Extends-refl s t r d v = record {
  more = [];
  rules = r ∙ sym (append-nil s.rules);
  default = λ x h. d ∙ h;
  version = λ x h. v ∙ h;
}

pub Extends-trans : {s t u : PolicyLoadContext} → Extends s t → Extends t u → Extends s u
Extends-trans {s} {t} {u} a b = record {
  more = a.more ++ b.more;
  rules = b.rules ∙ rw a.rules (append_assoc s.rules a.more b.more);
  default = λ d h. b.default d (a.default d h);
  version = λ v h. b.version v (a.version v h);
}

-- A result that extends the context `s` where there is one.
abbrev pub Grows : PolicyLoadContext → Result LoadState → Type 0
Grows s (ok t) = Extends s t.ctx
Grows s (err e) = Unit

pub Grows-bind {ℓ} :
    {A : Type ℓ} (s : PolicyLoadContext) (m : Result A) (f : A → Result LoadState)
    → ((a : A) → m ≡ ok a → Grows s (f a))
    → Grows s (m >>= f)
Grows-bind s (ok a) f h = h a refl
Grows-bind s (err e) f h = tt

pub Grows-then :
    (s : PolicyLoadContext) (m : Result LoadState) (f : LoadState → Result LoadState)
    → Grows s m
    → ((t : LoadState) → Grows t.ctx (f t))
    → Grows s (m >>= f)
Grows-then s (ok t) f h k = Grows-trans s t.ctx (f t) h (k t)
  where
    Grows-trans :
        (s t : PolicyLoadContext) (r : Result LoadState) → Extends s t → Grows t r → Grows s r
    Grows-trans s t (ok u) a b = Extends-trans a b
    Grows-trans s t (err e) a b = tt
Grows-then s (err e) f h k = tt

pub merge_default-keeps :
    (canonical : String) (o : Option PolicyDecision) (this d : PolicyDecision)
    → merge_default canonical o this ≡ ok d
    → (e : PolicyDecision) → o ≡ some e
    → some d ≡ some e
unfolding merge_default
merge_default-keeps canonical none this d h e k = cc
merge_default-keeps canonical (some r) this d h e k = ground arith

pub Extends-add_rules :
    (canonical : String) (s : LoadState) (rules : List CompiledRule)
    → Extends s.ctx (add_rules canonical s rules).ctx
unfolding add_rules
Extends-add_rules canonical s rules = record {
  more = rules;
  rules = refl;
  default = λ d h. h;
  version = λ v h. h;
}

pub Extends-merge_settings :
    (v : ℕ) (d : PolicyDecision) (m : Option McpAllowlist) (t : Option TaintConfig) (s : LoadState)
    → ((e : PolicyDecision) → s.ctx.default ≡ some e → some d ≡ some e)
    → Extends s.ctx (merge_settings v d m t s).ctx
unfolding merge_settings
Extends-merge_settings v d m t s keeps = record {
  more = [];
  rules = sym (append-nil s.ctx.rules);
  default = keeps;
  version = λ w h. rw h;
}

module _ (fs : Fs) (glob_new : String → Option (String → Bool)) where
  pub visit_rules-Grows :
      (canonical : String) (raw : PolicyFile) (s : LoadState)
      → Grows s.ctx (visit_rules fs glob_new canonical raw s)
  unfolding visit_rules
  visit_rules-Grows canonical raw s = elim (Bool-cases (holds s.visited canonical)) [
    | inl e ↦ rw e (Extends-refl s.ctx s.ctx refl refl refl)
    | inr e ↦ rw e (
        Grows-bind s.ctx (compile_rules glob_new raw.rules canonical)
          (λ rules. ok (add_rules canonical s rules))
          λ rules _. Extends-add_rules canonical s rules)
  ]

  pub absorb-Grows :
      (canonical : String) (raw : PolicyFile) (s : LoadState)
      → Grows s.ctx (absorb fs glob_new canonical raw s)
  unfolding absorb
  absorb-Grows canonical raw s = elim (Bool-cases (unsupported raw.version)) [
    | inl e ↦ rw e tt
    | inr e ↦ rw e (
        Grows-bind s.ctx (merge_default canonical s.ctx.default (map_decision raw.default)) _
          λ d got.
            Grows-bind s.ctx (first_given (compile_mcp_allowlist glob_new) s.ctx.mcp_allow raw.mcp)
              _
              λ m _.
                Grows-bind s.ctx (first_given (compile_taint_config glob_new) s.ctx.taint raw.taint)
                  _
                  λ t _.
                    Grows-then s.ctx (ok (merge_settings raw.version d m t s))
                      (visit_rules fs glob_new canonical raw)
                      (Extends-merge_settings raw.version d m t s (
                        merge_default-keeps canonical s.ctx.default (map_decision raw.default) d
                          got))
                      (visit_rules-Grows canonical raw))
  ]

  pub load_includes-Grows :
      (load : String → LoadState → Result LoadState)
      → ((path : String) (s : LoadState) → Grows s.ctx (load path s))
      → (dir : Option String) (includes : List String) (s : LoadState)
      → Grows s.ctx (load_includes fs glob_new load dir includes s)
  unfolding load_includes
  load_includes-Grows load h dir [] s = Extends-refl s.ctx s.ctx refl refl refl
  load_includes-Grows load h dir (i ∷ is) s =
      let path = resolve_include_path fs i dir in
      Grows-then s.ctx (ok (push_include path s))
        (λ t. load path t >>= load_includes fs glob_new load dir is)
        (Extends-refl s.ctx (push_include path s).ctx refl refl refl)
        λ t.
          Grows-then t.ctx (load path t) (load_includes fs glob_new load dir is) (h path t)
            (load_includes-Grows load h dir is)

  pub load_file-Grows :
      (load : String → LoadState → Result LoadState) (canonical : String) (s : LoadState)
      → ((path : String) (t : LoadState) → Grows t.ctx (load path t))
      → Grows s.ctx (load_file fs glob_new load canonical s)
  unfolding load_file
  load_file-Grows load canonical s h = Grows-bind s.ctx (read_policy fs canonical) _ λ raw _.
      Grows-then s.ctx
        (absorb fs glob_new canonical raw (record s { chain = s.chain ++ canonical ∷ [] })) _
        (absorb-Grows canonical raw (record s { chain = s.chain ++ canonical ∷ [] }))
        λ t.
          Grows-then t.ctx (load_includes fs glob_new load (fs.parent canonical) raw.includes t) _
            (load_includes-Grows load h (fs.parent canonical) raw.includes t)
            λ u. Extends-refl u.ctx u.ctx refl refl refl

  pub load-Grows :
      (fuel : ℕ) (path : String) (s : LoadState)
      → Grows s.ctx (load_policy_recursive fs glob_new fuel path s)
  unfolding load_policy_recursive
  load-Grows zero path s = tt
  load-Grows (suc fuel) path s =
      elim (Bool-cases (holds s.chain (normalize_path fs path (last s.chain)))) [
        | inl e ↦ rw e tt
        | inr e ↦ rw e (
            load_file-Grows (load_policy_recursive fs glob_new fuel)
              (normalize_path fs path (last s.chain)) s (load-Grows fuel))
      ]

unfoldable pub context_of : Result LoadState → PolicyLoadContext
context_of (ok s) = s.ctx
context_of (err e) = empty_context
