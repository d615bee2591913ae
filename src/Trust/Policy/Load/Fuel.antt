-- ===== src/Trust/Policy/Load/Fuel.antt =====
-- Results that are no end of the fuel, and the files that a chain leaves.
use local_agent.Base.{
  ℕ, ◌≤◌, ◌<◌, String, ◌≡◌, ◌≢◌, refl, ap, inl, inr, Bool, true, false, not, Option, none, some,
  List, [], ◌∷◌, ◌++◌, arith, length, filter, str_eq, eq_iff, eq_refl, Bool-cases, Option-cases,
  if◌then◌else◌,
}
use local_agent.Trust.Policy.Compile.{
  RawRule, RawMcpAllowlist, RawTaintConfig, out_of_fuel, Result, ok, err, ◌>>=◌, has_glob_meta,
  compile_glob, compile_globs, compile_matcher, compile_rules, compile_mcp_allowlist,
  compile_taint_config,
}
use local_agent.Trust.Policy.{PolicyDecision}
use local_agent.Trust.Policy.Load.{merge_default, first_given, same_decision, LoadState, pop, holds}

-- The files that are not in the chain.
abbrev pub unchained : List String → List String → ℕ
unchained chain files = length (filter (λ f. not (holds chain f)) files)

pub holds-append :
    (xs ys : List String) (p : String)
    → holds (xs ++ ys) p ≡ (if holds xs p then true else holds ys p)
holds-append [] ys p = refl
holds-append (x ∷ xs) ys p = ground (arith, holds-append xs ys p)

pub unchained-push-le :
    (chain : List String) (c : String) (files : List String)
    → unchained (chain ++ c ∷ []) files ≤ unchained chain files
unchained-push-le chain c [] = omega arith
unchained-push-le chain c (f ∷ files) =
    ground (arith, unchained-push-le chain c files, holds-append chain (c ∷ []) f)

-- A file that enters the chain leaves the rest.
pub unchained-push-lt :
    (chain : List String) (c : String) (files : List String)
    → holds files c ≡ true
    → holds chain c ≡ false
    → unchained (chain ++ c ∷ []) files < unchained chain files
unchained-push-lt chain c [] h k = cc
unchained-push-lt chain c (f ∷ files) h k = elim (Bool-cases (str_eq f c)) [
  | inl e ↦
      let same = (eq_iff f c).0 e in
      ground
        (arith, same, unchained-push-le chain c files, holds-append chain (c ∷ []) f, eq_refl c)
  | inr e ↦ ground (
    arith,
    unchained-push-lt chain c files,
    holds-append chain (c ∷ []) f,
    e,
    eq_iff c f,
    eq_iff f c,
  )
]

-- A result that is not the end of the fuel.
abbrev pub NoFuel {ℓ} : {A : Type ℓ} → Result A → Type 0
NoFuel (ok a) = Unit
NoFuel (err e) = e ≢ out_of_fuel

pub NoFuel-bind {ℓ κ} :
    {A : Type ℓ} {B : Type κ} (m : Result A) (f : A → Result B)
    → NoFuel m
    → ((a : A) → NoFuel (f a))
    → NoFuel (m >>= f)
NoFuel-bind (ok a) f h k = k a
NoFuel-bind (err e) f h k = h

-- A step that ends other than by fuel, and that on success leaves the chain `c`.
abbrev pub Sound : List String → Result LoadState → Type 0
Sound c (ok s) = s.chain ≡ c
Sound c (err e) = e ≢ out_of_fuel

pub Sound-bind {ℓ} :
    {A : Type ℓ} (c : List String) (m : Result A) (f : A → Result LoadState)
    → NoFuel m
    → ((a : A) → m ≡ ok a → Sound c (f a))
    → Sound c (m >>= f)
Sound-bind c (ok a) f h k = k a refl
Sound-bind c (err e) f h k = h

pub Sound-then :
    (c d : List String) (m : Result LoadState) (f : LoadState → Result LoadState)
    → Sound c m
    → ((s : LoadState) → s.chain ≡ c → Sound d (f s))
    → Sound d (m >>= f)
Sound-then c d (ok s) f h k = k s h
Sound-then c d (err e) f h k = h

pub pop-append : (xs : List String) (x : String) → pop (xs ++ x ∷ []) ≡ xs
pop-append [] x = refl
pop-append (y ∷ []) x = refl
pop-append (y ∷ z ∷ zs) x = ap (λ l. y ∷ l) (pop-append (z ∷ zs) x)

module _ (glob_new : String → Option (String → Bool)) where
  pub compile_glob-NoFuel : (pat : String) → NoFuel (compile_glob glob_new pat)
  unfolding compile_glob
  compile_glob-NoFuel pat = elim (Option-cases (glob_new pat)) [
    | inl e ↦ rw (e, NoFuel, compile_glob) (λ h. cc)
    | inr (m, e) ↦ rw (e, NoFuel, compile_glob) tt
  ]

  pub compile_globs-NoFuel : (pats : List String) → NoFuel (compile_globs glob_new pats)
  unfolding compile_globs
  compile_globs-NoFuel [] = tt
  compile_globs-NoFuel (pat ∷ pats) =
      NoFuel-bind _ _ (compile_glob-NoFuel pat)
        λ m. NoFuel-bind _ _ (compile_globs-NoFuel pats) λ ms. tt

  pub compile_matcher-NoFuel : (tool : String) → NoFuel (compile_matcher glob_new tool)
  unfolding compile_matcher
  compile_matcher-NoFuel tool = elim (Bool-cases (has_glob_meta tool)) [
    | inl e ↦ rw e (NoFuel-bind _ _ (compile_glob-NoFuel tool) λ m. tt)
    | inr e ↦ rw e tt
  ]

  pub compile_rules-NoFuel :
      (rs : List RawRule) (path : String) → NoFuel (compile_rules glob_new rs path)
  unfolding compile_rules
  compile_rules-NoFuel [] path = tt
  compile_rules-NoFuel (r ∷ rs) path =
      NoFuel-bind _ _ (compile_matcher-NoFuel r.tool)
        λ m. NoFuel-bind _ _ (compile_rules-NoFuel rs path) λ ms. tt

  pub compile_mcp_allowlist-NoFuel :
      (raw : RawMcpAllowlist) → NoFuel (compile_mcp_allowlist glob_new raw)
  unfolding compile_mcp_allowlist
  compile_mcp_allowlist-NoFuel raw = NoFuel-bind _ _ (compile_globs-NoFuel raw.allow_tools) λ m. tt

  pub compile_taint_config-NoFuel :
      (raw : RawTaintConfig) → NoFuel (compile_taint_config glob_new raw)
  unfolding compile_taint_config
  compile_taint_config-NoFuel raw =
      NoFuel-bind _ _ (compile_globs-NoFuel raw.file_path_globs) λ m. tt

pub first_given-NoFuel {ℓ κ} :
    {A : Type ℓ} {B : Type κ} (f : A → Result B) (have : Option B) (raw : Option A)
    → ((a : A) → NoFuel (f a))
    → NoFuel (first_given f have raw)
unfolding first_given
first_given-NoFuel f (some b) raw h = tt
first_given-NoFuel f none none h = tt
first_given-NoFuel f none (some a) h = NoFuel-bind _ _ (h a) λ b. tt

pub merge_default-NoFuel :
    (canonical : String) (o : Option PolicyDecision) (d : PolicyDecision)
    → NoFuel (merge_default canonical o d)
unfolding merge_default
merge_default-NoFuel canonical none d = tt
merge_default-NoFuel canonical (some r) d = elim (Bool-cases (same_decision r d)) [
  | inl e ↦ rw e tt
  | inr e ↦ rw e (λ h. cc)
]
