-- ===== src/Trust/Policy/Load/Terminates.antt =====
-- The fuel of `load_policy_recursive` of src/trust/policy.rs, and the chain of files.
use local_agent.Base.{
  ℕ, zero, suc, ◌<◌, String, ◌≡◌, ◌≢◌, refl, ◌∙◌, ap, inl, inr, Bool, true, Option, none, List, [],
  ◌∷◌, ◌++◌, arith, length, Bool-cases, Option-cases,
}
use local_agent.Trust.Policy.Compile.{
  PolicyFile, unreadable, out_of_fuel, Result, ok, err, unsupported,
}
use local_agent.Trust.Policy.Load.{
  PolicyLoadContext, start, Fs, LoadState, last, pop, holds, normalize_path, read_policy, absorb,
  visit_rules, load_includes, load_file, load_policy_recursive, finish_load, from_path,
}
use local_agent.Trust.Policy.Load.Fuel.{
  unchained, unchained-push-lt, NoFuel, NoFuel-bind, Sound, Sound-bind, Sound-then, pop-append,
  compile_rules-NoFuel, compile_mcp_allowlist-NoFuel, compile_taint_config-NoFuel,
  first_given-NoFuel, merge_default-NoFuel,
}

module _ (fs : Fs) (glob_new : String → Option (String → Bool)) where
  visit_rules-Sound :
      (canonical : String) (raw : PolicyFile) (s : LoadState)
      → Sound s.chain (visit_rules fs glob_new canonical raw s)
  unfolding visit_rules
  visit_rules-Sound canonical raw s = elim (Bool-cases (holds s.visited canonical)) [
    | inl e ↦ rw e refl
    | inr e ↦
        rw e
          (Sound-bind s.chain _ _ (compile_rules-NoFuel glob_new raw.rules canonical) λ r _. refl)
  ]

  absorb-Sound :
      (canonical : String) (raw : PolicyFile) (s : LoadState)
      → Sound s.chain (absorb fs glob_new canonical raw s)
  unfolding absorb
  absorb-Sound canonical raw s = elim (Bool-cases (unsupported raw.version)) [
    | inl e ↦ rw e (λ h. cc)
    | inr e ↦ rw e (
        Sound-bind s.chain _ _ (merge_default-NoFuel canonical s.ctx.default _) λ d _.
          Sound-bind s.chain _ _
            (first_given-NoFuel _ s.ctx.mcp_allow raw.mcp (compile_mcp_allowlist-NoFuel glob_new))
            λ m _.
              Sound-bind s.chain _ _
                (first_given-NoFuel _ s.ctx.taint raw.taint (compile_taint_config-NoFuel glob_new))
                λ t _. visit_rules-Sound canonical raw _)
  ]

  load_includes-Sound :
      (c : List String) (load : String → LoadState → Result LoadState)
      → ((path : String) (s : LoadState) → s.chain ≡ c → Sound c (load path s))
      → (dir : Option String) (includes : List String) (s : LoadState) → s.chain ≡ c
      → Sound c (load_includes fs glob_new load dir includes s)
  unfolding load_includes
  load_includes-Sound c load h dir [] s e = e
  load_includes-Sound c load h dir (i ∷ is) s e =
      Sound-then c c _ _ (h _ _ e) (load_includes-Sound c load h dir is)

  read_policy-NoFuel : (canonical : String) → NoFuel (read_policy fs canonical)
  unfolding read_policy
  read_policy-NoFuel canonical = elim (Option-cases (fs.read_to_string canonical)) [
    | inl e ↦ rw (e, NoFuel, read_policy) (λ h. cc)
    | inr (content, e) ↦ elim (Option-cases (fs.parse_yaml content)) [
      | inl e' ↦ rw (e, NoFuel, read_policy) (rw (e', NoFuel) (λ h. cc))
      | inr (raw, e') ↦ rw (e, NoFuel, read_policy) (rw (e', NoFuel) tt)
    ]
  ]

  load_file-Sound :
      (load : String → LoadState → Result LoadState) (canonical : String) (s : LoadState)
      → ((path : String) (t : LoadState)
          → t.chain ≡ s.chain ++ canonical ∷ []
          → read_policy fs canonical ≢ err (unreadable canonical)
          → Sound (s.chain ++ canonical ∷ []) (load path t))
      → Sound s.chain (load_file fs glob_new load canonical s)
  unfolding load_file
  load_file-Sound load canonical s h =
      let c = s.chain ++ canonical ∷ [] in
      Sound-bind s.chain _ _ (read_policy-NoFuel canonical) λ raw got.
        Sound-then c s.chain _ _ (absorb-Sound canonical raw (record s { chain = c })) λ s' e.
          Sound-then c s.chain _ _
            (load_includes-Sound c load (λ path t k. h path t k (λ bad. cc)) (fs.parent canonical)
              raw.includes s' e)
            λ s'' e'. ap pop e' ∙ pop-append s.chain canonical

  readable :
      (canonical : String)
      → read_policy fs canonical ≢ err (unreadable canonical)
      → fs.read_to_string canonical ≢ none
  unfolding read_policy
  readable canonical h e = h (rw (e, read_policy))

  -- `files` names every file that can be read.
  module _ (files : List String)
      (complete : (path : String) → fs.read_to_string path ≢ none → holds files path ≡ true) where
    load-Sound :
        (fuel : ℕ) (path : String) (s : LoadState)
        → unchained s.chain files < fuel
        → Sound s.chain (load_policy_recursive fs glob_new fuel path s)
    unfolding load_policy_recursive
    load-Sound zero path s h = absurd (omega arith)
    load-Sound (suc fuel) path s h =
        let canonical = normalize_path fs path (last s.chain) in
        elim (Bool-cases (holds s.chain canonical)) [
          | inl e ↦ rw e (λ k. cc)
          | inr e ↦ rw e (
              load_file-Sound (load_policy_recursive fs glob_new fuel) canonical s λ path' t k got.
                let fits =
                  unchained-push-lt s.chain canonical files
                    (complete canonical (readable canonical got)) e in
                rw (← k) (load-Sound fuel path' t (rw k (omega arith))))
        ]

NoFuel-of_Sound : (c : List String) (r : Result LoadState) → Sound c r → NoFuel r
NoFuel-of_Sound c (ok s) h = tt
NoFuel-of_Sound c (err x) h = h

NoFuel-ne {ℓ} : {A : Type ℓ} (r : Result A) → NoFuel r → r ≢ err out_of_fuel
NoFuel-ne (ok s) h e = cc
NoFuel-ne (err x) h e = h (cc)

unchained-nil : (files : List String) → unchained [] files ≡ length files
unchained-nil [] = refl
unchained-nil (f ∷ files) = ap suc (unchained-nil files)

finish_load-NoFuel :
    (fs : Fs) (glob_new : String → Option (String → Bool)) (ctx : PolicyLoadContext)
    → NoFuel (finish_load fs glob_new ctx)
unfolding finish_load
finish_load-NoFuel fs glob_new ctx = elim (Option-cases ctx.default) [
  | inl e ↦ rw (e, NoFuel, finish_load) (λ h. cc)
  | inr (d, e) ↦ rw (e, NoFuel, finish_load) tt
]

-- Where `files` names every file that can be read, one more than their number is enough fuel:
-- loading from a path never runs out of it, whatever includes what.
pub load-terminates :
    (fs : Fs) (glob_new : String → Option (String → Bool)) (files : List String)
    → ((path : String) → fs.read_to_string path ≢ none → holds files path ≡ true)
    → (path : String) → from_path fs glob_new (suc (length files)) path ≢ err out_of_fuel
unfolding from_path
load-terminates fs glob_new files complete path =
    let loaded =
      load-Sound fs glob_new files complete (suc (length files)) (normalize_path fs path none) start
        (omega (arith, unchained-nil files)) in
    NoFuel-ne _
      (NoFuel-bind _ _ (NoFuel-of_Sound [] _ loaded) λ s. finish_load-NoFuel fs glob_new s.ctx)
