-- ===== src/Trust/Policy/Load.antt =====
-- `Policy::from_path`: a policy file with the files that it includes, depth first.
-- `std::path`, `std::fs` and `serde_yaml` are the parameter `Fs`. The recursion of
-- `load_policy_recursive` is on fuel.
pub mod Fuel
pub mod Terminates
pub mod Grows
pub mod Root
pub mod Inline
use local_agent.Base.{
  ℕ, zero, suc, String, ◌≡◌, Bool, true, false, not, ◌&&◌, ◌||◌, Option, none, some, List, [], ◌∷◌,
  ◌++◌, any, is_some, str_eq, unwrap_or, if◌then◌else◌,
}
use local_agent.Trust.Policy.{
  PolicyDecision, allow, deny, require_approval, CompiledRule, McpAllowlist, TaintConfig, Policy,
}
use local_agent.Trust.Policy.Compile.{
  PolicyFile, PolicyError, include_cycle, unreadable, unparsable, unsupported_version,
  default_mismatch, missing_default, includes_need_path, out_of_fuel, Result, ok, err, ◌>>=◌,
  map_decision, unsupported, compile_rules, compile_mcp_allowlist, compile_taint_config, transpose,
  compile_policy,
}

-- `display` and `to_string_lossy` of a path are its text.
pub record Fs : Type 0 where
  pub is_absolute : String → Bool
  pub join : String → String → String
  pub current_dir : Option String
  pub canonicalize : String → Option String
  pub parent : String → Option String
  pub read_to_string : String → Option String
  pub parse_yaml : String → Option PolicyFile

pub record PolicyLoadContext : Type 0 where
  pub version : Option ℕ
  pub default : Option PolicyDecision
  pub rules : List CompiledRule
  pub mcp_allow : Option McpAllowlist
  pub taint : Option TaintConfig
  pub includes_resolved : List String

-- The arguments that `load_policy_recursive` mutates.
pub record LoadState : Type 0 where
  pub visited : List String
  pub chain : List String
  pub ctx : PolicyLoadContext

abbrev pub empty_context : PolicyLoadContext
empty_context = record {
  version = none;
  default = none;
  rules = [];
  mcp_allow = none;
  taint = none;
  includes_resolved = [];
}

-- `chain.last()` and `chain.pop()`.
abbrev pub last : List String → Option String
last [] = none
last (x ∷ []) = some x
last (x ∷ y ∷ ys) = last (y ∷ ys)

abbrev pub pop : List String → List String
pop [] = []
pop (x ∷ []) = []
pop (x ∷ y ∷ ys) = x ∷ pop (y ∷ ys)

-- `iter().any(|p| p == path)`, and `HashSet::contains`.
abbrev pub holds : List String → String → Bool
holds paths path = any (λ p. str_eq p path) paths

abbrev pub same_decision : PolicyDecision → PolicyDecision → Bool
same_decision allow allow = true
same_decision deny deny = true
same_decision require_approval require_approval = true
same_decision _ _ = false

-- The root's default stands, and a file with another one is refused.
unfoldable pub merge_default :
    String → Option PolicyDecision → PolicyDecision → Result PolicyDecision
merge_default canonical none this_default = ok this_default
merge_default canonical (some root_default) this_default =
    if same_decision root_default this_default
    then ok root_default
    else err (default_mismatch canonical)

-- `if ctx.x.is_none() && raw.x.is_some() { ctx.x = raw.x.map(f).transpose()? }`.
unfoldable pub first_given {ℓ κ} :
    {A : Type ℓ} {B : Type κ} → (A → Result B) → Option B → Option A → Result (Option B)
first_given f (some b) raw = ok (some b)
first_given f none raw = transpose f raw

-- The writes to the context, once all that may fail is computed.
unfoldable pub merge_settings :
    ℕ → PolicyDecision → Option McpAllowlist → Option TaintConfig → LoadState → LoadState
merge_settings version default mcp_allow taint s = record s {
  ctx = record s.ctx {
    version = some (unwrap_or s.ctx.version version);
    default = some default;
    mcp_allow = mcp_allow;
    taint = taint;
  };
}

unfoldable pub add_rules : String → LoadState → List CompiledRule → LoadState
add_rules canonical s rules = record s {
  visited = canonical ∷ s.visited;
  ctx = record s.ctx { rules = s.ctx.rules ++ rules };
}

unfoldable pub push_include : String → LoadState → LoadState
push_include include_path s = record s {
  ctx = record s.ctx { includes_resolved = s.ctx.includes_resolved ++ include_path ∷ [] };
}

abbrev pub start : LoadState
start = record { visited = []; chain = []; ctx = empty_context }

module _ (fs : Fs) where
  unfoldable pub normalize_path : String → Option String → String
  normalize_path path base_dir =
      let candidate = if fs.is_absolute path then path else elim base_dir [
        | some base ↦ fs.join base path
        | none ↦ fs.join (unwrap_or fs.current_dir ".") path
      ] in
      unwrap_or (fs.canonicalize candidate) candidate

  unfoldable pub resolve_include_path : String → Option String → String
  unfolding normalize_path
  resolve_include_path include base_dir =
      if fs.is_absolute include
      then normalize_path include none
      else normalize_path include base_dir

  unfoldable pub read_policy : String → Result PolicyFile
  read_policy canonical = elim (fs.read_to_string canonical) [
    | none ↦ err (unreadable canonical)
    | some content ↦ elim (fs.parse_yaml content) [
      | none ↦ err (unparsable canonical)
      | some raw ↦ ok raw
    ]
  ]

  module _ (glob_new : String → Option (String → Bool)) where
    -- The rules of a file count once, at its first visit.
    unfoldable pub visit_rules : String → PolicyFile → LoadState → Result LoadState
    unfolding add_rules
    visit_rules canonical raw s =
        if holds s.visited canonical
        then ok s
        else do rules ← compile_rules glob_new raw.rules canonical; ok (add_rules canonical s rules)

    -- What a file adds to the context before its includes are loaded.
    unfoldable pub absorb : String → PolicyFile → LoadState → Result LoadState
    unfolding merge_default first_given visit_rules merge_settings
    absorb canonical raw s =
        if unsupported raw.version then err (unsupported_version raw.version) else do
          default ← merge_default canonical s.ctx.default (map_decision raw.default)
          mcp_allow ← first_given (compile_mcp_allowlist glob_new) s.ctx.mcp_allow raw.mcp
          taint ← first_given (compile_taint_config glob_new) s.ctx.taint raw.taint
          visit_rules canonical raw (merge_settings raw.version default mcp_allow taint s)

    -- The loop over `raw.includes`, with the recursive call as an argument.
    unfoldable pub load_includes :
        (String → LoadState → Result LoadState)
        → Option String
        → List String
        → LoadState
        → Result LoadState
    unfolding resolve_include_path push_include
    load_includes load parent_dir [] s = ok s
    load_includes load parent_dir (include ∷ includes) s = do
      let include_path = resolve_include_path include parent_dir
      s' ← load include_path (push_include include_path s)
      load_includes load parent_dir includes s'

    -- One file, behind the cycle test, with the recursive call as an argument.
    unfoldable pub load_file :
        (String → LoadState → Result LoadState) → String → LoadState → Result LoadState
    unfolding read_policy absorb load_includes
    load_file load canonical s = do
      raw ← read_policy canonical
      s' ← absorb canonical raw (record s { chain = s.chain ++ canonical ∷ [] })
      s'' ← load_includes load (fs.parent canonical) raw.includes s'
      ok (record s'' { chain = pop s''.chain })

    unfoldable pub load_policy_recursive : ℕ → String → LoadState → Result LoadState
    unfolding load_file normalize_path
    load_policy_recursive zero path s = err out_of_fuel
    load_policy_recursive (suc fuel) path s =
        let canonical = normalize_path path (last s.chain) in
        let loaded = load_file (load_policy_recursive fuel) canonical s in
        if holds s.chain canonical then err (include_cycle (s.chain ++ canonical ∷ [])) else loaded

    -- The end of `from_path`, once the files are loaded.
    unfoldable pub finish_load : PolicyLoadContext → Result Policy
    unfolding compile_policy
    finish_load ctx = elim ctx.default [
      | none ↦ err missing_default
      | some default ↦
          compile_policy (unwrap_or ctx.version 1) default ctx.rules ctx.mcp_allow ctx.taint
            ctx.includes_resolved
    ]

    unfoldable pub from_path : ℕ → String → Result Policy
    unfolding finish_load normalize_path
    from_path fuel path = do
      s ← load_policy_recursive fuel (normalize_path path none) start
      finish_load s.ctx
