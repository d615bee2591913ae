-- ===== src/Trust/Policy/Compile.antt =====
-- The parsed policy file, and how `from_yaml` compiles it.
use local_agent.Base.{
  ◌≡◌, refl, ℕ, String, Bool, not, ◌&&◌, ◌||◌, Option, none, some, List, [], ◌∷◌, ◌==◌, contains,
  is_empty, if◌then◌else◌,
}
use local_agent.Trust.Policy.{
  PolicyDecision, CompiledRule, ToolMatcher, exact, glob, Condition, McpAllowlist, TaintConfig,
  Policy,
}
use local_agent.Trust.Policy

pub data RawDecision : Type 0 where
  raw_allow raw_deny raw_require_approval : RawDecision

pub record RawRule : Type 0 where
  pub tool : String
  pub decision : RawDecision
  pub when : List Condition
  pub reason : Option String

pub record RawMcpAllowlist : Type 0 where
  pub allow_servers : List String
  pub allow_tools : List String

pub record RawTaintConfig : Type 0 where
  pub file_path_globs : List String

pub record PolicyFile : Type 0 where
  pub version : ℕ
  pub default : RawDecision
  pub rules : List RawRule
  pub includes : List String
  pub mcp : Option RawMcpAllowlist
  pub taint : Option RawTaintConfig

-- Why a policy is refused. A chain or a cycle is the list of the files.
pub data PolicyError : Type 0 where
  include_cycle : List String → PolicyError
  unreadable : String → PolicyError
  unparsable : String → PolicyError
  unsupported_version : ℕ → PolicyError
  default_mismatch : String → PolicyError
  bad_glob : String → PolicyError
  missing_default : PolicyError
  includes_need_path : PolicyError
  out_of_fuel : PolicyError

pub data Result {ℓ} (T : Type ℓ) : Type ℓ where
  err : PolicyError → Result T
  ok : (value : T) → Result T

-- `?`.
abbrev pub ◌>>=◌ {ℓ κ} : {T : Type ℓ} {U : Type κ} → Result T → (T → Result U) → Result U
err refused >>= next = err refused
ok value >>= next = next value

infixl 5 ◌>>=◌
unfoldable pub map_decision : RawDecision → PolicyDecision
map_decision raw_allow = Policy.allow
map_decision raw_deny = Policy.deny
map_decision raw_require_approval = Policy.require_approval

unfoldable pub has_glob_meta : String → Bool
has_glob_meta s = contains s "*" || contains s "?" || contains s "["

-- `version != 1 && version != 2`.
abbrev pub unsupported : ℕ → Bool
unsupported version = not (version == 1) && not (version == 2)

-- `Option::map(f).transpose()?`.
abbrev pub transpose {ℓ κ} :
    {A : Type ℓ} {B : Type κ} → (A → Result B) → Option A → Result (Option B)
transpose f none = ok none
transpose f (some a) = do b ← f a; ok (some b)

unfoldable pub compile_policy :
    ℕ
    → PolicyDecision
    → List CompiledRule
    → Option McpAllowlist
    → Option TaintConfig
    → List String
    → Result Policy
compile_policy version default rules mcp_allow taint includes_resolved = ok (record {
  default = default;
  rules = rules;
  version = version;
  includes_resolved = includes_resolved;
  mcp_allow = mcp_allow;
  taint = taint;
})

module _ (glob_new : String → Option (String → Bool)) where
  -- `Glob::new(pat)?.compile_matcher()`.
  unfoldable pub compile_glob : String → Result (String → Bool)
  compile_glob pat = elim (glob_new pat) [ none ↦ err (bad_glob pat) | some m ↦ ok m ]

  unfoldable pub compile_globs : List String → Result (List (String → Bool))
  unfolding compile_glob
  compile_globs [] = ok []
  compile_globs (pat ∷ pats) = do m ← compile_glob pat; ms ← compile_globs pats; ok (m ∷ ms)

  unfoldable pub compile_matcher : String → Result ToolMatcher
  unfolding compile_glob has_glob_meta
  compile_matcher tool =
      if has_glob_meta tool then (do m ← compile_glob tool; ok (glob m)) else ok (exact tool)

  unfoldable pub compile_rules : List RawRule → String → Result (List CompiledRule)
  unfolding compile_matcher map_decision
  compile_rules [] source_path = ok []
  compile_rules (rr ∷ rrs) source_path = do
    matcher ← compile_matcher rr.tool
    rules ← compile_rules rrs source_path
    ok (
        record {
          tool_pattern = rr.tool;
          tool = matcher;
          decision = map_decision rr.decision;
          when = rr.when;
          reason = rr.reason;
          source = record { path = source_path };
        }
        ∷ rules)

  unfoldable pub compile_mcp_allowlist : RawMcpAllowlist → Result McpAllowlist
  unfolding compile_globs
  compile_mcp_allowlist raw = do
    matchers ← compile_globs raw.allow_tools
    ok (record {
      allow_servers = raw.allow_servers;
      allow_tools = raw.allow_tools;
      allow_tool_matchers = matchers;
    })

  unfoldable pub compile_taint_config : RawTaintConfig → Result TaintConfig
  unfolding compile_globs
  compile_taint_config raw = do
    matchers ← compile_globs raw.file_path_globs
    ok (record { file_path_globs = raw.file_path_globs; file_path_matchers = matchers })

  -- What `from_yaml` does with the parsed text.
  unfoldable pub compile_inline : PolicyFile → Result Policy
  unfolding compile_policy
  compile_inline raw =
      if unsupported raw.version
      then err (unsupported_version raw.version)
      else if not (is_empty raw.includes)
      then err includes_need_path
      else do
        rules ← compile_rules raw.rules "<inline>"
        mcp_allow ← transpose compile_mcp_allowlist raw.mcp
        taint ← transpose compile_taint_config raw.taint
        compile_policy raw.version (map_decision raw.default) rules mcp_allow taint []

  -- `from_str` is `serde_yaml::from_str`.
  unfoldable pub from_yaml : (String → Option PolicyFile) → String → Result Policy
  unfolding compile_inline
  from_yaml from_str yaml = elim (from_str yaml) [
    | none ↦ err (unparsable "<inline>")
    | some raw ↦ compile_inline raw
  ]

-- A block that ends well had a first step that ended well.
pub bind-ok {ℓ κ} :
    {T : Type ℓ} {U : Type κ} (first : Result T) (rest : T → Result U) {last : U}
    → (first >>= rest) ≡ ok last
    → (value : T) × (first ≡ ok value) × (rest value ≡ ok last)
bind-ok (err refused) rest ended = cc
bind-ok (ok value) rest ended = (value, refl, ended)
