-- ===== src/Trust/Policy.antt =====
-- src/trust/policy.rs: rules that decide on a tool call, and their allowlists.
-- `globset` is a parameter: `glob_new p` is `Glob::new(p)`, with `is_match` of its compiled matcher.
pub mod Evaluate
pub mod SafeDefault
pub mod Compile
pub mod Load
mod Tests
use mathlib.Core.Option
use local_agent.Base.{
  ℕ, zero, suc, ◌-◌, String, len, slice, Bool, true, false, not, ◌&&◌, ◌||◌, Option, none, some,
  List, [], ◌∷◌, ◌++◌, map, any, all, str_eq, starts_with, contains, concat, unwrap_or, length,
  is_empty, get_elem?, if◌then◌else◌,
}
use Prim.Native.String.{find}
use local_agent.Json.{Value, get_str}

pub data PolicyDecision : Type 0 where
  allow deny require_approval : PolicyDecision

pub record PolicyEvaluation : Type 0 where
  pub decision : PolicyDecision
  pub reason : Option String
  pub source : Option String

pub record RuleSource : Type 0 where
  pub path : String

pub data ToolMatcher : Type 0 where
  exact : String → ToolMatcher
  glob : (String → Bool) → ToolMatcher

pub data ConditionOp : Type 0 where
  op_starts_with op_contains op_equals op_glob : ConditionOp

pub record Condition : Type 0 where
  pub arg : String
  pub op : ConditionOp
  pub value : String

pub record CompiledRule : Type 0 where
  pub tool_pattern : String
  pub tool : ToolMatcher
  pub decision : PolicyDecision
  pub when : List Condition
  pub reason : Option String
  pub source : RuleSource

pub record McpAllowlist : Type 0 where
  pub allow_servers : List String
  pub allow_tools : List String
  pub allow_tool_matchers : List (String → Bool)

pub record McpAllowSummary : Type 0 where
  pub allow_servers : List String
  pub allow_tools : List String

pub record TaintConfig : Type 0 where
  pub file_path_globs : List String
  pub file_path_matchers : List (String → Bool)

pub record Policy : Type 0 where
  pub default : PolicyDecision
  pub rules : List CompiledRule
  pub version : ℕ
  pub includes_resolved : List String
  pub mcp_allow : Option McpAllowlist
  pub taint : Option TaintConfig

unfoldable pub matches_tool : ToolMatcher → String → Bool
matches_tool (exact name) tool = str_eq name tool
matches_tool (glob is_match) tool = is_match tool

-- `Glob::new(value).map(is_match).unwrap_or(false)`.
abbrev glob_matches : Option (String → Bool) → String → Bool
glob_matches none s = false
glob_matches (some is_match) s = is_match s

module _ (glob_new : String → Option (String → Bool)) where
  unfoldable pub op_matches : ConditionOp → String → String → Bool
  op_matches op_starts_with value arg_val = starts_with arg_val value
  op_matches op_contains value arg_val = contains arg_val value
  op_matches op_equals value arg_val = str_eq arg_val value
  op_matches op_glob value arg_val = glob_matches (glob_new value) arg_val

  unfoldable pub condition_matches : Value → Condition → Bool
  unfolding op_matches
  condition_matches args cond = elim (get_str args cond.arg) [
    | none ↦ false
    | some arg_val ↦ op_matches cond.op cond.value arg_val
  ]

  unfoldable pub matches_conditions : CompiledRule → Value → Bool
  unfolding condition_matches
  matches_conditions rule args = all (condition_matches args) rule.when

  -- The loop over the rules: the first that matches decides.
  unfoldable pub evaluate_rules :
      List CompiledRule → PolicyDecision → String → Value → PolicyEvaluation
  unfolding matches_tool matches_conditions
  evaluate_rules [] default tool args = record {
    decision = default;
    reason = none;
    source = some "default";
  }
  evaluate_rules (rule ∷ rules) default tool args =
      let rest = evaluate_rules rules default tool args in
      if not (matches_tool rule.tool tool)
      then rest
      else if matches_conditions rule args
      then record { decision = rule.decision; reason = rule.reason; source = some rule.source.path }
      else rest

  unfoldable pub evaluate : Policy → String → Value → PolicyEvaluation
  unfolding evaluate_rules
  evaluate p tool args = evaluate_rules p.rules p.default tool args

-- `rest.splitn(2, '.').next()`: what stands before the first dot, or all.
unfoldable pub before_dot : String → String
before_dot rest = slice rest 0 (find rest ".")

-- `none` is `Ok(())`, and `some e` is `Err(e)`.
unfoldable pub mcp_tool_allowed : Policy → String → Option String
unfolding before_dot
mcp_tool_allowed p tool_name = elim p.mcp_allow [
  | none ↦ none
  | some allow_list ↦
      if not (starts_with tool_name "mcp.")
      then none
      else let server = before_dot (slice tool_name 4 (len tool_name)) in
        if not (is_empty allow_list.allow_servers)
          && not (any (λ s. str_eq s server) allow_list.allow_servers)
        then some (concat ("mcp server not allowlisted: " ∷ server ∷ []))
        else if not (is_empty allow_list.allow_tool_matchers)
            && not (any (λ m. m tool_name) allow_list.allow_tool_matchers)
        then some (concat ("mcp tool not allowlisted: " ∷ tool_name ∷ []))
        else none
]

-- `enumerate` with `file_path_globs.get(idx)`: the glob at the place of the first matcher that fits.
first_match : ℕ → List (String → Bool) → List String → String → Option String
first_match idx [] globs path = none
first_match idx (m ∷ ms) globs path =
    let rest = first_match (suc idx) ms globs path in if m path then get_elem? globs idx else rest

pub taint_file_match : Policy → String → Option String
unfolding first_match
taint_file_match p path = elim p.taint [
  | none ↦ none
  | some taint ↦ first_match 0 taint.file_path_matchers taint.file_path_globs path
]

pub record EffectiveRule : Type 0 where
  pub tool : String
  pub decision : PolicyDecision
  pub when : List Condition
  pub reason : Option String
  pub source : RuleSource

pub record EffectivePolicy : Type 0 where
  pub version : ℕ
  pub default : PolicyDecision
  pub rules : List EffectiveRule
  pub mcp : Option McpAllowSummary

abbrev pub summary : McpAllowlist → McpAllowSummary
summary a = record { allow_servers = a.allow_servers; allow_tools = a.allow_tools }

pub mcp_allowlist_summary : Policy → Option McpAllowSummary
mcp_allowlist_summary p = Option.map summary p.mcp_allow

effective_rule : CompiledRule → EffectiveRule
effective_rule r = record {
  tool = r.tool_pattern;
  decision = r.decision;
  when = r.when;
  reason = r.reason;
  source = r.source;
}

pub to_effective_policy : Policy → EffectivePolicy
unfolding mcp_allowlist_summary effective_rule
to_effective_policy p = record {
  version = p.version;
  default = p.default;
  rules = map effective_rule p.rules;
  mcp = mcp_allowlist_summary p;
}
