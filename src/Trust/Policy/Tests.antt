-- ===== src/Trust/Policy/Tests.antt =====
-- Runs of the policy at concrete rules and files.
use local_agent.Base.{
  suc, String, ◌≡◌, ◌≢◌, refl, Bool, true, Option, none, some, [], ◌∷◌, ◌++◌, List, arith, length,
  str_eq, str_eq_comm, Bool-cases, inl, inr, if◌then◌else◌,
}
use local_agent.Json.{Value, object, end}
use local_agent.Types.{tool_side_effects}
use local_agent.Trust.Policy.{
  Policy, CompiledRule, exact, allow, deny, require_approval, evaluate, evaluate_rules,
  matches_tool, matches_conditions,
}
use local_agent.Trust.Policy.Compile.{
  from_yaml, PolicyFile, RawRule, RawDecision, raw_allow, raw_deny, out_of_fuel, ok, err,
  map_decision, compile_rules,
}
use local_agent.Trust.Policy.Evaluate.{FirstMatch, evaluate-FirstMatch}
use local_agent.Trust.Policy.SafeDefault.{safe_default, safe_decision, safe_default-decision}
use local_agent.Trust.Policy.Load.{
  Fs, holds, read_policy, from_path, load_policy_recursive, normalize_path,
}
use local_agent.Trust.Policy.Load.Terminates.{load-terminates}
use local_agent.Trust.Policy.Load.Inline.{from_yaml-from_path}
use local_agent.Trust.Policy.Load.Root.{root_of, from_path-root, from_path-root_decides}

-- `*` fits every name, and nothing else is a glob.
abbrev pub glob_new : String → Option (String → Bool)
glob_new pat = if str_eq pat "*" then some (λ s. true) else none

abbrev pub rule : String → CompiledRule
rule name = record {
  tool_pattern = name;
  tool = exact name;
  decision = require_approval;
  when = [];
  reason = none;
  source = record { path = "p" };
}

abbrev pub policy : Policy
policy = record {
  default = deny;
  rules = rule "shell" ∷ rule "edit" ∷ [];
  version = 1;
  includes_resolved = [];
  mcp_allow = none;
  taint = none;
}

abbrev pub no_args : Value
no_args = object end

evaluate-FirstMatch_example :
    FirstMatch glob_new "edit" no_args policy.rules policy.default
      (evaluate glob_new policy "edit" no_args)
evaluate-FirstMatch_example = evaluate-FirstMatch glob_new "edit" no_args policy

safe_default-decision_example :
    (evaluate glob_new safe_default "shell" no_args).decision
    ≡ safe_decision (tool_side_effects "shell")
safe_default-decision_example = safe_default-decision glob_new "shell" no_args

-- Two files: the root includes the other one, which has a rule that contradicts it.
abbrev raw_rule : String → RawDecision → RawRule
raw_rule tool decision = record { tool = tool; decision = decision; when = []; reason = none }

abbrev root_file : PolicyFile
root_file = record {
  version = 2;
  default = raw_deny;
  rules = raw_rule "shell" raw_deny ∷ [];
  includes = "more" ∷ [];
  mcp = none;
  taint = none;
}

abbrev more_file : PolicyFile
more_file = record {
  version = 1;
  default = raw_deny;
  rules = raw_rule "shell" raw_allow ∷ [];
  includes = [];
  mcp = none;
  taint = none;
}

abbrev fs : Fs
fs = record {
  is_absolute = λ path. true;
  join = λ base path. path;
  current_dir = none;
  canonicalize = λ path. some path;
  parent = λ path. none;
  read_to_string = λ path.
      if str_eq path "root" then some "root" else if str_eq path "more" then some "more" else none;
  parse_yaml = λ content. if str_eq content "root" then some root_file else some more_file;
}

abbrev files : List String
files = "root" ∷ "more" ∷ []

files_complete : (path : String) → fs.read_to_string path ≢ none → holds files path ≡ true
files_complete path h = elim (Bool-cases (str_eq path "root")) [
  | inl e ↦ rw (str_eq_comm "root" path, e) refl
  | inr e ↦ elim (Bool-cases (str_eq path "more")) [
    | inl m ↦ rw (str_eq_comm "more" path, m) (ground arith)
    | inr m ↦ absurd (h (rw (e, m) refl))
  ]
]

load-terminates_example : from_path fs glob_new (suc (length files)) "root" ≢ err out_of_fuel
load-terminates_example = load-terminates fs glob_new files files_complete "root"

abbrev root_rules : List CompiledRule
root_rules =
    record {
      tool_pattern = "shell";
      tool = exact "shell";
      decision = deny;
      when = [];
      reason = none;
      source = record { path = "root" };
    }
    ∷ []

abbrev loaded : Policy
loaded = record {
  default = deny;
  rules =
      root_rules
      ++ record {
        tool_pattern = "shell";
        tool = exact "shell";
        decision = allow;
        when = [];
        reason = none;
        source = record { path = "more" };
      }
        ∷ [];
  version = 2;
  includes_resolved = "more" ∷ [];
  mcp_allow = none;
  taint = none;
}

root_read : read_policy fs (root_of fs glob_new "root") ≡ ok root_file
unfolding read_policy normalize_path
root_read = refl

root_compiled : compile_rules glob_new root_file.rules (root_of fs glob_new "root") ≡ ok root_rules
unfolding compile_rules normalize_path
root_compiled = refl

root_loaded : from_path fs glob_new 3 "root" ≡ ok loaded
unfolding from_path load_policy_recursive compile_rules
root_loaded = refl

from_path-root_example :
    (more : List CompiledRule) × (loaded.rules ≡ root_rules ++ more)
    × (loaded.default ≡ map_decision root_file.default)
    × (loaded.version ≡ root_file.version)
from_path-root_example =
    from_path-root fs glob_new 3 "root" root_file root_rules loaded root_read root_compiled
      root_loaded

from_path-root_decides_example :
    evaluate glob_new loaded "shell" no_args
    ≡ evaluate_rules glob_new root_rules (map_decision root_file.default) "shell" no_args
unfolding matches_tool matches_conditions
from_path-root_decides_example =
    from_path-root_decides fs glob_new 3 "root" root_file root_rules loaded "shell" no_args
      root_read root_compiled root_loaded refl

-- The file that includes nothing, as a text and under its path.
more_read : read_policy fs (normalize_path fs (normalize_path fs "more" none) none) ≡ ok more_file
unfolding read_policy normalize_path
more_read = refl

abbrev inline_policy : Policy
inline_policy = record {
  default = deny;
  rules =
      record {
        tool_pattern = "shell";
        tool = exact "shell";
        decision = allow;
        when = [];
        reason = none;
        source = record { path = "<inline>" };
      }
      ∷ [];
  version = 1;
  includes_resolved = [];
  mcp_allow = none;
  taint = none;
}

inline_accepted : from_yaml glob_new fs.parse_yaml "more" ≡ ok inline_policy
unfolding from_yaml compile_rules
inline_accepted = refl

from_yaml-from_path_example :
    (p : Policy) × (from_path fs glob_new 1 "more" ≡ ok p)
    × ((tool : String) (args : Value)
        → ((evaluate glob_new p tool args).decision
            ≡ (evaluate glob_new inline_policy tool args).decision)
          × ((evaluate glob_new p tool args).reason
              ≡ (evaluate glob_new inline_policy tool args).reason))
from_yaml-from_path_example =
    from_yaml-from_path glob_new fs fs.parse_yaml "more" "more" 0 more_file inline_policy refl
      more_read inline_accepted
