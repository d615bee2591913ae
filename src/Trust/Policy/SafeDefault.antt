-- ===== src/Trust/Policy/SafeDefault.antt =====
-- The policy that holds where no policy file is given.
use local_agent.Base.{
  String, ◌≡◌, refl, Bool, false, Option, none, [], ◌∷◌, arith, Bool-cases, inl, inr, str_eq,
  str_eq_comm, eq_iff,
}
use local_agent.Json.{Value}
use local_agent.Types.{
  SideEffects, filesystem_read, filesystem_write, shell_exec, tool_side_effects,
}
use local_agent.Trust.Policy.{
  PolicyDecision, allow, deny, require_approval, CompiledRule, exact, Policy, evaluate,
}

abbrev safe_rule : String → PolicyDecision → CompiledRule
safe_rule name decision = record {
  tool_pattern = name;
  tool = exact name;
  decision = decision;
  when = [];
  reason = none;
  source = record { path = "safe_default" };
}

unfoldable pub safe_default : Policy
safe_default = record {
  default = deny;
  version = 1;
  includes_resolved = [];
  mcp_allow = none;
  taint = none;
  rules =
      safe_rule "list_dir" allow
      ∷ safe_rule "read_file" allow
      ∷ safe_rule "glob" allow
      ∷ safe_rule "grep" allow
      ∷ safe_rule "shell" require_approval
      ∷ safe_rule "write_file" require_approval
      ∷ safe_rule "apply_patch" require_approval
      ∷ safe_rule "edit" require_approval
      ∷ safe_rule "str_replace" require_approval
      ∷ [];
}

-- Reading is allowed, writing and the shell want an approval, and all else is denied.
abbrev pub safe_decision : SideEffects → PolicyDecision
safe_decision filesystem_read = allow
safe_decision filesystem_write = require_approval
safe_decision shell_exec = require_approval
safe_decision _ = deny

abbrev Decides : (String → Option (String → Bool)) → Value → String → Type 0
Decides glob_new args tool =
    (evaluate glob_new safe_default tool args).decision ≡ safe_decision (tool_side_effects tool)

-- A tool of the table is settled by running the code on its name.
module _ (glob_new : String → Option (String → Bool)) (args : Value) (tool : String) where
  by_name :
      (name : String)
      → Decides glob_new args name
      → (str_eq tool name ≡ false → Decides glob_new args tool)
      → Decides glob_new args tool
  by_name name here other = elim (Bool-cases (str_eq tool name)) [
    | inl e ↦ rw ((eq_iff tool name).0 e) here
    | inr e ↦ other e
  ]

  -- Any other tool is denied, whether it is an MCP tool or unknown.
  other_tool :
      str_eq tool "update_plan" ≡ false
      → str_eq tool "list_dir" ≡ false
      → str_eq tool "read_file" ≡ false
      → str_eq tool "glob" ≡ false
      → str_eq tool "grep" ≡ false
      → str_eq tool "shell" ≡ false
      → str_eq tool "write_file" ≡ false
      → str_eq tool "apply_patch" ≡ false
      → str_eq tool "edit" ≡ false
      → str_eq tool "str_replace" ≡ false
      → Decides glob_new args tool
  unfolding safe_default evaluate tool_side_effects
  other_tool e0 e1 e2 e3 e4 e5 e6 e7 e8 e9 =
      simp
        (
          e0,
          e1,
          e2,
          e3,
          e4,
          e5,
          e6,
          e7,
          e8,
          e9,
          str_eq_comm "list_dir" tool,
          str_eq_comm "read_file" tool,
          str_eq_comm "glob" tool,
          str_eq_comm "grep" tool,
          str_eq_comm "shell" tool,
          str_eq_comm "write_file" tool,
          str_eq_comm "apply_patch" tool,
          str_eq_comm "edit" tool,
          str_eq_comm "str_replace" tool,
        )
        (ground arith)

-- The safe default decides by the side effects of the tool alone, whatever its arguments.
pub safe_default-decision :
    (glob_new : String → Option (String → Bool)) (tool : String) (args : Value)
    → (evaluate glob_new safe_default tool args).decision ≡ safe_decision (tool_side_effects tool)
unfolding safe_default evaluate tool_side_effects
safe_default-decision glob_new tool args =
    let on = by_name glob_new args tool in
    on "update_plan" refl λ e0. on "list_dir" refl λ e1. on "read_file" refl λ e2.
      on "glob" refl λ e3. on "grep" refl λ e4. on "shell" refl λ e5. on "write_file" refl λ e6.
        on "apply_patch" refl λ e7. on "edit" refl λ e8.
          on "str_replace" refl λ e9. other_tool glob_new args tool e0 e1 e2 e3 e4 e5 e6 e7 e8 e9
