-- ===== src/Gate/Key.antt =====
-- src/gate/helpers.rs: the key under which an approval holds, and the arguments that the policy sees.
-- `sha2`, `serde_json::to_string` and `std::fs::canonicalize` are the parameter `KeyEnv`.
use local_agent.Base.{
  String, ◌≡◌, Option, some, [], ◌∷◌, arith, concat, unwrap_or, str_eq, if◌then◌else◌,
}
use local_agent.Json.{
  Value, text, object, Fields, end, get_str, insert_field, get, as_str, get_field-insert_field,
  canonicalize_value,
}
use local_agent.Gate.{ExecTargetKind, ApprovalKeyVersion, v1, v2, target_str}

-- `sha256_hex` is the hash of a text in hexadecimal; `to_string` fails as `serde_json` may.
pub record KeyEnv : Type 0 where
  pub sha256_hex : String → String
  pub to_string : Value → Option String
  pub canonicalize : String → Option String

-- The fields of the arguments, or none where they are no object.
abbrev pub fields_of : Value → Fields
fields_of (object fs) = fs
fields_of _ = end

unfoldable pub with_exec_target_arg : Value → ExecTargetKind → Value
unfolding insert_field
with_exec_target_arg args target =
    object (insert_field "__exec_target" (text (target_str target)) (fields_of args))

module _ (env : KeyEnv) where
  unfoldable pub canonical_json : Value → Option String
  unfolding canonicalize_value
  canonical_json value = env.to_string (canonicalize_value value)

  unfoldable pub normalize_workdir : String → String
  normalize_workdir path = unwrap_or (env.canonicalize path) path

  unfoldable pub compute_approval_key : String → Value → String → String → String
  unfolding canonical_json normalize_workdir
  compute_approval_key tool_name arguments workdir policy_hash = env.sha256_hex (
      concat (
        "v1\n"
        ∷ tool_name
        ∷ "\n"
        ∷ unwrap_or (canonical_json arguments) "null"
        ∷ "\n"
        ∷ normalize_workdir workdir
        ∷ "\n"
        ∷ policy_hash
        ∷ "\n"
        ∷ []))

  unfoldable pub v2_payload :
      String
      → Value
      → String
      → String
      → Option String
      → Option String
      → ExecTargetKind
      → Option String
      → String
  unfolding canonical_json normalize_workdir
  v2_payload tool_name arguments workdir policy_hash schema hooks target planner = concat (
      "v2|tool="
      ∷ tool_name
      ∷ "|args="
      ∷ unwrap_or (canonical_json arguments) "null"
      ∷ "|workdir="
      ∷ normalize_workdir workdir
      ∷ "|policy="
      ∷ policy_hash
      ∷ "|schema="
      ∷ unwrap_or schema "none"
      ∷ "|hooks="
      ∷ unwrap_or hooks "none"
      ∷ "|exec_target="
      ∷ target_str target
      ∷ "|planner="
      ∷ unwrap_or planner "none"
      ∷ [])

  unfoldable pub compute_approval_key_with_version :
      ApprovalKeyVersion
      → String
      → Value
      → String
      → String
      → Option String
      → Option String
      → ExecTargetKind
      → Option String
      → String
  unfolding compute_approval_key v2_payload
  compute_approval_key_with_version v1 tool_name arguments workdir policy_hash schema hooks target
        planner =
      compute_approval_key tool_name arguments workdir policy_hash
  compute_approval_key_with_version v2 tool_name arguments workdir policy_hash schema hooks target
        planner =
      env.sha256_hex
        (v2_payload tool_name arguments workdir policy_hash schema hooks target planner)

-- A condition on `__exec_target` sees the target of the run, whatever the model wrote there, and a
-- condition on any other argument sees the argument of an object as it is.
pub get_str-with_exec_target_arg :
    (args : Value) (target : ExecTargetKind) (k : String)
    → get_str (with_exec_target_arg args target) k ≡ (
        if str_eq "__exec_target" k
        then some (target_str target)
        else get_str (object (fields_of args)) k)
unfolding get_str with_exec_target_arg get as_str
get_str-with_exec_target_arg args target k =
    ground
      (arith, get_field-insert_field "__exec_target" k (text (target_str target)) (fields_of args))
