-- ===== src/ToolPath/Tests.antt =====
-- Runs of src/agent_impl_guard.rs on concrete paths.
use local_agent.Base.{◌≡◌, refl, to_ascii_lowercase}
use local_agent.ToolPath.{normalize_tool_path}
use local_agent.ToolPath.Normal.{normalize_tool_path_idem}

normalize_mixed : normalize_tool_path "./Src\\a//../Main.rs" ≡ "src/main.rs"
unfolding normalize_tool_path to_ascii_lowercase
normalize_mixed = refl

normalize_above : normalize_tool_path "../x" ≡ "x"
unfolding normalize_tool_path to_ascii_lowercase
normalize_above = refl

normalize_nothing : normalize_tool_path "a/.." ≡ "."
unfolding normalize_tool_path to_ascii_lowercase
normalize_nothing = refl

normalize_tool_path_idem_example :
    normalize_tool_path (normalize_tool_path "./Src\\A.rs") ≡ normalize_tool_path "./Src\\A.rs"
normalize_tool_path_idem_example = normalize_tool_path_idem "./Src\\A.rs"
