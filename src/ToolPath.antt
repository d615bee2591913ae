-- ===== src/ToolPath.antt =====
-- `normalize_tool_path` of src/agent_impl_guard.rs: the form in which the guards of a run compare the
-- paths of tool calls.
pub mod Normal
pub mod Split
mod Tests
use Prim.Native.Char.{Char, code}
use Prim.Native.String.{[], ◌∷◌}
use Prim.Native.String
use local_agent.Base.{
  String, Bool, ◌||◌, List, ◌++◌, str_eq, if◌then◌else◌, ◌==◌, to_ascii_lowercase,
}
use mathlib.Core.List.{[], ◌∷◌}

abbrev pub is_separator : Char → Bool
is_separator c = code c == b'/' || code c == 92

abbrev pub add_char : Char → List String → List String
add_char c [] = (c ∷ []) ∷ []
add_char c (part ∷ parts) = (c ∷ part) ∷ parts

-- `path.split(['/', '\\'])`.
unfoldable pub split_path : String → List String
split_path [] = "" ∷ []
split_path (c ∷ s) =
    let parts = split_path s in if is_separator c then "" ∷ parts else add_char c parts

-- `Vec::pop`.
unfoldable pub pop : List String → List String
pop [] = []
pop (part ∷ []) = []
pop (part ∷ next ∷ parts) = part ∷ pop (next ∷ parts)

-- One round of the loop.
unfoldable pub push_part : List String → String → List String
push_part out part =
    if str_eq part "" || str_eq part "."
    then out
    else if str_eq part ".."
    then pop out
    else out ++ part ∷ []

unfoldable pub push_parts : List String → List String → List String
push_parts out [] = out
push_parts out (part ∷ parts) = push_parts (push_part out part) parts

-- `join("/")`.
unfoldable pub join_path : List String → String
join_path [] = ""
join_path (part ∷ []) = part
join_path (part ∷ next ∷ parts) = String.◌++◌ part (String.◌++◌ "/" (join_path (next ∷ parts)))

abbrev pub finish_path : List String → String
finish_path [] = "."
finish_path (part ∷ parts) = to_ascii_lowercase (join_path (part ∷ parts))

unfoldable pub normalize_tool_path : String → String
unfolding split_path push_parts push_part pop join_path
normalize_tool_path path = finish_path (push_parts [] (split_path path))
