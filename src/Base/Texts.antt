-- ===== src/Base/Texts.antt =====
-- Tests on texts. `==` on texts is `str_eq` here, since `==` is the test on numbers.
use Prim.Native.String.{String, find, len, compare, ◌++◌}
use mathlib.Core.List.{List, [], ◌∷◌}
use mathlib.Core.Path.{◌≡◌}
use native.Mathlib.Omega.{arith}
use text.Mathlib.TextEquality.{eq_iff}
use mathlib.Core.Bool.{Bool, false}
use mathlib.Core.Option.{Option, none, some}
use text.Mathlib.Text.{◌==◌ as text_eq, starts_with as text_starts_with, is_le, is_lt}
use Prim.Native.Nat.{compare as compare_ℕ}

abbrev pub str_eq : String → String → Bool
str_eq = text_eq

abbrev pub starts_with : String → String → Bool
starts_with = text_starts_with

-- `str::contains`.
abbrev pub contains : String → String → Bool
contains s t = is_le (compare_ℕ (find s t) (len s))

-- `Option<&str> == Some(&str)`.
abbrev pub is_text : Option String → String → Bool
is_text none t = false
is_text (some s) t = text_eq s t

-- The order of `str`, by which a `BTreeMap` holds its keys.
abbrev pub str_lt : String → String → Bool
str_lt s t = is_lt (compare s t)

pub str_eq_comm : (s t : String) → str_eq s t ≡ str_eq t s
str_eq_comm s t = ground (arith, eq_iff s t, eq_iff t s)

-- What `format!` puts together.
abbrev pub concat : List String → String
concat [] = ""
concat (s ∷ ss) = s ++ concat ss
