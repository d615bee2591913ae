-- ===== src/Base/Chars.antt =====
-- The characters of a text, and the decimal text of a number.
use Prim.Native.Nat.{ℕ, zero, suc, ◌/◌, ◌%◌, compare}
use Prim.Native.String.{String, [], ◌∷◌, slice, ◌++◌}
use text.Mathlib.Text.{is_lt}
use local_agent.Base.Tests.{if◌then◌else◌}

-- `chars().take(n).collect()`.
abbrev pub take_chars : ℕ → String → String
take_chars zero s = []
take_chars (suc n) [] = []
take_chars (suc n) (c ∷ s) = c ∷ take_chars n s

-- A number as `format!` prints it. The fuel of the loop is the number itself, which has fewer
-- digits.
unfoldable digits_onto : ℕ → ℕ → String
digits_onto zero n = slice "0123456789" n (suc n)
digits_onto (suc fuel) n =
    let rest = digits_onto fuel (n / 10) in
    let digit = slice "0123456789" (n % 10) (suc (n % 10)) in
    if is_lt (compare n 10) then digit else rest ++ digit

unfoldable pub decimal : ℕ → String
unfolding digits_onto
decimal n = digits_onto n n
