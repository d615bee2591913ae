-- ===== src/Base/Ascii.antt =====
-- `to_ascii_lowercase` and `to_ascii_uppercase` of a text, by its characters.
use Prim.Native.Nat.{ℕ, ◌+◌, ◌-◌, ◌<◌}
use Prim.Native.Char.{Char, char, code, IsScalar}
use Prim.Native.String.{String, [], ◌∷◌}
use mathlib.Core.Path.{◌≡◌, refl, sym, ap, ◌∙◌}
use mathlib.Core.Bool.{Bool, false, ◌&&◌, ◌||◌}
use mathlib.Core.Logic.{dite, dif_pos, dif_neg, ◌⊎◌, inl, inr}
use native.Mathlib.Omega.{arith}
use native.Mathlib.Decide.{dec_le}
use native.Mathlib.Bridge.{le_prop}
use local_agent.Base.Tests.{if◌then◌else◌, leb, ◌==◌, Bool-cases}

IsScalar-below : (n : ℕ) → n < 55296 → IsScalar n
IsScalar-below n h = ground arith

unfoldable pub lower_char : Char → Char
unfolding dec_le IsScalar-below
lower_char c =
    dite (dec_le 65 (code c))
      (λ low.
        dite (dec_le (code c) 90)
          (λ high. char (code c + 32) (IsScalar-below (code c + 32) (omega arith))) λ _. c)
      λ _. c

unfoldable pub to_ascii_lowercase : String → String
unfolding lower_char
to_ascii_lowercase [] = []
to_ascii_lowercase (c ∷ s) = lower_char c ∷ to_ascii_lowercase s

unfoldable pub upper_char : Char → Char
unfolding dec_le IsScalar-below
upper_char c =
    dite (dec_le 97 (code c))
      (λ low.
        dite (dec_le (code c) 122)
          (λ high. char (code c - 32) (IsScalar-below (code c - 32) (omega arith))) λ _. c)
      λ _. c

unfoldable pub to_ascii_uppercase : String → String
unfolding upper_char
to_ascii_uppercase [] = []
to_ascii_uppercase (c ∷ s) = upper_char c ∷ to_ascii_uppercase s

code-lower_char :
    (c : Char)
    → code (lower_char c) ≡ (if leb 65 (code c) && leb (code c) 90 then code c + 32 else code c)
unfolding lower_char
code-lower_char c = elim (dec_le 65 (code c)) [
  | yes low ↦ elim (dec_le (code c) 90) [
    | yes high ↦ rw (dif_pos _ le_prop low, dif_pos _ le_prop high) (ground arith)
    | no high ↦ rw (dif_pos _ le_prop low, dif_neg _ high) (ground arith)
  ]
  | no low ↦ rw (dif_neg _ low) (ground arith)
]

-- A character that is no capital letter is kept.
lower_char-keeps : (c : Char) → (leb 65 (code c) && leb (code c) 90) ≡ false → lower_char c ≡ c
unfolding lower_char
lower_char-keeps c h = elim (dec_le 65 (code c)) [
  | yes low ↦ elim (dec_le (code c) 90) [
    | yes high ↦ ground arith
    | no high ↦ rw (dif_pos _ le_prop low, dif_neg _ high)
  ]
  | no low ↦ rw (dif_neg _ low)
]

pub lower_char_idem : (c : Char) → lower_char (lower_char c) ≡ lower_char c
lower_char_idem c =
    lower_char-keeps (lower_char c) (let e = code-lower_char c in rw e (ground arith))

-- No letter is made into, or made from, a character below the letters or between their cases.
pub lower_char-code :
    (c : Char) (n : ℕ) → n < 65 ⊎ (90 < n) × (n < 97) → (code (lower_char c) == n) ≡ (code c == n)
lower_char-code c n h = rw (code-lower_char c) (ground arith)

pub to_ascii_lowercase_idem :
    (s : String) → to_ascii_lowercase (to_ascii_lowercase s) ≡ to_ascii_lowercase s
unfolding to_ascii_lowercase
to_ascii_lowercase_idem [] = refl
to_ascii_lowercase_idem (c ∷ s) = rw (lower_char_idem c, to_ascii_lowercase_idem s)

-- What has no letters in lower case is the lower case of itself alone.
lower_char-eq : (c d : Char) → code d < 97 → lower_char c ≡ d → c ≡ d
lower_char-eq c d h e = elim (Bool-cases (leb 65 (code c) && leb (code c) 90)) [
  | inl capital ↦ absurd (let f = code-lower_char c in let g = ap code e in ground arith)
  | inr other ↦ sym (lower_char-keeps c other) ∙ e
]

abbrev pub Uncased : String → Type 0
Uncased [] = Unit
Uncased (c ∷ s) = (code c < 97) × Uncased s

pub to_ascii_lowercase-eq : (s t : String) → Uncased t → to_ascii_lowercase s ≡ t → s ≡ t
unfolding to_ascii_lowercase
to_ascii_lowercase-eq [] [] h e = refl
to_ascii_lowercase-eq [] (d ∷ t) h e = cc
to_ascii_lowercase-eq (c ∷ s) [] h e = cc
to_ascii_lowercase-eq (c ∷ s) (d ∷ t) (first, rest) e =
    ground (arith, lower_char-eq c d first, to_ascii_lowercase-eq s t rest)

abbrev pub is_capital : Char → Bool
is_capital c = leb 65 (code c) && leb (code c) 90

abbrev pub has_capital : String → Bool
has_capital [] = false
has_capital (c ∷ s) = is_capital c || has_capital s

lower_char-is_capital : (c : Char) → is_capital (lower_char c) ≡ false
lower_char-is_capital c = let e = code-lower_char c in rw e (ground arith)

pub to_ascii_lowercase-has_capital : (s : String) → has_capital (to_ascii_lowercase s) ≡ false
unfolding to_ascii_lowercase
to_ascii_lowercase-has_capital [] = refl
to_ascii_lowercase-has_capital (c ∷ s) =
    ground (arith, lower_char-is_capital c, to_ascii_lowercase-has_capital s)
