-- ===== src/ToolPath/Split.antt =====
-- The parts that the loop of a path keeps, and the splitting of what is put together of them.
use Prim.Native.Char.{Char}
use Prim.Native.String.{[], ◌∷◌}
use Prim.Native.String
use Prim.Native.String.append
use mathlib.Core.List.{[], ◌∷◌}
use mathlib.Core.List
use local_agent.Base.{
  String, ◌≡◌, refl, sym, ap, ◌∙◌, false, List, ◌++◌, All, All-append, str_eq, Bool-cases, inl, inr,
}
use local_agent.ToolPath.{is_separator, add_char, split_path, pop, push_part, push_parts, join_path}

abbrev pub NoSeparator : String → Type 0
NoSeparator [] = Unit
NoSeparator (c ∷ s) = (is_separator c ≡ false) × NoSeparator s

-- A part that the loop keeps.
pub record IsPart (part : String) : Type 0 where
  pub no_separator : NoSeparator part
  pub not_empty : str_eq part "" ≡ false
  pub not_dot : str_eq part "." ≡ false
  pub not_dots : str_eq part ".." ≡ false

-- What `split_path` puts out.
add_char-NoSeparator :
    (c : Char) (parts : List String)
    → is_separator c ≡ false
    → All NoSeparator parts
    → All NoSeparator (add_char c parts)
add_char-NoSeparator c [] h all = ((h, tt), tt)
add_char-NoSeparator c (part ∷ parts) h (first, rest) = ((h, first), rest)

pub split_path-NoSeparator : (s : String) → All NoSeparator (split_path s)
unfolding split_path
split_path-NoSeparator [] = (tt, tt)
split_path-NoSeparator (c ∷ s) = elim (Bool-cases (is_separator c)) [
  | inl e ↦ rw e (tt, split_path-NoSeparator s)
  | inr e ↦ rw e (add_char-NoSeparator c (split_path s) e (split_path-NoSeparator s))
]

-- What the loop keeps.
pop-IsPart : (out : List String) → All IsPart out → All IsPart (pop out)
unfolding pop
pop-IsPart [] h = tt
pop-IsPart (part ∷ []) h = tt
pop-IsPart (part ∷ next ∷ parts) (first, rest) = (first, pop-IsPart (next ∷ parts) rest)

push_part-IsPart :
    (out : List String) (part : String)
    → NoSeparator part
    → All IsPart out
    → All IsPart (push_part out part)
unfolding push_part
push_part-IsPart out part no_separator h = elim (Bool-cases (str_eq part "")) [
  | inl e ↦ rw e h
  | inr not_empty ↦ elim (Bool-cases (str_eq part ".")) [
    | inl e ↦ rw (not_empty, e) h
    | inr not_dot ↦ elim (Bool-cases (str_eq part "..")) [
      | inl e ↦ rw (not_empty, not_dot, e) (pop-IsPart out h)
      | inr not_dots ↦
          rw (not_empty, not_dot, not_dots)
            (All-append IsPart out (part ∷ []) h (
              record {
                no_separator = no_separator;
                not_empty = not_empty;
                not_dot = not_dot;
                not_dots = not_dots;
              },
              tt,
            ))
    ]
  ]
]

pub push_parts-IsPart :
    (out parts : List String)
    → All NoSeparator parts
    → All IsPart out
    → All IsPart (push_parts out parts)
unfolding push_parts
push_parts-IsPart out [] all h = h
push_parts-IsPart out (part ∷ parts) (first, rest) h =
    push_parts-IsPart (push_part out part) parts rest (push_part-IsPart out part first h)

-- A part that is kept is pushed.
push_part-append :
    (out : List String) (part : String) → IsPart part → push_part out part ≡ out ++ part ∷ []
unfolding push_part
push_part-append out part p = rw (p.not_empty, p.not_dot, p.not_dots)

pub push_parts-append :
    (out parts : List String) → All IsPart parts → push_parts out parts ≡ out ++ parts
unfolding push_parts
push_parts-append out [] h = sym (List.append-nil out)
push_parts-append out (part ∷ parts) (first, rest) =
    rw (push_part-append out part first)
      (push_parts-append (out ++ part ∷ []) parts rest ∙ List.append_assoc out (part ∷ []) parts)

-- Splitting what was joined.
abbrev slash : Char
slash = "/"

split_path-one : (part : String) → NoSeparator part → split_path part ≡ part ∷ []
unfolding split_path
split_path-one [] h = refl
split_path-one (c ∷ s) (h, rest) = rw (h, split_path-one s rest) refl

split_path-append :
    (part s : String)
    → NoSeparator part
    → split_path (String.◌++◌ part (String.◌++◌ "/" s)) ≡ part ∷ split_path s
unfolding split_path
split_path-append [] s h =
    rw (append.nil (String.◌++◌ "/" s), append.cons slash [] s, append.nil s) refl
split_path-append (c ∷ part) s (h, rest) =
    rw (append.cons c part (String.◌++◌ "/" s), h, split_path-append part s rest) refl

pub split_path-join_path :
    (part : String) (parts : List String)
    → NoSeparator part
    → All NoSeparator parts
    → split_path (join_path (part ∷ parts)) ≡ part ∷ parts
unfolding join_path
split_path-join_path part [] h all = split_path-one part h
split_path-join_path part (next ∷ parts) h (first, rest) =
    split_path-append part (join_path (next ∷ parts)) h
    ∙ ap (λ (ps : List String). part ∷ ps) (split_path-join_path next parts first rest)
