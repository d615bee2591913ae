-- ===== src/ToolPath/Normal.antt =====
-- The normal form of a path: normalizing again changes nothing.
use Prim.Native.Char.{Char}
use Prim.Native.String.{[], ◌∷◌}
use Prim.Native.String
use Prim.Native.String.append
use mathlib.Core.List.{[], ◌∷◌}
use local_agent.Base.{
  String, ◌≡◌, refl, sym, ap, ◌∙◌, false, List, map, All, arith, str_eq, eq_iff, Bool-cases, inl,
  inr, to_ascii_lowercase, lower_char, lower_char-code, to_ascii_lowercase_idem, Uncased,
  to_ascii_lowercase-eq,
}
use local_agent.ToolPath.{
  is_separator, split_path, push_part, push_parts, join_path, finish_path, normalize_tool_path,
}
use local_agent.ToolPath.Split.{
  IsPart, NoSeparator, push_parts-IsPart, push_parts-append, split_path-NoSeparator,
  split_path-join_path,
}

-- Lower case goes into the parts.
to_ascii_lowercase-append :
    (s t : String)
    → to_ascii_lowercase (String.◌++◌ s t)
      ≡ String.◌++◌ (to_ascii_lowercase s) (to_ascii_lowercase t)
unfolding to_ascii_lowercase
to_ascii_lowercase-append [] t = rw (append.nil t) (sym (append.nil (to_ascii_lowercase t)))
to_ascii_lowercase-append (c ∷ s) t =
    rw (append.cons c s t, append.cons (lower_char c) (to_ascii_lowercase s) (to_ascii_lowercase t))
      (ap (λ (r : String). lower_char c ∷ r) (to_ascii_lowercase-append s t))

to_ascii_lowercase_slash : to_ascii_lowercase "/" ≡ "/"
unfolding to_ascii_lowercase
to_ascii_lowercase_slash = refl

to_ascii_lowercase-join_path :
    (parts : List String)
    → to_ascii_lowercase (join_path parts) ≡ join_path (map to_ascii_lowercase parts)
unfolding join_path
to_ascii_lowercase-join_path [] = unfold to_ascii_lowercase in refl
to_ascii_lowercase-join_path (part ∷ []) = refl
to_ascii_lowercase-join_path (part ∷ next ∷ parts) =
    to_ascii_lowercase-append part (String.◌++◌ "/" (join_path (next ∷ parts)))
    ∙ rw
        (
          to_ascii_lowercase-append "/" (join_path (next ∷ parts)),
          to_ascii_lowercase_slash,
          to_ascii_lowercase-join_path (next ∷ parts),
        )
        refl

is_separator-lower_char : (c : Char) → is_separator (lower_char c) ≡ is_separator c
is_separator-lower_char c = rw (
  lower_char-code c b'/' (inl (omega arith)),
  lower_char-code c 92 (inr (omega arith, omega arith)),
)

NoSeparator-to_ascii_lowercase : (s : String) → NoSeparator s → NoSeparator (to_ascii_lowercase s)
unfolding to_ascii_lowercase
NoSeparator-to_ascii_lowercase [] h = tt
NoSeparator-to_ascii_lowercase (c ∷ s) (h, rest) =
    (is_separator-lower_char c ∙ h, NoSeparator-to_ascii_lowercase s rest)

str_eq-to_ascii_lowercase :
    (s t : String) → Uncased t → str_eq s t ≡ false → str_eq (to_ascii_lowercase s) t ≡ false
str_eq-to_ascii_lowercase s t h differ = elim (Bool-cases (str_eq (to_ascii_lowercase s) t)) [
  | inl e ↦
      let same = to_ascii_lowercase-eq s t h ((eq_iff (to_ascii_lowercase s) t).0 e) in
      absurd (cc ((eq_iff s t).1 same))
  | inr e ↦ e
]

IsPart-to_ascii_lowercase : (part : String) → IsPart part → IsPart (to_ascii_lowercase part)
IsPart-to_ascii_lowercase part p = record {
  no_separator = NoSeparator-to_ascii_lowercase part p.no_separator;
  not_empty = str_eq-to_ascii_lowercase part "" tt p.not_empty;
  not_dot = str_eq-to_ascii_lowercase part "." (omega arith) p.not_dot;
  not_dots = str_eq-to_ascii_lowercase part ".." (omega arith) p.not_dots;
}

All-to_ascii_lowercase :
    (parts : List String) → All IsPart parts → All IsPart (map to_ascii_lowercase parts)
All-to_ascii_lowercase [] h = tt
All-to_ascii_lowercase (part ∷ parts) (first, rest) =
    (IsPart-to_ascii_lowercase part first, All-to_ascii_lowercase parts rest)

All-NoSeparator : (parts : List String) → All IsPart parts → All NoSeparator parts
All-NoSeparator [] h = tt
All-NoSeparator (part ∷ parts) (first, rest) = (first.no_separator, All-NoSeparator parts rest)

map-to_ascii_lowercase_idem :
    (parts : List String)
    → map to_ascii_lowercase (map to_ascii_lowercase parts) ≡ map to_ascii_lowercase parts
map-to_ascii_lowercase_idem [] = refl
map-to_ascii_lowercase_idem (part ∷ parts) =
    cc (to_ascii_lowercase_idem part, map-to_ascii_lowercase_idem parts)

-- The parts of a path, as the loop leaves them.
abbrev parts_of : String → List String
parts_of path = push_parts [] (split_path path)

-- The parts of what is put together of parts in lower case are these parts.
parts_of-join_path :
    (part : String) (parts : List String)
    → All IsPart (part ∷ parts)
    → parts_of (join_path (part ∷ parts)) ≡ part ∷ parts
parts_of-join_path part parts h =
    let bare = All-NoSeparator (part ∷ parts) h in
    rw (split_path-join_path part parts bare.0 bare.1) (push_parts-append [] (part ∷ parts) h)

parts_of_dot : finish_path (parts_of ".") ≡ "."
unfolding split_path push_parts push_part
parts_of_dot = refl

finish_path_idem :
    (parts : List String)
    → All IsPart parts
    → finish_path (parts_of (finish_path parts)) ≡ finish_path parts
finish_path_idem [] h = parts_of_dot
finish_path_idem (part ∷ parts) h =
    let low = All-to_ascii_lowercase (part ∷ parts) h in
    rw
      (
        to_ascii_lowercase-join_path (part ∷ parts),
        parts_of-join_path (to_ascii_lowercase part) (map to_ascii_lowercase parts) low,
        to_ascii_lowercase-join_path (map to_ascii_lowercase (part ∷ parts)),
        map-to_ascii_lowercase_idem (part ∷ parts),
      )
      refl

-- A normalized path is its own normal form.
pub normalize_tool_path_idem :
    (path : String) → normalize_tool_path (normalize_tool_path path) ≡ normalize_tool_path path
unfolding normalize_tool_path
normalize_tool_path_idem path =
    finish_path_idem (parts_of path)
      (push_parts-IsPart [] (split_path path) (split_path-NoSeparator path) tt)
