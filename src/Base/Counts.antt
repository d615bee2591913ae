-- ===== src/Base/Counts.antt =====
-- How often a text stands in a list, and lists that are compared by it.
use Prim.Native.Nat.{ℕ, suc, ◌+◌, ◌≤◌, ◌<◌}
use Prim.Native.String.{String}
use mathlib.Core.Path.{◌≡◌, refl}
use mathlib.Core.Logic.{inl, inr}
use mathlib.Core.Bool.{Bool, true, false}
use mathlib.Core.List.{List, [], ◌∷◌, ◌++◌}
use native.Mathlib.Omega.{arith}
use text.Mathlib.TextEquality.{eq_iff}
use text.Mathlib.TextPositions.{eq_refl}
use local_agent.Base.Tests.{if◌then◌else◌, Bool-cases}
use local_agent.Base.Lists.{length, any}
use local_agent.Base.Texts.{str_eq, str_lt}

abbrev pub one_if : Bool → ℕ
one_if true = 1
one_if false = 0

unfoldable pub occurrences : String → List String → ℕ
occurrences src [] = 0
occurrences src (x ∷ xs) = one_if (str_eq x src) + occurrences src xs

pub occurrences-append :
    (v : String) (xs ys : List String)
    → occurrences v (xs ++ ys) ≡ occurrences v xs + occurrences v ys
unfolding occurrences
occurrences-append v [] ys = omega arith
occurrences-append v (x ∷ xs) ys = omega (arith, occurrences-append v xs ys)

-- `slice::sort` on texts: equal texts keep their order.
unfoldable pub insert_sorted : String → List String → List String
insert_sorted x [] = x ∷ []
insert_sorted x (y ∷ ys) =
    let later = insert_sorted x ys in if str_lt y x then y ∷ later else x ∷ y ∷ ys

unfoldable pub sort : List String → List String
unfolding insert_sorted
sort [] = []
sort (x ∷ xs) = insert_sorted x (sort xs)

occurrences-insert_sorted :
    (v x : String) (ys : List String)
    → occurrences v (insert_sorted x ys) ≡ one_if (str_eq x v) + occurrences v ys
unfolding occurrences insert_sorted
occurrences-insert_sorted v x [] = refl
occurrences-insert_sorted v x (y ∷ ys) = ground (arith, occurrences-insert_sorted v x ys)

pub occurrences-sort : (v : String) (xs : List String) → occurrences v (sort xs) ≡ occurrences v xs
unfolding occurrences sort
occurrences-sort v [] = refl
occurrences-sort v (x ∷ xs) =
    omega (arith, occurrences-insert_sorted v x (sort xs), occurrences-sort v xs)

remove_first : String → List String → List String
remove_first x [] = []
remove_first x (y ∷ ys) = let later = remove_first x ys in if str_eq y x then ys else y ∷ later

remove_first-occurrences :
    (v x : String) (ys : List String)
    → 0 < occurrences x ys
    → occurrences v ys ≡ one_if (str_eq x v) + occurrences v (remove_first x ys)
unfolding occurrences remove_first
remove_first-occurrences v x [] h = absurd (omega arith)
remove_first-occurrences v x (y ∷ ys) h = elim (Bool-cases (str_eq y x)) [
  | inl e ↦ rw (e, (eq_iff y x).0 e) refl
  | inr e ↦ let ih = remove_first-occurrences v x ys (ground arith) in rw e (omega arith)
]

length-remove_first :
    (x : String) (ys : List String)
    → 0 < occurrences x ys
    → length ys ≡ suc (length (remove_first x ys))
unfolding occurrences remove_first
length-remove_first x [] h = absurd (omega arith)
length-remove_first x (y ∷ ys) h = ground (arith, length-remove_first x ys)

-- A list that has no text more often than another is no longer, and where it is as long, it has each
-- text as often.
pub length_of_occurrences :
    (xs ys : List String)
    → ((v : String) → occurrences v xs ≤ occurrences v ys)
    → length xs ≤ length ys
unfolding occurrences
length_of_occurrences [] ys h = omega arith
length_of_occurrences (x ∷ xs) ys h =
    let there : 0 < occurrences x ys = (let k = h x in ground (arith, eq_refl x)) in
    let shorter = length-remove_first x ys there in
    let ih =
      length_of_occurrences xs (remove_first x ys)
        λ v. (let a = h v in let b = remove_first-occurrences v x ys there in omega arith) in
    omega arith

pub occurrences_of_length :
    (xs ys : List String)
    → ((v : String) → occurrences v xs ≤ occurrences v ys)
    → length ys ≤ length xs
    → (v : String) → occurrences v xs ≡ occurrences v ys
unfolding occurrences
occurrences_of_length [] [] h l v = refl
occurrences_of_length [] (y ∷ ys) h l v = absurd (omega arith)
occurrences_of_length (x ∷ xs) ys h l v =
    let there : 0 < occurrences x ys = (let k = h x in ground (arith, eq_refl x)) in
    let shorter = length-remove_first x ys there in
    let ih =
      occurrences_of_length xs (remove_first x ys)
        (λ w. (let a = h w in let b = remove_first-occurrences w x ys there in omega arith))
        (omega arith) v in
    let b = remove_first-occurrences v x ys there in omega arith

pub any-occurrences :
    (v : String) (xs : List String) → 0 < occurrences v xs → any (λ p. str_eq p v) xs ≡ true
unfolding occurrences
any-occurrences v [] h = absurd (omega arith)
any-occurrences v (x ∷ xs) h = ground (arith, any-occurrences v xs)

pub occurrences-any :
    (v : String) (xs : List String) → any (λ p. str_eq p v) xs ≡ true → 0 < occurrences v xs
unfolding occurrences
occurrences-any v [] h = cc
occurrences-any v (x ∷ xs) h = ground (arith, occurrences-any v xs)
