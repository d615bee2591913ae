-- ===== src/Base/TextSet.antt =====
-- `BTreeSet<String>`: the texts in order, each once.
use Prim.Native.String.{String}
use mathlib.Core.Path.{◌≡◌, refl}
use mathlib.Core.Bool.{Bool, not, ◌&&◌, ◌||◌}
use mathlib.Core.List.{List, [], ◌∷◌}
use native.Mathlib.Omega.{arith}
use text.Mathlib.TextEquality.{eq_iff}
use local_agent.Base.Tests.{if◌then◌else◌}
use local_agent.Base.Lists.{any}
use local_agent.Base.Texts.{str_eq, str_lt}

-- `BTreeSet::contains`.
abbrev pub has : String → List String → Bool
has x ys = any (λ y. str_eq y x) ys

-- `BTreeSet::insert`.
unfoldable pub set_insert : String → List String → List String
set_insert x [] = x ∷ []
set_insert x (y ∷ ys) =
    let later = set_insert x ys in
    if str_eq y x then y ∷ ys else if str_lt x y then x ∷ y ∷ ys else y ∷ later

-- `BTreeSet::remove`.
unfoldable pub set_remove : String → List String → List String
set_remove x [] = []
set_remove x (y ∷ ys) = let later = set_remove x ys in if str_eq y x then later else y ∷ later

pub has-set_insert :
    (x z : String) (ys : List String) → has z (set_insert x ys) ≡ (str_eq x z || has z ys)
unfolding set_insert
has-set_insert x z [] = refl
has-set_insert x z (y ∷ ys) =
    ground (arith, has-set_insert x z ys, eq_iff y x, eq_iff x z, eq_iff y z)

pub has-set_remove :
    (x z : String) (ys : List String) → has z (set_remove x ys) ≡ (not (str_eq x z) && has z ys)
unfolding set_remove
has-set_remove x z [] = ground arith
has-set_remove x z (y ∷ ys) =
    ground (arith, has-set_remove x z ys, eq_iff y x, eq_iff x z, eq_iff y z)
