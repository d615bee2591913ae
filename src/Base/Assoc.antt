-- ===== src/Base/Assoc.antt =====
-- `BTreeMap<String, V>` as an association list: `insert` keeps the order of the keys, by which the
-- code iterates.
use Prim.Native.String.{String}
use mathlib.Core.Path.{◌≡◌, refl}
use mathlib.Core.Bool.{Bool, true}
use mathlib.Core.Logic.{inl, inr}
use mathlib.Core.Option
use mathlib.Core.Option.{Option, none, some}
use mathlib.Core.List.{List, [], ◌∷◌, map}
use native.Mathlib.Omega.{arith}
use text.Mathlib.TextEquality.{eq_iff}
use local_agent.Base.Tests.{if◌then◌else◌, is_some, Bool-cases}
use local_agent.Base.Texts.{str_eq, str_lt, str_eq_comm}
use local_agent.Base.TextOrder.{str_lt_irrefl, str_lt_trans, str_lt_total}

abbrev pub Assoc {ℓ} : Type ℓ → Type ℓ
Assoc V = List (String × V)

module _ {ℓ} {V : Type ℓ} where
  -- `BTreeMap::insert`.
  unfoldable pub insert : String → V → Assoc V → Assoc V
  insert key value [] = (key, value) ∷ []
  insert key value ((other, old) ∷ rest) =
      if str_eq other key
      then (key, value) ∷ rest
      else if str_lt key other
      then (key, value) ∷ (other, old) ∷ rest
      else (other, old) ∷ insert key value rest

  -- `BTreeMap::get`.
  unfoldable pub lookup : String → Assoc V → Option V
  lookup key [] = none
  lookup key ((other, value) ∷ rest) = if str_eq other key then some value else lookup key rest

  -- `BTreeMap::get_mut` followed by a write; nothing happens where the key is missing.
  unfoldable pub update : String → (V → V) → Assoc V → Assoc V
  update k f [] = []
  update k f ((j, w) ∷ m) = if str_eq j k then (j, f w) ∷ m else (j, w) ∷ update k f m

  -- `BTreeMap::retain`.
  unfoldable pub retain : (V → Bool) → Assoc V → Assoc V
  retain p [] = []
  retain p ((j, w) ∷ m) = let rest = retain p m in if p w then (j, w) ∷ rest else rest

  abbrev pub contains_key : String → Assoc V → Bool
  contains_key k m = is_some (lookup k m)

  abbrev pub keys : Assoc V → List String
  keys m = map (λ e. e.0) m

  -- Reads after a write, whatever the order in which the keys stand.
  pub lookup-insert :
      (written read : String) (value : V) (entries : Assoc V)
      → lookup read (insert written value entries)
        ≡ (if str_eq written read then some value else lookup read entries)
  unfolding insert lookup
  lookup-insert written read value [] = refl
  lookup-insert written read value ((other, old) ∷ rest) = ground (
    arith,
    lookup-insert written read value rest,
    eq_iff written read,
    eq_iff other written,
    eq_iff other read,
  )

  pub lookup-update :
      (k j : String) (f : V → V) (m : Assoc V)
      → lookup j (update k f m) ≡ (if str_eq k j then Option.map f (lookup j m) else lookup j m)
  unfolding lookup update
  lookup-update k j f [] = ground arith
  lookup-update k j f ((i, w) ∷ m) =
      ground (arith, eq_iff k j, eq_iff i k, eq_iff i j, lookup-update k j f m)

  pub keys-update : (k : String) (f : V → V) (m : Assoc V) → keys (update k f m) ≡ keys m
  unfolding update
  keys-update k f [] = refl
  keys-update k f ((j, w) ∷ m) = ground (arith, keys-update k f m)

  -- The keys ascend, so none stands twice.
  abbrev pub Above : String → Assoc V → Type 0
  Above k [] = Unit
  Above k ((j, w) ∷ m) = (str_lt k j ≡ true) × Above k m

  abbrev pub IsMap : Assoc V → Type 0
  IsMap [] = Unit
  IsMap ((k, v) ∷ m) = Above k m × IsMap m

  -- The value, if it passes the test.
  abbrev pub only_if : (V → Bool) → Option V → Option V
  only_if p none = none
  only_if p (some v) = if p v then some v else none

  pub lookup-Above : (k : String) (m : Assoc V) → Above k m → lookup k m ≡ none
  unfolding lookup
  lookup-Above k [] h = refl
  lookup-Above k ((j, w) ∷ m) (h, rest) =
      ground (arith, lookup-Above k m rest, eq_iff j k, str_lt_irrefl k)

  Above-trans : (k j : String) (m : Assoc V) → str_lt k j ≡ true → Above j m → Above k m
  Above-trans k j [] h a = tt
  Above-trans k j ((i, w) ∷ m) h (a, rest) = (str_lt_trans k j i h a, Above-trans k j m h rest)

  Above-retain : (p : V → Bool) (k : String) (m : Assoc V) → Above k m → Above k (retain p m)
  unfolding retain
  Above-retain p k [] h = tt
  Above-retain p k ((j, w) ∷ m) (h, rest) = ground (arith, Above-retain p k m rest)

  Above-update :
      (k : String) (i : String) (f : V → V) (m : Assoc V) → Above k m → Above k (update i f m)
  unfolding update
  Above-update k i f [] h = tt
  Above-update k i f ((j, w) ∷ m) (h, rest) = ground (arith, Above-update k i f m rest)

  Above-insert :
      (k i : String) (v : V) (m : Assoc V) → str_lt k i ≡ true → Above k m → Above k (insert i v m)
  unfolding insert
  Above-insert k i v [] h a = (h, tt)
  Above-insert k i v ((j, w) ∷ m) h (a, rest) = ground (arith, Above-insert k i v m h rest)

  pub IsMap-retain : (p : V → Bool) (m : Assoc V) → IsMap m → IsMap (retain p m)
  unfolding retain
  IsMap-retain p [] h = tt
  IsMap-retain p ((j, v) ∷ m) (h, rest) =
      ground (arith, IsMap-retain p m rest, Above-retain p j m h)

  pub IsMap-update : (k : String) (f : V → V) (m : Assoc V) → IsMap m → IsMap (update k f m)
  unfolding update
  IsMap-update k f [] h = tt
  IsMap-update k f ((j, v) ∷ m) (h, rest) =
      ground (arith, IsMap-update k f m rest, Above-update j k f m h)

  pub IsMap-insert : (k : String) (v : V) (m : Assoc V) → IsMap m → IsMap (insert k v m)
  unfolding insert
  IsMap-insert k v [] h = (tt, tt)
  IsMap-insert k v ((j, w) ∷ m) (h, rest) = elim (Bool-cases (str_eq j k)) [
    | inl e ↦ rw e (let same = (eq_iff j k).0 e in (rw (← same) h, rest))
    | inr e ↦ elim (Bool-cases (str_lt k j)) [
      | inl l ↦ rw (e, l) ((l, Above-trans k j m l h), (h, rest))
      | inr g ↦
          rw (e, g)
            (
              Above-insert j k v m (str_lt_total k j (rw (str_eq_comm k j) e) g) h,
              IsMap-insert k v m rest,
            )
    ]
  ]

  -- What is kept is what passes the test, under the same keys.
  pub lookup-retain :
      (p : V → Bool) (k : String) (m : Assoc V)
      → IsMap m
      → lookup k (retain p m) ≡ only_if p (lookup k m)
  unfolding lookup retain
  lookup-retain p k [] h = refl
  lookup-retain p k ((j, v) ∷ m) (h, rest) = ground (
    arith,
    lookup-retain p k m rest,
    lookup-Above j m h,
    lookup-Above j (retain p m) (Above-retain p j m h),
    eq_iff j k,
  )
