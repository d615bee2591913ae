-- ===== src/Base/TextOrder.antt =====
-- The order of texts is strict and total, as a `BTreeMap` wants it of its keys.
use Prim.Native.String.compare
use Prim.Native.String.{String, [], ◌∷◌}
use mathlib.Core.Path.{◌≡◌}
use mathlib.Core.Bool.{true, false}
use native.Mathlib.Omega.{arith}
use text.Mathlib.TextPositions.{compare_refl}
use local_agent.Base.Texts.{str_eq, str_lt}

pub str_lt_irrefl : (s : String) → str_lt s s ≡ false
str_lt_irrefl s = rw (compare_refl s)

pub str_lt_trans : (s t u : String) → str_lt s t ≡ true → str_lt t u ≡ true → str_lt s u ≡ true
str_lt_trans [] [] u h k = cc
str_lt_trans [] (d ∷ t) [] h k = ground (arith, compare.cons-nil d t)
str_lt_trans [] (d ∷ t) (e ∷ u) h k = rw (compare.nil-cons e u)
str_lt_trans (c ∷ s) [] u h k = ground (arith, compare.cons-nil c s)
str_lt_trans (c ∷ s) (d ∷ t) [] h k = ground (arith, compare.cons-nil d t)
str_lt_trans (c ∷ s) (d ∷ t) (e ∷ u) h k = ground (
  arith,
  compare.cons-cons c d s t,
  compare.cons-cons d e t u,
  compare.cons-cons c e s u,
  str_lt_trans s t u,
)

pub str_lt_total : (s t : String) → str_eq s t ≡ false → str_lt s t ≡ false → str_lt t s ≡ true
str_lt_total [] [] h k = cc
str_lt_total [] (d ∷ t) h k = ground (arith, compare.nil-cons d t)
str_lt_total (c ∷ s) [] h k = rw (compare.nil-cons c s)
str_lt_total (c ∷ s) (d ∷ t) h k =
    ground (arith, compare.cons-cons c d s t, compare.cons-cons d c t s, str_lt_total s t)
