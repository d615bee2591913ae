-- ===== src/OperatorQueue/Truncate.antt =====
-- `truncate_utf8_to_bytes` of src/operator_queue.rs.
use local_agent.Base.{
  ℕ, zero, suc, ◌≤◌, min, String, len, slice, ltb, ◌≡◌, ◌⊎◌, inl, inr, true, leb, arith, Bool-cases,
}
use native.Mathlib.Nat.{le_refl}
use text.Mathlib.Text.{is_char_boundary}
use text.Mathlib.TextPositions.{boundary-zero}
use text.Mathlib.TextEquality.{slice-prefix}
use text.Mathlib.TextBridge.{IsPrefix}
use text.Mathlib.TextLemmas.{append-nil}
use local_agent.OperatorQueue.{back_to_boundary, truncate_utf8_to_bytes}

-- The loop stops at a boundary, at or below its start.
back_to_boundary-boundary :
    (s : String) (n : ℕ)
    → (is_char_boundary s (back_to_boundary s n) ≡ true) × (back_to_boundary s n ≤ n)
unfolding back_to_boundary
back_to_boundary-boundary s zero = (boundary-zero s, le_refl zero)
back_to_boundary-boundary s (suc n) =
    let (at, below) = back_to_boundary-boundary s n in
    elim (Bool-cases (is_char_boundary s (suc n))) [
      | inl e ↦ rw e (e, le_refl (suc n))
      | inr e ↦ rw e (at, omega arith)
    ]

-- No boundary between the result and the start is passed over.
back_to_boundary_maximal :
    (s : String) (n i : ℕ) → i ≤ n → is_char_boundary s i ≡ true → i ≤ back_to_boundary s n
unfolding back_to_boundary
back_to_boundary_maximal s zero i h b = h
back_to_boundary_maximal s (suc n) i h b = elim (Bool-cases (is_char_boundary s (suc n))) [
  | inl e ↦ rw e h
  | inr e ↦ elim (le-suc-cases h) [
    | inl below ↦ rw e (back_to_boundary_maximal s n i below b)
    | inr same ↦ cc
  ]
]
  where
    le-suc-cases : i ≤ suc n → (i ≤ n) ⊎ (i ≡ suc n)
    le-suc-cases h = omega arith

-- What is taken up to a boundary has that many bytes.
len-slice : (s : String) (i : ℕ) → is_char_boundary s i ≡ true → len (slice s 0 i) ≡ i
len-slice s i b = ground arith

-- The text that is kept is a prefix of the input, has at most `max_bytes` bytes, and ends at the
-- last character boundary of the input that fits; the flag says whether the input was longer.
pub truncate_utf8_to_bytes_longest :
    (s : String) (max_bytes : ℕ)
    → IsPrefix (truncate_utf8_to_bytes s max_bytes).0 s
      × (len (truncate_utf8_to_bytes s max_bytes).0 ≤ max_bytes)
      × ((i : ℕ)
          → i ≤ max_bytes
          → i ≤ len s
          → is_char_boundary s i ≡ true
          → i ≤ len (truncate_utf8_to_bytes s max_bytes).0)
      × ((truncate_utf8_to_bytes s max_bytes).1 ≡ ltb max_bytes (len s))
unfolding truncate_utf8_to_bytes
truncate_utf8_to_bytes_longest s max_bytes =
    let stop = back_to_boundary s (min max_bytes (len s)) in
    let (at, below) = back_to_boundary-boundary s (min max_bytes (len s)) in
    elim (Bool-cases (leb (len s) max_bytes)) [
      | inl e ↦ rw e (("", append-nil s), ground arith, λ i h k b. k, ground arith)
      | inr e ↦ rw e (
        slice-prefix s stop,
        rw (len-slice s stop at) (omega arith),
        λ i h k b.
            rw (len-slice s stop at)
              (back_to_boundary_maximal s (min max_bytes (len s)) i (omega arith) b),
        ground arith,
      )
    ]
