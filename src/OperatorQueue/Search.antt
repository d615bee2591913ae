-- ===== src/OperatorQueue/Search.antt =====
-- The search of `select_deliverable_index` in a queue whose sequence numbers ascend.
use native.Mathlib.Nat.{add-zero}
use local_agent.Base.{
  ℕ, zero, suc, ◌+◌, ◌≤◌, ◌≡◌, refl, ◌∙◌, sym, ap, ◌⊎◌, inl, inr, Bool, true, false, none, some,
  List, [], ◌∷◌, ◌++◌, arith, get_elem?, remove_at, filter, Bool-cases,
}
use local_agent.OperatorQueue.{QueuedOperatorMessage, PendingMessageQueue, earliest}

-- From `lo` on the sequence numbers grow strictly, and they stay below `hi`.
abbrev pub Ascending : ℕ → List QueuedOperatorMessage → ℕ → Type 0
Ascending lo [] hi = lo ≤ hi
Ascending lo (m ∷ ms) hi = (lo ≤ m.sequence_no) × Ascending (suc m.sequence_no) ms hi

abbrev pub IsOrdered : PendingMessageQueue → Type 0
IsOrdered q = Ascending 0 q.pending q.next_sequence_no

pub Ascending-weaken :
    (lo lo' hi : ℕ) (ms : List QueuedOperatorMessage)
    → lo' ≤ lo
    → Ascending lo ms hi
    → Ascending lo' ms hi
Ascending-weaken lo lo' hi [] h a = omega arith
Ascending-weaken lo lo' hi (m ∷ ms) h a = (omega arith, a.1)

pub Ascending-append :
    (lo hi hi' : ℕ) (ms : List QueuedOperatorMessage) (m : QueuedOperatorMessage)
    → Ascending lo ms hi
    → m.sequence_no ≡ hi
    → suc hi ≤ hi'
    → Ascending lo (ms ++ m ∷ []) hi'
Ascending-append lo hi hi' [] m a e h = (omega arith, omega arith)
Ascending-append lo hi hi' (n ∷ ms) m a e h =
    (a.0, Ascending-append (suc n.sequence_no) hi hi' ms m a.1 e h)

pub Ascending-remove_at :
    (lo hi : ℕ) (ms : List QueuedOperatorMessage) (i : ℕ)
    → Ascending lo ms hi
    → Ascending lo (remove_at ms i) hi
Ascending-remove_at lo hi [] i a = a
Ascending-remove_at lo hi (m ∷ ms) zero a =
    Ascending-weaken (suc m.sequence_no) lo hi ms (omega arith) a.1
Ascending-remove_at lo hi (m ∷ ms) (suc i) a =
    (a.0, Ascending-remove_at (suc m.sequence_no) hi ms i a.1)

-- Once a message is found, later ones have larger numbers and do not replace it.
earliest_stays :
    (p : QueuedOperatorMessage → Bool) (idx i least hi : ℕ) (ms : List QueuedOperatorMessage)
    → Ascending (suc least) ms hi
    → earliest p idx (some (i, least)) ms ≡ some (i, least)
unfolding earliest
earliest_stays p idx i least hi [] a = refl
earliest_stays p idx i least hi (m ∷ ms) a =
    let rest =
      earliest_stays p (suc idx) i least hi ms
        (Ascending-weaken (suc m.sequence_no) (suc least) hi ms (omega arith) a.1) in
    ground (arith, rest)

-- `earliest_index` on a list with ascending numbers: nothing passes the test, or the index is that
-- of the first message that does.
pub record Found (p : QueuedOperatorMessage → Bool) (idx : ℕ) (ms : List QueuedOperatorMessage)
    (i : ℕ) (m : QueuedOperatorMessage) : Type 0 where
  pub at : get_elem? ms i ≡ some m
  pub passes : p m ≡ true
  pub first : filter p ms ≡ m ∷ filter p (remove_at ms i)
  pub others :
      (r : QueuedOperatorMessage → Bool) → r m ≡ false → filter r (remove_at ms i) ≡ filter r ms

abbrev pub Search : (QueuedOperatorMessage → Bool) → ℕ → List QueuedOperatorMessage → Type 0
Search p idx ms =
    ((earliest p idx none ms ≡ none) × (filter p ms ≡ []))
    ⊎ ((i : ℕ) × (m : QueuedOperatorMessage) × (earliest p idx none ms
          ≡ some (idx + i, m.sequence_no))
        × Found p idx ms i m)

Search-here :
    (p : QueuedOperatorMessage → Bool) (idx hi : ℕ) (m : QueuedOperatorMessage)
    (ms : List QueuedOperatorMessage)
    → Ascending (suc m.sequence_no) ms hi
    → p m ≡ true
    → Search p idx (m ∷ ms)
unfolding earliest
Search-here p idx hi m ms a e = inr (
  zero,
  m,
  rw e (
      earliest_stays p (suc idx) idx m.sequence_no hi ms a
      ∙ ap (λ k. some (k, m.sequence_no)) (sym (add-zero idx))),
  record { at = refl; passes = e; first = rw e; others = λ r h. rw h },
)

Search-later :
    (p : QueuedOperatorMessage → Bool) (idx : ℕ) (m : QueuedOperatorMessage)
    (ms : List QueuedOperatorMessage)
    → p m ≡ false
    → Search p (suc idx) ms
    → Search p idx (m ∷ ms)
unfolding earliest
Search-later p idx m ms e (inl (h, k)) = inl (ground arith, ground arith)
Search-later p idx m ms e (inr (i, n, h, f)) = inr (
  suc i,
  n,
  ground arith,
  record {
    at = f.at;
    passes = f.passes;
    first = ground (arith, f.first);
    others = λ r k. ground (arith, f.others r k);
  },
)

pub searches :
    (p : QueuedOperatorMessage → Bool) (idx lo hi : ℕ) (ms : List QueuedOperatorMessage)
    → Ascending lo ms hi
    → Search p idx ms
unfolding earliest
searches p idx lo hi [] a = inl (refl, refl)
searches p idx lo hi (m ∷ ms) a = elim (Bool-cases (p m)) [
  | inl e ↦ Search-here p idx hi m ms a.1 e
  | inr e ↦ Search-later p idx m ms e (searches p (suc idx) (suc m.sequence_no) hi ms a.1)
]
