-- ===== src/TaskGraph/Order.antt =====
-- The loop of `topo_order`: what holds before each round, and how it ends.
use mathlib.Core.Path.{subst}
use mathlib.Core.List.{append_assoc, append-nil}
use local_agent.Base.{
  ℕ, zero, suc, ◌+◌, ◌-◌, ◌≤◌, ◌<◌, String, ◌≡◌, refl, ◌∙◌, ap, ◌⊎◌, inl, inr, Bool, true, false,
  none, some, List, [], ◌∷◌, ◌++◌, arith, ◌==◌, All, length, length-append, one_if, occurrences,
  occurrences-append, occurrences-sort, occurrences-any, length_of_occurrences, sort, eq_refl,
  Bool-cases,
}
use local_agent.Base.Assoc.{Assoc, lookup}
use local_agent.TaskGraph.{TaskNode, contains_id, ids_of, release, run_queue}
use local_agent.TaskGraph.Build.{deps_of, edges_at}
use local_agent.TaskGraph.Release.{
  remaining, remaining-push, remaining-zero, release-none, release-some,
}

-- Each id stands after all of its dependencies.
abbrev pub InOrder : List TaskNode → List String → List String → Type 0
InOrder nodes seen [] = Unit
InOrder nodes seen (v ∷ vs) =
    All (λ d. contains_id seen d ≡ true) (deps_of nodes v) × InOrder nodes (seen ++ v ∷ []) vs

InOrder-push :
    (nodes : List TaskNode) (seen vs : List String) (v : String)
    → InOrder nodes seen vs
    → All (λ d. contains_id (seen ++ vs) d ≡ true) (deps_of nodes v)
    → InOrder nodes seen (vs ++ v ∷ [])
InOrder-push nodes seen [] v o a =
    (subst (λ l. All (λ d. contains_id l d ≡ true) (deps_of nodes v)) (append-nil seen) a, tt)
InOrder-push nodes seen (w ∷ vs) v (first, o) a =
    (first, InOrder-push nodes (seen ++ w ∷ []) vs v o (rw (append_assoc seen (w ∷ []) vs) a))

module _ (nodes : List TaskNode) (edges : Assoc (List String)) where
  -- One node in a state of the loop: an id that no node has is nowhere; a node's number is that of
  -- its dependencies that are not put out, and it is in the queue or put out, once, where that is
  -- zero, and else nowhere.
  abbrev pub Placed : Assoc ℕ → List String → List String → String → Type 0
  Placed m q out v =
      ((contains_id (ids_of nodes) v ≡ false)
        × (lookup v m ≡ none)
        × (occurrences v q + occurrences v out ≡ 0))
      ⊎ ((contains_id (ids_of nodes) v ≡ true)
          × (lookup v m ≡ some (remaining out (deps_of nodes v)))
          × (occurrences v q + occurrences v out ≡ one_if (remaining out (deps_of nodes v) == 0)))

  module _
      (same : (u v : String)
        → occurrences v (edges_at u edges) ≡ occurrences u (deps_of nodes v)) where
    one_if-le : (b : Bool) → one_if b ≤ 1
    one_if-le true = omega arith
    one_if-le false = omega arith

    front-occurrences : (id : String) (q : List String) → 0 < occurrences id (id ∷ q)
    unfolding occurrences
    front-occurrences id q = ground (arith, eq_refl id)

    front_not_out :
        (m : Assoc ℕ) (id : String) (q out : List String)
        → Placed m (id ∷ q) out id
        → contains_id out id ≡ false
    unfolding occurrences
    front_not_out m id q out p = elim (Bool-cases (contains_id out id)) [
      | inr e ↦ e
      | inl e ↦
          let there = occurrences-any id out e in
          let front = front-occurrences id q in
          absurd (elim p [
            | inl (_, _, n) ↦ omega arith
            | inr (_, _, n) ↦
                (let k = one_if-le (remaining out (deps_of nodes id) == 0) in omega arith)
          ])
    ]

    -- A node at the front waits for nothing.
    front_ready :
        (m : Assoc ℕ) (id : String) (q out : List String)
        → Placed m (id ∷ q) out id
        → remaining out (deps_of nodes id) ≡ 0
    front_ready m id q out (inl (_, _, n)) = absurd (let k = front-occurrences id q in omega arith)
    front_ready m id q out (inr (_, _, n)) = let k = front-occurrences id q in ground arith

    pub Placed-occurrences :
        (m : Assoc ℕ) (q out : List String) (v : String)
        → Placed m q out v
        → occurrences v q + occurrences v out ≤ occurrences v (ids_of nodes)
    Placed-occurrences m q out v (inl (_, _, n)) = omega arith
    Placed-occurrences m q out v (inr (there, _, n)) =
        let k = occurrences-any v (ids_of nodes) there in
        let l = one_if-le (remaining out (deps_of nodes v) == 0) in omega arith

    Placed-step :
        (m : Assoc ℕ) (id : String) (q out : List String) (v : String)
        → contains_id out id ≡ false
        → Placed m (id ∷ q) out v
        → Placed
            (release (edges_at id edges) m q).0
            (sort (release (edges_at id edges) m q).1)
            (out ++ id ∷ [])
            v
    unfolding occurrences
    Placed-step m id q out v h (inl (outside, gone, n)) =
        let ns = edges_at id edges in
        let (gone', n') = release-none v ns m q gone in
        let s = occurrences-sort v (release ns m q).1 in
        let a = occurrences-append v out (id ∷ []) in inl (outside, gone', omega arith)
    Placed-step m id q out v h (inr (inside, at, n)) =
        let ns = edges_at id edges in
        let ds = deps_of nodes v in
        let r = remaining out ds in
        let pushed = remaining-push out id ds h in
        let c = same id v in
        let (at', n') = release-some v ns m q r at (omega arith) in
        let z : r - occurrences v ns ≡ remaining (out ++ id ∷ []) ds = omega arith in
        let s = occurrences-sort v (release ns m q).1 in
        let a = occurrences-append v out (id ∷ []) in
        let k = ap (λ x. one_if (x == 0)) z in inr (inside, at' ∙ ap some z, omega arith)

    -- What is queued or put out is a node, once, so the two lists are no longer than the nodes.
    pub Placed-length :
        (m : Assoc ℕ) (q out : List String)
        → ((v : String) → Placed m q out v)
        → length q + length out ≤ length (ids_of nodes)
    Placed-length m q out p =
        let bound =
          length_of_occurrences (q ++ out) (ids_of nodes)
            λ v. rw (occurrences-append v q out) (Placed-occurrences m q out v (p v)) in
        rw (← length-append q out) bound

    -- How the loop ends: every id is put out at most as often as a node has it, in order, and an id of
    -- a node that is not put out has a dependency that is not.
    pub record Ended (res : List String) : Type 0 where
      pub m : Assoc ℕ
      pub placed : (v : String) → Placed m [] res v
      pub order : InOrder nodes [] res

    pub run_queue-Ended :
        (fuel : ℕ) (m : Assoc ℕ) (q out : List String)
        → ((v : String) → Placed m q out v)
        → InOrder nodes [] out
        → length (ids_of nodes) ≤ fuel + length out
        → (res : List String) × (run_queue fuel edges m q out ≡ some res) × Ended res
    unfolding run_queue
    run_queue-Ended zero m [] out p o l = (out, refl, record { m = m; placed = p; order = o })
    run_queue-Ended (suc fuel) m [] out p o l = (out, refl, record { m = m; placed = p; order = o })
    run_queue-Ended zero m (id ∷ q) out p o l =
        absurd (let k = Placed-length m (id ∷ q) out p in omega arith)
    run_queue-Ended (suc fuel) m (id ∷ q) out p o l =
        let h = front_not_out m id q out (p id) in
        let r = release (edges_at id edges) m q in
        run_queue-Ended fuel r.0 (sort r.1) (out ++ id ∷ []) (λ v. Placed-step m id q out v h (p v))
          (InOrder-push nodes [] out id o
            (remaining-zero out (deps_of nodes id) (front_ready m id q out (p id))))
          (let a = length-append out (id ∷ []) in omega arith)
