-- ===== src/TaskGraph/Release.antt =====
-- What the inner loop of `topo_order` does to one node, and what is left of its dependencies.
use local_agent.Base.{
  ℕ, ◌+◌, ◌-◌, ◌≤◌, ◌<◌, String, ◌≡◌, refl, ◌∙◌, inl, inr, Bool, true, false, not, ◌||◌, Option,
  none, some, List, [], ◌∷◌, ◌++◌, arith, ◌==◌, All, length, one_if, occurrences,
  occurrences-append, str_eq, eq_iff, eq_refl, Bool-cases, if◌then◌else◌,
}
use local_agent.Base.Assoc.{Assoc, lookup, lookup-update}
use local_agent.TaskGraph.{contains_id, release_at, release}

-- How many of the dependencies are not put out.
unfoldable pub remaining : List String → List String → ℕ
remaining out [] = 0
remaining out (d ∷ ds) = one_if (not (contains_id out d)) + remaining out ds

pub contains_id-push :
    (out : List String) (id d : String)
    → contains_id (out ++ id ∷ []) d ≡ (contains_id out d || str_eq id d)
contains_id-push [] id d = ground arith
contains_id-push (x ∷ out) id d = ground (arith, contains_id-push out id d)

pub remaining-push :
    (out : List String) (id : String) (ds : List String)
    → contains_id out id ≡ false
    → remaining (out ++ id ∷ []) ds + occurrences id ds ≡ remaining out ds
unfolding remaining occurrences
remaining-push out id [] h = omega arith
remaining-push out id (d ∷ ds) h = elim (Bool-cases (str_eq d id)) [
  | inl e ↦
      let same = (eq_iff d id).0 e in
      let ih = remaining-push out id ds h in
      rw (contains_id-push out id d, e, same, h, eq_refl id) (omega arith)
  | inr e ↦
      let ih = remaining-push out id ds h in
      let other : str_eq id d ≡ false = ground (arith, eq_iff id d, eq_iff d id) in
      ground (arith, contains_id-push out id d)
]

pub remaining-nil : (ds : List String) → remaining [] ds ≡ length ds
unfolding remaining
remaining-nil [] = refl
remaining-nil (d ∷ ds) = omega (arith, remaining-nil ds)

pub remaining-held :
    (out ds : List String) → All (λ d. contains_id out d ≡ true) ds → remaining out ds ≡ 0
unfolding remaining
remaining-held out [] h = refl
remaining-held out (d ∷ ds) (first, h) = ground (arith, remaining-held out ds h)

pub remaining-zero :
    (out ds : List String) → remaining out ds ≡ 0 → All (λ d. contains_id out d ≡ true) ds
unfolding remaining
remaining-zero out [] h = tt
remaining-zero out (d ∷ ds) h = (ground arith, remaining-zero out ds (omega arith))

-- One round, seen from another node and from the node itself.
queue_if-other :
    (v n : String) (b : Bool) (q : List String)
    → str_eq n v ≡ false
    → occurrences v (if b then q ++ n ∷ [] else q) ≡ occurrences v q
unfolding occurrences
queue_if-other v n false q h = refl
queue_if-other v n true q h = ground (arith, occurrences-append v q (n ∷ []))

queue_if-here :
    (v : String) (b : Bool) (q : List String)
    → occurrences v (if b then q ++ v ∷ [] else q) ≡ occurrences v q + one_if b
unfolding occurrences
queue_if-here v false q = omega arith
queue_if-here v true q = ground (arith, occurrences-append v q (v ∷ []), eq_refl v)

release_at-other :
    (v n : String) (o : Option ℕ) (m : Assoc ℕ) (q : List String)
    → str_eq n v ≡ false
    → (lookup v (release_at o n m q).0 ≡ lookup v m)
      × (occurrences v (release_at o n m q).1 ≡ occurrences v q)
release_at-other v n none m q h = (refl, refl)
release_at-other v n (some d) m q h =
    (ground (arith, lookup-update n v (λ k. k - 1) m), queue_if-other v n (d - 1 == 0) q h)

release_at-here :
    (v : String) (m : Assoc ℕ) (q : List String) (d : ℕ)
    → lookup v m ≡ some d
    → (lookup v (release_at (some d) v m q).0 ≡ some (d - 1))
      × (occurrences v (release_at (some d) v m q).1 ≡ occurrences v q + one_if (d - 1 == 0))
release_at-here v m q d h =
    (ground (arith, lookup-update v v (λ k. k - 1) m, eq_refl v), queue_if-here v (d - 1 == 0) q)

release-key :
    (n : String) (ns : List String) (m : Assoc ℕ) (q : List String) (o : Option ℕ)
    → lookup n m ≡ o
    → release (n ∷ ns) m q ≡ release ns (release_at o n m q).0 (release_at o n m q).1
unfolding release
release-key n ns m q o h = rw (← h) refl

release-stops :
    (v : String) (m : Assoc ℕ) (q : List String)
    → lookup v m ≡ none
    → (lookup v (release [] m q).0 ≡ none) × (occurrences v (release [] m q).1 ≡ occurrences v q)
unfolding release
release-stops v m q h = (h, refl)

-- A node that is no key is not queued.
pub release-none :
    (v : String) (ns : List String) (m : Assoc ℕ) (q : List String)
    → lookup v m ≡ none
    → (lookup v (release ns m q).0 ≡ none) × (occurrences v (release ns m q).1 ≡ occurrences v q)
release-none v [] m q h = release-stops v m q h
release-none v (n ∷ ns) m q h = elim (Bool-cases (str_eq n v)) [
  | inl e ↦
      let same = (eq_iff n v).0 e in
      rw (same, release-key v ns m q none h) (release-none v ns m q h)
  | inr e ↦
      let r = release_at (lookup n m) n m q in
      let (kept, queued) = release_at-other v n (lookup n m) m q e in
      let (gone, rest) = release-none v ns r.0 r.1 (kept ∙ h) in
      rw (release-key n ns m q (lookup n m) refl) (gone, rest ∙ queued)
]

zero_counts : (r : ℕ) → 0 < r → one_if (r == 0) ≡ 0
zero_counts r h = ground arith

-- The number of a node falls by its edges, which are no more than it; and the node is queued once
-- where it was not zero and is zero now.
pub release-some :
    (v : String) (ns : List String) (m : Assoc ℕ) (q : List String) (r : ℕ)
    → lookup v m ≡ some r
    → occurrences v ns ≤ r
    → (lookup v (release ns m q).0 ≡ some (r - occurrences v ns))
      × (occurrences v (release ns m q).1 + one_if (r == 0)
          ≡ occurrences v q + one_if (r - occurrences v ns == 0))
unfolding release occurrences
release-some v [] m q r h fits = let z : r - 0 ≡ r = omega arith in (rw z h, rw z refl)
release-some v (n ∷ ns) m q r h fits = elim (Bool-cases (str_eq n v)) [
  | inl e ↦
      let same = (eq_iff n v).0 e in
      let d = release_at (some r) v m q in
      let (less, queued) = release_at-here v m q r h in
      let fits' : 1 + occurrences v ns ≤ r = ground arith in
      let (falls, rest) = release-some v ns d.0 d.1 (r - 1) less (omega arith) in
      let z : r - (1 + occurrences v ns) ≡ r - 1 - occurrences v ns = omega arith in
      let c = zero_counts r (omega arith) in
      rw (same, release-key v ns m q (some r) h, eq_refl v, z) (falls, omega arith)
  | inr e ↦
      let d = release_at (lookup n m) n m q in
      let (kept, queued) = release_at-other v n (lookup n m) m q e in
      let (falls, rest) = release-some v ns d.0 d.1 r (kept ∙ h) (ground arith) in
      let z : r - (0 + occurrences v ns) ≡ r - occurrences v ns = omega arith in
      rw (release-key n ns m q (lookup n m) refl, e, z) (falls, omega arith)
]
