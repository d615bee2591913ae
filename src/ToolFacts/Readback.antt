-- ===== src/ToolFacts/Readback.antt =====
-- What a run has to have read where the guard of an implementation lets it end.
use local_agent.Base.{
  String, ◌≡◌, refl, ◌↔◌, Bool, true, false, not, ◌&&◌, ◌||◌, List, [], ◌∷◌, ◌++◌, any, arith,
  str_eq, has, has-set_insert, has-set_remove, Bool-cases, inl, inr, ◌⊎◌,
}
use local_agent.ToolFacts.{ToolFact, read, write, shell, validation}
use local_agent.ToolFacts.Guard.{
  pending_after, pending_from, pending_post_write_verification_paths_from_facts,
}

-- A successful read of the path, and a successful write to it.
abbrev pub reads : String → ToolFact → Bool
reads path (read _ _ _ there ok) = ok && str_eq there path
reads path (write _ _ _ _ _ _) = false
reads path (shell _ _ _ _) = false
reads path (validation _ _ _ _) = false

abbrev pub writes : String → ToolFact → Bool
writes path (write _ _ _ there ok _) = ok && str_eq there path
writes path (read _ _ _ _ _) = false
writes path (shell _ _ _ _) = false
writes path (validation _ _ _ _) = false

-- The path was written, and has not been read since.
abbrev pub AwaitsReadback : String → List ToolFact → Type 0
AwaitsReadback path facts =
    (before : List ToolFact) × (written : ToolFact) × (after : List ToolFact) × (facts
      ≡ before ++ written ∷ after)
    × (writes path written ≡ true)
    × (any (reads path) after ≡ false)

has-pending_after :
    (path : String) (pending : List String) (fact : ToolFact)
    → has path (pending_after pending fact)
      ≡ (writes path fact || not (reads path fact) && has path pending)
unfolding pending_after
has-pending_after path pending (read n id tool there ok) =
    ground (arith, has-set_remove there path pending)
has-pending_after path pending (write n id tool there ok changed) =
    ground (arith, has-set_insert there path pending)
has-pending_after path pending (shell n id command ok) = ground arith
has-pending_after path pending (validation n id command ok) = ground arith

has-pending_from-unread :
    (path : String) (pending : List String) (facts : List ToolFact)
    → has path pending ≡ true
    → any (reads path) facts ≡ false
    → has path (pending_from pending facts) ≡ true
unfolding pending_from
has-pending_from-unread path pending [] h unread = h
has-pending_from-unread path pending (fact ∷ facts) h unread =
    has-pending_from-unread path (pending_after pending fact) facts
      (ground (arith, has-pending_after path pending fact)) (ground arith)

AwaitsReadback-pending :
    (path : String) (pending : List String) (before after : List ToolFact) (written : ToolFact)
    → writes path written ≡ true
    → any (reads path) after ≡ false
    → has path (pending_from pending (before ++ written ∷ after)) ≡ true
unfolding pending_from
AwaitsReadback-pending path pending [] after written h unread =
    has-pending_from-unread path (pending_after pending written) after
      (ground (arith, has-pending_after path pending written)) unread
AwaitsReadback-pending path pending (fact ∷ before) after written h unread =
    AwaitsReadback-pending path (pending_after pending fact) before after written h unread

pending-AwaitsReadback :
    (path : String) (pending : List String) (facts : List ToolFact)
    → has path (pending_from pending facts) ≡ true
    → AwaitsReadback path facts ⊎ (has path pending ≡ true) × (any (reads path) facts ≡ false)
unfolding pending_from
pending-AwaitsReadback path pending [] h = inr (h, refl)
pending-AwaitsReadback path pending (fact ∷ facts) h =
    elim (pending-AwaitsReadback path (pending_after pending fact) facts h) [
      | inl (before, written, after, e, wrote, unread) ↦
          inl (fact ∷ before, written, after, cc, wrote, unread)
      | inr (there, unread) ↦ elim (Bool-cases (writes path fact)) [
        | inl wrote ↦ inl ([], fact, facts, refl, wrote, unread)
        | inr other ↦ inr (
          ground (arith, has-pending_after path pending fact),
          ground (arith, has-pending_after path pending fact),
        )
      ]
    ]

-- A path waits for a readback exactly where it was written successfully and not read successfully
-- since, whatever the facts are.
pub pending-Awaits :
    (path : String) (facts : List ToolFact)
    → (has path (pending_post_write_verification_paths_from_facts facts) ≡ true)
      ↔ AwaitsReadback path facts
unfolding pending_post_write_verification_paths_from_facts
pending-Awaits path facts = (
  λ h. elim (pending-AwaitsReadback path [] facts h) [ inl awaits ↦ awaits | inr (never, _) ↦ cc ],
  λ (before, written, after, e, wrote, unread).
      rw e (AwaitsReadback-pending path [] before after written wrote unread),
)
