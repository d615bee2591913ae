-- ===== src/Trust/Approvals/Uses.antt =====
-- The uses of one request over a run of operations of src/trust/approvals.rs.
use native.Mathlib.Nat.{add-zero}
use local_agent.Base.{
  ℕ, ◌+◌, ◌≤◌, String, ◌≡◌, refl, inl, inr, false, Option, none, some, List, [], ◌∷◌, arith, All,
  str_eq, u32_max, unwrap_or, Bool-cases, if◌then◌else◌,
}
use local_agent.Base.Assoc.{Assoc, lookup, IsMap}
use local_agent.Json.{Value}
use local_agent.Trust.Approvals.{
  ApprovalRequest, ApprovedUsage, ApprovalProvenance, Result, ok, err, Disk, Clock, deny, keeps,
  prune, create_pending, auto_approved, ensure_approved_for_key, consume_matching_approved,
}
use local_agent.Trust.Approvals.Consume.{
  requests_of, Consumed, failed, lost_store, nothing, took, consume-Consumed,
}
use local_agent.Trust.Approvals.Tracks.{
  Tracks, Tracks-retain, Tracks-update, Tracks-insert, Tracks-Leaves, Tracks-take_other,
  Tracks-take_this,
}
use local_agent.Trust.Approvals.Effects.{
  Leaves, deny-Leaves, prune-Leaves, create_pending-Leaves, ensured, ensure_approved_for_key-Leaves,
}

-- The operations of the store that a run performs, with their arguments; `approve`, by which the
-- operator sets a new limit, is left out.
pub data Action : Type 0 where
  use_key : Clock → (key version : String) → Action
  deny_id : String → Action
  prune_at : Clock → Action
  make_pending :
      Clock → (fresh tool : String) → Value → Option String → Option ApprovalProvenance → Action
  auto_approve : Clock → (fresh tool : String) → Value → String → Option ApprovalProvenance → Action

abbrev pub grant_of : String → Result (Option ApprovedUsage) → ℕ
grant_of id (ok (some usage)) = if str_eq usage.id id then 1 else 0
grant_of id (ok none) = 0
grant_of id (err e) = 0

-- How often the action granted a use of `id`, and the disk that it leaves.
unfoldable pub act : String → Action → Disk → ℕ × Disk
act id (use_key clock key version) d =
    let r = consume_matching_approved clock key version d in (grant_of id r.0, r.1)
act id (deny_id j) d = (0, (deny j d).1)
act id (prune_at clock) d = (0, (prune clock d).1)
act id (make_pending clock fresh tool args key prov) d =
    (0, (create_pending clock fresh tool args key prov d).1)
act id (auto_approve clock fresh tool args key prov) d =
    (0, (ensure_approved_for_key clock fresh tool args key prov d).1)

pub grants : String → List Action → Disk → ℕ
grants id [] d = 0
grants id (a ∷ actions) d = (act id a d).0 + grants id actions (act id a d).1

-- A `Uuid` that an action brings is not `id`.
abbrev pub IsFresh : String → Action → Type 0
IsFresh id (make_pending clock fresh tool args key prov) = str_eq fresh id ≡ false
IsFresh id (auto_approve clock fresh tool args key prov) = str_eq fresh id ≡ false
IsFresh id _ = Unit

module _ (id : String) (max : ℕ) where
  abbrev StepKeeps : ℕ → ℕ × Disk → Type 0
  StepKeeps u r = (u + r.0 ≤ max) × Tracks id max (u + r.0) (requests_of r.1)

  still :
      (u : ℕ) (d d' : Disk) (m : Assoc ApprovalRequest)
      → u ≤ max
      → Leaves d d' m
      → Tracks id max u (requests_of d)
      → Tracks id max u m
      → StepKeeps u (0, d')
  still u d d' m h l t t' = (omega arith, rw add-zero (Tracks-Leaves id max u d d' m l t t'))

  use_key-Tracks :
      (clock : Clock) (key version : String) (d : Disk) (u : ℕ)
      → max ≤ u32_max
      → u ≤ max
      → Tracks id max u (requests_of d)
      → (r : Result (Option ApprovedUsage) × Disk) → Consumed clock key version d r
      → StepKeeps u (grant_of id r.0, r.1)
  unfolding lookup
  use_key-Tracks clock key version d u top h t r (failed e _ same) =
      rw same (omega arith, rw add-zero t)
  use_key-Tracks clock key version d u top h t r (lost_store _ gone) =
      rw gone (omega arith, record { ordered = tt; state = inl refl })
  use_key-Tracks clock key version d u top h t r (nothing same _) =
      rw same (omega arith, rw add-zero t)
  use_key-Tracks clock key version d u top h t r (took j req same found usable changed) =
      elim (Bool-cases (str_eq j id)) [
        | inr other ↦
            rw (same, changed)
              (rw other
                (omega arith, rw add-zero (Tracks-take_other id max u j (requests_of d) other t)))
        | inl here ↦
            rw (same, changed)
              (rw here
                (Tracks-take_this id max u j req (requests_of d) top here found usable.uses_left t))
      ]

  ensured-Tracks :
      (u : ℕ) (d : Disk) (clock : Clock) (fresh tool : String) (args : Value) (key : String)
      (prov : ApprovalProvenance) (o : Option String)
      → str_eq fresh id ≡ false
      → Tracks id max u (requests_of d)
      → Tracks id max u (ensured d clock fresh tool args key prov o)
  ensured-Tracks u d clock fresh tool args key prov none f t =
      Tracks-insert id max u fresh _ (requests_of d) f t
  ensured-Tracks u d clock fresh tool args key prov (some j) f t =
      Tracks-update id max u j auto_approved (requests_of d) (λ req. (refl, ground arith)) t

  act-Tracks :
      (a : Action) (d : Disk) (u : ℕ)
      → max ≤ u32_max
      → u ≤ max
      → IsFresh id a
      → Tracks id max u (requests_of d)
      → StepKeeps u (act id a d)
  unfolding act
  act-Tracks (use_key clock key version) d u top h fresh t =
      use_key-Tracks clock key version d u top h t (consume_matching_approved clock key version d)
        (consume-Consumed clock key version d t.ordered)
  act-Tracks (deny_id j) d u top h fresh t =
      still u d _ _ h (deny-Leaves d j) t
        (Tracks-update id max u j _ (requests_of d) (λ req. (refl, refl)) t)
  act-Tracks (prune_at clock) d u top h fresh t =
      still u d _ _ h (prune-Leaves d clock) t
        (Tracks-retain id max u (keeps clock) (requests_of d) t)
  act-Tracks (make_pending clock j tool args key prov) d u top h fresh t =
      still u d _ _ h (create_pending-Leaves d clock j tool args key prov) t
        (Tracks-insert id max u j _ (requests_of d) fresh t)
  act-Tracks (auto_approve clock j tool args key prov) d u top h fresh t =
      still u d _ _ h (ensure_approved_for_key-Leaves d clock j tool args key prov) t
        (ensured-Tracks u d clock j tool args key _ _ fresh t)

  grants-Tracks :
      (actions : List Action) (d : Disk) (u : ℕ)
      → max ≤ u32_max
      → u ≤ max
      → All (IsFresh id) actions
      → Tracks id max u (requests_of d)
      → u + grants id actions d ≤ max
  unfolding grants
  grants-Tracks [] d u top h fresh t = omega arith
  grants-Tracks (a ∷ actions) d u top h (f, fresh) t =
      let (within, t') = act-Tracks a d u top h f t in
      omega (arith, grants-Tracks actions (act id a d).1 (u + (act id a d).0) top within fresh t')

-- A request with the limit `max` is granted at most as often as uses are left, in any run of uses
-- under any keys and clocks, denials, prunings and new requests under other ids, whether the disk
-- works or not. Only `approve`, which can set a new limit, is not among the actions.
pub grants-le-max_uses :
    (id : String) (max : ℕ) (req : ApprovalRequest) (actions : List Action) (d : Disk)
    → IsMap (requests_of d)
    → lookup id (requests_of d) ≡ some req
    → req.max_uses ≡ some max
    → max ≤ u32_max
    → unwrap_or req.uses 0 ≤ max
    → All (IsFresh id) actions
    → unwrap_or req.uses 0 + grants id actions d ≤ max
grants-le-max_uses id max req actions d o e l top h fresh =
    grants-Tracks id max actions d (unwrap_or req.uses 0) top h fresh
      (record { ordered = o; state = inr (req, e, l, refl) })
