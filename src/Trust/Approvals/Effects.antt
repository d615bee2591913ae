-- ===== src/Trust/Approvals/Effects.antt =====
-- What each operation leaves on the disk: the same disk, one with a known change of the
-- requests, or none.
use local_agent.Base.{
  ◌-◌, String, ◌≡◌, refl, ap, inl, inr, Option, none, some, length, unwrap_or, Bool-cases, [],
}
use local_agent.Base.Assoc.{Assoc, insert, update, retain, contains_key}
use local_agent.Json.{Value}
use local_agent.Trust.Approvals.{
  ApprovalRequest, ApprovalsData, ApprovalProvenance, pending, approved, denied, with_requests,
  write_if_there, change_request, set_status, deny, keeps, prune, same_key, first_id, new_request,
  create_pending, auto_approved, approve_or_insert, ensure_approved_for_key, v1_provenance, Op,
  ◌>>=◌, pure, load_data, save_data, Disk, Clock,
}
use local_agent.Trust.Approvals.Consume.{
  requests_of, load_data-cases, save_data-cases, kept, lost, saved,
}

-- The disk is unchanged, its requests are `m`, or the store is lost.
pub data Leaves (d d' : Disk) (m : Assoc ApprovalRequest) : Type 0 where
  unchanged : d' ≡ d → Leaves d d' m
  changed : requests_of d' ≡ m → Leaves d d' m
  emptied : requests_of d' ≡ [] → Leaves d d' m

-- A block that loads, and saves changed requests.
module _ {ℓ} {A : Type ℓ} (d : Disk) where
  Leaves-load :
      (f : ApprovalsData → Op A) (m : Assoc ApprovalRequest)
      → ((stored : ApprovalsData) → stored.requests ≡ requests_of d → Leaves d (f stored d).1 m)
      → Leaves d ((load_data >>= f) d).1 m
  Leaves-load f m h = elim (load_data-cases d) [
    | inl (_, _, e) ↦ rw e (unchanged refl)
    | inr (stored, e, same) ↦ rw e (h stored same)
  ]

  Leaves-save :
      (stored : ApprovalsData) (a : A)
      → Leaves d ((save_data stored >>= λ _. pure a) d).1 stored.requests
  Leaves-save stored a = elim (save_data-cases stored d) [
    | kept _ e ↦ rw e (unchanged refl)
    | lost _ e ↦ rw e (emptied refl)
    | saved e ↦ rw e (changed refl)
  ]

module _ (d : Disk) where
  change_request-Leaves :
      (id : String) (change : ApprovalRequest → ApprovalRequest)
      → Leaves d (change_request id change d).1 (update id change (requests_of d))
  unfolding change_request
  change_request-Leaves id change =
      Leaves-load d (write_if_there id change) _ λ stored same. go stored same
    where
      go :
          (stored : ApprovalsData)
          → stored.requests ≡ requests_of d
          → Leaves d (write_if_there id change stored d).1 (update id change (requests_of d))
      go stored same = elim (Bool-cases (contains_key id stored.requests)) [
        | inr h ↦ rw h (unchanged refl)
        | inl h ↦
            rw h
              (elim (save_data-cases (with_requests stored (update id change stored.requests)) d) [
                | kept _ e ↦ rw e (unchanged refl)
                | lost _ e ↦ rw e (emptied refl)
                | saved e ↦ rw e (changed (ap (update id change) same))
              ])
      ]

  pub deny-Leaves :
      (id : String)
      → Leaves d (deny id d).1 (update id (λ req. record req { status = denied }) (requests_of d))
  unfolding deny set_status
  deny-Leaves id = change_request-Leaves id (λ req. record req { status = denied })

  pub prune-Leaves :
      (clock : Clock) → Leaves d (prune clock d).1 (retain (keeps clock) (requests_of d))
  unfolding prune
  prune-Leaves clock = Leaves-load d _ _ λ stored same. rw (← same) (
      Leaves-save d (with_requests stored (retain (keeps clock) stored.requests))
        (length stored.requests - length (retain (keeps clock) stored.requests)))

  pub create_pending-Leaves :
      (clock : Clock) (id tool : String) (arguments : Value) (key : Option String)
      (prov : Option ApprovalProvenance)
      → Leaves d (create_pending clock id tool arguments key prov d).1 (
          insert id
            (new_request clock tool arguments pending key (unwrap_or prov v1_provenance))
            (requests_of d))
  unfolding create_pending
  create_pending-Leaves clock id tool arguments key prov =
      Leaves-load d _ _ λ stored same. rw (← same) (Leaves-save d _ id)

  -- The request that the search found becomes approved, or a new one is put in.
  abbrev pub ensured :
      Clock
      → String
      → String
      → Value
      → String
      → ApprovalProvenance
      → Option String
      → Assoc ApprovalRequest
  ensured clock fresh tool arguments key prov (some id) = update id auto_approved (requests_of d)
  ensured clock fresh tool arguments key prov none =
      insert fresh (new_request clock tool arguments approved (some key) prov) (requests_of d)

  approve_or_insert-Leaves :
      (clock : Clock) (fresh tool : String) (arguments : Value) (key : String)
      (prov : ApprovalProvenance) (stored : ApprovalsData)
      → stored.requests ≡ requests_of d
      → (o : Option String)
      → Leaves d
          (approve_or_insert clock fresh tool arguments key prov stored o d).1
          (ensured clock fresh tool arguments key prov o)
  approve_or_insert-Leaves clock fresh tool arguments key prov stored same none =
      rw (← same) (Leaves-save d _ fresh)
  approve_or_insert-Leaves clock fresh tool arguments key prov stored same (some id) =
      rw (← same) (Leaves-save d _ id)

  pub ensure_approved_for_key-Leaves :
      (clock : Clock) (fresh tool : String) (arguments : Value) (key : String)
      (prov : Option ApprovalProvenance)
      → Leaves d (ensure_approved_for_key clock fresh tool arguments key prov d).1 (
          ensured clock fresh tool arguments key (unwrap_or prov v1_provenance) (
            first_id
              (same_key key (unwrap_or prov v1_provenance).approval_key_version)
              (requests_of d)))
  unfolding ensure_approved_for_key
  ensure_approved_for_key-Leaves clock fresh tool arguments key prov =
      let p = unwrap_or prov v1_provenance in
      let found = first_id (same_key key p.approval_key_version) in
      Leaves-load d _ _ λ stored same. rw (← same) (
        approve_or_insert-Leaves clock fresh tool arguments key p stored same
          (found stored.requests))
