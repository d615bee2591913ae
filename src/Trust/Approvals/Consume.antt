-- ===== src/Trust/Approvals/Consume.antt =====
-- `consume_matching_approved` of src/trust/approvals.rs: what it may take, and what it writes.
use local_agent.Base.{
  ◌∙◌, is_some, String, ◌≡◌, refl, ap, ◌⊎◌, inl, inr, Bool, true, false, Option, none, some, [],
  ◌∷◌, arith, eq_iff, Bool-cases, Option-cases,
}
use local_agent.Base.Assoc.{Assoc, lookup, update, IsMap, lookup-Above}
use local_agent.Trust.Approvals.Usable.{IsUsable, usable-IsUsable, IsUsable-usable}
use local_agent.Trust.Approvals.{
  ApprovalRequest, ApprovalsData, ApprovedUsage, Result, ok, err, StoreError, cannot_read,
  cannot_write, with_requests, take_id, Disk, Clock, load_data, save_data, empty_data, usable,
  first_id, count_use, consume_matching_approved, rename_again,
}

-- The requests that the store holds.
abbrev pub requests_of : Disk → Assoc ApprovalRequest
requests_of d = elim d.file [ none ↦ [] | some stored ↦ stored.requests ]

-- The search finds an entry of the map, and misses none.
first_id-found :
    (p : ApprovalRequest → Bool) (m : Assoc ApprovalRequest) (id : String)
    → IsMap m
    → first_id p m ≡ some id
    → (req : ApprovalRequest) × (lookup id m ≡ some req) × (p req ≡ true)
unfolding first_id lookup
first_id-found p [] id o h = cc
first_id-found p ((j, req) ∷ m) id (above, o) h = elim (Bool-cases (p req)) [
  | inl e ↦ (req, ground (arith, eq_iff j id), e)
  | inr e ↦
      let (r, found, passes) = first_id-found p m id o (ground arith) in
      (r, ground (arith, lookup-Above j m above, eq_iff j id), passes)
]

pub first_id-none :
    (p : ApprovalRequest → Bool) (m : Assoc ApprovalRequest) (id : String) (req : ApprovalRequest)
    → first_id p m ≡ none
    → lookup id m ≡ some req
    → p req ≡ false
unfolding first_id lookup
first_id-none p [] id req h k = cc
first_id-none p ((j, r) ∷ m) id req h k = ground (arith, first_id-none p m id req)

-- Reading gives the requests of the disk or fails, and leaves the disk as it was.
pub load_data-cases :
    (d : Disk)
    → (is_some d.file ≡ true) × (d.readable ≡ false) × (load_data d ≡ (err cannot_read, d))
      ⊎ ((stored : ApprovalsData) × (load_data d ≡ (ok stored, d))
          × (stored.requests ≡ requests_of d))
unfolding load_data
load_data-cases d = go d.file refl
  where
    go :
        (f : Option ApprovalsData)
        → d.file ≡ f
        → (is_some d.file ≡ true) × (d.readable ≡ false) × (load_data d ≡ (err cannot_read, d))
          ⊎ ((stored : ApprovalsData) × (load_data d ≡ (ok stored, d))
              × (stored.requests ≡ requests_of d))
    go none e = inr (empty_data, ground arith, ground arith)
    go (some stored) e = elim (Bool-cases d.readable) [
      | inl r ↦ inr (stored, ground arith, ground arith)
      | inr r ↦ inl (ground arith, r, ground arith)
    ]

-- Writing fails and loses the store: on Windows, where the store is removed to make way for the
-- second rename, and that one fails too.
pub record LosesStore (d : Disk) : Type 0 where
  pub written : d.writable ≡ true
  pub no_rename : d.renames ≡ false
  pub windows : d.windows ≡ true
  pub there : is_some d.file ≡ true
  pub removed : d.removes ≡ true
  pub no_second_rename : d.renames_again ≡ false

-- Writing fails and leaves the file as it was: there is no temporary file, or it is not renamed and
-- the store is not removed, as on other systems than Windows.
pub data KeepsStore (d : Disk) : Type 0 where
  no_temporary : d.writable ≡ false → KeepsStore d
  not_windows : d.renames ≡ false → d.windows ≡ false → KeepsStore d
  no_store : d.renames ≡ false → is_some d.file ≡ false → KeepsStore d
  not_removed : d.renames ≡ false → d.renames_again ≡ false → d.removes ≡ false → KeepsStore d

-- How a write may end.
pub data Saving (stored : ApprovalsData) (d : Disk) : Type 0 where
  kept : KeepsStore d → save_data stored d ≡ (err cannot_write, d) → Saving stored d
  lost :
      LosesStore d
      → save_data stored d ≡ (err cannot_write, record d { file = none })
      → Saving stored d
  saved :
      save_data stored d ≡ (ok tt, record d { file = some stored; readable = true })
      → Saving stored d

module _ (stored : ApprovalsData) (d : Disk) where
  rename_again-Saving :
      d.writable ≡ true
      → d.renames ≡ false
      → d.windows ≡ true
      → is_some d.file ≡ true
      → save_data stored d ≡ rename_again stored d
      → Saving stored d
  unfolding rename_again
  rename_again-Saving w r win there e = elim (Bool-cases d.renames_again) [
    | inl again ↦ saved (e ∙ rw again refl)
    | inr fails ↦ elim (Bool-cases d.removes) [
      | inl gone ↦
          lost
            (record {
              written = w;
              no_rename = r;
              windows = win;
              there = there;
              removed = gone;
              no_second_rename = fails;
            })
            (e ∙ rw (fails, gone) refl)
      | inr stays ↦ kept (not_removed r fails stays) (e ∙ rw (fails, stays) refl)
    ]
  ]

  pub save_data-cases : Saving stored d
  unfolding save_data
  save_data-cases = elim (Bool-cases d.writable) [
    | inr w ↦ kept (no_temporary w) (rw w refl)
    | inl w ↦ elim (Bool-cases d.renames) [
      | inl r ↦ saved (rw (w, r) refl)
      | inr r ↦ elim (Bool-cases d.windows) [
        | inr other ↦ kept (not_windows r other) (rw (w, r, other) refl)
        | inl win ↦ elim (Bool-cases (is_some d.file)) [
          | inl there ↦ rename_again-Saving w r win there (rw (w, r, win, there) refl)
          | inr gone ↦ kept (no_store r gone) (rw (w, r, win, gone) refl)
        ]
      ]
    ]
  ]

-- Why a call that leaves the disk as it was can fail.
pub data IsFault (d : Disk) : StoreError → Type 0 where
  unreadable : is_some d.file ≡ true → d.readable ≡ false → IsFault d cannot_read
  unwritten : KeepsStore d → IsFault d cannot_write

-- How a call of `consume_matching_approved` may end.
pub data Consumed (clock : Clock) (key version : String) (d : Disk)
    (r : Result (Option ApprovedUsage) × Disk) : Type 0 where
  failed : (e : StoreError) → IsFault d e → r ≡ (err e, d) → Consumed clock key version d r
  lost_store :
      LosesStore d
      → r ≡ (err cannot_write, record d { file = none })
      → Consumed clock key version d r
  nothing :
      r ≡ (ok none, d)
      → ((id : String) (req : ApprovalRequest)
          → lookup id (requests_of d) ≡ some req
          → ¬ IsUsable clock key version req)
      → Consumed clock key version d r
  took :
      (id : String) (req : ApprovalRequest)
      → r.0 ≡ ok (some (record { id = id; approval_key = key }))
      → lookup id (requests_of d) ≡ some req
      → IsUsable clock key version req
      → requests_of r.1 ≡ update id count_use (requests_of d)
      → Consumed clock key version d r

module _ (clock : Clock) (key version : String) (d : Disk) (o : IsMap (requests_of d)) where
  took-cases :
      (stored : ApprovalsData) (id : String)
      → stored.requests ≡ requests_of d
      → first_id (usable clock key version) stored.requests ≡ some id
      → Consumed clock key version d (take_id key stored (some id) d)
  took-cases stored id same h =
      let (req, found, passes) =
        first_id-found (usable clock key version) (requests_of d) id o (rw (← same) h) in
      elim (save_data-cases (with_requests stored (update id count_use stored.requests)) d) [
        | kept fault e ↦ rw e (failed cannot_write (unwritten fault) refl)
        | lost loses e ↦ rw e (lost_store loses refl)
        | saved e ↦ rw e (
            took id req refl found (usable-IsUsable clock key version req passes)
              (ap (update id count_use) same))
      ]

  -- Every way in which a call can end, over a store whose ids are distinct and in order. A call that
  -- fails leaves the disk as it was, where the file is there and cannot be read, or the store cannot
  -- be written; only on Windows, where the second rename fails too, the store can be lost. A call
  -- that finds nothing leaves the disk as it was, and no request there was approved for this key and
  -- version, in time and with uses left. A call that takes a request takes such a one, and the
  -- requests that are left count that use and are otherwise the same.
  pub consume-Consumed :
      Consumed clock key version d (consume_matching_approved clock key version d)
  unfolding consume_matching_approved
  consume-Consumed = elim (load_data-cases d) [
    | inl (there, fault, e) ↦ rw e (failed cannot_read (unreadable there fault) refl)
    | inr (stored, e, same) ↦
        rw e (elim (Option-cases (first_id (usable clock key version) stored.requests)) [
          | inl none_usable ↦ rw none_usable (
              nothing refl λ id req found u.
                let refused =
                  first_id-none (usable clock key version) (requests_of d) id req
                    (rw (← same) none_usable) found in
                let passes = IsUsable-usable clock key version req u in cc)
          | inr (id, h) ↦ rw h (took-cases stored id same h)
        ])
  ]
