-- ===== src/Trust/Approvals/Prune.antt =====
-- `ApprovalsStore::prune` of src/trust/approvals.rs.
use mathlib.Core.Option
use local_agent.Base.{
  ◌↔◌, inl, inr, ℕ, ◌+◌, ◌-◌, ◌≤◌, String, ◌≡◌, refl, ◌∙◌, Bool, true, Option, none, some, [], ◌∷◌,
  arith, length, Bool-cases,
}
use local_agent.Base.Assoc.{Assoc, lookup, retain, only_if, IsMap, lookup-retain, update}
use local_agent.Trust.Approvals.{
  ApprovalRequest, ApprovalsData, ok, Disk, Clock, load_data, save_data, empty_data, with_requests,
  keeps, prune, usable, first_id, take_id, count_use, consume_matching_approved,
}
use local_agent.Trust.Approvals.Usable.{IsLive, keeps-IsLive}
use local_agent.Trust.Approvals.Consume.{requests_of}

-- Reading, writing the temporary file and the rename all work.
pub record Works (d : Disk) : Type 0 where
  pub readable : d.readable ≡ true
  pub writable : d.writable ≡ true
  pub renames : d.renames ≡ true

-- The data that `load_data` gives where reading works.
abbrev pub data_of : Disk → ApprovalsData
data_of d = elim d.file [ none ↦ empty_data | some stored ↦ stored ]

pub requests-data_of : (d : Disk) → (data_of d).requests ≡ requests_of d
requests-data_of d = ground arith

pub load-Works : (d : Disk) → Works d → load_data d ≡ (ok (data_of d), d)
unfolding load_data
load-Works d w = ground arith

pub save-Works :
    (stored : ApprovalsData) (d : Disk)
    → Works d
    → save_data stored d ≡ (ok tt, record d { file = some stored; readable = true })
unfolding save_data
save-Works stored d w = ground arith

length-retain-le :
    (p : ApprovalRequest → Bool) (m : Assoc ApprovalRequest) → length (retain p m) ≤ length m
unfolding retain
length-retain-le p [] = omega arith
length-retain-le p ((j, r) ∷ m) = ground (arith, length-retain-le p m)

pruned : Clock → Disk → Disk
pruned clock d = record d {
  file = some (with_requests (data_of d) (retain (keeps clock) (data_of d).requests));
  readable = true;
}

prune-Works :
    (clock : Clock) (d : Disk)
    → Works d
    → prune clock d ≡ (
      ok (length (data_of d).requests - length (retain (keeps clock) (data_of d).requests)),
      pruned clock d,
    )
unfolding prune pruned
prune-Works clock d w = rw (load-Works d w) (
    rw (save-Works (with_requests (data_of d) (retain (keeps clock) (data_of d).requests)) d w)
      refl)

only_if-IsLive :
    (clock : Clock) (o : Option ApprovalRequest) (req : ApprovalRequest)
    → (only_if (keeps clock) o ≡ some req) ↔ ((o ≡ some req) × IsLive clock req)
only_if-IsLive clock none req = (λ h. cc, λ h. cc)
only_if-IsLive clock (some r) req = elim (Bool-cases (keeps clock r)) [
  | inl k ↦
      rw k
        (λ h. let same : r ≡ req = cc in (h, (keeps-IsLive clock req).0 (rw (← same) k)), λ h. h.0)
  | inr k ↦
      rw k
        (λ h. cc, λ h. let same : r ≡ req = cc in let kept = (keeps-IsLive clock req).1 h.1 in cc)
]

-- On a working disk whose ids are distinct and in order, a request stands under an id after pruning
-- exactly where it stood there before, is not denied, has not expired and has uses left; and the
-- number that is returned is how many were dropped.
pub prune_exact :
    (clock : Clock) (d : Disk)
    → Works d
    → IsMap (requests_of d)
    → ((id : String) (req : ApprovalRequest)
        → (lookup id (requests_of (prune clock d).1) ≡ some req)
          ↔ ((lookup id (requests_of d) ≡ some req) × IsLive clock req))
      × ((n : ℕ) × ((prune clock d).0 ≡ ok n)
          × (n + length (requests_of (prune clock d).1) ≡ length (requests_of d)))
unfolding pruned
prune_exact clock d w o =
    rw (prune-Works clock d w, requests-data_of d)
      (
        λ id req.
            rw (lookup-retain (keeps clock) id (requests_of d) o)
              (only_if-IsLive clock (lookup id (requests_of d)) req),
        (
          length (requests_of d) - length (retain (keeps clock) (requests_of d)),
          refl,
          omega (arith, length-retain-le (keeps clock) (requests_of d)),
        ),
      )

usable-keeps :
    (clock : Clock) (key version : String) (req : ApprovalRequest)
    → usable clock key version req ≡ true
    → keeps clock req ≡ true
unfolding usable keeps
usable-keeps clock key version req h = ground arith

first_id-retain :
    (p q : ApprovalRequest → Bool) (m : Assoc ApprovalRequest)
    → ((req : ApprovalRequest) → p req ≡ true → q req ≡ true)
    → first_id p (retain q m) ≡ first_id p m
unfolding first_id retain
first_id-retain p q [] h = refl
first_id-retain p q ((j, req) ∷ m) h = ground (arith, first_id-retain p q m h, h req)

take_id-result :
    (key : String) (stored : ApprovalsData) (o : Option String) (d : Disk)
    → Works d
    → (take_id key stored o d).0 ≡ ok (Option.map (λ id. record { id = id; approval_key = key }) o)
take_id-result key stored none d w = refl
take_id-result key stored (some id) d w =
    rw (save-Works (with_requests stored (update id count_use stored.requests)) d w)

pub consume-result :
    (clock : Clock) (key version : String) (d : Disk)
    → Works d
    → (consume_matching_approved clock key version d).0
      ≡ ok (
          Option.map
            (λ id. record { id = id; approval_key = key })
            (first_id (usable clock key version) (requests_of d)))
unfolding consume_matching_approved
consume-result clock key version d w = rw (load-Works d w) (
    take_id-result key (data_of d) (first_id (usable clock key version) (data_of d).requests) d w
    ∙ rw (requests-data_of d))

-- On a working disk, pruning changes no answer of `consume_matching_approved` at the same time,
-- whatever the key.
pub consume-prune :
    (clock : Clock) (key version : String) (d : Disk)
    → Works d
    → (consume_matching_approved clock key version (prune clock d).1).0
      ≡ (consume_matching_approved clock key version d).0
unfolding pruned
consume-prune clock key version d w =
    let after =
      consume-result clock key version (pruned clock d)
        (record { readable = refl; writable = w.writable; renames = w.renames }) in
    rw (prune-Works clock d w, after, consume-result clock key version d w)
      (rw (requests-data_of d) (
        rw (
          first_id-retain (usable clock key version) (keeps clock) (requests_of d)
            (usable-keeps clock key version))))
