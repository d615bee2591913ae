-- ===== src/Trust/Approvals/Approve.antt =====
-- `ApprovalsStore::approve` of src/trust/approvals.rs, and a use after it.
use local_agent.Base.{
  String, ◌≡◌, refl, ◌∙◌, inl, inr, true, none, some, arith, eq_refl, Option-cases,
}
use local_agent.Base.Assoc.{lookup, update, lookup-update}
use local_agent.Trust.Approvals.{
  ApprovalRequest, ok, Disk, Clock, with_requests, granted, write_if_there, change_request, approve,
  key_version_matches, same_key, is_expired, is_exhausted, usable, first_id,
  consume_matching_approved,
}
use local_agent.Trust.Approvals.Consume.{requests_of, first_id-none}
use local_agent.Trust.Approvals.Prune.{
  Works, data_of, requests-data_of, load-Works, save-Works, consume-result,
}

approved_disk : Clock → String → Disk → Disk
approved_disk clock id d = record d {
  file =
      some (with_requests (data_of d) (update id (granted clock none none) (data_of d).requests));
  readable = true;
}

approve-Works :
    (clock : Clock) (id : String) (d : Disk) (req : ApprovalRequest)
    → Works d
    → lookup id (data_of d).requests ≡ some req
    → approve clock id none none d ≡ (ok tt, approved_disk clock id d)
unfolding approve change_request write_if_there approved_disk
approve-Works clock id d req w e = rw (load-Works d w) (
    rw e (
      rw
        (save-Works
          (with_requests (data_of d) (update id (granted clock none none) (data_of d).requests)) d
          w)
        refl))

granted-usable :
    (clock : Clock) (key version : String) (req : ApprovalRequest)
    → req.approval_key ≡ some key
    → key_version_matches req.approval_key_version version ≡ true
    → req.expires_at ≡ none
    → req.max_uses ≡ none
    → usable clock key version (granted clock none none req) ≡ true
unfolding usable granted same_key is_expired is_exhausted
granted-usable clock key version req k v e m = ground (arith, eq_refl key)

-- On a working disk, a request that is approved without a limit, and that had neither an expiry nor
-- a limit before, has its call granted the next time: consuming under its key and version finds an
-- approval, whatever the status of the request was.
pub approve-consume :
    (clock : Clock) (id key version : String) (d : Disk) (req : ApprovalRequest)
    → Works d
    → lookup id (requests_of d) ≡ some req
    → req.approval_key ≡ some key
    → key_version_matches req.approval_key_version version ≡ true
    → req.expires_at ≡ none
    → req.max_uses ≡ none
    → (used : String) × ((consume_matching_approved clock key version
          (approve clock id none none d).1).0
        ≡ ok (some (record { id = used; approval_key = key })))
unfolding approved_disk
approve-consume clock id key version d req w at k v e m =
    let at' : lookup id (data_of d).requests ≡ some req = rw (requests-data_of d) at in
    let after : lookup id (update id (granted clock none none) (data_of d).requests)
        ≡ some (granted clock none none req) =
      ground
        (arith, lookup-update id id (granted clock none none) (data_of d).requests, eq_refl id) in
    let result =
      consume-result clock key version (approved_disk clock id d)
        (record { readable = refl; writable = w.writable; renames = w.renames }) in
    let good = granted-usable clock key version req k v e m in
    rw (approve-Works clock id d req w at')
      (elim (Option-cases (
        first_id (usable clock key version)
          (update id (granted clock none none) (data_of d).requests))) [
            | inl none_found ↦
                absurd
                  (let bad = first_id-none (usable clock key version) _ id _ none_found after in cc)
            | inr (used, found) ↦ (used, result ∙ rw found refl)
          ])
