-- ===== src/Trust/Approvals/Tests.antt =====
-- Runs of the approvals store at a concrete file.
use local_agent.Base.{
  ◌↔◌, ℕ, ◌+◌, ◌≤◌, String, ◌≡◌, refl, true, none, some, [], List, ◌∷◌, arith, length, unwrap_or,
  false,
}
use local_agent.Base.Assoc.{lookup}
use local_agent.Json.{null}
use local_agent.Trust.Approvals.{
  approve, key_version_matches, ApprovalRequest, Disk, Clock, StoredStatus, approved, pending, ok,
  prune, consume_matching_approved, err, cannot_write,
}
use local_agent.Trust.Approvals.Consume.{requests_of, Consumed, consume-Consumed}
use local_agent.Trust.Approvals.Uses.{
  Action, use_key, deny_id, prune_at, grants, grants-le-max_uses,
}
use local_agent.Trust.Approvals.Approve.{approve-consume}
use local_agent.Trust.Approvals.Usable.{IsLive}
use local_agent.Trust.Approvals.Prune.{prune_exact, consume-prune}

abbrev pub clock : Clock
clock = record {
  now = 10;
  now_rfc3339 = "t10";
  hours_from_now = λ hours. "later";
  parse = λ s. none;
}

-- A request with a limit of two uses, of which one is left.
abbrev pub request : StoredStatus → ApprovalRequest
request status = record {
  created_at = "t1";
  tool = "shell";
  arguments = null;
  status = status;
  approval_key = some "key";
  expires_at = none;
  max_uses = some 2;
  uses = some 1;
  approval_key_version = some "v1";
  tool_schema_hash_hex = none;
  hooks_config_hash_hex = none;
  exec_target = none;
  planner_hash_hex = none;
}

abbrev pub disk : Disk
disk = record {
  file = some (record {
    schema_version = "openagent.approvals.v1";
    requests = ("a", request approved) ∷ ("b", request pending) ∷ [];
  });
  readable = true;
  writable = true;
  renames = true;
  windows = false;
  removes = true;
  renames_again = true;
}

consume-Consumed_example :
    Consumed clock "key" "v1" disk (consume_matching_approved clock "key" "v1" disk)
consume-Consumed_example = consume-Consumed clock "key" "v1" disk ((refl, tt), (tt, tt))

-- Three uses are asked for, and the denial comes too late for the one that is left.
abbrev three_uses : List Action
three_uses =
    use_key clock "key" "v1"
    ∷ deny_id "b"
    ∷ use_key clock "key" "v1"
    ∷ prune_at clock
    ∷ use_key clock "key" "v1"
    ∷ []

grants-le-max_uses_example : unwrap_or (some 1) 0 + grants "a" three_uses disk ≤ 2
unfolding lookup
grants-le-max_uses_example =
    grants-le-max_uses "a" 2 (request approved) three_uses disk ((refl, tt), (tt, tt)) refl refl
      (omega arith) (omega arith) (tt, (tt, (tt, (tt, (tt, tt)))))

prune_exact_example :
    ((id : String) (req : ApprovalRequest)
      → (lookup id (requests_of (prune clock disk).1) ≡ some req)
        ↔ ((lookup id (requests_of disk) ≡ some req) × IsLive clock req))
    × ((n : ℕ) × ((prune clock disk).0 ≡ ok n)
        × (n + length (requests_of (prune clock disk).1) ≡ length (requests_of disk)))
prune_exact_example =
    prune_exact clock disk (record { readable = refl; writable = refl; renames = refl })
      ((refl, tt), (tt, tt))

consume-prune_example :
    (consume_matching_approved clock "key" "v1" (prune clock disk).1).0
    ≡ (consume_matching_approved clock "key" "v1" disk).0
consume-prune_example =
    consume-prune clock "key" "v1" disk
      (record { readable = refl; writable = refl; renames = refl })

-- A request that waits, and is approved.
abbrev waiting : ApprovalRequest
waiting = record (request pending) { max_uses = none; uses = some 0 }

abbrev waiting_disk : Disk
waiting_disk = record {
  file =
      some (record { schema_version = "openagent.approvals.v1"; requests = ("a", waiting) ∷ [] });
  readable = true;
  writable = true;
  renames = true;
  windows = false;
  removes = true;
  renames_again = true;
}

approve-consume_example :
    (used : String) × ((consume_matching_approved clock "key" "v1"
        (approve clock "a" none none waiting_disk).1).0
      ≡ ok (some (record { id = used; approval_key = "key" })))
unfolding lookup key_version_matches
approve-consume_example =
    approve-consume clock "a" "key" "v1" waiting_disk waiting
      (record { readable = refl; writable = refl; renames = refl }) refl refl refl refl refl

-- On Windows, two renames that fail leave no store.
abbrev losing_disk : Disk
losing_disk = record disk { renames = false; windows = true; renames_again = false }

consume_loses_store :
    consume_matching_approved clock "key" "v1" losing_disk
    ≡ (err cannot_write, record losing_disk { file = none })
unfolding consume_matching_approved
consume_loses_store = refl
