-- ===== src/Trust/Approvals.antt =====
-- src/trust/approvals.rs: the store of approval requests.
-- The store is one JSON file. `Disk` is that file with what may fail: `load_data` fails where the
-- file is there and cannot be read or parsed, and `save_data` where the temporary file cannot be
-- written, or cannot be renamed to the store. On Windows, after a rename that fails, the store is
-- removed where it is there, and the rename is tried once more.
-- `time` is the parameter `Clock`: an instant is a number, and the file holds its text. An operation
-- that makes a request takes the fresh `Uuid` as an argument.
pub mod Usable
pub mod Consume
pub mod Effects
pub mod Tracks
pub mod Uses
pub mod Prune
pub mod Approve
mod Tests
use local_agent.Base.{
  ℕ, zero, suc, ◌+◌, ◌-◌, String, ◌≡◌, Bool, true, false, not, ◌&&◌, ◌||◌, Option, none, some, List,
  [], ◌∷◌, leb, ltb, u32_max, saturating_add, length, is_some, is_text, str_eq, unwrap_or,
  if◌then◌else◌,
}
use local_agent.Base.Assoc.{Assoc, lookup, insert, update, retain, contains_key}
use local_agent.Json.{Value}

pub data ApprovalStatus : Type 0 where
  match_pending match_denied : ApprovalStatus

pub record ApprovalDecisionMatch : Type 0 where
  pub id : String
  pub status : ApprovalStatus

pub record ApprovedUsage : Type 0 where
  pub id : String
  pub approval_key : String

pub data StoredStatus : Type 0 where
  pending approved denied : StoredStatus

pub record ApprovalRequest : Type 0 where
  pub created_at : String
  pub tool : String
  pub arguments : Value
  pub status : StoredStatus
  pub approval_key : Option String
  pub expires_at : Option String
  pub max_uses : Option ℕ
  pub uses : Option ℕ
  pub approval_key_version : Option String
  pub tool_schema_hash_hex : Option String
  pub hooks_config_hash_hex : Option String
  pub exec_target : Option String
  pub planner_hash_hex : Option String

pub record ApprovalsData : Type 0 where
  pub schema_version : String
  pub requests : Assoc ApprovalRequest

pub record ApprovalProvenance : Type 0 where
  pub approval_key_version : String
  pub tool_schema_hash_hex : Option String
  pub hooks_config_hash_hex : Option String
  pub exec_target : Option String
  pub planner_hash_hex : Option String

pub data StoreError : Type 0 where
  cannot_read cannot_write : StoreError
  id_not_found : String → StoreError

pub data Result {ℓ} (A : Type ℓ) : Type ℓ where
  ok : A → Result A
  err : StoreError → Result A

-- `file` is the parsed file, and `none` where there is none. The other fields say what works:
-- reading and parsing it; creating the directory and writing the temporary file; the rename; and,
-- where the build is for `windows`, `remove_file` and the second rename.
pub record Disk : Type 0 where
  pub file : Option ApprovalsData
  pub readable : Bool
  pub writable : Bool
  pub renames : Bool
  pub windows : Bool
  pub removes : Bool
  pub renames_again : Bool

-- `OffsetDateTime::now_utc`, `now_rfc3339`, `now + Duration::hours` as text (with the fallback of a
-- failed format), and `OffsetDateTime::parse`.
pub record Clock : Type 0 where
  pub now : ℕ
  pub now_rfc3339 : String
  pub hours_from_now : ℕ → String
  pub parse : String → Option ℕ

-- An operation returns its result, and the disk that it leaves.
abbrev pub Op {ℓ} : Type ℓ → Type ℓ
Op A = Disk → Result A × Disk

abbrev pub empty_data : ApprovalsData
empty_data = record { schema_version = "openagent.approvals.v1"; requests = [] }

abbrev pub continue {ℓ κ} : {A : Type ℓ} {B : Type κ} → Result A → (A → Op B) → Op B
continue (ok a) f d = f a d
continue (err e) f d = (err e, d)

infixl 5 ◌>>=◌
abbrev pub ◌>>=◌ {ℓ κ} : {A : Type ℓ} {B : Type κ} → Op A → (A → Op B) → Op B
◌>>=◌ m f d = continue (m d).0 f (m d).1

abbrev pub pure {ℓ} : {A : Type ℓ} → A → Op A
pure a d = (ok a, d)

abbrev pub fail {ℓ} : {A : Type ℓ} → StoreError → Op A
fail e d = (err e, d)

unfoldable pub load_data : Op ApprovalsData
load_data d = elim d.file [
  | none ↦ (ok empty_data, d)
  | some stored ↦ if d.readable then (ok stored, d) else (err cannot_read, d)
]

abbrev saved_file : ApprovalsData → Disk → Disk
saved_file stored d = record d { file = some stored; readable = true }

-- The block under `#[cfg(windows)]`: an error of `remove_file` is ignored.
unfoldable pub rename_again : ApprovalsData → Op (Unit {0})
rename_again stored d =
    if d.renames_again
    then (ok tt, saved_file stored d)
    else (err cannot_write, record d { file = if d.removes then none else d.file })

unfoldable pub save_data : ApprovalsData → Op (Unit {0})
unfolding rename_again
save_data stored d =
    let again = rename_again stored d in
    if not d.writable
    then (err cannot_write, d)
    else if d.renames
    then (ok tt, saved_file stored d)
    else if d.windows && is_some d.file
    then again
    else (err cannot_write, d)

unfoldable pub is_exhausted : ApprovalRequest → Bool
is_exhausted req = elim req.max_uses [ none ↦ false | some max ↦ leb max (unwrap_or req.uses 0) ]

-- A time that does not parse never comes.
abbrev past : ℕ → Option ℕ → Bool
past now none = false
past now (some ts) = ltb ts now

unfoldable pub is_expired : Clock → ApprovalRequest → Bool
is_expired clock req = elim req.expires_at [
  | none ↦ false
  | some exp ↦ past clock.now (clock.parse exp)
]

-- `matches!(entry, None | Some("v1"))`.
abbrev none_or_v1 : Option String → Bool
none_or_v1 none = true
none_or_v1 (some v) = str_eq v "v1"

unfoldable pub key_version_matches : Option String → String → Bool
key_version_matches entry target =
    if str_eq target "v1"
    then none_or_v1 entry
    else if str_eq target "v2"
    then is_text entry "v2"
    else false

-- The two tests with which each search begins.
unfoldable pub same_key : String → String → ApprovalRequest → Bool
unfolding key_version_matches
same_key approval_key version req =
    is_text req.approval_key approval_key && key_version_matches req.approval_key_version version

abbrev pub is_approved : ApprovalRequest → Bool
is_approved req = elim req.status [ pending ↦ false | approved ↦ true | denied ↦ false ]

abbrev pub is_denied : ApprovalRequest → Bool
is_denied req = elim req.status [ pending ↦ false | approved ↦ false | denied ↦ true ]

abbrev pub with_requests : ApprovalsData → Assoc ApprovalRequest → ApprovalsData
with_requests stored requests = record stored { requests = requests }

unfoldable pub list : Op ApprovalsData
list = load_data

granted : Clock → Option ℕ → Option ℕ → ApprovalRequest → ApprovalRequest
granted clock ttl_hours max_uses req = record req {
  status = approved;
  expires_at = elim ttl_hours [
    | none ↦ req.expires_at
    | some hours ↦ some (clock.hours_from_now hours)
  ];
  max_uses = elim max_uses [ none ↦ req.max_uses | some mu ↦ some mu ];
}

write_if_there : String → (ApprovalRequest → ApprovalRequest) → ApprovalsData → Op (Unit {0})
unfolding save_data update lookup
write_if_there id change stored =
    if contains_key id stored.requests
    then save_data (with_requests stored (update id change stored.requests))
    else fail (id_not_found id)

-- `requests.get_mut(id)` with the error of a missing id, a write, and `save_data`.
change_request : String → (ApprovalRequest → ApprovalRequest) → Op (Unit {0})
unfolding load_data write_if_there
change_request id change = do stored ← load_data; write_if_there id change stored

unfoldable pub approve : Clock → String → Option ℕ → Option ℕ → Op (Unit {0})
unfolding change_request granted
approve clock id ttl_hours max_uses = change_request id (granted clock ttl_hours max_uses)

set_status : String → StoredStatus → Op (Unit {0})
unfolding change_request
set_status id status = change_request id (λ req. record req { status = status })

unfoldable pub deny : String → Op (Unit {0})
unfolding set_status
deny id = set_status id denied

unfoldable pub keeps : Clock → ApprovalRequest → Bool
unfolding is_expired is_exhausted
keeps clock req =
    if is_denied req
    then false
    else if is_expired clock req
    then false
    else if is_exhausted req
    then false
    else true

unfoldable pub prune : Clock → Op ℕ
unfolding load_data save_data keeps retain
prune clock = do
  stored ← load_data
  let kept = retain (keeps clock) stored.requests
  _ ← save_data (with_requests stored kept)
  pure (length stored.requests - length kept)

-- The loop of `find_matching_decision`: the first pending request is returned at once, and else the
-- first denied one that was met.
unfoldable pub scan_decisions :
    String
    → String
    → Option ApprovalDecisionMatch
    → Assoc ApprovalRequest
    → Option ApprovalDecisionMatch
unfolding same_key
scan_decisions key version found_denied [] = found_denied
scan_decisions key version found_denied ((id, req) ∷ rest) =
    let skip = scan_decisions key version found_denied rest in
    let with_denied =
      scan_decisions key version
        (if is_some found_denied
          then found_denied
          else some (record { id = id; status = match_denied }))
        rest in
    if not (same_key key version req) then skip else elim req.status [
      | denied ↦ with_denied
      | pending ↦ some (record { id = id; status = match_pending })
      | approved ↦ skip
    ]

unfoldable pub find_matching_decision : String → String → Op (Option ApprovalDecisionMatch)
unfolding load_data scan_decisions
find_matching_decision approval_key version = do
  stored ← load_data
  pure (scan_decisions approval_key version none stored.requests)

-- The requests that `consume_matching_approved` may take.
unfoldable pub usable : Clock → String → String → ApprovalRequest → Bool
unfolding same_key is_expired is_exhausted
usable clock key version req =
    same_key key version req && is_approved req && not (is_expired clock req || is_exhausted req)

unfoldable pub first_id : (ApprovalRequest → Bool) → Assoc ApprovalRequest → Option String
first_id p [] = none
first_id p ((id, req) ∷ rest) = let later = first_id p rest in if p req then some id else later

abbrev pub count_use : ApprovalRequest → ApprovalRequest
count_use req = record req { uses = some (saturating_add u32_max (unwrap_or req.uses 0) 1) }

abbrev pub take_id : String → ApprovalsData → Option String → Op (Option ApprovedUsage)
take_id approval_key stored none = pure none
take_id approval_key stored (some id) = do
  _ ← save_data (with_requests stored (update id count_use stored.requests))
  pure (some (record { id = id; approval_key = approval_key }))

unfoldable pub consume_matching_approved : Clock → String → String → Op (Option ApprovedUsage)
unfolding load_data save_data usable first_id update
consume_matching_approved clock approval_key version = do
  stored ← load_data
  take_id approval_key stored (first_id (usable clock approval_key version) stored.requests)

-- The provenance of a caller that gives none.
abbrev v1_provenance : ApprovalProvenance
v1_provenance = record {
  approval_key_version = "v1";
  tool_schema_hash_hex = none;
  hooks_config_hash_hex = none;
  exec_target = none;
  planner_hash_hex = none;
}

pub new_request :
    Clock → String → Value → StoredStatus → Option String → ApprovalProvenance → ApprovalRequest
new_request clock tool arguments status approval_key prov = record {
  created_at = clock.now_rfc3339;
  tool = tool;
  arguments = arguments;
  status = status;
  approval_key = approval_key;
  expires_at = none;
  max_uses = none;
  uses = some 0;
  approval_key_version = some prov.approval_key_version;
  tool_schema_hash_hex = prov.tool_schema_hash_hex;
  hooks_config_hash_hex = prov.hooks_config_hash_hex;
  exec_target = prov.exec_target;
  planner_hash_hex = prov.planner_hash_hex;
}

unfoldable pub create_pending :
    Clock → String → String → Value → Option String → Option ApprovalProvenance → Op String
unfolding load_data save_data new_request insert
create_pending clock id tool arguments approval_key provenance = do
  stored ← load_data
  let prov = unwrap_or provenance v1_provenance
  _ ← save_data (
      with_requests stored
        (insert id (new_request clock tool arguments pending approval_key prov) stored.requests))
  pure id

-- An existing request of the key becomes approved, whatever its status was.
abbrev pub auto_approved : ApprovalRequest → ApprovalRequest
auto_approved req = record req {
  status = approved;
  uses = elim req.uses [ none ↦ some 0 | some n ↦ some n ];
}

abbrev pub approve_or_insert :
    Clock
    → String
    → String
    → Value
    → String
    → ApprovalProvenance
    → ApprovalsData
    → Option String
    → Op String
approve_or_insert clock fresh tool arguments key prov stored (some id) = do
  _ ← save_data (with_requests stored (update id auto_approved stored.requests))
  pure id
approve_or_insert clock fresh tool arguments key prov stored none = do
  _ ← save_data (
      with_requests stored
        (insert fresh (new_request clock tool arguments approved (some key) prov) stored.requests))
  pure fresh

unfoldable pub ensure_approved_for_key :
    Clock → String → String → Value → String → Option ApprovalProvenance → Op String
unfolding load_data save_data new_request insert update first_id same_key
ensure_approved_for_key clock fresh tool arguments approval_key provenance = do
  stored ← load_data
  let prov = unwrap_or provenance v1_provenance
  approve_or_insert clock fresh tool arguments approval_key prov stored
      (first_id (same_key approval_key prov.approval_key_version) stored.requests)
