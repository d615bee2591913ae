-- ===== src/TaskGraph/Checkpoint.antt =====
-- The checkpoint of a task run: it is loaded or begun, and a run that has completed nodes needs
-- `--resume`. `std::fs` and `serde_json` are the parameter `CheckpointFile`; writing is not modelled.
use local_agent.Base.{
  String, ◌≡◌, ◌≢◌, refl, inl, inr, Bool, true, false, not, ◌&&◌, Option, none, some, List, [], ◌∷◌,
  arith, any, str_eq, eq_iff, Bool-cases, Option-cases, if◌then◌else◌,
}
use local_agent.Base.Assoc.{Assoc, lookup, insert, lookup-insert}
use local_agent.TaskGraph.{TaskNode, TaskFile, contains_id, ids_of}

pub record CheckpointNode : Type 0 where
  pub status : String
  pub run_id : Option String
  pub started_at : Option String
  pub finished_at : Option String
  pub exit_reason : Option String
  pub artifact_path : Option String
  pub error_short : Option String

pub record TasksCheckpoint : Type 0 where
  pub schema_version : String
  pub taskfile_hash_hex : String
  pub created_at : String
  pub updated_at : String
  pub nodes : Assoc CheckpointNode

pub data CheckpointError : Type 0 where
  cannot_read cannot_parse : CheckpointError
  unsupported_schema : String → CheckpointError
  hash_mismatch : (expected got : String) → CheckpointError

pub data Loading : Type 0 where
  refused : CheckpointError → Loading
  loaded : TasksCheckpoint → Loading

pub record CheckpointFile : Type 0 where
  pub exists : Bool
  pub read_to_string : Option String
  pub from_str : String → Option TasksCheckpoint

abbrev pub checkpoint_schema : String
checkpoint_schema = "openagent.tasks_checkpoint.v1"

abbrev pub pending_node : CheckpointNode
pending_node = record {
  status = "pending";
  run_id = none;
  started_at = none;
  finished_at = none;
  exit_reason = none;
  artifact_path = none;
  error_short = none;
}

unfoldable pub pending_nodes : List TaskNode → Assoc CheckpointNode → Assoc CheckpointNode
unfolding insert
pending_nodes [] m = m
pending_nodes (n ∷ nodes) m = pending_nodes nodes (insert n.id pending_node m)

unfoldable pub check_stored : String → TasksCheckpoint → Loading
check_stored taskfile_hash_hex cp =
    if not (str_eq cp.schema_version checkpoint_schema)
    then refused (unsupported_schema cp.schema_version)
    else if not (str_eq cp.taskfile_hash_hex taskfile_hash_hex)
    then refused (hash_mismatch taskfile_hash_hex cp.taskfile_hash_hex)
    else loaded cp

unfoldable pub read_stored : CheckpointFile → String → Loading
unfolding check_stored
read_stored file taskfile_hash_hex = elim file.read_to_string [
  | none ↦ refused cannot_read
  | some raw ↦ elim (file.from_str raw) [
    | none ↦ refused cannot_parse
    | some cp ↦ check_stored taskfile_hash_hex cp
  ]
]

abbrev pub new_checkpoint : String → TaskFile → String → TasksCheckpoint
new_checkpoint now taskfile taskfile_hash_hex = record {
  schema_version = checkpoint_schema;
  taskfile_hash_hex = taskfile_hash_hex;
  created_at = now;
  updated_at = now;
  nodes = pending_nodes taskfile.nodes [];
}

unfoldable pub load_or_init_checkpoint : CheckpointFile → String → TaskFile → String → Loading
unfolding read_stored pending_nodes
load_or_init_checkpoint file now taskfile taskfile_hash_hex =
    if file.exists
    then read_stored file taskfile_hash_hex
    else loaded (new_checkpoint now taskfile taskfile_hash_hex)

abbrev pub is_done : CheckpointNode → Bool
is_done n = str_eq n.status "done"

-- `true` is `Ok(())`.
unfoldable pub ensure_resume_allowed : TasksCheckpoint → Bool → Bool
ensure_resume_allowed cp resume = not (any (λ e. is_done e.1) cp.nodes && not resume)

str_eq-differ : (a b : String) → str_eq a b ≡ false → a ≢ b
str_eq-differ a b h e = let same = (eq_iff a b).1 e in cc

pending_nodes-lookup :
    (nodes : List TaskNode) (m : Assoc CheckpointNode) (v : String)
    → lookup v (pending_nodes nodes m)
      ≡ (if contains_id (ids_of nodes) v then some pending_node else lookup v m)
unfolding pending_nodes
pending_nodes-lookup [] m v = refl
pending_nodes-lookup (n ∷ nodes) m v = ground (
  arith,
  pending_nodes-lookup nodes (insert n.id pending_node m) v,
  lookup-insert n.id v pending_node m,
)

insert-any :
    (id : String) (n : CheckpointNode) (m : Assoc CheckpointNode)
    → is_done n ≡ false
    → any (λ e. is_done e.1) m ≡ false
    → any (λ e. is_done e.1) (insert id n m) ≡ false
unfolding insert
insert-any id n [] h k = ground arith
insert-any id n ((j, w) ∷ m) h k = ground (arith, insert-any id n m h)

pending_nodes-any :
    (nodes : List TaskNode) (m : Assoc CheckpointNode)
    → any (λ e. is_done e.1) m ≡ false
    → any (λ e. is_done e.1) (pending_nodes nodes m) ≡ false
unfolding pending_nodes
pending_nodes-any [] m h = h
pending_nodes-any (n ∷ nodes) m h =
    pending_nodes-any nodes (insert n.id pending_node m) (insert-any n.id pending_node m refl h)

-- The file is there, and its text is read and parsed to this checkpoint.
pub record Holds (file : CheckpointFile) (cp : TasksCheckpoint) : Type 0 where
  pub exists : file.exists ≡ true
  pub raw : String
  pub reads : file.read_to_string ≡ some raw
  pub parses : file.from_str raw ≡ some cp

-- How loading may end: with what the file holds, with the reason for which it is refused, or with a
-- new checkpoint where there is no file.
pub data Loaded (file : CheckpointFile) (taskfile : TaskFile) (hash : String) (r : Loading)
    : Type 0 where
  is_unreadable :
      file.exists ≡ true
      → file.read_to_string ≡ none
      → r ≡ refused cannot_read
      → Loaded file taskfile hash r
  is_unparsable :
      (raw : String)
      → file.exists ≡ true
      → file.read_to_string ≡ some raw
      → file.from_str raw ≡ none
      → r ≡ refused cannot_parse
      → Loaded file taskfile hash r
  is_unsupported :
      (cp : TasksCheckpoint)
      → Holds file cp
      → cp.schema_version ≢ checkpoint_schema
      → r ≡ refused (unsupported_schema cp.schema_version)
      → Loaded file taskfile hash r
  is_mismatched :
      (cp : TasksCheckpoint)
      → Holds file cp
      → cp.schema_version ≡ checkpoint_schema
      → cp.taskfile_hash_hex ≢ hash
      → r ≡ refused (hash_mismatch hash cp.taskfile_hash_hex)
      → Loaded file taskfile hash r
  is_stored :
      (cp : TasksCheckpoint)
      → Holds file cp
      → cp.schema_version ≡ checkpoint_schema
      → cp.taskfile_hash_hex ≡ hash
      → r ≡ loaded cp
      → Loaded file taskfile hash r
  is_new :
      (cp : TasksCheckpoint)
      → file.exists ≡ false
      → r ≡ loaded cp
      → cp.schema_version ≡ checkpoint_schema
      → cp.taskfile_hash_hex ≡ hash
      → ((v : String)
          → lookup v cp.nodes
            ≡ (if contains_id (ids_of taskfile.nodes) v then some pending_node else none))
      → ((resume : Bool) → ensure_resume_allowed cp resume ≡ true)
      → Loaded file taskfile hash r

module _ (file : CheckpointFile) (now : String) (taskfile : TaskFile) (hash : String) where
  new_checkpoint-resumes :
      (resume : Bool) → ensure_resume_allowed (new_checkpoint now taskfile hash) resume ≡ true
  unfolding ensure_resume_allowed
  new_checkpoint-resumes resume = rw (pending_nodes-any taskfile.nodes [] refl) refl

  check_stored-Loaded :
      (cp : TasksCheckpoint) → Holds file cp → Loaded file taskfile hash (check_stored hash cp)
  unfolding check_stored
  check_stored-Loaded cp holds = elim (Bool-cases (str_eq cp.schema_version checkpoint_schema)) [
    | inr e ↦
        rw e (is_unsupported cp holds (str_eq-differ cp.schema_version checkpoint_schema e) refl)
    | inl e ↦
        let schema = (eq_iff cp.schema_version checkpoint_schema).0 e in
        elim (Bool-cases (str_eq cp.taskfile_hash_hex hash)) [
          | inr k ↦
              rw (e, k)
                (is_mismatched cp holds schema (str_eq-differ cp.taskfile_hash_hex hash k) refl)
          | inl k ↦
              rw (e, k) (is_stored cp holds schema ((eq_iff cp.taskfile_hash_hex hash).0 k) refl)
        ]
  ]

  read_stored-unreadable : file.read_to_string ≡ none → read_stored file hash ≡ refused cannot_read
  unfolding read_stored
  read_stored-unreadable e = rw e refl

  read_stored-read :
      (raw : String) (o : Option TasksCheckpoint)
      → file.read_to_string ≡ some raw
      → file.from_str raw ≡ o
      → read_stored file hash
        ≡ elim o [ none ↦ refused cannot_parse | some cp ↦ check_stored hash cp ]
  unfolding read_stored
  read_stored-read raw o e k = rw e (rw k refl)

  read_stored-Loaded : file.exists ≡ true → Loaded file taskfile hash (read_stored file hash)
  read_stored-Loaded there = elim (Option-cases file.read_to_string) [
    | inl e ↦ let q = read_stored-unreadable e in rw q (is_unreadable there e refl)
    | inr (raw, e) ↦ elim (Option-cases (file.from_str raw)) [
      | inl k ↦ (let q = read_stored-read raw none e k in rw q (is_unparsable raw there e k refl))
      | inr (cp, k) ↦
          (let q = read_stored-read raw (some cp) e k in
            rw q (
              check_stored-Loaded cp (record { exists = there; raw = raw; reads = e; parses = k })))
    ]
  ]

  load-stored :
      file.exists ≡ true → load_or_init_checkpoint file now taskfile hash ≡ read_stored file hash
  unfolding load_or_init_checkpoint
  load-stored there = rw there refl

  load-new :
      file.exists ≡ false
      → load_or_init_checkpoint file now taskfile hash ≡ loaded (new_checkpoint now taskfile hash)
  unfolding load_or_init_checkpoint
  load-new gone = rw gone refl

  -- Every way in which loading can end. A file that is there is refused where it cannot be read or
  -- parsed, or where it holds a checkpoint with another schema or the hash of another task file, with
  -- the values that differ in the error; else the checkpoint that it holds is loaded, as it is. Where
  -- there is no file, the new checkpoint has the supported schema, the hash of this task file and
  -- exactly its nodes, all pending, and may be run with or without `--resume`.
  pub load_or_init_checkpoint-Loaded :
      Loaded file taskfile hash (load_or_init_checkpoint file now taskfile hash)
  unfolding lookup
  load_or_init_checkpoint-Loaded = elim (Bool-cases file.exists) [
    | inl there ↦ (let q = load-stored there in rw q (read_stored-Loaded there))
    | inr gone ↦
        let q = load-new gone in
        rw q (
          is_new (new_checkpoint now taskfile hash) gone refl refl refl
            (λ v. pending_nodes-lookup taskfile.nodes [] v) new_checkpoint-resumes)
  ]
