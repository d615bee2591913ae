-- ===== src/TaskGraph.antt =====
-- src/taskgraph.rs: the nodes of a task file, and the order in which they run.
-- The texts of the errors are their data. `topo_order` loops on fuel, as much as there are nodes.
pub mod Build
pub mod Release
pub mod Order
pub mod Topo
pub mod Complete
pub mod Checkpoint
mod Tests
use local_agent.Base.{
  ℕ, zero, suc, ◌+◌, ◌-◌, String, Bool, true, false, not, Option, none, some, List, [], ◌∷◌, ◌++◌,
  map, ◌==◌, length, any, is_some, sort, str_eq, unwrap_or, if◌then◌else◌,
}
use local_agent.Base.Assoc.{Assoc, lookup, insert, update, contains_key}

pub record TaskCompaction : Type 0 where
  pub max_context_chars : Option ℕ
  pub mode : Option String
  pub keep_last : Option ℕ
  pub tool_result_persist : Option String

pub record TaskLimits : Type 0 where
  pub max_read_bytes : Option ℕ
  pub max_tool_output_bytes : Option ℕ

pub record TaskFlags : Type 0 where
  pub enable_write_tools : Option Bool
  pub allow_write : Option Bool
  pub allow_shell : Option Bool
  pub stream : Option Bool

pub record TaskDefaults : Type 0 where
  pub mode : Option String
  pub provider : Option String
  pub base_url : Option String
  pub model : Option String
  pub task_kind : Option String
  pub validation_command : Option String
  pub exact_final_answer : Option String
  pub planner_model : Option String
  pub worker_model : Option String
  pub trust : Option String
  pub approval_mode : Option String
  pub auto_approve_scope : Option String
  pub caps : Option String
  pub hooks : Option String
  pub compaction : TaskCompaction
  pub limits : TaskLimits
  pub flags : TaskFlags
  pub mcp : List String

pub record TaskNodeSettings : Type 0 where
  pub mode : Option String
  pub provider : Option String
  pub base_url : Option String
  pub model : Option String
  pub task_kind : Option String
  pub validation_command : Option String
  pub exact_final_answer : Option String
  pub planner_model : Option String
  pub worker_model : Option String
  pub trust : Option String
  pub approval_mode : Option String
  pub auto_approve_scope : Option String
  pub caps : Option String
  pub hooks : Option String
  pub compaction : TaskCompaction
  pub limits : TaskLimits
  pub flags : TaskFlags
  pub mcp : Option (List String)

pub record TaskWorkdir : Type 0 where
  pub mode : String
  pub path : String
  pub per_node_dirname : String

pub record TaskNode : Type 0 where
  pub id : String
  pub depends_on : List String
  pub prompt : String
  pub settings : TaskNodeSettings

pub record TaskFile : Type 0 where
  pub schema_version : String
  pub name : String
  pub defaults : TaskDefaults
  pub workdir : TaskWorkdir
  pub nodes : List TaskNode

-- `dependency_cycle` stands for the error of `cycle_error`, which only words it.
pub data TaskError : Type 0 where
  duplicate_node_id : String → TaskError
  unknown_dependency : (node dependency : String) → TaskError
  dependency_cycle out_of_fuel : TaskError

pub data Ordered {ℓ} (A : Type ℓ) : Type ℓ where
  failed : TaskError → Ordered A
  done : A → Ordered A

abbrev pub and_then {ℓ κ} : {A : Type ℓ} {B : Type κ} → Ordered A → (A → Ordered B) → Ordered B
and_then (failed e) f = failed e
and_then (done a) f = f a

abbrev pub contains_id : List String → String → Bool
contains_id ids id = any (λ p. str_eq p id) ids

abbrev pub ids_of : List TaskNode → List String
ids_of nodes = map (λ n. n.id) nodes

-- The loop that inserts each id into a set, to the first that is there.
unfoldable pub first_duplicate : List String → List TaskNode → Option String
first_duplicate seen [] = none
first_duplicate seen (n ∷ nodes) =
    let later = first_duplicate (n.id ∷ seen) nodes in
    if contains_id seen n.id then some n.id else later

pub record Graph : Type 0 where
  pub indegree : Assoc ℕ
  pub edges : Assoc (List String)

-- `nodes.iter().map(|n| (n.id, 0)).collect()`.
unfoldable pub no_indegrees : List TaskNode → Assoc ℕ → Assoc ℕ
unfolding insert
no_indegrees [] m = m
no_indegrees (n ∷ nodes) m = no_indegrees nodes (insert n.id 0 m)

abbrev pub add_edge : String → String → Graph → Graph
add_edge id dep g = record {
  indegree = update id suc g.indegree;
  edges = insert dep (unwrap_or (lookup dep g.edges) [] ++ id ∷ []) g.edges;
}

unfoldable pub add_dependencies : String → List String → Graph → Ordered Graph
unfolding lookup insert update
add_dependencies id [] g = done g
add_dependencies id (dep ∷ deps) g =
    let rest = add_dependencies id deps (add_edge id dep g) in
    if not (contains_key dep g.indegree) then failed (unknown_dependency id dep) else rest

unfoldable pub add_nodes : List TaskNode → Graph → Ordered Graph
unfolding add_dependencies
add_nodes [] g = done g
add_nodes (n ∷ nodes) g = and_then (add_dependencies n.id n.depends_on g) (add_nodes nodes)

unfoldable pub sort_edges : Assoc (List String) → Assoc (List String)
unfolding sort
sort_edges [] = []
sort_edges ((id, out) ∷ rest) = (id, sort out) ∷ sort_edges rest

-- The keys whose number is zero.
unfoldable pub ready : Assoc ℕ → List String
ready [] = []
ready ((id, d) ∷ rest) = let later = ready rest in if d == 0 then id ∷ later else later

-- One round of the inner loop: the number of a node falls, and it is queued when it reaches zero.
-- The code's subtraction would panic or wrap at zero; here it stops there.
abbrev pub release_at : Option ℕ → String → Assoc ℕ → List String → Assoc ℕ × List String
release_at none n indegree q = (indegree, q)
release_at (some d) n indegree q =
    (update n (λ k. k - 1) indegree, if d - 1 == 0 then q ++ n ∷ [] else q)

unfoldable pub release : List String → Assoc ℕ → List String → Assoc ℕ × List String
unfolding update lookup
release [] indegree q = (indegree, q)
release (n ∷ next) indegree q =
    let r = release_at (lookup n indegree) n indegree q in release next r.0 r.1

-- The `while` loop: the front of the queue is put out, its edges are released and the queue is
-- sorted. `none` is the end of the fuel.
unfoldable pub run_queue :
    ℕ → Assoc (List String) → Assoc ℕ → List String → List String → Option (List String)
unfolding release sort lookup
run_queue fuel edges indegree [] out = some out
run_queue zero edges indegree (id ∷ q) out = none
run_queue (suc fuel) edges indegree (id ∷ q) out =
    let r = release (unwrap_or (lookup id edges) []) indegree q in
    run_queue fuel edges r.0 (sort r.1) (out ++ id ∷ [])

abbrev pub check_length : List TaskNode → Option (List String) → Ordered (List String)
check_length nodes none = failed out_of_fuel
check_length nodes (some out) =
    if not (length out == length nodes) then failed dependency_cycle else done out

abbrev pub run_graph : List TaskNode → Graph → Ordered (List String)
run_graph nodes g =
    check_length nodes
      (run_queue (length nodes) (sort_edges g.edges) g.indegree (ready g.indegree) [])

unfoldable pub topo_order : TaskFile → Ordered (List String)
unfolding run_queue sort_edges ready first_duplicate add_nodes no_indegrees
topo_order taskfile = elim (first_duplicate [] taskfile.nodes) [
  | some id ↦ failed (duplicate_node_id id)
  | none ↦
      and_then
        (add_nodes taskfile.nodes
          (record { indegree = no_indegrees taskfile.nodes []; edges = [] }))
        (run_graph taskfile.nodes)
]
