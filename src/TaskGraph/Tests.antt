-- ===== src/TaskGraph/Tests.antt =====
-- Runs of the task graph at a concrete task file.
use local_agent.Base.{String, ◌≡◌, ◌≢◌, refl, none, List, [], ◌∷◌, occurrences, arith, true, some}
use local_agent.TaskGraph.{
  TaskFile, TaskNode, TaskCompaction, TaskLimits, TaskFlags, dependency_cycle, out_of_fuel, failed,
  done, ids_of, topo_order,
}
use local_agent.TaskGraph.Build.{deps_of}
use local_agent.TaskGraph.Order.{InOrder}
use local_agent.TaskGraph.Topo.{topo_order_sound, topo_order-terminates}
use local_agent.TaskGraph.Complete.{topo_order_complete}
use local_agent.TaskGraph.Checkpoint.{
  checkpoint_schema, pending_node, TasksCheckpoint, CheckpointFile, Loaded, load_or_init_checkpoint,
  load_or_init_checkpoint-Loaded,
}

abbrev compaction : TaskCompaction
compaction = record {
  max_context_chars = none;
  mode = none;
  keep_last = none;
  tool_result_persist = none;
}

abbrev limits : TaskLimits
limits = record { max_read_bytes = none; max_tool_output_bytes = none }

abbrev flags : TaskFlags
flags = record { enable_write_tools = none; allow_write = none; allow_shell = none; stream = none }

abbrev node : String → List String → TaskNode
node id deps = record {
  id = id;
  depends_on = deps;
  prompt = "p";
  settings = record {
    mode = none;
    provider = none;
    base_url = none;
    model = none;
    task_kind = none;
    validation_command = none;
    exact_final_answer = none;
    planner_model = none;
    worker_model = none;
    trust = none;
    approval_mode = none;
    auto_approve_scope = none;
    caps = none;
    hooks = none;
    compaction = compaction;
    limits = limits;
    flags = flags;
    mcp = none;
  };
}

-- `c` and `a` wait for nothing, and `b` for both.
abbrev taskfile : TaskFile
taskfile = record {
  schema_version = "openagent.taskfile.v1";
  name = "three";
  defaults = record {
    mode = none;
    provider = none;
    base_url = none;
    model = none;
    task_kind = none;
    validation_command = none;
    exact_final_answer = none;
    planner_model = none;
    worker_model = none;
    trust = none;
    approval_mode = none;
    auto_approve_scope = none;
    caps = none;
    hooks = none;
    compaction = compaction;
    limits = limits;
    flags = flags;
    mcp = [];
  };
  workdir = record { mode = "shared"; path = "."; per_node_dirname = "{id}" };
  nodes = node "b" ("c" ∷ "a" ∷ []) ∷ node "c" [] ∷ node "a" [] ∷ [];
}

abbrev expected : List String
expected = "a" ∷ "c" ∷ "b" ∷ []

runs : topo_order taskfile ≡ done expected
unfolding topo_order
runs = refl

topo_order_sound_example :
    ((v : String) → occurrences v expected ≡ occurrences v (ids_of taskfile.nodes))
    × InOrder taskfile.nodes [] expected
topo_order_sound_example = topo_order_sound taskfile expected runs

topo_order-terminates_example : topo_order taskfile ≢ failed out_of_fuel
topo_order-terminates_example = topo_order-terminates taskfile

-- The other order of `a` and `c` will do as well.
abbrev other_order : List String
other_order = "c" ∷ "a" ∷ "b" ∷ []

other_order-occurrences :
    (v : String) → occurrences v other_order ≡ occurrences v (ids_of taskfile.nodes)
unfolding occurrences
other_order-occurrences v = omega arith

other_order-InOrder : InOrder taskfile.nodes [] other_order
unfolding deps_of
other_order-InOrder = (tt, (tt, ((refl, (refl, tt)), tt)))

topo_order_complete_example : topo_order taskfile ≢ failed dependency_cycle
topo_order_complete_example =
    topo_order_complete taskfile other_order other_order-occurrences other_order-InOrder

-- A file that holds the checkpoint of this task file.
abbrev stored_checkpoint : TasksCheckpoint
stored_checkpoint = record {
  schema_version = checkpoint_schema;
  taskfile_hash_hex = "h";
  created_at = "t";
  updated_at = "t";
  nodes = ("a", pending_node) ∷ [];
}

abbrev checkpoint_file : CheckpointFile
checkpoint_file = record {
  exists = true;
  read_to_string = some "text";
  from_str = λ raw. some stored_checkpoint;
}

load_or_init_checkpoint-Loaded_example :
    Loaded checkpoint_file taskfile "h" (load_or_init_checkpoint checkpoint_file "t" taskfile "h")
load_or_init_checkpoint-Loaded_example =
    load_or_init_checkpoint-Loaded checkpoint_file "t" taskfile "h"
