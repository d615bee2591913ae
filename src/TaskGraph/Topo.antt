-- ===== src/TaskGraph/Topo.antt =====
-- The order that `topo_order` of src/taskgraph.rs returns, and its fuel.
use local_agent.Base.{
  ℕ, suc, ◌+◌, ◌≤◌, String, ◌≡◌, ◌≢◌, refl, ◌∙◌, sym, ap, ◌⊎◌, inl, inr, Option, none, some, List,
  [], ◌∷◌, arith, ◌==◌, ==_iff, length, one_if, occurrences, occurrences_of_length, eq_iff,
  Bool-cases, Option-cases, if◌then◌else◌,
}
use local_agent.Base.Assoc.{
  Assoc, lookup, insert, contains_key, IsMap, IsMap-insert, IsMap-update, lookup-Above,
}
use local_agent.TaskGraph.{
  TaskNode, TaskFile, TaskError, duplicate_node_id, unknown_dependency, out_of_fuel, Ordered,
  failed, done, and_then, contains_id, ids_of, first_duplicate, Graph, no_indegrees, add_edge,
  add_dependencies, add_nodes, sort_edges, ready, run_queue, check_length, run_graph, topo_order,
}
use local_agent.TaskGraph.Build.{
  deps_of, edges_at, more, add_nodes-Gains, and_then-done, no_indegrees-lookup, edges_at-sort_edges,
}
use local_agent.TaskGraph.Release.{remaining, remaining-nil}
use local_agent.TaskGraph.Order.{InOrder, Placed, Placed-occurrences, Ended, run_queue-Ended}

-- The graph keeps its nodes in a map.
no_indegrees-IsMap : (nodes : List TaskNode) (m : Assoc ℕ) → IsMap m → IsMap (no_indegrees nodes m)
unfolding no_indegrees
no_indegrees-IsMap [] m h = h
no_indegrees-IsMap (n ∷ nodes) m h =
    no_indegrees-IsMap nodes (insert n.id 0 m) (IsMap-insert n.id 0 m h)

done-injective : (g g' : Graph) → done g ≡ done g' → g ≡ g'
done-injective g g' h = cc

add_dependencies-IsMap :
    (id : String) (deps : List String) (g g' : Graph)
    → add_dependencies id deps g ≡ done g'
    → IsMap g.indegree
    → IsMap g'.indegree
unfolding add_dependencies
add_dependencies-IsMap id [] g g' h o = (let e : g ≡ g' = done-injective g g' h in rw (← e) o)
add_dependencies-IsMap id (dep ∷ deps) g g' h o =
    add_dependencies-IsMap id deps (add_edge id dep g) g' (ground arith)
      (IsMap-update id suc g.indegree o)

add_nodes-IsMap :
    (nodes : List TaskNode) (g g' : Graph)
    → add_nodes nodes g ≡ done g'
    → IsMap g.indegree
    → IsMap g'.indegree
unfolding add_nodes
add_nodes-IsMap [] g g' h o = (let e : g ≡ g' = done-injective g g' h in rw (← e) o)
add_nodes-IsMap (n ∷ nodes) g g' h o =
    let (g1, first, rest) =
      and_then-done (add_dependencies n.id n.depends_on g) (add_nodes nodes) h in
    add_nodes-IsMap nodes g1 g' rest (add_dependencies-IsMap n.id n.depends_on g g1 first o)

abbrev zero_at : Option ℕ → ℕ
zero_at none = 0
zero_at (some d) = one_if (d == 0)

ready-occurrences :
    (v : String) (m : Assoc ℕ) → IsMap m → occurrences v (ready m) ≡ zero_at (lookup v m)
unfolding ready occurrences lookup
ready-occurrences v [] h = refl
ready-occurrences v ((id, d) ∷ m) (above, h) =
    ground (arith, ready-occurrences v m h, lookup-Above id m above, eq_iff id v)

pub length-ids_of : (nodes : List TaskNode) → length (ids_of nodes) ≡ length nodes
length-ids_of [] = refl
length-ids_of (n ∷ nodes) = ap suc (length-ids_of nodes)

module _ (nodes : List TaskNode) (g : Graph)
    (built : add_nodes nodes (record { indegree = no_indegrees nodes []; edges = [] })
      ≡ done g) where
  pub start_edges :
      (u v : String)
      → occurrences v (edges_at u (sort_edges g.edges)) ≡ occurrences u (deps_of nodes v)
  unfolding occurrences lookup
  start_edges u v =
      let e = (add_nodes-Gains nodes _ g built).edges u v in
      edges_at-sort_edges u v g.edges ∙ e ∙ omega arith

  start_degrees :
      (v : String)
      → lookup v g.indegree
        ≡ more (length (deps_of nodes v)) (if contains_id (ids_of nodes) v then some 0 else none)
  unfolding lookup
  start_degrees v =
      (add_nodes-Gains nodes _ g built).degrees v
      ∙ ap (more (length (deps_of nodes v))) (no_indegrees-lookup nodes [] v)

  start_Placed : (v : String) → Placed nodes (sort_edges g.edges) g.indegree (ready g.indegree) [] v
  unfolding occurrences
  start_Placed v =
      let d = start_degrees v in
      let o = add_nodes-IsMap nodes _ g built (no_indegrees-IsMap nodes [] tt) in
      let r = ready-occurrences v g.indegree o in
      let l = remaining-nil (deps_of nodes v) in
      elim (Bool-cases (contains_id (ids_of nodes) v)) [
        | inr e ↦
            let at : lookup v g.indegree ≡ none = d ∙ rw e refl in
            let z = r ∙ ap zero_at at in inl (e, at, omega arith)
        | inl e ↦
            let start : lookup v g.indegree ≡ some (0 + length (deps_of nodes v)) = d ∙ rw e refl in
            let at : lookup v g.indegree ≡ some (remaining [] (deps_of nodes v)) =
              start ∙ ap some (omega arith) in
            let z = r ∙ ap zero_at at in inr (e, at, omega arith)
      ]

  -- The loop ends within its fuel.
  pub start_Ended :
      (res : List String) × (run_queue
          (length nodes)
          (sort_edges g.edges)
          g.indegree
          (ready g.indegree)
          []
        ≡ some res)
      × Ended nodes (sort_edges g.edges) start_edges res
  start_Ended =
      run_queue-Ended nodes (sort_edges g.edges) start_edges (length nodes) g.indegree
        (ready g.indegree) [] start_Placed tt (let k = length-ids_of nodes in omega arith)

  pub Ended-fits :
      (res : List String)
      → Ended nodes (sort_edges g.edges) start_edges res
      → (v : String) → occurrences v res ≤ occurrences v (ids_of nodes)
  unfolding occurrences
  Ended-fits res e v =
      let k = Placed-occurrences nodes (sort_edges g.edges) start_edges e.m [] res v (e.placed v) in
      omega arith

  -- What is put out, if it has the length of the nodes, has the ids of the nodes, each as often.
  Ended-occurrences :
      (res : List String)
      → Ended nodes (sort_edges g.edges) start_edges res
      → length res ≡ length nodes
      → (v : String) → occurrences v res ≡ occurrences v (ids_of nodes)
  Ended-occurrences res e l =
      occurrences_of_length res (ids_of nodes) (Ended-fits res e)
        (let k = length-ids_of nodes in omega arith)

check_length-done :
    (nodes : List TaskNode) (res out : List String)
    → check_length nodes (some res) ≡ done out
    → (res ≡ out) × (length res ≡ length nodes)
check_length-done nodes res out h = elim (Bool-cases (length res == length nodes)) [
  | inl e ↦
      let fits : check_length nodes (some res) ≡ done res = rw e refl in
      (done-res res out (sym fits ∙ h), (==_iff (length res) (length nodes)).0 e)
  | inr e ↦ absurd (ground arith)
]
  where
    done-res : (res out : List String) → done res ≡ done out → res ≡ out
    done-res res out k = cc

abbrev IsOrder : List TaskNode → List String → Type 0
IsOrder nodes out =
    ((v : String) → occurrences v out ≡ occurrences v (ids_of nodes)) × InOrder nodes [] out

run_graph-IsOrder :
    (nodes : List TaskNode) (g : Graph) (out : List String)
    → add_nodes nodes (record { indegree = no_indegrees nodes []; edges = [] }) ≡ done g
    → run_graph nodes g ≡ done out
    → IsOrder nodes out
run_graph-IsOrder nodes g out built h =
    let (res, e, ended) = start_Ended nodes g built in
    let (same, l) = check_length-done nodes res out (sym (ap (check_length nodes) e) ∙ h) in
    rw (← same) (Ended-occurrences nodes g built res ended l, ended.order)

pub topo_order-duplicate :
    (taskfile : TaskFile) (id : String)
    → first_duplicate [] taskfile.nodes ≡ some id
    → topo_order taskfile ≡ failed (duplicate_node_id id)
unfolding topo_order
topo_order-duplicate taskfile id e = rw (e, topo_order) refl

pub topo_order-distinct :
    (taskfile : TaskFile)
    → first_duplicate [] taskfile.nodes ≡ none
    → topo_order taskfile
      ≡ and_then
          (add_nodes taskfile.nodes
            (record { indegree = no_indegrees taskfile.nodes []; edges = [] }))
          (run_graph taskfile.nodes)
unfolding topo_order
topo_order-distinct taskfile e = rw (e, topo_order) refl

-- An order that is returned has the ids of the nodes, each as often as it stands there, and each id
-- after all of its dependencies.
pub topo_order_sound :
    (taskfile : TaskFile) (out : List String)
    → topo_order taskfile ≡ done out
    → ((v : String) → occurrences v out ≡ occurrences v (ids_of taskfile.nodes))
      × InOrder taskfile.nodes [] out
topo_order_sound taskfile out h = elim (Option-cases (first_duplicate [] taskfile.nodes)) [
  | inr (id, e) ↦ (let k = topo_order-duplicate taskfile id e in absurd (failed-done (sym k ∙ h)))
  | inl e ↦
      let (g, built, run) =
        and_then-done _ (run_graph taskfile.nodes) (sym (topo_order-distinct taskfile e) ∙ h) in
      run_graph-IsOrder taskfile.nodes g out built run
]
  where
    failed-done : {e : TaskError} {out : List String} → failed e ≡ done out → ⊥
    failed-done k = cc

-- The graph is refused only for a dependency that no node has.
add_dependencies-failed :
    (id : String) (deps : List String) (g : Graph) (e : TaskError)
    → add_dependencies id deps g ≡ failed e
    → (node dep : String) × (e ≡ unknown_dependency node dep)
unfolding add_dependencies
add_dependencies-failed id [] g e h = cc
add_dependencies-failed id (dep ∷ deps) g e h = elim (Bool-cases (contains_key dep g.indegree)) [
  | inl there ↦ add_dependencies-failed id deps (add_edge id dep g) e (ground arith)
  | inr missing ↦ (id, dep, ground arith)
]

pub and_then-failed {ℓ κ} :
    {A : Type ℓ} {B : Type κ} (m : Ordered A) (f : A → Ordered B) {e : TaskError}
    → and_then m f ≡ failed e
    → (m ≡ failed e) ⊎ ((a : A) × (m ≡ done a) × (f a ≡ failed e))
and_then-failed (failed x) f h = inl (ground arith)
and_then-failed (done a) f h = inr (a, refl, h)

pub add_nodes-failed :
    (nodes : List TaskNode) (g : Graph) (e : TaskError)
    → add_nodes nodes g ≡ failed e
    → (node dep : String) × (e ≡ unknown_dependency node dep)
unfolding add_nodes
add_nodes-failed [] g e h = cc
add_nodes-failed (n ∷ nodes) g e h =
    elim (and_then-failed (add_dependencies n.id n.depends_on g) (add_nodes nodes) h) [
      | inl x ↦ add_dependencies-failed n.id n.depends_on g e x
      | inr (g', _, x) ↦ add_nodes-failed nodes g' e x
    ]

check_length-fuel :
    (nodes : List TaskNode) (res : List String) → check_length nodes (some res) ≢ failed out_of_fuel
check_length-fuel nodes res h = elim (Bool-cases (length res == length nodes)) [
  | inl e ↦ ground arith
  | inr e ↦ ground arith
]

-- The number of nodes is enough fuel: `topo_order` never runs out of it.
pub topo_order-terminates : (taskfile : TaskFile) → topo_order taskfile ≢ failed out_of_fuel
topo_order-terminates taskfile h = elim (Option-cases (first_duplicate [] taskfile.nodes)) [
  | inr (id, e) ↦ (let k = sym (topo_order-duplicate taskfile id e) ∙ h in cc)
  | inl e ↦
      elim (and_then-failed _ (run_graph taskfile.nodes)
        (sym (topo_order-distinct taskfile e) ∙ h)) [
          | inl x ↦ (let (node, dep, k) = add_nodes-failed taskfile.nodes _ out_of_fuel x in cc)
          | inr (g, built, x) ↦
              let (res, ran, _) = start_Ended taskfile.nodes g built in
              check_length-fuel taskfile.nodes res (sym (ap (check_length taskfile.nodes) ran) ∙ x)
        ]
]
