-- ===== src/TaskGraph/Complete.antt =====
-- The cycles that `topo_order` of src/taskgraph.rs reports.
use local_agent.Base.{
  ℕ, ◌+◌, ◌≤◌, String, ◌≡◌, ◌≢◌, refl, ◌∙◌, sym, ap, inl, inr, true, false, none, some, List, [],
  ◌∷◌, ◌++◌, arith, All, length, one_if, occurrences, occurrences-any, any-occurrences,
  length_of_occurrences, str_eq, eq_iff, Bool-cases, Option-cases,
}
use local_agent.Base.Assoc.{Assoc}
use local_agent.TaskGraph.{
  TaskNode, TaskFile, dependency_cycle, failed, done, contains_id, ids_of, first_duplicate, Graph,
  no_indegrees, add_nodes, sort_edges, check_length, run_graph, topo_order,
}
use local_agent.TaskGraph.Build.{deps_of}
use local_agent.TaskGraph.Release.{remaining-held, contains_id-push}
use local_agent.TaskGraph.Order.{InOrder, Placed, Ended}
use local_agent.TaskGraph.Topo.{
  length-ids_of, and_then-failed, add_nodes-failed, topo_order-duplicate, topo_order-distinct,
  start_edges, start_Ended, Ended-fits,
}

not_held : (xs : List String) (v : String) → contains_id xs v ≡ false → occurrences v xs ≡ 0
unfolding occurrences
not_held [] v h = refl
not_held (x ∷ xs) v h = ground (arith, not_held xs v)

distinct-occurrences :
    (seen : List String) (nodes : List TaskNode) (v : String)
    → first_duplicate seen nodes ≡ none
    → occurrences v seen ≤ 1
    → occurrences v (ids_of nodes) + occurrences v seen ≤ 1
unfolding first_duplicate occurrences
distinct-occurrences seen [] v h l = omega arith
distinct-occurrences seen (n ∷ nodes) v h l = elim (Bool-cases (contains_id seen n.id)) [
  | inl e ↦ absurd (ground arith)
  | inr e ↦
      let gone = not_held seen n.id e in
      let fresh : one_if (str_eq n.id v) + occurrences v seen ≤ 1 = ground (arith, eq_iff n.id v) in
      let ih = distinct-occurrences (n.id ∷ seen) nodes v (ground arith) fresh in omega arith
]

module _ (nodes : List TaskNode) (edges : Assoc (List String)) (m : Assoc ℕ) (res : List String)
    (placed : (v : String) → Placed nodes edges m [] res v) where
  -- A node all of whose dependencies are put out is put out.
  next_held :
      (v : String)
      → contains_id (ids_of nodes) v ≡ true
      → All (λ d. contains_id res d ≡ true) (deps_of nodes v)
      → contains_id res v ≡ true
  unfolding occurrences
  next_held v inside held = elim (placed v) [
    | inl (outside, _, _) ↦ cc
    | inr (_, _, n) ↦
        let z = remaining-held res (deps_of nodes v) held in any-occurrences v res (ground arith)
  ]

  All-held :
      (seen ds : List String)
      → ((d : String) → contains_id seen d ≡ true → contains_id res d ≡ true)
      → All (λ d. contains_id seen d ≡ true) ds
      → All (λ d. contains_id res d ≡ true) ds
  All-held seen [] h a = tt
  All-held seen (d ∷ ds) h (first, a) = (h d first, All-held seen ds h a)

  order-held :
      (seen vs : List String)
      → InOrder nodes seen vs
      → ((d : String) → contains_id seen d ≡ true → contains_id res d ≡ true)
      → ((v : String) → contains_id vs v ≡ true → contains_id (ids_of nodes) v ≡ true)
      → (v : String) → contains_id vs v ≡ true
      → contains_id res v ≡ true
  order-held seen [] o h inside v there = cc
  order-held seen (w ∷ vs) (first, o) h inside v there =
      let here : contains_id res w ≡ true =
        next_held w (inside w (ground (arith, eq_iff w w)))
          (All-held seen (deps_of nodes w) h first) in
      let later =
        order-held (seen ++ w ∷ []) vs o
          (λ d k. ground (arith, contains_id-push seen w d, h d, eq_iff w d))
          (λ d k. inside d (ground arith)) v in
      ground (arith, eq_iff w v)

module _ (nodes : List TaskNode) (g : Graph)
    (built : add_nodes nodes (record { indegree = no_indegrees nodes []; edges = [] }) ≡ done g)
    (res : List String)
    (ended : Ended nodes (sort_edges g.edges) (start_edges nodes g built) res) where
  -- Where there is an order of distinct ids, all nodes are put out.
  Ended-length :
      (order : List String)
      → first_duplicate [] nodes ≡ none
      → ((v : String) → occurrences v order ≡ occurrences v (ids_of nodes))
      → InOrder nodes [] order
      → length res ≡ length nodes
  unfolding occurrences
  Ended-length order distinct same o =
      let held : (v : String) → contains_id order v ≡ true → contains_id res v ≡ true =
        order-held nodes (sort_edges g.edges) ended.m res ended.placed [] order o (λ d k. cc)
          (λ v k.
            (let a = occurrences-any v order k in
              let b = same v in any-occurrences v (ids_of nodes) (omega arith))) in
      let more : (v : String) → occurrences v order ≤ occurrences v res =
        λ v. order_fits v (held v) (same v) in
      let a = length_of_occurrences order res more in
      let b = length_of_occurrences (ids_of nodes) order λ v. (let k = same v in omega arith) in
      let c = length_of_occurrences res (ids_of nodes) (Ended-fits nodes g built res ended) in
      let d = length-ids_of nodes in omega arith
    where
      order_fits :
          (v : String)
          → (contains_id order v ≡ true → contains_id res v ≡ true)
          → occurrences v order ≡ occurrences v (ids_of nodes)
          → occurrences v order ≤ occurrences v res
      order_fits v held same = elim (Bool-cases (contains_id order v)) [
        | inl e ↦
            let a = occurrences-any v res (held e) in
            let b = distinct-occurrences [] nodes v distinct (omega arith) in omega arith
        | inr e ↦ (let a = not_held order v e in omega arith)
      ]

check_length-cycle :
    (nodes : List TaskNode) (res : List String)
    → length res ≡ length nodes
    → check_length nodes (some res) ≢ failed dependency_cycle
check_length-cycle nodes res l h = ground arith

-- Where the ids of the nodes can be put in an order, each as often as a node has it and after all of
-- its dependencies, `topo_order` reports no cycle.
pub topo_order_complete :
    (taskfile : TaskFile) (order : List String)
    → ((v : String) → occurrences v order ≡ occurrences v (ids_of taskfile.nodes))
    → InOrder taskfile.nodes [] order
    → topo_order taskfile ≢ failed dependency_cycle
topo_order_complete taskfile order same o h =
    elim (Option-cases (first_duplicate [] taskfile.nodes)) [
      | inr (id, e) ↦ (let k = sym (topo_order-duplicate taskfile id e) ∙ h in cc)
      | inl e ↦
          elim (and_then-failed _ (run_graph taskfile.nodes)
            (sym (topo_order-distinct taskfile e) ∙ h)) [
              | inl x ↦
                  (let (node, dep, k) = add_nodes-failed taskfile.nodes _ dependency_cycle x in cc)
              | inr (g, built, x) ↦
                  let (res, ran, ended) = start_Ended taskfile.nodes g built in
                  let all = Ended-length taskfile.nodes g built res ended order e same o in
                  check_length-cycle taskfile.nodes res all
                    (sym (ap (check_length taskfile.nodes) ran) ∙ x)
            ]
    ]
