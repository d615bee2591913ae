-- ===== src/TaskGraph/Build.antt =====
-- What the graph of the nodes holds: a node's number is that of its dependencies, and each of them
-- has an edge to it for every time that it is listed.
use local_agent.Base.{
  ℕ, suc, ◌+◌, String, ◌≡◌, refl, ◌∙◌, sym, ap, inl, inr, Option, none, some, List, [], ◌∷◌, ◌++◌,
  arith, length, any, length-append, occurrences, occurrences-append, occurrences-sort, str_eq,
  eq_iff, unwrap_or, Bool-cases, if◌then◌else◌,
}
use local_agent.Base.Assoc.{Assoc, lookup, insert, contains_key, lookup-insert, lookup-update}
use local_agent.TaskGraph.{
  TaskNode, Ordered, failed, done, and_then, ids_of, Graph, no_indegrees, add_edge,
  add_dependencies, add_nodes, sort_edges,
}

-- All dependencies that are listed under an id.
unfoldable pub deps_of : List TaskNode → String → List String
deps_of [] v = []
deps_of (n ∷ nodes) v = (if str_eq n.id v then n.depends_on else []) ++ deps_of nodes v

abbrev pub edges_at : String → Assoc (List String) → List String
edges_at u edges = unwrap_or (lookup u edges) []

abbrev pub more : ℕ → Option ℕ → Option ℕ
more n none = none
more n (some k) = some (k + n)

-- What a graph gains: `d v` are the dependencies that are added to `v`.
pub record Gains (g g' : Graph) (d : String → List String) : Type 0 where
  pub degrees : (v : String) → lookup v g'.indegree ≡ more (length (d v)) (lookup v g.indegree)
  pub edges :
      (u v : String)
      → occurrences v (edges_at u g'.edges)
        ≡ occurrences v (edges_at u g.edges) + occurrences u (d v)

more_zero : (o : Option ℕ) → more 0 o ≡ o
more_zero none = refl
more_zero (some k) = ap some (omega arith)

more_more : (m n : ℕ) (o : Option ℕ) → more n (more m o) ≡ more (m + n) o
more_more m n none = refl
more_more m n (some k) = ap some (omega arith)

Gains-nothing :
    (g g' : Graph) (d : String → List String)
    → done g ≡ done g'
    → ((v : String) → d v ≡ [])
    → Gains g g' d
unfolding occurrences
Gains-nothing g g' d same nothing =
    let e : g ≡ g' = cc in
    record {
      degrees = λ v. rw (← e, nothing v) (sym (more_zero (lookup v g.indegree)));
      edges = λ u v. rw (← e, nothing v) (omega arith);
    }

Gains-trans :
    (g g1 g2 : Graph) (d e f : String → List String)
    → Gains g g1 d
    → Gains g1 g2 e
    → ((v : String) → d v ++ e v ≡ f v)
    → Gains g g2 f
Gains-trans g g1 g2 d e f a b same = record {
  degrees = λ v.
      b.degrees v
      ∙ ap (more (length (e v))) (a.degrees v)
      ∙ more_more (length (d v)) (length (e v)) (lookup v g.indegree)
      ∙ ap (λ n. more n (lookup v g.indegree))
          (sym (length-append (d v) (e v)) ∙ ap length (same v));
  edges = λ u v.
      (let x = a.edges u v in
        let y = b.edges u v in
        let z = sym (occurrences-append u (d v) (e v)) ∙ ap (occurrences u) (same v) in
        omega arith);
}

one_dep : String → String → String → List String
one_dep id dep v = if str_eq id v then dep ∷ [] else []

add_edge-Gains : (id dep : String) (g : Graph) → Gains g (add_edge id dep g) (one_dep id dep)
unfolding one_dep occurrences
add_edge-Gains id dep g = record {
  degrees = λ v. ground (arith, lookup-update id v suc g.indegree);
  edges = λ u v. ground (
    arith,
    lookup-insert dep u (edges_at dep g.edges ++ id ∷ []) g.edges,
    occurrences-append v (edges_at dep g.edges) (id ∷ []),
    eq_iff dep u,
  );
}

under : String → List String → String → List String
under id deps v = if str_eq id v then deps else []

under-cons :
    (id dep : String) (deps : List String) (v : String)
    → one_dep id dep v ++ under id deps v ≡ under id (dep ∷ deps) v
unfolding one_dep under
under-cons id dep deps v = ground arith

under-nil : (id v : String) → under id [] v ≡ []
unfolding under
under-nil id v = ground arith

add_dependencies-Gains :
    (id : String) (deps : List String) (g g' : Graph)
    → add_dependencies id deps g ≡ done g'
    → Gains g g' (under id deps)
unfolding add_dependencies
add_dependencies-Gains id [] g g' h = Gains-nothing g g' _ h (under-nil id)
add_dependencies-Gains id (dep ∷ deps) g g' h = elim (Bool-cases (contains_key dep g.indegree)) [
  | inl there ↦
      Gains-trans g (add_edge id dep g) g' (one_dep id dep) (under id deps) (under id (dep ∷ deps))
        (add_edge-Gains id dep g)
        (add_dependencies-Gains id deps (add_edge id dep g) g' (ground arith))
        (under-cons id dep deps)
  | inr missing ↦ absurd (ground arith)
]

pub and_then-done {ℓ κ} :
    {A : Type ℓ} {B : Type κ} (m : Ordered A) (f : A → Ordered B) {b : B}
    → and_then m f ≡ done b
    → (a : A) × (m ≡ done a) × (f a ≡ done b)
and_then-done (failed e) f h = cc
and_then-done (done a) f h = (a, refl, h)

pub add_nodes-Gains :
    (nodes : List TaskNode) (g g' : Graph)
    → add_nodes nodes g ≡ done g'
    → Gains g g' (deps_of nodes)
unfolding add_nodes deps_of under
add_nodes-Gains [] g g' h = Gains-nothing g g' _ h (λ v. refl)
add_nodes-Gains (n ∷ nodes) g g' h =
    let (g1, first, rest) =
      and_then-done (add_dependencies n.id n.depends_on g) (add_nodes nodes) h in
    Gains-trans g g1 g' (under n.id n.depends_on) (deps_of nodes) (deps_of (n ∷ nodes))
      (add_dependencies-Gains n.id n.depends_on g g1 first) (add_nodes-Gains nodes g1 g' rest)
      (λ v. refl)

-- The graph before any dependency: each id has the number zero.
pub no_indegrees-lookup :
    (nodes : List TaskNode) (m : Assoc ℕ) (v : String)
    → lookup v (no_indegrees nodes m)
      ≡ (if any (λ p. str_eq p v) (ids_of nodes) then some 0 else lookup v m)
unfolding no_indegrees
no_indegrees-lookup [] m v = refl
no_indegrees-lookup (n ∷ nodes) m v =
    ground (arith, no_indegrees-lookup nodes (insert n.id 0 m) v, lookup-insert n.id v 0 m)

-- Sorting the edges does not change how often each is there.
pub edges_at-sort_edges :
    (u v : String) (edges : Assoc (List String))
    → occurrences v (edges_at u (sort_edges edges)) ≡ occurrences v (edges_at u edges)
unfolding sort_edges lookup
edges_at-sort_edges u v [] = refl
edges_at-sort_edges u v ((j, out) ∷ edges) =
    ground (arith, occurrences-sort v out, edges_at-sort_edges u v edges)
