-- ===== src/Graph/Validate/Laws.antt =====
-- graph/model.py: what a graph satisfies when `validate` finds no problem.
use tecnosor_sas_migration_d.Common.{
  String, Bool, true, false, List, [], ◌∷◌, ◌++◌, ◌==◌, length, sym, ap, ◌∙◌, ◌≡◌, ◌≢◌, refl, arith,
  eq_iff, Bool-cases, inl, inr, filter, not, mem, All,
}
use tecnosor_sas_migration_d.Common.Sorting
use tecnosor_sas_migration_d.Graph.Model.{
  EdgeDef, NodeDef, GraphDef, node_types, node_ids, has_node,
}
use tecnosor_sas_migration_d.Graph.Reach.{text_before, reachable_nodes}
use tecnosor_sas_migration_d.Graph.Reach.Laws.{Reachable, reachable_nodes-Reachable}
use tecnosor_sas_migration_d.Graph.Validate.{
  Problem, when, node_ids_valid, edge_problems, needs_handler, node_problems, unreachable_nodes,
  unreachable_problem, problems,
}

-- An edge of a valid graph joins two different nodes of it.
pub record IsSound (g : GraphDef) (e : EdgeDef) : Type 0 where
  pub source : has_node g e.source ≡ true
  pub target : has_node g e.target ≡ true
  pub no_loop : e.source ≢ e.target

-- A graph that the engine can run.
pub record IsWellFormed (g : GraphDef) : Type 0 where
  pub ids : node_ids_valid g ≡ true
  pub entry : has_node g g.entry ≡ true
  pub edges : All (IsSound g) g.edges
  pub types : All (λ n. (mem n.node_type node_types ≡ true) × (needs_handler n ≡ false)) g.nodes
  pub reachable : All (Reachable g) (node_ids g)

append_empty : (xs ys : List Problem) → xs ++ ys ≡ [] → (xs ≡ []) × (ys ≡ [])
append_empty [] ys h = (refl, h)
append_empty (x ∷ xs) ys h = absurd (cc)

when_empty : (b : Bool) (p : Problem) → when b p ≡ [] → b ≡ false
when_empty true p h = absurd (cc)
when_empty false p h = refl

when-not_empty : (b : Bool) (p : Problem) → when (not b) p ≡ [] → b ≡ true
when-not_empty true p h = refl
when-not_empty false p h = absurd (cc)

edge_problems-IsSound :
    (g : GraphDef) (es : List EdgeDef) → edge_problems g es ≡ [] → All (IsSound g) es
unfolding edge_problems
edge_problems-IsSound g [] h = tt
edge_problems-IsSound g (e ∷ es) h =
    let (a, h1) = append_empty _ _ h in
    let (b, h2) = append_empty _ _ h1 in
    let (c, h3) = append_empty _ _ h2 in
    let loop : (e.source == e.target) ≡ false = when_empty _ _ c in
    (
      record {
        source = when-not_empty _ _ a;
        target = when-not_empty _ _ b;
        no_loop = λ p. absurd (cc (loop, (eq_iff e.source e.target).1 p));
      },
      edge_problems-IsSound g es h3,
    )

node_problems-types :
    (ns : List NodeDef)
    → node_problems ns ≡ []
    → All (λ n. (mem n.node_type node_types ≡ true) × (needs_handler n ≡ false)) ns
unfolding node_problems
node_problems-types [] h = tt
node_problems-types (n ∷ ns) h =
    let (a, h1) = append_empty _ _ h in
    let (b, h2) = append_empty _ _ h1 in
    ((when-not_empty _ _ a, when_empty _ _ b), node_problems-types ns h2)

unreachable_empty : (ks : List String) → unreachable_problem ks ≡ [] → ks ≡ []
unreachable_empty [] h = refl
unreachable_empty (k ∷ ks) h = absurd (cc)

sorted_empty :
    (g : GraphDef)
    → unreachable_nodes g ≡ []
    → filter (λ k. not (mem k (reachable_nodes g))) (node_ids g) ≡ []
unfolding unreachable_nodes
sorted_empty g h = no_length _ (
    sym
      (Sorting.length-sort text_before (filter (λ k. not (mem k (reachable_nodes g))) (node_ids g)))
    ∙ ap length h)
  where
    no_length : (xs : List String) → length xs ≡ 0 → xs ≡ []
    no_length [] h = refl
    no_length (x ∷ xs) h = absurd (omega (arith, h))

listed-Reachable :
    (g : GraphDef) (ks : List String)
    → filter (λ k. not (mem k (reachable_nodes g))) ks ≡ []
    → All (Reachable g) ks
listed-Reachable g [] h = tt
listed-Reachable g (k ∷ ks) h = elim (Bool-cases (mem k (reachable_nodes g))) [
  | inl there ↦ ((reachable_nodes-Reachable g k).0 there, listed-Reachable g ks (rw there at h))
  | inr missing ↦ absurd (cc (rw missing at h))
]

-- When `validate` finds no problem, the graph is well formed: ids are non-empty and distinct, the
-- entry is a node, every edge joins two different nodes, types are legal with their handlers, and
-- a path from the entry leads to every node.
pub problems-IsWellFormed : (g : GraphDef) → problems g ≡ [] → IsWellFormed g
unfolding problems
problems-IsWellFormed g h =
    let (a, h1) = append_empty _ _ h in
    let (b, h2) = append_empty _ _ h1 in
    let (c, h3) = append_empty _ _ h2 in
    let (d, h4) = append_empty _ _ h3 in
    let (e, h5) = append_empty _ _ h4 in
    record {
      ids = when-not_empty _ _ a;
      entry = when-not_empty _ _ c;
      edges = edge_problems-IsSound g g.edges d;
      types = node_problems-types g.nodes e;
      reachable = listed-Reachable g (node_ids g) (sorted_empty g (unreachable_empty _ h5));
    }
