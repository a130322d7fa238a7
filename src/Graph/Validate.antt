-- ===== src/Graph/Validate.antt =====
-- graph/model.py: `validate`, the problems of a graph in the order in which they are found. The list
-- is what GraphValidationError carries; an empty one is a graph that passes. `nodes` is a dictionary in
-- the source, so the test of duplicate ids is on its keys.
pub mod Laws
use tecnosor_sas_migration_d.Common.{
  ℕ, String, Bool, true, false, List, [], ◌∷◌, ◌++◌, ◌==◌, ◌&&◌, ◌||◌, not, map, filter, mem,
  is_empty, if◌then◌else◌,
}
use tecnosor_sas_migration_d.Common.Sorting
use tecnosor_sas_migration_d.Graph.Model.{
  EdgeDef, NodeDef, GraphDef, node_types, node_ids, has_node,
}
use tecnosor_sas_migration_d.Graph.Reach.{text_before, reachable_nodes}

pub data Problem : Type 0 where
  bad_ids no_nodes : Problem
  entry_missing unknown_source unknown_target self_loop : String → Problem
  illegal_type handler_required : String → String → Problem
  unreachable : List String → Problem

abbrev pub when : Bool → Problem → List Problem
when true p = p ∷ []
when false p = []

-- `len(xs) == len(set(xs))`
unfoldable pub is_distinct : List String → Bool
is_distinct [] = true
is_distinct (x ∷ xs) = not (mem x xs) && is_distinct xs

unfoldable pub node_ids_valid : GraphDef → Bool
node_ids_valid g = not (mem "" (node_ids g)) && is_distinct (node_ids g)

unfoldable pub edge_problems : GraphDef → List EdgeDef → List Problem
edge_problems g [] = []
edge_problems g (e ∷ es) =
    when (not (has_node g e.source)) (unknown_source e.source)
    ++ (when (not (has_node g e.target)) (unknown_target e.target)
        ++ (when (e.source == e.target) (self_loop e.source) ++ edge_problems g es))

abbrev pub needs_handler : NodeDef → Bool
needs_handler n = (n.node_type == "deterministic" || n.node_type == "opencode") && n.handler == ""

unfoldable pub node_problems : List NodeDef → List Problem
node_problems [] = []
node_problems (n ∷ ns) =
    when (not (mem n.node_type node_types)) (illegal_type n.id n.node_type)
    ++ (when (needs_handler n) (handler_required n.id n.node_type) ++ node_problems ns)

-- `sorted(set(self.nodes) - reachable)`
unfoldable pub unreachable_nodes : GraphDef → List String
unreachable_nodes g =
    Sorting.sort text_before (filter (λ k. not (mem k (reachable_nodes g))) (node_ids g))

abbrev pub unreachable_problem : List String → List Problem
unreachable_problem [] = []
unreachable_problem (k ∷ ks) = unreachable (k ∷ ks) ∷ []

unfoldable pub problems : GraphDef → List Problem
problems g =
    when (not (node_ids_valid g)) bad_ids
    ++ (when (is_empty g.nodes) no_nodes
        ++ (when (not (has_node g g.entry)) (entry_missing g.entry)
            ++ (edge_problems g g.edges
                ++ (node_problems g.nodes ++ unreachable_problem (unreachable_nodes g)))))
