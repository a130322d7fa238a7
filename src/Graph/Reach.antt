-- ===== src/Graph/Reach.antt =====
-- graph/model.py: `reachable_nodes`, the visit of the nodes that the entry leads to. The frontier is a
-- stack with its top first. `visit` stops when its fuel is used; `reachable_nodes` gives it one more
-- than the edges, since a node is expanded once and pushes at most its outgoing edges.
pub mod Search
pub mod Laws
use Prim.Native.String.{compare}
use text.Mathlib.Text.{is_lt}
use tecnosor_sas_migration_d.Common.{
  ℕ, zero, suc, String, Bool, List, [], ◌∷◌, mem, length, if◌then◌else◌,
}
use tecnosor_sas_migration_d.Common.Sorting
use tecnosor_sas_migration_d.Graph.Model.{EdgeDef, GraphDef, outgoing}

-- `if edge.target not in seen: frontier.append(edge.target)`
unfoldable pub push : List String → List EdgeDef → List String → List String
push seen [] stack = stack
push seen (e ∷ es) stack = push seen es (if mem e.target seen then stack else e.target ∷ stack)

unfoldable pub visit : GraphDef → ℕ → List String → List String → List String
visit g zero frontier seen = seen
visit g (suc fuel) [] seen = seen
visit g (suc fuel) (k ∷ ks) seen =
    visit g fuel (if mem k seen then ks else push (k ∷ seen) (outgoing g k) ks)
      (if mem k seen then seen else k ∷ seen)

abbrev pub text_before : String → String → Bool
text_before x y = is_lt (compare x y)

unfoldable pub reachable_nodes : GraphDef → List String
reachable_nodes g = Sorting.sort text_before (visit g (suc (length g.edges)) (g.entry ∷ []) [])
