-- ===== src/Graph/Load/Laws.antt =====
-- graph/model.py and graph/loader.py: a graph that loads is well formed.
use tecnosor_sas_migration_d.Common.{List, [], ◌∷◌, ◌≡◌, refl}
use tecnosor_sas_migration_d.Common.Json.{Json, dict, Items, Fields}
use tecnosor_sas_migration_d.Errors.{and_then, Result, ok, err}
use tecnosor_sas_migration_d.Graph.Load.{
  Builtins, GraphFile, missing_file, not_json, json_file, accept_graph, checked_graph, graph_of,
  graph_from_json, load_graph,
}
use tecnosor_sas_migration_d.Graph.Model.{GraphDef}
use tecnosor_sas_migration_d.Graph.Validate.{problems, Problem}
use tecnosor_sas_migration_d.Graph.Validate.Laws.{IsWellFormed, problems-IsWellFormed}

-- a graph that was answered
abbrev IsGood : Result GraphDef → Type 0
IsGood (ok g) = IsWellFormed g
IsGood (err e) = Unit

accept_graph-IsGood :
    (g : GraphDef) (ps : List Problem) → problems g ≡ ps → IsGood (accept_graph g ps)
accept_graph-IsGood g [] h = problems-IsWellFormed g h
accept_graph-IsGood g (p ∷ ps) h = tt

and_then-IsGood {ℓ} :
    {A : Type ℓ} (r : Result A) (f : A → Result GraphDef)
    → ((x : A) → IsGood (f x))
    → IsGood (and_then r f)
unfolding and_then
and_then-IsGood (ok x) f h = h x
and_then-IsGood (err e) f h = tt

checked_graph-IsGood : (g : GraphDef) → IsGood (checked_graph g)
unfolding checked_graph
checked_graph-IsGood g = accept_graph-IsGood g (problems g) refl

graph_of-IsGood : (b : Builtins) (fs : Fields) (ns es : Items) → IsGood (graph_of b fs ns es)
unfolding graph_of
graph_of-IsGood b fs ns es = and_then-IsGood _ _ (λ nodes. and_then-IsGood _ _ (λ edges.
    and_then-IsGood _ _ (λ phases. and_then-IsGood _ _ (λ cycles. checked_graph-IsGood _))))

graph_from_json-IsGood : (b : Builtins) (v : Json) → IsGood (graph_from_json b v)
unfolding graph_from_json
graph_from_json-IsGood b (dict fs) =
    and_then-IsGood _ _ (λ nodes. and_then-IsGood _ _ (λ edges. graph_of-IsGood b fs nodes edges))
graph_from_json-IsGood b _ = tt

load_graph-IsGood : (b : Builtins) (f : GraphFile) → IsGood (load_graph b f)
unfolding load_graph
load_graph-IsGood b missing_file = tt
load_graph-IsGood b not_json = tt
load_graph-IsGood b (json_file v) = graph_from_json-IsGood b v

-- A graph that loads is well formed, whatever the document: distinct non-empty ids, an entry, edges that
-- join two different nodes, legal types with handlers, and a path from the entry to every node.
pub load_graph-IsWellFormed :
    (b : Builtins) (f : GraphFile) (g : GraphDef) → load_graph b f ≡ ok g → IsWellFormed g
load_graph-IsWellFormed b f g h = rw h at (load_graph-IsGood b f)
