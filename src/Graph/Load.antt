-- ===== src/Graph/Load.antt =====
-- graph/model.py, `graph_from_json`, and graph/loader.py. `str` of what is no text and `int` are
-- parameters. A key stands once in a JSON object.
pub mod Laws
use tecnosor_sas_migration_d.Common.{
  ℕ, zero, suc, String, Bool, true, false, Option, none, some, List, [], ◌∷◌, ◌++◌, ◌==◌, ◌&&◌, not,
  any, is_empty, if◌then◌else◌,
}
use tecnosor_sas_migration_d.Common.Json.{
  Json, null, text, number, flag, items, dict, Items, no_items, item, Fields, no_fields, field,
}
use tecnosor_sas_migration_d.Errors.{and_then, Result, ok, err, graph_validation_error, foreign}
use tecnosor_sas_migration_d.Graph.Model.{
  ArgValue, text as arg_text, texts, Args, Condition, EdgeDef, NodeDef, GraphDef,
}
use tecnosor_sas_migration_d.Graph.Validate.{problems, Problem}

-- Python's `str` of a value that is no text, `int`, and `dict` of a list, which wants pairs
pub record Builtins : Type 0 where
  pub show : Json → String
  pub int : Json → Result ℕ
  pub dict_of : Items → Result Fields

unfoldable pub json_get : String → Fields → Option Json
json_get k no_fields = none
json_get k (field j v fs) = if j == k then some v else json_get k fs

abbrev pub str : Builtins → Json → String
str b (text s) = s
str b v = b.show v

abbrev pub str_or : Builtins → String → Option Json → String
str_or b d none = d
str_or b d (some v) = str b v

-- `bool(value)`
abbrev pub is_true : Json → Bool
is_true null = false
is_true (text s) = not (s == "")
is_true (number zero) = false
is_true (number (suc n)) = true
is_true (flag b) = b
is_true (items no_items) = false
is_true (items (item x xs)) = true
is_true (dict no_fields) = false
is_true (dict (field k v fs)) = true

abbrev pub is_true_or : Option Json → Bool
is_true_or none = false
is_true_or (some v) = is_true v

abbrev pub int_or : Builtins → ℕ → Option Json → Result ℕ
int_or b d none = ok d
int_or b d (some v) = b.int v

unfoldable pub strings : Builtins → Items → List String
strings b no_items = []
strings b (item x xs) = str b x ∷ strings b xs

-- the keys of an object, and the characters of a text, are what a loop over them gives
unfoldable pub field_names : Fields → List String
field_names no_fields = []
field_names (field k v fs) = k ∷ field_names fs

unfoldable pub letters : String → List String
letters String.[] = []
letters (String.◌∷◌ c s) = String.◌∷◌ c String.[] ∷ letters s

-- `[str(x) for x in value]`
abbrev pub strings_of : Builtins → Option Json → Result (List String)
strings_of b none = ok []
strings_of b (some (items xs)) = ok (strings b xs)
strings_of b (some (text s)) = ok (letters s)
strings_of b (some (dict fs)) = ok (field_names fs)
strings_of b (some _) = err (foreign "TypeError")

abbrev pub node_error : {A : Type 0} → Result A
node_error = err (graph_validation_error "each node needs an 'id'")

unfoldable pub node_of : Builtins → String → Fields → Result NodeDef
unfolding json_get
node_of b id fs = and_then (strings_of b (json_get "requires" fs)) (λ requires.
    and_then (int_or b 5 (json_get "max_attempts" fs)) (λ attempts. ok (record {
      id = id;
      node_type = str_or b "deterministic" (json_get "type" fs);
      phase = str_or b "" (json_get "phase" fs);
      title = str_or b "" (json_get "title" fs);
      handler = str_or b "" (json_get "handler" fs);
      agent = str_or b "" (json_get "agent" fs);
      phase_gate = is_true_or (json_get "phase_gate" fs);
      requires = requires;
      join = str_or b "all" (json_get "join" fs);
      optional = is_true_or (json_get "optional" fs);
      max_attempts = attempts;
    })))

abbrev pub has_id : String → List NodeDef → Bool
has_id id ns = any (λ n. n.id == id) ns

-- one entry of "nodes", with the nodes before it
abbrev pub add_node : Builtins → List NodeDef → Fields → Option Json → Result (List NodeDef)
add_node b ns fs none = node_error
add_node b ns fs (some v) =
    if has_id (str b v) ns
    then err (graph_validation_error "duplicate node id")
    else and_then (node_of b (str b v) fs) (λ n. ok (ns ++ n ∷ []))

abbrev pub read_node : Builtins → List NodeDef → Json → Result (List NodeDef)
read_node b ns (dict fs) = add_node b ns fs (json_get "id" fs)
read_node b ns _ = node_error

unfoldable pub read_nodes : Builtins → Items → List NodeDef → Result (List NodeDef)
read_nodes b no_items ns = ok ns
read_nodes b (item x xs) ns = and_then (read_node b ns x) (read_nodes b xs)

-- The predicates read texts and one list of texts; another argument is kept as its text.
abbrev pub arg_of : Builtins → Json → ArgValue
arg_of b (items xs) = texts (strings b xs)
arg_of b v = arg_text (str b v)

unfoldable pub args_of : Builtins → Fields → Args
args_of b no_fields = []
args_of b (field k v fs) = (k, arg_of b v) ∷ args_of b fs

-- `dict(args or {})`
abbrev pub given_args : Builtins → Json → Result Args
given_args b (dict fs) = ok (args_of b fs)
given_args b (items xs) =
    if is_true (items xs) then and_then (b.dict_of xs) (λ fs. ok (args_of b fs)) else ok []
given_args b (text s) = if s == "" then ok [] else err (foreign "ValueError")
given_args b v = if is_true v then err (foreign "TypeError") else ok []

abbrev pub args_or_none : Builtins → Option Json → Result Args
args_or_none b none = ok []
args_or_none b (some v) = given_args b v

abbrev pub condition_of : Builtins → Option Json → Result (Option Condition)
condition_of b (some (dict fs)) =
    and_then (args_or_none b (json_get "args" fs))
      (λ args. ok (some (record { name = str_or b "always" (json_get "name" fs); args = args })))
condition_of b _ = ok none

abbrev pub edge_error : {A : Type 0} → Result A
edge_error = err (graph_validation_error "edge requires 'source' and 'target'")

abbrev pub edge_of : Builtins → Fields → Option Json → Option Json → Result EdgeDef
edge_of b fs (some s) (some t) = and_then (condition_of b (json_get "condition" fs)) (λ condition.
    and_then (int_or b 100 (json_get "priority" fs)) (λ priority.
      ok (record {
        source = str b s;
        target = str b t;
        condition = condition;
        priority = priority;
      })))
edge_of b fs _ _ = edge_error

abbrev pub read_edge : Builtins → Json → Result EdgeDef
read_edge b (dict fs) = edge_of b fs (json_get "source" fs) (json_get "target" fs)
read_edge b _ = edge_error

unfoldable pub read_edges : Builtins → Items → Result (List EdgeDef)
read_edges b no_items = ok []
read_edges b (item x xs) =
    and_then (read_edge b x) (λ e. and_then (read_edges b xs) (λ es. ok (e ∷ es)))

-- a list of the document, where a missing one is empty
abbrev pub array_of : Option Json → Result Items
array_of none = ok no_items
array_of (some (items xs)) = ok xs
array_of (some _) = err (graph_validation_error "'nodes' and 'edges' must be arrays")

-- `graph.validate()`
abbrev pub accept_graph : GraphDef → List Problem → Result GraphDef
accept_graph g [] = ok g
accept_graph g (p ∷ ps) = err (graph_validation_error "graph validation failed")

unfoldable pub checked_graph : GraphDef → Result GraphDef
checked_graph g = accept_graph g (problems g)

unfoldable pub graph_of : Builtins → Fields → Items → Items → Result GraphDef
graph_of b fs nodes_raw edges_raw = and_then (read_nodes b nodes_raw []) (λ nodes.
    and_then (read_edges b edges_raw) (λ edges.
      and_then (strings_of b (json_get "phases" fs)) (λ phases.
        and_then (int_or b 25 (json_get "max_cycles" fs)) (λ cycles. checked_graph (record {
          graph_id = str_or b "unnamed-graph" (json_get "id" fs);
          version = str_or b "0" (json_get "version" fs);
          entry = str_or b "" (json_get "entry" fs);
          nodes = nodes;
          edges = edges;
          phases = phases;
          max_cycles = cycles;
        })))))

unfoldable pub graph_from_json : Builtins → Json → Result GraphDef
graph_from_json b (dict fs) =
    and_then (array_of (json_get "nodes" fs))
      (λ nodes. and_then (array_of (json_get "edges" fs)) (λ edges. graph_of b fs nodes edges))
graph_from_json b _ = err (graph_validation_error "graph document must be a JSON object")

-- A file that is missing, that holds no JSON, or a document.
pub data GraphFile : Type 0 where
  missing_file not_json : GraphFile
  json_file : Json → GraphFile

unfoldable pub load_graph : Builtins → GraphFile → Result GraphDef
load_graph b missing_file = err (graph_validation_error "graph file not found")
load_graph b not_json = err (graph_validation_error "graph is not valid JSON")
load_graph b (json_file v) = graph_from_json b v
