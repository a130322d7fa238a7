-- ===== src/Tests/Loading.antt =====
-- The theorems on graphs that are read and on values that are redacted, at concrete documents.
use tecnosor_sas_migration_d.Graph.Validate.{problems}
use tecnosor_sas_migration_d.Graph.Reach.{push, visit, reachable_nodes}
use tecnosor_sas_migration_d.Common.Sorting.{sort}
use tecnosor_sas_migration_d.Graph.Validate.{
  unreachable_nodes, node_problems, edge_problems, is_distinct, node_ids_valid,
}
use tecnosor_sas_migration_d.Graph.Load.Laws.{load_graph-IsWellFormed}
use tecnosor_sas_migration_d.Ids.{is_slug_char, slug}
use tecnosor_sas_migration_d.Audit.Laws.{redact-IsClean, IsClean}
use tecnosor_sas_migration_d.Audit.{
  is_sensitive, substitute, redact, Substitutions, Logged, mapped, keyed, words, count, listed,
  also, no_entries, tuple, no_keys,
}
use tecnosor_sas_migration_d.Graph.Validate.Laws.{IsWellFormed}
use tecnosor_sas_migration_d.Graph.Model.{outgoing, GraphDef, NodeDef}
use tecnosor_sas_migration_d.Graph.Load.{
  checked_graph, read_edges, node_of, read_nodes, json_get, json_file, graph_of, graph_from_json,
  load_graph, Builtins,
}
use tecnosor_sas_migration_d.Common.{
  eq_iff, inr, inl, Bool-cases, String, false, none, [], ◌∷◌, ◌==◌, ◌≡◌, ◌≢◌, refl, if◌then◌else◌,
}
use tecnosor_sas_migration_d.Common.Json.{Json, text, items, dict, no_items, item, no_fields, field}
use tecnosor_sas_migration_d.Errors.{foreign, err, ok, and_then}

abbrev sample_builtins : Builtins
sample_builtins = record {
  show = λ v. "None";
  int = λ v. ok 3;
  dict_of = λ xs. err (foreign "TypeError");
}

-- two nodes with an edge between them
abbrev sample_document : Json
sample_document = dict (
    field "entry" (text "intake") (
      field "nodes"
        (items (
          item (dict (field "id" (text "intake") (field "handler" (text "read") no_fields))) (
            item (dict (field "id" (text "review") (field "type" (text "human") no_fields)))
              no_items)))
        (field "edges"
          (items (
            item (dict (field "source" (text "intake") (field "target" (text "review") no_fields)))
              no_items))
          no_fields)))

abbrev loaded_node : String → String → String → NodeDef
loaded_node id node_type handler = record {
  id = id;
  node_type = node_type;
  phase = "";
  title = "";
  handler = handler;
  agent = "";
  phase_gate = false;
  requires = [];
  join = "all";
  optional = false;
  max_attempts = 5;
}

abbrev loaded_graph : GraphDef
loaded_graph = record {
  graph_id = "unnamed-graph";
  version = "0";
  entry = "intake";
  nodes = loaded_node "intake" "deterministic" "read" ∷ loaded_node "review" "human" "" ∷ [];
  edges = record { source = "intake"; target = "review"; condition = none; priority = 100 } ∷ [];
  phases = [];
  max_cycles = 25;
}

loaded : load_graph sample_builtins (json_file sample_document) ≡ ok loaded_graph
unfolding load_graph graph_from_json graph_of and_then json_get read_nodes node_of read_edges
    checked_graph problems node_ids_valid is_distinct edge_problems node_problems unreachable_nodes
    sort reachable_nodes visit push outgoing
loaded = refl

load_graph-IsWellFormed_example : IsWellFormed loaded_graph
load_graph-IsWellFormed_example =
    load_graph-IsWellFormed sample_builtins (json_file sample_document) loaded_graph loaded

-- a pattern that clears one text
abbrev sample_patterns : Substitutions
sample_patterns = (λ s. if s == "hunter2" then "[REDACTED]" else s) ∷ []

-- the tuple keeps the text that the pattern clears elsewhere
abbrev sample_event : Logged
sample_event = mapped (
    keyed "error" (words "hunter2") (
      keyed "details"
        (mapped (
          keyed "Api_Key" (count 7) (
            keyed "files" (listed (also (words "a") no_entries))
              (keyed "next" (tuple (also (words "hunter2") no_entries)) no_keys))))
        no_keys))

abbrev IsNoSecret : String → Type 0
IsNoSecret s = s ≢ "hunter2"

redacted :
    redact sample_patterns sample_event
    ≡ mapped (
        keyed "error" (words "[REDACTED]") (
          keyed "details"
            (mapped (
              keyed "Api_Key" (words "[REDACTED]") (
                keyed "files"
                  (listed (also (words "a") no_entries))
                  (keyed "next" (tuple (also (words "hunter2") no_entries)) no_keys))))
            no_keys))
unfolding redact is_sensitive substitute
redacted = refl

patterns-IsNoSecret : (s : String) → IsNoSecret (substitute sample_patterns s)
unfolding substitute
patterns-IsNoSecret s = elim (Bool-cases (s == "hunter2")) [
  | inl secret ↦ rw secret (λ h. absurd (cc))
  | inr other ↦ rw other (λ h. absurd (cc ((eq_iff s "hunter2").1 h, other)))
]

redact-IsClean_example : IsClean IsNoSecret (redact sample_patterns sample_event)
redact-IsClean_example =
    redact-IsClean IsNoSecret sample_patterns sample_event patterns-IsNoSecret (λ h. absurd (cc))

slugged : slug "  Oracle DBA / Team_1 " ≡ "oracle-dba-team-1"
unfolding slug is_slug_char
slugged = refl
