-- ===== src/Graph/Model.antt =====
-- sassessment/graph/model.py: node, edge and graph definitions, `node` and `outgoing`. Priorities and
-- attempt limits are natural numbers here. `composite`, `to_dict` and the registry names of a node are
-- carried by the source and read by no operation, so they have no field.
use tecnosor_sas_migration_d.Common.{
  ℕ, String, Bool, Option, List, [], ◌∷◌, ltb, filter, any, find, is_empty, ◌==◌, map,
}
use tecnosor_sas_migration_d.Common.Sorting

-- An argument of a condition. The predicates read texts, and one list of texts (`order`).
pub data ArgValue : Type 0 where
  text : String → ArgValue
  texts : List String → ArgValue

abbrev pub Args : Type 0
Args = List (String × ArgValue)

pub record Condition : Type 0 where
  pub name : String
  pub args : Args

pub record EdgeDef : Type 0 where
  pub source : String
  pub target : String
  pub condition : Option Condition
  pub priority : ℕ

pub record NodeDef : Type 0 where
  pub id : String
  pub node_type : String
  pub phase : String
  pub title : String
  pub handler : String
  pub agent : String
  pub phase_gate : Bool
  pub requires : List String
  pub join : String
  pub optional : Bool
  pub max_attempts : ℕ

-- `nodes` is the dictionary in insertion order, each node under its own id.
pub record GraphDef : Type 0 where
  pub graph_id : String
  pub version : String
  pub entry : String
  pub nodes : List NodeDef
  pub edges : List EdgeDef
  pub phases : List String
  pub max_cycles : ℕ

abbrev pub node_types : List String
node_types =
    "system" ∷ "human" ∷ "deterministic" ∷ "opencode" ∷ "validation" ∷ "checkpoint" ∷ "composite"
    ∷ []

abbrev pub node_ids : GraphDef → List String
node_ids g = map (λ n. n.id) g.nodes

-- `node_id in self.nodes`
abbrev pub has_node : GraphDef → String → Bool
has_node g k = any (λ n. n.id == k) g.nodes

-- `node`; `none` is the UnknownNodeError
abbrev pub node : GraphDef → String → Option NodeDef
node g k = find (λ n. n.id == k) g.nodes

abbrev pub by_priority : EdgeDef → EdgeDef → Bool
by_priority e f = ltb e.priority f.priority

unfoldable pub outgoing : GraphDef → String → List EdgeDef
outgoing g k = Sorting.sort by_priority (filter (λ e. e.source == k) g.edges)

abbrev pub is_terminal : GraphDef → NodeDef → Bool
is_terminal g n = is_empty (outgoing g n.id)
