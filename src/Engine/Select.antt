-- ===== src/Engine/Select.antt =====
-- graph/engine.py: `_prerequisites_met` and `next_runnable`.
pub mod Laws
use Prim.Native.String.{compare}
use text.Mathlib.Text.{is_lt}
use tecnosor_sas_migration_d.Common.{
  ℕ, String, Bool, true, false, Option, none, some, List, [], ◌∷◌, ◌==◌, ◌&&◌, ◌||◌, not, filter,
  is_empty, mem, ltb, ◌=?◌, if◌then◌else◌,
}
use tecnosor_sas_migration_d.Common.Sorting
use tecnosor_sas_migration_d.Engine.Env.{Env}
use tecnosor_sas_migration_d.Graph.Model.{GraphDef, NodeDef}
use tecnosor_sas_migration_d.Graph.Predicates.{phase_order, index, status_is}
use tecnosor_sas_migration_d.State.Snapshot.{Snapshot, state_snapshot, node_status}
use tecnosor_sas_migration_d.State.Status.{Status, is_satisfied, is_ready}
use tecnosor_sas_migration_d.State.Tables.{Db}

abbrev pub satisfied : Snapshot → String → Bool
satisfied s req = status_is is_satisfied (node_status s req)

-- Whether the node may run, and the requirements that are missing. An empty join means "all".
unfoldable pub prerequisites_met : NodeDef → Snapshot → Bool × List String
prerequisites_met n s =
    let yes_list = filter (satisfied s) n.requires in
    let missing = filter (λ req. not (satisfied s req)) n.requires in
    if n.join == "any"
    then (not (is_empty yes_list), if is_empty yes_list then n.requires else [])
    else (is_empty missing, missing)

pub record Candidate : Type 0 where
  pub rank : ℕ
  pub node : NodeDef

unfoldable pub phase_rank : NodeDef → ℕ
phase_rank n = if mem n.phase phase_order then index n.phase phase_order else 99

-- One round of the loop: the candidate that the node is, if it is one. `first_run` is that no node has
-- a state yet.
unfoldable pub candidate : GraphDef → Snapshot → NodeDef → Option Candidate
candidate g s n = elim (node_status s n.id) [
  | none ↦
      if is_empty s.nodes && n.id == g.entry then some (record { rank = 0; node = n }) else none
  | some st ↦
      if is_ready st && (prerequisites_met n s).0
      then some (record { rank = phase_rank n; node = n })
      else none
]

abbrev pub add_candidate : Option Candidate → List Candidate → List Candidate
add_candidate none cs = cs
add_candidate (some c) cs = c ∷ cs

unfoldable pub candidates : GraphDef → Snapshot → List NodeDef → List Candidate
candidates g s [] = []
candidates g s (n ∷ ns) = add_candidate (candidate g s n) (candidates g s ns)

-- the sort key (0, rank, id)
abbrev pub before : Candidate → Candidate → Bool
before c d = ltb c.rank d.rank || (c.rank =? d.rank && is_lt (compare c.node.id d.node.id))

abbrev pub first : List Candidate → Option NodeDef
first [] = none
first (c ∷ cs) = some c.node

unfoldable pub next_runnable : Env → Db → Option NodeDef
next_runnable env db = first (
    Sorting.sort before
      (candidates env.graph (state_snapshot db env.assessment_id) env.graph.nodes))
