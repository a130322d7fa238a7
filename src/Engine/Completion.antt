-- ===== src/Engine/Completion.antt =====
-- graph/engine.py: the status that `assessment_completion` answers (Report has its lists) and
-- `is_final`.
pub mod Laws
pub mod Report
use tecnosor_sas_migration_d.Common.{
  String, Bool, true, false, Option, none, some, List, [], ◌∷◌, ◌==◌, ◌&&◌, ◌||◌, not, filter, any,
  all, is_empty, map, if◌then◌else◌,
}
use tecnosor_sas_migration_d.Engine.Env.{Env}
use tecnosor_sas_migration_d.Engine.Select.{next_runnable, prerequisites_met}
use tecnosor_sas_migration_d.Graph.Model.{NodeDef, is_terminal}
use tecnosor_sas_migration_d.Graph.Predicates.{status_is}
use tecnosor_sas_migration_d.State.Requests.{list_open_requests}
use tecnosor_sas_migration_d.State.Snapshot.{Snapshot, state_snapshot, node_status}
use tecnosor_sas_migration_d.State.Status.{
  Status, pending, is_running, is_waiting, is_failed, is_satisfied, cancelled,
}
use tecnosor_sas_migration_d.State.Tables.{Db, Request}

pub data Completion : Type 0 where
  in_progress waiting_for_material blocked completed_with_limitations completed : Completion

-- The names that the source gives them.
abbrev pub completion_name : Completion → String
completion_name in_progress = "RUNNING"
completion_name waiting_for_material = "WAITING_FOR_INPUT"
completion_name blocked = "BLOCKED"
completion_name completed_with_limitations = "COMPLETED_WITH_LIMITATIONS"
completion_name completed = "COMPLETED"

abbrev pub is_mandatory : NodeDef → Bool
is_mandatory n = not n.optional

-- the test of a node's status, which is false where the node has no state
abbrev pub has_status : Snapshot → (Status → Bool) → NodeDef → Bool
has_status s p n = status_is p (node_status s n.id)

abbrev pub is_blocking : Request → Bool
is_blocking r = r.priority == "BLOCKING"

unfoldable pub assessment_completion : Env → Db → Completion
assessment_completion env db =
    let s = state_snapshot db env.assessment_id in
    let open_requests = list_open_requests db env.assessment_id in
    let nodes = env.graph.nodes in
    if any (has_status s is_running) nodes
    then in_progress
    else if any is_blocking open_requests
    then waiting_for_material
    else if any (λ n. is_mandatory n && has_status s is_waiting n) nodes
    then waiting_for_material
    else if any (λ n. is_mandatory n && has_status s is_failed n) nodes
    then blocked
    else if not (all (λ n. n.optional || has_status s is_satisfied n) nodes)
    then elim (next_runnable env db) [ none ↦ blocked | some n ↦ in_progress ]
    else if any (λ n. n.optional && has_status s is_waiting n) nodes || not (is_empty open_requests)
    then completed_with_limitations
    else completed

abbrev pub is_over : Option Status → Bool
is_over none = false
is_over (some cancelled) = true
is_over (some st) = is_satisfied st

-- Some node that is not terminal and not over could still run.
unfoldable pub is_final : Env → Db → Bool
is_final env db =
    let s = state_snapshot db env.assessment_id in
    all
      (λ n.
        is_terminal env.graph n || is_over (node_status s n.id) || not (prerequisites_met n s).0)
      env.graph.nodes
