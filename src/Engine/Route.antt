-- ===== src/Engine/Route.antt =====
-- graph/engine.py: `_route_from` and `_maybe_advance_phase`.
pub mod Laws
use tecnosor_sas_migration_d.Common.{
  ℕ, zero, suc, String, Bool, true, false, Option, none, some, List, [], ◌∷◌, ◌++◌, mem, ◌+◌, ltb,
  length, if◌then◌else◌, not, ◌||◌,
}
use tecnosor_sas_migration_d.Engine.Env.{Env, new_id}
use tecnosor_sas_migration_d.Errors.{Error, Result, ok, err}
use tecnosor_sas_migration_d.Graph.Model.{NodeDef, EdgeDef, outgoing}
use tecnosor_sas_migration_d.Graph.Predicates.{phase_order, index, evaluate}
use tecnosor_sas_migration_d.Node.{NodeResult}
use tecnosor_sas_migration_d.State.Nodes.{put_node, get_node_state, only_status}
use tecnosor_sas_migration_d.State.Records.{create_decision, emit, update_assessment}
use tecnosor_sas_migration_d.State.Snapshot.{Snapshot, state_snapshot}
use tecnosor_sas_migration_d.State.Status.{Status, ready, is_succeeded, is_blocked}
use tecnosor_sas_migration_d.State.Tables.{Db, NodeRow, ConditionOutcome, AuditEvent}

-- source, target and predicate of an edge that fired
pub record Fired : Type 0 where
  pub source : String
  pub target : String
  pub predicate : String

-- SUCCEEDED and the blocked statuses stay as they are
abbrev pub is_kept : Option NodeRow → Bool
is_kept none = false
is_kept (some r) = is_succeeded r.status || is_blocked r.status

unfoldable pub record_decision :
    Env → NodeDef → NodeResult → EdgeDef → ConditionOutcome → Db → String × Db
record_decision env n res e o db =
    let (did, db') = new_id env db in
    (
      did,
      create_decision
          (record {
            id = did;
            assessment_id = env.assessment_id;
            node_id = n.id;
            execution_id = none;
            edge = e;
            evidence_ids = res.evidence_used;
            selected_route = e.target;
            rationale = o;
            confidence = "CONFIRMED";
          })
          db',
    )

abbrev pub fired_by : EdgeDef → ConditionOutcome → List Fired
fired_by e o = record { source = e.source; target = e.target; predicate = o.name } ∷ []

abbrev pub decided : List Fired → String × Db → List Fired × List String × Db
decided fs (did, db) = (fs, did ∷ [], db)

-- `continue` leaves a fired edge to a node that is kept with no decision.
unfoldable pub route_edge :
    Env → NodeDef → NodeResult → EdgeDef → ConditionOutcome → Db → List Fired × List String × Db
route_edge env n res e o db =
    if o.result
    then if is_kept (get_node_state db env.assessment_id e.target)
      then (fired_by e o, [], db)
      else decided (fired_by e o) (
          record_decision env n res e o
            (put_node env.assessment_id e.target (only_status ready) db))
    else decided [] (record_decision env n res e o db)

abbrev pub Routed : Type 0
Routed = Result (List Fired × List String) × Db

abbrev pub joined : List Fired → List String → Routed → Routed
joined fs ids (ok (fs', ids'), db) = (ok (fs ++ fs', ids ++ ids'), db)
joined fs ids (err e, db) = (err e, db)

-- The snapshot is taken before the loop; a predicate that raises leaves what was routed before it.
unfoldable pub route_edges : Env → NodeDef → NodeResult → Snapshot → List EdgeDef → Db → Routed
route_edges env n res s [] db = (ok ([], []), db)
route_edges env n res s (e ∷ es) db = elim (evaluate env.predicates e.condition s) [
  | err x ↦ (err x, db)
  | ok o ↦
      let (fired, ids, db') = route_edge env n res e o db in
      joined fired ids (route_edges env n res s es db')
]

abbrev event : String → Env → AuditEvent
event action env = record {
  action = action;
  actor_type = "engine";
  assessment_id = some env.assessment_id;
  session_id = none;
  execution_id = none;
  node_id = none;
  previous_state = none;
  new_state = none;
  evidence_ids = [];
  result_status = none;
  error = none;
}

-- The event's `new_state`, the dumped list of fired edges, is left out.
abbrev pub routing_decided : Env → NodeDef → Routed → Routed
routing_decided env n (err e, db) = (err e, db)
routing_decided env n (ok r, db) = (
  ok r,
  emit
      (record (event "routing.decided" env) {
        session_id = some env.session_id;
        node_id = some n.id;
        previous_state = some n.id;
      })
      db,
)

unfoldable pub route_from : Env → NodeDef → NodeResult → Db → Routed
route_from env n res db =
    routing_decided env n
      (route_edges env n res (state_snapshot db env.assessment_id) (outgoing env.graph n.id) db)

abbrev pub nth : List String → ℕ → Option String
nth [] i = none
nth (x ∷ xs) zero = some x
nth (x ∷ xs) (suc i) = nth xs i

abbrev pub advance_to : Env → NodeDef → Option String → Db → Db
advance_to env n none db = db
advance_to env n (some next) db =
    emit
      (record (event "phase.advanced" env) {
        node_id = some n.id;
        previous_state = some n.phase;
        new_state = some next;
      })
      (update_assessment env.assessment_id none (some next) db)

unfoldable pub maybe_advance_phase : Env → NodeDef → Db → Db
maybe_advance_phase env n db =
    if not n.phase_gate || not (mem n.phase phase_order)
    then db
    else advance_to env n (nth phase_order (index n.phase phase_order + 1)) db
