-- ===== src/Engine/Recover.antt =====
-- graph/engine.py: `recover_stale_running`.
pub mod Laws
use tecnosor_sas_migration_d.Common.{
  String, Bool, true, false, Option, none, some, List, [], ◌∷◌, ◌&&◌, if◌then◌else◌,
}
use tecnosor_sas_migration_d.Engine.Env.{Env}
use tecnosor_sas_migration_d.State.Nodes.{put_node, list_node_states}
use tecnosor_sas_migration_d.State.Records.{get_execution, finish_execution, emit, no_meta}
use tecnosor_sas_migration_d.State.Status.{ready, cancelled, is_running}
use tecnosor_sas_migration_d.State.Tables.{Db, NodeRow, Execution}

-- `str(row["last_execution_id"])`
abbrev pub execution_key : Option String → String
execution_key none = "None"
execution_key (some x) = x

abbrev pub is_running_execution : Option Execution → Bool
is_running_execution none = false
is_running_execution (some x) = is_running x.status

unfoldable pub cancel_execution : String → Db → Db
cancel_execution x db =
    if is_running_execution (get_execution db x)
    then finish_execution x cancelled none no_meta none db
    else db

-- One RUNNING row of the listing. The attempts are those of the row.
unfoldable pub recover_row : Env → NodeRow → Db → Db
recover_row env r db =
    emit
      (record {
        action = "node.recovered";
        actor_type = "engine";
        assessment_id = some env.assessment_id;
        session_id = none;
        execution_id = none;
        node_id = some r.node_id;
        previous_state = some "RUNNING";
        new_state = some "READY";
        evidence_ids = [];
        result_status = none;
        error = none;
      })
      (cancel_execution (execution_key r.last_execution_id) (
        put_node env.assessment_id r.node_id
          (record {
            status = ready;
            attempts = some r.attempts;
            cycles = some r.cycles;
            last_execution_id = none;
            last_error = none;
          })
          db))

unfoldable pub recover_rows : Env → List NodeRow → Db → List String × Db
recover_rows env [] db = ([], db)
recover_rows env (r ∷ rs) db =
    let next = if is_running r.status then recover_row env r db else db in
    let (ids, db') = recover_rows env rs next in
    (if is_running r.status then r.node_id ∷ ids else ids, db')

-- The ids of the nodes that were RUNNING, and the database.
unfoldable pub recover_stale_running : Env → Db → List String × Db
recover_stale_running env db = recover_rows env (list_node_states db env.assessment_id) db
