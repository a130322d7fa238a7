-- ===== src/Engine/Recover/Laws.antt =====
-- What recovery after a crash leaves behind.
use tecnosor_sas_migration_d.Common.{
  String, Bool, true, false, Option, none, some, List, [], ◌∷◌, ◌==◌, ◌&&◌, ◌≡◌, ◌≢◌, refl, ap, ◌∙◌,
  inl, inr, arith, eq_iff, find, any, Bool-cases, if◌then◌else◌,
}
use tecnosor_sas_migration_d.Engine.Env.{Env}
use tecnosor_sas_migration_d.Engine.Recover.{
  execution_key, is_running_execution, cancel_execution, recover_row, recover_rows,
  recover_stale_running,
}
use tecnosor_sas_migration_d.State.Nodes.{
  NodeUpdate, is_row, put_row, put_node, get_node_state, list_node_states,
}
use tecnosor_sas_migration_d.State.Nodes.Laws.{
  find-put_row_self, find-put_row_ne, find-list_node_states, merged-status,
}
use tecnosor_sas_migration_d.State.Records.{finish_execution, emit, no_meta}
use tecnosor_sas_migration_d.State.Status.{ready, running, cancelled, is_running}
use tecnosor_sas_migration_d.State.Tables.{Db, NodeRow, Execution}

abbrev runs : Option NodeRow → Bool
runs none = false
runs (some r) = is_running r.status

-- the update of a recovered row
abbrev recovered : NodeRow → NodeUpdate
recovered r = record {
  status = ready;
  attempts = some r.attempts;
  cycles = some r.cycles;
  last_execution_id = none;
  last_error = none;
}

-- an execution whose row was found RUNNING when recovery came to it
abbrev pub cancelled_row : Execution → Execution
cancelled_row e = record e {
  status = cancelled;
  error = none;
  agent_meta = no_meta;
  result_path = none;
}

-- What becomes of an execution, from whether a RUNNING node names it.
abbrev pub after_recovery : Bool → Option Execution → Option Execution
after_recovery named none = none
after_recovery named (some e) = some (if named && is_running e.status then cancelled_row e else e)

-- a RUNNING node whose last execution has the id
abbrev pub names : String → NodeRow → Bool
names x r = is_running r.status && execution_key r.last_execution_id == x

abbrev cancelled_if : Bool → Option Execution → Option Execution
cancelled_if b none = none
cancelled_if b (some e) = some (if b then cancelled_row e else e)

running_row :
    (o : Option Execution)
    → is_running_execution o ≡ true
    → cancelled_if true o ≡ after_recovery true o
running_row none h = refl
running_row (some e) h = rw h refl

abbrev at_id : String → List Execution → Option Execution
at_id x es = find (λ e. e.id == x) es

module _ (env : Env) where
  abbrev row : Db → String → Option NodeRow
  row db k = find (is_row env.assessment_id k) db.node_states

  cancel-nodes : (x : String) (db : Db) → (cancel_execution x db).node_states ≡ db.node_states
  unfolding cancel_execution finish_execution
  cancel-nodes x db = ground arith

  recover_row-nodes :
      (r : NodeRow) (db : Db)
      → (recover_row env r db).node_states
        ≡ put_row env.assessment_id r.node_id (recovered r) db.node_states
  unfolding recover_row emit put_node
  recover_row-nodes r db = cancel-nodes _ _

  -- A recovered node is not running, and no other node starts to run.
  recover_row-runs :
      (r : NodeRow) (db : Db) (k : String)
      → runs (row (recover_row env r db) k) ≡ (if r.node_id == k then false else runs (row db k))
  recover_row-runs r db k = elim (Bool-cases (r.node_id == k)) [
    | inl same ↦
        let e : r.node_id ≡ k = (eq_iff r.node_id k).0 same in
        rw (same, recover_row-nodes r db)
          (rw (← e) (
            rw
              (
                find-put_row_self env.assessment_id r.node_id (recovered r) db.node_states,
                merged-status,
              )
              refl))
    | inr other ↦
        rw (other, recover_row-nodes r db)
          (rw (find-put_row_ne env.assessment_id r.node_id k (recovered r) db.node_states other)
            refl)
  ]

  recover_rows-runs :
      (rs : List NodeRow) (db : Db) (k : String)
      → runs (row (recover_rows env rs db).1 k)
        ≡ (if any (λ r. r.node_id == k && is_running r.status) rs then false else runs (row db k))
  unfolding recover_rows
  recover_rows-runs [] db k = refl
  recover_rows-runs (r ∷ rs) db k = elim (Bool-cases (is_running r.status)) [
    | inl running_row ↦
        rw (running_row, recover_rows)
          (recover_rows-runs rs (recover_row env r db) k ∙ ground (arith, recover_row-runs r db k))
    | inr other ↦ rw (other, recover_rows) (recover_rows-runs rs db k ∙ ground arith)
  ]

  listed_runs :
      (k : String) (rs : List NodeRow)
      → runs (find (λ r. r.node_id == k) rs) ≡ true
      → any (λ r. r.node_id == k && is_running r.status) rs ≡ true
  listed_runs k [] h = cc
  listed_runs k (r ∷ rs) h = ground (arith, listed_runs k rs)

  -- After recovery no node of the assessment is RUNNING.
  pub recover_not_running :
      (db : Db) (k : String) (r : NodeRow)
      → get_node_state (recover_stale_running env db).1 env.assessment_id k ≡ some r
      → r.status ≢ running
  unfolding recover_stale_running get_node_state
  recover_not_running db k r h now =
      let rs = list_node_states db env.assessment_id in
      let after = recover_rows-runs rs db k in
      let still : runs (row (recover_rows env rs db).1 k) ≡ true = rw h (rw now refl) in
      let same = ap runs (find-list_node_states db env.assessment_id k) in
      ground (arith, after, still, same, listed_runs k rs)
