-- ===== src/Engine/Execute/Effects.antt =====
-- The guarantees that `GraphEngine` states for a run of one node, over handlers that leave the node
-- states alone.
use tecnosor_sas_migration_d.Common.{
  String, false, none, some, List, [], ◌∷◌, ◌==◌, ◌≡◌, ◌≢◌, refl, ap, sym, ◌∙◌, ◌⊎◌, inl, inr,
  arith, eq_iff, find, ◌<◌,
}
use tecnosor_sas_migration_d.Engine.Env.{Env, new_id}
use tecnosor_sas_migration_d.Engine.Execute.{
  RunOutcome, Attempt, attempt_no, attempt_limit, attempt_of, mark_running, run_attempt, execute,
  run_node,
}
use tecnosor_sas_migration_d.Engine.Execute.Guards.{Started, run_node-cases}
use tecnosor_sas_migration_d.Engine.Execute.Outcome.{
  IsQuiet, Ending, Success, execute-nodes, conclude-cases,
}
use tecnosor_sas_migration_d.Errors.{ok}
use tecnosor_sas_migration_d.Graph.Model.{GraphDef, NodeDef, node}
use tecnosor_sas_migration_d.State.Nodes.{
  NodeUpdate, put_row, put_node, get_node_state, current_status, current_attempts,
}
use tecnosor_sas_migration_d.State.Records.{create_execution, emit}
use tecnosor_sas_migration_d.State.Status.{running}
use tecnosor_sas_migration_d.State.Tables.{Db, NodeRow}

find-id :
    (k : String) (ns : List NodeDef) (n : NodeDef) → find (λ m. m.id == k) ns ≡ some n → n.id ≡ k
find-id k [] n h = cc
find-id k (m ∷ ns) n h = ground (arith, eq_iff m.id k, find-id k ns n)

pub node-id : (g : GraphDef) (k : String) (n : NodeDef) → node g k ≡ some n → n.id ≡ k
node-id g k n h = find-id k g.nodes n h

ne-test : (a b : String) → a ≢ b → (a == b) ≡ false
ne-test a b h = ground (arith, eq_iff a b)

-- what `run_node` writes to the row before the handler runs
abbrev pub running_update : Attempt → NodeUpdate
running_update t = record {
  status = running;
  attempts = some (attempt_no t);
  cycles = none;
  last_execution_id = none;
  last_error = none;
}

-- the run that the guards let through, seen from the node states
pub record Run (env : Env) (id : String) (db : Db) (o : RunOutcome) (final : Db) : Type 0 where
  pub node_def : NodeDef
  pub known : node env.graph id ≡ some node_def
  pub attempt : Attempt
  pub same_node : attempt.node_def ≡ node_def
  pub same_attempts : attempt.attempts ≡ current_attempts (get_node_state db env.assessment_id id)
  pub below_limit :
      current_attempts (get_node_state db env.assessment_id id) < attempt_limit env node_def
  pub rows : List NodeRow
  pub rows_eq : rows ≡ put_row env.assessment_id id (running_update attempt) db.node_states
  pub ends : Ending env attempt o rows final.node_states ⊎ Success env attempt o rows final

module _ (env : Env) (quiet : IsQuiet env) (id : String) (db : Db) (o : RunOutcome)
    (final : Db) where
  Started-Run :
      Started env id db (run_node env id db)
      → run_node env id db ≡ (ok o, final)
      → Run env id db o final
  unfolding run_attempt new_id mark_running put_node create_execution emit
  Started-Run s h =
      let existing = get_node_state db env.assessment_id id in
      let t = attempt_of s.node_def existing (new_id env db).0 in
      let db' = mark_running env t (new_id env db).1 in
      let same_id : s.node_def.id ≡ id = node-id env.graph id s.node_def s.known in
      record {
        node_def = s.node_def;
        known = s.known;
        attempt = t;
        same_node = refl;
        same_attempts = refl;
        below_limit = s.below_limit;
        rows = (execute env t db').1.node_states;
        rows_eq = execute-nodes env quiet t db' ∙ rw same_id refl;
        ends = conclude-cases env t o final (execute env t db') (sym s.runs ∙ h);
      }

  -- A call that returns either was refused, or is such a run.
  pub run_node-Run :
      run_node env id db ≡ (ok o, final)
      → ((final ≡ db)
          × (o.execution_id ≡ none)
          × (o.status ≡ current_status (get_node_state db env.assessment_id id)))
        ⊎ Run env id db o final
  run_node-Run h = elim (run_node-cases env id db) [
    | inl refused ↦
        let (_, no_execution, same, _) = refused.answer o (ap (λ r. r.0) h) in
        inl (sym (ap (λ r. r.1) h) ∙ refused.unchanged, no_execution, same)
    | inr s ↦ inr (Started-Run s h)
  ]
