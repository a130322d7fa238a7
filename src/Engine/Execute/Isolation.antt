-- ===== src/Engine/Execute/Isolation.antt =====
-- graph/engine.py, "failures isolate" and "waiting branches block only themselves": what a run of one
-- node leaves in its own row and in the rows of the others.
use tecnosor_sas_migration_d.Common.{
  String, true, false, Option, none, some, List, ◌==◌, ◌≡◌, ◌≢◌, refl, ap, sym, ◌∙◌, ◌⊎◌, inl, inr,
  arith, eq_iff, find, ◌+◌,
}
use tecnosor_sas_migration_d.Engine.Env.{Env}
use tecnosor_sas_migration_d.Engine.Execute.{RunOutcome, attempt_no, ended, run_node}
use tecnosor_sas_migration_d.Engine.Execute.Effects.{Run, running_update, node-id, run_node-Run}
use tecnosor_sas_migration_d.Engine.Execute.Outcome.{IsQuiet, Ending, Success}
use tecnosor_sas_migration_d.Engine.Route.{is_kept}
use tecnosor_sas_migration_d.Engine.Route.Laws.{RouteChange, Activated}
use tecnosor_sas_migration_d.Errors.{ok}
use tecnosor_sas_migration_d.Graph.Model.{EdgeDef, outgoing}
use tecnosor_sas_migration_d.State.Nodes.{
  NodeUpdate, is_row, get_node_state, current_attempts, or_else,
}
use tecnosor_sas_migration_d.State.Nodes.Laws.{find-put_row_self, find-put_row_ne, merged}
use tecnosor_sas_migration_d.State.Status.{succeeded, waiting_for_approval}
use tecnosor_sas_migration_d.State.Tables.{Db, NodeRow}

pub ne-test : (a b : String) → a ≢ b → (a == b) ≡ false
ne-test a b h = ground (arith, eq_iff a b)

-- The row after an update that gives the attempts.
merged-fields :
    (a n : String) (u : NodeUpdate) (old : Option NodeRow)
    → ((merged a n u old).status ≡ u.status)
      × ((merged a n u old).last_execution_id ≡ u.last_execution_id)
      × ((merged a n u old).attempts ≡ or_else u.attempts (current_attempts old))
merged-fields a n u none = (refl, refl, refl)
merged-fields a n u (some r) = (refl, refl, refl)

kept_stays :
    (es : List EdgeDef) (k : String) (old : Option NodeRow) (row : NodeRow) (new : Option NodeRow)
    → RouteChange es k old new
    → old ≡ some row
    → is_kept (some row) ≡ true
    → new ≡ some row
kept_stays es k old row new (inl same) p kept = same ∙ p
kept_stays es k old row new (inr a) p kept = absurd (cc (a.not_kept, ap is_kept p))

-- What is asked of the row of a node that was run.
pub record RanRow (o : RunOutcome) (before : Option NodeRow) (after : Option NodeRow) : Type 0 where
  pub row : NodeRow
  pub reads : after ≡ some row
  pub status : row.status ≡ o.status
  pub execution : row.last_execution_id ≡ o.execution_id
  pub attempts :
      (row.attempts ≡ current_attempts before + 1)
      ⊎ (row.attempts ≡ current_attempts before) × (o.status ≡ waiting_for_approval)

module _ (env : Env) (id : String) (db : Db) (o : RunOutcome) (final : Db)
    (r : Run env id db o final) where
  same_id : r.attempt.node_def.id ≡ id
  same_id = rw r.same_node (node-id env.graph id r.node_def r.known)

  others-Ending :
      Ending env r.attempt o r.rows final.node_states
      → (k : String) → (id == k) ≡ false
      → get_node_state final env.assessment_id k ≡ get_node_state db env.assessment_id k
  unfolding get_node_state
  others-Ending e k ne = rw e.writes (
      find-put_row_ne env.assessment_id r.attempt.node_def.id k e.update r.rows (rw same_id ne)
      ∙ rw r.rows_eq
          (find-put_row_ne env.assessment_id id k (running_update r.attempt) db.node_states ne))

  own-Ending :
      Ending env r.attempt o r.rows final.node_states
      → RanRow o
          (get_node_state db env.assessment_id id)
          (get_node_state final env.assessment_id id)
  unfolding get_node_state
  own-Ending e =
      let old = find (is_row env.assessment_id id) r.rows in
      let (st, ex, att) = merged-fields env.assessment_id id e.update old in
      record {
        row = merged env.assessment_id id e.update old;
        reads = rw e.writes (rw same_id (find-put_row_self env.assessment_id id e.update r.rows));
        status = st ∙ e.status;
        execution = ex ∙ e.names ∙ sym e.execution;
        attempts = ground (arith, att, e.counted, r.same_attempts);
      }

  own-Success :
      Success env r.attempt o r.rows final
      → RanRow o
          (get_node_state db env.assessment_id id)
          (get_node_state final env.assessment_id id)
  unfolding get_node_state
  own-Success s =
      let u = ended r.attempt succeeded (attempt_no r.attempt) none in
      let old = find (is_row env.assessment_id id) r.rows in
      let (st, ex, att) = merged-fields env.assessment_id id u old in
      let put = find-put_row_self env.assessment_id id u r.rows in
      record {
        row = merged env.assessment_id id u old;
        reads =
            kept_stays _ id _ (merged env.assessment_id id u old) _ (rw same_id at (s.routes id))
              put (rw st refl);
        status = st ∙ sym s.status;
        execution = ex ∙ sym s.execution;
        attempts = inl (ground (arith, att, r.same_attempts));
      }

  others-Success :
      Success env r.attempt o r.rows final
      → (k : String) → (id == k) ≡ false
      → RouteChange
          (outgoing env.graph id)
          k
          (get_node_state db env.assessment_id k)
          (get_node_state final env.assessment_id k)
  unfolding get_node_state
  others-Success s k ne =
      let u = ended r.attempt succeeded (attempt_no r.attempt) none in
      let before =
        find-put_row_ne env.assessment_id id k u r.rows ne
        ∙ rw r.rows_eq
            (find-put_row_ne env.assessment_id id k (running_update r.attempt) db.node_states ne) in
      rw (same_id, before) at (s.routes k)

module _ (env : Env) (quiet : IsQuiet env) (id : String) (db : Db) (o : RunOutcome) (final : Db)
    (ran : run_node env id db ≡ (ok o, final)) where
  -- If handlers and agent leave the node states alone and a run returns with another outcome than
  -- SUCCEEDED (failed, waiting, skipped, held or refused), the state of every other node is as it was.
  pub run_node-isolated :
      o.status ≢ succeeded
      → (k : String) → id ≢ k
      → get_node_state final env.assessment_id k ≡ get_node_state db env.assessment_id k
  run_node-isolated ne k other = elim (run_node-Run env quiet id db o final ran) [
    | inl (same, _, _) ↦ rw same refl
    | inr r ↦ elim r.ends [
      | inl e ↦ others-Ending env id db o final r e k (ne-test id k other)
      | inr s ↦ absurd (ne s.status)
    ]
  ]

  -- If handlers and agent leave the node states alone and a run returns with an execution, the row of the node has the status and the execution of the
  -- outcome, and one more attempt, or as many as before where it waits for approval.
  pub run_node-RanRow :
      (x : String)
      → o.execution_id ≡ some x
      → RanRow o
          (get_node_state db env.assessment_id id)
          (get_node_state final env.assessment_id id)
  run_node-RanRow x ex = elim (run_node-Run env quiet id db o final ran) [
    | inl (_, no_execution, _) ↦ absurd (cc)
    | inr r ↦ elim r.ends [
      | inl e ↦ own-Ending env id db o final r e
      | inr s ↦ own-Success env id db o final r s
    ]
  ]

  -- If handlers and agent leave the node states alone, whatever the outcome of a run that returns, the
  -- state of another node is as it was, or the run
  -- SUCCEEDED and routing made READY a target of an edge from the node, which was neither SUCCEEDED
  -- nor blocked, with its attempts as they were.
  pub run_node-RouteChange :
      (k : String)
      → id ≢ k
      → (get_node_state final env.assessment_id k ≡ get_node_state db env.assessment_id k)
        ⊎ (o.status ≡ succeeded)
          × Activated
              (outgoing env.graph id)
              k
              (get_node_state db env.assessment_id k)
              (get_node_state final env.assessment_id k)
  run_node-RouteChange k other = elim (run_node-Run env quiet id db o final ran) [
    | inl (same, _, _) ↦ inl (rw same refl)
    | inr r ↦ elim r.ends [
      | inl e ↦ inl (others-Ending env id db o final r e k (ne-test id k other))
      | inr s ↦ elim (others-Success env id db o final r s k (ne-test id k other)) [
        | inl same ↦ inl same
        | inr a ↦ inr (s.status, a)
      ]
    ]
  ]
