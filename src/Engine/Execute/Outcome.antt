-- ===== src/Engine/Execute/Outcome.antt =====
-- What one run of a node leaves in the node states: run_node of graph/engine.py.
use tecnosor_sas_migration_d.Common.{
  String, true, false, none, some, List, ◌==◌, ◌≡◌, refl, ap, sym, ◌∙◌, ◌⊎◌, inl, inr, arith, All,
  eq_iff, find, Bool-cases, is_empty,
}
use tecnosor_sas_migration_d.Engine.Env.{Env}
use tecnosor_sas_migration_d.Engine.Execute.{
  RunOutcome, Attempt, attempt_no, ended, hold_for_quota, fail, reject, mark_succeeded, succeed,
  persisted_status, persist, settle, Executed, plain, handler_name, execute, conclude,
}
use tecnosor_sas_migration_d.Engine.Route.{Routed, route_from, maybe_advance_phase}
use tecnosor_sas_migration_d.Engine.Route.Laws.{
  RouteChange, Fires, is_active, route_from-RouteChange, route_from-active,
}
use tecnosor_sas_migration_d.Errors.{
  Error, Result, ok, err, is_quota_limit, raised, quota_hold, Violation, invalid_result_envelope,
}
use tecnosor_sas_migration_d.Graph.Model.{NodeDef, outgoing}
use tecnosor_sas_migration_d.Node.{NodeResult, Context, Handler, validate, get_handler}
use tecnosor_sas_migration_d.State.Nodes.{NodeUpdate, is_row, put_row, put_node, upsert_node_state}
use tecnosor_sas_migration_d.State.Records.{finish_execution, emit, update_assessment}
use tecnosor_sas_migration_d.State.Snapshot.{state_snapshot}
use tecnosor_sas_migration_d.State.Status.{
  Status, succeeded, failed, waiting_for_approval, is_node_status,
}
use tecnosor_sas_migration_d.State.Tables.{Db, NodeRow, AgentMeta}

-- The handlers and the agent leave the node states alone: "Handlers must never advance the graph
-- themselves" (NodeContext in nodes/base.py).
pub record IsQuiet (env : Env) : Type 0 where
  pub handler :
      (name : String) (h : Handler)
      → get_handler env.handlers name ≡ ok h
      → (c : Context) (db : Db) → (h c db).1.node_states ≡ db.node_states
  pub agent :
      (n : NodeDef) (c : Context) (db : Db) → (env.agent n c db).1.node_states ≡ db.node_states

module _ (env : Env) (quiet : IsQuiet env) where
  plain-nodes : (r : Result NodeResult × Db) → (plain r).1 ≡ r.1
  plain-nodes (ok r, db) = refl
  plain-nodes (err e, db) = refl

  -- What is executed leaves the node states alone.
  pub execute-nodes : (t : Attempt) (db : Db) → (execute env t db).1.node_states ≡ db.node_states
  unfolding execute
  execute-nodes t db = elim (Bool-cases (t.node_def.node_type == "opencode")) [
    | inl agent ↦ rw (agent, execute) (quiet.agent t.node_def _ db)
    | inr other ↦ on_handler other (get_handler env.handlers (handler_name t.node_def)) refl
  ]
    where
      on_handler :
          (t.node_def.node_type == "opencode") ≡ false
          → (r : Result Handler) → get_handler env.handlers (handler_name t.node_def) ≡ r
          → (execute env t db).1.node_states ≡ db.node_states
      on_handler other (err e) p = rw (other, p, execute) refl
      on_handler other (ok h) p =
          rw (other, p, execute) (rw (plain-nodes (h _ _)) (quiet.handler _ h p _ db))

-- The update that ends a run which does not route: the node gets the status and the execution of the
-- outcome, and the attempt counts unless a quota holds the node.
pub record Ending (env : Env) (t : Attempt) (o : RunOutcome) (rows rows' : List NodeRow)
    : Type 0 where
  pub update : NodeUpdate
  pub writes : rows' ≡ put_row env.assessment_id t.node_def.id update rows
  pub status : update.status ≡ o.status
  pub names : update.last_execution_id ≡ some t.execution_id
  pub execution : o.execution_id ≡ some t.execution_id
  pub counted :
      (update.attempts ≡ some (attempt_no t))
      ⊎ (update.attempts ≡ some t.attempts) × (o.status ≡ waiting_for_approval)

module _ (env : Env) (t : Attempt) (o : RunOutcome) (final : Db) where
  hold-Ending :
      (e : Error) (db : Db)
      → hold_for_quota env t e db ≡ (ok o, final)
      → Ending env t o db.node_states final.node_states
  unfolding hold_for_quota put_node finish_execution emit
  hold-Ending e db h = record {
    update = ended t waiting_for_approval t.attempts (some (quota_hold e));
    writes = ap (λ r. r.1.node_states) (sym h);
    status = ground arith;
    names = refl;
    execution = ground arith;
    counted = inr (refl, ground arith);
  }

  fail-Ending :
      (e : Error) (db : Db)
      → fail env t e db ≡ (ok o, final)
      → Ending env t o db.node_states final.node_states
  unfolding fail put_node finish_execution emit
  fail-Ending e db h = record {
    update = ended t failed (attempt_no t) (some (raised e));
    writes = ap (λ r. r.1.node_states) (sym h);
    status = ground arith;
    names = refl;
    execution = ground arith;
    counted = inl refl;
  }

  reject-Ending :
      (vs : List Violation) (db : Db)
      → reject env t vs db ≡ (ok o, final)
      → Ending env t o db.node_states final.node_states
  unfolding reject put_node finish_execution
  reject-Ending vs db h = record {
    update = ended t failed (attempt_no t) (some invalid_result_envelope);
    writes = ap (λ r. r.1.node_states) (sym h);
    status = ground arith;
    names = refl;
    execution = ground arith;
    counted = inl refl;
  }

  persist-Ending :
      (st : Status) (db : Db)
      → persist env t st db ≡ (ok o, final)
      → Ending env t o db.node_states final.node_states
  unfolding persist upsert_node_state put_node finish_execution emit
  persist-Ending st db h = elim (Bool-cases (is_node_status st)) [
    | inl legal ↦
        let h' = rw (legal, persist, upsert_node_state) at h in
        record {
          update = ended t st (attempt_no t) none;
          writes = ap (λ r. r.1.node_states) (sym h');
          status = ground (arith, h');
          names = refl;
          execution = ground (arith, h');
          counted = inl refl;
        }
    | inr illegal ↦ absurd (cc (rw (illegal, persist, upsert_node_state) at h))
  ]

-- A run whose result was a valid success: the node is SUCCEEDED with its attempt counted, and what
-- follows is routing along its edges.
pub record Success (env : Env) (t : Attempt) (o : RunOutcome) (rows : List NodeRow) (final : Db)
    : Type 0 where
  pub result : NodeResult
  pub valid : (result.status ≡ "success") × (is_empty (validate result) ≡ true)
  pub status : o.status ≡ succeeded
  pub execution : o.execution_id ≡ some t.execution_id
  pub routes :
      (k : String)
      → RouteChange
          (outgoing env.graph t.node_def.id)
          k
          (find
            (is_row env.assessment_id k)
            (put_row env.assessment_id t.node_def.id (ended t succeeded (attempt_no t) none) rows))
          (find (is_row env.assessment_id k) final.node_states)
  pub marked : Db
  pub marks :
      marked.node_states
      ≡ put_row env.assessment_id t.node_def.id (ended t succeeded (attempt_no t) none) rows
  pub reaches :
      All
        (λ e.
          Fires env (state_snapshot marked env.assessment_id) e
          → is_active (find (is_row env.assessment_id e.target) final.node_states) ≡ true)
        (outgoing env.graph t.node_def.id)

pub advance-nodes :
    (env : Env) (n : NodeDef) (db : Db)
    → (maybe_advance_phase env n db).node_states ≡ db.node_states
unfolding maybe_advance_phase update_assessment emit
advance-nodes env n db = ground arith

module _ (env : Env) (t : Attempt) (o : RunOutcome) (final : Db) where
  succeed-Success :
      (res : NodeResult) (info : AgentMeta) (db : Db)
      → (res.status == "success") ≡ true
      → is_empty (validate res) ≡ true
      → succeed env t res info db ≡ (ok o, final)
      → Success env t o db.node_states final
  unfolding succeed mark_succeeded put_node finish_execution emit
  succeed-Success res info db success valid h =
      on_routed (route_from env t.node_def res (mark_succeeded env t res info db)) refl
    where
      marked_db : Db
      marked_db = mark_succeeded env t res info db

      on_routed :
          (r : Routed)
          → route_from env t.node_def res (mark_succeeded env t res info db) ≡ r
          → Success env t o db.node_states final
      on_routed (err e, db') p = absurd (cc (rw (p, succeed) at h))
      on_routed (ok x, db') p =
          let h' = rw (p, succeed) at h in
          let same : final.node_states ≡ db'.node_states =
            ap (λ r. r.1.node_states) (sym h') ∙ advance-nodes env t.node_def db' in
          record {
            result = res;
            valid = ((eq_iff res.status "success").0 success, valid);
            status = ground (arith, h');
            execution = ground (arith, h');
            routes = λ k.
                rw same
                  (rw (ap (λ r. r.1) p) at (route_from-RouteChange env t.node_def res marked_db k));
            marked = marked_db;
            marks = refl;
            reaches = rw same (route_from-active env t.node_def res marked_db db' x p);
          }

  -- A run that returns either ends with one update of its node, or is a valid success.
  pub conclude-cases :
      (x : Executed)
      → conclude env t x ≡ (ok o, final)
      → Ending env t o x.1.node_states final.node_states ⊎ Success env t o x.1.node_states final
  unfolding settle
  conclude-cases (err e, db) h = elim (Bool-cases (is_quota_limit e)) [
    | inl quota ↦ inl (hold-Ending env t o final e db (rw quota at h))
    | inr other ↦ inl (fail-Ending env t o final e db (rw other at h))
  ]
  conclude-cases (ok (res, info), db) h = elim (Bool-cases (res.status == "success")) [
    | inl success ↦ elim (Bool-cases (is_empty (validate res))) [
      | inl valid ↦
          inr (succeed-Success res info db success valid (rw (success, valid, settle) at h))
      | inr invalid ↦
          inl (reject-Ending env t o final (validate res) db (rw (success, invalid, settle) at h))
    ]
    | inr other ↦
        inl
          (persist-Ending env t o final (persisted_status res.status) db (rw (other, settle) at h))
  ]
