-- ===== src/Engine/Execute/Guards.antt =====
-- Which runs `run_node` of graph/engine.py refuses, and from what state it starts the others.
use tecnosor_sas_migration_d.Common.{
  String, true, false, Option, none, some, ◌==◌, ◌&&◌, not, ◌≡◌, refl, ◌⊎◌, inl, inr, arith, eq_iff,
  Bool-cases, leb, ◌<◌, leb→lt,
}
use tecnosor_sas_migration_d.Engine.Env.{Env, new_id}
use tecnosor_sas_migration_d.Engine.Execute.{
  RunOutcome, Ran, attempt_limit, start, run_guarded, run_node,
}
use tecnosor_sas_migration_d.Errors.{ok}
use tecnosor_sas_migration_d.Graph.Model.{NodeDef, node}
use tecnosor_sas_migration_d.State.Nodes.{get_node_state, current_status, current_attempts}
use tecnosor_sas_migration_d.State.Status.{is_blocked, is_pending}
use tecnosor_sas_migration_d.State.Tables.{Db, NodeRow}

-- Nothing is written: the call raises, or answers that the node is blocked.
pub record Refused (existing : Option NodeRow) (db : Db) (r : Ran) : Type 0 where
  pub unchanged : r.1 ≡ db
  pub answer :
      (o : RunOutcome)
      → r.0 ≡ ok o
      → (o.blocked ≡ true)
        × (o.execution_id ≡ none)
        × (o.status ≡ current_status existing)
        × (is_blocked (current_status existing) ≡ true)

-- The guards passed, and the run of the node starts.
pub record Started (env : Env) (id : String) (db : Db) (r : Ran) : Type 0 where
  pub node_def : NodeDef
  pub known : node env.graph id ≡ some node_def
  pub not_blocked : is_blocked (current_status (get_node_state db env.assessment_id id)) ≡ false
  pub below_limit :
      current_attempts (get_node_state db env.assessment_id id) < attempt_limit env node_def
  pub activated :
      is_pending (current_status (get_node_state db env.assessment_id id)) ≡ true
      → id ≡ env.graph.entry
  pub runs : r ≡ start env node_def (get_node_state db env.assessment_id id) (new_id env db)

guarded-cases :
    (env : Env) (n : NodeDef) (id : String) (existing : Option NodeRow) (db : Db)
    → Refused existing db (run_guarded env n id existing db)
      ⊎ ((is_blocked (current_status existing) ≡ false)
          × (current_attempts existing < attempt_limit env n)
          × ((is_pending (current_status existing) && not (id == env.graph.entry)) ≡ false)
          × (run_guarded env n id existing db ≡ start env n existing (new_id env db)))
unfolding run_guarded
guarded-cases env n id existing db = elim (Bool-cases (is_blocked (current_status existing))) [
  | inl blocked ↦ inl (
      rw (blocked, run_guarded)
        (record { unchanged = refl; answer = λ o h. ground (arith, blocked) }))
  | inr free ↦ elim (Bool-cases (leb (attempt_limit env n) (current_attempts existing))) [
    | inl used ↦
        inl (rw (free, used, run_guarded) (record { unchanged = refl; answer = λ o h. cc }))
    | inr left ↦
        elim (Bool-cases (is_pending (current_status existing) && not (id == env.graph.entry))) [
          | inl waits ↦ inl (
              rw (free, left, waits, run_guarded) (record { unchanged = refl; answer = λ o h. cc }))
          | inr active ↦
              inr (free, leb→lt _ _ left, active, rw (free, left, active, run_guarded) refl)
        ]
  ]
]

-- Every call either is refused with the database as it was, or starts: then the node is in the graph,
-- its status is not blocked, its attempts are below both limits, and a node that was never activated
-- is the entry.
pub run_node-cases :
    (env : Env) (id : String) (db : Db)
    → Refused (get_node_state db env.assessment_id id) db (run_node env id db)
      ⊎ Started env id db (run_node env id db)
unfolding run_node
run_node-cases env id db = on_node (node env.graph id) refl
  where
    existing : Option NodeRow
    existing = get_node_state db env.assessment_id id

    on_node :
        (o : Option NodeDef)
        → node env.graph id ≡ o
        → Refused existing db (run_node env id db) ⊎ Started env id db (run_node env id db)
    on_node none p = inl (rw (p, run_node) (record { unchanged = refl; answer = λ o h. cc }))
    on_node (some n) p = elim (guarded-cases env n id existing db) [
      | inl refused ↦ inl (rw (p, run_node) refused)
      | inr (free, left, active, runs) ↦ inr (record {
        node_def = n;
        known = p;
        not_blocked = free;
        below_limit = left;
        activated = λ h. (eq_iff id env.graph.entry).0 (ground (arith, active, h));
        runs = rw (p, run_node) runs;
      })
    ]
