-- ===== src/Engine/Execute/Bounds.antt =====
-- graph/engine.py, "attempts are hard-bounded": no run takes the attempts of a node past the smaller
-- of its own limit and the configured one, whether it returns or raises.
use tecnosor_sas_migration_d.Common.{
  ℕ, String, Option, none, some, List, ◌==◌, ◌≡◌, refl, ap, sym, ◌∙◌, ◌≤◌, inl, inr, arith, eq_iff,
  find, Bool-cases, is_empty,
}
use tecnosor_sas_migration_d.Engine.Env.{Env, new_id}
use tecnosor_sas_migration_d.Engine.Execute.{
  Attempt, attempt_no, attempt_limit, attempt_of, ended, mark_running, run_attempt, execute,
  conclude, settle, succeed, advanced, mark_succeeded, persist, persisted_status, reject, fail,
  hold_for_quota, run_node, Executed,
}
use tecnosor_sas_migration_d.Engine.Execute.Effects.{running_update, node-id}
use tecnosor_sas_migration_d.Engine.Execute.Guards.{run_node-cases}
use tecnosor_sas_migration_d.Engine.Execute.Outcome.{IsQuiet, execute-nodes, advance-nodes}
use tecnosor_sas_migration_d.Engine.Route.{Routed, route_from}
use tecnosor_sas_migration_d.Engine.Route.Laws.{RouteChange, route_from-RouteChange}
use tecnosor_sas_migration_d.Errors.{
  ok, err, is_quota_limit, ErrorText, raised, invalid_result_envelope,
}
use tecnosor_sas_migration_d.Graph.Model.{NodeDef, EdgeDef, node, outgoing}
use tecnosor_sas_migration_d.Node.{NodeResult, validate}
use tecnosor_sas_migration_d.State.Nodes.{
  NodeUpdate, is_row, put_row, put_node, upsert_node_state, get_node_state, current_attempts,
}
use tecnosor_sas_migration_d.State.Nodes.Laws.{find-put_row_self, find-put_row_ne, merged}
use tecnosor_sas_migration_d.State.Records.{create_execution, finish_execution, emit}
use tecnosor_sas_migration_d.State.Status.{Status, succeeded, failed, is_node_status}
use tecnosor_sas_migration_d.State.Tables.{Db, NodeRow, AgentMeta}

-- Every node of the graph is within its limit.
abbrev pub IsBounded : Env → List NodeRow → Type 0
IsBounded env rows =
    (k : String) (n : NodeDef)
    → node env.graph k ≡ some n
    → current_attempts (find (is_row env.assessment_id k) rows) ≤ attempt_limit env n

merged-attempts :
    (a n : String) (u : NodeUpdate) (old : Option NodeRow) (m : ℕ)
    → u.attempts ≡ some m
    → current_attempts (some (merged a n u old)) ≡ m
merged-attempts a n u none m h = ground arith
merged-attempts a n u (some r) m h = ground arith

advanced-nodes :
    (env : Env) (t : Attempt) (r : Routed) → (advanced env t r).1.node_states ≡ r.1.node_states
advanced-nodes env t (ok x, db) = advance-nodes env t.node_def db
advanced-nodes env t (err e, db) = refl

module _ (env : Env) where
  put-IsBounded :
      (id : String) (n : NodeDef) (u : NodeUpdate) (m : ℕ) (rows : List NodeRow)
      → node env.graph id ≡ some n
      → u.attempts ≡ some m
      → m ≤ attempt_limit env n
      → IsBounded env rows
      → IsBounded env (put_row env.assessment_id id u rows)
  put-IsBounded id n u m rows known gives fits b k nk found = elim (Bool-cases (id == k)) [
    | inl same ↦
        let e : id ≡ k = (eq_iff id k).0 same in
        let same_def : some n ≡ some nk = sym known ∙ ap (node env.graph) e ∙ found in
        rw (← e) (
          rw (find-put_row_self env.assessment_id id u rows) (
            rw (merged-attempts env.assessment_id id u _ m gives) (ground (arith, same_def, fits))))
    | inr other ↦ rw (find-put_row_ne env.assessment_id id k u rows other) (b k nk found)
  ]

  route-bound :
      (es : List EdgeDef) (k : String) (old new : Option NodeRow) (m : ℕ)
      → RouteChange es k old new
      → current_attempts old ≤ m
      → current_attempts new ≤ m
  route-bound es k old new m (inl same) h = rw same h
  route-bound es k old new m (inr a) h = rw a.reads (rw a.attempts h)

  module _ (t : Attempt) (known : node env.graph t.node_def.id ≡ some t.node_def)
      (fits : attempt_no t ≤ attempt_limit env t.node_def) where
    ended-IsBounded :
        (st : Status) (error : Option ErrorText) (rows : List NodeRow)
        → IsBounded env rows
        → IsBounded env
            (put_row env.assessment_id t.node_def.id (ended t st (attempt_no t) error) rows)
    ended-IsBounded st error rows =
        put-IsBounded t.node_def.id t.node_def (ended t st (attempt_no t) error) (attempt_no t) rows
          known refl fits

    succeed-IsBounded :
        (res : NodeResult) (info : AgentMeta) (db : Db)
        → IsBounded env db.node_states
        → IsBounded env (succeed env t res info db).1.node_states
    unfolding succeed mark_succeeded put_node finish_execution emit
    succeed-IsBounded res info db b k n found =
        let marked = mark_succeeded env t res info db in
        rw (advanced-nodes env t (route_from env t.node_def res marked)) (
          route-bound (outgoing env.graph t.node_def.id) k _ _ (attempt_limit env n)
            (route_from-RouteChange env t.node_def res marked k)
            (ended-IsBounded succeeded none db.node_states b k n found))

    persist-IsBounded :
        (st : Status) (db : Db)
        → IsBounded env db.node_states
        → IsBounded env (persist env t st db).1.node_states
    unfolding persist upsert_node_state put_node finish_execution emit
    persist-IsBounded st db b = elim (Bool-cases (is_node_status st)) [
      | inl legal ↦
          rw (legal, persist, upsert_node_state) (ended-IsBounded st none db.node_states b)
      | inr illegal ↦ rw (illegal, persist, upsert_node_state) b
    ]

    settle-IsBounded :
        (res : NodeResult) (info : AgentMeta) (db : Db)
        → IsBounded env db.node_states
        → IsBounded env (settle env t res info db).1.node_states
    unfolding settle reject put_node finish_execution
    settle-IsBounded res info db b = elim (Bool-cases (res.status == "success")) [
      | inl success ↦ elim (Bool-cases (is_empty (validate res))) [
        | inl valid ↦ rw (success, valid, settle) (succeed-IsBounded res info db b)
        | inr invalid ↦
            rw (success, invalid, settle)
              (ended-IsBounded failed (some invalid_result_envelope) db.node_states b)
      ]
      | inr other ↦ rw (other, settle) (persist-IsBounded (persisted_status res.status) db b)
    ]

    conclude-IsBounded :
        (x : Executed)
        → IsBounded env x.1.node_states
        → IsBounded env (conclude env t x).1.node_states
    unfolding hold_for_quota fail put_node finish_execution emit
    conclude-IsBounded (ok (res, info), db) b = settle-IsBounded res info db b
    conclude-IsBounded (err e, db) b = elim (Bool-cases (is_quota_limit e)) [
      | inl quota ↦ rw quota (
          put-IsBounded t.node_def.id t.node_def _ t.attempts db.node_states known refl
            (omega (arith, fits)) b)
      | inr other ↦ rw other (ended-IsBounded failed (some (raised e)) db.node_states b)
    ]

-- If handlers and agent leave the node states alone, a run keeps every node of the graph within its
-- limit, also where it raises.
pub run_node-IsBounded :
    (env : Env) (quiet : IsQuiet env) (id : String) (db : Db)
    → IsBounded env db.node_states
    → IsBounded env (run_node env id db).1.node_states
unfolding run_attempt new_id mark_running put_node create_execution emit get_node_state
run_node-IsBounded env quiet id db b = elim (run_node-cases env id db) [
  | inl refused ↦ rw refused.unchanged b
  | inr s ↦
      let t = attempt_of s.node_def (get_node_state db env.assessment_id id) (new_id env db).0 in
      let started = mark_running env t (new_id env db).1 in
      let same_id : s.node_def.id ≡ id = node-id env.graph id s.node_def s.known in
      let known = rw (← same_id) at s.known in
      rw s.runs (
        conclude-IsBounded env t known (omega (arith, s.below_limit)) (execute env t started) (
          rw (execute-nodes env quiet t started) (
            put-IsBounded env s.node_def.id s.node_def (running_update t) (attempt_no t)
              db.node_states known refl (omega (arith, s.below_limit)) b)))
]
