-- ===== src/Engine/Route/Laws.antt =====
-- What routing does to the node states.
use tecnosor_sas_migration_d.Common.{
  String, Bool, true, false, Option, none, some, List, [], ◌∷◌, ◌==◌, ◌||◌, any, ap, ◌≡◌, refl, sym,
  ◌∙◌, ◌⊎◌, inl, inr, arith, eq_iff, eq_refl, find, Bool-cases, All,
}
use tecnosor_sas_migration_d.Engine.Env.{Env, new_id}
use tecnosor_sas_migration_d.Engine.Route.{
  is_kept, record_decision, route_edge, route_edges, joined, routing_decided, route_from, Routed,
  Fired,
}
use tecnosor_sas_migration_d.Errors.{Result, ok, err}
use tecnosor_sas_migration_d.Graph.Model.{NodeDef, EdgeDef, outgoing}
use tecnosor_sas_migration_d.Graph.Predicates.{evaluate}
use tecnosor_sas_migration_d.Node.{NodeResult}
use tecnosor_sas_migration_d.State.Nodes.{
  is_row, only_status, put_row, put_node, get_node_state, current_attempts,
}
use tecnosor_sas_migration_d.State.Nodes.Laws.{
  find-put_row, find-put_row_self, merged, merged-status,
}
use tecnosor_sas_migration_d.State.Records.{create_decision, emit}
use tecnosor_sas_migration_d.State.Snapshot.{Snapshot, state_snapshot}
use tecnosor_sas_migration_d.State.Status.{ready, is_ready as is_status_ready}
use tecnosor_sas_migration_d.State.Tables.{Db, NodeRow, ConditionOutcome}

-- Node `k`, which no rule keeps, became READY with its attempts as they were; `es` leads to it.
pub record Activated (es : List EdgeDef) (k : String) (old new : Option NodeRow) : Type 0 where
  pub row : NodeRow
  pub reads : new ≡ some row
  pub is_ready : row.status ≡ ready
  pub attempts : row.attempts ≡ current_attempts old
  pub not_kept : is_kept old ≡ false
  pub is_target : any (λ e. e.target == k) es ≡ true

-- What routing along `es` may do to the row of `k`.
abbrev pub RouteChange : List EdgeDef → String → Option NodeRow → Option NodeRow → Type 0
RouteChange es k old new = (new ≡ old) ⊎ Activated es k old new

then_routed :
    (e : EdgeDef) (es : List EdgeDef) (k : String) (x y z : Option NodeRow)
    → RouteChange (e ∷ []) k x y
    → RouteChange es k y z
    → RouteChange (e ∷ es) k x z
then_routed e es k x y z (inl p) (inl q) = inl (q ∙ p)
then_routed e es k x y z (inl p) (inr a) = inr (record {
  row = a.row;
  reads = a.reads;
  is_ready = a.is_ready;
  attempts = rw (← p) a.attempts;
  not_kept = rw (← p) a.not_kept;
  is_target = ground (arith, a.is_target);
})
then_routed e es k x y z (inr a) (inl q) = inr (record {
  row = a.row;
  reads = q ∙ a.reads;
  is_ready = a.is_ready;
  attempts = a.attempts;
  not_kept = a.not_kept;
  is_target = ground (arith, a.is_target);
})
then_routed e es k x y z (inr a) (inr b) = inr (record {
  row = b.row;
  reads = b.reads;
  is_ready = b.is_ready;
  attempts = ground (arith, a.reads, a.attempts, b.attempts);
  not_kept = a.not_kept;
  is_target = ground (arith, a.is_target);
})

activate-RouteChange :
    (a k : String) (e : EdgeDef) (rows : List NodeRow)
    → is_kept (find (is_row a e.target) rows) ≡ false
    → RouteChange
        (e ∷ [])
        k
        (find (is_row a k) rows)
        (find (is_row a k) (put_row a e.target (only_status ready) rows))
activate-RouteChange a k e rows h = elim (Bool-cases (e.target == k)) [
  | inl same ↦
      let target : e.target ≡ k = (eq_iff e.target k).0 same in
      inr (record {
        row = merged a e.target (only_status ready) (find (is_row a e.target) rows);
        reads = find-put_row a e.target a k (only_status ready) rows ∙ rw (eq_refl a, same) refl;
        is_ready = ground arith;
        attempts = rw (← target) (ground arith);
        not_kept = rw (← target) h;
        is_target = rw same refl;
      })
  | inr other ↦
      inl (find-put_row a e.target a k (only_status ready) rows ∙ rw (eq_refl a, other) refl)
]

abbrev pub row : Env → Db → String → Option NodeRow
row env db k = find (is_row env.assessment_id k) db.node_states

route_edge-RouteChange :
    (env : Env) (n : NodeDef) (res : NodeResult) (e : EdgeDef) (o : ConditionOutcome) (db : Db)
    (k : String)
    → RouteChange (e ∷ []) k (row env db k) (row env (route_edge env n res e o db).2 k)
unfolding route_edge record_decision new_id create_decision put_node get_node_state
route_edge-RouteChange env n res e o db k = elim (Bool-cases o.result) [
  | inl fires ↦ elim (Bool-cases (is_kept (row env db e.target))) [
    | inl kept ↦ inl (rw (route_edge, fires, kept) refl)
    | inr free ↦
        rw (route_edge, fires, free)
          (activate-RouteChange env.assessment_id k e db.node_states free)
  ]
  | inr skipped ↦ inl (rw (route_edge, skipped) refl)
]

joined-db : (fs : List Fired) (ids : List String) (r : Routed) → (joined fs ids r).1 ≡ r.1
joined-db fs ids (ok r, db) = refl
joined-db fs ids (err e, db) = refl

route_step :
    (env : Env) (n : NodeDef) (res : NodeResult) (s : Snapshot) (e : EdgeDef) (es : List EdgeDef)
    (db : Db) (o : ConditionOutcome)
    → evaluate env.predicates e.condition s ≡ ok o
    → (route_edges env n res s (e ∷ es) db).1
      ≡ (route_edges env n res s es (route_edge env n res e o db).2).1
unfolding route_edges
route_step env n res s e es db o p = rw (p, route_edges) (joined-db _ _ _)

pub route_edges-RouteChange :
    (env : Env) (n : NodeDef) (res : NodeResult) (s : Snapshot) (es : List EdgeDef) (db : Db)
    (k : String)
    → RouteChange es k (row env db k) (row env (route_edges env n res s es db).1 k)
unfolding route_edges
route_edges-RouteChange env n res s [] db k = inl refl
route_edges-RouteChange env n res s (e ∷ es) db k =
    on_answer (evaluate env.predicates e.condition s) refl
      (λ db'. route_edges-RouteChange env n res s es db' k)
  where
    on_answer :
        (r : Result ConditionOutcome)
        → evaluate env.predicates e.condition s ≡ r
        → ((db' : Db)
            → RouteChange es k (row env db' k) (row env (route_edges env n res s es db').1 k))
        → RouteChange (e ∷ es) k (row env db k) (row env (route_edges env n res s (e ∷ es) db).1 k)
    on_answer (err x) p ih = inl (rw (p, route_edges) refl)
    on_answer (ok o) p ih =
        let db' = (route_edge env n res e o db).2 in
        rw (route_step env n res s e es db o p) (
          then_routed e es k (row env db k) (row env db' k) _
            (route_edge-RouteChange env n res e o db k) (ih db'))

routing_decided-nodes :
    (env : Env) (n : NodeDef) (r : Routed)
    → (routing_decided env n r).1.node_states ≡ r.1.node_states
unfolding emit
routing_decided-nodes env n (ok r, db) = refl
routing_decided-nodes env n (err e, db) = refl

-- Routing changes the row of `k` only by making it READY, with its attempts as they were, and only if
-- an outgoing edge leads to it and it is neither SUCCEEDED nor blocked.
pub route_from-RouteChange :
    (env : Env) (n : NodeDef) (res : NodeResult) (db : Db) (k : String)
    → RouteChange (outgoing env.graph n.id) k (row env db k) (row env (route_from env n res db).1 k)
unfolding route_from
route_from-RouteChange env n res db k =
    rw (routing_decided-nodes env n _) (route_edges-RouteChange env n res _ _ db k)

-- READY, SUCCEEDED or blocked
abbrev pub is_active : Option NodeRow → Bool
is_active none = false
is_active (some r) = is_status_ready r.status || is_kept (some r)

active_after :
    (es : List EdgeDef) (k : String) (x y : Option NodeRow)
    → RouteChange es k x y
    → is_active x ≡ true
    → is_active y ≡ true
active_after es k x y (inl p) h = rw p h
active_after es k x y (inr a) h = rw a.reads (rw a.is_ready refl)

-- The edge's predicate holds in the snapshot.
abbrev pub Fires : Env → Snapshot → EdgeDef → Type 0
Fires env s e =
    (o : ConditionOutcome) × (evaluate env.predicates e.condition s ≡ ok o) × (o.result ≡ true)

route_edge-active :
    (env : Env) (n : NodeDef) (res : NodeResult) (e : EdgeDef) (o : ConditionOutcome) (db : Db)
    → o.result ≡ true
    → is_active (row env (route_edge env n res e o db).2 e.target) ≡ true
unfolding route_edge record_decision new_id create_decision put_node get_node_state
route_edge-active env n res e o db fires = elim (Bool-cases (is_kept (row env db e.target))) [
  | inl kept ↦ rw (route_edge, fires, kept) (ground arith)
  | inr free ↦
      rw
        (
          route_edge,
          fires,
          free,
          find-put_row_self env.assessment_id e.target (only_status ready) db.node_states,
          merged-status,
        )
        refl
]

ok-joined :
    (fs : List Fired) (ids : List String) (r : Routed) (x : List Fired × List String) (final : Db)
    → joined fs ids r ≡ (ok x, final)
    → (y : List Fired × List String) × (r ≡ (ok y, final))
ok-joined fs ids (ok y, db) x final h = (y, cc)
ok-joined fs ids (err e, db) x final h = cc

-- When routing returns, every edge whose predicate holds leads to a node that is READY, SUCCEEDED or
-- blocked.
pub route_edges-active :
    (env : Env) (n : NodeDef) (res : NodeResult) (s : Snapshot) (es : List EdgeDef) (db final : Db)
    (x : List Fired × List String)
    → route_edges env n res s es db ≡ (ok x, final)
    → All (λ e. Fires env s e → is_active (row env final e.target) ≡ true) es
unfolding route_edges
route_edges-active env n res s [] db final x h = tt
route_edges-active env n res s (e ∷ es) db final x h =
    on_answer (evaluate env.predicates e.condition s) refl
      (λ db'. route_edges-active env n res s es db' final)
  where
    on_answer :
        (r : Result ConditionOutcome)
        → evaluate env.predicates e.condition s ≡ r
        → ((db' : Db) (y : List Fired × List String)
            → route_edges env n res s es db' ≡ (ok y, final)
            → All (λ e'. Fires env s e' → is_active (row env final e'.target) ≡ true) es)
        → All (λ e'. Fires env s e' → is_active (row env final e'.target) ≡ true) (e ∷ es)
    on_answer (err y) p ih = absurd (cc (rw (p, route_edges) at h))
    on_answer (ok o) p ih =
        let db' = (route_edge env n res e o db).2 in
        let (y, q) =
          ok-joined _ _ (route_edges env n res s es db') x final (rw (p, route_edges) at h) in
        let reached = route_edges-RouteChange env n res s es db' e.target in
        (
          λ (o', p', fires).
              active_after es e.target (row env db' e.target) (row env final e.target)
                (rw (ap (λ t. t.1) q) at reached)
                (route_edge-active env n res e o db (ground (arith, p, p', fires))),
          ih db' y q,
        )

decided-ok :
    (env : Env) (n : NodeDef) (r : Routed) (x : List Fired × List String) (final : Db)
    → routing_decided env n r ≡ (ok x, final)
    → (db : Db) × (r ≡ (ok x, db)) × (final.node_states ≡ db.node_states)
unfolding emit
decided-ok env n (ok y, db) x final h = (db, cc, ap (λ r. r.1.node_states) (sym h))
decided-ok env n (err e, db) x final h = cc

-- When routing returns, every outgoing edge whose predicate holds in the snapshot taken before it
-- leads to a node that is READY, SUCCEEDED or blocked.
pub route_from-active :
    (env : Env) (n : NodeDef) (res : NodeResult) (db final : Db) (x : List Fired × List String)
    → route_from env n res db ≡ (ok x, final)
    → All
        (λ e.
          Fires env (state_snapshot db env.assessment_id) e
          → is_active (row env final e.target) ≡ true)
        (outgoing env.graph n.id)
unfolding route_from
route_from-active env n res db final x h =
    let (db', p, same) =
      decided-ok env n
        (route_edges env n res (state_snapshot db env.assessment_id) (outgoing env.graph n.id) db) x
        final h in
    rw same (route_edges-active env n res _ _ db db' x p)
