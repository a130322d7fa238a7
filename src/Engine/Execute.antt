-- ===== src/Engine/Execute.antt =====
-- graph/engine.py: `_execute` and `run_node`.
pub mod Outcome
pub mod Guards
pub mod Effects
pub mod Isolation
pub mod Bounds
use Prim.Native.String.{◌++◌ as append}
use tecnosor_sas_migration_d.Common.{
  ℕ, String, Bool, true, false, Option, none, some, List, [], ◌∷◌, ◌==◌, ◌&&◌, not, leb, ◌+◌,
  is_empty, if◌then◌else◌,
}
use tecnosor_sas_migration_d.Common.Texts.{lower, upper}
use tecnosor_sas_migration_d.Engine.Env.{Env, new_id}
use tecnosor_sas_migration_d.Engine.Route.{Fired, Routed, route_from, maybe_advance_phase}
use tecnosor_sas_migration_d.Errors.{
  Error, ErrorText, Result, ok, err, Violation, raised, quota_hold, violations,
  invalid_result_envelope, unknown_node, max_attempts_reached, missing_prerequisite, is_quota_limit,
}
use tecnosor_sas_migration_d.Graph.Model.{NodeDef, node}
use tecnosor_sas_migration_d.Node.{NodeResult, Context, validate, get_handler}
use tecnosor_sas_migration_d.State.Nodes.{
  NodeUpdate, put_node, upsert_node_state, get_node_state, current_status, current_attempts,
}
use tecnosor_sas_migration_d.State.Records.{create_execution, finish_execution, emit, no_meta}
use tecnosor_sas_migration_d.State.Snapshot.{state_snapshot}
use tecnosor_sas_migration_d.State.Status.{
  Status, pending, running, waiting_for_input, waiting_for_approval, succeeded, failed, skipped,
  is_blocked, is_pending, status_name, status_of,
}
use tecnosor_sas_migration_d.State.Tables.{Db, NodeRow, AgentMeta, AuditEvent}

-- RunOutcome without its summary, a display text. `blocked` is `skipped_reason` being set.
pub record RunOutcome : Type 0 where
  pub node_id : String
  pub execution_id : Option String
  pub status : Status
  pub fired_edges : List Fired
  pub decision_ids : List String
  pub dry_run : Bool
  pub blocked : Bool

abbrev pub outcome : String → Option String → Status → RunOutcome
outcome n x st = record {
  node_id = n;
  execution_id = x;
  status = st;
  fired_edges = [];
  decision_ids = [];
  dry_run = false;
  blocked = false;
}

abbrev pub Ran : Type 0
Ran = Result RunOutcome × Db

-- `min(node.max_attempts, self.config.limits.max_node_attempts)`
abbrev pub attempt_limit : Env → NodeDef → ℕ
attempt_limit env n =
    if leb n.max_attempts env.max_node_attempts then n.max_attempts else env.max_node_attempts

-- One run of a node that passed the guards: what `run_node` has in its local variables.
pub record Attempt : Type 0 where
  pub node_def : NodeDef
  pub execution_id : String
  pub before : Status
  pub attempts : ℕ

-- `attempts + 1`
abbrev pub attempt_no : Attempt → ℕ
attempt_no t = t.attempts + 1

abbrev pub node_event : String → Env → Attempt → Status → Status → Option ErrorText → AuditEvent
node_event action env t from to error = record {
  action = action;
  actor_type = "engine";
  assessment_id = some env.assessment_id;
  session_id = some env.session_id;
  execution_id = some t.execution_id;
  node_id = some t.node_def.id;
  previous_state = some (status_name from);
  new_state = some (status_name to);
  evidence_ids = [];
  result_status = none;
  error = error;
}

-- the update that ends a run: `attempts` and `last_execution_id` are given
abbrev pub ended : Attempt → Status → ℕ → Option ErrorText → NodeUpdate
ended t st attempts error = record {
  status = st;
  attempts = some attempts;
  cycles = none;
  last_execution_id = some t.execution_id;
  last_error = error;
}

-- `except AdapterQuotaLimitError`: the node waits, and the attempt is not counted
unfoldable pub hold_for_quota : Env → Attempt → Error → Db → Ran
hold_for_quota env t e db = (
  ok (outcome t.node_def.id (some t.execution_id) waiting_for_approval),
  emit (node_event "node.quota_hold" env t running waiting_for_approval (some (raised e))) (
      put_node env.assessment_id t.node_def.id
        (ended t waiting_for_approval t.attempts (some (quota_hold e)))
        (finish_execution t.execution_id waiting_for_approval (some (raised e)) no_meta none db)),
)

-- `except Exception`
unfoldable pub fail : Env → Attempt → Error → Db → Ran
fail env t e db = (
  ok (outcome t.node_def.id (some t.execution_id) failed),
  emit (node_event "node.failed" env t running failed (some (raised e))) (
      put_node env.assessment_id t.node_def.id (ended t failed (attempt_no t) (some (raised e)))
        (finish_execution t.execution_id failed (some (raised e)) no_meta none db)),
)

-- a success whose result is not valid
unfoldable pub reject : Env → Attempt → List Violation → Db → Ran
reject env t vs db = (
  ok (outcome t.node_def.id (some t.execution_id) failed),
  put_node env.assessment_id t.node_def.id
      (ended t failed (attempt_no t) (some invalid_result_envelope))
      (finish_execution t.execution_id failed (some (violations vs)) no_meta none db),
)

abbrev pub advanced : Env → Attempt → Routed → Ran
advanced env t (err e, db) = (err e, db)
advanced env t (ok (fired, ids), db) = (
  ok (record (outcome t.node_def.id (some t.execution_id) succeeded) {
    fired_edges = fired;
    decision_ids = ids;
  }),
  maybe_advance_phase env t.node_def db,
)

unfoldable pub mark_succeeded : Env → Attempt → NodeResult → AgentMeta → Db → Db
mark_succeeded env t res info db =
    emit
      (record (node_event "node.succeeded" env t running succeeded none) {
        evidence_ids = res.evidence_used;
        result_status = some "success";
      })
      (put_node env.assessment_id t.node_def.id (ended t succeeded (attempt_no t) none) (
        finish_execution t.execution_id succeeded none info
          (some (env.execution_dir t.execution_id)) db))

unfoldable pub succeed : Env → Attempt → NodeResult → AgentMeta → Db → Ran
succeed env t res info db =
    advanced env t (route_from env t.node_def res (mark_succeeded env t res info db))

-- The table in `run_node`, with `result.status.upper()` for what it does not list.
unfoldable pub persisted_status : String → Status
persisted_status s =
    if s == "waiting_for_input"
    then waiting_for_input
    else if s == "waiting_for_approval"
    then waiting_for_approval
    else if s == "skipped"
    then skipped
    else status_of (upper s)

abbrev persisted : Env → Attempt → Status → Result (Unit {0}) × Db → Ran
persisted env t st (err e, db) = (err e, db)
persisted env t st (ok _, db) = (
  ok (outcome t.node_def.id (some t.execution_id) st),
  emit (node_event (append "node." (lower (status_name st))) env t running st none) db,
)

-- every result but a success; an illegal status raises after the execution was finished
unfoldable pub persist : Env → Attempt → Status → Db → Ran
persist env t st db = persisted env t st (
    upsert_node_state env.assessment_id t.node_def.id (ended t st (attempt_no t) none)
      (finish_execution t.execution_id st none no_meta none db))

unfoldable pub settle : Env → Attempt → NodeResult → AgentMeta → Db → Ran
settle env t res info db =
    if res.status == "success"
    then if is_empty (validate res)
      then succeed env t res info db
      else reject env t (validate res) db
    else persist env t (persisted_status res.status) db

abbrev pub Executed : Type 0
Executed = Result (NodeResult × AgentMeta) × Db

abbrev pub plain : Result NodeResult × Db → Executed
plain (ok r, db) = (ok (r, no_meta), db)
plain (err e, db) = (err e, db)

-- `node.handler or node.id`
abbrev pub handler_name : NodeDef → String
handler_name n = if n.handler == "" then n.id else n.handler

-- the context that a handler or the agent is given
abbrev pub context_of : Env → Attempt → Db → Context
context_of env t db = record {
  node_id = t.node_def.id;
  execution_id = t.execution_id;
  attempt = attempt_no t;
  assessment_id = env.assessment_id;
  session_id = env.session_id;
  state = state_snapshot db env.assessment_id;
}

unfoldable pub execute : Env → Attempt → Db → Executed
execute env t db =
    if t.node_def.node_type == "opencode"
    then env.agent t.node_def (context_of env t db) db
    else elim (get_handler env.handlers (handler_name t.node_def)) [
      | err e ↦ (err e, db)
      | ok h ↦ plain (h (context_of env t db) db)
    ]

abbrev pub conclude : Env → Attempt → Executed → Ran
conclude env t (ok (res, info), db) = settle env t res info db
conclude env t (err e, db) = if is_quota_limit e then hold_for_quota env t e db else fail env t e db

-- the rows written before the handler is called
unfoldable pub mark_running : Env → Attempt → Db → Db
mark_running env t db = emit (node_event "node.started" env t t.before running none) (
    put_node env.assessment_id t.node_def.id
      (record {
        status = running;
        attempts = some (attempt_no t);
        cycles = none;
        last_execution_id = none;
        last_error = none;
      })
      (create_execution t.execution_id env.session_id env.assessment_id t.node_def.id (attempt_no t)
        running db))

unfoldable pub run_attempt : Env → Attempt → Db → Ran
run_attempt env t db = conclude env t (execute env t (mark_running env t db))

-- the local variables of a node that passed the guards
abbrev pub attempt_of : NodeDef → Option NodeRow → String → Attempt
attempt_of n existing x = record {
  node_def = n;
  execution_id = x;
  before = current_status existing;
  attempts = current_attempts existing;
}

abbrev pub start : Env → NodeDef → Option NodeRow → String × Db → Ran
start env n existing (x, db) = run_attempt env (attempt_of n existing x) db

-- The guards of `run_node`, in the order of the code.
unfoldable pub run_guarded : Env → NodeDef → String → Option NodeRow → Db → Ran
run_guarded env n id existing db =
    if is_blocked (current_status existing)
    then (ok (record (outcome id none (current_status existing)) { blocked = true }), db)
    else if leb (attempt_limit env n) (current_attempts existing)
    then (err (max_attempts_reached id (current_attempts existing)), db)
    else if is_pending (current_status existing) && not (id == env.graph.entry)
    then (err (missing_prerequisite id), db)
    else start env n existing (new_id env db)

unfoldable pub run_node : Env → String → Db → Ran
run_node env id db = elim (node env.graph id) [
  | none ↦ (err (unknown_node id), db)
  | some n ↦ run_guarded env n id (get_node_state db env.assessment_id id) db
]
