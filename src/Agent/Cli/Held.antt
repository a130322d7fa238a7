-- ===== src/Agent/Cli/Held.antt =====
-- opencode_adapter/adapter.py with graph/engine.py: an agent whose command reports a used-up quota.
use tecnosor_sas_migration_d.Agent.Cli.{
  Call, Process, timeout_expired, finished, Searches, is_quota_error, is_cli_error, combined_output,
  invocation_of, argv, cli_run,
}
use tecnosor_sas_migration_d.Agent.Retry.{Adapter, execute_opencode}
use tecnosor_sas_migration_d.Agent.Retry.Laws.{quota_not_retried}
use tecnosor_sas_migration_d.Common.{
  ℕ, String, true, false, Option, none, some, List, ◌==◌, ◌&&◌, not, leb, ◌≡◌, refl, subst,
}
use tecnosor_sas_migration_d.Engine.Env.{Env, new_id}
use tecnosor_sas_migration_d.Engine.Execute.{
  Ran, Attempt, attempt_limit, attempt_of, ended, execute, hold_for_quota, mark_running,
  run_attempt, run_guarded, run_node, context_of,
}
use tecnosor_sas_migration_d.Engine.Execute.Effects.{node-id}
use tecnosor_sas_migration_d.Errors.{Error, err, adapter_quota_limit, raised, quota_hold}
use tecnosor_sas_migration_d.Graph.Model.{NodeDef, node}
use tecnosor_sas_migration_d.Node.{Context}
use tecnosor_sas_migration_d.State.Nodes.{
  get_node_state, current_status, current_attempts, put_node, NodeUpdate,
}
use tecnosor_sas_migration_d.State.Nodes.Laws.{get_node_state-put_node_self, merged, merged-status}
use tecnosor_sas_migration_d.State.Records.{no_meta, emit, finish_execution}
use tecnosor_sas_migration_d.State.Status.{is_blocked, is_pending, waiting_for_approval}
use tecnosor_sas_migration_d.State.Tables.{Db, NodeRow}

-- The output of a process that a quota pattern finds and no pattern of a resolution error.
abbrev pub IsQuotaOutput : Searches → Process → Type 0
IsQuotaOutput s timeout_expired = ⊥
IsQuotaOutput s (finished exit out errors) =
    (is_cli_error s (combined_output out errors) ≡ false)
    × (is_quota_error s (combined_output out errors) ≡ true)

abbrev limit_error : Error
limit_error = adapter_quota_limit "provider quota/rate limit detected"

invocation_of-quota :
    (s : Searches) (c : Call) (p : Process)
    → IsQuotaOutput s p
    → invocation_of s c p ≡ err limit_error
unfolding invocation_of
invocation_of-quota s c timeout_expired h = absurd h
invocation_of-quota s c (finished exit out errors) h = rw (h.0, h.1) refl

-- the engine with the agent's command, where prompts can be rendered: `call` gives the arguments for a
-- node and its context
abbrev pub with_command :
    Env → Adapter → (List String → Process) → Searches → (NodeDef → Context → Call) → Env
with_command env a spawn s call = record env {
  agent =
      execute_opencode
        (record a { prompt_error = λ n c. none; run = λ n c index. cli_run spawn s (call n c) });
}

-- The node waits for approval with its attempts as before.
pub record Held (env : Env) (id : String) (attempts : ℕ) (r : Ran) : Type 0 where
  pub row : NodeRow
  pub found : get_node_state r.1 env.assessment_id id ≡ some row
  pub waits : row.status ≡ waiting_for_approval
  pub uncounted : row.attempts ≡ attempts

merged-attempts :
    (env : Env) (t : Attempt) (u : NodeUpdate) (n : ℕ) (o : Option NodeRow)
    → u.attempts ≡ some n
    → (merged env.assessment_id t.node_def.id u o).attempts ≡ n
merged-attempts env t u n none h = rw h refl
merged-attempts env t u n (some r) h = rw h refl

hold_for_quota-Held :
    (env : Env) (t : Attempt) (e : Error) (db : Db)
    → Held env t.node_def.id t.attempts (hold_for_quota env t e db)
unfolding hold_for_quota emit get_node_state put_node
hold_for_quota-Held env t e db =
    let update = ended t waiting_for_approval t.attempts (some (quota_hold e)) in
    let before =
      finish_execution t.execution_id waiting_for_approval (some (raised e)) no_meta none db in
    record {
      row =
          merged env.assessment_id t.node_def.id update
            (get_node_state before env.assessment_id t.node_def.id);
      found = get_node_state-put_node_self env.assessment_id t.node_def.id update before;
      waits =
          merged-status env.assessment_id t.node_def.id update
            (get_node_state before env.assessment_id t.node_def.id);
      uncounted =
          merged-attempts env t update t.attempts
            (get_node_state before env.assessment_id t.node_def.id) refl;
    }

quota_raised :
    (env : Env) (a : Adapter) (spawn : List String → Process) (s : Searches)
    (call : NodeDef → Context → Call) (n : NodeDef) (c : Context) (db : Db)
    → ((args : List String) → IsQuotaOutput s (spawn args))
    → (with_command env a spawn s call).agent n c db ≡ (err limit_error, db)
unfolding cli_run
quota_raised env a spawn s call n c db quota =
    quota_not_retried
      (record a { prompt_error = λ n c. none; run = λ n c index. cli_run spawn s (call n c) }) n c
      db limit_error refl
      (invocation_of-quota s (call n c) (spawn (argv (call n c))) (quota (argv (call n c)))) refl

-- A run of an agent node, once its guards have passed.
run_attempt-Held :
    (env : Env) (a : Adapter) (spawn : List String → Process) (s : Searches)
    (call : NodeDef → Context → Call) (t : Attempt) (db : Db)
    → ((args : List String) → IsQuotaOutput s (spawn args))
    → (t.node_def.node_type == "opencode") ≡ true
    → Held
        (with_command env a spawn s call)
        t.node_def.id
        t.attempts
        (run_attempt (with_command env a spawn s call) t db)
unfolding run_attempt execute
run_attempt-Held env a spawn s call t db quota agent =
    let e = with_command env a spawn s call in
    rw
      (
        agent,
        quota_raised env a spawn s call t.node_def (context_of e t (mark_running e t db))
            (mark_running e t db) quota,
      )
      (hold_for_quota-Held e t limit_error (mark_running e t db))

-- Where prompts can be rendered and every output of the agent's command reports a used-up quota and no
-- resolution error: a run of an agent node whose guards pass (known, not blocked, attempts left, activated or the entry) leaves the
-- node waiting for approval with its attempts as they were.
pub quota_uncounted :
    (env : Env) (a : Adapter) (spawn : List String → Process) (s : Searches)
    (call : NodeDef → Context → Call) (id : String) (n : NodeDef) (db : Db)
    → ((args : List String) → IsQuotaOutput s (spawn args))
    → node env.graph id ≡ some n
    → (n.node_type == "opencode") ≡ true
    → is_blocked (current_status (get_node_state db env.assessment_id id)) ≡ false
    → leb (attempt_limit env n) (current_attempts (get_node_state db env.assessment_id id)) ≡ false
    → (is_pending (current_status (get_node_state db env.assessment_id id))
        && not (id == env.graph.entry))
      ≡ false
    → Held
        (with_command env a spawn s call)
        id
        (current_attempts (get_node_state db env.assessment_id id))
        (run_node (with_command env a spawn s call) id db)
unfolding run_node run_guarded
quota_uncounted env a spawn s call id n db quota known agent free left active =
    let e = with_command env a spawn s call in
    let existing = get_node_state db env.assessment_id id in
    let (x, drawn) = new_id e db in
    rw (known, run_node, free, left, active, run_guarded)
      (subst
        (λ k. Held e k (current_attempts existing) (run_attempt e (attempt_of n existing x) drawn))
        (node-id env.graph id n known)
        (run_attempt-Held env a spawn s call (attempt_of n existing x) drawn quota agent))
