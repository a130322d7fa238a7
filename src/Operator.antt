-- ===== src/Operator.antt =====
-- sassessment/cli/main.py: the two commands that change the state of a node, `unblock` and `answer`.
-- A command answers its exit code; what it prints is left out.
pub mod Laws
pub mod Answers
use Prim.Native.String.{◌++◌ as append}
use tecnosor_sas_migration_d.Common.{
  ℕ, String, Bool, true, false, Option, none, some, List, [], ◌∷◌, ◌==◌, ◌&&◌, ◌||◌, not, filter,
  is_empty, if◌then◌else◌,
}
use tecnosor_sas_migration_d.Common.Texts.{lower, last_part}
use tecnosor_sas_migration_d.Errors.{Error, Result, ok, err}
use tecnosor_sas_migration_d.Graph.Model.{GraphDef, has_node}
use tecnosor_sas_migration_d.State.Nodes.{
  NodeUpdate, only_status, put_node, get_node_state, current_attempts,
}
use tecnosor_sas_migration_d.State.Records.{emit}
use tecnosor_sas_migration_d.State.Requests.{get_request, resolve_request, is_open}
use tecnosor_sas_migration_d.State.Status.{
  Status, ready, running, succeeded, failed, waiting_for_approval, status_name,
}
use tecnosor_sas_migration_d.State.Tables.{Db, NodeRow, Request, resolved, AuditEvent}

-- ApplicationContext: the active assessment and its graph. `files` lists the names of the files below
-- a directory, and `register_batch` is intake/registration.py.
pub record Desk : Type 0 where
  pub assessment_id : String
  pub graph : GraphDef
  pub files : String → List String
  pub register_batch : String → String → Db → Result (Unit {0}) × Db

abbrev pub Command : Type 0
Command = Result ℕ × Db

abbrev pub can_unblock : Status → Bool
can_unblock waiting_for_approval = true
can_unblock failed = true
can_unblock running = true
can_unblock ready = true
can_unblock _ = false

-- `status=s` with the attempts of the row
abbrev pub keep_attempts : Status → ℕ → NodeUpdate
keep_attempts s attempts = record (only_status s) { attempts = some attempts }

abbrev pub human_event : String → Desk → String → Option String → Option String → AuditEvent
human_event action desk n before after = record {
  action = action;
  actor_type = "human";
  assessment_id = some desk.assessment_id;
  session_id = none;
  execution_id = none;
  node_id = some n;
  previous_state = before;
  new_state = after;
  evidence_ids = [];
  result_status = none;
  error = none;
}

unfoldable pub unblock : Desk → String → Db → Command
unblock desk n db = elim (get_node_state db desk.assessment_id n) [
  | none ↦ (ok 1, db)
  | some r ↦
      if can_unblock r.status
      then (
        ok 0,
        emit (human_event "node.unblocked" desk n (some (status_name r.status)) (some "READY"))
            (put_node desk.assessment_id n (keep_attempts ready r.attempts) db),
      )
      else (ok 1, db)
]

-- the material that was delivered
abbrev pub material : Desk → Request → List String
material desk r =
    filter (λ f. not (f == "REQUEST.md" || f == "query-pack.sql")) (desk.files r.destination_batch)

-- `f"BAT-res-{request_id.lower().split('-')[-1]}"`
unfoldable pub resolution_batch : String → String
resolution_batch id = append "BAT-res-" (last_part (lower id))

abbrev pub finish_waiting : Desk → String → Option NodeRow → Db → Db
finish_waiting desk n none db = db
finish_waiting desk n (some r) db =
    put_node desk.assessment_id n (keep_attempts succeeded r.attempts) db

-- `if resume_node and resume_node in context.graph.nodes`
abbrev pub resumes : Desk → Request → Bool
resumes desk r = not (r.resume_node == "") && has_node desk.graph r.resume_node

unfoldable pub advance_answered : Desk → Request → Db → Db
advance_answered desk r db =
    let done = finish_waiting desk r.node_id (get_node_state db desk.assessment_id r.node_id) db in
    let resumed =
      if resumes desk r
      then put_node desk.assessment_id r.resume_node (only_status ready) done
      else done in
    emit (human_event "request.resolved" desk r.node_id none (some r.resume_node)) resumed

-- `register_batch` runs after the request was resolved; an error of it leaves the command there.
abbrev pub registered : Desk → Request → Result (Unit {0}) × Db → Command
registered desk r (err e, db) = (err e, db)
registered desk r (ok _, db) = (ok 0, advance_answered desk r db)

abbrev pub resolved_then : Desk → String → Request → Bool × Db → Command
resolved_then desk id r (false, db) = (ok 1, db)
resolved_then desk id r (true, db) =
    registered desk r (desk.register_batch (resolution_batch id) r.destination_batch db)

unfoldable pub answer_request : Desk → String → Db → Command
answer_request desk id db = elim (get_request db id) [
  | none ↦ (ok 1, db)
  | some r ↦
      if not (r.assessment_id == desk.assessment_id)
      then (ok 1, db)
      else if not (is_open r.status)
      then (ok 1, db)
      else if is_empty (material desk r)
      then (ok 1, db)
      else resolved_then desk id r (resolve_request id resolved (some (resolution_batch id)) db)
]
