-- ===== src/Node/Ask.antt =====
-- sassessment/nodes/base.py, `NodeContext.request_human_input`. `rid` is
-- the identifier that `request_id` draws and `intake_raw` the directory of the layout; `files` is
-- the error that making the directory or writing its two files ends with, if with one.
pub mod Laws
use Prim.Native.String.{◌++◌ as append}
use tecnosor_sas_migration_d.Common.{
  String, Bool, true, false, Option, none, some, List, [], ◌∷◌, ◌==◌, ◌&&◌, find, if◌then◌else◌,
}
use tecnosor_sas_migration_d.Common.Texts.{lower}
use tecnosor_sas_migration_d.Errors.{Error, Result, ok, err, human_request_error}
use tecnosor_sas_migration_d.Node.{Context}
use tecnosor_sas_migration_d.State.Records.{emit}
use tecnosor_sas_migration_d.State.Requests.{create_request, list_open_requests}
use tecnosor_sas_migration_d.State.Tables.{Db, Request, open_request, AuditEvent}

-- HumanRequestSpec
pub record RequestSpec : Type 0 where
  pub title : String
  pub missing_info : String
  pub reason : String
  pub priority : String
  pub expected_provider : String
  pub retrieval_attempted : String
  pub accepted_formats : String
  pub security_notes : String
  pub resume_node : String
  pub query_pack : Option String

-- `intake_raw / f"req-{rid.lower()}"`
abbrev pub destination : String → String → String
destination intake_raw rid = append intake_raw (append "/req-" (lower rid))

abbrev query_pack_path : Option String → String → String
query_pack_path none dir = ""
query_pack_path (some q) dir = if q == "" then "" else append dir "/query-pack.sql"

abbrev phase_text : Option String → String
phase_text none = ""
phase_text (some p) = p

abbrev pub request_of : String → String → Context → RequestSpec → Request
request_of intake_raw rid c spec = record {
  id = rid;
  assessment_id = c.assessment_id;
  node_id = c.node_id;
  phase = phase_text c.state.current_phase;
  priority = spec.priority;
  status = open_request;
  title = spec.title;
  missing_info = spec.missing_info;
  reason = spec.reason;
  expected_provider = spec.expected_provider;
  retrieval_attempted = spec.retrieval_attempted;
  accepted_formats = spec.accepted_formats;
  destination_batch = destination intake_raw rid;
  security_notes = spec.security_notes;
  resume_node = if spec.resume_node == "" then c.node_id else spec.resume_node;
  query_pack_path = query_pack_path spec.query_pack (destination intake_raw rid);
  request_doc_path = append (destination intake_raw rid) "/REQUEST.md";
  resolution_batch_id = none;
}

abbrev request_created : Context → String → AuditEvent
request_created c rid = record {
  action = "request.created";
  actor_type = "node";
  assessment_id = some c.assessment_id;
  session_id = some c.session_id;
  execution_id = some c.execution_id;
  node_id = some c.node_id;
  previous_state = none;
  new_state = some rid;
  evidence_ids = [];
  result_status = none;
  error = none;
}

-- the open request that an earlier call left
abbrev pub found_open : Option Request → Result String
found_open none = err human_request_error
found_open (some r) = ok r.id

abbrev pub is_same_question : Context → RequestSpec → Request → Bool
is_same_question c spec r = r.node_id == c.node_id && r.missing_info == spec.missing_info

abbrev asked : Context → RequestSpec → String → Result Bool × Db → Result String × Db
asked c spec rid (ok true, db) = (ok rid, emit (request_created c rid) db)
asked c spec rid (ok false, db) =
    (found_open (find (is_same_question c spec) (list_open_requests db c.assessment_id)), db)
asked c spec rid (err e, db) = (err e, db)

unfoldable pub request_human_input :
    String → String → Option Error → Context → RequestSpec → Db → Result String × Db
request_human_input intake_raw rid (some e) c spec db = (err e, db)
request_human_input intake_raw rid none c spec db =
    asked c spec rid (create_request (request_of intake_raw rid c spec) db)
