-- ===== src/State/Tables.antt =====
-- The rows of the tables (state/migrations/V001__initial.sql) that the engine, the requests and the
-- audit trail read and write, and the database that holds them. Tables are lists in insertion order.
-- Times are left out: what the source orders by `created_at` stands in insertion order here.
use tecnosor_sas_migration_d.Common.{ℕ, String, Bool, Option, List}
use tecnosor_sas_migration_d.Errors.{ErrorText}
use tecnosor_sas_migration_d.Graph.Model.{EdgeDef, Args}
use tecnosor_sas_migration_d.State.Status.{Status}

pub record Assessment : Type 0 where
  pub id : String
  pub status : String
  pub current_phase : String

pub record NodeRow : Type 0 where
  pub assessment_id : String
  pub node_id : String
  pub status : Status
  pub attempts : ℕ
  pub cycles : ℕ
  pub last_execution_id : Option String
  pub last_error : Option ErrorText

-- A return code: a process exits with a number, or a signal ends it (a negative code).
pub data ReturnCode : Type 0 where
  exited : ℕ → ReturnCode
  signalled : ℕ → ReturnCode

-- The columns that an agent node fills.
pub record AgentMeta : Type 0 where
  pub prompt_hash : Option String
  pub model : Option String
  pub provider : Option String
  pub opencode_session_id : Option String
  pub exit_code : Option ReturnCode

pub record Execution : Type 0 where
  pub id : String
  pub session_id : String
  pub assessment_id : String
  pub node_id : String
  pub attempt : ℕ
  pub status : Status
  pub error : Option ErrorText
  pub agent_meta : AgentMeta
  pub result_path : Option String

pub record Batch : Type 0 where
  pub id : String
  pub batch_dir : String
  pub status : String
  pub provider : String
  pub source_team : String
  pub environment : String
  pub authority_level : String
  pub confidentiality : String
  pub manifest_path : String
  pub integrity_hash : String

pub record Artifact : Type 0 where
  pub id : String
  pub batch_id : String
  pub relative_path : String
  pub media_type : String
  pub size_bytes : ℕ
  pub sha256 : String
  pub duplicate_of : Option String

pub data RequestStatus : Type 0 where
  open_request answered resolved cancelled_request expired : RequestStatus

pub record Request : Type 0 where
  pub id : String
  pub assessment_id : String
  pub node_id : String
  pub phase : String
  pub priority : String
  pub status : RequestStatus
  pub title : String
  pub missing_info : String
  pub reason : String
  pub expected_provider : String
  pub retrieval_attempted : String
  pub accepted_formats : String
  pub destination_batch : String
  pub security_notes : String
  pub resume_node : String
  pub query_pack_path : String
  pub request_doc_path : String
  pub resolution_batch_id : Option String

pub record Evidence : Type 0 where
  pub id : String
  pub assessment_id : String
  pub kind : String
  pub title : String

-- What a predicate answered on an edge (ConditionOutcome of graph/predicates.py).
pub record ConditionOutcome : Type 0 where
  pub name : String
  pub args : Args
  pub result : Bool

-- `rationale` is the outcome, with "not taken: " before it where the result is false.
pub record Decision : Type 0 where
  pub id : String
  pub assessment_id : String
  pub node_id : String
  pub execution_id : Option String
  pub edge : EdgeDef
  pub evidence_ids : List String
  pub selected_route : String
  pub rationale : ConditionOutcome
  pub confidence : String

pub record AuditEvent : Type 0 where
  pub action : String
  pub actor_type : String
  pub assessment_id : Option String
  pub session_id : Option String
  pub execution_id : Option String
  pub node_id : Option String
  pub previous_state : Option String
  pub new_state : Option String
  pub evidence_ids : List String
  pub result_status : Option String
  pub error : Option ErrorText

-- `minted` counts the identifiers drawn so far.
pub record Db : Type 0 where
  pub meta : List (String × String)
  pub assessments : List Assessment
  pub batches : List Batch
  pub artifacts : List Artifact
  pub node_states : List NodeRow
  pub executions : List Execution
  pub requests : List Request
  pub evidence : List Evidence
  pub decisions : List Decision
  pub audit : List AuditEvent
  pub minted : ℕ
