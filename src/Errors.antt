-- ===== src/Errors.antt =====
-- sassessment/errors.py, and the texts that the engine stores in its error columns. An error is its
-- class with the values that its message is made of; the message itself is display text.
use tecnosor_sas_migration_d.Common.{ℕ, String, Bool, true, false, List}

pub data Error : Type 0 where
  -- StateError of `upsert_node_state`: the status and the node
  illegal_node_status : String → String → Error
  -- UnknownNodeError
  unknown_node : String → Error
  -- ConditionError: a predicate that is not registered, and one that raised
  unknown_predicate : String → Error
  predicate_raised : String → Error
  duplicate_predicate : String → Error
  -- CycleLimitExceededError: transitions and number of nodes
  cycle_limit_exceeded : ℕ → ℕ → Error
  -- MissingPrerequisiteError of a node that was never activated
  missing_prerequisite : String → Error
  -- NodeExecutionError: attempts used up, no such handler, agent output rejected
  max_attempts_reached : String → ℕ → Error
  no_handler : String → Error
  agent_output_rejected : String → Error
  -- HumanRequestError
  human_request_error : Error
  -- AdapterError and its subclasses
  adapter_error : String → Error
  adapter_quota_limit : String → Error
  result_validation_error : String → Error
  -- CheckpointError
  checkpoint_error : String → Error
  -- the other classes, with their message
  config_error workspace_error graph_error graph_validation_error node_registry_error :
      String → Error
  intake_error unsafe_archive path_traversal symlink_escape : String → Error
  adapter_timeout checkpoint_immutable : String → Error
  -- an exception of a handler that is none of the above
  foreign : String → Error

unfoldable pub error_code : Error → String
error_code (illegal_node_status s n) = "STATE_ERROR"
error_code (unknown_node n) = "UNKNOWN_NODE_ERROR"
error_code (unknown_predicate p) = "CONDITION_ERROR"
error_code (predicate_raised p) = "CONDITION_ERROR"
error_code (duplicate_predicate p) = "CONDITION_ERROR"
error_code (cycle_limit_exceeded t n) = "CYCLE_LIMIT_EXCEEDED"
error_code (missing_prerequisite n) = "MISSING_PREREQUISITE"
error_code (max_attempts_reached n a) = "NODE_EXECUTION_ERROR"
error_code (no_handler n) = "NODE_EXECUTION_ERROR"
error_code (agent_output_rejected n) = "NODE_EXECUTION_ERROR"
error_code human_request_error = "HUMAN_REQUEST_ERROR"
error_code (adapter_error m) = "ADAPTER_ERROR"
error_code (adapter_quota_limit m) = "ADAPTER_QUOTA_LIMIT"
error_code (result_validation_error m) = "RESULT_VALIDATION_ERROR"
error_code (checkpoint_error m) = "CHECKPOINT_ERROR"
error_code (config_error m) = "CONFIG_ERROR"
error_code (workspace_error m) = "WORKSPACE_ERROR"
error_code (graph_error m) = "GRAPH_ERROR"
error_code (graph_validation_error m) = "GRAPH_VALIDATION_ERROR"
error_code (node_registry_error m) = "NODE_REGISTRY_ERROR"
error_code (intake_error m) = "INTAKE_ERROR"
error_code (unsafe_archive m) = "UNSAFE_ARCHIVE"
error_code (path_traversal m) = "PATH_TRAVERSAL"
error_code (symlink_escape m) = "SYMLINK_ESCAPE"
error_code (adapter_timeout m) = "ADAPTER_TIMEOUT"
error_code (checkpoint_immutable m) = "CHECKPOINT_IMMUTABLE"
error_code (foreign m) = "SASSESSMENT_ERROR"

-- `isinstance(exc, AdapterQuotaLimitError)`
abbrev pub is_quota_limit : Error → Bool
is_quota_limit (adapter_quota_limit m) = true
is_quota_limit _ = false

-- What `NodeResult.validate` complains about.
pub data Violation : Type 0 where
  illegal_status : String → Violation
  illegal_confidence : String → Violation
  invalid_evidence : String → Violation

-- An error column: `str(exc)`, `f"quota hold: {str(exc)[:120]}"`, the dumped violations, and the fixed
-- text for a rejected result.
pub data ErrorText : Type 0 where
  raised : Error → ErrorText
  quota_hold : Error → ErrorText
  violations : List Violation → ErrorText
  invalid_result_envelope : ErrorText

-- A call that may raise.
pub data Result {ℓ} (A : Type ℓ) : Type ℓ where
  ok : A → Result A
  err : Error → Result A

-- an exception of the first call ends the second as well
unfoldable pub and_then {ℓ κ} : {A : Type ℓ} {B : Type κ} → Result A → (A → Result B) → Result B
and_then (ok x) f = f x
and_then (err e) f = err e
