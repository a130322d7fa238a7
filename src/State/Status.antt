-- ===== src/State/Status.antt =====
-- The node and execution statuses of sassessment/state/repository.py. A status is a text there, and
-- `upsert_node_state` refuses one that is not in NODE_STATUSES; `unlisted` is such a text.
use tecnosor_sas_migration_d.Common.{String, Bool, true, false, ◌==◌, if◌then◌else◌}

pub data Status : Type 0 where
  pending ready running waiting_for_input waiting_for_approval : Status
  succeeded failed cancelled superseded skipped : Status
  unlisted : String → Status

-- `status in NODE_STATUSES`
abbrev pub is_node_status : Status → Bool
is_node_status (unlisted s) = false
is_node_status _ = true

abbrev pub status_name : Status → String
status_name pending = "PENDING"
status_name ready = "READY"
status_name running = "RUNNING"
status_name waiting_for_input = "WAITING_FOR_INPUT"
status_name waiting_for_approval = "WAITING_FOR_APPROVAL"
status_name succeeded = "SUCCEEDED"
status_name failed = "FAILED"
status_name cancelled = "CANCELLED"
status_name superseded = "SUPERSEDED"
status_name skipped = "SKIPPED"
status_name (unlisted s) = s

unfoldable pub status_of : String → Status
status_of s =
    if s == "PENDING"
    then pending
    else if s == "READY"
    then ready
    else if s == "RUNNING"
    then running
    else if s == "WAITING_FOR_INPUT"
    then waiting_for_input
    else if s == "WAITING_FOR_APPROVAL"
    then waiting_for_approval
    else if s == "SUCCEEDED"
    then succeeded
    else if s == "FAILED"
    then failed
    else if s == "CANCELLED"
    then cancelled
    else if s == "SUPERSEDED"
    then superseded
    else if s == "SKIPPED"
    then skipped
    else unlisted s

-- BLOCKED_STATUSES of graph/engine.py
abbrev pub is_blocked : Status → Bool
is_blocked waiting_for_input = true
is_blocked waiting_for_approval = true
is_blocked cancelled = true
is_blocked skipped = true
is_blocked _ = false

-- GraphEngine._SATISFIED_STATUSES
abbrev pub is_satisfied : Status → Bool
is_satisfied succeeded = true
is_satisfied skipped = true
is_satisfied _ = false

abbrev pub is_waiting : Status → Bool
is_waiting waiting_for_input = true
is_waiting waiting_for_approval = true
is_waiting _ = false

abbrev pub is_pending : Status → Bool
is_pending pending = true
is_pending _ = false

abbrev pub is_ready : Status → Bool
is_ready ready = true
is_ready _ = false

abbrev pub is_running : Status → Bool
is_running running = true
is_running _ = false

abbrev pub is_succeeded : Status → Bool
is_succeeded succeeded = true
is_succeeded _ = false

abbrev pub is_failed : Status → Bool
is_failed failed = true
is_failed _ = false
