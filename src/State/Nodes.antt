-- ===== src/State/Nodes.antt =====
-- sassessment/state/repository.py, node states: `upsert_node_state`, `get_node_state` and
-- `list_node_states`. The primary key (assessment, node) makes a row unique, so the UPDATE writes one.
pub mod Laws
use Prim.Native.String.{compare}
use text.Mathlib.Text.{is_lt}
use tecnosor_sas_migration_d.Common.{
  ℕ, String, Bool, Option, none, some, List, [], ◌∷◌, ◌==◌, ◌&&◌, filter, find, if◌then◌else◌,
}
use tecnosor_sas_migration_d.Common.Sorting
use tecnosor_sas_migration_d.Errors.{Error, ErrorText, Result, ok, err, illegal_node_status}
use tecnosor_sas_migration_d.State.Status.{Status, pending, is_node_status, status_name}
use tecnosor_sas_migration_d.State.Tables.{Db, NodeRow}

-- The keyword arguments; `none` is a column that keeps its value (attempts, cycles) or becomes NULL
-- (last_execution_id, last_error).
pub record NodeUpdate : Type 0 where
  pub status : Status
  pub attempts : Option ℕ
  pub cycles : Option ℕ
  pub last_execution_id : Option String
  pub last_error : Option ErrorText

-- `status=s` alone
abbrev pub only_status : Status → NodeUpdate
only_status s = record {
  status = s;
  attempts = none;
  cycles = none;
  last_execution_id = none;
  last_error = none;
}

abbrev pub or_else : Option ℕ → ℕ → ℕ
or_else none d = d
or_else (some n) d = n

-- the INSERT
abbrev pub new_row : String → String → NodeUpdate → NodeRow
new_row a n u = record {
  assessment_id = a;
  node_id = n;
  status = u.status;
  attempts = or_else u.attempts 0;
  cycles = or_else u.cycles 0;
  last_execution_id = u.last_execution_id;
  last_error = u.last_error;
}

-- the UPDATE
abbrev pub update_row : NodeRow → NodeUpdate → NodeRow
update_row r u = record r {
  status = u.status;
  attempts = or_else u.attempts r.attempts;
  cycles = or_else u.cycles r.cycles;
  last_execution_id = u.last_execution_id;
  last_error = u.last_error;
}

abbrev pub is_row : String → String → NodeRow → Bool
is_row a n r = r.assessment_id == a && r.node_id == n

unfoldable pub put_row : String → String → NodeUpdate → List NodeRow → List NodeRow
put_row a n u [] = new_row a n u ∷ []
put_row a n u (r ∷ rs) = if is_row a n r then update_row r u ∷ rs else r ∷ put_row a n u rs

unfoldable pub put_node : String → String → NodeUpdate → Db → Db
put_node a n u db = record db { node_states = put_row a n u db.node_states }

-- A status outside of NODE_STATUSES raises before anything is written.
unfoldable pub upsert_node_state : String → String → NodeUpdate → Db → Result (Unit {0}) × Db
upsert_node_state a n u db =
    if is_node_status u.status
    then (ok tt, put_node a n u db)
    else (err (illegal_node_status (status_name u.status) n), db)

unfoldable pub get_node_state : Db → String → String → Option NodeRow
get_node_state db a n = find (is_row a n) db.node_states

abbrev pub by_node_id : NodeRow → NodeRow → Bool
by_node_id r q = is_lt (compare r.node_id q.node_id)

-- `ORDER BY node_id`
unfoldable pub list_node_states : Db → String → List NodeRow
list_node_states db a = Sorting.sort by_node_id (filter (λ r. r.assessment_id == a) db.node_states)

-- What the engine reads of a row: a node with no row is PENDING, with no attempts.
abbrev pub current_status : Option NodeRow → Status
current_status none = pending
current_status (some r) = r.status

abbrev pub current_attempts : Option NodeRow → ℕ
current_attempts none = 0
current_attempts (some r) = r.attempts
