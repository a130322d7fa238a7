-- ===== src/State/Snapshot.antt =====
-- `Repository.project_state` and `GraphEngine.state_snapshot`: what the predicates and the selection
-- read. The counts of tables that neither reads (findings, lineage, data objects, checkpoints) and the
-- argument `extras`, which no caller gives, are left out.
use tecnosor_sas_migration_d.Common.{
  ℕ, String, Option, none, some, List, [], ◌∷◌, ◌==◌, map, filter, find, length, ◌≡◌,
}
use tecnosor_sas_migration_d.State.Status.{Status}
use tecnosor_sas_migration_d.State.Tables.{Db, NodeRow}
use tecnosor_sas_migration_d.State.Nodes.{list_node_states, get_node_state}
use tecnosor_sas_migration_d.State.Nodes.Laws.{find-list_node_states}
use tecnosor_sas_migration_d.State.Records.{get_assessment, get_meta}
use tecnosor_sas_migration_d.State.Requests.{list_requests, list_open_requests, is_resolved}

pub record Snapshot : Type 0 where
  pub assessment_id : String
  pub assessment_status : Option String
  pub current_phase : Option String
  pub nodes : List NodeRow
  pub open_requests : List String
  pub open_request_count : ℕ
  pub evidence_count : ℕ
  pub batch_count : ℕ
  pub resolved_requests : List String
  pub flags : List (String × String)

abbrev pub flag_of : Option String → List (String × String)
flag_of none = []
flag_of (some v) = ("runtime.legacy_interpret_needed", v) ∷ []

abbrev pub map_option {ℓ κ} : {A : Type ℓ} {B : Type κ} → (A → B) → Option A → Option B
map_option f none = none
map_option f (some a) = some (f a)

unfoldable pub state_snapshot : Db → String → Snapshot
state_snapshot db a = record {
  assessment_id = a;
  assessment_status = map_option (λ r. r.status) (get_assessment db a);
  current_phase = map_option (λ r. r.current_phase) (get_assessment db a);
  nodes = list_node_states db a;
  open_requests = map (λ r. r.id) (list_open_requests db a);
  open_request_count = length (list_open_requests db a);
  evidence_count = length (filter (λ e. e.assessment_id == a) db.evidence);
  batch_count = length db.batches;
  resolved_requests = map (λ r. r.id) (filter (λ r. is_resolved r.status) (list_requests db a));
  flags = flag_of (get_meta db "flag:runtime.legacy_interpret_needed");
}

-- `state.get("nodes", {}).get(node_id, {}).get("status")`
abbrev pub node_status : Snapshot → String → Option Status
node_status s k = map_option (λ r. r.status) (find (λ r. r.node_id == k) s.nodes)

-- The snapshot shows the status that `get_node_state` reads.
pub node_status-state_snapshot :
    (db : Db) (a k : String)
    → node_status (state_snapshot db a) k ≡ map_option (λ r. r.status) (get_node_state db a k)
unfolding state_snapshot
node_status-state_snapshot db a k = rw (find-list_node_states db a k)
