-- ===== src/Engine/Completion/Report.antt =====
-- graph/engine.py, `assessment_completion`: the lists of its report. The three limitations are texts
-- in the source, made of these lists.
pub mod Laws
use Prim.Native.String.{compare}
use text.Mathlib.Text.{is_lt}
use tecnosor_sas_migration_d.Common.{
  ℕ, String, Bool, true, false, Option, none, some, List, [], ◌∷◌, ◌++◌, ◌&&◌, not, filter, map,
  length, is_empty, if◌then◌else◌,
}
use tecnosor_sas_migration_d.Common.Sorting
use tecnosor_sas_migration_d.Engine.Completion.{
  Completion, is_mandatory, has_status, is_blocking, assessment_completion,
}
use tecnosor_sas_migration_d.Engine.Env.{Env}
use tecnosor_sas_migration_d.Graph.Model.{NodeDef}
use tecnosor_sas_migration_d.State.Requests.{list_open_requests}
use tecnosor_sas_migration_d.State.Snapshot.{Snapshot, state_snapshot, node_status}
use tecnosor_sas_migration_d.State.Status.{Status, is_waiting, is_failed, is_pending}
use tecnosor_sas_migration_d.State.Tables.{Db, Request}

pub data Limitation : Type 0 where
  open_non_blocking optional_waiting never_activated : List String → Limitation

pub record CompletionReport : Type 0 where
  pub status : Completion
  pub open_requests : List String
  pub blocking_count : ℕ
  pub waiting_nodes : List String
  pub pending_nodes : List String
  pub failed_nodes : List String
  pub limitations : List Limitation

abbrev sorted_ids : List NodeDef → List String
sorted_ids ns = Sorting.sort (λ a b. is_lt (compare a b)) (map (λ n. n.id) ns)

-- `value in (None, "PENDING")`
abbrev pub is_inactive : Option Status → Bool
is_inactive none = true
is_inactive (some st) = is_pending st

abbrev pub pending_not_activated : Snapshot → List NodeDef → List NodeDef
pending_not_activated s ns = filter (λ n. is_mandatory n && is_inactive (node_status s n.id)) ns

abbrev pub optional_that_wait : Snapshot → List NodeDef → List NodeDef
optional_that_wait s ns = filter (λ n. n.optional && has_status s is_waiting n) ns

abbrev pub request_ids : List Request → List String
request_ids rs = map (λ r. r.id) rs

unfoldable pub limitations_of : List Request → List NodeDef → List NodeDef → List Limitation
limitations_of open_requests waiting inactive =
    (if not (is_empty open_requests) && is_empty (filter is_blocking open_requests)
      then open_non_blocking (request_ids (filter (λ r. not (is_blocking r)) open_requests)) ∷ []
      else [])
    ++ ((if is_empty waiting then [] else optional_waiting (sorted_ids waiting) ∷ [])
        ++ (if is_empty inactive then [] else never_activated (sorted_ids inactive) ∷ []))

unfoldable pub completion_report : Env → Db → CompletionReport
completion_report env db =
    let s = state_snapshot db env.assessment_id in
    let open_requests = list_open_requests db env.assessment_id in
    record {
      status = assessment_completion env db;
      open_requests = request_ids open_requests;
      blocking_count = length (filter is_blocking open_requests);
      waiting_nodes = sorted_ids (filter (has_status s is_waiting) env.graph.nodes);
      pending_nodes = sorted_ids (pending_not_activated s env.graph.nodes);
      failed_nodes = sorted_ids (filter (has_status s is_failed) env.graph.nodes);
      limitations =
          limitations_of open_requests (optional_that_wait s env.graph.nodes)
            (pending_not_activated s env.graph.nodes);
    }
