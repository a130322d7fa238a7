-- ===== src/Node.antt =====
-- sassessment/nodes/base.py: what a handler is given, what it returns, `NodeResult.validate` and the
-- registry of handlers.
pub mod Ask
use tecnosor_sas_migration_d.Common.{
  ℕ, String, none, some, List, [], ◌∷◌, ◌++◌, mem, get, if◌then◌else◌,
}
use tecnosor_sas_migration_d.Common.Texts.{is_blank}
use tecnosor_sas_migration_d.Errors.{
  Result, ok, err, Violation, illegal_status, illegal_confidence, invalid_evidence, no_handler,
}
use tecnosor_sas_migration_d.State.Snapshot.{Snapshot}
use tecnosor_sas_migration_d.State.Tables.{Db}

-- The fields that the engine reads; the lists that it only passes on to the audit trail are left out.
pub record NodeResult : Type 0 where
  pub status : String
  pub summary : String
  pub evidence_used : List String
  pub confidence : String

abbrev pub valid_statuses : List String
valid_statuses =
    "success" ∷ "failed" ∷ "waiting_for_input" ∷ "waiting_for_approval" ∷ "skipped" ∷ []

abbrev pub confidences : List String
confidences = "CONFIRMED" ∷ "INFERRED" ∷ "UNKNOWN" ∷ []

abbrev pub blank_evidence : List String → List Violation
blank_evidence [] = []
blank_evidence (ev ∷ evs) =
    if is_blank ev then invalid_evidence ev ∷ blank_evidence evs else blank_evidence evs

unfoldable pub validate : NodeResult → List Violation
unfolding is_blank
validate r =
    (if mem r.status valid_statuses then [] else illegal_status r.status ∷ [])
    ++ (if mem r.confidence confidences then [] else illegal_confidence r.confidence ∷ [])
    ++ blank_evidence r.evidence_used

-- NodeContext, without the handles to the repository, the audit trail and the file system
pub record Context : Type 0 where
  pub node_id : String
  pub execution_id : String
  pub attempt : ℕ
  pub assessment_id : String
  pub session_id : String
  pub state : Snapshot

-- A handler reads and writes the database, and returns a result or raises.
abbrev pub Handler : Type 0
Handler = Context → Db → Result NodeResult × Db

abbrev pub Handlers : Type 0
Handlers = List (String × Handler)

unfoldable pub get_handler : Handlers → String → Result Handler
get_handler hs name = elim (get name hs) [ none ↦ err (no_handler name) | some h ↦ ok h ]
