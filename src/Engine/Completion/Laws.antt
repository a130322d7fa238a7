-- ===== src/Engine/Completion/Laws.antt =====
-- What each answer of `assessment_completion` says of the assessment.
use tecnosor_sas_migration_d.Common.{
  true, false, List, [], ◌∷◌, ◌≡◌, refl, ◌&&◌, ◌||◌, any, all, is_empty, ◌⊎◌, arith, All,
}
use tecnosor_sas_migration_d.Engine.Completion.{
  completed, blocked, is_mandatory, has_status, is_blocking, assessment_completion,
}
use tecnosor_sas_migration_d.Engine.Env.{Env}
use tecnosor_sas_migration_d.Graph.Model.{NodeDef}
use tecnosor_sas_migration_d.State.Requests.{list_open_requests}
use tecnosor_sas_migration_d.State.Snapshot.{Snapshot, state_snapshot}
use tecnosor_sas_migration_d.State.Status.{is_running, is_waiting, is_failed, is_satisfied}
use tecnosor_sas_migration_d.State.Tables.{Db}

-- What a completed assessment promises of one node.
abbrev pub IsDone : Snapshot → NodeDef → Type 0
IsDone s n =
    (has_status s is_running n ≡ false)
    × ((n.optional ≡ true) ⊎ (has_status s is_satisfied n ≡ true))
    × ((n.optional ≡ false) ⊎ (has_status s is_waiting n ≡ false))

IsDone-nodes :
    (s : Snapshot) (ns : List NodeDef)
    → any (has_status s is_running) ns ≡ false
    → all (λ n. n.optional || has_status s is_satisfied n) ns ≡ true
    → any (λ n. n.optional && has_status s is_waiting n) ns ≡ false
    → All (IsDone s) ns
IsDone-nodes s [] r d w = tt
IsDone-nodes s (n ∷ ns) r d w = (
  (ground arith, ground arith, ground arith),
  IsDone-nodes s ns (ground arith) (ground arith) (ground arith),
)

is_empty_eq {ℓ} : {A : Type ℓ} (l : List A) → is_empty l ≡ true → l ≡ []
is_empty_eq [] h = refl
is_empty_eq (x ∷ l) h = cc

-- COMPLETED is answered only where there is no open request, no node is RUNNING, every mandatory
-- node is SUCCEEDED or SKIPPED, and no optional node waits.
pub completed_sound :
    (env : Env) (db : Db)
    → assessment_completion env db ≡ completed
    → (list_open_requests db env.assessment_id ≡ [])
      × All (IsDone (state_snapshot db env.assessment_id)) env.graph.nodes
unfolding assessment_completion
completed_sound env db h = (
  is_empty_eq (list_open_requests db env.assessment_id) (ground arith),
  IsDone-nodes (state_snapshot db env.assessment_id) env.graph.nodes (ground arith) (ground arith)
      (ground arith),
)

-- A FAILED mandatory node makes the answer BLOCKED whatever could still run, if no node is RUNNING, no
-- mandatory node waits and no blocking request is open.
pub failed_blocks :
    (env : Env) (db : Db)
    → any
        (λ n. is_mandatory n && has_status (state_snapshot db env.assessment_id) is_failed n)
        env.graph.nodes
      ≡ true
    → any (has_status (state_snapshot db env.assessment_id) is_running) env.graph.nodes ≡ false
    → any is_blocking (list_open_requests db env.assessment_id) ≡ false
    → any
        (λ n. is_mandatory n && has_status (state_snapshot db env.assessment_id) is_waiting n)
        env.graph.nodes
      ≡ false
    → assessment_completion env db ≡ blocked
unfolding assessment_completion
failed_blocks env db f r b w = rw (assessment_completion, r, b, w, f) refl
