-- ===== src/Engine/Completion/Report/Laws.antt =====
-- graph/engine.py: the lists of the completion report agree with its status.
use tecnosor_sas_migration_d.Common.{List, [], ◌∷◌, ◌≡◌, refl, arith, All}
use tecnosor_sas_migration_d.Engine.Completion.{completed}
use tecnosor_sas_migration_d.Engine.Completion.Laws.{IsDone, completed_sound}
use tecnosor_sas_migration_d.Engine.Completion.Report.{
  pending_not_activated, optional_that_wait, limitations_of, completion_report,
}
use tecnosor_sas_migration_d.Engine.Env.{Env}
use tecnosor_sas_migration_d.Graph.Model.{NodeDef}
use tecnosor_sas_migration_d.State.Snapshot.{Snapshot, state_snapshot}
use tecnosor_sas_migration_d.State.Tables.{Db}

none_inactive :
    (s : Snapshot) (ns : List NodeDef) → All (IsDone s) ns → pending_not_activated s ns ≡ []
none_inactive s [] h = refl
none_inactive s (n ∷ ns) h = ground (arith, none_inactive s ns h.1)

none_wait : (s : Snapshot) (ns : List NodeDef) → All (IsDone s) ns → optional_that_wait s ns ≡ []
none_wait s [] h = refl
none_wait s (n ∷ ns) h = ground (arith, none_wait s ns h.1)

-- A report with the status COMPLETED lists no limitation.
pub completed_unlimited :
    (env : Env) (db : Db)
    → (completion_report env db).status ≡ completed
    → (completion_report env db).limitations ≡ []
unfolding completion_report limitations_of
completed_unlimited env db h =
    let (no_requests, done) = completed_sound env db h in
    rw
      (
        completion_report,
        no_requests,
        none_inactive (state_snapshot db env.assessment_id) env.graph.nodes done,
        none_wait (state_snapshot db env.assessment_id) env.graph.nodes done,
      )
      refl
