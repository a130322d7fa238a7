-- ===== src/Engine/Loop.antt =====
-- graph/engine.py: `run`, the loop that executes runnable nodes, and its bound on transitions.
pub mod Laws
use tecnosor_sas_migration_d.Common.{
  ℕ, zero, suc, String, Bool, true, false, Option, none, some, List, [], ◌∷◌, ◌*◌, ◌+◌, leb, length,
  if◌then◌else◌,
}
use tecnosor_sas_migration_d.Engine.Env.{Env}
use tecnosor_sas_migration_d.Engine.Execute.{RunOutcome, Ran, outcome, run_node}
use tecnosor_sas_migration_d.Engine.Select.{next_runnable}
use tecnosor_sas_migration_d.Errors.{Error, Result, ok, err, cycle_limit_exceeded}
use tecnosor_sas_migration_d.Graph.Model.{NodeDef}
use tecnosor_sas_migration_d.State.Status.{Status, unlisted}
use tecnosor_sas_migration_d.State.Tables.{Db}

-- `max_cycles * max(len(nodes), 1)`
abbrev pub transition_bound : Env → ℕ
transition_bound env =
    env.graph.max_cycles * (if leb 1 (length env.graph.nodes) then length env.graph.nodes else 1)

-- The outcomes or the error, the engine's transition counter after the call, and the database.
pub record Loop : Type 0 where
  pub result : Result (List RunOutcome)
  pub transitions : ℕ
  pub db : Db

-- the test after the loop
unfoldable pub finish : Env → ℕ → Db → Loop
finish env count db = record {
  result =
      if leb (transition_bound env) count
      then err (cycle_limit_exceeded count (length env.graph.nodes))
      else ok [];
  transitions = count;
  db = db;
}

abbrev pub prepend : RunOutcome → Result (List RunOutcome) → Result (List RunOutcome)
prepend o (ok os) = ok (o ∷ os)
prepend o (err e) = err e

abbrev pub then_loop : RunOutcome → Loop → Loop
then_loop o l = record l { result = prepend o l.result }

-- The rest of a round: an error of `run_node` ends the call, and so does the bound.
unfoldable pub after_run : Env → ℕ → Ran → (Db → Loop) → Loop
after_run env count (err e, db) rest = record { result = err e; transitions = count; db = db }
after_run env count (ok o, db) rest =
    then_loop o
      (if leb (transition_bound env) (count + 1) then finish env (count + 1) db else rest db)

-- `max_steps` rounds are left; `count` is `self._transitions`.
unfoldable pub run_steps : Env → ℕ → ℕ → Db → Loop
run_steps env zero count db = finish env count db
run_steps env (suc steps) count db = elim (next_runnable env db) [
  | none ↦ finish env count db
  | some n ↦ after_run env count (run_node env n.id db) (λ db'. run_steps env steps (count + 1) db')
]

-- The outcome of a dry run.
abbrev pub planned : NodeDef → RunOutcome
planned n = record (outcome n.id none (unlisted "PLANNED")) { dry_run = true }

-- A dry run answers at its first runnable node, before the test of the bound.
unfoldable pub dry_run : Env → ℕ → ℕ → Db → Loop
dry_run env zero count db = finish env count db
dry_run env (suc steps) count db = elim (next_runnable env db) [
  | none ↦ finish env count db
  | some n ↦ record { result = ok (planned n ∷ []); transitions = count; db = db }
]

unfoldable pub run : Env → Bool → ℕ → ℕ → Db → Loop
run env dry steps count db =
    if dry then dry_run env steps count db else run_steps env steps count db
