-- ===== src/Engine/Loop/Laws.antt =====
-- graph/engine.py, `run`: the transition bound, the number of rounds, and that the loop keeps what
-- every run of a node keeps.
use tecnosor_sas_migration_d.Common.{
  ℕ, zero, suc, String, Bool, true, false, Option, none, some, List, ◌∷◌, ◌+◌, ◌≤◌, ◌<◌, leb,
  length, ◌≡◌, refl, inl, inr, arith, Bool-cases, leb→lt,
}
use tecnosor_sas_migration_d.Engine.Env.{Env}
use tecnosor_sas_migration_d.Engine.Execute.{RunOutcome, Ran, run_node}
use tecnosor_sas_migration_d.Engine.Execute.Bounds.{IsBounded, run_node-IsBounded}
use tecnosor_sas_migration_d.Engine.Execute.Outcome.{IsQuiet}
use tecnosor_sas_migration_d.Engine.Loop.{
  transition_bound, Loop, finish, prepend, then_loop, after_run, run_steps, dry_run, run,
}
use tecnosor_sas_migration_d.Engine.Select.{next_runnable}
use tecnosor_sas_migration_d.Errors.{Result, ok, err}
use tecnosor_sas_migration_d.Graph.Model.{NodeDef}
use tecnosor_sas_migration_d.State.Tables.{Db}

-- A loop that returns `os` ran as many nodes as it counted, at most `steps`, and stayed below the bound.
pub record IsCounted (env : Env) (steps count : ℕ) (l : Loop) (os : List RunOutcome) : Type 0 where
  pub rounds : length os ≤ steps
  pub counts : l.transitions ≡ count + length os
  pub below : l.transitions < transition_bound env

finish-IsCounted :
    (env : Env) (steps count : ℕ) (db : Db) (os : List RunOutcome)
    → (finish env count db).result ≡ ok os
    → IsCounted env steps count (finish env count db) os
unfolding finish
finish-IsCounted env steps count db os h = elim (Bool-cases (leb (transition_bound env) count)) [
  | inl over ↦ absurd (cc (rw over at h))
  | inr under ↦
      let h' = rw under at h in
      record {
        rounds = ground (arith, h');
        counts = ground (arith, h');
        below = leb→lt (transition_bound env) count under;
      }
]

prepend-ok :
    (o : RunOutcome) (r : Result (List RunOutcome)) (os : List RunOutcome)
    → prepend o r ≡ ok os
    → (rest : List RunOutcome) × (r ≡ ok rest) × (os ≡ o ∷ rest)
prepend-ok o (ok rest) os h = (rest, refl, ground arith)
prepend-ok o (err e) os h = cc

then_loop-IsCounted :
    (env : Env) (steps count : ℕ) (o : RunOutcome) (l : Loop) (os : List RunOutcome)
    → ((rest : List RunOutcome) → l.result ≡ ok rest → IsCounted env steps (count + 1) l rest)
    → (then_loop o l).result ≡ ok os
    → IsCounted env (suc steps) count (then_loop o l) os
then_loop-IsCounted env steps count o l os ih h =
    let (rest, p, e) = prepend-ok o l.result os h in
    let c = ih rest p in
    record {
      rounds = rw e (omega (arith, c.rounds));
      counts = rw e (omega (arith, c.counts));
      below = c.below;
    }

after_run-IsCounted :
    (env : Env) (steps count : ℕ) (r : Ran) (next : Db → Loop) (os : List RunOutcome)
    → ((db : Db) (rest : List RunOutcome)
        → (next db).result ≡ ok rest
        → IsCounted env steps (count + 1) (next db) rest)
    → (after_run env count r next).result ≡ ok os
    → IsCounted env (suc steps) count (after_run env count r next) os
unfolding after_run
after_run-IsCounted env steps count (err e, db) next os ih h = absurd (cc)
after_run-IsCounted env steps count (ok o, db) next os ih h =
    elim (Bool-cases (leb (transition_bound env) (count + 1))) [
      | inl over ↦ rw over (
          then_loop-IsCounted env steps count o (finish env (count + 1) db) os
            (finish-IsCounted env steps (count + 1) db) (rw over at h))
      | inr under ↦
          rw under (then_loop-IsCounted env steps count o (next db) os (ih db) (rw under at h))
    ]

-- A loop that returns ran at most `steps` nodes, counted each as a transition, and ends below the
-- bound of the graph.
pub run_steps-IsCounted :
    (env : Env) (steps count : ℕ) (db : Db) (os : List RunOutcome)
    → (run_steps env steps count db).result ≡ ok os
    → IsCounted env steps count (run_steps env steps count db) os
unfolding run_steps
run_steps-IsCounted env zero count db os h = finish-IsCounted env zero count db os h
run_steps-IsCounted env (suc steps) count db os h =
    on_next (next_runnable env db) refl (λ db'. run_steps-IsCounted env steps (count + 1) db')
  where
    on_next :
        (o : Option NodeDef)
        → next_runnable env db ≡ o
        → ((db' : Db) (rest : List RunOutcome)
            → (run_steps env steps (count + 1) db').result ≡ ok rest
            → IsCounted env steps (count + 1) (run_steps env steps (count + 1) db') rest)
        → IsCounted env (suc steps) count (run_steps env (suc steps) count db) os
    on_next none p ih =
        rw (p, run_steps) (finish-IsCounted env (suc steps) count db os (rw (p, run_steps) at h))
    on_next (some n) p ih =
        rw (p, run_steps)
          (after_run-IsCounted env steps count (run_node env n.id db)
            (λ db'. run_steps env steps (count + 1) db') os ih (rw (p, run_steps) at h))

-- What holds of the database before the loop and is kept by every run of a node holds after it,
-- whether the loop returns or raises.
module _ {ℓ} (env : Env) (P : Db → Type ℓ)
    (keep : (id : String) (db : Db) → P db → P (run_node env id db).1) where
  after_run-keeps :
      (count : ℕ) (r : Ran) (next : Db → Loop)
      → ((db : Db) → P db → P (next db).db)
      → P r.1
      → P (after_run env count r next).db
  unfolding after_run finish
  after_run-keeps count (err e, db) next ih h = h
  after_run-keeps count (ok o, db) next ih h =
      elim (Bool-cases (leb (transition_bound env) (count + 1))) [
        | inl over ↦ rw over h
        | inr under ↦ rw under (ih db h)
      ]

  pub run_steps-keeps : (steps count : ℕ) (db : Db) → P db → P (run_steps env steps count db).db
  unfolding run_steps finish
  run_steps-keeps zero count db h = h
  run_steps-keeps (suc steps) count db h =
      on_next (next_runnable env db) refl (λ db'. run_steps-keeps steps (count + 1) db')
    where
      on_next :
          (o : Option NodeDef)
          → next_runnable env db ≡ o
          → ((db' : Db) → P db' → P (run_steps env steps (count + 1) db').db)
          → P (run_steps env (suc steps) count db).db
      on_next none p ih = rw (p, run_steps) h
      on_next (some n) p ih =
          rw (p, run_steps) (after_run-keeps count (run_node env n.id db) _ ih (keep n.id db h))

-- A dry run leaves the database and the transition count as they are.
pub dry_run_keeps :
    (env : Env) (steps count : ℕ) (db : Db)
    → ((run env true steps count db).db ≡ db) × ((run env true steps count db).transitions ≡ count)
unfolding run dry_run finish
dry_run_keeps env zero count db = (refl, refl)
dry_run_keeps env (suc steps) count db = on_next (next_runnable env db) refl
  where
    on_next :
        (o : Option NodeDef)
        → next_runnable env db ≡ o
        → ((run env true (suc steps) count db).db ≡ db)
          × ((run env true (suc steps) count db).transitions ≡ count)
    on_next none p = rw (p, run, dry_run) (refl, refl)
    on_next (some n) p = rw (p, run, dry_run) (refl, refl)

-- If handlers and agent leave the node states alone, the loop keeps every node of the graph within its
-- attempt limit, whether it returns or raises.
pub run-IsBounded :
    (env : Env) (quiet : IsQuiet env) (dry : Bool) (steps count : ℕ) (db : Db)
    → IsBounded env db.node_states
    → IsBounded env (run env dry steps count db).db.node_states
unfolding run
run-IsBounded env quiet true steps count db b = rw (dry_run_keeps env steps count db).0 b
run-IsBounded env quiet false steps count db b =
    run_steps-keeps env (λ d. IsBounded env d.node_states) (run_node-IsBounded env quiet) steps
      count db b
