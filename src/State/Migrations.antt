-- ===== src/State/Migrations.antt =====
-- sassessment/state/database.py: the Migrator. `run` is SQLite's `executescript` on the tables, which may
-- fail and leave them changed; versions are natural numbers. The row of a version is written in a
-- transaction of its own, after the script.
pub mod Laws
use tecnosor_sas_migration_d.Common.{
  ℕ, String, Bool, true, false, List, [], ◌∷◌, ◌++◌, leb, ltb, if◌then◌else◌, ◌≤◌,
}
use tecnosor_sas_migration_d.Common.Sorting.{sort}
use tecnosor_sas_migration_d.Errors.{Result, ok, err, foreign}

pub record Migration : Type 0 where
  pub version : ℕ
  pub name : String
  pub sql : String

-- The rows of schema_migrations and the other tables.
pub record Schema (A : Type 0) : Type 0 where
  pub rows : List (ℕ × String)
  pub tables : A

abbrev pub larger : ℕ → ℕ → ℕ
larger a b = if leb a b then b else a

-- `SELECT MAX(version)`, and 0 where there is no row
unfoldable pub current_version : List (ℕ × String) → ℕ
current_version [] = 0
current_version ((v, n) ∷ rows) = larger v (current_version rows)

abbrev pub by_version : List Migration → List Migration
by_version ms = sort (λ m n. ltb m.version n.version) ms

module _ {A : Type 0} (run : String → A → Bool × A) where
  abbrev pub Applied : Type 0
  Applied = Result (List ℕ) × Schema A

  abbrev pub add_version : ℕ → Applied → Applied
  add_version v (ok vs, s) = (ok (v ∷ vs), s)
  add_version v (err e, s) = (err e, s)

  -- the script, then its row, then the other migrations
  abbrev pub after_script :
      Migration → (Schema A → Applied) → List (ℕ × String) → Bool × A → Applied
  after_script m rest rows (false, tables) =
      (err (foreign "OperationalError"), record { rows = rows; tables = tables })
  after_script m rest rows (true, tables) =
      add_version m.version
        (rest (record { rows = rows ++ (m.version, m.name) ∷ []; tables = tables }))

  unfoldable pub apply_sorted : List Migration → Schema A → Applied
  apply_sorted [] s = (ok [], s)
  apply_sorted (m ∷ ms) s =
      if leb m.version (current_version s.rows)
      then apply_sorted ms s
      else after_script m (apply_sorted ms) s.rows (run m.sql s.tables)

  -- the versions that were applied
  unfoldable pub apply_all : List Migration → Schema A → Applied
  unfolding sort
  apply_all ms s = apply_sorted (by_version ms) s

unfoldable pub applied_names : {A : Type 0} → Schema A → List (ℕ × String)
unfolding sort
applied_names s = sort (λ m n. ltb m.0 n.0) s.rows
