-- ===== src/State/Migrations/Laws.antt =====
-- sassessment/state/database.py: migrations are applied once and in ascending order.
use tecnosor_sas_migration_d.Common.{
  ℕ, String, Bool, true, false, List, [], ◌∷◌, ◌++◌, leb, ◌≤◌, ◌<◌, ◌≡◌, refl, Bool-cases, inl, inr,
  All, arith, leb→le, leb→lt,
}
use tecnosor_sas_migration_d.Errors.{Result, ok, err}
use tecnosor_sas_migration_d.State.Migrations.{
  Migration, Schema, larger, current_version, by_version, add_version, after_script, apply_sorted,
  apply_all,
}

larger-left : (a b : ℕ) → a ≤ larger a b
larger-left a b = ground arith

current_version-snoc :
    (rows : List (ℕ × String)) (v : ℕ) (n : String)
    → (current_version rows ≤ current_version (rows ++ (v, n) ∷ []))
      × (v ≤ current_version (rows ++ (v, n) ∷ []))
unfolding current_version
current_version-snoc [] v n = (omega arith, larger-left v 0)
current_version-snoc ((w, k) ∷ rows) v n =
    let (below, new) = current_version-snoc rows v n in (ground arith, ground arith)

-- The versions ascend, and the first is above `n`.
abbrev pub IsAscending : ℕ → List ℕ → Type 0
IsAscending n [] = Unit
IsAscending n (v ∷ vs) = (n < v) × IsAscending v vs

module _ {A : Type 0} (run : String → A → Bool × A) where
  abbrev pub AllApplied : List Migration → Schema A → Type 0
  AllApplied ms s = All (λ m. m.version ≤ current_version s.rows) ms

  -- after a call that returned, the version has not gone down and no migration is above it
  abbrev IsDone : List Migration → Schema A → Result (List ℕ) × Schema A → Type 0
  IsDone ms s (ok vs, after) =
      (current_version s.rows ≤ current_version after.rows) × AllApplied ms after
  IsDone ms s (err e, after) = Unit

  add_version-IsDone :
      (m : Migration) (ms : List Migration) (s t : Schema A) (v : ℕ)
      (r : Result (List ℕ) × Schema A)
      → current_version s.rows ≤ current_version t.rows
      → m.version ≤ current_version t.rows
      → IsDone ms t r
      → IsDone (m ∷ ms) s (add_version run v r)
  add_version-IsDone m ms s t v (ok vs, after) h k d =
      (omega (arith, d.0), (omega (arith, d.0), d.1))
  add_version-IsDone m ms s t v (err e, after) h k d = tt

  after_script-IsDone :
      (m : Migration) (ms : List Migration) (s : Schema A) (r : Bool × A)
      → ((t : Schema A) → IsDone ms t (apply_sorted run ms t))
      → IsDone (m ∷ ms) s (after_script run m (apply_sorted run ms) s.rows r)
  after_script-IsDone m ms s (false, tables) k = tt
  after_script-IsDone m ms s (true, tables) k =
      let t : Schema A = record { rows = s.rows ++ (m.version, m.name) ∷ []; tables = tables } in
      let (below, new) = current_version-snoc s.rows m.version m.name in
      add_version-IsDone m ms s t m.version (apply_sorted run ms t) below new (k t)

  skip-IsDone :
      (m : Migration) (ms : List Migration) (s : Schema A) (r : Result (List ℕ) × Schema A)
      → m.version ≤ current_version s.rows
      → IsDone ms s r
      → IsDone (m ∷ ms) s r
  skip-IsDone m ms s (ok vs, after) h d = (d.0, (omega (arith, d.0), d.1))
  skip-IsDone m ms s (err e, after) h d = tt

  apply_sorted-IsDone : (ms : List Migration) (s : Schema A) → IsDone ms s (apply_sorted run ms s)
  unfolding apply_sorted
  apply_sorted-IsDone [] s = (omega arith, tt)
  apply_sorted-IsDone (m ∷ ms) s = elim (Bool-cases (leb m.version (current_version s.rows))) [
    | inl old ↦ rw old (
        skip-IsDone m ms s (apply_sorted run ms s) (leb→le m.version (current_version s.rows) old)
          (apply_sorted-IsDone ms s))
    | inr new ↦ rw new (after_script-IsDone m ms s (run m.sql s.tables) (apply_sorted-IsDone ms))
  ]

  applied_again :
      (ms : List Migration) (s : Schema A) → AllApplied ms s → apply_sorted run ms s ≡ (ok [], s)
  unfolding apply_sorted
  applied_again [] s h = refl
  applied_again (m ∷ ms) s h = elim (Bool-cases (leb m.version (current_version s.rows))) [
    | inl old ↦ rw old (applied_again ms s h.1)
    | inr new ↦ absurd (omega (arith, leb→lt m.version (current_version s.rows) new, h.0))
  ]

  -- After `apply_all` returned, a second call with the same migrations runs no script, answers no version
  -- and changes nothing.
  pub apply_all_again :
      (ms : List Migration) (s after : Schema A) (vs : List ℕ)
      → apply_all run ms s ≡ (ok vs, after)
      → apply_all run ms after ≡ (ok [], after)
  unfolding apply_all
  apply_all_again ms s after vs h =
      applied_again (by_version ms) after (rw h at (apply_sorted-IsDone (by_version ms) s)).1

  abbrev IsRising : ℕ → Result (List ℕ) × Schema A → Type 0
  IsRising n (ok vs, after) = IsAscending n vs
  IsRising n (err e, after) = Unit

  IsAscending-mono : (m n : ℕ) (vs : List ℕ) → m ≤ n → IsAscending n vs → IsAscending m vs
  IsAscending-mono m n [] h k = tt
  IsAscending-mono m n (v ∷ vs) h k = (omega (arith, k.0), k.1)

  add_version-IsRising :
      (m n v : ℕ) (r : Result (List ℕ) × Schema A)
      → m < v
      → v ≤ n
      → IsRising n r
      → IsRising m (add_version run v r)
  add_version-IsRising m n v (ok vs, after) h k d = (h, IsAscending-mono v n vs k d)
  add_version-IsRising m n v (err e, after) h k d = tt

  after_script-IsRising :
      (m : Migration) (ms : List Migration) (s : Schema A) (r : Bool × A)
      → current_version s.rows < m.version
      → ((t : Schema A) → IsRising (current_version t.rows) (apply_sorted run ms t))
      → IsRising (current_version s.rows) (after_script run m (apply_sorted run ms) s.rows r)
  after_script-IsRising m ms s (false, tables) h k = tt
  after_script-IsRising m ms s (true, tables) h k =
      let t : Schema A = record { rows = s.rows ++ (m.version, m.name) ∷ []; tables = tables } in
      add_version-IsRising (current_version s.rows) (current_version t.rows) m.version
        (apply_sorted run ms t) h (current_version-snoc s.rows m.version m.name).1 (k t)

  apply_sorted-IsRising :
      (ms : List Migration) (s : Schema A)
      → IsRising (current_version s.rows) (apply_sorted run ms s)
  unfolding apply_sorted
  apply_sorted-IsRising [] s = tt
  apply_sorted-IsRising (m ∷ ms) s = elim (Bool-cases (leb m.version (current_version s.rows))) [
    | inl old ↦ rw old (apply_sorted-IsRising ms s)
    | inr new ↦ rw new (
        after_script-IsRising m ms s (run m.sql s.tables)
          (leb→lt m.version (current_version s.rows) new) (apply_sorted-IsRising ms))
  ]

  -- The versions that `apply_all` answers ascend, from above the version that the database had.
  pub apply_all-IsAscending :
      (ms : List Migration) (s after : Schema A) (vs : List ℕ)
      → apply_all run ms s ≡ (ok vs, after)
      → IsAscending (current_version s.rows) vs
  unfolding apply_all
  apply_all-IsAscending ms s after vs h = rw h at (apply_sorted-IsRising (by_version ms) s)
