-- ===== src/Intake/Registration/Once.antt =====
-- sassessment/intake/registration.py: a batch is registered once, and a registration that broke off is
-- not taken up again.
use tecnosor_sas_migration_d.Common.{
  ◌⊎◌, String, Bool, true, false, Option, none, some, List, [], ◌∷◌, ◌++◌, ◌==◌, ◌||◌, ◌≡◌, ◌≢◌,
  refl, Bool-cases, inl, inr, find, any, is_empty, arith, map, eq_iff, eq_refl,
}
use tecnosor_sas_migration_d.Errors.{ok, err}
use tecnosor_sas_migration_d.Intake.Records.{Places, Options, Manifest, Store, BatchRegistration}
use tecnosor_sas_migration_d.Intake.Registration.{
  name_of, starts_with, chosen_id, Entries, register_files, raw_files, choose_id, batch_event,
  integrity_of, complete_batch, complete_row, Registered, conclude, batch_of, after_create,
  register_new, known_batch, register_at, register_batch, is_raw_dir, compute_integrity_hash,
}
use tecnosor_sas_migration_d.Intake.Registration.Laws.{register_files-IsKept}
use tecnosor_sas_migration_d.State.Batches.{create_batch, batch_at, same_batch}
use tecnosor_sas_migration_d.State.Records.{emit}
use tecnosor_sas_migration_d.State.Tables.{Db, Batch}

-- The row that the directory reads: registered as `r`, and with a hash.
pub record Completed (dir : String) (r : BatchRegistration) (db : Db) : Type 0 where
  pub row : Batch
  pub found : batch_at db dir ≡ some row
  pub has_hash : (row.integrity_hash == "") ≡ false
  pub known : known_batch dir row ≡ record r { file_count = 0; duplicate_count = 0 }

-- a registration that returned
abbrev IsDone : String → Registered → Type 0
IsDone dir (ok r, st) = Completed dir r st.db
IsDone dir (err x, st) = Unit

or_left : (a b : Bool) → (a || b) ≡ false → a ≡ false
or_left a b h = ground arith

or_right : (a b : Bool) → (a || b) ≡ false → b ≡ false
or_right a b h = ground arith

complete-dir : (id p i : String) (c : Batch) → (complete_row id p i c).batch_dir ≡ c.batch_dir
complete-dir id p i c = elim (Bool-cases (c.id == id)) [
  | inl same ↦ rw same refl
  | inr other ↦ rw other refl
]

-- The row that a batch was given when no row had its id or directory is found at its directory.
find_complete :
    (b : Batch) (p i : String) (bs : List Batch)
    → any (same_batch b) bs ≡ false
    → find (λ c. c.batch_dir == b.batch_dir) (map (complete_row b.id p i) (bs ++ b ∷ []))
      ≡ some (record b { manifest_path = p; integrity_hash = i })
find_complete b p i [] h = rw (eq_refl b.id, eq_refl b.batch_dir) refl
find_complete b p i (c ∷ bs) h =
    rw
      (
        complete-dir b.id p i c,
        or_right (c.id == b.id) (c.batch_dir == b.batch_dir) (or_left _ _ h),
      )
      (find_complete b p i bs (or_right (same_batch b c) _ h))

conclude-IsDone :
    (e : Places) (o : Options) (b dir : String) (ms : List (String × Manifest)) (bs : List Batch)
    (r : Entries)
    → ((s : String) → (e.sha256 s == "") ≡ false)
    → any (same_batch (batch_of o b dir)) bs ≡ false
    → r.1.batches ≡ bs ++ batch_of o b dir ∷ []
    → IsDone dir (conclude e o b dir ms r)
unfolding emit complete_batch batch_at compute_integrity_hash
conclude-IsDone e o b dir ms bs (err x, db) n h k = tt
conclude-IsDone e o b dir ms bs (ok xs, db) n h k = record {
  row = record (batch_of o b dir) {
    manifest_path = e.manifest_path b;
    integrity_hash = integrity_of e xs;
  };
  found = rw k (find_complete (batch_of o b dir) (e.manifest_path b) (integrity_of e xs) bs h);
  has_hash = n _;
  known = refl;
}

after_create-IsDone :
    (e : Places) (o : Options) (b dir : String) (ms : List (String × Manifest)) (db : Db)
    → ((s : String) → (e.sha256 s == "") ≡ false)
    → IsDone dir (after_create e o b dir ms (create_batch (batch_of o b dir) db))
unfolding create_batch
after_create-IsDone e o b dir ms db n =
    elim (Bool-cases (any (same_batch (batch_of o b dir)) db.batches)) [
      | inl there ↦ rw there tt
      | inr free ↦
          let row = batch_of o b dir in
          let d : Db = record db { batches = db.batches ++ row ∷ [] } in
          rw free (
            conclude-IsDone e o b dir ms db.batches (register_files e b (raw_files e dir) d) n free
              (register_files-IsKept e b (raw_files e dir) d).0)
    ]

register_new-IsDone :
    (e : Places) (o : Options) (dir : String) (st : Store)
    → ((s : String) → (e.sha256 s == "") ≡ false)
    → IsDone dir (register_new e o dir st)
unfolding register_new
register_new-IsDone e o dir st n = elim (Bool-cases (is_empty (raw_files e dir))) [
  | inl nothing ↦ rw nothing tt
  | inr files ↦
      let c = choose_id e o dir st.db in
      rw files (
        after_create-IsDone e o c.0 dir st.manifests (emit (batch_event "batch.placing" c.0) c.1) n)
]

register_at-IsDone :
    (e : Places) (o : Options) (dir : String) (row : Option Batch) (st : Store)
    → ((s : String) → (e.sha256 s == "") ≡ false)
    → batch_at st.db dir ≡ row
    → IsDone dir (register_at e o dir row st)
register_at-IsDone e o dir none st n p = register_new-IsDone e o dir st n
register_at-IsDone e o dir (some row) st n p = elim (Bool-cases (row.integrity_hash == "")) [
  | inl broken ↦ rw broken (register_new-IsDone e o dir st n)
  | inr whole ↦ rw whole (record { row = row; found = p; has_hash = whole; known = refl })
]

register_batch-IsDone :
    (e : Places) (o : Options) (dir : String) (st : Store)
    → ((s : String) → (e.sha256 s == "") ≡ false)
    → IsDone dir (register_batch e o dir st)
unfolding register_batch
register_batch-IsDone e o dir st n = elim (Bool-cases (is_raw_dir e dir)) [
  | inl raw ↦ rw raw (register_at-IsDone e o dir (batch_at st.db dir) st n refl)
  | inr other ↦ rw other tt
]

Completed-again :
    (e : Places) (o : Options) (dir : String) (r : BatchRegistration) (st : Store)
    → is_raw_dir e dir ≡ true
    → Completed dir r st.db
    → register_batch e o dir st ≡ (ok (record r { file_count = 0; duplicate_count = 0 }), st)
unfolding register_batch
Completed-again e o dir r st raw c = rw (raw, c.found, c.has_hash, c.known) refl

-- whether a registration returned
abbrev pub is_ok : Registered → Bool
is_ok (ok r, st) = true
is_ok (err x, st) = false

-- Where a hash is never empty: once a batch was registered, a second registration of its directory, with
-- whatever files below it and whatever options, answers the same batch, manifest and integrity hash with
-- no file counted and changes nothing, if the directory is one for raw files still.
pub register_batch_again :
    (e now : Places) (o again : Options) (dir : String) (st after : Store) (r : BatchRegistration)
    → ((s : String) → e.sha256 s ≢ "")
    → is_raw_dir now dir ≡ true
    → register_batch e o dir st ≡ (ok r, after)
    → register_batch now again dir after
      ≡ (ok (record r { file_count = 0; duplicate_count = 0 }), after)
register_batch_again e now o again dir st after r n raw h =
    Completed-again now again dir r after raw
      (rw h at (register_batch-IsDone e o dir st (λ s. never s (Bool-cases (e.sha256 s == "")))))
  where
    never :
        (s : String)
        → ((e.sha256 s == "") ≡ true) ⊎ ((e.sha256 s == "") ≡ false)
        → (e.sha256 s == "") ≡ false
    never s (inl same) = absurd (n s ((eq_iff (e.sha256 s) "").0 same))
    never s (inr other) = other

any-find :
    (b : Batch) (bs : List Batch) (row : Batch)
    → find (λ c. c.batch_dir == b.batch_dir) bs ≡ some row
    → any (same_batch b) bs ≡ true
any-find b [] row h = absurd (cc)
any-find b (c ∷ bs) row h = ground (arith, any-find b bs row)

chosen-batches :
    (e : Places) (o : Options) (dir : String) (c : Option String) (db : Db)
    → (chosen_id e o dir c db).1.batches ≡ db.batches
chosen-batches e o dir (some b) db = refl
chosen-batches e o dir none db = elim (Bool-cases (starts_with "BAT-" (name_of (e.resolve dir)))) [
  | inl named ↦ rw named refl
  | inr other ↦ rw other refl
]

-- a registration that fails and writes no row of a batch
abbrev IsRefused : Store → Registered → Type 0
IsRefused st r = (is_ok r ≡ false) × (r.1.db.batches ≡ st.db.batches)

register_new-IsRefused :
    (e : Places) (o : Options) (dir : String) (st : Store) (row : Batch)
    → batch_at st.db dir ≡ some row
    → IsRefused st (register_new e o dir st)
unfolding register_new create_batch choose_id emit batch_at
register_new-IsRefused e o dir st row p = elim (Bool-cases (is_empty (raw_files e dir))) [
  | inl nothing ↦ rw nothing (refl, refl)
  | inr files ↦
      let c = choose_id e o dir st.db in
      let kept = chosen-batches e o dir o.batch_id st.db in
      rw (files, kept, any-find (batch_of o c.0 dir) st.db.batches row p) (refl, refl)
]

-- A registration that broke off left a row with an empty hash: the directory is never registered again,
-- every later call that finds the row fails and writes no row of a batch.
pub register_batch_broken :
    (e : Places) (o : Options) (dir : String) (st : Store) (row : Batch)
    → batch_at st.db dir ≡ some row
    → row.integrity_hash ≡ ""
    → (is_ok (register_batch e o dir st) ≡ false)
      × ((register_batch e o dir st).1.db.batches ≡ st.db.batches)
unfolding register_batch
register_batch_broken e o dir st row p h = elim (Bool-cases (is_raw_dir e dir)) [
  | inl raw ↦ rw (raw, p, h) (register_new-IsRefused e o dir st row p)
  | inr other ↦ rw other (refl, refl)
]
