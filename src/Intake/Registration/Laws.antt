-- ===== src/Intake/Registration/Laws.antt =====
-- sassessment/intake/registration.py: registration touches no node and no request, a batch is registered
-- once, and a registration that broke off is not taken up again.
use tecnosor_sas_migration_d.Common.{
  String, Bool, Option, none, some, List, [], ◌∷◌, ◌==◌, ◌≡◌, refl, ◌∙◌, Bool-cases, inl, inr, any,
  is_empty,
}
use tecnosor_sas_migration_d.Errors.{Result, ok, err}
use tecnosor_sas_migration_d.Intake.Records.{RawFile, Places, Options, FileEntry, Manifest, Store}
use tecnosor_sas_migration_d.Intake.Registration.{
  name_of, answer_options, register_answer, without_value, chosen_id, Entries, after_artifact,
  more_entries, register_file, register_files, raw_files, choose_id, batch_event, artifact_of,
  drawn, complete_batch, Registered, conclude, batch_of, after_create, register_new, register_at,
  register_batch, is_raw_dir,
}
use tecnosor_sas_migration_d.Common.Texts.{starts_with}
use tecnosor_sas_migration_d.Operator.{Desk}
use tecnosor_sas_migration_d.Operator.Answers.{KeepsState}
use tecnosor_sas_migration_d.State.Batches.{
  create_batch, add_artifact, batch_at, same_batch, same_place,
}
use tecnosor_sas_migration_d.State.Records.{emit}
use tecnosor_sas_migration_d.State.Tables.{Db, Batch, Artifact}

-- the tables of the engine
abbrev pub IsKept : Db → Db → Type 0
IsKept db after = (after.node_states ≡ db.node_states) × (after.requests ≡ db.requests)

-- the batches as well
abbrev pub IsKeptWithBatches : Db → Db → Type 0
IsKeptWithBatches db after = (after.batches ≡ db.batches) × IsKept db after

add_artifact-IsKept : (f : Artifact) (db : Db) → IsKeptWithBatches db (add_artifact f db).1
unfolding add_artifact
add_artifact-IsKept f db = elim (Bool-cases (any (same_place f) db.artifacts)) [
  | inl there ↦ rw there (refl, (refl, refl))
  | inr free ↦ rw free (refl, (refl, refl))
]

more_entries-IsKept :
    (x : FileEntry) (db : Db) (r : Entries)
    → IsKeptWithBatches db r.1
    → IsKeptWithBatches db (more_entries x r).1
more_entries-IsKept x db (ok xs, d) h = h
more_entries-IsKept x db (err e, d) h = h

after_artifact-IsKept :
    (entry : Bool → FileEntry) (rest : Db → Entries) (db : Db) (r : Result Bool × Db)
    → ((d : Db) → IsKeptWithBatches d (rest d).1)
    → IsKeptWithBatches db r.1
    → IsKeptWithBatches db (after_artifact entry rest r).1
after_artifact-IsKept entry rest db (err x, d) k h = h
after_artifact-IsKept entry rest db (ok new, d) k h =
    let t = k d in
    more_entries-IsKept (entry new) db (rest d) (t.0 ∙ h.0, (t.1.0 ∙ h.1.0, t.1.1 ∙ h.1.1))

register_file-IsKept :
    (e : Places) (b : String) (f : RawFile) (rest : Db → Entries) (o : Option String) (db : Db)
    → ((d : Db) → IsKeptWithBatches d (rest d).1)
    → IsKeptWithBatches db (register_file e b f rest o db).1
register_file-IsKept e b f rest none db k = (refl, (refl, refl))
register_file-IsKept e b f rest (some p) db k =
    after_artifact-IsKept _ rest db _ k
      (add_artifact-IsKept (artifact_of e b f p db.minted) (drawn db))

pub register_files-IsKept :
    (e : Places) (b : String) (fs : List RawFile) (db : Db)
    → IsKeptWithBatches db (register_files e b fs db).1
unfolding register_files
register_files-IsKept e b [] db = (refl, (refl, refl))
register_files-IsKept e b (f ∷ fs) db =
    register_file-IsKept e b f (register_files e b fs) f.relative db (register_files-IsKept e b fs)

conclude-IsKept :
    (e : Places) (o : Options) (b dir : String) (ms : List (String × Manifest)) (db : Db)
    (r : Entries)
    → IsKept db r.1
    → IsKept db (conclude e o b dir ms r).1.db
unfolding emit complete_batch
conclude-IsKept e o b dir ms db (ok xs, d) h = h
conclude-IsKept e o b dir ms db (err x, d) h = h

after_create-IsKept :
    (e : Places) (o : Options) (b dir : String) (ms : List (String × Manifest)) (db : Db)
    (r : Result (Unit {0}) × Db)
    → IsKept db r.1
    → IsKept db (after_create e o b dir ms r).1.db
after_create-IsKept e o b dir ms db (err x, d) h = h
after_create-IsKept e o b dir ms db (ok _, d) h =
    let t = register_files-IsKept e b (raw_files e dir) d in
    conclude-IsKept e o b dir ms db (register_files e b (raw_files e dir) d)
      (t.1.0 ∙ h.0, t.1.1 ∙ h.1)

create_batch-IsKept : (b : Batch) (db : Db) → IsKept db (create_batch b db).1
unfolding create_batch
create_batch-IsKept b db = elim (Bool-cases (any (same_batch b) db.batches)) [
  | inl there ↦ rw there (refl, refl)
  | inr free ↦ rw free (refl, refl)
]

chosen_id-IsKept :
    (e : Places) (o : Options) (dir : String) (c : Option String) (db : Db)
    → IsKept db (chosen_id e o dir c db).1
chosen_id-IsKept e o dir (some b) db = (refl, refl)
chosen_id-IsKept e o dir none db =
    elim (Bool-cases (starts_with "BAT-" (name_of (e.resolve dir)))) [
      | inl named ↦ rw named (refl, refl)
      | inr other ↦ rw other (refl, refl)
    ]

register_new-IsKept :
    (e : Places) (o : Options) (dir : String) (st : Store)
    → IsKept st.db (register_new e o dir st).1.db
unfolding register_new emit choose_id
register_new-IsKept e o dir st = elim (Bool-cases (is_empty (raw_files e dir))) [
  | inl nothing ↦ rw nothing (refl, refl)
  | inr files ↦
      let c = choose_id e o dir st.db in
      let k = chosen_id-IsKept e o dir o.batch_id st.db in
      let placed = emit (batch_event "batch.placing" c.0) c.1 in
      let m = create_batch-IsKept (batch_of o c.0 dir) placed in
      rw files (
        after_create-IsKept e o c.0 dir st.manifests st.db
          (create_batch (batch_of o c.0 dir) placed) (m.0 ∙ k.0, m.1 ∙ k.1))
]

register_at-IsKept :
    (e : Places) (o : Options) (dir : String) (row : Option Batch) (st : Store)
    → IsKept st.db (register_at e o dir row st).1.db
register_at-IsKept e o dir none st = register_new-IsKept e o dir st
register_at-IsKept e o dir (some row) st = elim (Bool-cases (row.integrity_hash == "")) [
  | inl broken ↦ rw broken (register_new-IsKept e o dir st)
  | inr whole ↦ rw whole (refl, refl)
]

-- Registration leaves node states and requests alone, also where it fails.
pub register_batch-IsKept :
    (e : Places) (o : Options) (dir : String) (st : Store)
    → IsKept st.db (register_batch e o dir st).1.db
unfolding register_batch
register_batch-IsKept e o dir st = elim (Bool-cases (is_raw_dir e dir)) [
  | inl raw ↦ rw raw (register_at-IsKept e o dir (batch_at st.db dir) st)
  | inr other ↦ rw other (refl, refl)
]

without_value-IsKept : (db : Db) (r : Registered) → IsKept db r.1.db → IsKept db (without_value r).1
without_value-IsKept db (ok x, st) h = h
without_value-IsKept db (err x, st) h = h

register_answer-IsKept :
    (e : Places) (ms : List (String × Manifest)) (b dir : String) (db : Db)
    → IsKept db (register_answer e ms b dir db).1
unfolding register_answer
register_answer-IsKept e ms b dir db =
    without_value-IsKept db _
      (register_batch-IsKept e (answer_options b) dir (record { db = db; manifests = ms }))

-- Registration is what the command `answer` relies on: a desk that registers with it, whatever the files
-- and the database are, keeps node states and requests.
pub register_answer-KeepsState :
    (desk : Desk) (e : Places) (ms : List (String × Manifest))
    → KeepsState (record desk { register_batch = register_answer e ms })
register_answer-KeepsState desk e ms = record {
  nodes = λ b d db. (register_answer-IsKept e ms b d db).0;
  requests = λ b d db. (register_answer-IsKept e ms b d db).1;
}
