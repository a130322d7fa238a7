-- ===== src/Intake/Registration.antt =====
-- sassessment/intake/registration.py: the files of a batch are hashed, registered as artifacts and
-- listed in a manifest.
pub mod Laws
pub mod Once
use tecnosor_sas_migration_d.Intake.Media.{media_type_of}
use tecnosor_sas_migration_d.Intake.Records.{
  Store, Manifest, BatchRegistration, Options, FileEntry, RawFile, Places,
}
use Prim.Native.Char.{Char, code}
use Prim.Native.String.{◌++◌ as append}
use tecnosor_sas_migration_d.Graph.Reach.{text_before}
use tecnosor_sas_migration_d.Common.{
  ℕ, zero, suc, String, Bool, true, false, Option, none, some, List, [], ◌∷◌, ◌++◌, ◌==◌, ◌&&◌,
  ◌||◌, ◌+◌, ◌=?◌, not, map, filter, length, is_empty, get, if◌then◌else◌,
}
use tecnosor_sas_migration_d.Common.Sorting.{sort}
use tecnosor_sas_migration_d.Common.Texts.{lower, starts_with}
use tecnosor_sas_migration_d.Errors.{Result, ok, err, intake_error, foreign}
use tecnosor_sas_migration_d.State.Batches.{create_batch, add_artifact, batch_at}
use tecnosor_sas_migration_d.State.Records.{emit}
use tecnosor_sas_migration_d.State.Tables.{Db, Batch, Artifact, AuditEvent}

-- each path with its hash, one text after the other
unfoldable pub digested : List (String × String) → String
digested [] = ""
digested ((p, h) ∷ rest) = append p (append h (digested rest))

-- The entries come as paths with hashes; they are sorted by path.
unfoldable pub compute_integrity_hash : (String → String) → List (String × String) → String
unfolding sort digested
compute_integrity_hash sha256 entries =
    sha256 (digested (sort (λ x y. text_before x.0 y.0) entries))

abbrev pub intake_raw : List String
intake_raw = "intake" ∷ "raw" ∷ []

-- `path.name`
abbrev pub name_of : List String → String
name_of [] = ""
name_of (p ∷ []) = p
name_of (p ∷ q ∷ ps) = name_of (q ∷ ps)

abbrev pub same_parts : List String → List String → Bool
same_parts [] [] = true
same_parts (p ∷ ps) (q ∷ qs) = p == q && same_parts ps qs
same_parts _ _ = false

abbrev pub is_raw_dir : Places → String → Bool
is_raw_dir e dir =
    same_parts (e.resolve dir)
      (e.resolve e.repo_root ++ (intake_raw ++ name_of (e.resolve dir) ∷ []))

abbrev pub raw_files : Places → String → List RawFile
raw_files e dir = e.files (e.resolve dir)

-- `f"BAT-..."` with the number of identifiers drawn
abbrev pub drawn_id : Places → Options → Db → String × Db
drawn_id e o db = (
  e.new_batch_id (if o.provider == "" then "batch" else o.provider) db.minted,
  record db { minted = db.minted + 1 },
)

abbrev pub chosen_id : Places → Options → String → Option String → Db → String × Db
chosen_id e o dir (some b) db = (b, db)
chosen_id e o dir none db =
    if starts_with "BAT-" (name_of (e.resolve dir))
    then (name_of (e.resolve dir), db)
    else drawn_id e o db

unfoldable pub choose_id : Places → Options → String → Db → String × Db
choose_id e o dir db = chosen_id e o dir o.batch_id db

abbrev pub batch_event : String → String → AuditEvent
batch_event action id = record {
  action = action;
  actor_type = "system";
  assessment_id = none;
  session_id = none;
  execution_id = none;
  node_id = none;
  previous_state = none;
  new_state = some id;
  evidence_ids = [];
  result_status = none;
  error = none;
}

abbrev pub entry_of : RawFile → String → String → String → Bool → FileEntry
entry_of f path hash id is_new = record {
  path = path;
  sha256 = hash;
  size = f.size;
  media_type = media_type_of f.name;
  artifact_id = id;
  duplicate = not is_new;
}

abbrev pub artifact_of : Places → String → RawFile → String → ℕ → Artifact
artifact_of e b f path n = record {
  id = e.fresh n;
  batch_id = b;
  relative_path = path;
  media_type = media_type_of f.name;
  size_bytes = f.size;
  sha256 = e.sha256 f.bytes;
  duplicate_of = none;
}

abbrev pub drawn : Db → Db
drawn db = record db { minted = db.minted + 1 }

abbrev pub more_entries : FileEntry → Result (List FileEntry) × Db → Result (List FileEntry) × Db
more_entries x (ok xs, db) = (ok (x ∷ xs), db)
more_entries x (err e, db) = (err e, db)

abbrev pub Entries : Type 0
Entries = Result (List FileEntry) × Db

-- `rest` is the loop over the other files
abbrev pub after_artifact : (Bool → FileEntry) → (Db → Entries) → Result Bool × Db → Entries
after_artifact entry rest (err x, db) = (err x, db)
after_artifact entry rest (ok is_new, db) = more_entries (entry is_new) (rest db)

abbrev pub register_file : Places → String → RawFile → (Db → Entries) → Option String → Db → Entries
register_file e b f rest none db = (err (foreign "ValueError"), db)
register_file e b f rest (some path) db =
    after_artifact (entry_of f path (e.sha256 f.bytes) (e.fresh db.minted)) rest
      (add_artifact (artifact_of e b f path db.minted) (drawn db))

-- The loop over the files. An artifact that cannot be added, or a file that lies outside of the batch
-- once links are followed, ends it; what was added before stays.
unfoldable pub register_files : Places → String → List RawFile → Db → Entries
register_files e b [] db = (ok [], db)
register_files e b (f ∷ fs) db = register_file e b f (register_files e b fs) f.relative db

abbrev pub duplicates : List FileEntry → List FileEntry
duplicates xs = filter (λ x. x.duplicate) xs

abbrev pub integrity_of : Places → List FileEntry → String
integrity_of e xs = compute_integrity_hash e.sha256 (map (λ x. (x.path, x.sha256)) xs)

abbrev pub manifest_of : Options → String → String → String → List FileEntry → Manifest
manifest_of o b dir integrity xs = record {
  batch_id = b;
  options = o;
  raw_dir = dir;
  integrity_hash = integrity;
  files = xs;
  duplicate_references = map (λ x. x.artifact_id) (duplicates xs);
}

abbrev pub complete_row : String → String → String → Batch → Batch
complete_row id path integrity b =
    if b.id == id then record b { manifest_path = path; integrity_hash = integrity } else b

-- `UPDATE source_batches SET manifest_path = ?, integrity_hash = ? WHERE id = ?`
unfoldable pub complete_batch : String → String → String → Db → Db
complete_batch id path integrity db = record db {
  batches = map (complete_row id path integrity) db.batches;
}

abbrev pub Registered : Type 0
Registered = Result BatchRegistration × Store

-- after the loop: the manifest, the row and the audit trail
abbrev pub conclude :
    Places → Options → String → String → List (String × Manifest) → Entries → Registered
conclude e o b dir ms (err x, db) = (err x, record { db = db; manifests = ms })
conclude e o b dir ms (ok xs, db) =
    let integrity = integrity_of e xs in
    let path = e.manifest_path b in
    (
      ok (record {
        batch_id = b;
        batch_dir = dir;
        manifest_path = path;
        file_count = length xs;
        duplicate_count = length (duplicates xs);
        integrity_hash = integrity;
      }),
      record {
        db = emit (batch_event "batch.registered" b) (complete_batch b path integrity db);
        manifests = ms ++ (path, manifest_of o b dir integrity xs) ∷ [];
      },
    )

abbrev pub batch_of : Options → String → String → Batch
batch_of o b dir = record {
  id = b;
  batch_dir = dir;
  status = "REGISTERED";
  provider = o.provider;
  source_team = o.source_team;
  environment = o.environment;
  authority_level = o.authority_level;
  confidentiality = o.confidentiality;
  manifest_path = "";
  integrity_hash = "";
}

abbrev pub after_create :
    Places
    → Options
    → String
    → String
    → List (String × Manifest)
    → Result (Unit {0}) × Db
    → Registered
after_create e o b dir ms (err x, db) = (err x, record { db = db; manifests = ms })
after_create e o b dir ms (ok _, db) =
    conclude e o b dir ms (register_files e b (raw_files e dir) db)

-- a batch that no row completes
unfoldable pub register_new : Places → Options → String → Store → Registered
register_new e o dir st =
    if is_empty (raw_files e dir)
    then (err (intake_error "batch is empty"), st)
    else let c = choose_id e o dir st.db in
      after_create e o c.0 dir st.manifests
        (create_batch (batch_of o c.0 dir) (emit (batch_event "batch.placing" c.0) c.1))

-- the row of a batch that was registered before
abbrev pub known_batch : String → Batch → BatchRegistration
known_batch dir row = record {
  batch_id = row.id;
  batch_dir = dir;
  manifest_path = row.manifest_path;
  file_count = 0;
  duplicate_count = 0;
  integrity_hash = row.integrity_hash;
}

abbrev pub register_at : Places → Options → String → Option Batch → Store → Registered
register_at e o dir none st = register_new e o dir st
register_at e o dir (some row) st =
    if not (row.integrity_hash == "")
    then (ok (known_batch dir row), st)
    else register_new e o dir st

unfoldable pub register_batch : Places → Options → String → Store → Registered
register_batch e o dir st =
    if not (is_raw_dir e dir)
    then (err (intake_error "batch must live directly under intake/raw/"), st)
    else register_at e o dir (batch_at st.db dir) st

-- the arguments that the command `answer` gives
abbrev pub answer_options : String → Options
answer_options b = record {
  provider = "";
  source_team = "";
  environment = "";
  authority_level = "SUBSIDIARY";
  confidentiality = "INTERNAL";
  known_omissions = "";
  batch_id = some b;
}

abbrev pub without_value : Registered → Result (Unit {0}) × Db
without_value (ok r, st) = (ok tt, st.db)
without_value (err x, st) = (err x, st.db)

-- the registration of the command `answer`, where `ms` are the manifests so far
unfoldable pub register_answer :
    Places → List (String × Manifest) → String → String → Db → Result (Unit {0}) × Db
register_answer e ms b dir db =
    without_value (register_batch e (answer_options b) dir (record { db = db; manifests = ms }))
