-- ===== src/State/Batches.antt =====
-- sassessment/state/repository.py: source batches and their artifacts. Tables are lists in insertion
-- order; an identifier that is drawn is fresh, while the id of a batch can be given.
use tecnosor_sas_migration_d.Common.{
  String, Bool, true, false, Option, none, some, List, [], ◌∷◌, ◌++◌, ◌==◌, ◌&&◌, ◌||◌, not, any,
  find, filter, map, if◌then◌else◌,
}
use tecnosor_sas_migration_d.Errors.{Result, ok, err, foreign}
use tecnosor_sas_migration_d.State.Tables.{Db, Batch, Artifact}

-- PRIMARY KEY (id) and UNIQUE (batch_dir)
abbrev pub same_batch : Batch → Batch → Bool
same_batch b c = c.id == b.id || c.batch_dir == b.batch_dir

-- The batch is written REGISTERED; a row with its id or its directory is an IntegrityError.
unfoldable pub create_batch : Batch → Db → Result (Unit {0}) × Db
create_batch b db =
    if any (same_batch b) db.batches
    then (err (foreign "IntegrityError"), db)
    else (ok tt, record db { batches = db.batches ++ record b { status = "REGISTERED" } ∷ [] })

unfoldable pub get_batch : Db → String → Option Batch
get_batch db id = find (λ b. b.id == id) db.batches

-- the query of `register_batch`
unfoldable pub batch_at : Db → String → Option Batch
batch_at db dir = find (λ b. b.batch_dir == dir) db.batches

abbrev with_status : String → String → Batch → Batch
with_status id status b = if b.id == id then record b { status = status } else b

unfoldable pub update_batch_status : String → String → Db → Db
update_batch_status id status db = record db { batches = map (with_status id status) db.batches }

unfoldable pub list_batches : Db → List Batch
list_batches db = db.batches

abbrev pub has_hash : String → String → Artifact → Bool
has_hash sha256 id f = f.sha256 == sha256 && not (f.id == id)

abbrev duplicate_id : Option Artifact → Option String
duplicate_id none = none
duplicate_id (some f) = some f.id

abbrev is_new : Option Artifact → Bool
is_new none = true
is_new (some f) = false

-- UNIQUE (batch_id, relative_path)
abbrev pub same_place : Artifact → Artifact → Bool
same_place f g = g.batch_id == f.batch_id && g.relative_path == f.relative_path

-- The artifact comes without `duplicate_of`. The row is written whether its hash is new or not; a row at
-- its place is an IntegrityError.
unfoldable pub add_artifact : Artifact → Db → Result Bool × Db
add_artifact f db =
    if any (same_place f) db.artifacts
    then (err (foreign "IntegrityError"), db)
    else let dup = find (has_hash f.sha256 f.id) db.artifacts in
      (
        ok (is_new dup),
        record db { artifacts = db.artifacts ++ record f { duplicate_of = duplicate_id dup } ∷ [] },
      )

unfoldable pub list_artifacts : Db → String → List Artifact
list_artifacts db b = filter (λ f. f.batch_id == b) db.artifacts
