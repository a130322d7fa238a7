-- ===== src/State/Checkpoints.antt =====
-- sassessment/state/checkpoints.py: CheckpointManager over the files of the repository root, a list of
-- paths with their contents. SHA-256, YAML, the copy of the database and the path order of pathlib are
-- parameters.
pub mod Restore
pub mod RoundTrip
pub mod Restored
pub mod Laws
use tecnosor_sas_migration_d.Common.{
  ℕ, String, Bool, true, false, Option, none, some, List, [], ◌∷◌, ◌++◌, ◌==◌, ◌&&◌, ◌+◌, not, map,
  filter, any, find, get, if◌then◌else◌, is_empty,
}
use tecnosor_sas_migration_d.Common.Sorting.{sort}
use tecnosor_sas_migration_d.Common.Texts.{append, contains, starts_with}
use tecnosor_sas_migration_d.Errors.{Result, ok, err, checkpoint_error, foreign}
use tecnosor_sas_migration_d.State.Ledger.{
  Ledger, CheckpointRow, create_checkpoint_record, get_checkpoint,
}
use tecnosor_sas_migration_d.State.Records.{emit}
use tecnosor_sas_migration_d.State.Tables.{Db, AuditEvent}

abbrev pub Files : Type 0
Files = List (String × String)

-- the live database
pub record Live : Type 0 where
  pub db : Db
  pub ledger : Ledger

pub record Member : Type 0 where
  pub path : String
  pub sha256 : String

-- manifest.yaml, without the times and the sizes
pub record CheckpointManifest : Type 0 where
  pub checkpoint_id : String
  pub assessment_id : String
  pub label : String
  pub database_path : String
  pub database_sha256 : String
  pub members : List Member

-- What the manager stands on. `before` is the order of paths, `live_path` where the database lies.
pub record Tools : Type 0 where
  pub sha256 : String → String
  pub dump_manifest : CheckpointManifest → String
  pub load_manifest : String → CheckpointManifest
  pub backup : Live → String
  pub connect : String → Live
  pub before : String → String → Bool
  pub live_path : String
  pub fresh : ℕ → String

pub record Site : Type 0 where
  pub live : Live
  pub files : Files

abbrev pub protected_members : List String
protected_members =
    "workspace/project" ∷ "workspace/decisions" ∷ "workspace/findings" ∷ "workspace/requests"
    ∷ "workspace/evidence" ∷ "workspace/assumptions" ∷ "workspace/risks" ∷ "workspace/gaps" ∷ []

abbrev pub put_file : String → String → Files → Files
put_file p c [] = (p, c) ∷ []
put_file p c ((q, d) ∷ fs) = if q == p then (q, c) ∷ fs else (q, d) ∷ put_file p c fs

abbrev pub remove_file : String → Files → Files
remove_file p fs = filter (λ f. not (f.0 == p)) fs

-- `path.is_relative_to(dir)`, for a path below it
unfoldable pub is_below : String → String → Bool
unfolding append starts_with
is_below dir p = starts_with (append dir "/") p

-- `layout.checkpoint_dir(id)`
unfoldable pub checkpoint_dir : String → String
unfolding append
checkpoint_dir id = append "workspace/checkpoints/" id

-- `dir / name`
unfoldable pub in_dir : String → String → String
unfolding append
in_dir dir name = append dir (append "/" name)

-- `path.name`, of a path that is given with its last part so far
unfoldable pub name_from : String → String → String
name_from part String.[] = part
name_from part (String.◌∷◌ c s) = name_from (if starts_with "/" (String.◌∷◌ c s) then s else part) s

-- `path.parent`, of a path with a slash
unfoldable pub parent : String → String
unfolding contains
parent String.[] = String.[]
parent (String.◌∷◌ c s) =
    let rest = parent s in if contains "/" s then String.◌∷◌ c rest else String.[]

-- `".gitkeep" not in file_path.name`
unfoldable pub is_kept_file : String → Bool
unfolding name_from contains
is_kept_file p = not (contains ".gitkeep" (name_from p p))

-- the paths of the files below a directory
unfoldable pub paths_below : Tools → String → Files → List String
unfolding sort is_below
paths_below t dir fs = sort t.before (filter (is_below dir) (map (λ f. f.0) fs))

abbrev pub add_member : Tools → String → Option String → List Member → List Member
add_member t p none ms = ms
add_member t p (some c) ms =
    if is_kept_file p then record { path = p; sha256 = t.sha256 c } ∷ ms else ms

unfoldable pub members_at : Tools → Files → List String → List Member
members_at t fs [] = []
members_at t fs (p ∷ ps) = add_member t p (get p fs) (members_at t fs ps)

unfoldable pub members_of : Tools → Files → List String → List Member
unfolding members_at paths_below
members_of t fs [] = []
members_of t fs (rel ∷ rels) = members_at t fs (paths_below t rel fs) ++ members_of t fs rels

abbrev pub checkpoint_event : String → String → String → Option String → AuditEvent
checkpoint_event action assessment_id id previous = record {
  action = action;
  actor_type = "system";
  assessment_id = some assessment_id;
  session_id = none;
  execution_id = none;
  node_id = none;
  previous_state = previous;
  new_state = some id;
  evidence_ids = [];
  result_status = none;
  error = none;
}

abbrev pub snapshot_path : String → String
snapshot_path id = in_dir (checkpoint_dir id) "state.db"

abbrev pub manifest_path : String → String
manifest_path id = in_dir (checkpoint_dir id) "manifest.yaml"

-- the manifest of the checkpoint, from the files with the snapshot
abbrev pub manifest_of : Tools → String → String → String → Site → CheckpointManifest
manifest_of t id a label s = record {
  checkpoint_id = id;
  assessment_id = a;
  label = label;
  database_path = "state.db";
  database_sha256 = t.sha256 (t.backup s.live);
  members = members_of t s.files protected_members;
}

abbrev pub checkpoint_row : Tools → String → String → String → String → CheckpointRow
checkpoint_row t id a label manifest = record {
  id = id;
  assessment_id = a;
  label = label;
  manifest_path = manifest_path id;
  db_snapshot_path = snapshot_path id;
  manifest_sha256 = t.sha256 manifest;
}

-- what a checkpoint writes: the snapshot, the manifest and a note, the row, and the audit trail
unfoldable pub write_checkpoint : Tools → String → String → String → String → Site → Site
write_checkpoint t readme id a label s =
    let manifest = t.dump_manifest (manifest_of t id a label s) in
    record {
      live = record {
        db = emit (checkpoint_event "checkpoint.created" a id none) s.live.db;
        ledger = create_checkpoint_record (checkpoint_row t id a label manifest) s.live.ledger;
      };
      files = put_file (in_dir (checkpoint_dir id) "README.md") readme (
          put_file (manifest_path id) manifest
            (put_file (snapshot_path id) (t.backup s.live) s.files));
    }

abbrev pub has_assessment : String → Site → Bool
has_assessment a s = any (λ r. r.id == a) s.live.db.assessments

-- `mkdir` without `exist_ok`; a directory is there where a file lies below it
abbrev pub dir_exists : String → Site → Bool
dir_exists dir s = any (λ f. is_below dir f.0) s.files

abbrev pub drawn_site : Site → Site
drawn_site s = record s {
  live = record (s.live) { db = record (s.live.db) { minted = s.live.db.minted + 1 } };
}

unfoldable pub create : Tools → String → String → String → Site → Result String × Site
create t readme a label s =
    if not (has_assessment a s)
    then (err (checkpoint_error "unknown assessment"), s)
    else let id = t.fresh s.live.db.minted in
      if dir_exists (checkpoint_dir id) s
      then (err (foreign "FileExistsError"), drawn_site s)
      else (ok id, write_checkpoint t readme id a label (drawn_site s))
