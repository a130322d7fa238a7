-- ===== src/State/Checkpoints/Restore.antt =====
-- sassessment/state/checkpoints.py: `verify` and `restore`.
use tecnosor_sas_migration_d.State.Checkpoints.{
  remove_file, name_from, parent, checkpoint_event, in_dir, Site, CheckpointManifest, Files, Member,
  Tools,
}
use tecnosor_sas_migration_d.Common.{
  String, Option, none, some, List, [], ◌∷◌, ◌++◌, ◌==◌, get, if◌then◌else◌,
}
use tecnosor_sas_migration_d.Common.Texts.{append}
use tecnosor_sas_migration_d.Errors.{Result, ok, err, checkpoint_error, foreign}
use tecnosor_sas_migration_d.State.Ledger.{CheckpointRow, get_checkpoint}
use tecnosor_sas_migration_d.State.Records.{emit}

pub data CheckpointProblem : Type 0 where
  snapshot_mismatch : CheckpointProblem
  member_missing : String → CheckpointProblem
  member_mismatch : String → CheckpointProblem

abbrev pub member_problems : Tools → Member → Option String → List CheckpointProblem
member_problems t m none = member_missing m.path ∷ []
member_problems t m (some c) = if t.sha256 c == m.sha256 then [] else member_mismatch m.path ∷ []

unfoldable pub members_problems : Tools → Files → List Member → List CheckpointProblem
members_problems t fs [] = []
members_problems t fs (m ∷ ms) = member_problems t m (get m.path fs) ++ members_problems t fs ms

abbrev pub Verified : Type 0
Verified = Result (List CheckpointProblem)

abbrev pub check_snapshot : Tools → CheckpointManifest → Files → Option String → Verified
check_snapshot t m fs none = err (foreign "FileNotFoundError")
check_snapshot t m fs (some c) = ok (
    (if t.sha256 c == m.database_sha256 then [] else snapshot_mismatch ∷ [])
    ++ members_problems t fs m.members)

abbrev pub check_manifest : Tools → CheckpointRow → Files → Option String → Verified
check_manifest t row fs none = err (checkpoint_error "checkpoint manifest missing")
check_manifest t row fs (some c) =
    if t.sha256 c == row.manifest_sha256
    then (let m = t.load_manifest c in
        check_snapshot t m fs (get (in_dir (parent row.manifest_path) m.database_path) fs))
    else err (checkpoint_error "checkpoint manifest was modified after creation")

abbrev pub check_row : Tools → Files → Option CheckpointRow → Verified
check_row t fs none = err (checkpoint_error "unknown checkpoint")
check_row t fs (some row) = check_manifest t row fs (get row.manifest_path fs)

unfoldable pub verify : Tools → String → Site → Verified
verify t id s = check_row t s.files (get_checkpoint s.live.ledger id)

-- the connection is closed, the file of the database replaced, and opened again
abbrev pub replace_live : Tools → CheckpointRow → Site → Option String → Result (Unit {0}) × Site
replace_live t row s none = (err (foreign "FileNotFoundError"), s)
replace_live t row s (some c) =
    let live = t.connect c in
    (
      ok tt,
      record {
        live = record live {
          db =
              emit
                (checkpoint_event "checkpoint.restored" row.assessment_id row.id
                  (some (name_from t.live_path t.live_path)))
                live.db;
        };
        files =
            remove_file (append t.live_path "-shm")
              (remove_file (append t.live_path "-wal") s.files);
      },
    )

abbrev pub restore_row : Tools → Option CheckpointRow → Site → Result (Unit {0}) × Site
restore_row t none s = (err (foreign "AssertionError"), s)
restore_row t (some row) s = replace_live t row s (get row.db_snapshot_path s.files)

abbrev pub restore_verified : Tools → String → Verified → Site → Result (Unit {0}) × Site
restore_verified t id (err x) s = (err x, s)
restore_verified t id (ok []) s = restore_row t (get_checkpoint s.live.ledger id) s
restore_verified t id (ok (p ∷ ps)) s =
    (err (checkpoint_error "checkpoint verification failed; live state untouched"), s)

unfoldable pub restore : Tools → String → Site → Result (Unit {0}) × Site
restore t id s = restore_verified t id (verify t id s) s
