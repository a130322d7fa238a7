-- ===== src/State/Checkpoints/Restored.antt =====
-- sassessment/state/checkpoints.py: what `restore` brings back.
use tecnosor_sas_migration_d.Common.{
  String, Option, none, some, [], ◌∷◌, ◌==◌, ◌≡◌, get, Bool-cases, inl, inr, refl, sym, ap, ◌∙◌,
  eq_iff,
}
use tecnosor_sas_migration_d.Common.Texts.{contains}
use tecnosor_sas_migration_d.Errors.{checkpoint_error, Error, Result, ok, err}
use tecnosor_sas_migration_d.State.Checkpoints.{
  dir_exists, has_assessment, Live, CheckpointManifest, Tools, Site, checkpoint_dir, in_dir,
  snapshot_path, manifest_path, manifest_of, checkpoint_row, drawn_site, create, parent,
  checkpoint_event, name_from,
}
use tecnosor_sas_migration_d.State.Checkpoints.Restore.{
  Verified, check_snapshot, check_manifest, verify, restore, restore_row, restore_verified,
  replace_live,
}
use tecnosor_sas_migration_d.State.Checkpoints.RoundTrip.{
  IsReadBack, Written-verify, Written, create-IsWritten, parent-in_dir,
}
use tecnosor_sas_migration_d.State.Ledger.{CheckpointRow, get_checkpoint}
use tecnosor_sas_migration_d.State.Records.{emit}

-- a call that failed and changed nothing, or returned
abbrev IsUntouched : Site → Result (Unit {0}) × Site → Type 0
IsUntouched s (ok _, after) = Unit
IsUntouched s (err x, after) = after ≡ s

replace_live-IsUntouched :
    (t : Tools) (row : CheckpointRow) (s : Site) (o : Option String)
    → IsUntouched s (replace_live t row s o)
replace_live-IsUntouched t row s none = refl
replace_live-IsUntouched t row s (some c) = tt

restore_row-IsUntouched :
    (t : Tools) (o : Option CheckpointRow) (s : Site) → IsUntouched s (restore_row t o s)
restore_row-IsUntouched t none s = refl
restore_row-IsUntouched t (some row) s =
    replace_live-IsUntouched t row s (get row.db_snapshot_path s.files)

restore_verified-IsUntouched :
    (t : Tools) (id : String) (v : Verified) (s : Site) → IsUntouched s (restore_verified t id v s)
restore_verified-IsUntouched t id (err x) s = refl
restore_verified-IsUntouched t id (ok []) s =
    restore_row-IsUntouched t (get_checkpoint s.live.ledger id) s
restore_verified-IsUntouched t id (ok (p ∷ ps)) s = refl

-- A restore that raises leaves the live database and the files as they are.
pub restore_untouched :
    (t : Tools) (id : String) (s after : Site) (x : Error)
    → restore t id s ≡ (err x, after)
    → after ≡ s
unfolding restore
restore_untouched t id s after x h = rw h at (restore_verified-IsUntouched t id (verify t id s) s)

-- SHA-256 without a collision
abbrev pub IsInjective : (String → String) → Type 0
IsInjective f = (x y : String) → f x ≡ f y → x ≡ y

-- The file of the snapshot, where a later state of the files verifies.
snapshot_same :
    (t : Tools) (m : CheckpointManifest) (s : Site) (c : Option String) (content : String)
    → IsInjective t.sha256
    → t.sha256 content ≡ m.database_sha256
    → check_snapshot t m s.files c ≡ ok []
    → c ≡ some content
snapshot_same t m s none content inj e h = absurd (cc)
snapshot_same t m s (some c) content inj e h = elim (Bool-cases (t.sha256 c == m.database_sha256)) [
  | inl same ↦ ap some (inj c content ((eq_iff (t.sha256 c) m.database_sha256).0 same ∙ sym e))
  | inr other ↦ absurd (cc (rw other at h))
]

-- The manifest, where a later state of the files verifies.
manifest_same :
    (t : Tools) (row : CheckpointRow) (m : CheckpointManifest) (s : Site) (o : Option String)
    → IsInjective t.sha256
    → t.load_manifest (t.dump_manifest m) ≡ m
    → row.manifest_sha256 ≡ t.sha256 (t.dump_manifest m)
    → check_manifest t row s.files o ≡ ok []
    → check_snapshot t m s.files (get (in_dir (parent row.manifest_path) m.database_path) s.files)
      ≡ ok []
manifest_same t row m s none inj yaml e h = absurd (cc)
manifest_same t row m s (some c) inj yaml e h =
    elim (Bool-cases (t.sha256 c == row.manifest_sha256)) [
      | inl same ↦
          let written : c ≡ t.dump_manifest m =
            inj c (t.dump_manifest m) ((eq_iff (t.sha256 c) row.manifest_sha256).0 same ∙ e) in
          rw (written, yaml) at (rw same at h)
      | inr other ↦ absurd (cc (rw other at h))
    ]

-- the database that was backed up, with the event of the restore
abbrev pub restored_live : Tools → String → String → Live → Live
restored_live t a id live = record live {
  db =
      emit (checkpoint_event "checkpoint.restored" a id (some (name_from t.live_path t.live_path)))
        live.db;
}

-- a restore that returned brought back `live`
abbrev IsBack : Live → Result (Unit {0}) × Site → Type 0
IsBack live (ok _, after) = after.live ≡ live
IsBack live (err x, after) = Unit

restore_verified-IsBack :
    (t : Tools) (a label id : String) (s later : Site) (v : Verified)
    → IsInjective t.sha256
    → IsReadBack t id a label s
    → t.connect (t.backup s.live) ≡ s.live
    → get_checkpoint later.live.ledger id
      ≡ some (checkpoint_row t id a label (t.dump_manifest (manifest_of t id a label s)))
    → verify t id later ≡ v
    → IsBack (restored_live t a id s.live) (restore_verified t id v later)
unfolding verify contains
restore_verified-IsBack t a label id s later (err x) inj yaml back row e = tt
restore_verified-IsBack t a label id s later (ok (p ∷ ps)) inj yaml back row e = tt
restore_verified-IsBack t a label id s later (ok []) inj yaml back row e =
    let m = manifest_of t id a label s in
    let r = checkpoint_row t id a label (t.dump_manifest m) in
    let checked =
      manifest_same t r m later (get (manifest_path id) later.files) inj yaml refl (rw row at e) in
    let found : get (snapshot_path id) later.files ≡ some (t.backup s.live) =
      snapshot_same t m later _ (t.backup s.live) inj refl
        (rw (parent-in_dir (checkpoint_dir id) "manifest.yaml" refl) at checked) in
    rw (row, found, back) refl

Written-IsBack :
    (t : Tools) (a label id : String) (s after later : Site)
    → IsInjective t.sha256
    → IsReadBack t id a label s
    → t.connect (t.backup s.live) ≡ s.live
    → Written t a label s id after
    → get_checkpoint later.live.ledger id ≡ get_checkpoint after.live.ledger id
    → IsBack (restored_live t a id s.live) (restore t id later)
unfolding restore
Written-IsBack t a label id s after later inj yaml back w kept =
    restore_verified-IsBack t a label id s later (verify t id later) inj yaml back
      (kept ∙ w.row_found) refl

-- Where SHA-256 has no collision, YAML reads the manifest and SQLite the backup back as they were written, and
-- the identifier drawn had no row: a checkpoint that `create` answered, restored later with its row as it
-- was written but whatever became of the files and of the rest of the database, brings back the database
-- of the time of `create` with the event of the restore, if it returns.
pub restore-create :
    (t : Tools) (readme a label id : String) (s after later final : Site)
    → IsInjective t.sha256
    → IsReadBack t id a label (drawn_site s)
    → t.connect (t.backup (drawn_site s).live) ≡ (drawn_site s).live
    → get_checkpoint s.live.ledger (t.fresh s.live.db.minted) ≡ none
    → create t readme a label s ≡ (ok id, after)
    → get_checkpoint later.live.ledger id ≡ get_checkpoint after.live.ledger id
    → restore t id later ≡ (ok tt, final)
    → final.live ≡ restored_live t a id (drawn_site s).live
restore-create t readme a label id s after later final inj yaml back fresh made kept done =
    rw done at (
      Written-IsBack t a label id (drawn_site s) after later inj yaml back
        (rw made at (create-IsWritten t readme a label s fresh)) kept)

-- what a restore right after `create` answers
abbrev IsForgotten : Tools → String → Result (Unit {0}) × Site → Type 0
IsForgotten t id r = (r.0 ≡ ok tt) × (verify t id r.1 ≡ err (checkpoint_error "unknown checkpoint"))

Written-IsForgotten :
    (t : Tools) (a label id : String) (s after : Site)
    → IsReadBack t id a label s
    → t.connect (t.backup s.live) ≡ s.live
    → get_checkpoint s.live.ledger id ≡ none
    → Written t a label s id after
    → IsForgotten t id (restore t id after)
unfolding restore verify
Written-IsForgotten t a label id s after yaml back fresh w =
    rw (Written-verify t a label id s after yaml w, w.row_found, w.snapshot_found)
      (refl, rw (back, fresh) refl)

-- the identifier that `create` answers
abbrev IsDrawn : Tools → Site → Result String × Site → Type 0
IsDrawn t s (ok id, after) = t.fresh s.live.db.minted ≡ id
IsDrawn t s (err x, after) = Unit

create-IsDrawn :
    (t : Tools) (readme a label : String) (s : Site) → IsDrawn t s (create t readme a label s)
unfolding create
create-IsDrawn t readme a label s = elim (Bool-cases (has_assessment a s)) [
  | inl known ↦ elim (Bool-cases (dir_exists (checkpoint_dir (t.fresh s.live.db.minted)) s)) [
    | inl there ↦ rw (known, there) tt
    | inr free ↦ rw (known, free) refl
  ]
  | inr unknown ↦ rw unknown tt
]

-- Where YAML reads the manifest and SQLite the backup back as they were written, and the identifier drawn
-- had no row: a restore right after `create`
-- returns, and the restored database has no row of the checkpoint, so that the checkpoint can not be
-- verified or restored again.
pub restore_forgets :
    (t : Tools) (readme a label id : String) (s after : Site)
    → IsReadBack t id a label (drawn_site s)
    → t.connect (t.backup (drawn_site s).live) ≡ (drawn_site s).live
    → get_checkpoint s.live.ledger (t.fresh s.live.db.minted) ≡ none
    → create t readme a label s ≡ (ok id, after)
    → ((restore t id after).0 ≡ ok tt)
      × (verify t id (restore t id after).1 ≡ err (checkpoint_error "unknown checkpoint"))
restore_forgets t readme a label id s after yaml back fresh made =
    Written-IsForgotten t a label id (drawn_site s) after yaml back
      (rw (← (rw made at (create-IsDrawn t readme a label s))) fresh)
      (rw made at (create-IsWritten t readme a label s fresh))
