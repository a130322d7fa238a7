-- ===== src/Tests/Checkpoints.antt =====
-- The theorems on checkpoints at a concrete site. The tools stand in for SHA-256 (a text is its own hash),
-- YAML and SQLite (one manifest and one database are written and read).
use tecnosor_sas_migration_d.State.Migrations.Laws.{apply_all_again}
use tecnosor_sas_migration_d.State.Migrations.{
  apply_sorted, current_version, apply_all, Schema, Migration,
}
use tecnosor_sas_migration_d.Common.Sorting.{insert, sort}
use tecnosor_sas_migration_d.Common.Texts.{contains, starts_with, append}
use tecnosor_sas_migration_d.State.Checkpoints.RoundTrip.{IsReadBack, verify-create}
use tecnosor_sas_migration_d.State.Checkpoints.Restored.{
  restore-create, restore_forgets, restored_live,
}
use tecnosor_sas_migration_d.State.Checkpoints.Restore.{members_problems, restore, verify}
use tecnosor_sas_migration_d.State.Checkpoints.{
  parent, in_dir, name_from, is_kept_file, checkpoint_dir, paths_below, put_file, is_below,
  members_at, write_checkpoint, drawn_site, create, members_of, Tools, CheckpointManifest, Site,
}
use tecnosor_sas_migration_d.State.Ledger.{create_checkpoint_record, get_checkpoint, Ledger}
use tecnosor_sas_migration_d.Common.{Bool, ℕ, String, true, none, List, [], ◌∷◌, ◌≡◌, refl}
use tecnosor_sas_migration_d.Errors.{ok, err, checkpoint_error}
use tecnosor_sas_migration_d.Samples.{empty_db}

abbrev empty_ledger : Ledger
empty_ledger = record { sessions = []; gaps = []; assumptions = []; risks = []; checkpoints = [] }

abbrev sample_site : Site
sample_site = record {
  live = record {
    db = record empty_db {
      assessments = record { id = "ASM-1"; status = "ACTIVE"; current_phase = "phase0" } ∷ [];
    };
    ledger = empty_ledger;
  };
  files = ("workspace/project/notes.md", "notes") ∷ ("workspace/project/.gitkeep", "") ∷ [];
}

abbrev sample_manifest : CheckpointManifest
sample_manifest = record {
  checkpoint_id = "CKP-1";
  assessment_id = "ASM-1";
  label = "start";
  database_path = "state.db";
  database_sha256 = "database";
  members = record { path = "workspace/project/notes.md"; sha256 = "notes" } ∷ [];
}

abbrev sample_tools : Tools
sample_tools = record {
  sha256 = λ s. s;
  dump_manifest = λ m. "manifest";
  load_manifest = λ s. sample_manifest;
  backup = λ l. "database";
  connect = λ s. (drawn_site sample_site).live;
  before = λ p q. true;
  live_path = "workspace/database/sassessment.db";
  fresh = λ n. "CKP-1";
}

abbrev checkpointed : Site
checkpointed =
    write_checkpoint sample_tools "readme" "CKP-1" "ASM-1" "start" (drawn_site sample_site)

read_back : IsReadBack sample_tools "CKP-1" "ASM-1" "start" (drawn_site sample_site)
unfolding members_of members_at paths_below is_below sort insert append starts_with is_kept_file
    name_from contains
read_back = refl

no_row : get_checkpoint sample_site.live.ledger "CKP-1" ≡ none
unfolding get_checkpoint
no_row = refl

made : create sample_tools "readme" "ASM-1" "start" sample_site ≡ (ok "CKP-1", checkpointed)
unfolding create is_below append starts_with checkpoint_dir
made = refl

verify-create_example : verify sample_tools "CKP-1" checkpointed ≡ ok []
verify-create_example =
    verify-create sample_tools "readme" "ASM-1" "start" "CKP-1" sample_site checkpointed read_back
      no_row made

-- a member that was changed after the checkpoint
abbrev tampered : Site
tampered = record checkpointed {
  files = put_file "workspace/project/notes.md" "other" checkpointed.files;
}

abbrev tampered_result : Site
tampered_result = (restore sample_tools "CKP-1" tampered).1

refused : restore sample_tools "CKP-1" tampered ≡ (
  err (checkpoint_error "checkpoint verification failed; live state untouched"),
  tampered_result,
)
unfolding restore verify get_checkpoint write_checkpoint create_checkpoint_record in_dir
    checkpoint_dir parent members_problems
refused = refl

-- another member was added since, and the node states are gone
abbrev later : Site
later = record checkpointed {
  files = put_file "workspace/project/new.md" "new" checkpointed.files;
  live = record (checkpointed.live) { db = empty_db };
}

abbrev restored : Site
restored = (restore sample_tools "CKP-1" later).1

returned : restore sample_tools "CKP-1" later ≡ (ok tt, restored)
unfolding restore verify get_checkpoint write_checkpoint create_checkpoint_record in_dir
    checkpoint_dir parent members_problems
returned = refl

restore-create_example :
    restored.live ≡ restored_live sample_tools "ASM-1" "CKP-1" (drawn_site sample_site).live
restore-create_example =
    restore-create sample_tools "readme" "ASM-1" "start" "CKP-1" sample_site checkpointed later
      restored (λ x y h. h) read_back refl no_row made refl returned

restore_forgets_example :
    ((restore sample_tools "CKP-1" checkpointed).0 ≡ ok tt)
    × (verify sample_tools "CKP-1" (restore sample_tools "CKP-1" checkpointed).1
        ≡ err (checkpoint_error "unknown checkpoint"))
restore_forgets_example =
    restore_forgets sample_tools "readme" "ASM-1" "start" "CKP-1" sample_site checkpointed read_back
      refl no_row made

abbrev migration : ℕ → String → Migration
migration v sql = record { version = v; name = sql; sql = sql }

-- the scripts that were run, the latest first
abbrev run_script : String → List String → Bool × List String
run_script sql scripts = (true, sql ∷ scripts)

abbrev old_schema : Schema (List String)
old_schema = record { rows = (1, "initial") ∷ []; tables = [] }

abbrev new_schema : Schema (List String)
new_schema = record {
  rows = (1, "initial") ∷ (2, "second") ∷ (3, "third") ∷ [];
  tables = "third" ∷ "second" ∷ [];
}

abbrev sample_migrations : List Migration
sample_migrations = migration 3 "third" ∷ migration 1 "initial" ∷ migration 2 "second" ∷ []

migrated : apply_all run_script sample_migrations old_schema ≡ (ok (2 ∷ 3 ∷ []), new_schema)
unfolding apply_all apply_sorted current_version
migrated = refl

apply_all_again_example : apply_all run_script sample_migrations new_schema ≡ (ok [], new_schema)
apply_all_again_example =
    apply_all_again run_script sample_migrations old_schema new_schema (2 ∷ 3 ∷ []) migrated
