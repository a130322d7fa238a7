-- ===== src/Tests/Intake.antt =====
-- The theorems on batches and archives at concrete files. A text stands in for its own SHA-256, with a
-- mark in front.
use tecnosor_sas_migration_d.Intake.Staging.Complete.{safe_extract-HasAllFiles, HasAllFiles}
use tecnosor_sas_migration_d.State.Records.{emit}
use tecnosor_sas_migration_d.Intake.Registration.Laws.{register_answer-KeepsState}
use tecnosor_sas_migration_d.Intake.Registration.{
  compute_integrity_hash, register_files, choose_id, register_new, register_batch, register_answer,
  batch_of, answer_options,
}
use tecnosor_sas_migration_d.Intake.Staging.Laws.{safe_extract-AllPlaced, AllPlaced, IsLinkFree}
use tecnosor_sas_migration_d.Common.Texts.{append, starts_with}
use tecnosor_sas_migration_d.Intake.Staging.{
  reject_tar_member, regular, broken, is_inside, extract_tar, quarantine, Site, TarMember, whole,
  Reading, reject_escape, reject_zip_member, extract_zip, corrupt, members, safe_extract, Disk,
  Archive, ZipMember,
}
use tecnosor_sas_migration_d.Operator.Answers.{KeepsState}
use tecnosor_sas_migration_d.Intake.Registration.Once.{
  register_batch_broken, register_batch_again, is_ok,
}
use tecnosor_sas_migration_d.State.Batches.{add_artifact, create_batch, batch_at}
use tecnosor_sas_migration_d.State.Tables.{Batch}
use tecnosor_sas_migration_d.Intake.Records.{BatchRegistration, Options, Store, Places}
use Prim.Native.String.{◌++◌ as add}
use tecnosor_sas_migration_d.Common.{
  is_empty, ◌=?◌, ◌==◌, if◌then◌else◌, String, true, false, some, [], ◌∷◌, ◌≡◌, refl,
}
use tecnosor_sas_migration_d.Errors.{unsafe_archive, path_traversal, ok, err}
use tecnosor_sas_migration_d.Samples.{empty_db, sample_desk}

-- two files with the same bytes
abbrev sample_places : Places
sample_places = record {
  resolve = λ p.
      if p == "/repo" then "/" ∷ "repo" ∷ [] else "/" ∷ "repo" ∷ "intake" ∷ "raw" ∷ "inputs" ∷ [];
  repo_root = "/repo";
  files = λ d.
      record { name = "a.sas"; relative = some "a.sas"; bytes = "data"; size = 4 }
      ∷ record { name = "b.tar.gz"; relative = some "b.tar.gz"; bytes = "data"; size = 4 }
      ∷ [];
  sha256 = λ s. String.◌∷◌ "#" s;
  fresh = λ n. if n =? 0 then "ART-1" else "ART-2";
  new_batch_id = λ p n. "BAT-1";
  manifest_path = λ b. add b ".yaml";
}

abbrev empty_store : Store
empty_store = record { db = empty_db; manifests = [] }

abbrev answer : Options
answer = answer_options "BAT-res-7"

abbrev registered_store : Store
registered_store = (register_batch sample_places answer "/repo/intake/raw/inputs" empty_store).1

abbrev registered_batch : BatchRegistration
registered_batch = record {
  batch_id = "BAT-res-7";
  batch_dir = "/repo/intake/raw/inputs";
  manifest_path = "BAT-res-7.yaml";
  file_count = 2;
  duplicate_count = 1;
  integrity_hash = "#a.sas#datab.tar.gz#data";
}

registered :
    register_batch sample_places answer "/repo/intake/raw/inputs" empty_store
    ≡ (ok registered_batch, registered_store)
unfolding register_batch batch_at register_new create_batch emit choose_id register_files
    add_artifact compute_integrity_hash
registered = refl

-- the directory with another file
abbrev later_places : Places
later_places = record sample_places {
  files = λ d. record { name = "c.sas"; relative = some "c.sas"; bytes = "more"; size = 4 } ∷ [];
}

register_batch_again_example :
    register_batch later_places answer "/repo/intake/raw/inputs" registered_store
    ≡ (ok (record registered_batch { file_count = 0; duplicate_count = 0 }), registered_store)
register_batch_again_example =
    register_batch_again sample_places later_places answer answer "/repo/intake/raw/inputs"
      empty_store registered_store registered_batch (λ s h. absurd (cc)) refl registered

-- a row that was written before the files were read
abbrev broken_batch : Batch
broken_batch = batch_of answer "BAT-res-7" "/repo/intake/raw/inputs"

abbrev broken_store : Store
broken_store = record empty_store { db = record empty_db { batches = broken_batch ∷ [] } }

broken_found : batch_at broken_store.db "/repo/intake/raw/inputs" ≡ some broken_batch
unfolding batch_at
broken_found = refl

register_batch_broken_example :
    (is_ok (register_batch sample_places answer "/repo/intake/raw/inputs" broken_store) ≡ false)
    × ((register_batch sample_places answer "/repo/intake/raw/inputs" broken_store).1.db.batches
        ≡ broken_batch ∷ [])
register_batch_broken_example =
    register_batch_broken sample_places answer "/repo/intake/raw/inputs" broken_store broken_batch
      broken_found refl

register_answer-KeepsState_example :
    KeepsState (record sample_desk { register_batch = register_answer sample_places [] })
register_answer-KeepsState_example = register_answer-KeepsState sample_desk sample_places []

abbrev zip_file : Reading → String → ZipMember
zip_file reading name = record {
  filename = name;
  is_dir = false;
  is_encrypted = false;
  is_symlink = false;
  reading = reading;
}

-- the reading of the second member breaks off
abbrev sample_archive : Archive
sample_archive = record {
  path = "/inbox/dump.zip";
  name = "dump.zip";
  is_file = true;
  zip = members (zip_file whole "a.sas" ∷ zip_file broken "b.sas" ∷ zip_file whole "c.sas" ∷ []);
  tar = corrupt;
}

abbrev tar_file : String → TarMember
tar_file name = record { name = name; kind = regular; linkname = ""; reading = whole }

-- the second member climbs out of the destination
abbrev sample_tar : Archive
sample_tar = record {
  path = "/inbox/dump.tar";
  name = "dump.tar";
  is_file = true;
  zip = corrupt;
  tar = members (tar_file "a.sas" ∷ tar_file "../b.sas" ∷ []);
}

abbrev empty_disk : Disk
empty_disk = record { written = []; quarantined = [] }

-- no links, and everything can be made
abbrev sample_site : Site
sample_site = record {
  resolve = λ p. p;
  parent = λ p. p;
  can_make = λ p d. true;
  can_open = λ p d. true;
  can_move = λ d. true;
  quarantine_dir = some "/quarantine";
}

-- A file that is in the way of a directory: "a" is written, "a/b" fails.
abbrev blocked_site : Site
blocked_site = record sample_site { can_make = λ p d. is_empty d.written }

moved : safe_extract sample_site sample_archive "/staged" true empty_disk ≡ (
  err (unsafe_archive "dump.zip"),
  record {
    written = "/quarantine/dump.zip.quarantine.txt" ∷ "/staged/b.sas" ∷ "/staged/a.sas" ∷ [];
    quarantined = "/inbox/dump.zip" ∷ [];
  },
)
unfolding safe_extract extract_zip reject_zip_member starts_with reject_escape quarantine
moved = refl

refused_tar :
    safe_extract sample_site sample_tar "/staged" true empty_disk
    ≡ (err (path_traversal "../b.sas"), record { written = "/staged/a.sas" ∷ []; quarantined = [] })
unfolding safe_extract extract_tar reject_tar_member starts_with append
refused_tar = refl

in_the_way :
    safe_extract blocked_site
      (record sample_tar { tar = members (tar_file "a" ∷ tar_file "a/b" ∷ []) })
      "/staged"
      true
      empty_disk
    ≡ (
      err (unsafe_archive "dump.tar"),
      record {
        written = "/quarantine/dump.tar.quarantine.txt" ∷ "/staged/a" ∷ [];
        quarantined = "/inbox/dump.tar" ∷ [];
      },
    )
unfolding safe_extract extract_tar reject_tar_member starts_with quarantine
in_the_way = refl

sample-IsLinkFree : IsLinkFree (λ p. p) "/staged"
unfolding is_inside starts_with append
sample-IsLinkFree name relative down = refl

safe_extract-AllPlaced_example :
    AllPlaced
      (some "/quarantine")
      "dump.tar"
      "/staged"
      (safe_extract sample_site sample_tar "/staged" true empty_disk).1
safe_extract-AllPlaced_example =
    safe_extract-AllPlaced sample_site sample_tar "/staged" true empty_disk (λ h. sample-IsLinkFree)
      tt

abbrev whole_tar : Archive
whole_tar = record sample_tar { tar = members (tar_file "a.sas" ∷ tar_file "b/c.sas" ∷ []) }

abbrev staged_disk : Disk
staged_disk = record { written = "/staged/b/c.sas" ∷ "/staged/a.sas" ∷ []; quarantined = [] }

staged_tar : safe_extract sample_site whole_tar "/staged" true empty_disk ≡ (
  ok (record { archive = "/inbox/dump.tar"; staged_dir = "/staged"; extracted_files = 2 }),
  staged_disk,
)
unfolding safe_extract extract_tar reject_tar_member starts_with append
staged_tar = refl

safe_extract-HasAllFiles_example :
    (staged_disk.quarantined ≡ []) × HasAllFiles sample_site whole_tar "/staged" staged_disk.written
safe_extract-HasAllFiles_example =
    safe_extract-HasAllFiles sample_site whole_tar "/staged" true empty_disk staged_disk
      (record { archive = "/inbox/dump.tar"; staged_dir = "/staged"; extracted_files = 2 })
      staged_tar
