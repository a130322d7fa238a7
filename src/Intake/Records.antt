-- ===== src/Intake/Records.antt =====
-- sassessment/intake/registration.py: what a batch is registered from and as. What a directory holds and
-- SHA-256 are parameters; a path is its text, and `resolve` answers its parts.
use tecnosor_sas_migration_d.Common.{ℕ, String, Bool, Option, List}
use tecnosor_sas_migration_d.State.Tables.{Db}

-- A file of a batch: its name, its path below the batch once links are followed (none where that leads
-- out of the batch), its bytes and their number.
pub record RawFile : Type 0 where
  pub name : String
  pub relative : Option String
  pub bytes : String
  pub size : ℕ

-- What registration reads of its surroundings. `files` are those below a directory in path order,
-- `fresh` draws an identifier.
pub record Places : Type 0 where
  pub resolve : String → List String
  pub repo_root : String
  pub files : List String → List RawFile
  pub sha256 : String → String
  pub fresh : ℕ → String
  pub new_batch_id : String → ℕ → String
  pub manifest_path : String → String

-- the keyword arguments
pub record Options : Type 0 where
  pub provider : String
  pub source_team : String
  pub environment : String
  pub authority_level : String
  pub confidentiality : String
  pub known_omissions : String
  pub batch_id : Option String

pub record BatchRegistration : Type 0 where
  pub batch_id : String
  pub batch_dir : String
  pub manifest_path : String
  pub file_count : ℕ
  pub duplicate_count : ℕ
  pub integrity_hash : String

-- an entry of `files`
pub record FileEntry : Type 0 where
  pub path : String
  pub sha256 : String
  pub size : ℕ
  pub media_type : String
  pub artifact_id : String
  pub duplicate : Bool

pub record Manifest : Type 0 where
  pub batch_id : String
  pub options : Options
  pub raw_dir : String
  pub integrity_hash : String
  pub files : List FileEntry
  pub duplicate_references : List String

-- the database and the manifests that were written
pub record Store : Type 0 where
  pub db : Db
  pub manifests : List (String × Manifest)
