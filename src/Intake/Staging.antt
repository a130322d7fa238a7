-- ===== src/Intake/Staging.antt =====
-- sassessment/intake/staging.py: what is taken out of an archive, and what is refused. A path is its text;
-- the readers of archives and the file system are parameters. The files that are written are listed by
-- the place that their path leads to, each also when reading it breaks off.
pub mod Laws
pub mod Complete
use Prim.Native.Char.{Char, code}
use tecnosor_sas_migration_d.Common.{
  ℕ, String, Bool, true, false, Option, none, some, List, [], ◌∷◌, ◌++◌, ◌==◌, ◌&&◌, ◌||◌, ◌+◌,
  ◌=?◌, not, filter, length, mem, if◌then◌else◌,
}
use tecnosor_sas_migration_d.Common.Texts.{split_on, append, lower, starts_with}
use tecnosor_sas_migration_d.Errors.{
  Error, Result, ok, err, intake_error, unsafe_archive, path_traversal, symlink_escape, foreign,
}
use tecnosor_sas_migration_d.Intake.Media.{ends_with, suffix}

-- A member that is read to its end, that breaks off, or that the reader does not open.
pub data Reading : Type 0 where
  whole broken unopened : Reading

-- `S_IFLNK` of the external attributes, and bit 0 of the flags, are read by the reader.
pub record ZipMember : Type 0 where
  pub filename : String
  pub is_dir : Bool
  pub is_encrypted : Bool
  pub is_symlink : Bool
  pub reading : Reading

pub data TarKind : Type 0 where
  regular directory symbolic_link hard_link device other_kind : TarKind

pub record TarMember : Type 0 where
  pub name : String
  pub kind : TarKind
  pub linkname : String
  pub reading : Reading

-- An archive that can not be opened, or its members.
pub data Opened (A : Type 0) : Type 0 where
  corrupt : Opened A
  members : List A → Opened A

pub record Archive : Type 0 where
  pub path : String
  pub name : String
  pub is_file : Bool
  pub zip : Opened ZipMember
  pub tar : Opened TarMember

pub record StagingResult : Type 0 where
  pub archive : String
  pub staged_dir : String
  pub extracted_files : ℕ

-- the places of the files that were written, and the archives that were moved to the quarantine
pub record Disk : Type 0 where
  pub written : List String
  pub quarantined : List String

-- What the file system answers: the place that a path leads to, the path of its directory, whether
-- a directory is there or can be made, whether a file can be opened to be written, whether the archive
-- can be moved; and the directory for the quarantine.
pub record Site : Type 0 where
  pub resolve : String → String
  pub parent : String → String
  pub can_make : String → Disk → Bool
  pub can_open : String → Disk → Bool
  pub can_move : Disk → Bool
  pub quarantine_dir : Option String

abbrev pub Extracted : Type 0
Extracted = Result (Unit {0}) × Disk

unfoldable pub is_archive : String → Bool
unfolding lower ends_with suffix
is_archive name =
    ends_with ".tar.gz" (lower name)
    || (ends_with ".tgz" (lower name)
        || (lower (suffix name) == ".zip" || lower (suffix name) == ".tar"))

abbrev pub is_absolute : String → Bool
is_absolute name = starts_with "/" name || starts_with "\\" name

-- `".." in Path(name).parts`
abbrev pub climbs : String → Bool
climbs name = mem ".." (split_on b'/' name)

unfoldable pub reject_zip_member : ZipMember → Option Error
unfolding split_on
reject_zip_member m =
    if is_absolute m.filename
    then some (path_traversal m.filename)
    else if climbs m.filename
    then some (path_traversal m.filename)
    else if m.is_encrypted
    then some (unsafe_archive m.filename)
    else if m.is_symlink
    then some (symlink_escape m.filename)
    else none

-- `destination / name`
abbrev pub below : String → String → String
below dir name = append dir (append "/" name)

-- a resolved path that is the destination or lies below it
unfoldable pub is_inside : String → String → Bool
unfolding append starts_with
is_inside dest p = starts_with (append dest "/") p || p == dest

unfoldable pub reject_escape : String → String → Option Error
unfolding is_inside
reject_escape dest p = if not (is_inside dest p) then some (path_traversal p) else none

abbrev pub write : String → Disk → Disk
write p d = record d { written = p ∷ d.written }

abbrev pub os_error : Error
os_error = foreign "OSError"

-- `mkdir(parents=True, exist_ok=True)`
abbrev pub make_dir : Site → String → Extracted → Disk → Extracted
make_dir site dir more d = if site.can_make dir d then more else (err os_error, d)

-- The member is opened, then the file, and then the member is read.
abbrev pub write_member : Site → Reading → String → String → (Disk → Extracted) → Disk → Extracted
write_member site unopened failure p rest d = (err (foreign failure), d)
write_member site broken failure p rest d =
    if site.can_open p d then (err (foreign failure), write p d) else (err os_error, d)
write_member site whole failure p rest d =
    if site.can_open p d then rest (write p d) else (err os_error, d)

abbrev pub unless_rejected : Option Error → Extracted → Disk → Extracted
unless_rejected none more d = more
unless_rejected (some e) more d = (err e, d)

unfoldable pub extract_zip : Site → String → List ZipMember → Disk → Extracted
extract_zip site dest [] d = (ok tt, d)
extract_zip site dest (m ∷ ms) d =
    let target = below dest m.filename in
    let place = site.resolve target in
    let rest = extract_zip site dest ms in
    unless_rejected (reject_zip_member m)
      (unless_rejected (reject_escape dest place)
        (if m.is_dir
          then make_dir site target (rest d) d
          else make_dir site (site.parent target)
              (write_member site m.reading "BadZipFile" place rest d) d)
        d)
      d

abbrev pub is_link : TarKind → Bool
is_link symbolic_link = true
is_link hard_link = true
is_link _ = false

abbrev pub is_device : TarKind → Bool
is_device device = true
is_device _ = false

-- A link is refused whether it leads out of the destination or not.
unfoldable pub reject_tar_member : Site → String → TarMember → Option Error
unfolding split_on starts_with
reject_tar_member site dest m =
    if is_absolute m.name
    then some (path_traversal m.name)
    else if climbs m.name
    then some (path_traversal m.name)
    else if is_link m.kind
    then (if not
          (starts_with dest (site.resolve (below (below dest (site.parent m.name)) m.linkname)))
        then some (symlink_escape m.name)
        else some (unsafe_archive m.name))
    else if is_device m.kind
    then some (unsafe_archive m.name)
    else none

-- `extractfile` answers None for what holds no data; a regular file always does.
abbrev pub extract_kind :
    Site → TarKind → TarMember → String → String → (Disk → Extracted) → Disk → Extracted
extract_kind site directory m target place rest d = make_dir site target (rest d) d
extract_kind site regular m target place rest d =
    write_member site m.reading "TarError" place rest d
extract_kind site _ m target place rest d = (err (unsafe_archive m.name), d)

unfoldable pub extract_tar : Site → String → List TarMember → Disk → Extracted
extract_tar site dest [] d = (ok tt, d)
extract_tar site dest (m ∷ ms) d =
    let target = below dest m.name in
    let rest = extract_tar site dest ms in
    unless_rejected (reject_tar_member site dest m)
      (make_dir site (site.parent target)
        (extract_kind site m.kind m target (site.resolve target) rest d) d)
      d

-- IntakeError and its subclasses
abbrev pub is_intake_error : Error → Bool
is_intake_error (intake_error m) = true
is_intake_error (unsafe_archive m) = true
is_intake_error (path_traversal m) = true
is_intake_error (symlink_escape m) = true
is_intake_error _ = false

abbrev pub Staged : Type 0
Staged = Result StagingResult × Disk

-- `quarantine_dir / f"{archive_path.name}.quarantine.txt"`
abbrev pub note_path : String → String → String
note_path dir name = below dir (append name ".quarantine.txt")

abbrev pub move : Archive → Disk → Disk
move a d = record d { quarantined = a.path ∷ d.quarantined }

-- the note beside an archive that was moved
abbrev pub leave_note : Site → String → Archive → Disk → Staged
leave_note site note a d =
    if site.can_open note d then (err (unsafe_archive a.name), write note d) else (err os_error, d)

-- The archive is moved and a note is written where there is a quarantine.
unfoldable pub quarantine : Site → Archive → Disk → Staged
unfolding append
quarantine site a d = elim site.quarantine_dir [
  | none ↦ (err (unsafe_archive a.name), d)
  | some dir ↦
      if site.can_move d
      then leave_note site (note_path dir a.name) a (move a d)
      else (err os_error, d)
]

abbrev pub staged : Site → Archive → String → ℕ → Extracted → Staged
staged site a dest count (ok _, d) =
    (ok (record { archive = a.path; staged_dir = dest; extracted_files = count }), d)
staged site a dest count (err e, d) = if is_intake_error e then (err e, d) else quarantine site a d

-- The names that end in a slash are not counted.
abbrev pub zip_count : List ZipMember → ℕ
zip_count ms = length (filter (λ m. not (ends_with "/" m.filename)) ms)

abbrev pub is_regular : TarKind → Bool
is_regular regular = true
is_regular _ = false

abbrev pub tar_count : List TarMember → ℕ
tar_count ms = length (filter (λ m. is_regular m.kind) ms)

abbrev pub stage_zip : Site → Archive → String → Opened ZipMember → Disk → Staged
stage_zip site a dest corrupt d = quarantine site a d
stage_zip site a dest (members ms) d =
    staged site a dest (zip_count ms) (extract_zip site dest ms d)

abbrev pub stage_tar : Site → Archive → String → Opened TarMember → Disk → Staged
stage_tar site a dest corrupt d = quarantine site a d
stage_tar site a dest (members ms) d =
    staged site a dest (tar_count ms) (extract_tar site dest ms d)

-- `dest` is the resolved destination; `exists` says that something is there.
unfoldable pub safe_extract : Site → Archive → String → Bool → Disk → Staged
unfolding is_archive
safe_extract site a dest exists d =
    if not a.is_file
    then (err (intake_error "archive not found"), d)
    else if not (is_archive a.name)
    then (err (intake_error "unsupported archive type"), d)
    else if not exists && not (site.can_make dest d)
    then (err os_error, d)
    else if lower (suffix a.name) == ".zip"
    then stage_zip site a dest a.zip d
    else stage_tar site a dest a.tar d

-- An entry of the staged directory.
pub record StagedPath : Type 0 where
  pub path : String
  pub is_symlink : Bool
  pub resolved : String

pub data Danger : Type 0 where
  link_escape : String → Danger
  link_discarded : String → Danger
  suspicious_path : String → Danger

abbrev pub link_dangers : String → StagedPath → List Danger
link_dangers dir p =
    if p.is_symlink
    then (if not (starts_with dir p.resolved)
        then link_escape p.path ∷ []
        else link_discarded p.path ∷ [])
    else []

unfoldable pub scan_staged_for_dangers : String → List StagedPath → List Danger
unfolding starts_with split_on
scan_staged_for_dangers dir [] = []
scan_staged_for_dangers dir (p ∷ ps) =
    link_dangers dir p
    ++ ((if climbs p.path then suspicious_path p.path ∷ [] else [])
        ++ scan_staged_for_dangers dir ps)
