-- ===== src/Intake/Staging/Complete.antt =====
-- sassessment/intake/staging.py: an extraction that returns has written every file of the archive.
use tecnosor_sas_migration_d.Common.{
  ℕ, String, Bool, true, false, Option, none, some, List, [], ◌∷◌, ◌==◌, ◌≡◌, refl, Bool-cases, inl,
  inr, All, if◌then◌else◌, mem, eq_refl, arith, not, ◌&&◌,
}
use tecnosor_sas_migration_d.Common.Texts.{lower}
use tecnosor_sas_migration_d.Errors.{Error, ok, err}
use tecnosor_sas_migration_d.Intake.Media.{suffix}
use tecnosor_sas_migration_d.Intake.Staging.{
  Site, Reading, whole, broken, unopened, ZipMember, TarKind, regular, directory, TarMember, Opened,
  corrupt, members, Archive, Disk, Extracted, Staged, StagingResult, is_archive, reject_zip_member,
  below, reject_escape, move, note_path, write, write_member, make_dir, unless_rejected,
  extract_zip, reject_tar_member, extract_kind, extract_tar, is_intake_error, is_regular,
  quarantine, staged, stage_zip, stage_tar, safe_extract, zip_count, tar_count,
}

-- What an extraction that ends well leaves: nothing was moved, no file that was written is forgotten, and
-- the files have the property.
abbrev IsComplete : (List String → Type 0) → Disk → Extracted → Type 0
IsComplete Q d (ok u, after) =
    (after.quarantined ≡ d.quarantined)
    × ((p : String) → mem p d.written ≡ true → mem p after.written ≡ true)
    × Q after.written
IsComplete Q d (err e, after) = Unit

unless_rejected-IsComplete :
    (Q : List String → Type 0) (o : Option Error) (more : Extracted) (d : Disk)
    → IsComplete Q d more
    → IsComplete Q d (unless_rejected o more d)
unless_rejected-IsComplete Q none more d h = h
unless_rejected-IsComplete Q (some e) more d h = tt

make_dir-IsComplete :
    (Q : List String → Type 0) (site : Site) (dir : String) (more : Extracted) (d : Disk)
    → IsComplete Q d more
    → IsComplete Q d (make_dir site dir more d)
make_dir-IsComplete Q site dir more d h = elim (Bool-cases (site.can_make dir d)) [
  | inl made ↦ rw made h
  | inr failed ↦ rw failed tt
]

weaken :
    (Q R : List String → Type 0) (d : Disk) (r : Extracted)
    → ((ps : List String) → Q ps → R ps)
    → IsComplete Q d r
    → IsComplete R d r
weaken Q R d (ok u, after) k (a, b, c) = (a, b, k after.written c)
weaken Q R d (err e, after) k h = tt

-- The file that is written first is kept by the rest.
after_write :
    (Q R : List String → Type 0) (p : String) (d : Disk) (r : Extracted)
    → ((ps : List String) → mem p ps ≡ true → Q ps → R ps)
    → IsComplete Q (write p d) r
    → IsComplete R d r
after_write Q R p d (ok u, after) k (a, b, c) =
    (a, λ q h. b q (ground (arith, h)), k after.written (b p (ground (arith, eq_refl p))) c)
after_write Q R p d (err e, after) k h = tt

write_member-IsComplete :
    (Q R : List String → Type 0) (site : Site) (reading : Reading) (failure p : String)
    (rest : Disk → Extracted) (d : Disk)
    → ((ps : List String) → mem p ps ≡ true → Q ps → R ps)
    → ((e : Disk) → IsComplete Q e (rest e))
    → IsComplete R d (write_member site reading failure p rest d)
write_member-IsComplete Q R site unopened failure p rest d k h = tt
write_member-IsComplete Q R site broken failure p rest d k h =
    elim (Bool-cases (site.can_open p d)) [ inl there ↦ rw there tt | inr failed ↦ rw failed tt ]
write_member-IsComplete Q R site whole failure p rest d k h =
    elim (Bool-cases (site.can_open p d)) [
      | inl there ↦ rw there (after_write Q R p d (rest (write p d)) k (h (write p d)))
      | inr failed ↦ rw failed tt
    ]

dir_or_file :
    (Q : List String → Type 0) (is_dir : Bool) (more other : Extracted) (d : Disk)
    → (is_dir ≡ true → IsComplete Q d more)
    → (is_dir ≡ false → IsComplete Q d other)
    → IsComplete Q d (if is_dir then more else other)
dir_or_file Q true more other d h k = h refl
dir_or_file Q false more other d h k = k refl

-- The file of each member that is no directory was written.
abbrev pub HasZipFiles : Site → String → List ZipMember → List String → Type 0
HasZipFiles site dest ms ps =
    All (λ m. m.is_dir ≡ false → mem (site.resolve (below dest m.filename)) ps ≡ true) ms

extract_zip-IsComplete :
    (site : Site) (dest : String) (ms : List ZipMember) (d : Disk)
    → IsComplete (HasZipFiles site dest ms) d (extract_zip site dest ms d)
unfolding extract_zip
extract_zip-IsComplete site dest [] d = (refl, λ p h. h, tt)
extract_zip-IsComplete site dest (m ∷ ms) d =
    let Q = HasZipFiles site dest ms in
    let R = HasZipFiles site dest (m ∷ ms) in
    let rest = extract_zip-IsComplete site dest ms in
    unless_rejected-IsComplete R (reject_zip_member m) _ d (
      unless_rejected-IsComplete R (reject_escape dest (site.resolve (below dest m.filename))) _ d (
        dir_or_file R m.is_dir _ _ d
          (λ dir.
            make_dir-IsComplete R site _ (extract_zip site dest ms d) d
              (weaken Q R d _ (λ ps q. (λ file. absurd (cc (dir, file)), q)) (rest d)))
          (λ file. make_dir-IsComplete R site _ _ d (
            write_member-IsComplete Q R site m.reading "BadZipFile" _ (extract_zip site dest ms) d
              (λ ps there q. (λ f. there, q)) rest))))

-- The file of each regular member was written.
abbrev pub HasTarFiles : Site → String → List TarMember → List String → Type 0
HasTarFiles site dest ms ps =
    All (λ m. is_regular m.kind ≡ true → mem (site.resolve (below dest m.name)) ps ≡ true) ms

extract_kind-IsComplete :
    (Q R : List String → Type 0) (site : Site) (k : TarKind) (m : TarMember) (target p : String)
    (rest : Disk → Extracted) (d : Disk)
    → ((ps : List String) → (is_regular k ≡ true → mem p ps ≡ true) → Q ps → R ps)
    → ((e : Disk) → IsComplete Q e (rest e))
    → IsComplete R d (extract_kind site k m target p rest d)
extract_kind-IsComplete Q R site directory m target p rest d k h =
    make_dir-IsComplete R site target (rest d) d
      (weaken Q R d (rest d) (λ ps q. k ps (λ file. absurd (cc (file))) q) (h d))
extract_kind-IsComplete Q R site regular m target p rest d k h =
    write_member-IsComplete Q R site m.reading "TarError" p rest d
      (λ ps there q. k ps (λ file. there) q) h
extract_kind-IsComplete Q R site _ m target p rest d k h = tt

extract_tar-IsComplete :
    (site : Site) (dest : String) (ms : List TarMember) (d : Disk)
    → IsComplete (HasTarFiles site dest ms) d (extract_tar site dest ms d)
unfolding extract_tar
extract_tar-IsComplete site dest [] d = (refl, λ p h. h, tt)
extract_tar-IsComplete site dest (m ∷ ms) d =
    let Q = HasTarFiles site dest ms in
    let R = HasTarFiles site dest (m ∷ ms) in
    unless_rejected-IsComplete R (reject_tar_member site dest m) _ d (
      make_dir-IsComplete R site _ _ d (
        extract_kind-IsComplete Q R site m.kind m _ _ (extract_tar site dest ms) d
          (λ ps there q. (there, q)) (extract_tar-IsComplete site dest ms)))

-- What an extraction that returns a result leaves.
abbrev IsStaged : (List String → Type 0) → Disk → Staged → Type 0
IsStaged Q d (ok r, after) = (after.quarantined ≡ d.quarantined) × Q after.written
IsStaged Q d (err e, after) = Unit

quarantine-IsStaged :
    (Q : List String → Type 0) (site : Site) (a : Archive) (d e : Disk)
    → IsStaged Q d (quarantine site a e)
unfolding quarantine
quarantine-IsStaged Q site a d e = on_dir site.quarantine_dir refl
  where
    on_dir : (o : Option String) → site.quarantine_dir ≡ o → IsStaged Q d (quarantine site a e)
    on_dir none p = rw (p, quarantine) tt
    on_dir (some dir) p = elim (Bool-cases (site.can_move e)) [
      | inr stuck ↦ rw (p, stuck, quarantine) tt
      | inl moved ↦ elim (Bool-cases (site.can_open (note_path dir a.name) (move a e))) [
        | inl noted ↦ rw (p, moved, noted, quarantine) tt
        | inr failed ↦ rw (p, moved, failed, quarantine) tt
      ]
    ]

staged-IsStaged :
    (Q : List String → Type 0) (site : Site) (a : Archive) (dest : String) (n : ℕ) (d : Disk)
    (r : Extracted)
    → IsComplete Q d r
    → IsStaged Q d (staged site a dest n r)
staged-IsStaged Q site a dest n d (ok u, after) h = (h.0, h.2)
staged-IsStaged Q site a dest n d (err e, after) h = elim (Bool-cases (is_intake_error e)) [
  | inl refused ↦ rw refused tt
  | inr broken_off ↦ rw broken_off (quarantine-IsStaged Q site a d after)
]

-- The files of an archive that was opened.
abbrev pub HasFiles :
    {A : Type 0} → (List A → List String → Type 0) → Opened A → List String → Type 0
HasFiles Q corrupt ps = ⊥
HasFiles Q (members ms) ps = Q ms ps

-- The files of an archive, which its name says to be a zip or a tar archive.
abbrev pub HasAllFiles : Site → Archive → String → List String → Type 0
HasAllFiles site a dest ps =
    ((lower (suffix a.name) == ".zip") ≡ true → HasFiles (HasZipFiles site dest) a.zip ps)
    × ((lower (suffix a.name) == ".zip") ≡ false → HasFiles (HasTarFiles site dest) a.tar ps)

stage_zip-IsStaged :
    (site : Site) (a : Archive) (dest : String) (o : Opened ZipMember) (d : Disk)
    → IsStaged (HasFiles (HasZipFiles site dest) o) d (stage_zip site a dest o d)
stage_zip-IsStaged site a dest corrupt d = quarantine-IsStaged _ site a d d
stage_zip-IsStaged site a dest (members ms) d =
    staged-IsStaged _ site a dest (zip_count ms) d (extract_zip site dest ms d)
      (extract_zip-IsComplete site dest ms d)

stage_tar-IsStaged :
    (site : Site) (a : Archive) (dest : String) (o : Opened TarMember) (d : Disk)
    → IsStaged (HasFiles (HasTarFiles site dest) o) d (stage_tar site a dest o d)
stage_tar-IsStaged site a dest corrupt d = quarantine-IsStaged _ site a d d
stage_tar-IsStaged site a dest (members ms) d =
    staged-IsStaged _ site a dest (tar_count ms) d (extract_tar site dest ms d)
      (extract_tar-IsComplete site dest ms d)

staged_as :
    (Q R : List String → Type 0) (d : Disk) (r : Staged)
    → ((ps : List String) → Q ps → R ps)
    → IsStaged Q d r
    → IsStaged R d r
staged_as Q R d (ok r, after) k (a, b) = (a, k after.written b)
staged_as Q R d (err e, after) k h = tt

if_staged :
    (Q : List String → Type 0) (d : Disk) (b : Bool) (x y : Staged)
    → (b ≡ true → IsStaged Q d x)
    → (b ≡ false → IsStaged Q d y)
    → IsStaged Q d (if b then x else y)
if_staged Q d true x y h k = h refl
if_staged Q d false x y h k = k refl

safe_extract-IsStaged :
    (site : Site) (a : Archive) (dest : String) (exists : Bool) (d : Disk)
    → IsStaged (HasAllFiles site a dest) d (safe_extract site a dest exists d)
unfolding safe_extract
safe_extract-IsStaged site a dest exists d =
    let Q = HasAllFiles site a dest in
    if_staged Q d (not a.is_file) _ _ (λ missing. tt)
      (λ there.
        if_staged Q d (not (is_archive a.name)) _ _ (λ other. tt)
          (λ archive.
            if_staged Q d (not exists && not (site.can_make dest d)) _ _ (λ no_dir. tt)
              (λ dir.
                if_staged Q d (lower (suffix a.name) == ".zip") _ _
                  (λ zip.
                    staged_as (HasFiles (HasZipFiles site dest) a.zip) Q d
                      (stage_zip site a dest a.zip d)
                      (λ ps files. (λ e. files, λ e. absurd (cc (zip, e))))
                      (stage_zip-IsStaged site a dest a.zip d))
                  (λ tar.
                    staged_as (HasFiles (HasTarFiles site dest) a.tar) Q d
                      (stage_tar site a dest a.tar d)
                      (λ ps files. (λ e. absurd (cc (tar, e)), λ e. files))
                      (stage_tar-IsStaged site a dest a.tar d)))))

-- An extraction that returns a result wrote the file of every member that holds one, a member of a zip
-- archive that is no directory or a regular member of a tar archive, and moved nothing to the
-- quarantine.
pub safe_extract-HasAllFiles :
    (site : Site) (a : Archive) (dest : String) (exists : Bool) (d after : Disk) (r : StagingResult)
    → safe_extract site a dest exists d ≡ (ok r, after)
    → (after.quarantined ≡ d.quarantined) × HasAllFiles site a dest after.written
safe_extract-HasAllFiles site a dest exists d after r h =
    rw h at (safe_extract-IsStaged site a dest exists d)
