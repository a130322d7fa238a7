-- ===== src/Intake/Staging/Laws.antt =====
-- sassessment/intake/staging.py: where files are written, and what is moved to the quarantine.
use tecnosor_sas_migration_d.Common.{
  ℕ, String, Bool, true, false, Option, none, some, List, [], ◌∷◌, ◌==◌, ◌≡◌, refl, Bool-cases, inl,
  inr, All, if◌then◌else◌, ◌&&◌, not, ◌⊎◌,
}
use tecnosor_sas_migration_d.Common.Texts.{lower}
use tecnosor_sas_migration_d.Errors.{Error, ok, err}
use tecnosor_sas_migration_d.Intake.Media.{suffix}
use tecnosor_sas_migration_d.Intake.Staging.{
  ZipMember, Reading, whole, broken, unopened, Site, make_dir, move, note_path, TarKind, regular,
  directory, TarMember, Opened, corrupt, members, Archive, Disk, Extracted, is_archive, is_absolute,
  climbs, reject_zip_member, below, is_inside, reject_escape, write, write_member, unless_rejected,
  extract_zip, reject_tar_member, extract_kind, extract_tar, is_intake_error, quarantine, staged,
  stage_zip, stage_tar, safe_extract, zip_count, tar_count,
}

-- every file that was written lies below the destination
abbrev pub AllInside : String → Disk → Type 0
AllInside dest d = All (λ p. is_inside dest p ≡ true) d.written

make_dir-AllInside :
    (dest : String) (site : Site) (dir : String) (more : Extracted) (d : Disk)
    → AllInside dest d
    → AllInside dest more.1
    → AllInside dest (make_dir site dir more d).1
make_dir-AllInside dest site dir more d w k = elim (Bool-cases (site.can_make dir d)) [
  | inl made ↦ rw made k
  | inr failed ↦ rw failed w
]

write_member-AllInside :
    (dest : String) (site : Site) (reading : Reading) (failure p : String) (rest : Disk → Extracted)
    (d : Disk)
    → is_inside dest p ≡ true
    → ((d : Disk) → AllInside dest d → AllInside dest (rest d).1)
    → AllInside dest d
    → AllInside dest (write_member site reading failure p rest d).1
write_member-AllInside dest site unopened failure p rest d h k w = w
write_member-AllInside dest site broken failure p rest d h k w =
    elim (Bool-cases (site.can_open p d)) [ inl there ↦ rw there (h, w) | inr failed ↦ rw failed w ]
write_member-AllInside dest site whole failure p rest d h k w =
    elim (Bool-cases (site.can_open p d)) [
      | inl there ↦ rw there (k (write p d) (h, w))
      | inr failed ↦ rw failed w
    ]

escape_none : (dest p : String) → reject_escape dest p ≡ none → is_inside dest p ≡ true
unfolding reject_escape
escape_none dest p h = elim (Bool-cases (is_inside dest p)) [
  | inl inside ↦ inside
  | inr outside ↦ absurd (cc (rw outside at h))
]

unless_rejected-AllInside :
    (dest : String) (o : Option Error) (more : Extracted) (d : Disk)
    → AllInside dest d
    → (o ≡ none → AllInside dest more.1)
    → AllInside dest (unless_rejected o more d).1
unless_rejected-AllInside dest none more d w k = k refl
unless_rejected-AllInside dest (some e) more d w k = w

dir_or_write :
    (dest : String) (is_dir : Bool) (more other : Extracted)
    → AllInside dest more.1
    → AllInside dest other.1
    → AllInside dest (if is_dir then more else other).1
dir_or_write dest true more other h k = h
dir_or_write dest false more other h k = k

extract_zip-AllInside :
    (site : Site) (dest : String) (ms : List ZipMember) (d : Disk)
    → AllInside dest d
    → AllInside dest (extract_zip site dest ms d).1
unfolding extract_zip
extract_zip-AllInside site dest [] d w = w
extract_zip-AllInside site dest (m ∷ ms) d w =
    let rest = extract_zip-AllInside site dest ms in
    unless_rejected-AllInside dest (reject_zip_member m) _ d w (λ accepted.
      unless_rejected-AllInside dest (reject_escape dest (site.resolve (below dest m.filename))) _ d
        w
        (λ inside.
          dir_or_write dest m.is_dir _ _
            (make_dir-AllInside dest site _ (extract_zip site dest ms d) d w (rest d w))
            (make_dir-AllInside dest site _ _ d w (
              write_member-AllInside dest site m.reading "BadZipFile" _ (extract_zip site dest ms) d
                (escape_none dest _ inside) rest w))))

-- Below the destination no link leads out of it: a name that is neither absolute nor climbs leads to a
-- place inside.
abbrev pub IsLinkFree : (String → String) → String → Type 0
IsLinkFree resolve dest =
    (name : String)
    → is_absolute name ≡ false
    → climbs name ≡ false
    → is_inside dest (resolve (below dest name)) ≡ true

tar_none :
    (site : Site) (dest : String) (m : TarMember)
    → reject_tar_member site dest m ≡ none
    → (is_absolute m.name ≡ false) × (climbs m.name ≡ false)
unfolding reject_tar_member
tar_none site dest m h = elim (Bool-cases (is_absolute m.name)) [
  | inl absolute ↦ absurd (cc (rw absolute at h))
  | inr relative ↦ elim (Bool-cases (climbs m.name)) [
    | inl up ↦ absurd (cc (rw (relative, up) at h))
    | inr down ↦ (relative, down)
  ]
]

extract_kind-AllInside :
    (site : Site) (dest target p : String) (k : TarKind) (m : TarMember) (rest : Disk → Extracted)
    (d : Disk)
    → is_inside dest p ≡ true
    → ((d : Disk) → AllInside dest d → AllInside dest (rest d).1)
    → AllInside dest d
    → AllInside dest (extract_kind site k m target p rest d).1
extract_kind-AllInside site dest target p directory m rest d h k w =
    make_dir-AllInside dest site target (rest d) d w (k d w)
extract_kind-AllInside site dest target p regular m rest d h k w =
    write_member-AllInside dest site m.reading "TarError" p rest d h k w
extract_kind-AllInside site dest target p _ m rest d h k w = w

extract_tar-AllInside :
    (site : Site) (dest : String) (ms : List TarMember) (d : Disk)
    → IsLinkFree site.resolve dest
    → AllInside dest d
    → AllInside dest (extract_tar site dest ms d).1
unfolding extract_tar
extract_tar-AllInside site dest [] d free w = w
extract_tar-AllInside site dest (m ∷ ms) d free w =
    unless_rejected-AllInside dest (reject_tar_member site dest m) _ d w (λ accepted.
      let (relative, down) = tar_none site dest m accepted in
      make_dir-AllInside dest site _ _ d w (
        extract_kind-AllInside site dest _ _ m.kind m (extract_tar site dest ms) d
          (free m.name relative down) (λ e v. extract_tar-AllInside site dest ms e free v) w))

abbrev pub note_of : Option String → String → Option String
note_of none name = none
note_of (some dir) name = some (note_path dir name)

-- the note of the quarantine, where there is one
abbrev pub IsNote : Option String → String → String → Type 0
IsNote dir name p = note_of dir name ≡ some p

-- Every file that was written lies below the destination, or is the note of the quarantine.
abbrev pub AllPlaced : Option String → String → String → Disk → Type 0
AllPlaced dir name dest d = All (λ p. (is_inside dest p ≡ true) ⊎ IsNote dir name p) d.written

placed :
    (dir : Option String) (name dest : String) (ps : List String)
    → All (λ p. is_inside dest p ≡ true) ps
    → All (λ p. (is_inside dest p ≡ true) ⊎ IsNote dir name p) ps
placed dir name dest [] h = tt
placed dir name dest (p ∷ ps) h = (inl (h.0), placed dir name dest ps h.1)

quarantine-AllPlaced :
    (site : Site) (a : Archive) (dest : String) (d : Disk)
    → AllInside dest d
    → AllPlaced site.quarantine_dir a.name dest (quarantine site a d).1
unfolding quarantine
quarantine-AllPlaced site a dest d w = on_dir site.quarantine_dir refl
  where
    on_dir :
        (o : Option String)
        → site.quarantine_dir ≡ o
        → AllPlaced site.quarantine_dir a.name dest (quarantine site a d).1
    on_dir none p = rw (p, quarantine) (placed none a.name dest d.written w)
    on_dir (some dir) p = elim (Bool-cases (site.can_move d)) [
      | inr stuck ↦ rw (p, stuck, quarantine) (placed (some dir) a.name dest d.written w)
      | inl moved ↦ elim (Bool-cases (site.can_open (note_path dir a.name) (move a d))) [
        | inl noted ↦
            rw (p, moved, noted, quarantine) (inr refl, placed (some dir) a.name dest d.written w)
        | inr failed ↦ rw (p, moved, failed, quarantine) (placed (some dir) a.name dest d.written w)
      ]
    ]

staged-AllPlaced :
    (site : Site) (a : Archive) (dest : String) (n : ℕ) (r : Extracted)
    → AllInside dest r.1
    → AllPlaced site.quarantine_dir a.name dest (staged site a dest n r).1
staged-AllPlaced site a dest n (ok u, d) w = placed _ a.name dest d.written w
staged-AllPlaced site a dest n (err e, d) w = elim (Bool-cases (is_intake_error e)) [
  | inl refused ↦ rw refused (placed _ a.name dest d.written w)
  | inr broken_off ↦ rw broken_off (quarantine-AllPlaced site a dest d w)
]

stage_zip-AllPlaced :
    (site : Site) (a : Archive) (dest : String) (o : Opened ZipMember) (d : Disk)
    → AllInside dest d
    → AllPlaced site.quarantine_dir a.name dest (stage_zip site a dest o d).1
stage_zip-AllPlaced site a dest corrupt d w = quarantine-AllPlaced site a dest d w
stage_zip-AllPlaced site a dest (members ms) d w =
    staged-AllPlaced site a dest (zip_count ms) (extract_zip site dest ms d)
      (extract_zip-AllInside site dest ms d w)

stage_tar-AllPlaced :
    (site : Site) (a : Archive) (dest : String) (o : Opened TarMember) (d : Disk)
    → IsLinkFree site.resolve dest
    → AllInside dest d
    → AllPlaced site.quarantine_dir a.name dest (stage_tar site a dest o d).1
stage_tar-AllPlaced site a dest corrupt d free w = quarantine-AllPlaced site a dest d w
stage_tar-AllPlaced site a dest (members ms) d free w =
    staged-AllPlaced site a dest (tar_count ms) (extract_tar site dest ms d)
      (extract_tar-AllInside site dest ms d free w)

-- Every file that is written lies below the destination, but for the note beside an archive that was moved
-- to the quarantine, also where the extraction fails; for a tar archive this holds where no link below
-- the destination leads out of it.
pub safe_extract-AllPlaced :
    (site : Site) (a : Archive) (dest : String) (exists : Bool) (d : Disk)
    → ((lower (suffix a.name) == ".zip") ≡ false → IsLinkFree site.resolve dest)
    → AllInside dest d
    → AllPlaced site.quarantine_dir a.name dest (safe_extract site a dest exists d).1
unfolding safe_extract quarantine
safe_extract-AllPlaced site a dest exists d free w = elim (Bool-cases a.is_file) [
  | inr missing ↦ rw missing (placed _ a.name dest d.written w)
  | inl there ↦ elim (Bool-cases (is_archive a.name)) [
    | inr other ↦ rw (there, other) (placed _ a.name dest d.written w)
    | inl archive ↦ elim (Bool-cases (not exists && not (site.can_make dest d))) [
      | inl no_dir ↦ rw (there, archive, no_dir) (placed _ a.name dest d.written w)
      | inr dir ↦ elim (Bool-cases (lower (suffix a.name) == ".zip")) [
        | inl zip ↦ rw (there, archive, dir, zip) (stage_zip-AllPlaced site a dest a.zip d w)
        | inr tar ↦
            rw (there, archive, dir, tar) (stage_tar-AllPlaced site a dest a.tar d (free tar) w)
      ]
    ]
  ]
]
