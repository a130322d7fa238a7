-- ===== src/State/Checkpoints/RoundTrip.antt =====
-- sassessment/state/checkpoints.py: what `verify` and `restore` answer on a checkpoint that `create`
-- wrote, also after files were changed.
use tecnosor_sas_migration_d.Common.{
  String, true, false, none, some, List, [], ◌∷◌, ◌++◌, ◌==◌, ◌≡◌, arith, find, get, All,
  Bool-cases, inl, inr, refl, ap, ◌∙◌, eq_iff, eq_refl,
}
use tecnosor_sas_migration_d.Common.Texts.{append, contains, starts_with}
use tecnosor_sas_migration_d.Errors.{Result, ok, err}
use tecnosor_sas_migration_d.State.Checkpoints.{
  Tools, Site, protected_members, put_file, checkpoint_dir, in_dir, snapshot_path, manifest_path,
  manifest_of, checkpoint_row, members_of, write_checkpoint, has_assessment, dir_exists, drawn_site,
  create, parent,
}
use tecnosor_sas_migration_d.State.Checkpoints.Laws.{
  get-put_file, get-put_other, members_of-IsIntact, put-IsIntact, intact_problems,
  protected-IsApart, IsIntact,
}
use tecnosor_sas_migration_d.State.Checkpoints.Restore.{verify}
use tecnosor_sas_migration_d.State.Ledger.{CheckpointRow, get_checkpoint, create_checkpoint_record}

contains_slash : (s name : String) → contains "/" (append s (append "/" name)) ≡ true
unfolding contains append starts_with
contains_slash String.[] name = refl
contains_slash (String.◌∷◌ c s) name = ground (arith, contains_slash s name)

pub parent-in_dir : (s name : String) → contains "/" name ≡ false → parent (in_dir s name) ≡ s
unfolding parent in_dir append
parent-in_dir String.[] name h = rw h refl
parent-in_dir (String.◌∷◌ c s) name h = rw (contains_slash s name, parent-in_dir s name h) refl

find_last :
    (id : String) (r : CheckpointRow) (rs : List CheckpointRow)
    → find (λ c. c.id == id) rs ≡ none
    → r.id ≡ id
    → find (λ c. c.id == id) (rs ++ r ∷ []) ≡ some r
find_last id r [] h e = rw (e, eq_refl id) refl
find_last id r (c ∷ rs) h e = elim (Bool-cases (c.id == id)) [
  | inl same ↦ absurd (cc (rw same at h))
  | inr other ↦ rw other (find_last id r rs (rw other at h) e)
]

-- What the row of a checkpoint, its manifest and its snapshot are, once it was written from `s`.
pub record Written (t : Tools) (a label : String) (s : Site) (id : String) (after : Site)
    : Type 0 where
  pub row_found :
      get_checkpoint after.live.ledger id
      ≡ some (checkpoint_row t id a label (t.dump_manifest (manifest_of t id a label s)))
  pub manifest_found :
      get (manifest_path id) after.files ≡ some (t.dump_manifest (manifest_of t id a label s))
  pub snapshot_found : get (snapshot_path id) after.files ≡ some (t.backup s.live)
  pub intact : All (IsIntact t after.files) (members_of t s.files protected_members)

tail : String → String
tail String.[] = String.[]
tail (String.◌∷◌ c s) = s

append_cancel : (d x y : String) → append d x ≡ append d y → x ≡ y
unfolding append tail
append_cancel String.[] x y h = h
append_cancel (String.◌∷◌ c d) x y h = append_cancel d x y (ap tail h)

in_dir_apart : (d x y : String) → (x == y) ≡ false → (in_dir d x == in_dir d y) ≡ false
unfolding in_dir append
in_dir_apart d x y h = elim (Bool-cases (in_dir d x == in_dir d y)) [
  | inl same ↦ absurd (
      cc (
        append_cancel "/" x y (
            append_cancel d (append "/" x) (append "/" y)
              ((eq_iff (in_dir d x) (in_dir d y)).0 same)),
        eq_refl y,
        h,
      ))
  | inr other ↦ other
]

-- A checkpoint that was written is there as it was written.
write_checkpoint-Written :
    (t : Tools) (readme id a label : String) (s : Site)
    → get_checkpoint s.live.ledger id ≡ none
    → Written t a label s id (write_checkpoint t readme id a label s)
unfolding write_checkpoint get_checkpoint create_checkpoint_record
write_checkpoint-Written t readme id a label s h =
    let manifest = t.dump_manifest (manifest_of t id a label s) in
    let d = checkpoint_dir id in
    let one = put_file (snapshot_path id) (t.backup s.live) s.files in
    let two = put_file (manifest_path id) manifest one in
    record {
      row_found =
          find_last id (checkpoint_row t id a label manifest) s.live.ledger.checkpoints h refl;
      manifest_found =
          get-put_other (in_dir d "README.md") (manifest_path id) readme two
            (in_dir_apart d "README.md" "manifest.yaml" refl)
          ∙ get-put_file (manifest_path id) manifest one;
      snapshot_found =
          get-put_other (in_dir d "README.md") (snapshot_path id) readme two
            (in_dir_apart d "README.md" "state.db" refl)
          ∙ get-put_other (manifest_path id) (snapshot_path id) manifest one
              (in_dir_apart d "manifest.yaml" "state.db" refl)
          ∙ get-put_file (snapshot_path id) (t.backup s.live) s.files;
      intact = put-IsIntact t id "README.md" readme two (members_of t s.files protected_members) (
          put-IsIntact t id "manifest.yaml" manifest one (members_of t s.files protected_members) (
            put-IsIntact t id "state.db" (t.backup s.live) s.files
              (members_of t s.files protected_members)
              (members_of-IsIntact t s.files protected_members protected-IsApart)));
    }

-- YAML reads the manifest of the checkpoint back as it was written.
abbrev pub IsReadBack : Tools → String → String → String → Site → Type 0
IsReadBack t id a label s =
    t.load_manifest (t.dump_manifest (manifest_of t id a label s)) ≡ manifest_of t id a label s

pub Written-verify :
    (t : Tools) (a label id : String) (s after : Site)
    → IsReadBack t id a label s
    → Written t a label s id after
    → verify t id after ≡ ok []
unfolding verify contains
Written-verify t a label id s after yaml w =
    rw
      (
        w.row_found,
        w.manifest_found,
        eq_refl (t.sha256 (t.dump_manifest (manifest_of t id a label s))),
        yaml,
        parent-in_dir (checkpoint_dir id) "manifest.yaml" refl,
        w.snapshot_found,
        eq_refl (t.sha256 (t.backup s.live)),
      )
      (ap ok (intact_problems t after.files (members_of t s.files protected_members) w.intact))

-- a checkpoint that `create` answered
abbrev pub IsWritten : Tools → String → String → Site → Result String × Site → Type 0
IsWritten t a label s (ok id, after) = Written t a label (drawn_site s) id after
IsWritten t a label s (err x, after) = Unit

pub create-IsWritten :
    (t : Tools) (readme a label : String) (s : Site)
    → get_checkpoint s.live.ledger (t.fresh s.live.db.minted) ≡ none
    → IsWritten t a label s (create t readme a label s)
unfolding create
create-IsWritten t readme a label s h = elim (Bool-cases (has_assessment a s)) [
  | inl known ↦ elim (Bool-cases (dir_exists (checkpoint_dir (t.fresh s.live.db.minted)) s)) [
    | inl there ↦ rw (known, there) tt
    | inr free ↦
        rw (known, free)
          (write_checkpoint-Written t readme (t.fresh s.live.db.minted) a label (drawn_site s) h)
  ]
  | inr unknown ↦ rw unknown tt
]

-- Where YAML reads the manifest back as it was written and the identifier drawn has no row: the checkpoint that `create`
-- answers verifies without a problem.
pub verify-create :
    (t : Tools) (readme a label id : String) (s after : Site)
    → IsReadBack t id a label (drawn_site s)
    → get_checkpoint s.live.ledger (t.fresh s.live.db.minted) ≡ none
    → create t readme a label s ≡ (ok id, after)
    → verify t id after ≡ ok []
verify-create t readme a label id s after yaml h e =
    Written-verify t a label id (drawn_site s) after yaml
      (rw e at (create-IsWritten t readme a label s h))
