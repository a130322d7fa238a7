-- ===== src/State/Checkpoints/Laws.antt =====
-- sassessment/state/checkpoints.py: a fresh checkpoint verifies, and what `restore` brings back.
use tecnosor_sas_migration_d.Common.{
  String, Bool, true, false, Option, none, some, List, [], ◌∷◌, ◌==◌, ◌≡◌, map, filter, get, All,
  All-append, Bool-cases, inl, inr, refl, ◌∙◌, eq_iff, eq_refl,
}
use tecnosor_sas_migration_d.Common.Sorting.{All-sort}
use tecnosor_sas_migration_d.Common.Texts.{append, starts_with}
use tecnosor_sas_migration_d.State.Checkpoints.{
  Files, Member, Tools, protected_members, put_file, is_below, checkpoint_dir, in_dir, is_kept_file,
  paths_below, add_member, members_at, members_of,
}
use tecnosor_sas_migration_d.State.Checkpoints.Restore.{members_problems}

pub get-put_file : (p c : String) (fs : Files) → get p (put_file p c fs) ≡ some c
get-put_file p c [] = rw (eq_refl p) refl
get-put_file p c ((q, d) ∷ fs) = elim (Bool-cases (q == p)) [
  | inl same ↦ rw (same, same) refl
  | inr other ↦ rw (other, other) (get-put_file p c fs)
]

pub get-put_other :
    (w p c : String) (fs : Files) → (w == p) ≡ false → get p (put_file w c fs) ≡ get p fs
get-put_other w p c [] h = rw h refl
get-put_other w p c ((q, d) ∷ fs) h = elim (Bool-cases (q == w)) [
  | inl same ↦ rw (same, (eq_iff q w).0 same, h) refl
  | inr other ↦ rw other (elim (Bool-cases (q == p)) [
    | inl here ↦ rw here refl
    | inr there ↦ rw there (get-put_other w p c fs h)
  ])
]

-- A directory below which no checkpoint is written.
abbrev pub IsApart : String → Type 0
IsApart rel = (id name : String) → is_below rel (in_dir (checkpoint_dir id) name) ≡ false

pub protected-IsApart : All IsApart protected_members
unfolding is_below in_dir checkpoint_dir append starts_with
protected-IsApart = (
  λ i n. refl,
  (
    λ i n. refl,
    (λ i n. refl, (λ i n. refl, (λ i n. refl, (λ i n. refl, (λ i n. refl, (λ i n. refl, tt)))))),
  ),
)

-- a path that no checkpoint writes
abbrev pub IsForeign : String → Type 0
IsForeign p = (id name : String) → (in_dir (checkpoint_dir id) name == p) ≡ false

below-IsForeign : (rel p : String) → IsApart rel → is_below rel p ≡ true → IsForeign p
below-IsForeign rel p h b id name = elim (Bool-cases (in_dir (checkpoint_dir id) name == p)) [
  | inl same ↦
      absurd (cc (rw ((eq_iff (in_dir (checkpoint_dir id) name) p).0 same) at (h id name), b))
  | inr other ↦ other
]

-- The file of a member is there with the hash of the member, and no checkpoint writes it.
pub record IsIntact (t : Tools) (fs : Files) (m : Member) : Type 0 where
  pub content : String
  pub found : get m.path fs ≡ some content
  pub same_hash : t.sha256 content ≡ m.sha256
  pub outside : IsForeign m.path

pub All-filter : (p : String → Bool) (xs : List String) → All (λ x. p x ≡ true) (filter p xs)
All-filter p [] = tt
All-filter p (x ∷ xs) = elim (Bool-cases (p x)) [
  | inl holds ↦ rw holds (holds, All-filter p xs)
  | inr fails ↦ rw fails (All-filter p xs)
]

add_member-IsIntact :
    (t : Tools) (fs : Files) (p : String) (o : Option String) (ms : List Member)
    → get p fs ≡ o
    → IsForeign p
    → All (IsIntact t fs) ms
    → All (IsIntact t fs) (add_member t p o ms)
add_member-IsIntact t fs p none ms e h k = k
add_member-IsIntact t fs p (some c) ms e h k = elim (Bool-cases (is_kept_file p)) [
  | inl kept ↦ rw kept (record { content = c; found = e; same_hash = refl; outside = h }, k)
  | inr marker ↦ rw marker k
]

members_at-IsIntact :
    (t : Tools) (fs : Files) (rel : String) (ps : List String)
    → IsApart rel
    → All (λ p. is_below rel p ≡ true) ps
    → All (IsIntact t fs) (members_at t fs ps)
unfolding members_at
members_at-IsIntact t fs rel [] h k = tt
members_at-IsIntact t fs rel (p ∷ ps) h k =
    add_member-IsIntact t fs p (get p fs) (members_at t fs ps) refl (below-IsForeign rel p h k.0)
      (members_at-IsIntact t fs rel ps h k.1)

pub members_of-IsIntact :
    (t : Tools) (fs : Files) (rels : List String)
    → All IsApart rels
    → All (IsIntact t fs) (members_of t fs rels)
unfolding members_of paths_below
members_of-IsIntact t fs [] h = tt
members_of-IsIntact t fs (rel ∷ rels) h =
    All-append (IsIntact t fs) (members_at t fs (paths_below t rel fs)) (members_of t fs rels)
      (members_at-IsIntact t fs rel (paths_below t rel fs) h.0 (
        All-sort t.before (λ p. is_below rel p ≡ true) (filter (is_below rel) (map (λ f. f.0) fs))
          (All-filter (is_below rel) (map (λ f. f.0) fs))))
      (members_of-IsIntact t fs rels h.1)

-- A file of a checkpoint breaks no member.
pub put-IsIntact :
    (t : Tools) (id name c : String) (fs : Files) (ms : List Member)
    → All (IsIntact t fs) ms
    → All (IsIntact t (put_file (in_dir (checkpoint_dir id) name) c fs)) ms
put-IsIntact t id name c fs [] h = tt
put-IsIntact t id name c fs (m ∷ ms) h = (
  record {
    content = h.0.content;
    found =
        get-put_other (in_dir (checkpoint_dir id) name) m.path c fs (h.0.outside id name)
        ∙ h.0.found;
    same_hash = h.0.same_hash;
    outside = h.0.outside;
  },
  put-IsIntact t id name c fs ms h.1,
)

pub intact_problems :
    (t : Tools) (fs : Files) (ms : List Member)
    → All (IsIntact t fs) ms
    → members_problems t fs ms ≡ []
unfolding members_problems
intact_problems t fs [] h = refl
intact_problems t fs (m ∷ ms) h =
    rw (h.0.found, h.0.same_hash, eq_refl m.sha256) (intact_problems t fs ms h.1)
