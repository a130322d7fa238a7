-- ===== src/State/Ledger/Laws.antt =====
-- What closing a session does to the sessions that are read.
use tecnosor_sas_migration_d.Common.{
  String, Bool, false, Option, none, some, List, [], ◌∷◌, ◌==◌, ◌&&◌, ◌≡◌, refl, ap, ◌∙◌,
  Bool-cases, inl, inr, eq_iff, find, map, if◌then◌else◌,
}
use tecnosor_sas_migration_d.State.Ledger.{Session, Ledger, close_row, close_session, get_session}

-- the row that is read after a session was closed
abbrev pub closed_read : Bool → Option Session → Option Session
closed_read same none = none
closed_read same (some s) = if same then some (record s { is_open = false }) else some s

closed_row :
    (id : String) (s : Session)
    → close_row id s ≡ (if s.id == id then record s { is_open = false } else s)
closed_row id s = elim (Bool-cases (s.id == id)) [
  | inl same ↦ elim (Bool-cases s.is_open) [
    | inl opened ↦ rw (same, opened) refl
    | inr shut ↦ rw (same, shut) refl
  ]
  | inr other ↦ rw other refl
]

close-id : (id : String) (s : Session) → (close_row id s).id ≡ s.id
close-id id s = elim (Bool-cases (s.id == id && s.is_open)) [
  | inl hit ↦ rw hit refl
  | inr miss ↦ rw miss refl
]

closed_here :
    (id k : String) (s : Session)
    → s.id ≡ k
    → some (close_row id s) ≡ closed_read (k == id) (some s)
closed_here id k s p = rw (← p) (elim (Bool-cases (s.id == id)) [
  | inl same ↦ ap some (closed_row id s) ∙ rw same refl
  | inr other ↦ ap some (closed_row id s) ∙ rw other refl
])

find-close :
    (id k : String) (ss : List Session)
    → find (λ s. s.id == k) (map (close_row id) ss)
      ≡ closed_read (k == id) (find (λ s. s.id == k) ss)
find-close id k [] = refl
find-close id k (s ∷ ss) = elim (Bool-cases (s.id == k)) [
  | inl here ↦ rw (close-id id s, here) (closed_here id k s ((eq_iff s.id k).0 here))
  | inr other ↦ rw (close-id id s, other) (find-close id k ss)
]

-- After a session was closed it reads closed, if it was there, and every other session reads as before.
pub get_session-close_session :
    (id k : String) (l : Ledger)
    → get_session (close_session id l) k ≡ closed_read (k == id) (get_session l k)
unfolding get_session close_session
get_session-close_session id k l = find-close id k l.sessions
