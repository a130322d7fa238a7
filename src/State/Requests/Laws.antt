-- ===== src/State/Requests/Laws.antt =====
-- Human requests of state/repository.py: at most one is open for the same missing information, and one
-- is resolved at most once.
use tecnosor_sas_migration_d.Common.{
  String, Bool, true, false, Option, List, [], ◌∷◌, ◌++◌, ◌==◌, ◌||◌, ◌≡◌, refl, ◌∙◌, map, any,
  find, arith, eq_iff, Bool-cases, inl, inr,
}
use tecnosor_sas_migration_d.State.Requests.{
  is_open, is_open_for, is_insertable, create_request, get_request, resolve_row, is_open_row,
  resolve_request,
}
use tecnosor_sas_migration_d.State.Snapshot.{map_option}
use tecnosor_sas_migration_d.State.Tables.{Db, Request, RequestStatus}

-- The partial unique index on (assessment, node, missing information) of the OPEN requests.
abbrev pub IsUniqueOpen : List Request → Type 0
IsUniqueOpen [] = Unit
IsUniqueOpen (r ∷ rs) =
    (is_open r.status ≡ true
      → any (is_open_for r.assessment_id r.node_id r.missing_info) rs ≡ false)
    × IsUniqueOpen rs

any-append :
    (p : Request → Bool) (rs : List Request) (x : Request)
    → any p (rs ++ x ∷ []) ≡ (any p rs || p x)
any-append p [] x = ground arith
any-append p (r ∷ rs) x = ground (arith, any-append p rs x)

open_for_symm :
    (r x : Request)
    → is_open r.status ≡ true
    → is_open_for x.assessment_id x.node_id x.missing_info r ≡ false
    → is_open_for r.assessment_id r.node_id r.missing_info x ≡ false
open_for_symm r x opened h = ground (
  arith,
  eq_iff r.assessment_id x.assessment_id,
  eq_iff x.assessment_id r.assessment_id,
  eq_iff r.node_id x.node_id,
  eq_iff x.node_id r.node_id,
  eq_iff r.missing_info x.missing_info,
  eq_iff x.missing_info r.missing_info,
)

append-IsUniqueOpen :
    (rs : List Request) (x : Request)
    → any (is_open_for x.assessment_id x.node_id x.missing_info) rs ≡ false
    → IsUniqueOpen rs
    → IsUniqueOpen (rs ++ x ∷ [])
append-IsUniqueOpen [] x h u = (λ _. refl, tt)
append-IsUniqueOpen (r ∷ rs) x h u = (
  λ opened.
      any-append (is_open_for r.assessment_id r.node_id r.missing_info) rs x
      ∙ ground (arith, u.0 opened, open_for_symm r x opened),
  append-IsUniqueOpen rs x (ground arith) u.1,
)

resolved_row_open :
    (k a n m : String) (st : RequestStatus) (b : Option String) (r : Request)
    → is_open st ≡ false
    → is_open_for a n m r ≡ false
    → is_open_for a n m (resolve_row k st b r) ≡ false
resolved_row_open k a n m st b r closed h = ground arith

any-map-false {ℓ} :
    {A : Type ℓ} (p : A → Bool) (f : A → A)
    → ((x : A) → p x ≡ false → p (f x) ≡ false)
    → (xs : List A) → any p xs ≡ false
    → any p (map f xs) ≡ false
any-map-false p f keep [] h = refl
any-map-false p f keep (x ∷ xs) h = ground (arith, keep x, any-map-false p f keep xs)

any-resolve :
    (k a n m : String) (st : RequestStatus) (b : Option String) (rs : List Request)
    → is_open st ≡ false
    → any (is_open_for a n m) rs ≡ false
    → any (is_open_for a n m) (map (resolve_row k st b) rs) ≡ false
any-resolve k a n m st b rs closed =
    any-map-false (is_open_for a n m) (resolve_row k st b)
      (λ r. resolved_row_open k a n m st b r closed) rs

resolve-IsUniqueOpen :
    (k : String) (st : RequestStatus) (b : Option String) (rs : List Request)
    → is_open st ≡ false
    → IsUniqueOpen rs
    → IsUniqueOpen (map (resolve_row k st b) rs)
resolve-IsUniqueOpen k st b [] closed u = tt
resolve-IsUniqueOpen k st b (r ∷ rs) closed u = elim (Bool-cases (r.id == k)) [
  | inl same ↦
      rw same (λ opened. absurd (cc (opened, closed)), resolve-IsUniqueOpen k st b rs closed u.1)
  | inr other ↦ rw other (
    λ opened. any-resolve k _ _ _ st b rs closed (u.0 opened),
    resolve-IsUniqueOpen k st b rs closed u.1,
  )
]

-- Creating a request, whether it is new or a repetition, keeps at most one open request for each
-- assessment, node and missing information.
pub create_request-IsUniqueOpen :
    (r : Request) (db : Db)
    → IsUniqueOpen db.requests
    → IsUniqueOpen (create_request r db).1.requests
unfolding create_request
create_request-IsUniqueOpen r db u =
    elim (Bool-cases (any (is_open_for r.assessment_id r.node_id r.missing_info) db.requests)) [
      | inl there ↦ rw (there, create_request) u
      | inr fresh ↦ elim (Bool-cases (is_insertable r db)) [
        | inl free ↦ rw (fresh, free, create_request) (append-IsUniqueOpen db.requests _ fresh u)
        | inr taken ↦ rw (fresh, taken, create_request) u
      ]
    ]

-- So does resolving one, to any status but OPEN.
pub resolve_request-IsUniqueOpen :
    (k : String) (st : RequestStatus) (b : Option String) (db : Db)
    → is_open st ≡ false
    → IsUniqueOpen db.requests
    → IsUniqueOpen (resolve_request k st b db).1.requests
unfolding resolve_request
resolve_request-IsUniqueOpen k st b db closed u =
    elim (Bool-cases (is_open_row (get_request db k))) [
      | inl opened ↦ rw (opened, resolve_request) (resolve-IsUniqueOpen k st b db.requests closed u)
      | inr shut ↦ rw (shut, resolve_request) u
    ]

pub find-resolve :
    (k j : String) (st : RequestStatus) (b : Option String) (rs : List Request)
    → find (λ r. r.id == j) (map (resolve_row k st b) rs)
      ≡ map_option (resolve_row k st b) (find (λ r. r.id == j) rs)
find-resolve k j st b [] = refl
find-resolve k j st b (r ∷ rs) = ground (arith, find-resolve k j st b rs)

-- A request that is resolved reads back with the new status and batch; every other one is unchanged.
pub get_request-resolve :
    (k j : String) (st : RequestStatus) (b : Option String) (db : Db)
    → is_open_row (get_request db k) ≡ true
    → get_request (resolve_request k st b db).1 j
      ≡ map_option (resolve_row k st b) (get_request db j)
unfolding resolve_request get_request
get_request-resolve k j st b db opened =
    rw (opened, resolve_request) (find-resolve k j st b db.requests)
