-- ===== src/State/Nodes/Laws.antt =====
-- What the node state operations of the repository read back.
use tecnosor_sas_migration_d.Common.{
  String, false, Option, none, some, List, [], ◌∷◌, ◌==◌, ◌&&◌, ◌≡◌, refl, ap, ◌∙◌, arith, eq_iff,
  eq_refl, find, filter, if◌then◌else◌, Bool-cases, inl, inr,
}
use tecnosor_sas_migration_d.Common.Sorting
use tecnosor_sas_migration_d.State.Status.{Status}
use tecnosor_sas_migration_d.State.Tables.{Db, NodeRow}
use tecnosor_sas_migration_d.State.Nodes.{
  NodeUpdate, new_row, update_row, is_row, put_row, put_node, get_node_state, by_node_id,
  list_node_states,
}

-- The row that an upsert leaves for its node.
abbrev pub merged : String → String → NodeUpdate → Option NodeRow → NodeRow
merged a n u none = new_row a n u
merged a n u (some r) = update_row r u

pub merged-status :
    (a n : String) (u : NodeUpdate) (o : Option NodeRow) → (merged a n u o).status ≡ u.status
merged-status a n u none = refl
merged-status a n u (some r) = refl

pub find-put_row :
    (a n b m : String) (u : NodeUpdate) (rs : List NodeRow)
    → find (is_row b m) (put_row a n u rs) ≡ (
        if a == b && n == m
        then some (merged a n u (find (is_row a n) rs))
        else find (is_row b m) rs)
unfolding put_row
find-put_row a n b m u [] = ground arith
find-put_row a n b m u (r ∷ rs) = ground (
  arith,
  find-put_row a n b m u rs,
  eq_iff r.assessment_id a,
  eq_iff r.node_id n,
  eq_iff r.assessment_id b,
  eq_iff r.node_id m,
  eq_iff a b,
  eq_iff n m,
)

pub find-put_row_self :
    (a n : String) (u : NodeUpdate) (rs : List NodeRow)
    → find (is_row a n) (put_row a n u rs) ≡ some (merged a n u (find (is_row a n) rs))
find-put_row_self a n u rs = simp (find-put_row a n a n u rs, eq_refl)

pub find-put_row_ne :
    (a n k : String) (u : NodeUpdate) (rs : List NodeRow)
    → (n == k) ≡ false
    → find (is_row a k) (put_row a n u rs) ≡ find (is_row a k) rs
find-put_row_ne a n k u rs h = simp (find-put_row a n a k u rs, eq_refl, h)

-- the status that is read
abbrev pub row_status : Option NodeRow → Option Status
row_status none = none
row_status (some r) = some r.status

abbrev pub status_in : String → List NodeRow → String → Option Status
status_in a rs k = row_status (find (is_row a k) rs)

merged-row_status :
    (a n : String) (u : NodeUpdate) (o : Option NodeRow)
    → row_status (some (merged a n u o)) ≡ some u.status
merged-row_status a n u none = refl
merged-row_status a n u (some r) = refl

pub status-put_row :
    (a n k : String) (u : NodeUpdate) (rs : List NodeRow)
    → status_in a (put_row a n u rs) k ≡ (if n == k then some u.status else status_in a rs k)
status-put_row a n k u rs = elim (Bool-cases (n == k)) [
  | inl same ↦
      let e : n ≡ k = (eq_iff n k).0 same in
      rw same (
        rw (← e) (
          ap row_status (find-put_row_self a n u rs)
          ∙ merged-row_status a n u (find (is_row a n) rs)))
  | inr other ↦ rw other (ap row_status (find-put_row_ne a n k u rs other))
]

-- After an upsert, the written node reads its merged row and every other node reads as before.
pub get_node_state-put_node :
    (a n b m : String) (u : NodeUpdate) (db : Db)
    → get_node_state (put_node a n u db) b m ≡ (
        if a == b && n == m
        then some (merged a n u (get_node_state db a n))
        else get_node_state db b m)
unfolding get_node_state put_node
get_node_state-put_node a n b m u db = find-put_row a n b m u db.node_states

pub get_node_state-put_node_self :
    (a n : String) (u : NodeUpdate) (db : Db)
    → get_node_state (put_node a n u db) a n ≡ some (merged a n u (get_node_state db a n))
get_node_state-put_node_self a n u db = simp (get_node_state-put_node a n a n u db, eq_refl)

find-filter :
    (a k : String) (rs : List NodeRow)
    → find (λ r. r.node_id == k) (filter (λ r. r.assessment_id == a) rs) ≡ find (is_row a k) rs
find-filter a k [] = refl
find-filter a k (r ∷ rs) = ground (arith, find-filter a k rs)

-- Reading a node from the listing of its assessment is `get_node_state`.
pub find-list_node_states :
    (db : Db) (a k : String)
    → find (λ r. r.node_id == k) (list_node_states db a) ≡ get_node_state db a k
unfolding list_node_states get_node_state
find-list_node_states db a k = rw (← find-filter a k db.node_states) (
    Sorting.find-sort by_node_id (λ r. r.node_id == k)
      (λ x y h p. ground (arith, eq_iff x.node_id k, eq_iff y.node_id k, eq_refl k))
      (filter (λ r. r.assessment_id == a) db.node_states))
