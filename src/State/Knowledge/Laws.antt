-- ===== src/State/Knowledge/Laws.antt =====
-- What the operations on sources, findings and lineage keep.
use tecnosor_sas_migration_d.Common.{
  String, Bool, false, List, [], ◌∷◌, ◌++◌, ◌==◌, ◌||◌, ◌≡◌, refl, arith, eq_iff, any, map,
  Bool-cases, inl, inr,
}
use tecnosor_sas_migration_d.State.Knowledge.{
  Finding, DataObject, LineageEdge, Knowledge, is_active_finding, supersede_row, basis_row,
  supersede_finding, normalized, same_object, upsert_data_object, same_edge,
}

-- At most one object for each assessment, type and normalized name.
abbrev pub IsUniqueObjects : List DataObject → Type 0
IsUniqueObjects [] = Unit
IsUniqueObjects (o ∷ os) = (any (same_object o) os ≡ false) × IsUniqueObjects os

-- At most one edge for each assessment, source, target and relationship.
abbrev pub IsUniqueEdges : List LineageEdge → Type 0
IsUniqueEdges [] = Unit
IsUniqueEdges (e ∷ es) = (any (same_edge e) es ≡ false) × IsUniqueEdges es

same_object-sym : (o p : DataObject) → same_object o p ≡ same_object p o
same_object-sym o p = ground (
  arith,
  eq_iff p.assessment_id o.assessment_id,
  eq_iff o.assessment_id p.assessment_id,
  eq_iff p.object_type o.object_type,
  eq_iff o.object_type p.object_type,
  eq_iff p.normalized_name o.normalized_name,
  eq_iff o.normalized_name p.normalized_name,
)

any-object_last :
    (p : DataObject → Bool) (os : List DataObject) (o : DataObject)
    → any p (os ++ o ∷ []) ≡ (any p os || p o)
any-object_last p [] o = ground arith
any-object_last p (q ∷ os) o = ground (arith, any-object_last p os o)

append-IsUniqueObjects :
    (os : List DataObject) (o : DataObject)
    → any (same_object o) os ≡ false
    → IsUniqueObjects os
    → IsUniqueObjects (os ++ o ∷ [])
append-IsUniqueObjects [] o fresh u = (refl, tt)
append-IsUniqueObjects (q ∷ os) o fresh u = (
  ground (arith, any-object_last (same_object q) os o, u.0, same_object-sym q o, fresh),
  append-IsUniqueObjects os o (ground (arith, fresh)) u.1,
)

-- Registering a data object, new or known, keeps at most one for each assessment, type and
-- normalized name.
pub upsert_data_object-IsUniqueObjects :
    (o : DataObject) (k : Knowledge)
    → IsUniqueObjects k.data_objects
    → IsUniqueObjects (upsert_data_object o k).1.data_objects
unfolding upsert_data_object
upsert_data_object-IsUniqueObjects o k u =
    elim (Bool-cases (any (same_object (normalized o)) k.data_objects)) [
      | inl known ↦ rw (known, upsert_data_object) u
      | inr fresh ↦
          rw (fresh, upsert_data_object)
            (append-IsUniqueObjects k.data_objects (normalized o) fresh u)
    ]

inactive_rows :
    (id new basis : String) (fs : List Finding)
    → any (is_active_finding id) (map (basis_row new basis) (map (supersede_row id new) fs)) ≡ false
inactive_rows id new basis [] = refl
inactive_rows id new basis (f ∷ fs) =
    ground (arith, inactive_rows id new basis fs, Bool-cases (f.id == id), Bool-cases (f.id == new))

-- A finding is superseded at most once: whatever the first call answered, a second one for the same
-- finding answers False and changes nothing.
pub supersede_once :
    (id new newer basis why : String) (k : Knowledge)
    → supersede_finding id newer why (supersede_finding id new basis k).1
      ≡ (false, (supersede_finding id new basis k).1)
unfolding supersede_finding
supersede_once id new newer basis why k =
    elim (Bool-cases (any (is_active_finding id) k.findings)) [
      | inl there ↦ rw (there, supersede_finding, inactive_rows id new basis k.findings) refl
      | inr missing ↦ rw (missing, supersede_finding) (rw (missing, supersede_finding) refl)
    ]
