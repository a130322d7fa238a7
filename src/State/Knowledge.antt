-- ===== src/State/Knowledge.antt =====
-- sassessment/state/repository.py: findings, and the objects and lineage that the assessment
-- knows of. The engine reads none of these tables, so they stand in a record of their own. Tables are
-- lists in insertion order; identifiers are fresh, so a PRIMARY KEY is not violated.
pub mod Laws
use Prim.Native.String.{◌++◌ as append}
use tecnosor_sas_migration_d.Common.{
  ℕ, String, Bool, true, false, Option, none, some, List, [], ◌∷◌, ◌++◌, ◌==◌, ◌&&◌, ◌||◌, not, any,
  find, filter, map, if◌then◌else◌,
}
use tecnosor_sas_migration_d.Common.Texts.{lower}

pub data FindingStatus : Type 0 where
  active_finding superseded_finding : FindingStatus

pub record Finding : Type 0 where
  pub id : String
  pub assessment_id : String
  pub statement : String
  pub category : String
  pub status : FindingStatus
  pub confidence : String
  pub evidence_ids : List String
  pub rationale : String
  pub superseded_by : Option String

pub record DataObject : Type 0 where
  pub id : String
  pub assessment_id : String
  pub object_type : String
  pub schema_name : String
  pub name : String
  pub normalized_name : String
  pub first_seen_evidence : String

pub record LineageEdge : Type 0 where
  pub id : String
  pub assessment_id : String
  pub source_node : String
  pub target_node : String
  pub relationship : String
  pub direction : String
  pub extraction_method : String
  pub evidence_ids : List String
  pub confidence : String
  pub validation_status : String
  pub depth : ℕ
  pub limitations : String

pub record Knowledge : Type 0 where
  pub findings : List Finding
  pub data_objects : List DataObject
  pub lineage_edges : List LineageEdge

abbrev pub is_active : FindingStatus → Bool
is_active active_finding = true
is_active superseded_finding = false

-- The finding is written ACTIVE.
unfoldable pub create_finding : Finding → Knowledge → Knowledge
create_finding f k = record k {
  findings = k.findings ++ record f { status = active_finding; superseded_by = none } ∷ [];
}

-- `id = ? AND status = 'ACTIVE'`
abbrev pub is_active_finding : String → Finding → Bool
is_active_finding id f = f.id == id && is_active f.status

abbrev pub supersede_row : String → String → Finding → Finding
supersede_row id new f =
    if f.id == id then record f { status = superseded_finding; superseded_by = some new } else f

abbrev pub basis_row : String → String → Finding → Finding
basis_row new basis f =
    if f.id == new
    then record f { rationale = append f.rationale (append " | supersede-basis: " basis) }
    else f

-- Whether there was an active finding to supersede.
unfoldable pub supersede_finding : String → String → String → Knowledge → Bool × Knowledge
supersede_finding id new basis k =
    if any (is_active_finding id) k.findings
    then (
      true,
      record k { findings = map (basis_row new basis) (map (supersede_row id new) k.findings) },
    )
    else (false, k)

-- without the inactive ones
unfoldable pub list_findings : Knowledge → String → List Finding
list_findings k a = filter (λ f. f.assessment_id == a && is_active f.status) k.findings

-- `normalized_name or name.lower()`
abbrev pub normalized : DataObject → DataObject
normalized o = record o {
  normalized_name = if o.normalized_name == "" then lower o.name else o.normalized_name;
}

-- UNIQUE (assessment_id, object_type, normalized_name)
abbrev pub same_object : DataObject → DataObject → Bool
same_object o p =
    p.assessment_id == o.assessment_id
    && (p.object_type == o.object_type && p.normalized_name == o.normalized_name)

-- False is the IntegrityError: such an object is there.
unfoldable pub upsert_data_object : DataObject → Knowledge → Bool × Knowledge
upsert_data_object o k =
    if any (same_object (normalized o)) k.data_objects
    then (false, k)
    else (true, record k { data_objects = k.data_objects ++ normalized o ∷ [] })

-- UNIQUE (assessment_id, source_node, target_node, relationship)
abbrev pub same_edge : LineageEdge → LineageEdge → Bool
same_edge e f =
    f.assessment_id == e.assessment_id
    && (f.source_node == e.source_node
        && (f.target_node == e.target_node && f.relationship == e.relationship))

unfoldable pub create_lineage_edge : LineageEdge → Knowledge → Bool × Knowledge
create_lineage_edge e k =
    if any (same_edge e) k.lineage_edges
    then (false, k)
    else (true, record k { lineage_edges = k.lineage_edges ++ e ∷ [] })
