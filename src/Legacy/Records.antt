-- ===== src/Legacy/Records.antt =====
-- sassessment/legacy_logs/model.py: a parsed record and a stage. The fields that neither lifecycle.py
-- nor status.py reads are left out; a time stamp stays the text that `_float` converts.
use tecnosor_sas_migration_d.Common.{ℕ, String, Bool, true, false, Option, none, some, ◌==◌, ◌=?◌}

-- job and partition: a number, a text where the number could not be read, or None
pub data Value : Type 0 where
  absent : Value
  number : ℕ → Value
  raw : String → Value

pub record ParsedRecord : Type 0 where
  pub record_id : String
  pub record_type : String
  pub source_severity : Option String
  pub normalized_impact : String
  pub category : Option String
  pub timestamp_raw : Option String
  pub job_id : Value
  pub entity_or_partition : Value
  pub iteration : Option ℕ
  pub component : Option String
  pub event_name : Option String
  pub lifecycle_marker : Option String
  pub status : Option String
  pub message : Option String
  pub raw_text : String

pub record LifecycleStage : Type 0 where
  pub component : String
  pub job_id : Value
  pub iteration : Option ℕ
  pub entity_or_partition : Value
  pub start_record_id : String
  pub end_record_id : Option String
  pub complete : Bool
  pub start_timestamp : Option String
  pub end_timestamp : Option String
  pub source_level : Option String
  pub marker : String

-- Python's `==` on the values
abbrev pub same_value : Value → Value → Bool
same_value absent absent = true
same_value (number m) (number n) = m =? n
same_value (raw s) (raw t) = s == t
same_value _ _ = false

abbrev pub same_number : Option ℕ → Option ℕ → Bool
same_number none none = true
same_number (some m) (some n) = m =? n
same_number _ _ = false

abbrev pub text_or_empty : Option String → String
text_or_empty none = ""
text_or_empty (some s) = s
