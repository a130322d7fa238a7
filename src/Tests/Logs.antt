-- ===== src/Tests/Logs.antt =====
-- The theorems on log records, findings, objects and sessions at concrete rows.
use tecnosor_sas_migration_d.State.Ledger.{Ledger}
use tecnosor_sas_migration_d.State.Knowledge.{active_finding, Knowledge, DataObject, Finding}
use tecnosor_sas_migration_d.Legacy.Records.{absent, number, ParsedRecord}
use tecnosor_sas_migration_d.Common.{true, List, String, some, none, [], ◌∷◌}

abbrev log_record : String → String → ParsedRecord
log_record id marker = record {
  record_id = id;
  record_type = "TB_LOG";
  source_severity = none;
  normalized_impact = "INFO";
  category = none;
  timestamp_raw = none;
  job_id = number 7;
  entity_or_partition = absent;
  iteration = none;
  component = some "LOAD";
  event_name = none;
  lifecycle_marker = some marker;
  status = none;
  message = none;
  raw_text = "";
}

abbrev sample_log : List ParsedRecord
sample_log = log_record "R1" "INI" ∷ log_record "R2" "FIN" ∷ log_record "R3" "FIN" ∷ []

abbrev sample_finding : Finding
sample_finding = record {
  id = "F-1";
  assessment_id = "ASM-1";
  statement = "";
  category = "";
  status = active_finding;
  confidence = "UNKNOWN";
  evidence_ids = [];
  rationale = "";
  superseded_by = none;
}

abbrev sample_object : DataObject
sample_object = record {
  id = "DO-1";
  assessment_id = "ASM-1";
  object_type = "table";
  schema_name = "";
  name = "SALES";
  normalized_name = "";
  first_seen_evidence = "";
}

abbrev sample_knowledge : Knowledge
sample_knowledge = record {
  findings = sample_finding ∷ [];
  data_objects = sample_object ∷ [];
  lineage_edges = [];
}

abbrev sample_ledger : Ledger
sample_ledger = record {
  sessions = record { id = "SES-1"; assessment_id = "ASM-1"; is_open = true } ∷ [];
  gaps = [];
  assumptions = [];
  risks = [];
  checkpoints = [];
}
