-- ===== src/Legacy/Outcome.antt =====
-- sassessment/legacy_logs/status.py: the outcome of a run from its log records. The evidence lists the
-- records whose fields the source copies.
use tecnosor_sas_migration_d.Common.{
  String, Bool, List, [], ◌∷◌, ◌==◌, ◌&&◌, not, filter, mem, is_empty, if◌then◌else◌,
}
use tecnosor_sas_migration_d.Common.Texts.{upper}
use tecnosor_sas_migration_d.Legacy.Records.{ParsedRecord, text_or_empty}

abbrev pub framework_failure_statuses : List String
framework_failure_statuses = "LOAD_ERR" ∷ "OUT_ERR" ∷ "CANCEL" ∷ []

pub data GlobalOutcome : Type 0 where
  failed partial success unknown : GlobalOutcome

pub record StatusEvidence : Type 0 where
  pub global_outcome : GlobalOutcome
  pub evidence : List ParsedRecord

abbrev pub is_framework_mark : ParsedRecord → Bool
is_framework_mark r = r.record_type == "FRAMEWORK_STATUS" && not (text_or_empty r.status == "")

abbrev pub is_fatal_message : ParsedRecord → Bool
is_fatal_message r =
    mem r.record_type ("SAS_MESSAGE" ∷ "TB_LOG" ∷ []) && r.normalized_impact == "ERROR"

abbrev pub is_zero_record_mark : ParsedRecord → Bool
is_zero_record_mark r =
    r.record_type == "TB_LOG"
    && mem (text_or_empty r.category) ("EMPTY_REQUIRED_DATASET" ∷ "ZERO_RECORDS_HISTORICIZE" ∷ [])

abbrev pub is_terminal_mark : ParsedRecord → Bool
is_terminal_mark r = mem (upper (text_or_empty r.status)) framework_failure_statuses

abbrev pub outcome_with : GlobalOutcome → List ParsedRecord → StatusEvidence
outcome_with o rs = record { global_outcome = o; evidence = rs }

unfoldable pub derive_status_evidence : List ParsedRecord → StatusEvidence
derive_status_evidence rs =
    let framework_marks = filter is_framework_mark rs in
    let fatal_messages = filter is_fatal_message rs in
    let zero_record_marks = filter is_zero_record_mark rs in
    let terminal_marks = filter is_terminal_mark framework_marks in
    if not (is_empty terminal_marks)
    then outcome_with failed terminal_marks
    else if not (is_empty fatal_messages)
    then outcome_with failed fatal_messages
    else if not (is_empty zero_record_marks)
    then outcome_with partial zero_record_marks
    else if not (is_empty framework_marks)
    then outcome_with success framework_marks
    else outcome_with unknown []
