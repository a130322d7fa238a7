-- ===== src/Tests/Assembly.antt =====
-- The theorems on the log assembler and the configuration at concrete logs and documents.
use tecnosor_sas_migration_d.Errors.{and_then, ok}
use tecnosor_sas_migration_d.Legacy.Patterns.{
  source_cont, page_date, optionally, one_or_two, literal, is_letter, exactly, at_least,
  autovar_line, status_line, time_sleep_line, source_new, is_digit, page_header_line,
}
use tecnosor_sas_migration_d.Common.Texts.{
  text_length, lstrip, lower_char, lower, drop_while, append, starts_with, rstrip, is_blank,
}
use tecnosor_sas_migration_d.Config.Laws.{load_config-IsValid, IsValid}
use tecnosor_sas_migration_d.Config.Load.{
  problems, validate_config, only_fields, default_redaction_patterns, connectors_of, limits_of,
  config_of, opencode_of, load_config, SassessmentConfig, Repo,
}
use tecnosor_sas_migration_d.Config.{
  overrides_document, set_by_parts, set_by_dotted_key, coerce, env_document, set_key, null, flag,
  pos, empty, integer, dict, deep_merge, entry, lookup, Document,
}
use tecnosor_sas_migration_d.Legacy.Assembler.Complete.{
  assemble_records-lines, printed_lines, assemble_records-IsInOrder, lines_of, IsInOrder, visible,
}
use tecnosor_sas_migration_d.Legacy.Assembler.{
  raw_text, odd_quotes, is_tb_log_continuation, header_text, extend_header, extend_current,
  ends_with_dash, verdict, start_record, detect_anchor, consume_anchor, consume_content, consume,
  consume_lines, flush_current, raw_unknown, sas_source, page_header, sas_message, Anchor,
  assemble_records, Draft,
}
use tecnosor_sas_migration_d.Common.{ℕ, String, true, false, some, List, [], ◌∷◌, ◌≡◌, refl, map}

-- a message over two lines, a blank line, a page header with its date, a statement with its continuation,
-- and a line of its own
abbrev sample_log : List (String × ℕ)
sample_log =
    ("NOTE: The data set", 1)
    ∷ ("      has 3 rows.   ", 1)
    ∷ ("", 1)
    ∷ ("12          Sistema SAS", 1)
    ∷ ("lunes, 3 de marzo de 2025 10:15:00", 1)
    ∷ ("14         + data a;", 1)
    ∷ ("!+ set b;", 1)
    ∷ ("something else", 1)
    ∷ []

abbrev starts : List Draft → List (Anchor × ℕ)
starts rs = map (λ r. (r.anchor, r.end_line)) rs

assembled_log :
    starts (assemble_records sample_log)
    ≡ (sas_message, 3) ∷ (page_header, 5) ∷ (sas_source, 7) ∷ (raw_unknown, 8) ∷ []
unfolding assemble_records flush_current consume_lines consume consume_content is_blank rstrip
    consume_anchor detect_anchor page_header_line is_digit starts_with source_new start_record
    time_sleep_line status_line autovar_line verdict append drop_while lower lower_char lstrip
    text_length ends_with_dash extend_current extend_header header_text is_tb_log_continuation
    odd_quotes raw_text at_least exactly is_letter literal one_or_two optionally page_date
    source_cont
assembled_log = refl

assemble_records-lines_example :
    visible (lines_of (assemble_records sample_log)) ≡ visible (printed_lines sample_log)
assemble_records-lines_example = assemble_records-lines sample_log

assemble_records-IsInOrder_example : IsInOrder 0 9 (assemble_records sample_log)
assemble_records-IsInOrder_example = assemble_records-IsInOrder sample_log

abbrev sample_base : Document
sample_base =
    entry "limits"
      (dict
        (entry "max_retries" (integer (pos 2)) (entry "max_graph_cycles" (integer (pos 25)) empty)))
      (entry "dry_run" (flag false) empty)

abbrev sample_override : Document
sample_override = entry "limits" (dict (entry "max_retries" (integer (pos 7)) empty)) empty

abbrev sample_repo : Repo
sample_repo = record {
  has_project = λ d. true;
  parent = λ d. d;
  default_yaml = λ d. some (dict sample_base);
}

abbrev sample_variables : List (String × String)
sample_variables = ("SASSESSMENT_MAX_NODE_ATTEMPTS", "9") ∷ []

abbrev sample_config : SassessmentConfig
sample_config = record {
  repo_root = "/repo";
  database_path = "/repo/workspace/database/sassessment.db";
  opencode = opencode_of empty;
  limits = limits_of (
      entry "max_retries" (integer (pos 2)) (
        entry "max_graph_cycles" (integer (pos 25))
          (entry "max_node_attempts" (integer (pos 9)) empty)));
  connectors = connectors_of empty;
  redaction_patterns = default_redaction_patterns;
  active_assessment = null;
  dry_run = true;
}

config_loaded :
    load_config sample_repo
      (λ s. some (pos 9))
      sample_variables
      (("dry_run", flag true) ∷ [])
      "/repo"
    ≡ ok sample_config
unfolding load_config config_of and_then env_document coerce set_by_dotted_key set_by_parts lookup
    overrides_document deep_merge set_key only_fields validate_config problems
config_loaded = refl

load_config-IsValid_example : IsValid sample_config
load_config-IsValid_example =
    load_config-IsValid sample_repo (λ s. some (pos 9)) sample_variables
      (("dry_run", flag true) ∷ []) "/repo" sample_config config_loaded
