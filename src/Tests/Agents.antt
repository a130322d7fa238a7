-- ===== src/Tests/Agents.antt =====
-- The theorems on agents and requests for human input at a concrete output and context.
use tecnosor_sas_migration_d.Agent.Cli.Held.{quota_uncounted, with_command, Held, IsQuotaOutput}
use tecnosor_sas_migration_d.Agent.Cli.{
  finished, is_quota_error, Process, Call, is_cli_error, Searches,
}
use tecnosor_sas_migration_d.Engine.Env.{Env}
use tecnosor_sas_migration_d.Common.Texts.{take_chars, append, contains, text_length}
use tecnosor_sas_migration_d.Node.Ask.Laws.{request_human_input-asks, asks}
use tecnosor_sas_migration_d.Agent.Retry.Laws.{
  execute_opencode-nodes, invoke_answers, execute_opencode-IsTrusted,
}
use tecnosor_sas_migration_d.Node.Ask.{request_human_input, RequestSpec}
use tecnosor_sas_migration_d.Agent.Blocks.{
  closes, scan_char, block_length, blocks, largest, largest_brace_block,
}
use tecnosor_sas_migration_d.Agent.Envelope.Laws.{IsTrusted}
use tecnosor_sas_migration_d.Agent.Retry.{invoke, execute_opencode, Adapter}
use tecnosor_sas_migration_d.Agent.Envelope.{
  checked, envelope_of, first_envelope, extract_envelope, build_result_from_envelope, Document,
  Invocation,
}
use tecnosor_sas_migration_d.Agent.Envelope
use tecnosor_sas_migration_d.Common.Texts.{starts_with, is_blank}
use tecnosor_sas_migration_d.Common.{
  List, any, String, true, false, some, none, [], ◌∷◌, ◌≡◌, ◌≢◌, refl,
}
use tecnosor_sas_migration_d.Node.{NodeResult, Context}
use tecnosor_sas_migration_d.State.Records.{has_evidence, no_meta}
use tecnosor_sas_migration_d.State.Snapshot.{state_snapshot}
use tecnosor_sas_migration_d.Errors.{adapter_quota_limit, err, ok}
use tecnosor_sas_migration_d.Samples.{ready_db, sample_graph, sample_env, empty_db, asked_db}
use tecnosor_sas_migration_d.State.Tables.{exited, Db}
use tecnosor_sas_migration_d.State.Nodes.{get_node_state}
use tecnosor_sas_migration_d.Graph.Model.{NodeDef}
use tecnosor_sas_migration_d.Engine.Execute.{run_node}
use tecnosor_sas_migration_d.Tests.{intake}

-- an agent that reports its work in an envelope
abbrev sample_output : String
sample_output = "done {\"status\": 1}"

abbrev sample_invocation : Invocation
sample_invocation = record {
  stdout = sample_output;
  exit_code = some (exited 0);
  timed_out = false;
  info = no_meta;
}

abbrev sample_document : Document
sample_document = record {
  status = none;
  summary = some "checked";
  evidence_used = some ("EV-1" ∷ []);
  confidence = none;
}

abbrev sample_adapter : Adapter
sample_adapter = record {
  prompt_error = λ n c. none;
  run = λ n c i. ok sample_invocation;
  parser = record { fenced = λ s. none; loads = λ s. some sample_document };
  max_retries = 2;
}

abbrev over_adapter : Adapter
over_adapter = record sample_adapter { run = λ n c i. err (adapter_quota_limit "limit reached") }

abbrev sample_context : Context
sample_context = record {
  node_id = "review";
  execution_id = "EXE-1";
  attempt = 1;
  assessment_id = "ASM-1";
  session_id = "SES-1";
  state = state_snapshot empty_db "ASM-1";
}

abbrev evidence_db : Db
evidence_db = record empty_db {
  evidence = record { id = "EV-1"; assessment_id = "ASM-1"; kind = "file"; title = "catalog" } ∷ [];
}

abbrev agent_result : NodeResult
agent_result = record {
  status = "success";
  summary = "checked";
  evidence_used = "EV-1" ∷ [];
  confidence = "UNKNOWN";
}

agent_run :
    execute_opencode sample_adapter intake sample_context evidence_db
    ≡ (ok (agent_result, no_meta), evidence_db)
unfolding execute_opencode invoke build_result_from_envelope extract_envelope first_envelope
    envelope_of checked Envelope.problems has_evidence largest_brace_block largest blocks
    block_length scan_char closes take_chars text_length contains starts_with is_blank
agent_run = refl

execute_opencode-IsTrusted_example :
    IsTrusted evidence_db agent_result × (evidence_db ≡ evidence_db)
execute_opencode-IsTrusted_example =
    execute_opencode-IsTrusted sample_adapter intake sample_context evidence_db evidence_db
      agent_result no_meta agent_run

execute_opencode-nodes_example :
    (execute_opencode over_adapter intake sample_context evidence_db).1.node_states
    ≡ evidence_db.node_states
execute_opencode-nodes_example =
    execute_opencode-nodes over_adapter intake sample_context evidence_db

invoke_answers_example : invoke (λ i. ok sample_invocation) 2 0 none ≢ ok none
invoke_answers_example = invoke_answers (λ i. ok sample_invocation) 1 0 none

abbrev sample_spec : RequestSpec
sample_spec = record {
  title = "catalog";
  missing_info = "catalog";
  reason = "";
  priority = "BLOCKING";
  expected_provider = "";
  retrieval_attempted = "";
  accepted_formats = "";
  security_notes = "";
  resume_node = "";
  query_pack = none;
}

-- the database with its assessment
abbrev known_db : Db
known_db = record asked_db {
  assessments = record { id = "ASM-1"; status = "ACTIVE"; current_phase = "phase1" } ∷ [];
}

request_human_input-asks_example :
    (id : String) × ((request_human_input "intake/raw" "REQ-8" none sample_context sample_spec
        known_db).0
      ≡ ok id)
    × (any
          (asks sample_context sample_spec id)
          (request_human_input "intake/raw" "REQ-8" none sample_context sample_spec
            known_db).1.requests
        ≡ true)
request_human_input-asks_example =
    request_human_input-asks "intake/raw" "REQ-8" sample_context sample_spec known_db refl refl

abbrev agent_env : Env
agent_env = record sample_env {
  graph = record sample_graph {
    nodes = record intake { node_type = "opencode"; id = "review" } ∷ [];
  };
}

abbrev quota_searches : Searches
quota_searches = record {
  cli_resolution_errors = contains "model not found" ∷ [];
  quota_patterns = contains "quota exceeded" ∷ [];
  extract_session = λ s. none;
  hash = λ s. s;
}

abbrev sample_call : NodeDef → Context → Call
sample_call n c = record {
  executable = "opencode";
  message = n.id;
  system_prompt = "";
  agent_name = n.agent;
  model = "provider/model";
  session_id = "";
  continue_session = false;
}

abbrev quota_process : List String → Process
quota_process args = finished (exited 1) "" "quota exceeded"

quota_printed : (args : List String) → IsQuotaOutput quota_searches (quota_process args)
unfolding is_cli_error is_quota_error contains starts_with append
quota_printed args = (refl, refl)

quota_uncounted_example :
    Held
      (with_command agent_env sample_adapter quota_process quota_searches sample_call)
      "review"
      1
      (run_node
        (with_command agent_env sample_adapter quota_process quota_searches sample_call)
        "review"
        ready_db)
unfolding get_node_state
quota_uncounted_example =
    quota_uncounted agent_env sample_adapter quota_process quota_searches sample_call "review"
      (record intake { node_type = "opencode"; id = "review" }) ready_db quota_printed refl refl
      refl refl refl
