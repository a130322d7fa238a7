-- ===== src/Agent/Cli.antt =====
-- opencode_adapter/adapter.py: how the agent's command is called and what is made of its output. The
-- process, the searches of the regular expressions and the hash are parameters; durations are left out.
pub mod Held
use Prim.Native.Char.{Char, code}
use tecnosor_sas_migration_d.Agent.Envelope.{Invocation}
use tecnosor_sas_migration_d.Common.{
  ℕ, String, Bool, true, false, Option, none, some, List, [], ◌∷◌, ◌++◌, ◌==◌, ◌&&◌, ◌||◌, not, any,
  ◌=?◌, if◌then◌else◌,
}
use tecnosor_sas_migration_d.Common.Texts.{append}
use tecnosor_sas_migration_d.Errors.{Result, ok, err, adapter_error, adapter_quota_limit}
use tecnosor_sas_migration_d.State.Tables.{AgentMeta, ReturnCode, exited}

-- the arguments of `run`; an empty text is one that is not given
pub record Call : Type 0 where
  pub executable : String
  pub message : String
  pub system_prompt : String
  pub agent_name : String
  pub model : String
  pub session_id : String
  pub continue_session : Bool

-- A process that ran into its time limit, or its code and what it printed.
pub data Process : Type 0 where
  timeout_expired : Process
  finished : ReturnCode → String → String → Process

-- `search` of CLI_RESOLUTION_ERRORS, of QUOTA_PATTERNS and of the patterns of `_extract_session`
pub record Searches : Type 0 where
  pub cli_resolution_errors : List (String → Bool)
  pub quota_patterns : List (String → Bool)
  pub extract_session : String → Option String
  pub hash : String → String

unfoldable pub effective_message : Call → String
unfolding append
effective_message c =
    if c.system_prompt == ""
    then c.message
    else append c.system_prompt (append "\n\n###TASK###\n" c.message)

abbrev pub option_pair : String → String → List String
option_pair flag value = if value == "" then [] else flag ∷ value ∷ []

unfoldable pub argv : Call → List String
unfolding effective_message
argv c =
    c.executable
    ∷ "run"
    ∷ effective_message c
    ∷ (option_pair "--agent" c.agent_name
        ++ (option_pair "--model" c.model
            ++ (if c.continue_session then option_pair "--session" c.session_id else [])))

abbrev add_first : Char → String × String → String × String
add_first c (a, b) = (String.◌∷◌ c a, b)

-- `s.partition("/")`, without the separator
unfoldable pub partition_slash : String → String × String
partition_slash String.[] = (String.[], String.[])
partition_slash (String.◌∷◌ c s) =
    let rest = partition_slash s in if code c =? b'/' then (String.[], s) else add_first c rest

abbrev pub unless_empty : String → Option String
unless_empty s = if s == "" then none else some s

-- the columns of an invocation that returned
abbrev pub columns : Searches → Call → ReturnCode → Option String → AgentMeta
columns s c exit session = record {
  prompt_hash = some (s.hash (effective_message c));
  model = if c.model == "" then none else unless_empty (partition_slash c.model).1;
  provider = if c.model == "" then none else some (partition_slash c.model).0;
  opencode_session_id = session;
  exit_code = some exit;
}

abbrev pub timed_out_columns : Searches → Call → AgentMeta
timed_out_columns s c = record {
  prompt_hash = some (s.hash (effective_message c));
  model = some c.model;
  provider = none;
  opencode_session_id = none;
  exit_code = none;
}

unfoldable pub is_quota_error : Searches → String → Bool
is_quota_error s output = any (λ p. p output) s.quota_patterns

unfoldable pub is_cli_error : Searches → String → Bool
is_cli_error s output = any (λ p. p output) s.cli_resolution_errors

abbrev pub combined_output : String → String → String
combined_output out errors = append out (append "\n" errors)

-- `_assert_cli_resolution` comes first, then `_assert_not_quota`
unfoldable pub invocation_of : Searches → Call → Process → Result Invocation
unfolding partition_slash
invocation_of s c timeout_expired =
    ok (record { stdout = ""; exit_code = none; timed_out = true; info = timed_out_columns s c })
invocation_of s c (finished exit out errors) =
    if is_cli_error s (combined_output out errors)
    then err (adapter_error "opencode CLI resolution failure")
    else if is_quota_error s (combined_output out errors)
    then err (adapter_quota_limit "provider quota/rate limit detected")
    else ok (record {
      stdout = out;
      exit_code = some exit;
      timed_out = false;
      info = columns s c exit (s.extract_session out);
    })

-- `run`, where `spawn` is the process of an argv
unfoldable pub cli_run : (List String → Process) → Searches → Call → Result Invocation
unfolding argv
cli_run spawn s c = invocation_of s c (spawn (argv c))

-- `MockAdapter.run`, where `envelope` is `json.dumps` of the canned envelope for an agent's name
unfoldable pub mock_run :
    (String → String) → (String → String) → (String → String) → Call → Invocation
unfolding effective_message partition_slash
mock_run envelope hash session c = record {
  stdout = envelope c.agent_name;
  exit_code = some (exited 0);
  timed_out = false;
  info = record {
    prompt_hash = some (hash (effective_message c));
    model = if c.model == "" then none else unless_empty (partition_slash c.model).1;
    provider = if c.model == "" then none else some (partition_slash c.model).0;
    opencode_session_id = some (session c.message);
    exit_code = some (exited 0);
  };
}

pub data AdapterKind : Type 0 where
  mock_adapter opencode_adapter : AdapterKind

-- `is_available` is `shutil.which(executable) is not None`
unfoldable pub create_adapter : Bool → String → Bool → (String → Bool) → AdapterKind
create_adapter force executable config_force is_available =
    if force || (executable == "mock" || config_force)
    then mock_adapter
    else if is_available executable
    then opencode_adapter
    else mock_adapter
