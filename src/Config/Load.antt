-- ===== src/Config/Load.antt =====
-- sassessment/config.py: `load_config` and `_validate`.
use Prim.Native.String.{◌++◌ as append}
use tecnosor_sas_migration_d.Common.{
  ℕ, zero, String, Bool, true, false, Option, none, some, List, [], ◌∷◌, ◌==◌, not, mem,
  if◌then◌else◌, is_empty, ◌&&◌, ◌||◌,
}
use tecnosor_sas_migration_d.Common.Texts.{starts_with}
use tecnosor_sas_migration_d.Config.{
  ℤ, pos, negsuc, Value, Real, finite, infinite, not_a_number, null, text, integer, real, flag,
  texts, dict, Document, empty, entry, lookup, deep_merge, env_document, env_map,
  overrides_document, Variables,
}
use tecnosor_sas_migration_d.Errors.{and_then, Result, ok, err, config_error, foreign}

-- A field holds what the merged document gives, of whatever type.
pub record OpenCodeSettings : Type 0 where
  pub executable : Value
  pub default_model : Value
  pub agents : Value
  pub timeout_seconds : Value
  pub max_output_bytes : Value
  pub force_mock : Value

-- without `agent_retry_backoff_seconds`, which nothing checks
pub record Limits : Type 0 where
  pub max_retries : Value
  pub max_graph_cycles : Value
  pub max_node_attempts : Value
  pub lineage_max_depth : Value
  pub lineage_max_iterations : Value
  pub evidence_max_bytes : Value
  pub subprocess_output_max_bytes : Value

pub record ConnectorSettings : Type 0 where
  pub enabled : Value
  pub approval_policy : Value

pub record SassessmentConfig : Type 0 where
  pub repo_root : String
  pub database_path : String
  pub opencode : OpenCodeSettings
  pub limits : Limits
  pub connectors : ConnectorSettings
  pub redaction_patterns : List String
  pub active_assessment : Value
  pub dry_run : Bool

abbrev pub or_value : Option Value → Value → Value
or_value none v = v
or_value (some w) v = w

abbrev pub field : Document → String → Value → Value
field d k v = or_value (lookup k d) v

-- `OpenCodeSettings(**section)` and its like: a key that is no field is a TypeError
unfoldable pub only_fields : List String → Document → Bool
only_fields ks empty = true
only_fields ks (entry k v d) = mem k ks && only_fields ks d

abbrev number : ℕ → Value
number n = integer (pos n)

abbrev opencode_fields : List String
opencode_fields =
    "executable" ∷ "default_model" ∷ "agents" ∷ "timeout_seconds" ∷ "max_output_bytes"
    ∷ "force_mock" ∷ []

abbrev pub opencode_of : Document → OpenCodeSettings
opencode_of d = record {
  executable = field d "executable" (text "opencode");
  default_model = field d "default_model" (text "opencode-go/glm-5.3-flash");
  agents = field d "agents" (dict empty);
  timeout_seconds = field d "timeout_seconds" (number 600);
  max_output_bytes = field d "max_output_bytes" (number 1048576);
  force_mock = field d "force_mock" (flag true);
}

abbrev limit_fields : List String
limit_fields =
    "max_retries" ∷ "agent_retry_backoff_seconds" ∷ "max_graph_cycles" ∷ "max_node_attempts"
    ∷ "lineage_max_depth" ∷ "lineage_max_iterations" ∷ "evidence_max_bytes"
    ∷ "subprocess_output_max_bytes" ∷ []

abbrev connector_fields : List String
connector_fields = "enabled" ∷ "approval_policy" ∷ []

abbrev pub limits_of : Document → Limits
limits_of d = record {
  max_retries = field d "max_retries" (number 2);
  max_graph_cycles = field d "max_graph_cycles" (number 25);
  max_node_attempts = field d "max_node_attempts" (number 5);
  lineage_max_depth = field d "lineage_max_depth" (number 2);
  lineage_max_iterations = field d "lineage_max_iterations" (number 3);
  evidence_max_bytes = field d "evidence_max_bytes" (number 52428800);
  subprocess_output_max_bytes = field d "subprocess_output_max_bytes" (number 1048576);
}

abbrev pub connectors_of : Document → ConnectorSettings
connectors_of d = record {
  enabled = field d "enabled" (dict empty);
  approval_policy = field d "approval_policy" (text "explicit");
}

abbrev pub default_redaction_patterns : List String
default_redaction_patterns =
    "(?i)(password|passwd|pwd)\\s*[=:]\\s*\\S+" ∷ "(?i)(api[_-]?key|apikey)\\s*[=:]\\s*\\S+"
    ∷ "(?i)(secret|token|credential)[a-z_]*\\s*[=:]\\s*\\S+" ∷ "(?i)bearer\\s+[A-Za-z0-9._\\-]+"
    ∷ "(?i)-----BEGIN [A-Z ]*PRIVATE KEY-----[\\s\\S]*?-----END [A-Z ]*PRIVATE KEY-----" ∷ []

-- a comparison raises a TypeError where the value is no number; a flag counts as one
abbrev pub is_negative : ℤ → Bool
is_negative (negsuc n) = true
is_negative (pos n) = false

abbrev pub is_zero : ℤ → Bool
is_zero (pos zero) = true
is_zero _ = false

-- `x < 0`; no comparison with NaN holds
abbrev pub below_zero : Real → Bool
below_zero (finite n above) = is_negative n
below_zero (infinite negative) = negative
below_zero not_a_number = false

-- `x < 1`
abbrev pub below_one : Real → Bool
below_one (finite n above) = is_negative n || is_zero n
below_one (infinite negative) = negative
below_one not_a_number = false

-- `x <= 0`
abbrev pub not_positive : Real → Bool
not_positive (finite n above) = is_negative n || (is_zero n && not above)
not_positive (infinite negative) = negative
not_positive not_a_number = false

abbrev pub as_number : Value → Option Real
as_number (integer n) = some (finite n false)
as_number (real x) = some x
as_number (flag true) = some (finite (pos 1) false)
as_number (flag false) = some (finite (pos 0) false)
as_number _ = none

abbrev pub Problems : Type 0
Problems = Result (List String)

abbrev pub note : Bool → String → Problems → Problems
note bad problem (ok ps) = ok (if bad then problem ∷ ps else ps)
note bad problem (err e) = err e

abbrev pub check_number : Option Real → (Real → Bool) → String → Problems → Problems
check_number none bad problem rest = err (foreign "TypeError")
check_number (some n) bad problem rest = note (bad n) problem rest

-- `not in ("explicit", "never")`
abbrev pub is_policy : Value → Bool
is_policy (text s) = mem s ("explicit" ∷ "never" ∷ [])
is_policy _ = false

abbrev pub policy_problem : String
policy_problem = "connectors.approval_policy must be 'explicit' or 'never'"

abbrev pub pattern_problem : String
pattern_problem = "redaction.patterns must not be empty"

unfoldable pub problems : SassessmentConfig → Problems
problems c =
    check_number (as_number c.limits.max_retries) below_zero "limits.max_retries must be >= 0" (
      check_number (as_number c.limits.max_graph_cycles) below_one
        "limits.max_graph_cycles must be >= 1"
        (check_number (as_number c.limits.max_node_attempts) below_one
          "limits.max_node_attempts must be >= 1"
          (check_number (as_number c.opencode.timeout_seconds) not_positive
            "opencode.timeout_seconds must be > 0"
            (note (not (is_policy c.connectors.approval_policy)) policy_problem
              (note (is_empty c.redaction_patterns) pattern_problem (ok []))))))

abbrev pub reject_problems : SassessmentConfig → Problems → Result SassessmentConfig
reject_problems c (ok []) = ok c
reject_problems c (ok (p ∷ ps)) = err (config_error "invalid configuration")
reject_problems c (err e) = err e

-- `_validate`, with the configuration that it lets through
unfoldable pub validate_config : SassessmentConfig → Result SassessmentConfig
validate_config c = reject_problems c (problems c)

-- `yaml.safe_load(fh) or {}`, where no file gives {}
abbrev pub is_falsy : Value → Bool
is_falsy null = true
is_falsy (text s) = s == ""
is_falsy (integer (pos zero)) = true
is_falsy (real (finite (pos zero) false)) = true
is_falsy (flag false) = true
is_falsy (texts []) = true
is_falsy (dict empty) = true
is_falsy _ = false

abbrev pub mapping : Value → Result Document
mapping (dict d) = ok d
mapping v =
    if is_falsy v then ok empty else err (config_error "config/default.yaml must be a mapping")

abbrev pub defaults_document : Option Value → Result Document
defaults_document none = ok empty
defaults_document (some v) = mapping v

-- `Path(value)`, below the root where it is relative
abbrev pub database_path_of : String → Option Value → Result String
database_path_of root none = ok (append root "/workspace/database/sassessment.db")
database_path_of root (some (text p)) =
    if starts_with "/" p then ok p else ok (append root (append "/" p))
database_path_of root (some _) = err (foreign "TypeError")

-- `merged.get(name, {}).items()`
abbrev pub section_of : Option Value → Result Document
section_of none = ok empty
section_of (some (dict d)) = ok d
section_of (some _) = err (foreign "AttributeError")

abbrev pub with_fields : List String → Result Document → Result Document
with_fields ks (ok d) = if only_fields ks d then ok d else err (foreign "TypeError")
with_fields ks (err e) = err e

unfoldable pub characters : String → List String
characters String.[] = []
characters (String.◌∷◌ c s) = String.◌∷◌ c String.[] ∷ characters s

unfoldable pub keys : Document → List String
keys empty = []
keys (entry k v d) = k ∷ keys d

-- `list(value)`
abbrev pub list_of : Option Value → Result (List String)
list_of none = ok default_redaction_patterns
list_of (some (texts ps)) = ok ps
list_of (some (text s)) = ok (characters s)
list_of (some (dict d)) = ok (keys d)
list_of (some _) = err (foreign "TypeError")

abbrev pub patterns_of : Result Document → Result (List String)
patterns_of (ok d) = list_of (lookup "patterns" d)
patterns_of (err e) = err e

-- The configuration of a merged document.
unfoldable pub config_of : String → Document → Result SassessmentConfig
config_of root d = and_then (database_path_of root (lookup "database_path" d)) (λ path.
    and_then (with_fields opencode_fields (section_of (lookup "opencode" d))) (λ o.
      and_then (with_fields limit_fields (section_of (lookup "limits" d))) (λ l.
        and_then (with_fields connector_fields (section_of (lookup "connectors" d))) (λ c.
          and_then (patterns_of (section_of (lookup "redaction" d))) (λ ps.
            validate_config (record {
              repo_root = root;
              database_path = path;
              opencode = opencode_of o;
              limits = limits_of l;
              connectors = connectors_of c;
              redaction_patterns = ps;
              active_assessment = field d "active_assessment" null;
              dry_run = not (is_falsy (field d "dry_run" (flag false)));
            }))))))

-- What is read of the file system: whether a directory has a pyproject.toml, its parent, and what
-- config/default.yaml holds.
pub record Repo : Type 0 where
  pub has_project : String → Bool
  pub parent : String → String
  pub default_yaml : String → Option Value

abbrev pub root_of : Repo → String → Result String
root_of repo dir =
    if repo.has_project dir
    then ok dir
    else if repo.has_project (repo.parent dir)
    then ok (repo.parent dir)
    else err (config_error "not a SASsessment repository")

-- defaults < environment < overrides
abbrev pub merged_document :
    (String → Option ℤ) → Variables → List (String × Value) → Document → Result Document
merged_document int vars overrides base = and_then (env_document int vars env_map empty) (λ env.
    and_then (overrides_document overrides empty)
      (λ over. ok (deep_merge (deep_merge base env) over)))

unfoldable pub load_config :
    Repo
    → (String → Option ℤ)
    → Variables
    → List (String × Value)
    → String
    → Result SassessmentConfig
load_config repo int vars overrides dir = and_then (root_of repo dir) (λ root.
    and_then (defaults_document (repo.default_yaml root))
      (λ base. and_then (merged_document int vars overrides base) (config_of root)))
