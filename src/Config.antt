-- ===== src/Config.antt =====
-- sassessment/config.py: the documents that a configuration is merged from, and its checks (Config.Load).
-- A YAML document is a tree, in which a list is one of texts. `int` and the YAML reader are parameters.
pub mod Load
pub mod Laws
use tecnosor_sas_migration_d.Common.{
  ℕ, String, Bool, true, false, Option, none, some, List, [], ◌∷◌, ◌==◌, not, mem, get,
  if◌then◌else◌,
}
use tecnosor_sas_migration_d.Common.Texts.{lower, lstrip, rstrip, split_on}
use tecnosor_sas_migration_d.Errors.{Result, ok, err, config_error, foreign}

-- `pos n` is n, `negsuc n` is -(n + 1)
pub data ℤ : Type 0 where
  pos negsuc : ℕ → ℤ

-- A float, as far as it is compared: the greatest integer that is not above it and whether it is above
-- that; or an infinity, with its sign; or NaN.
pub data Real : Type 0 where
  finite : ℤ → Bool → Real
  infinite : Bool → Real
  not_a_number : Real

mutual
  pub data Value : Type 0 where
    null : Value
    text : String → Value
    integer : ℤ → Value
    real : Real → Value
    flag : Bool → Value
    texts : List String → Value
    dict : Document → Value

  pub data Document : Type 0 where
    empty : Document
    entry : String → Value → Document → Document

unfoldable pub lookup : String → Document → Option Value
lookup k empty = none
lookup k (entry j v d) = if j == k then some v else lookup k d

-- `d[k] = v`, in place where the key is there
unfoldable pub set_key : String → Value → Document → Document
set_key k v empty = entry k v empty
set_key k v (entry j w d) = if j == k then entry j v d else entry j w (set_key k v d)

unfoldable mutual
  pub deep_merge : Document → Document → Document
  deep_merge base empty = base
  deep_merge base (entry k v rest) =
      deep_merge (set_key k (merge_value (lookup k base) v) base) rest

  -- the value of a key, from the one that the base has
  pub merge_value : Option Value → Value → Value
  merge_value (some (dict base)) (dict d) = dict (deep_merge base d)
  merge_value _ v = v

abbrev pub then_set : String → Document → Result Document → Result Document
then_set p d (ok inner) = ok (set_key p (dict inner) d)
then_set p d (err e) = err e

-- `cursor.setdefault(part, {})`: what is there and no dict has no `setdefault`
abbrev pub set_inside :
    String → Document → (Document → Result Document) → Option Value → Result Document
set_inside p d set none = then_set p d (set empty)
set_inside p d set (some (dict inner)) = then_set p d (set inner)
set_inside p d set (some _) = err (foreign "AttributeError")

unfoldable pub set_by_parts : List String → Value → Document → Result Document
set_by_parts [] v d = ok d
set_by_parts (p ∷ []) v d = ok (set_key p v d)
set_by_parts (p ∷ q ∷ ps) v d = set_inside p d (set_by_parts (q ∷ ps) v) (lookup p d)

unfoldable pub set_by_dotted_key : String → Value → Document → Result Document
unfolding split_on
set_by_dotted_key key v d = set_by_parts (split_on b'.' key) v d

pub data Kind : Type 0 where
  int_kind bool_kind path_kind str_kind : Kind

abbrev pub integer_or : Option ℤ → Result Value
integer_or none = err (config_error "environment value must be an integer")
integer_or (some n) = ok (integer n)

unfoldable pub coerce : (String → Option ℤ) → String → Kind → Result Value
unfolding lower lstrip rstrip
coerce int raw int_kind = integer_or (int raw)
coerce int raw bool_kind =
    ok (flag (mem (lower (lstrip (rstrip raw))) ("1" ∷ "true" ∷ "yes" ∷ "on" ∷ [])))
coerce int raw path_kind = ok (text raw)
coerce int raw str_kind = ok (text raw)

pub record EnvKey : Type 0 where
  pub variable : String
  pub key : String
  pub kind : Kind

abbrev env_key : String → String → Kind → EnvKey
env_key variable key kind = record { variable = variable; key = key; kind = kind }

abbrev pub env_map : List EnvKey
env_map =
    env_key "SASSESSMENT_DATABASE_PATH" "database_path" path_kind
    ∷ env_key "SASSESSMENT_ACTIVE_ASSESSMENT" "active_assessment" str_kind
    ∷ env_key "SASSESSMENT_OPENCODE_EXECUTABLE" "opencode.executable" str_kind
    ∷ env_key "SASSESSMENT_OPENCODE_MODEL" "opencode.default_model" str_kind
    ∷ env_key "SASSESSMENT_OPENCODE_TIMEOUT_SECONDS" "opencode.timeout_seconds" int_kind
    ∷ env_key "SASSESSMENT_MAX_RETRIES" "limits.max_retries" int_kind
    ∷ env_key "SASSESSMENT_MAX_GRAPH_CYCLES" "limits.max_graph_cycles" int_kind
    ∷ env_key "SASSESSMENT_MAX_NODE_ATTEMPTS" "limits.max_node_attempts" int_kind
    ∷ env_key "SASSESSMENT_LINEAGE_MAX_DEPTH" "limits.lineage_max_depth" int_kind
    ∷ env_key "SASSESSMENT_LINEAGE_MAX_ITERATIONS" "limits.lineage_max_iterations" int_kind
    ∷ env_key "SASSESSMENT_EVIDENCE_MAX_BYTES" "limits.evidence_max_bytes" int_kind
    ∷ env_key "SASSESSMENT_APPROVAL_POLICY" "connectors.approval_policy" str_kind
    ∷ env_key "SASSESSMENT_DRY_RUN" "dry_run" bool_kind
    ∷ []

abbrev pub set_coerced : String → Result Value → Document → Result Document
set_coerced key (ok v) d = set_by_dotted_key key v d
set_coerced key (err e) d = err e

-- a variable that is not there or is empty is passed over
abbrev pub set_variable : (String → Option ℤ) → EnvKey → Option String → Document → Result Document
set_variable int k none d = ok d
set_variable int k (some raw) d =
    if raw == "" then ok d else set_coerced k.key (coerce int raw k.kind) d

abbrev pub then_document : Result Document → (Document → Result Document) → Result Document
then_document (ok d) f = f d
then_document (err e) f = err e

abbrev pub Variables : Type 0
Variables = List (String × String)

-- the loop over `_ENV_MAP`
unfoldable pub env_document :
    (String → Option ℤ) → Variables → List EnvKey → Document → Result Document
env_document int vars [] d = ok d
env_document int vars (k ∷ ks) d =
    then_document (set_variable int k (get k.variable vars) d) (env_document int vars ks)

abbrev pub known_overrides : List (String × String)
known_overrides =
    ("database_path", "database_path")
    ∷ ("active_assessment", "active_assessment")
    ∷ ("default_model", "opencode.default_model")
    ∷ ("opencode_executable", "opencode.executable")
    ∷ ("dry_run", "dry_run")
    ∷ ("max_retries", "limits.max_retries")
    ∷ ("max_graph_cycles", "limits.max_graph_cycles")
    ∷ ("max_node_attempts", "limits.max_node_attempts")
    ∷ ("timeout_seconds", "opencode.timeout_seconds")
    ∷ []

abbrev pub set_override : Option String → Value → Document → Result Document
set_override none v d = err (config_error "unknown configuration override")
set_override (some key) v d = set_by_dotted_key key v d

unfoldable pub overrides_document : List (String × Value) → Document → Result Document
overrides_document [] d = ok d
overrides_document ((k, v) ∷ rest) d =
    then_document (set_override (get k known_overrides) v d) (overrides_document rest)
