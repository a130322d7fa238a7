-- ===== src/Engine/Env.antt =====
-- The fields of `GraphEngine` and what it calls. `agent` is `_execute_opencode`, with the columns that
-- it leaves in `_active_agent_meta`; `fresh` gives the n-th identifier that `new_id` draws.
use tecnosor_sas_migration_d.Common.{ℕ, String, ◌+◌}
use tecnosor_sas_migration_d.Errors.{Result}
use tecnosor_sas_migration_d.Graph.Model.{GraphDef, NodeDef}
use tecnosor_sas_migration_d.Graph.Predicates.{Registry}
use tecnosor_sas_migration_d.Node.{NodeResult, Context, Handlers}
use tecnosor_sas_migration_d.State.Tables.{Db, AgentMeta}

abbrev pub Agent : Type 0
Agent = NodeDef → Context → Db → Result (NodeResult × AgentMeta) × Db

pub record Env : Type 0 where
  pub graph : GraphDef
  pub handlers : Handlers
  pub agent : Agent
  pub predicates : Registry
  pub assessment_id : String
  pub session_id : String
  pub max_node_attempts : ℕ
  pub execution_dir : String → String
  pub fresh : ℕ → String

-- `_new_execution_id`, `decision_id`
unfoldable pub new_id : Env → Db → String × Db
new_id env db = (env.fresh db.minted, record db { minted = db.minted + 1 })
