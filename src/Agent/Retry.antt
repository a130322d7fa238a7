-- ===== src/Agent/Retry.antt =====
-- graph/engine.py, `_execute_opencode`: the invocations of the agent with their retries, and the result
-- that is built from the last one. It is what the engine's `agent` stands for. The sleeps between the
-- attempts and the log files are left out.
pub mod Laws
use tecnosor_sas_migration_d.Common.{
  ℕ, zero, suc, String, Bool, true, false, Option, none, some, List, [], ◌∷◌, ◌&&◌, ◌+◌, leb,
  if◌then◌else◌,
}
use tecnosor_sas_migration_d.Agent.Envelope.{Parser, Invocation, build_result_from_envelope}
use tecnosor_sas_migration_d.Errors.{
  Error, Result, ok, err, raised, adapter_error, agent_output_rejected, is_quota_limit,
}
use tecnosor_sas_migration_d.Graph.Model.{NodeDef}
use tecnosor_sas_migration_d.Node.{NodeResult, Context}
use tecnosor_sas_migration_d.State.Records.{finish_execution}
use tecnosor_sas_migration_d.State.Status.{failed}
use tecnosor_sas_migration_d.State.Tables.{Db, AgentMeta}

-- The error that `render_prompt` ends with, if with one, and `adapter.run` with the prompt for a node and
-- its context and the index of the attempt.
pub record Adapter : Type 0 where
  pub prompt_error : NodeDef → Context → Option Error
  pub run : NodeDef → Context → ℕ → Result Invocation
  pub parser : Parser
  pub max_retries : ℕ

abbrev pub at_least_one : ℕ → ℕ
at_least_one zero = 1
at_least_one (suc n) = suc n

-- `max(limits.max_retries, 1)`
abbrev pub retry_budget : Adapter → ℕ
retry_budget a = at_least_one a.max_retries

abbrev pub has_left : ℕ → Bool
has_left zero = false
has_left (suc n) = true

-- One attempt, with the rest of the loop as `retry`; `left` attempts follow it.
abbrev pub attempted :
    ℕ
    → Result Invocation
    → Option Invocation
    → (Option Invocation → Result (Option Invocation))
    → Result (Option Invocation)
attempted left (ok inv) last retry =
    if inv.timed_out && has_left left then retry (some inv) else ok (some inv)
attempted left (err e) last retry =
    if is_quota_limit e then err e else if has_left left then retry last else err e

-- The loop over the attempts from `index` on, with the last invocation that returned.
unfoldable pub invoke :
    (ℕ → Result Invocation) → ℕ → ℕ → Option Invocation → Result (Option Invocation)
invoke run zero index last = ok last
invoke run (suc left) index last =
    attempted left (run index) last (λ l. invoke run left (index + 1) l)

abbrev pub Built : Type 0
Built = Result (NodeResult × AgentMeta) × Db

-- A rejected output is stored without the exit code; the prefix of the error text is left out.
abbrev pub accept : NodeDef → Context → Invocation → Db → Result NodeResult → Built
accept n c inv db (ok r) = (ok (r, inv.info), db)
accept n c inv db (err e) = (
  err (agent_output_rejected n.id),
  finish_execution c.execution_id failed (some (raised e)) (record inv.info { exit_code = none })
      none db,
)

abbrev pub conclude_agent : Adapter → NodeDef → Context → Db → Result (Option Invocation) → Built
conclude_agent a n c db (err e) = (err e, db)
conclude_agent a n c db (ok none) =
    (err (adapter_error "opencode invocation produced no result"), db)
conclude_agent a n c db (ok (some inv)) =
    accept n c inv db (build_result_from_envelope a.parser inv db)

-- What follows once the prompt was rendered.
abbrev pub with_prompt : Option Error → Db → Built → Built
with_prompt (some e) db rest = (err e, db)
with_prompt none db rest = rest

unfoldable pub execute_opencode : Adapter → NodeDef → Context → Db → Built
execute_opencode a n c db =
    with_prompt (a.prompt_error n c) db
      (conclude_agent a n c db (invoke (a.run n c) (retry_budget a) 0 none))
