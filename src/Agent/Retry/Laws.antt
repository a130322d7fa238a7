-- ===== src/Agent/Retry/Laws.antt =====
-- graph/engine.py, `_execute_opencode`: a quota limit is never retried, what is accepted is trusted, and
-- the node states are left alone.
use tecnosor_sas_migration_d.Common.{
  ℕ, zero, suc, true, Option, none, some, ◌&&◌, ◌+◌, ◌≡◌, ◌≢◌, refl, sym, ap, ◌∙◌, arith,
  Bool-cases, inl, inr,
}
use tecnosor_sas_migration_d.Agent.Envelope.{Invocation, build_result_from_envelope}
use tecnosor_sas_migration_d.Agent.Envelope.Laws.{IsTrusted, build_result_from_envelope-IsTrusted}
use tecnosor_sas_migration_d.Agent.Retry.{
  Adapter, retry_budget, has_left, attempted, invoke, Built, accept, conclude_agent, with_prompt,
  execute_opencode,
}
use tecnosor_sas_migration_d.Errors.{Error, Result, ok, err, is_quota_limit}
use tecnosor_sas_migration_d.Graph.Model.{NodeDef}
use tecnosor_sas_migration_d.Node.{NodeResult, Context}
use tecnosor_sas_migration_d.State.Records.{finish_execution}
use tecnosor_sas_migration_d.State.Tables.{Db, AgentMeta}

attempted_answers :
    (left : ℕ) (o : Result Invocation) (last : Option Invocation)
    (retry : Option Invocation → Result (Option Invocation))
    → ((l : Option Invocation) → has_left left ≡ true → retry l ≢ ok none)
    → attempted left o last retry ≢ ok none
attempted_answers left (ok inv) last retry ih h =
    elim (Bool-cases (inv.timed_out && has_left left)) [
      | inl late ↦ ih (some inv) (ground (arith, late)) (rw late at h)
      | inr fine ↦ cc (rw fine at h)
    ]
attempted_answers left (err e) last retry ih h = elim (Bool-cases (is_quota_limit e)) [
  | inl quota ↦ cc (rw quota at h)
  | inr other ↦ elim (Bool-cases (has_left left)) [
    | inl more ↦ ih last more (rw (other, more) at h)
    | inr over ↦ cc (rw (other, over) at h)
  ]
]

-- A loop with an attempt left answers an invocation or raises an error of the adapter: it never ends
-- without either.
pub invoke_answers :
    (run : ℕ → Result Invocation) (left index : ℕ) (last : Option Invocation)
    → invoke run (suc left) index last ≢ ok none
unfolding invoke
invoke_answers run zero index last =
    attempted_answers 0 (run index) last (λ l. invoke run 0 (index + 1) l) (λ l t. absurd (cc))
invoke_answers run (suc left) index last =
    attempted_answers (suc left) (run index) last (λ l. invoke run (suc left) (index + 1) l)
      (λ l t. invoke_answers run left (index + 1) l)

accept-IsTrusted :
    (n : NodeDef) (c : Context) (inv : Invocation) (a : Adapter) (db final : Db) (r : NodeResult)
    (info : AgentMeta) (o : Result NodeResult)
    → build_result_from_envelope a.parser inv db ≡ o
    → accept n c inv db o ≡ (ok (r, info), final)
    → IsTrusted db r × (final ≡ db)
accept-IsTrusted n c inv a db final r info (err e) p h = absurd (cc (ap (λ x. x.0) h))
accept-IsTrusted n c inv a db final r info (ok q) p h = (
  build_result_from_envelope-IsTrusted a.parser inv db r (p ∙ ap ok (ap (result_or q) h)),
  sym (ap (λ x. x.1) h),
)
  where
    result_or : NodeResult → Built → NodeResult
    result_or d (ok (r, info), db) = r
    result_or d (err e, db) = d

-- A result that an agent node gives to the engine passes `NodeResult.validate`, has a summary and cites
-- only evidence of the store, and the database is as it was.
pub execute_opencode-IsTrusted :
    (a : Adapter) (n : NodeDef) (c : Context) (db final : Db) (r : NodeResult) (info : AgentMeta)
    → execute_opencode a n c db ≡ (ok (r, info), final)
    → IsTrusted db r × (final ≡ db)
unfolding execute_opencode
execute_opencode-IsTrusted a n c db final r info h =
    on_prompt (a.prompt_error n c) (invoke (a.run n c) (retry_budget a) 0 none) h
  where
    on_invocation :
        (o : Result (Option Invocation))
        → conclude_agent a n c db o ≡ (ok (r, info), final)
        → IsTrusted db r × (final ≡ db)
    on_invocation (err e) h = absurd (cc (ap (λ x. x.0) h))
    on_invocation (ok none) h = absurd (cc (ap (λ x. x.0) h))
    on_invocation (ok (some inv)) h = accept-IsTrusted n c inv a db final r info _ refl h

    on_prompt :
        (p : Option Error) (o : Result (Option Invocation))
        → with_prompt p db (conclude_agent a n c db o) ≡ (ok (r, info), final)
        → IsTrusted db r × (final ≡ db)
    on_prompt (some e) o h = absurd (cc (ap (λ x. x.0) h))
    on_prompt none o h = on_invocation o h

accept-nodes :
    (n : NodeDef) (c : Context) (inv : Invocation) (db : Db) (o : Result NodeResult)
    → (accept n c inv db o).1.node_states ≡ db.node_states
unfolding finish_execution
accept-nodes n c inv db (ok r) = refl
accept-nodes n c inv db (err e) = refl

-- An agent node leaves the node states as they are, on every path, also where its output is rejected or
-- it raises.
pub execute_opencode-nodes :
    (a : Adapter) (n : NodeDef) (c : Context) (db : Db)
    → (execute_opencode a n c db).1.node_states ≡ db.node_states
unfolding execute_opencode
execute_opencode-nodes a n c db =
    on_prompt (a.prompt_error n c) (invoke (a.run n c) (retry_budget a) 0 none)
  where
    on_invocation :
        (o : Result (Option Invocation))
        → (conclude_agent a n c db o).1.node_states ≡ db.node_states
    on_invocation (err e) = refl
    on_invocation (ok none) = refl
    on_invocation (ok (some inv)) =
        accept-nodes n c inv db (build_result_from_envelope a.parser inv db)

    on_prompt :
        (p : Option Error) (o : Result (Option Invocation))
        → (with_prompt p db (conclude_agent a n c db o)).1.node_states ≡ db.node_states
    on_prompt (some e) o = refl
    on_prompt none o = on_invocation o

-- Once the prompt was rendered, a quota limit on the first attempt is raised at once, whatever the budget and later attempts.
pub quota_not_retried :
    (a : Adapter) (n : NodeDef) (c : Context) (db : Db) (e : Error)
    → a.prompt_error n c ≡ none
    → a.run n c 0 ≡ err e
    → is_quota_limit e ≡ true
    → execute_opencode a n c db ≡ (err e, db)
unfolding execute_opencode invoke
quota_not_retried a n c db e rendered first quota = on_budget a.max_retries refl
  where
    on_budget : (m : ℕ) → a.max_retries ≡ m → execute_opencode a n c db ≡ (err e, db)
    on_budget zero p = rw (rendered, p, execute_opencode, first, invoke, quota) refl
    on_budget (suc m) p = rw (rendered, p, execute_opencode, first, invoke, quota) refl
