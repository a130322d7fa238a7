-- ===== src/Samples.antt =====
-- A small graph, handlers and databases for the tests: the step "intake" leads to "review", which
-- leads to "report" where a request was resolved. The handler of "review" meets a quota limit.
use tecnosor_sas_migration_d.Common.{
  ℕ, String, false, Option, none, some, List, [], ◌∷◌, ◌==◌, ◌≡◌, refl, ap, ◌∙◌, inl, inr,
  Bool-cases, All, get, some_inj,
}
use tecnosor_sas_migration_d.Engine.Env.{Env}
use tecnosor_sas_migration_d.Engine.Execute.Outcome.{IsQuiet}
use tecnosor_sas_migration_d.Errors.{Result, ok, err, adapter_error, adapter_quota_limit}
use tecnosor_sas_migration_d.Graph.Model.{text, Condition, EdgeDef, NodeDef, GraphDef}
use tecnosor_sas_migration_d.Graph.Predicates.{builtin_predicates}
use tecnosor_sas_migration_d.Node.{NodeResult, Context, Handler, Handlers, get_handler}
use tecnosor_sas_migration_d.Operator.{Desk}
use tecnosor_sas_migration_d.State.Status.{Status, ready, running, succeeded, failed}
use tecnosor_sas_migration_d.State.Tables.{Db, NodeRow, Request, open_request}

abbrev pub step : String → String → List String → NodeDef
step id phase requires = record {
  id = id;
  node_type = "deterministic";
  phase = phase;
  title = id;
  handler = id;
  agent = "";
  phase_gate = false;
  requires = requires;
  join = "all";
  optional = false;
  max_attempts = 2;
}

abbrev pub arrow : String → String → Option Condition → EdgeDef
arrow s t c = record { source = s; target = t; condition = c; priority = 100 }

abbrev pub sample_graph : GraphDef
sample_graph = record {
  graph_id = "sample";
  version = "1";
  entry = "intake";
  nodes =
      step "intake" "phase0" []
      ∷ step "review" "phase1" ("intake" ∷ [])
      ∷ step "report" "phase2" ("review" ∷ [])
      ∷ [];
  edges =
      arrow "intake" "review" none
      ∷ arrow "review" "report"
          (some (record { name = "request_resolved"; args = ("node", text "review") ∷ [] }))
      ∷ [];
  phases = "phase0" ∷ "phase1" ∷ "phase2" ∷ [];
  max_cycles = 2;
}

abbrev pub success : NodeResult
success = record { status = "success"; summary = ""; evidence_used = []; confidence = "CONFIRMED" }

abbrev pub succeeds : Handler
succeeds c db = (ok success, db)

abbrev pub over_quota : Handler
over_quota c db = (err (adapter_quota_limit "limit reached"), db)

abbrev pub sample_handlers : Handlers
sample_handlers = ("intake", succeeds) ∷ ("review", over_quota) ∷ []

abbrev pub sample_env : Env
sample_env = record {
  graph = sample_graph;
  handlers = sample_handlers;
  agent = λ n c db. (err (adapter_error "no agent"), db);
  predicates = builtin_predicates;
  assessment_id = "ASM-1";
  session_id = "SES-1";
  max_node_attempts = 3;
  execution_dir = λ x. x;
  fresh = λ n. "EXE-1";
}

abbrev IsSilent : Handler → Type 0
IsSilent h = (c : Context) (db : Db) → (h c db).1.node_states ≡ db.node_states

abbrev handler_of : Result Handler → Handler
handler_of (ok h) = h
handler_of (err e) = succeeds

-- A handler that is found is one of the registered ones.
found-IsSilent :
    (hs : Handlers) (name : String) (h : Handler)
    → All (λ e. IsSilent e.1) hs
    → get name hs ≡ some h
    → IsSilent h
found-IsSilent [] name h all p = absurd (cc)
found-IsSilent ((j, q) ∷ hs) name h all p = elim (Bool-cases (j == name)) [
  | inl same ↦ rw (← some_inj.0 (rw same at p)) all.0
  | inr other ↦ found-IsSilent hs name h all.1 (rw other at p)
]

pub sample_env-IsQuiet : IsQuiet sample_env
unfolding get_handler
sample_env-IsQuiet = record {
  handler = λ name h found. on_entry name h (get name sample_handlers) refl found;
  agent = λ n c db. refl;
}
  where
    on_entry :
        (name : String) (h : Handler) (o : Option Handler)
        → get name sample_handlers ≡ o
        → get_handler sample_handlers name ≡ ok h
        → IsSilent h
    on_entry name h none p found = absurd (cc (rw (p, get_handler) at found))
    on_entry name h (some q) p found =
        found-IsSilent sample_handlers name h (λ c db. refl, (λ c db. refl, tt))
          (p ∙ ap some (ap handler_of (rw (p, get_handler) at found)))

abbrev pub empty_db : Db
empty_db = record {
  meta = [];
  assessments = [];
  batches = [];
  artifacts = [];
  node_states = [];
  executions = [];
  requests = [];
  evidence = [];
  decisions = [];
  audit = [];
  minted = 0;
}

abbrev pub row_of : String → Status → ℕ → NodeRow
row_of n st attempts = record {
  assessment_id = "ASM-1";
  node_id = n;
  status = st;
  attempts = attempts;
  cycles = 0;
  last_execution_id = none;
  last_error = none;
}

-- "intake" is done and "review" is READY
abbrev pub ready_db : Db
ready_db = record empty_db {
  node_states = row_of "intake" succeeded 1 ∷ row_of "review" ready 1 ∷ [];
}

-- "review" was interrupted
abbrev pub stale_db : Db
stale_db = record empty_db {
  node_states = row_of "intake" succeeded 1 ∷ row_of "review" running 1 ∷ [];
}

-- "review" failed
abbrev pub failed_db : Db
failed_db = record empty_db {
  node_states = row_of "intake" succeeded 1 ∷ row_of "review" failed 2 ∷ [];
}

-- every step is done
abbrev pub done_db : Db
done_db = record empty_db {
  node_states =
      row_of "intake" succeeded 1 ∷ row_of "review" succeeded 1 ∷ row_of "report" succeeded 1 ∷ [];
}

abbrev pub sample_request : Request
sample_request = record {
  id = "REQ-7";
  assessment_id = "ASM-1";
  node_id = "review";
  phase = "phase1";
  priority = "BLOCKING";
  status = open_request;
  title = "catalog";
  missing_info = "catalog";
  reason = "";
  expected_provider = "";
  retrieval_attempted = "";
  accepted_formats = "";
  destination_batch = "inputs";
  security_notes = "";
  resume_node = "report";
  query_pack_path = "";
  request_doc_path = "";
  resolution_batch_id = none;
}

-- "review" waits for the answer of the request
abbrev pub asked_db : Db
asked_db = record ready_db { requests = sample_request ∷ [] }

abbrev pub sample_desk : Desk
sample_desk = record {
  assessment_id = "ASM-1";
  graph = sample_graph;
  files = λ dir. "REQUEST.md" ∷ "catalog.csv" ∷ [];
  register_batch = λ b dir db. (ok tt, db);
}
