-- ===== src/Tests.antt =====
-- The theorems on the engine and the graph at the concrete graph and databases of Samples.
pub mod Agents
pub mod Operators
pub mod Logs
pub mod Assembly
pub mod Loading
pub mod Checkpoints
pub mod Intake
use tecnosor_sas_migration_d.Engine.Completion.Report.Laws.{completed_unlimited}
use tecnosor_sas_migration_d.Engine.Completion.Report.{completion_report}
use tecnosor_sas_migration_d.Legacy.Loops.{iterate_loop_runs}
use tecnosor_sas_migration_d.Legacy.Loops.Laws.{iterate_loop_runs-IsPlain, IsPlain}
use tecnosor_sas_migration_d.Node.Ask.Laws.{request_human_input-asks, asks}
use tecnosor_sas_migration_d.Legacy.Lifecycle.{build_lifecycle}
use tecnosor_sas_migration_d.Agent.Retry.Laws.{
  quota_not_retried, invoke_answers, execute_opencode-nodes, execute_opencode-IsTrusted,
}
use tecnosor_sas_migration_d.State.Knowledge.Laws.{
  upsert_data_object-IsUniqueObjects, supersede_once, IsUniqueObjects,
}
use tecnosor_sas_migration_d.State.Knowledge.{
  upsert_data_object, active_finding, supersede_finding, Knowledge, DataObject, Finding,
}
use tecnosor_sas_migration_d.Legacy.Outcome.{derive_status_evidence}
use tecnosor_sas_migration_d.Legacy.Lifecycle.Laws.{
  is_opening, build_lifecycle-IsConsistent, IsConsistent,
}
use tecnosor_sas_migration_d.Legacy.Records.{absent, number, ParsedRecord}
use tecnosor_sas_migration_d.Node.Ask.{request_human_input, RequestSpec}
use tecnosor_sas_migration_d.Agent.Blocks.{
  mentions_status, closes, scan_char, block_length, blocks, largest, largest_brace_block,
}
use tecnosor_sas_migration_d.Agent.Envelope.Laws.{IsTrusted}
use tecnosor_sas_migration_d.Agent.Retry.{invoke, execute_opencode, Adapter}
use tecnosor_sas_migration_d.Agent.Envelope.{
  checked, envelope_of, first_envelope, extract_envelope, build_result_from_envelope, Document,
  Invocation,
}
use tecnosor_sas_migration_d.Agent.Envelope
use tecnosor_sas_migration_d.Graph.Reach.Laws.{reachable_nodes-Reachable, Reachable}
use tecnosor_sas_migration_d.Graph.Reach.{push, visit, reachable_nodes}
use tecnosor_sas_migration_d.Graph.Validate.Laws.{problems-IsWellFormed, IsWellFormed}
use tecnosor_sas_migration_d.Graph.Validate.{
  is_distinct, node_ids_valid, node_problems, edge_problems, unreachable_nodes, problems,
}
use mathlib.Core.List.{Memᴰ}
use tecnosor_sas_migration_d.Common.Sorting
use tecnosor_sas_migration_d.State.Nodes.Laws.{get_node_state-put_node}
use tecnosor_sas_migration_d.Graph.Predicates.{always, evaluate}
use tecnosor_sas_migration_d.Graph.Model.{NodeDef, outgoing}
use tecnosor_sas_migration_d.Common.Texts.{starts_with, is_blank}
use tecnosor_sas_migration_d.Common.{
  filter, length, List, ◌≤◌, mem, ◌↔◌, eq_iff, String, true, false, some, none, [], ◌∷◌, ◌≡◌, ◌≢◌,
  refl, ◌⊎◌, arith, All,
}
use tecnosor_sas_migration_d.Engine.Completion.{assessment_completion, completed, blocked}
use tecnosor_sas_migration_d.Engine.Completion.Laws.{IsDone, completed_sound, failed_blocks}
use tecnosor_sas_migration_d.Engine.Execute.{
  RunOutcome, settle, succeed, mark_succeeded, outcome, run_node, run_guarded, run_attempt, execute,
  mark_running, hold_for_quota,
}
use tecnosor_sas_migration_d.Engine.Env.{new_id}
use tecnosor_sas_migration_d.Node.{NodeResult, Context, validate, get_handler}
use tecnosor_sas_migration_d.State.Records.{
  has_evidence, no_meta, get_execution, create_decision, create_execution, finish_execution, emit,
}
use tecnosor_sas_migration_d.State.Snapshot.{
  node_status-state_snapshot, node_status, state_snapshot,
}
use tecnosor_sas_migration_d.Engine.Execute.Guards.{Started, Refused, run_node-cases}
use tecnosor_sas_migration_d.Engine.Execute.Isolation.{
  RanRow, run_node-isolated, run_node-RanRow, run_node-RouteChange,
}
use tecnosor_sas_migration_d.Engine.Execute.Bounds.{IsBounded, run_node-IsBounded}
use tecnosor_sas_migration_d.Engine.Loop.{after_run, finish, run, run_steps}
use tecnosor_sas_migration_d.Engine.Loop.Laws.{
  IsCounted, run_steps-IsCounted, run-IsBounded, dry_run_keeps,
}
use tecnosor_sas_migration_d.Engine.Recover.{
  cancel_execution, recover_row, recover_rows, recover_stale_running,
}
use tecnosor_sas_migration_d.Engine.Recover.Laws.{recover_not_running}
use tecnosor_sas_migration_d.Engine.Route.{
  maybe_advance_phase, record_decision, route_edge, route_edges, fired_by, route_from,
}
use tecnosor_sas_migration_d.Engine.Route.Laws.{
  is_active, Fires, row, RouteChange, Activated, route_from-RouteChange, route_from-active,
}
use tecnosor_sas_migration_d.Engine.Select.{
  phase_rank, prerequisites_met, candidate, candidates, next_runnable,
}
use tecnosor_sas_migration_d.Engine.Select.Laws.{
  IsFirst, IsEligible, next_runnable_sound, next_runnable_complete,
}
use tecnosor_sas_migration_d.Errors.{adapter_quota_limit, err, ok}
use tecnosor_sas_migration_d.Operator.{advance_answered, resolution_batch, unblock, answer_request}
use tecnosor_sas_migration_d.Operator.Laws.{Released, unblock_cases}
use tecnosor_sas_migration_d.Samples.{
  arrow, row_of, step, sample_graph, sample_env, sample_env-IsQuiet, success, empty_db, ready_db,
  stale_db, failed_db, done_db, asked_db, sample_request, sample_desk,
}
use tecnosor_sas_migration_d.State.Requests.{
  list_open_requests, create_request, get_request, resolve_request,
}
use tecnosor_sas_migration_d.State.Requests.Laws.{
  IsUniqueOpen, create_request-IsUniqueOpen, resolve_request-IsUniqueOpen, get_request-resolve,
}
use tecnosor_sas_migration_d.State.Nodes.{
  only_status, get_node_state, put_node, put_row, list_node_states,
}
use tecnosor_sas_migration_d.State.Status.{
  cancelled, succeeded, ready, running, waiting_for_approval,
}
use tecnosor_sas_migration_d.State.Tables.{Execution, exited, Db, resolved}

-- the database after "review" met the quota limit
abbrev held_db : Db
held_db = (run_node sample_env "review" ready_db).1

held :
    run_node sample_env "review" ready_db
    ≡ (ok (outcome "review" (some "EXE-1") waiting_for_approval), held_db)
unfolding run_node run_guarded run_attempt execute mark_running hold_for_quota get_node_state
    put_node get_handler new_id create_execution finish_execution emit state_snapshot put_row
held = refl

run_node-cases_example :
    Refused (get_node_state held_db "ASM-1" "review") held_db (run_node sample_env "review" held_db)
    ⊎ Started sample_env "review" held_db (run_node sample_env "review" held_db)
run_node-cases_example = run_node-cases sample_env "review" held_db

review_ne_intake : (◌≢◌ {A = String}) "review" "intake"
review_ne_intake e = absurd (cc ((eq_iff "review" "intake").1 e))

run_node-isolated_example :
    get_node_state held_db "ASM-1" "intake" ≡ get_node_state ready_db "ASM-1" "intake"
run_node-isolated_example =
    run_node-isolated sample_env sample_env-IsQuiet "review" ready_db
      (outcome "review" (some "EXE-1") waiting_for_approval) held_db held (cc) "intake"
      review_ne_intake

run_node-RanRow_example :
    RanRow
      (outcome "review" (some "EXE-1") waiting_for_approval)
      (get_node_state ready_db "ASM-1" "review")
      (get_node_state held_db "ASM-1" "review")
run_node-RanRow_example =
    run_node-RanRow sample_env sample_env-IsQuiet "review" ready_db
      (outcome "review" (some "EXE-1") waiting_for_approval) held_db held "EXE-1" refl

empty-IsBounded : IsBounded sample_env []
empty-IsBounded k n p = omega arith

run_node-IsBounded_example :
    IsBounded sample_env (run_node sample_env "intake" empty_db).1.node_states
run_node-IsBounded_example =
    run_node-IsBounded sample_env sample_env-IsQuiet "intake" empty_db empty-IsBounded

run-IsBounded_example : IsBounded sample_env (run sample_env false 5 0 empty_db).db.node_states
run-IsBounded_example =
    run-IsBounded sample_env sample_env-IsQuiet false 5 0 empty_db empty-IsBounded

-- the database and the outcome of the first run
abbrev started_db : Db
started_db = (run_node sample_env "intake" empty_db).1

abbrev first_outcome : RunOutcome
first_outcome = record (outcome "intake" (some "EXE-1") succeeded) {
  fired_edges =
      fired_by (arrow "intake" "review" none)
        (record { name = "always"; args = []; result = true });
  decision_ids = "EXE-1" ∷ [];
}

first_run : run_node sample_env "intake" empty_db ≡ (ok first_outcome, started_db)
unfolding run_node run_guarded run_attempt execute mark_running get_node_state put_node get_handler
    new_id create_execution finish_execution emit state_snapshot put_row settle validate is_blank
    succeed mark_succeeded route_from route_edges route_edge record_decision create_decision
    evaluate always outgoing maybe_advance_phase Sorting.sort
first_run = refl

run_node-RouteChange_example :
    (get_node_state started_db "ASM-1" "review" ≡ get_node_state empty_db "ASM-1" "review")
    ⊎ (first_outcome.status ≡ succeeded)
      × Activated
          (outgoing sample_graph "intake")
          "review"
          (get_node_state empty_db "ASM-1" "review")
          (get_node_state started_db "ASM-1" "review")
run_node-RouteChange_example =
    run_node-RouteChange sample_env sample_env-IsQuiet "intake" empty_db first_outcome started_db
      first_run "review" (λ e. absurd (cc ((eq_iff "intake" "review").1 e)))

route_from-RouteChange_example :
    RouteChange (outgoing sample_graph "intake") "review" (row sample_env empty_db "review") (
      row sample_env
        (route_from sample_env (step "intake" "phase0" []) success empty_db).1
        "review")
route_from-RouteChange_example =
    route_from-RouteChange sample_env (step "intake" "phase0" []) success empty_db "review"

chosen : next_runnable sample_env ready_db ≡ some (step "review" "phase1" ("intake" ∷ []))
unfolding next_runnable candidates candidate prerequisites_met state_snapshot list_node_states
    phase_rank Sorting.sort
chosen = refl

nothing_runs : next_runnable sample_env failed_db ≡ none
unfolding next_runnable candidates candidate prerequisites_met state_snapshot list_node_states
    phase_rank Sorting.sort
nothing_runs = refl

next_runnable_sound_example :
    Memᴰ (step "review" "phase1" ("intake" ∷ [])) sample_graph.nodes
    × IsEligible sample_graph
        (state_snapshot ready_db "ASM-1")
        (step "review" "phase1" ("intake" ∷ []))
    × IsFirst sample_graph
        (state_snapshot ready_db "ASM-1")
        (step "review" "phase1" ("intake" ∷ []))
next_runnable_sound_example =
    next_runnable_sound sample_env ready_db (step "review" "phase1" ("intake" ∷ [])) chosen

next_runnable_complete_example :
    All (λ n. ¬ IsEligible sample_graph (state_snapshot failed_db "ASM-1") n) sample_graph.nodes
next_runnable_complete_example = next_runnable_complete sample_env failed_db nothing_runs

recover_not_running_example : ready ≢ running
unfolding recover_stale_running recover_rows recover_row cancel_execution get_execution emit
    list_node_states get_node_state put_node put_row Sorting.sort
recover_not_running_example =
    recover_not_running sample_env stale_db "review" (row_of "review" ready 1) refl

abbrev stale_execution : Execution
stale_execution = record {
  id = "EXE-1";
  session_id = "SES-1";
  assessment_id = "ASM-1";
  node_id = "review";
  attempt = 1;
  status = running;
  error = none;
  agent_meta = no_meta;
  result_path = none;
}

-- the row of the node names the execution
abbrev crashed_db : Db
crashed_db = record stale_db {
  node_states = record (row_of "review" running 1) { last_execution_id = some "EXE-1" } ∷ [];
  executions = stale_execution ∷ [];
}

crashed_cancelled :
    get_execution (recover_stale_running sample_env crashed_db).1 "EXE-1"
    ≡ some (record stale_execution { status = cancelled })
unfolding recover_stale_running recover_rows recover_row cancel_execution get_execution emit
    list_node_states finish_execution put_node put_row Sorting.sort
crashed_cancelled = refl

done_completed : assessment_completion sample_env done_db ≡ completed
unfolding assessment_completion state_snapshot list_open_requests Sorting.sort list_node_states
done_completed = refl

completed_sound_example :
    (list_open_requests done_db "ASM-1" ≡ [])
    × All (IsDone (state_snapshot done_db "ASM-1")) sample_graph.nodes
completed_sound_example = completed_sound sample_env done_db done_completed

completed_unlimited_example : (completion_report sample_env done_db).limitations ≡ []
unfolding completion_report
completed_unlimited_example = completed_unlimited sample_env done_db done_completed

unblock_cases_example :
    (unblock sample_desk "review" failed_db ≡ (ok 1, failed_db))
    ⊎ ((unblock sample_desk "review" failed_db).0 ≡ ok 0)
      × Released sample_desk "review" failed_db (unblock sample_desk "review" failed_db).1
unblock_cases_example = unblock_cases sample_desk "review" failed_db

two_runs :
    (run_steps sample_env 3 0 empty_db).result
    ≡ ok (first_outcome ∷ outcome "review" (some "EXE-1") waiting_for_approval ∷ [])
unfolding run_steps next_runnable candidates candidate prerequisites_met list_node_states phase_rank
    Sorting.sort run_node run_guarded run_attempt execute mark_running get_node_state put_node
    get_handler new_id create_execution finish_execution emit state_snapshot put_row settle validate
    is_blank succeed mark_succeeded route_from route_edges route_edge record_decision
    create_decision evaluate always outgoing maybe_advance_phase hold_for_quota finish after_run
two_runs = refl

run_steps-IsCounted_example :
    IsCounted sample_env 3 0
      (run_steps sample_env 3 0 empty_db)
      (first_outcome ∷ outcome "review" (some "EXE-1") waiting_for_approval ∷ [])
run_steps-IsCounted_example = run_steps-IsCounted sample_env 3 0 empty_db _ two_runs

-- routing out of "intake"
abbrev pub intake : NodeDef
intake = step "intake" "phase0" []

abbrev routed_db : Db
routed_db = (route_from sample_env intake success empty_db).1

routed :
    route_from sample_env intake success empty_db
    ≡ (ok (first_outcome.fired_edges, first_outcome.decision_ids), routed_db)
unfolding route_from route_edges route_edge record_decision create_decision evaluate always outgoing
    get_node_state put_node put_row new_id emit state_snapshot Sorting.sort
routed = refl

route_from-active_example :
    All
      (λ e.
        Fires sample_env (state_snapshot empty_db "ASM-1") e
        → is_active (row sample_env routed_db e.target) ≡ true)
      (outgoing sample_graph "intake")
route_from-active_example =
    route_from-active sample_env intake success empty_db routed_db
      (first_outcome.fired_edges, first_outcome.decision_ids) routed

reachable_nodes-Reachable_example :
    (mem "report" (reachable_nodes sample_graph) ≡ true) ↔ Reachable sample_graph "report"
reachable_nodes-Reachable_example = reachable_nodes-Reachable sample_graph "report"

no_problems : problems sample_graph ≡ []
unfolding problems edge_problems node_problems unreachable_nodes reachable_nodes visit push outgoing
    node_ids_valid is_distinct Sorting.sort
no_problems = refl

complete : assessment_completion sample_env done_db ≡ completed
unfolding assessment_completion state_snapshot list_node_states list_open_requests Sorting.sort
complete = refl
