-- ===== src/Tests/Operators.antt =====
-- The theorems on the operator's commands, requests and node states at the databases of Samples.
use tecnosor_sas_migration_d.Common.{◌≡◌, refl}
use tecnosor_sas_migration_d.State.Records.{emit}
use tecnosor_sas_migration_d.Errors.{ok}
use tecnosor_sas_migration_d.Operator.{advance_answered, resolution_batch, answer_request}
use tecnosor_sas_migration_d.Operator.Answers.{Answered, KeepsState, answer_request-Answered}
use tecnosor_sas_migration_d.Samples.{asked_db, sample_request, sample_desk}
use tecnosor_sas_migration_d.State.Requests.{create_request, get_request, resolve_request}
use tecnosor_sas_migration_d.State.Requests.Laws.{IsUniqueOpen, create_request-IsUniqueOpen}
use tecnosor_sas_migration_d.State.Nodes.{get_node_state, put_node, put_row}
use tecnosor_sas_migration_d.State.Tables.{Db}

answered_db : Db
answered_db = (answer_request sample_desk "REQ-7" asked_db).1

answered_ok : answer_request sample_desk "REQ-7" asked_db ≡ (ok 0, answered_db)
unfolding answered_db answer_request get_request resolve_request resolution_batch advance_answered
    get_node_state put_node put_row emit
answered_ok = refl

sample_desk-KeepsState : KeepsState sample_desk
sample_desk-KeepsState = record { nodes = λ b d db. refl; requests = λ b d db. refl }

answer_request-Answered_example : Answered sample_desk "REQ-7" asked_db answered_db
answer_request-Answered_example =
    answer_request-Answered sample_desk "REQ-7" asked_db sample_desk-KeepsState answered_db
      answered_ok

create_request-IsUniqueOpen_example :
    IsUniqueOpen (create_request sample_request asked_db).1.requests
create_request-IsUniqueOpen_example =
    create_request-IsUniqueOpen sample_request asked_db (λ _. refl, tt)
