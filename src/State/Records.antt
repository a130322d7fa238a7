-- ===== src/State/Records.antt =====
-- sassessment/state/repository.py: meta, assessments, executions, decisions, evidence and the rows of
-- the audit trail. Identifiers drawn by `new_id` are taken to be different, so no INSERT meets a key
-- that is there.
use tecnosor_sas_migration_d.Common.{
  ℕ, String, Bool, Option, none, some, List, [], ◌∷◌, ◌++◌, ◌==◌, map, find, any, get,
  if◌then◌else◌,
}
use tecnosor_sas_migration_d.Errors.{ErrorText}
use tecnosor_sas_migration_d.State.Status.{Status}
use tecnosor_sas_migration_d.State.Tables.{
  Db, Assessment, Execution, AgentMeta, Decision, Evidence, AuditEvent,
}

unfoldable pub get_meta : Db → String → Option String
get_meta db k = get k db.meta

abbrev set_key : String → String → List (String × String) → List (String × String)
set_key k v [] = (k, v) ∷ []
set_key k v ((j, w) ∷ m) = if j == k then (j, v) ∷ m else (j, w) ∷ set_key k v m

-- ON CONFLICT(key) DO UPDATE
unfoldable pub set_meta : String → String → Db → Db
set_meta k v db = record db { meta = set_key k v db.meta }

unfoldable pub get_assessment : Db → String → Option Assessment
get_assessment db a = find (λ r. r.id == a) db.assessments

abbrev pub or_old : Option String → String → String
or_old none old = old
or_old (some new) old = new

-- The columns of `update_assessment`; an argument that is None leaves its column.
unfoldable pub update_assessment : String → Option String → Option String → Db → Db
update_assessment a status phase db = record db {
  assessments =
      map
        (λ r.
          if r.id == a
          then record r {
            status = or_old status r.status;
            current_phase = or_old phase r.current_phase;
          }
          else r)
        db.assessments;
}

abbrev pub no_meta : AgentMeta
no_meta = record {
  prompt_hash = none;
  model = none;
  provider = none;
  opencode_session_id = none;
  exit_code = none;
}

unfoldable pub create_execution : String → String → String → String → ℕ → Status → Db → Db
create_execution x session a n attempt status db = record db {
  executions =
      db.executions
      ++ record {
        id = x;
        session_id = session;
        assessment_id = a;
        node_id = n;
        attempt = attempt;
        status = status;
        error = none;
        agent_meta = no_meta;
        result_path = none;
      }
        ∷ [];
}

-- Every column of the UPDATE is written, those that are not given with NULL.
unfoldable pub finish_execution :
    String → Status → Option ErrorText → AgentMeta → Option String → Db → Db
finish_execution x status error info path db = record db {
  executions =
      map
        (λ r.
          if r.id == x
          then record r { status = status; error = error; agent_meta = info; result_path = path }
          else r)
        db.executions;
}

unfoldable pub get_execution : Db → String → Option Execution
get_execution db x = find (λ r. r.id == x) db.executions

unfoldable pub create_decision : Decision → Db → Db
create_decision d db = record db { decisions = db.decisions ++ d ∷ [] }

unfoldable pub create_evidence : Evidence → Db → Db
create_evidence e db = record db { evidence = db.evidence ++ e ∷ [] }

unfoldable pub has_evidence : Db → String → Bool
has_evidence db k = any (λ e. e.id == k) db.evidence

-- The audit trail's row; the JSONL copy of it is left out.
unfoldable pub emit : AuditEvent → Db → Db
emit e db = record db { audit = db.audit ++ e ∷ [] }
