-- ===== src/State/Requests.antt =====
-- sassessment/state/repository.py, human requests.
pub mod Laws
use tecnosor_sas_migration_d.Common.{
  String, Bool, true, false, Option, none, some, List, [], ◌∷◌, ◌++◌, ◌==◌, ◌&&◌, not, map, filter,
  find, any, if◌then◌else◌,
}
use tecnosor_sas_migration_d.Errors.{Result, ok, err, foreign}
use tecnosor_sas_migration_d.State.Tables.{Db, Request, RequestStatus, open_request, resolved}

abbrev pub is_open : RequestStatus → Bool
is_open open_request = true
is_open _ = false

abbrev pub is_resolved : RequestStatus → Bool
is_resolved resolved = true
is_resolved _ = false

-- the rows that the SELECT of `create_request` looks for
abbrev pub is_open_for : String → String → String → Request → Bool
is_open_for a n m r =
    r.assessment_id == a && (r.node_id == n && (r.missing_info == m && is_open r.status))

-- PRIMARY KEY (id), and REFERENCES assessments
abbrev pub is_insertable : Request → Db → Bool
is_insertable r db =
    not (any (λ q. q.id == r.id) db.requests) && any (λ a. a.id == r.assessment_id) db.assessments

-- The request comes with the status OPEN. False: an open one with the same assessment, node and
-- missing information is there already, and nothing is written.
unfoldable pub create_request : Request → Db → Result Bool × Db
create_request r db =
    if any (is_open_for r.assessment_id r.node_id r.missing_info) db.requests
    then (ok false, db)
    else if not (is_insertable r db)
    then (err (foreign "IntegrityError"), db)
    else (
      ok true,
      record db {
        requests =
            db.requests ++ record r { status = open_request; resolution_batch_id = none } ∷ [];
      },
    )

unfoldable pub get_request : Db → String → Option Request
get_request db k = find (λ r. r.id == k) db.requests

unfoldable pub list_requests : Db → String → List Request
list_requests db a = filter (λ r. r.assessment_id == a) db.requests

-- `list_requests(a, status="OPEN")`
unfoldable pub list_open_requests : Db → String → List Request
list_open_requests db a = filter (λ r. r.assessment_id == a && is_open r.status) db.requests

abbrev pub resolve_row : String → RequestStatus → Option String → Request → Request
resolve_row k status batch r =
    if r.id == k then record r { status = status; resolution_batch_id = batch } else r

abbrev pub is_open_row : Option Request → Bool
is_open_row none = false
is_open_row (some r) = is_open r.status

unfoldable pub resolve_request : String → RequestStatus → Option String → Db → Bool × Db
unfolding get_request
resolve_request k status batch db =
    if is_open_row (get_request db k)
    then (true, record db { requests = map (resolve_row k status batch) db.requests })
    else (false, db)
