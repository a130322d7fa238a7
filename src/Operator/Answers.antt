-- ===== src/Operator/Answers.antt =====
-- cli/main.py: what the command `answer` does to the request and the nodes.
use tecnosor_sas_migration_d.Common.{
  ℕ, String, true, false, Option, none, some, ◌==◌, ◌&&◌, ◌≡◌, refl, ap, sym, ◌∙◌, ◌⊎◌, inl, inr,
  arith, eq_iff, find, map, find_holds, is_empty, Bool-cases, if◌then◌else◌,
}
use tecnosor_sas_migration_d.Errors.{Result, ok, err}
use tecnosor_sas_migration_d.Operator.{
  Desk, Command, keep_attempts, material, resolution_batch, finish_waiting, resumes,
  advance_answered, registered, answer_request,
}
use tecnosor_sas_migration_d.State.Nodes.{only_status, put_node, get_node_state}
use tecnosor_sas_migration_d.State.Nodes.Laws.{status_in, status-put_row}
use tecnosor_sas_migration_d.State.Records.{emit}
use tecnosor_sas_migration_d.State.Requests.{get_request, resolve_request, resolve_row, is_open}
use tecnosor_sas_migration_d.State.Requests.Laws.{find-resolve}
use tecnosor_sas_migration_d.State.Snapshot.{map_option}
use tecnosor_sas_migration_d.State.Status.{Status, ready, succeeded}
use tecnosor_sas_migration_d.State.Tables.{Db, NodeRow, Request, resolved}

-- intake/registration.py writes batches and artifacts: no node state and no request.
pub record KeepsState (desk : Desk) : Type 0 where
  pub nodes : (b d : String) (db : Db) → (desk.register_batch b d db).1.node_states ≡ db.node_states
  pub requests : (b d : String) (db : Db) → (desk.register_batch b d db).1.requests ≡ db.requests

-- The status that an answered request gives to node `k`, from the one that it had.
abbrev pub answered_status : Desk → Request → String → Option Status → Option Status
answered_status desk r k old =
    if resumes desk r && r.resume_node == k
    then some ready
    else if r.node_id == k
    then map_option (λ _. succeeded) old
    else old

abbrev pub status_at : Desk → Db → String → Option Status
status_at desk db k = status_in desk.assessment_id db.node_states k

finish-status :
    (desk : Desk) (r : Request) (k : String) (db : Db) (o : Option NodeRow)
    → get_node_state db desk.assessment_id r.node_id ≡ o
    → status_at desk (finish_waiting desk r.node_id o db) k ≡ (
        if r.node_id == k
        then map_option (λ _. succeeded) (status_at desk db k)
        else status_at desk db k)
unfolding get_node_state put_node
finish-status desk r k db none p = elim (Bool-cases (r.node_id == k)) [
  | inl same ↦ let e : r.node_id ≡ k = (eq_iff r.node_id k).0 same in rw same (rw (← e) (rw p refl))
  | inr other ↦ rw other refl
]
finish-status desk r k db (some q) p =
    status-put_row desk.assessment_id r.node_id k (keep_attempts succeeded q.attempts)
      db.node_states
    ∙ (elim (Bool-cases (r.node_id == k)) [
      | inl same ↦
          let e : r.node_id ≡ k = (eq_iff r.node_id k).0 same in rw same (rw (← e) (rw p refl))
      | inr other ↦ rw other refl
    ])

advance-status :
    (desk : Desk) (r : Request) (k : String) (db : Db)
    → status_at desk (advance_answered desk r db) k ≡ answered_status desk r k (status_at desk db k)
unfolding advance_answered emit put_node
advance-status desk r k db =
    let done = finish_waiting desk r.node_id (get_node_state db desk.assessment_id r.node_id) db in
    let finished = finish-status desk r k db _ refl in
    elim (Bool-cases (resumes desk r)) [
      | inl again ↦
          rw (again, advance_answered)
            (status-put_row desk.assessment_id r.resume_node k (only_status ready) done.node_states
              ∙ ground (arith, finished))
      | inr over ↦ rw (over, advance_answered) (finished ∙ refl)
    ]

-- What an answer that returns 0 did: the request was open, belonged to the assessment and had material;
-- it is RESOLVED with its batch, and every node has the status that the answer gives.
pub record Answered (desk : Desk) (id : String) (db final : Db) : Type 0 where
  pub request : Request
  pub found : get_request db id ≡ some request
  pub was_open : is_open request.status ≡ true
  pub owned : request.assessment_id ≡ desk.assessment_id
  pub has_material : is_empty (material desk request) ≡ false
  pub resolves :
      get_request final id
      ≡ some
          (record request { status = resolved; resolution_batch_id = some (resolution_batch id) })
  pub statuses :
      (k : String) → status_at desk final k ≡ answered_status desk request k (status_at desk db k)

-- the request that the guards of `answer` let through
record Passed (desk : Desk) (id : String) (db : Db) (r : Request) : Type 0 where
  found : get_request db id ≡ some r
  was_open : is_open r.status ≡ true
  owned : (r.assessment_id == desk.assessment_id) ≡ true
  has_material : is_empty (material desk r) ≡ false

abbrev resolved_db : String → Db → Db
resolved_db id db = record db {
  requests = map (resolve_row id resolved (some (resolution_batch id))) db.requests;
}

abbrev registration : Desk → String → Request → Db → Result (Unit {0}) × Db
registration desk id r db =
    desk.register_batch (resolution_batch id) r.destination_batch (resolved_db id db)

resolve-Passed :
    (desk : Desk) (id : String) (db : Db) (r : Request)
    → Passed desk id db r
    → resolve_request id resolved (some (resolution_batch id)) db ≡ (true, resolved_db id db)
unfolding resolve_request
resolve-Passed desk id db r p = rw (p.found, resolve_request, p.was_open) refl

answer-Passed :
    (desk : Desk) (id : String) (db : Db) (r : Request)
    → Passed desk id db r
    → answer_request desk id db ≡ registered desk r (registration desk id r db)
unfolding answer_request
answer-Passed desk id db r p =
    rw (p.found, answer_request, p.owned, p.was_open, p.has_material, resolve-Passed desk id db r p)
      refl

-- Every answer: refused with code 1 and nothing changed, or let through.
answer_cases :
    (desk : Desk) (id : String) (db : Db)
    → (answer_request desk id db ≡ (ok 1, db)) ⊎ (r : Request) × Passed desk id db r
unfolding answer_request
answer_cases desk id db = on_request (get_request db id) refl
  where
    on_request :
        (o : Option Request)
        → get_request db id ≡ o
        → (answer_request desk id db ≡ (ok 1, db)) ⊎ (r : Request) × Passed desk id db r
    on_request none p = inl (rw (p, answer_request) refl)
    on_request (some r) p = elim (Bool-cases (r.assessment_id == desk.assessment_id)) [
      | inr other ↦ inl (rw (p, answer_request, other) refl)
      | inl owned ↦ elim (Bool-cases (is_open r.status)) [
        | inr closed ↦ inl (rw (p, answer_request, owned, closed) refl)
        | inl opened ↦ elim (Bool-cases (is_empty (material desk r))) [
          | inl bare ↦ inl (rw (p, answer_request, owned, opened, bare) refl)
          | inr has ↦
              inr (r, record { found = p; was_open = opened; owned = owned; has_material = has })
        ]
      ]
    ]

finish-requests :
    (desk : Desk) (n : String) (o : Option NodeRow) (db : Db)
    → (finish_waiting desk n o db).requests ≡ db.requests
unfolding put_node
finish-requests desk n none db = refl
finish-requests desk n (some r) db = refl

advance-requests :
    (desk : Desk) (r : Request) (db : Db) → (advance_answered desk r db).requests ≡ db.requests
unfolding advance_answered emit put_node
advance-requests desk r db = elim (Bool-cases (resumes desk r)) [
  | inl again ↦ rw (again, advance_answered) (finish-requests desk r.node_id _ db)
  | inr over ↦ rw (over, advance_answered) (finish-requests desk r.node_id _ db)
]

answered_row :
    (id : String) (db : Db) (r : Request)
    → get_request db id ≡ some r
    → is_open r.status ≡ true
    → find (λ q. q.id == id) (resolved_db id db).requests
      ≡ some (record r { status = resolved; resolution_batch_id = some (resolution_batch id) })
unfolding get_request
answered_row id db r p opened =
    find-resolve id id resolved (some (resolution_batch id)) db.requests
    ∙ rw (p, find_holds (λ q. q.id == id) db.requests r p) refl

registered-Answered :
    (desk : Desk) (id : String) (db : Db) (r : Request)
    → KeepsState desk
    → Passed desk id db r
    → (o : Result (Unit {0}) × Db) → registration desk id r db ≡ o
    → (final : Db) → registered desk r o ≡ (ok 0, final)
    → Answered desk id db final
unfolding get_request
registered-Answered desk id db r keeps p (err e, after) q final h = absurd (cc (ap (λ c. c.0) h))
registered-Answered desk id db r keeps p (ok x, after) q final h = record {
  request = r;
  found = p.found;
  was_open = p.was_open;
  owned = (eq_iff r.assessment_id desk.assessment_id).0 p.owned;
  has_material = p.has_material;
  resolves = ap (find (λ q. q.id == id)) requests ∙ (answered_row id db r p.found p.was_open);
  statuses = λ k.
      ap (λ c. status_at desk c.1 k) (sym h)
      ∙ (advance-status desk r k after
          ∙ ap (λ rows. answered_status desk r k (status_in desk.assessment_id rows k)) nodes);
}
  where
    requests : final.requests ≡ (resolved_db id db).requests
    requests =
        ap (λ c. c.1.requests) (sym h)
        ∙ (advance-requests desk r after
            ∙ (ap (λ c. c.1.requests) (sym q)
                ∙ keeps.requests (resolution_batch id) r.destination_batch (resolved_db id db)))

    nodes : after.node_states ≡ db.node_states
    nodes =
        ap (λ c. c.1.node_states) (sym q)
        ∙ keeps.nodes (resolution_batch id) r.destination_batch (resolved_db id db)

-- An answer that returns 0 did all of it, when the registration of a batch touches no node and no
-- request.
pub answer_request-Answered :
    (desk : Desk) (id : String) (db : Db)
    → KeepsState desk
    → (final : Db) → answer_request desk id db ≡ (ok 0, final)
    → Answered desk id db final
answer_request-Answered desk id db keeps final h = elim (answer_cases desk id db) [
  | inl refused ↦ absurd (omega (arith, ap code (sym refused ∙ h)))
  | inr (r, p) ↦
      registered-Answered desk id db r keeps p (registration desk id r db) refl final
        (sym (answer-Passed desk id db r p) ∙ h)
]
  where
    code : Command → ℕ
    code (ok n, db) = n
    code (err e, db) = 0
