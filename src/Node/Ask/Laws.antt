-- ===== src/Node/Ask/Laws.antt =====
-- nodes/base.py: `request_human_input` answers with an open request for its question.
use tecnosor_sas_migration_d.Common.{
  String, Bool, true, false, none, some, List, [], ◌∷◌, ◌++◌, ◌==◌, ◌&&◌, ◌≡◌, refl, ap, ◌∙◌, arith,
  eq_refl, any, find, filter, Bool-cases, inl, inr,
}
use tecnosor_sas_migration_d.Errors.{ok}
use tecnosor_sas_migration_d.Node.{Context}
use tecnosor_sas_migration_d.Node.Ask.{
  RequestSpec, is_same_question, found_open, request_human_input,
}
use tecnosor_sas_migration_d.State.Records.{emit}
use tecnosor_sas_migration_d.State.Requests.{
  is_open, is_open_for, create_request, list_open_requests,
}
use tecnosor_sas_migration_d.State.Tables.{Db, Request}

-- An open request of the table that asks the question under the identifier.
abbrev pub asks : Context → RequestSpec → String → Request → Bool
asks c spec id r = r.id == id && is_open_for c.assessment_id c.node_id spec.missing_info r

find-list_open :
    (c : Context) (spec : RequestSpec) (rs : List Request)
    → find
        (is_same_question c spec)
        (filter (λ r. r.assessment_id == c.assessment_id && is_open r.status) rs)
      ≡ find (is_open_for c.assessment_id c.node_id spec.missing_info) rs
find-list_open c spec [] = refl
find-list_open c spec (r ∷ rs) = ground (arith, find-list_open c spec rs)

any-find :
    (p : Request → Bool) (rs : List Request)
    → any p rs ≡ true
    → (r : Request) × (find p rs ≡ some r) × (any (λ q. q.id == r.id && p q) rs ≡ true)
any-find p [] h = absurd (cc)
any-find p (r ∷ rs) h = elim (Bool-cases (p r)) [
  | inl here ↦ (r, rw here refl, ground (arith, here, eq_refl r.id))
  | inr other ↦ let (q, f, a) = any-find p rs (rw other at h) in (q, rw other f, ground (arith, a))
]

found_asks :
    (c : Context) (spec : RequestSpec) (rs : List Request)
    → any (is_open_for c.assessment_id c.node_id spec.missing_info) rs ≡ true
    → (id : String) × (found_open (
          find
            (is_same_question c spec)
            (filter (λ r. r.assessment_id == c.assessment_id && is_open r.status) rs))
        ≡ ok id)
      × (any (asks c spec id) rs ≡ true)
found_asks c spec rs h =
    let (r, f, a) = any-find (is_open_for c.assessment_id c.node_id spec.missing_info) rs h in
    (r.id, ap found_open (find-list_open c spec rs ∙ f), a)

any-last :
    (p : Request → Bool) (rs : List Request) (r : Request)
    → p r ≡ true
    → any p (rs ++ r ∷ []) ≡ true
any-last p [] r h = ground (arith, h)
any-last p (q ∷ rs) r h = ground (arith, any-last p rs r h)

-- Where the files of the request can be written, the assessment is there, and no request has the
-- identifier drawn: a request for human input answers the identifier of an open request of the database
-- that it leaves, which asks for the same information for the same node, also when such a request was
-- there before.
pub request_human_input-asks :
    (intake_raw rid : String) (c : Context) (spec : RequestSpec) (db : Db)
    → any (λ a. a.id == c.assessment_id) db.assessments ≡ true
    → any (λ q. q.id == rid) db.requests ≡ false
    → (id : String) × ((request_human_input intake_raw rid none c spec db).0 ≡ ok id)
      × (any (asks c spec id) (request_human_input intake_raw rid none c spec db).1.requests ≡ true)
unfolding request_human_input create_request list_open_requests emit
request_human_input-asks intake_raw rid c spec db known free =
    elim (Bool-cases (any (is_open_for c.assessment_id c.node_id spec.missing_info) db.requests)) [
      | inl there ↦
          let (id, p, q) = found_asks c spec db.requests there in
          (
            id,
            rw (request_human_input, there, create_request) p,
            rw (request_human_input, there, create_request) q,
          )
      | inr fresh ↦ (
        rid,
        rw (request_human_input, fresh, free, known, create_request) refl,
        rw (request_human_input, fresh, free, known, create_request)
            (any-last (asks c spec rid) db.requests _ (
              ground (
                arith,
                eq_refl rid,
                eq_refl c.assessment_id,
                eq_refl c.node_id,
                eq_refl spec.missing_info,
              ))),
      )
    ]
