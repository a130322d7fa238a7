-- ===== src/Agent/Envelope/Laws.antt =====
-- opencode_adapter/envelope.py: what holds of a result that was built from an agent's output.
use tecnosor_sas_migration_d.Common.Texts.{contains}
use tecnosor_sas_migration_d.Common.{
  String, true, false, List, [], ◌∷◌, ◌&&◌, not, ◌==◌, ◌≡◌, refl, ap, mem, is_empty, All,
  Bool-cases, inl, inr,
}
use tecnosor_sas_migration_d.Common.Texts.{is_blank}
use tecnosor_sas_migration_d.Agent.Envelope.{
  Parser, ResultEnvelope, Invocation, extract_envelope, evidence_problems, problems, is_bad_exit,
  unknown_refs, node_result, checked, then_checked, build_result_from_envelope,
}
use tecnosor_sas_migration_d.Errors.{Result, ok, err}
use tecnosor_sas_migration_d.Node.{
  NodeResult, valid_statuses, confidences, blank_evidence, validate,
}
use tecnosor_sas_migration_d.State.Records.{has_evidence}
use tecnosor_sas_migration_d.State.Tables.{Db}

-- A result that the engine can trust: `NodeResult.validate` finds nothing, and every evidence
-- identifier is one of the store.
pub record IsTrusted (db : Db) (r : NodeResult) : Type 0 where
  pub valid : validate r ≡ []
  pub known : All (λ ev. has_evidence db ev ≡ true) r.evidence_used
  pub summary : (r.summary == "") ≡ false

no_blank : (evs : List String) → is_empty (evidence_problems evs) ≡ true → blank_evidence evs ≡ []
no_blank [] h = refl
no_blank (ev ∷ evs) h = elim (Bool-cases (is_blank ev)) [
  | inl blank ↦ absurd (cc (rw blank at h))
  | inr fine ↦ rw fine (no_blank evs (rw fine at h))
]

stored_evidence :
    (db : Db) (evs : List String)
    → is_empty (unknown_refs db evs) ≡ true
    → All (λ ev. has_evidence db ev ≡ true) evs
stored_evidence db [] h = tt
stored_evidence db (ev ∷ evs) h = elim (Bool-cases (has_evidence db ev)) [
  | inl known ↦ (known, stored_evidence db evs (rw known at h))
  | inr missing ↦ absurd (cc (rw missing at h))
]

no_problems :
    (e : ResultEnvelope)
    → is_empty (problems e) ≡ true
    → (validate (node_result e) ≡ []) × ((e.summary == "") ≡ false)
unfolding problems validate
no_problems e h = elim (Bool-cases (mem e.status valid_statuses)) [
  | inr illegal ↦ absurd (cc (rw illegal at h))
  | inl legal ↦ elim (Bool-cases (mem e.confidence confidences)) [
    | inr illegal ↦ absurd (cc (rw (legal, illegal) at h))
    | inl sure ↦ elim (Bool-cases (e.summary == "")) [
      | inl bare ↦ absurd (cc (rw (legal, sure, bare) at h))
      | inr said ↦ (rw (legal, sure) (no_blank e.evidence_used (rw (legal, sure, said) at h)), said)
    ]
  ]
]

abbrev value_or : NodeResult → Result NodeResult → NodeResult
value_or d (ok r) = r
value_or d (err e) = d

checked-IsTrusted :
    (db : Db) (e : ResultEnvelope) (r : NodeResult) → checked db e ≡ ok r → IsTrusted db r
unfolding checked
checked-IsTrusted db e r h = elim (Bool-cases (is_empty (problems e))) [
  | inr bad ↦ absurd (cc (rw (bad, checked) at h))
  | inl fine ↦ elim (Bool-cases (is_empty (unknown_refs db e.evidence_used))) [
    | inr missing ↦ absurd (cc (rw (fine, missing, checked) at h))
    | inl known ↦
        let p : node_result e ≡ r =
          ap (value_or (node_result e)) (rw (fine, known, checked) at h) in
        let (valid, said) = no_problems e fine in
        rw (← p) (record {
          valid = valid;
          known = stored_evidence db e.evidence_used known;
          summary = said;
        })
  ]
]

then_checked-IsTrusted :
    (db : Db) (e : Result ResultEnvelope) (r : NodeResult)
    → then_checked db e ≡ ok r
    → IsTrusted db r
then_checked-IsTrusted db (err e) r h = absurd (cc)
then_checked-IsTrusted db (ok e) r h = checked-IsTrusted db e r h

-- A result that is built from an agent's output passes `NodeResult.validate`, has a summary, and cites
-- only evidence of the store.
pub build_result_from_envelope-IsTrusted :
    (p : Parser) (inv : Invocation) (db : Db) (r : NodeResult)
    → build_result_from_envelope p inv db ≡ ok r
    → IsTrusted db r
unfolding build_result_from_envelope
build_result_from_envelope-IsTrusted p inv db r h =
    elim (Bool-cases (is_bad_exit inv.exit_code && not (contains "```" inv.stdout))) [
      | inl bad ↦ absurd (cc (rw (bad, build_result_from_envelope) at h))
      | inr fine ↦
          then_checked-IsTrusted db (extract_envelope p inv.stdout) r
            (rw (fine, build_result_from_envelope) at h)
    ]
