-- ===== src/Agent/Envelope.antt =====
-- sassessment/opencode_adapter/envelope.py: the envelope that an agent prints, and the result that is
-- built from it. `fenced` is the regular expression search and `loads` json.loads with the test for an
-- object; the fields that the engine does not read are left out.
pub mod Laws
use tecnosor_sas_migration_d.Common.{
  ℕ, String, Bool, true, false, Option, none, some, List, [], ◌∷◌, ◌++◌, ◌==◌, ◌&&◌, not, mem,
  filter, is_empty, if◌then◌else◌,
}
use tecnosor_sas_migration_d.Common.Texts.{contains, is_blank}
use tecnosor_sas_migration_d.Agent.Blocks.{largest_brace_block}
use tecnosor_sas_migration_d.Errors.{Error, Result, ok, err, result_validation_error}
use tecnosor_sas_migration_d.Node.{NodeResult, valid_statuses, confidences}
use tecnosor_sas_migration_d.State.Records.{has_evidence}
use tecnosor_sas_migration_d.State.Tables.{Db, AgentMeta, ReturnCode, exited, signalled}

-- a JSON object, each field as `str` or `list` gives it; `none` is a missing key
pub record Document : Type 0 where
  pub status : Option String
  pub summary : Option String
  pub evidence_used : Option (List String)
  pub confidence : Option String

pub record Parser : Type 0 where
  pub fenced : String → Option String
  pub loads : String → Option Document

pub record ResultEnvelope : Type 0 where
  pub status : String
  pub summary : String
  pub evidence_used : List String
  pub confidence : String

-- what an invocation of the agent left; `meta` are its columns
pub record Invocation : Type 0 where
  pub stdout : String
  pub exit_code : Option ReturnCode
  pub timed_out : Bool
  pub info : AgentMeta

abbrev text_or : String → Option String → String
text_or d none = d
text_or d (some s) = s

abbrev list_or_empty : Option (List String) → List String
list_or_empty none = []
list_or_empty (some l) = l

unfoldable pub envelope_of : Document → ResultEnvelope
envelope_of d = record {
  status = text_or "success" d.status;
  summary = text_or "" d.summary;
  evidence_used = list_or_empty d.evidence_used;
  confidence = text_or "UNKNOWN" d.confidence;
}

abbrev pub listed : Option String → List String → List String
listed none l = l
listed (some t) l = t ∷ l

unfoldable pub first_envelope : Parser → List String → Result ResultEnvelope
first_envelope p [] = err (result_validation_error "no parseable result envelope in agent output")
first_envelope p (t ∷ ts) =
    let rest = first_envelope p ts in elim (p.loads t) [ none ↦ rest | some d ↦ ok (envelope_of d) ]

-- An empty block counts as none.
abbrev non_empty : Option String → Option String
non_empty none = none
non_empty (some b) = if b == "" then none else some b

unfoldable pub extract_envelope : Parser → String → Result ResultEnvelope
extract_envelope p out =
    first_envelope p (listed (p.fenced out) (listed (non_empty (largest_brace_block out)) []))

pub data EnvelopeProblem : Type 0 where
  illegal_status illegal_confidence invalid_evidence : String → EnvelopeProblem
  empty_summary : EnvelopeProblem

abbrev pub evidence_problems : List String → List EnvelopeProblem
evidence_problems [] = []
evidence_problems (ev ∷ evs) =
    let rest = evidence_problems evs in if is_blank ev then invalid_evidence ev ∷ rest else rest

unfoldable pub problems : ResultEnvelope → List EnvelopeProblem
problems e =
    (if mem e.status valid_statuses then [] else illegal_status e.status ∷ [])
    ++ ((if mem e.confidence confidences then [] else illegal_confidence e.confidence ∷ [])
        ++ ((if e.summary == "" then empty_summary ∷ [] else [])
            ++ evidence_problems e.evidence_used))

-- `invocation.exit_code not in (0, None)`
abbrev pub is_bad_exit : Option ReturnCode → Bool
is_bad_exit none = false
is_bad_exit (some (exited ℕ.zero)) = false
is_bad_exit (some (exited (ℕ.suc n))) = true
is_bad_exit (some (signalled n)) = true

abbrev pub unknown_refs : Db → List String → List String
unknown_refs db evs = filter (λ ev. not (has_evidence db ev)) evs

abbrev pub node_result : ResultEnvelope → NodeResult
node_result e = record {
  status = e.status;
  summary = e.summary;
  evidence_used = e.evidence_used;
  confidence = e.confidence;
}

unfoldable pub checked : Db → ResultEnvelope → Result NodeResult
checked db e =
    if not (is_empty (problems e))
    then err (result_validation_error "envelope invalid")
    else if not (is_empty (unknown_refs db e.evidence_used))
    then err
        (result_validation_error "evidence references not found in state (possible hallucination)")
    else ok (node_result e)

abbrev pub then_checked : Db → Result ResultEnvelope → Result NodeResult
then_checked db (err e) = err e
then_checked db (ok e) = checked db e

unfoldable pub build_result_from_envelope : Parser → Invocation → Db → Result NodeResult
build_result_from_envelope p inv db =
    if is_bad_exit inv.exit_code && not (contains "```" inv.stdout)
    then err (result_validation_error "non-zero exit and no structured result")
    else then_checked db (extract_envelope p inv.stdout)
