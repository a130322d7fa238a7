-- ===== src/Config/Laws.antt =====
-- sassessment/config.py: what a key of merged documents holds, and what a configuration that loads keeps
-- to.
use tecnosor_sas_migration_d.Common.{
  String, Bool, true, false, Option, none, some, List, [], ◌∷◌, ◌≡◌, not, is_empty, refl, arith,
}
use tecnosor_sas_migration_d.Config.{
  ℤ, Real, Value, Document, empty, entry, lookup, merge_value, Variables,
}
use tecnosor_sas_migration_d.Config.Load.{
  SassessmentConfig, Problems, as_number, below_one, below_zero, not_positive, check_number, note,
  is_policy, problems, reject_problems, validate_config, policy_problem, pattern_problem, config_of,
  Repo, load_config,
}
use tecnosor_sas_migration_d.Errors.{and_then, Result, ok, err}

-- No key stands twice in the document itself.
abbrev pub IsDistinct : Document → Type 0
IsDistinct empty = Unit
IsDistinct (entry k v d) = (lookup k d ≡ none) × IsDistinct d

-- The value of a key of a merged document, from those of the two documents.
abbrev pub merged_lookup : Option Value → Option Value → Option Value
merged_lookup old none = old
merged_lookup old (some v) = some (merge_value old v)

-- a number with the property
abbrev pub HasNumber : (Real → Type 0) → Option Real → Type 0
HasNumber P none = ⊥
HasNumber P (some n) = P n

note_clean :
    (bad : Bool) (s : String) (rest : Problems)
    → note bad s rest ≡ ok []
    → (bad ≡ false) × (rest ≡ ok [])
note_clean true s (ok ps) h = absurd (cc)
note_clean false s (ok ps) h = (refl, h)
note_clean bad s (err e) h = absurd (cc)

check_clean :
    (o : Option Real) (bad : Real → Bool) (s : String) (rest : Problems)
    → check_number o bad s rest ≡ ok []
    → HasNumber (λ n. bad n ≡ false) o × (rest ≡ ok [])
check_clean none bad s rest h = absurd (cc)
check_clean (some n) bad s rest h = note_clean (bad n) s rest h

not-false : (b : Bool) → not b ≡ false → b ≡ true
not-false b h = ground arith

-- The retries are not below zero, cycles and attempts not below one, the timeout is not at or below
-- zero, the policy is one of the two, and there is a redaction pattern. Of NaN none of these
-- comparisons holds.
pub record IsValid (c : SassessmentConfig) : Type 0 where
  pub retries : HasNumber (λ n. below_zero n ≡ false) (as_number c.limits.max_retries)
  pub cycles : HasNumber (λ n. below_one n ≡ false) (as_number c.limits.max_graph_cycles)
  pub attempts : HasNumber (λ n. below_one n ≡ false) (as_number c.limits.max_node_attempts)
  pub timeout : HasNumber (λ n. not_positive n ≡ false) (as_number c.opencode.timeout_seconds)
  pub policy : is_policy c.connectors.approval_policy ≡ true
  pub patterns : is_empty c.redaction_patterns ≡ false

problems-IsValid : (c : SassessmentConfig) → problems c ≡ ok [] → IsValid c
unfolding problems
problems-IsValid c h =
    let a = check_clean (as_number c.limits.max_retries) below_zero _ _ h in
    let b = check_clean (as_number c.limits.max_graph_cycles) below_one _ _ a.1 in
    let d = check_clean (as_number c.limits.max_node_attempts) below_one _ _ b.1 in
    let e = check_clean (as_number c.opencode.timeout_seconds) not_positive _ _ d.1 in
    let f =
      note_clean (not (is_policy c.connectors.approval_policy)) policy_problem
        (note (is_empty c.redaction_patterns) pattern_problem (ok [])) e.1 in
    let g = note_clean (is_empty c.redaction_patterns) pattern_problem (ok []) f.1 in
    record {
      retries = a.0;
      cycles = b.0;
      attempts = d.0;
      timeout = e.0;
      policy = not-false _ f.0;
      patterns = g.0;
    }

-- a configuration that was answered
abbrev pub IsSafe : Result SassessmentConfig → Type 0
IsSafe (ok c) = IsValid c
IsSafe (err e) = Unit

reject_problems-IsSafe :
    (c : SassessmentConfig) (ps : Problems) → problems c ≡ ps → IsSafe (reject_problems c ps)
reject_problems-IsSafe c (ok []) h = problems-IsValid c h
reject_problems-IsSafe c (ok (p ∷ ps)) h = tt
reject_problems-IsSafe c (err e) h = tt

validate_config-IsSafe : (c : SassessmentConfig) → IsSafe (validate_config c)
unfolding validate_config
validate_config-IsSafe c = reject_problems-IsSafe c (problems c) refl

and_then-IsSafe {ℓ} :
    {A : Type ℓ} (r : Result A) (f : A → Result SassessmentConfig)
    → ((x : A) → IsSafe (f x))
    → IsSafe (and_then r f)
unfolding and_then
and_then-IsSafe (ok x) f h = h x
and_then-IsSafe (err e) f h = tt

config_of-IsSafe : (root : String) (d : Document) → IsSafe (config_of root d)
unfolding config_of
config_of-IsSafe root d = and_then-IsSafe _ _ (λ path. and_then-IsSafe _ _ (λ o.
    and_then-IsSafe _ _
      (λ l. and_then-IsSafe _ _ (λ c. and_then-IsSafe _ _ (λ ps. validate_config-IsSafe _)))))

load_config-IsSafe :
    (repo : Repo) (int : String → Option ℤ) (vars : Variables) (overrides : List (String × Value))
    (dir : String)
    → IsSafe (load_config repo int vars overrides dir)
unfolding load_config
load_config-IsSafe repo int vars overrides dir =
    and_then-IsSafe _ _
      (λ root. and_then-IsSafe _ _ (λ base. and_then-IsSafe _ _ (λ d. config_of-IsSafe root d)))

-- A configuration that loads, from whatever file, environment and overrides, has retries that are not
-- below 0, cycles and attempts not below 1 and a timeout not at or below 0 (integers or floats; NaN is
-- in no such comparison), a known approval policy, and a redaction pattern.
pub load_config-IsValid :
    (repo : Repo) (int : String → Option ℤ) (vars : Variables) (overrides : List (String × Value))
    (dir : String) (c : SassessmentConfig)
    → load_config repo int vars overrides dir ≡ ok c
    → IsValid c
load_config-IsValid repo int vars overrides dir c h =
    rw h at (load_config-IsSafe repo int vars overrides dir)
