-- ===== src/Legacy/Lifecycle.antt =====
-- sassessment/legacy_logs/lifecycle.py, `build_lifecycle`: INI and FIN records are paired into stages.
-- A stage is an object that the result and a stack share: here the stack holds the position of the
-- stage in the result. The stacks of all keys are one list, latest first; the top of the stack of a
-- key is the first entry with that key.
pub mod Laws
use tecnosor_sas_migration_d.Common.{
  ℕ, zero, suc, String, Bool, true, false, Option, none, some, List, [], ◌∷◌, ◌++◌, ◌==◌, ◌=?◌,
  ◌&&◌, length, if◌then◌else◌,
}
use tecnosor_sas_migration_d.Common.Texts.{lower}
use tecnosor_sas_migration_d.Legacy.Records.{
  Value, ParsedRecord, LifecycleStage, same_value, same_number, text_or_empty,
}

pub record Key : Type 0 where
  pub component : String
  pub job_id : Value
  pub entity_or_partition : Value
  pub iteration : Option ℕ

abbrev pub same_key : Key → Key → Bool
same_key a b =
    a.component == b.component
    && (same_value a.job_id b.job_id
        && (same_value a.entity_or_partition b.entity_or_partition
            && same_number a.iteration b.iteration))

-- `record.iteration or iteration_marker`: 0 counts as missing
abbrev iteration_or : Option ℕ → Option ℕ → Option ℕ
iteration_or none marker = marker
iteration_or (some zero) marker = marker
iteration_or (some (suc n)) marker = some (suc n)

unfoldable pub correlation_key : ParsedRecord → Option ℕ → Option Key
correlation_key r marker = elim r.component [
  | none ↦ none
  | some c ↦ some (record {
    component = lower c;
    job_id = r.job_id;
    entity_or_partition = r.entity_or_partition;
    iteration = iteration_or r.iteration marker;
  })
]

pub record Building : Type 0 where
  pub stages : List LifecycleStage
  pub opening : List (Key × ℕ)
  pub iteration_context : Option ℕ

-- the stage of an INI
abbrev pub opened : ParsedRecord → LifecycleStage
opened r = record {
  component = text_or_empty r.component;
  job_id = r.job_id;
  iteration = r.iteration;
  entity_or_partition = r.entity_or_partition;
  start_record_id = r.record_id;
  end_record_id = none;
  complete = false;
  start_timestamp = r.timestamp_raw;
  end_timestamp = none;
  source_level = r.source_severity;
  marker = "INI";
}

-- the stage of a FIN without its INI
abbrev pub orphan : ParsedRecord → LifecycleStage
orphan r = record (opened r) { start_timestamp = none; source_level = none; marker = "ORPHAN_FIN" }

abbrev pub closed : ParsedRecord → LifecycleStage → LifecycleStage
closed r s = record s {
  complete = true;
  end_record_id = some r.record_id;
  end_timestamp = r.timestamp_raw;
}

unfoldable pub update_at :
    ℕ → (LifecycleStage → LifecycleStage) → List LifecycleStage → List LifecycleStage
update_at i f [] = []
update_at zero f (s ∷ ss) = f s ∷ ss
update_at (suc i) f (s ∷ ss) = s ∷ update_at i f ss

abbrev keep_entry : Key × ℕ → Option (ℕ × List (Key × ℕ)) → Option (ℕ × List (Key × ℕ))
keep_entry e none = none
keep_entry e (some (i, rest)) = some (i, e ∷ rest)

-- `stack.pop()` of the key
unfoldable pub pop_opening : Key → List (Key × ℕ) → Option (ℕ × List (Key × ℕ))
pop_opening k [] = none
pop_opening k ((j, i) ∷ es) =
    let rest = keep_entry (j, i) (pop_opening k es) in if same_key j k then some (i, es) else rest

unfoldable pub open_stage : ParsedRecord → Key → Building → Building
open_stage r k b = record b {
  stages = b.stages ++ opened r ∷ [];
  opening = (k, length b.stages) ∷ b.opening;
}

unfoldable pub close_stage : ParsedRecord → Key → Building → Building
close_stage r k b = elim (pop_opening k b.opening) [
  | none ↦ record b { stages = b.stages ++ orphan r ∷ [] }
  | some (i, rest) ↦ record b { stages = update_at i (closed r) b.stages; opening = rest }
]

abbrev new_context : Option ℕ → Option ℕ → Option ℕ
new_context none old = old
new_context (some n) old = some n

abbrev pub is_ini : ParsedRecord → Bool
is_ini r = text_or_empty r.lifecycle_marker == "INI"

abbrev pub is_fin : ParsedRecord → Bool
is_fin r = text_or_empty r.lifecycle_marker == "FIN"

unfoldable pub keyed : ParsedRecord → Option Key → Building → Building
keyed r none b = b
keyed r (some k) b =
    if is_ini r then open_stage r k b else if is_fin r then close_stage r k b else b

abbrev pub with_context : ParsedRecord → Building → Building
with_context r b = record b { iteration_context = new_context r.iteration b.iteration_context }

unfoldable pub step : ParsedRecord → Building → Building
step r b =
    if r.record_type == "TB_LOG"
    then keyed r (correlation_key r (with_context r b).iteration_context) (with_context r b)
    else b

unfoldable pub build_from : List ParsedRecord → Building → Building
build_from [] b = b
build_from (r ∷ rs) b = build_from rs (step r b)

unfoldable pub build_lifecycle : List ParsedRecord → List LifecycleStage
build_lifecycle rs =
    (build_from rs (record { stages = []; opening = []; iteration_context = none })).stages
