-- ===== src/Legacy/Loops.antt =====
-- sassessment/legacy_logs/lifecycle.py, `iterate_loop_runs`: the events of the loop program are paired
-- into runs. `current` is always the last of `runs`, so the runs stand latest first here, and `running`
-- says that `current` is not None. A sleep is kept as its record, of which the source lists the duration.
pub mod Laws
use tecnosor_sas_migration_d.Common.{
  ℕ, String, Bool, true, false, Option, none, some, List, [], ◌∷◌, ◌++◌, ◌==◌, ◌&&◌, ◌||◌,
  if◌then◌else◌,
}
use tecnosor_sas_migration_d.Common.Texts.{lower, starts_with}
use tecnosor_sas_migration_d.Legacy.Lifecycle.{is_ini, is_fin}
use tecnosor_sas_migration_d.Legacy.Records.{Value, ParsedRecord, text_or_empty}

pub record LoopRun : Type 0 where
  pub iteration : Option ℕ
  pub job_id : Value
  pub start_record_id : String
  pub stages : List (Option String)
  pub sleeps : List ParsedRecord
  pub end_record_id : Option String
  pub complete : Bool

pub record Runs : Type 0 where
  pub latest_first : List LoopRun
  pub running : Bool

abbrev pub has_iteration : Option ℕ → Bool
has_iteration none = false
has_iteration (some n) = true

abbrev pub is_loop_event : ParsedRecord → Bool
is_loop_event r =
    has_iteration r.iteration
    && starts_with "dmf_execution_expl" (lower (text_or_empty r.event_name))

-- a change of `current`
abbrev pub on_current : (LoopRun → LoopRun) → List LoopRun → List LoopRun
on_current f [] = []
on_current f (c ∷ cs) = f c ∷ cs

abbrev pub new_run : ParsedRecord → LoopRun
new_run r = record {
  iteration = r.iteration;
  job_id = r.job_id;
  start_record_id = r.record_id;
  stages = [];
  sleeps = [];
  end_record_id = none;
  complete = false;
}

abbrev pub end_run : ParsedRecord → LoopRun → LoopRun
end_run r c = record c { end_record_id = some r.record_id; complete = true }

unfoldable pub loop_event : ParsedRecord → Runs → Runs
loop_event r st =
    if is_ini r
    then record { latest_first = new_run r ∷ st.latest_first; running = true }
    else if is_fin r && st.running
    then record { latest_first = on_current (end_run r) st.latest_first; running = false }
    else st

abbrev pub add_sleep : ParsedRecord → LoopRun → LoopRun
add_sleep r c = record c { sleeps = c.sleeps ++ r ∷ [] }

abbrev pub add_stage : ParsedRecord → LoopRun → LoopRun
add_stage r c = record c { stages = c.stages ++ r.component ∷ [] }

-- what is not an event of the loop program
unfoldable pub inner_event : ParsedRecord → Runs → Runs
inner_event r st =
    if r.record_type == "TIME_SLEEP" && st.running
    then record st { latest_first = on_current (add_sleep r) st.latest_first }
    else if st.running && (r.record_type == "TB_LOG" && (is_ini r || is_fin r))
    then record st { latest_first = on_current (add_stage r) st.latest_first }
    else st

unfoldable pub run_event : ParsedRecord → Runs → Runs
run_event r st =
    if r.record_type == "TB_LOG"
    then if is_loop_event r then loop_event r st else inner_event r st
    else st

unfoldable pub iterate_from : List ParsedRecord → Runs → Runs
iterate_from [] st = st
iterate_from (r ∷ rs) st = iterate_from rs (run_event r st)

-- the runs, latest first
unfoldable pub iterate_loop_runs : List ParsedRecord → List LoopRun
iterate_loop_runs rs =
    (iterate_from rs (record { latest_first = []; running = false })).latest_first
