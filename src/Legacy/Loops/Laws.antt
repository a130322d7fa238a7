-- ===== src/Legacy/Loops/Laws.antt =====
-- legacy_logs/lifecycle.py: what `iterate_loop_runs` answers.
use tecnosor_sas_migration_d.Common.{
  true, false, none, List, [], ◌∷◌, ◌==◌, ◌&&◌, ◌||◌, ◌≡◌, ◌≢◌, refl, eq_iff, All, Bool-cases, inl,
  inr,
}
use tecnosor_sas_migration_d.Legacy.Lifecycle.{is_ini, is_fin}
use tecnosor_sas_migration_d.Legacy.Loops.{
  LoopRun, Runs, is_loop_event, on_current, end_run, loop_event, add_stage, inner_event, run_event,
  iterate_from, iterate_loop_runs,
}
use tecnosor_sas_migration_d.Legacy.Records.{ParsedRecord}

-- A run without sleeps that is complete with the record that ends it, or not complete and without one.
pub record IsPlain (c : LoopRun) : Type 0 where
  pub no_sleeps : c.sleeps ≡ []
  pub ended : c.complete ≡ true → c.end_record_id ≢ none
  pub unended : c.complete ≡ false → c.end_record_id ≡ none

on_current-All :
    (f : LoopRun → LoopRun) (cs : List LoopRun)
    → ((c : LoopRun) → IsPlain c → IsPlain (f c))
    → All IsPlain cs
    → All IsPlain (on_current f cs)
on_current-All f [] keep h = tt
on_current-All f (c ∷ cs) keep h = (keep c h.0, h.1)

loop_event-IsPlain :
    (r : ParsedRecord) (st : Runs)
    → All IsPlain st.latest_first
    → All IsPlain (loop_event r st).latest_first
unfolding loop_event
loop_event-IsPlain r st h = elim (Bool-cases (is_ini r)) [
  | inl ini ↦
      rw (ini, loop_event)
        (record { no_sleeps = refl; ended = λ c. absurd (cc); unended = λ c. refl }, h)
  | inr other ↦ elim (Bool-cases (is_fin r && st.running)) [
    | inl fin ↦
        rw (other, fin, loop_event)
          (on_current-All (end_run r) st.latest_first
            (λ c p. record {
              no_sleeps = p.no_sleeps;
              ended = λ t e. cc;
              unended = λ t. absurd (cc);
            })
            h)
    | inr neither ↦ rw (other, neither, loop_event) h
  ]
]

inner_event-IsPlain :
    (r : ParsedRecord) (st : Runs)
    → (r.record_type == "TIME_SLEEP") ≡ false
    → All IsPlain st.latest_first
    → All IsPlain (inner_event r st).latest_first
unfolding inner_event
inner_event-IsPlain r st awake h =
    elim (Bool-cases (st.running && (r.record_type == "TB_LOG" && (is_ini r || is_fin r)))) [
      | inl stage ↦
          rw (awake, stage, inner_event)
            (on_current-All (add_stage r) st.latest_first
              (λ c p. record { no_sleeps = p.no_sleeps; ended = p.ended; unended = p.unended }) h)
      | inr neither ↦ rw (awake, neither, inner_event) h
    ]

run_event-IsPlain :
    (r : ParsedRecord) (st : Runs)
    → All IsPlain st.latest_first
    → All IsPlain (run_event r st).latest_first
unfolding run_event
run_event-IsPlain r st h = elim (Bool-cases (r.record_type == "TB_LOG")) [
  | inr other ↦ rw (other, run_event) h
  | inl log ↦ elim (Bool-cases (is_loop_event r)) [
    | inl event ↦ rw (log, event, run_event) (loop_event-IsPlain r st h)
    | inr inner ↦
        rw (log, inner, run_event)
          (inner_event-IsPlain r st (rw ((eq_iff r.record_type "TB_LOG").0 log) refl) h)
  ]
]

iterate_from-IsPlain :
    (rs : List ParsedRecord) (st : Runs)
    → All IsPlain st.latest_first
    → All IsPlain (iterate_from rs st).latest_first
unfolding iterate_from
iterate_from-IsPlain [] st h = h
iterate_from-IsPlain (r ∷ rs) st h =
    iterate_from-IsPlain rs (run_event r st) (run_event-IsPlain r st h)

-- No run of a log has a sleep, whatever TIME_SLEEP records the log has, and a run is complete with the
-- record that ends it, or not complete and without one.
pub iterate_loop_runs-IsPlain : (rs : List ParsedRecord) → All IsPlain (iterate_loop_runs rs)
unfolding iterate_loop_runs
iterate_loop_runs-IsPlain rs = iterate_from-IsPlain rs _ tt
