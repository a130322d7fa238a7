-- ===== src/Legacy/Lifecycle/Laws.antt =====
-- legacy_logs/lifecycle.py: every INI record opens a stage, and a complete stage has its end.
use tecnosor_sas_migration_d.Common.{
  ℕ, zero, suc, String, Bool, true, false, Option, none, some, List, [], ◌∷◌, ◌==◌, ◌&&◌, ◌≡◌, ◌≢◌,
  refl, map, All, All-append, filter, Bool-cases, inl, inr,
}
use tecnosor_sas_migration_d.Legacy.Records.{ParsedRecord, LifecycleStage}
use tecnosor_sas_migration_d.Legacy.Lifecycle.{
  Key, Building, opened, orphan, closed, update_at, pop_opening, open_stage, close_stage, is_ini,
  is_fin, keyed, with_context, step, build_from, build_lifecycle,
}

-- A stage with its end, or one that is still open or an orphan without one.
abbrev pub IsConsistent : LifecycleStage → Type 0
IsConsistent s =
    (s.complete ≡ true → s.end_record_id ≢ none) × (s.complete ≡ false → s.end_record_id ≡ none)

update_at-All :
    (P : LifecycleStage → Type 0) (f : LifecycleStage → LifecycleStage) (i : ℕ)
    (ss : List LifecycleStage)
    → ((s : LifecycleStage) → P s → P (f s))
    → All P ss
    → All P (update_at i f ss)
unfolding update_at
update_at-All P f i [] keep h = tt
update_at-All P f zero (s ∷ ss) keep h = (keep s h.0, h.1)
update_at-All P f (suc i) (s ∷ ss) keep h = (h.0, update_at-All P f i ss keep h.1)

close_stage-IsConsistent :
    (r : ParsedRecord) (k : Key) (b : Building)
    → All IsConsistent b.stages
    → All IsConsistent (close_stage r k b).stages
unfolding close_stage
close_stage-IsConsistent r k b h = on_top (pop_opening k b.opening) refl
  where
    on_top :
        (o : Option (ℕ × List (Key × ℕ)))
        → pop_opening k b.opening ≡ o
        → All IsConsistent (close_stage r k b).stages
    on_top none p =
        rw (p, close_stage)
          (All-append IsConsistent b.stages (orphan r ∷ []) h ((λ c. absurd (cc), λ c. refl), tt))
    on_top (some (i, rest)) p =
        rw (p, close_stage)
          (update_at-All IsConsistent (closed r) i b.stages
            (λ s c. (λ t. (λ e. cc), λ t. absurd (cc))) h)

keyed-IsConsistent :
    (r : ParsedRecord) (k : Option Key) (b : Building)
    → All IsConsistent b.stages
    → All IsConsistent (keyed r k b).stages
unfolding keyed open_stage
keyed-IsConsistent r none b h = h
keyed-IsConsistent r (some k) b h = elim (Bool-cases (is_ini r)) [
  | inl ini ↦
      rw (ini, keyed)
        (All-append IsConsistent b.stages (opened r ∷ []) h ((λ c. absurd (cc), λ c. refl), tt))
  | inr other ↦ elim (Bool-cases (is_fin r)) [
    | inl fin ↦ rw (other, fin, keyed) (close_stage-IsConsistent r k b h)
    | inr neither ↦ rw (other, neither, keyed) h
  ]
]

step-IsConsistent :
    (r : ParsedRecord) (b : Building)
    → All IsConsistent b.stages
    → All IsConsistent (step r b).stages
unfolding step
step-IsConsistent r b h = elim (Bool-cases (r.record_type == "TB_LOG")) [
  | inl log ↦ rw (log, step) (keyed-IsConsistent r _ (with_context r b) h)
  | inr other ↦ rw (other, step) h
]

build_from-IsConsistent :
    (rs : List ParsedRecord) (b : Building)
    → All IsConsistent b.stages
    → All IsConsistent (build_from rs b).stages
unfolding build_from
build_from-IsConsistent [] b h = h
build_from-IsConsistent (r ∷ rs) b h =
    build_from-IsConsistent rs (step r b) (step-IsConsistent r b h)

-- Every stage is complete with the record that ends it, or not complete and without one.
pub build_lifecycle-IsConsistent : (rs : List ParsedRecord) → All IsConsistent (build_lifecycle rs)
unfolding build_lifecycle
build_lifecycle-IsConsistent rs = build_from-IsConsistent rs _ tt

-- a stage as it is when it is opened
abbrev pub as_opened : LifecycleStage → LifecycleStage
as_opened s = record s { complete = false; end_record_id = none; end_timestamp = none }

-- The stages that an INI opened, as they were then.
abbrev pub opened_stages : List LifecycleStage → List LifecycleStage
opened_stages ss = map as_opened (filter (λ s. s.marker == "INI") ss)

abbrev pub is_known : Option String → Bool
is_known none = false
is_known (some c) = true

-- An INI record of the log with a component.
abbrev pub is_opening : ParsedRecord → Bool
is_opening r = r.record_type == "TB_LOG" && (is_ini r && is_known r.component)

abbrev is_known_key : Option Key → Bool
is_known_key none = false
is_known_key (some k) = true
