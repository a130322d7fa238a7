-- ===== src/Engine/Select/Laws.antt =====
-- Which node `next_runnable` picks.
use tecnosor_sas_migration_d.Common.{
  ℕ, true, false, Option, none, some, List, [], ◌∷◌, is_empty, ◌≡◌, refl, inl, inr, arith, eq_iff,
  ◌≤◌, All, Option-cases,
}
use mathlib.Core.Path.{subst}
use mathlib.Core.List.{Memᴰ}
use tecnosor_sas_migration_d.Common.Sorting
use tecnosor_sas_migration_d.Engine.Env.{Env}
use tecnosor_sas_migration_d.Engine.Select.{
  prerequisites_met, Candidate, phase_rank, candidate, candidates, before, first, next_runnable,
}
use tecnosor_sas_migration_d.Graph.Model.{GraphDef, NodeDef}
use tecnosor_sas_migration_d.State.Snapshot.{Snapshot, state_snapshot, node_status}
use tecnosor_sas_migration_d.State.Status.{Status, ready, is_ready}
use tecnosor_sas_migration_d.State.Tables.{Db}

-- The node may be picked: it is READY with its prerequisites met, or it is the entry of a graph of
-- which no node has a state.
pub data IsEligible (g : GraphDef) (s : Snapshot) (n : NodeDef) : Type 0 where
  activated : node_status s n.id ≡ some ready → (prerequisites_met n s).0 ≡ true → IsEligible g s n
  first_entry :
      node_status s n.id ≡ none → is_empty s.nodes ≡ true → n.id ≡ g.entry → IsEligible g s n

-- Rank 0 for the entry of a first run, else the place of the phase.
abbrev pub rank_of : Option Status → NodeDef → ℕ
rank_of none n = 0
rank_of (some st) n = phase_rank n

is_ready_eq : (st : Status) → is_ready st ≡ true → st ≡ ready
is_ready_eq st h = ground arith

candidate_sound :
    (g : GraphDef) (s : Snapshot) (n : NodeDef) (c : Candidate)
    → candidate g s n ≡ some c
    → (c.node ≡ n) × (c.rank ≡ rank_of (node_status s n.id) n) × IsEligible g s n
unfolding candidate
candidate_sound g s n c h = on_status (node_status s n.id) refl
  where
    on_status :
        (o : Option Status)
        → node_status s n.id ≡ o
        → (c.node ≡ n) × (c.rank ≡ rank_of (node_status s n.id) n) × IsEligible g s n
    on_status none p =
        let h' = rw (p, candidate) at h in
        (
          ground (arith, h'),
          rw p (ground (arith, h')),
          first_entry p (ground (arith, h')) ((eq_iff n.id g.entry).0 (ground (arith, h'))),
        )
    on_status (some st) p =
        let h' = rw (p, candidate) at h in
        let is = is_ready_eq st (ground (arith, h')) in
        (ground (arith, h'), rw p (ground (arith, h')), activated (rw is at p) (ground (arith, h')))

candidate_complete :
    (g : GraphDef) (s : Snapshot) (n : NodeDef)
    → IsEligible g s n
    → candidate g s n ≡ some (record { rank = rank_of (node_status s n.id) n; node = n })
unfolding candidate
candidate_complete g s n (activated p met) = rw (p, candidate, met) refl
candidate_complete g s n (first_entry p no_states entry) =
    rw (p, candidate, no_states, (eq_iff n.id g.entry).1 entry) refl

-- a candidate that stands for an eligible node of the list
abbrev IsCandidate : GraphDef → Snapshot → List NodeDef → Candidate → Type 0
IsCandidate g s ns c =
    Memᴰ c.node ns × (c.rank ≡ rank_of (node_status s c.node.id) c.node) × IsEligible g s c.node

widen :
    (g : GraphDef) (s : Snapshot) (n : NodeDef) (ns : List NodeDef) (cs : List Candidate)
    → All (IsCandidate g s ns) cs
    → All (IsCandidate g s (n ∷ ns)) cs
widen g s n ns [] h = tt
widen g s n ns (c ∷ cs) h = ((Memᴰ.tail h.0.0, h.0.1, h.0.2), widen g s n ns cs h.1)

candidates_sound :
    (g : GraphDef) (s : Snapshot) (ns : List NodeDef) → All (IsCandidate g s ns) (candidates g s ns)
unfolding candidates
candidates_sound g s [] = tt
candidates_sound g s (n ∷ ns) = elim (Option-cases (candidate g s n)) [
  | inl absent ↦ rw (absent, candidates) (widen g s n ns _ (candidates_sound g s ns))
  | inr (c, found) ↦
      let (same, rank, eligible) = candidate_sound g s n c found in
      rw (found, candidates)
        (
          (Memᴰ.head same, rw same rank, rw same eligible),
          widen g s n ns _ (candidates_sound g s ns),
        )
]

-- A property of every candidate is one of every eligible node.
candidates_complete {κ} :
    (g : GraphDef) (s : Snapshot) (P : ℕ → Type κ) (ns : List NodeDef)
    → All (λ c. P c.rank) (candidates g s ns)
    → All (λ n. IsEligible g s n → P (rank_of (node_status s n.id) n)) ns
unfolding candidates
candidates_complete g s P [] h = tt
candidates_complete g s P (n ∷ ns) h = elim (Option-cases (candidate g s n)) [
  | inl absent ↦
      let h' = rw (absent, candidates) at h in
      (λ e. absurd (cc (candidate_complete g s n e, absent)), candidates_complete g s P ns h')
  | inr (c, found) ↦
      let h' = rw (found, candidates) at h in
      let (same, rank, _) = candidate_sound g s n c found in
      (λ e. rw (← rank) h'.0, candidates_complete g s P ns h'.1)
]

-- No eligible node comes before `n` in the order of ranks.
abbrev pub IsFirst : GraphDef → Snapshot → NodeDef → Type 0
IsFirst g s n =
    All (λ m. IsEligible g s m → rank_of (node_status s n.id) n ≤ rank_of (node_status s m.id) m)
      g.nodes

first_candidate :
    (g : GraphDef) (s : Snapshot) (ns : List NodeDef) (n : NodeDef) (cs : List Candidate)
    → Sorting.HasLeastHead (λ c. c.rank) cs
    → All (IsCandidate g s ns) cs
    → first cs ≡ some n
    → Memᴰ n ns × IsEligible g s n × All (λ c. rank_of (node_status s n.id) n ≤ c.rank) cs
first_candidate g s ns n [] least are h = absurd (cc)
first_candidate g s ns n (c ∷ cs) least are h =
    let same : c.node ≡ n = ground arith in
    let (member, rank, eligible) = are.0 in
    let ranked = rw same at rank in
    (
      rw same at member,
      rw same at eligible,
      subst (λ v. All (λ d. v ≤ d.rank) (c ∷ cs)) ranked (omega arith, least),
    )

none-first : (cs : List Candidate) → first cs ≡ none → cs ≡ []
none-first [] h = refl
none-first (c ∷ cs) h = cc

ranks_agree :
    (x y : Candidate)
    → ((before y x ≡ true) → y.rank ≤ x.rank) × ((before y x ≡ false) → x.rank ≤ y.rank)
ranks_agree x y = (λ h. ground arith, λ h. ground arith)

module _ (env : Env) (db : Db) where
  -- The chosen node is one of the graph and may run, and no node that may run has a smaller rank.
  pub next_runnable_sound :
      (n : NodeDef)
      → next_runnable env db ≡ some n
      → Memᴰ n env.graph.nodes
        × IsEligible env.graph (state_snapshot db env.assessment_id) n
        × IsFirst env.graph (state_snapshot db env.assessment_id) n
  unfolding next_runnable
  next_runnable_sound n h =
      let g = env.graph in
      let s = state_snapshot db env.assessment_id in
      let cs = candidates g s g.nodes in
      let (member, eligible, least) =
        first_candidate g s g.nodes n (Sorting.sort before cs)
          (Sorting.sort-HasLeastHead before (λ c. c.rank) (λ x y. (ranks_agree x y).0)
            (λ x y. (ranks_agree x y).1) cs)
          (Sorting.All-sort before (IsCandidate g s g.nodes) cs (candidates_sound g s g.nodes)) h in
      (
        member,
        eligible,
        candidates_complete g s (λ r. rank_of (node_status s n.id) n ≤ r) g.nodes
            (Sorting.All-sort_back before (λ c. rank_of (node_status s n.id) n ≤ c.rank) cs least),
      )

  -- No node is chosen only if no node of the graph may run.
  pub next_runnable_complete :
      next_runnable env db ≡ none
      → All (λ n. ¬ IsEligible env.graph (state_snapshot db env.assessment_id) n) env.graph.nodes
  unfolding next_runnable
  next_runnable_complete h =
      let g = env.graph in
      let s = state_snapshot db env.assessment_id in
      let cs = candidates g s g.nodes in
      candidates_complete g s (λ r. ⊥) g.nodes
        (Sorting.All-sort_back before (λ c. ⊥) cs (rw (none-first (Sorting.sort before cs) h) tt))
