-- ===== src/Graph/Reach/Search.antt =====
-- graph/model.py: the loop of `reachable_nodes`: with enough fuel it ends closed under edges.
use tecnosor_sas_migration_d.Common.{
  ℕ, zero, suc, String, Bool, true, false, not, List, [], ◌∷◌, ◌+◌, ◌≤◌, ◌==◌, ◌||◌, ◌≡◌, refl, inl,
  inr, arith, eq_iff, eq_refl, Bool-cases, mem, filter, length, All, if◌then◌else◌,
}
use tecnosor_sas_migration_d.Common.Sorting
use tecnosor_sas_migration_d.Graph.Model.{EdgeDef, GraphDef, by_priority, outgoing}
use tecnosor_sas_migration_d.Graph.Reach.{push, visit}

-- the edges that can still be expanded
abbrev pub pending : List EdgeDef → List String → ℕ
pending es seen = length (filter (λ e. not (mem e.source seen)) es)

expand_pending :
    (k : String) (seen : List String) (es : List EdgeDef)
    → mem k seen ≡ false
    → length (filter (λ e. e.source == k) es) + pending es (k ∷ seen) ≡ pending es seen
expand_pending k seen [] fresh = refl
expand_pending k seen (e ∷ es) fresh = elim (Bool-cases (e.source == k)) [
  | inl same ↦
      let p = (eq_iff e.source k).0 same in
      let unseen : mem e.source seen ≡ false = rw p fresh in
      ground (arith, same, unseen, expand_pending k seen es fresh, eq_iff k e.source, p)
  | inr other ↦
      ground (arith, other, expand_pending k seen es fresh, eq_iff k e.source, eq_iff e.source k)
]

length-push :
    (seen : List String) (es : List EdgeDef) (st : List String)
    → length (push seen es st) ≤ length es + length st
unfolding push
length-push seen [] st = omega arith
length-push seen (e ∷ es) st =
    let ih = length-push seen es (if mem e.target seen then st else e.target ∷ st) in
    elim (Bool-cases (mem e.target seen)) [
      | inl old ↦ rw old (omega (arith, rw old at ih))
      | inr new ↦ rw new (omega (arith, rw new at ih))
    ]

-- The stack keeps what it had, and every target is on it or was seen.
push-mem :
    (seen : List String) (es : List EdgeDef) (st : List String) (k : String)
    → mem k st ≡ true
    → mem k (push seen es st) ≡ true
unfolding push
push-mem seen [] st k h = h
push-mem seen (e ∷ es) st k h =
    push-mem seen es (if mem e.target seen then st else e.target ∷ st) k (ground (arith, h))

push-targets :
    (seen : List String) (es : List EdgeDef) (st : List String)
    → All (λ e. (mem e.target (push seen es st) || mem e.target seen) ≡ true) es
unfolding push
push-targets seen [] st = tt
push-targets seen (e ∷ es) st = (
  elim (Bool-cases (mem e.target seen)) [
    | inl old ↦ ground (arith, old)
    | inr new ↦ rw new (
        ground
          (arith, push-mem seen es (e.target ∷ st) e.target (ground (arith, eq_refl e.target))))
  ],
  push-targets seen es _,
)

-- what holds of the edges that a filter keeps
All-filter_back :
    (P : EdgeDef → Type 0) (p : EdgeDef → Bool) (es : List EdgeDef)
    → All P (filter p es)
    → All (λ e. p e ≡ true → P e) es
All-filter_back P p [] h = tt
All-filter_back P p (e ∷ es) h = elim (Bool-cases (p e)) [
  | inl kept ↦ let h' = rw kept at h in (λ _. h'.0, All-filter_back P p es h'.1)
  | inr dropped ↦ (λ t. absurd (cc), All-filter_back P p es (rw dropped at h))
]

-- Every edge out of a seen node leads to a node that was seen or waits.
abbrev pub IsClosed : List EdgeDef → List String → List String → Type 0
IsClosed es frontier seen =
    All (λ e. mem e.source seen ≡ true → (mem e.target frontier || mem e.target seen) ≡ true) es

abbrev Targets : String → List String → List String → List EdgeDef → Type 0
Targets k stack seen es =
    All (λ e. (e.source == k) ≡ true → (mem e.target stack || mem e.target seen) ≡ true) es

-- A node that was seen need not stay on the stack.
popped :
    (k t : String) (ks seen : List String)
    → mem k seen ≡ true
    → ((k == t || mem t ks) || mem t seen) ≡ true
    → (mem t ks || mem t seen) ≡ true
popped k t ks seen old h = elim (Bool-cases (k == t)) [
  | inl same ↦ let p = (eq_iff k t).0 same in ground (arith, rw p at old)
  | inr other ↦ ground (arith, h, other)
]

again-IsClosed :
    (es : List EdgeDef) (k : String) (ks seen : List String)
    → mem k seen ≡ true
    → IsClosed es (k ∷ ks) seen
    → IsClosed es ks seen
again-IsClosed [] k ks seen old c = tt
again-IsClosed (e ∷ es) k ks seen old c =
    (λ h. popped k e.target ks seen old (c.0 h), again-IsClosed es k ks seen old c.1)

expand-IsClosed :
    (es : List EdgeDef) (k : String) (ks stack seen : List String)
    → ((t : String) → mem t ks ≡ true → mem t stack ≡ true)
    → Targets k stack (k ∷ seen) es
    → IsClosed es (k ∷ ks) seen
    → IsClosed es stack (k ∷ seen)
expand-IsClosed [] k ks stack seen sub targets c = tt
expand-IsClosed (e ∷ es) k ks stack seen sub targets c =
    (λ h. expanded h, expand-IsClosed es k ks stack seen sub targets.1 c.1)
  where
    expanded :
        (k == e.source || mem e.source seen) ≡ true
        → (mem e.target stack || (k == e.target || mem e.target seen)) ≡ true
    expanded h = elim (Bool-cases (e.source == k)) [
      | inl same ↦ targets.0 same
      | inr other ↦
          ground (arith, h, other, c.0, sub e.target, eq_iff k e.source, eq_iff e.source k)
    ]

outgoing-Targets :
    (g : GraphDef) (k : String) (ks seen : List String)
    → Targets k (push (k ∷ seen) (outgoing g k) ks) (k ∷ seen) g.edges
unfolding outgoing
outgoing-Targets g k ks seen =
    All-filter_back _ (λ e. e.source == k) g.edges
      (Sorting.All-sort_back by_priority _ (filter (λ e. e.source == k) g.edges)
        (push-targets (k ∷ seen) (outgoing g k) ks))

expand_fits :
    (g : GraphDef) (k : String) (ks seen : List String) (fuel : ℕ)
    → mem k seen ≡ false
    → suc (length ks) + pending g.edges seen ≤ suc fuel
    → length (push (k ∷ seen) (outgoing g k) ks) + pending g.edges (k ∷ seen) ≤ fuel
unfolding outgoing
expand_fits g k ks seen fuel new fits =
    let out = filter (λ e. e.source == k) g.edges in
    omega (
      arith,
      fits,
      length-push (k ∷ seen) (outgoing g k) ks,
      Sorting.length-sort by_priority out,
      expand_pending k seen g.edges new,
    )

-- What the visit has found when it ends: closed under edges, with all that it started from.
pub record Found (g : GraphDef) (frontier seen ks : List String) : Type 0 where
  pub closed : IsClosed g.edges [] ks
  pub keeps : (t : String) → (mem t frontier || mem t seen) ≡ true → mem t ks ≡ true

-- Fuel for the stack and the edges that are left is enough.
pub visit-Found :
    (g : GraphDef) (fuel : ℕ) (frontier seen : List String)
    → length frontier + pending g.edges seen ≤ fuel
    → IsClosed g.edges frontier seen
    → Found g frontier seen (visit g fuel frontier seen)
unfolding visit
visit-Found g zero [] seen fits c = record { closed = c; keeps = λ t h. h }
visit-Found g zero (k ∷ ks) seen fits c = absurd (omega (arith, fits))
visit-Found g (suc fuel) [] seen fits c = record { closed = c; keeps = λ t h. h }
visit-Found g (suc fuel) (k ∷ ks) seen fits c = elim (Bool-cases (mem k seen)) [
  | inl old ↦
      let f =
        visit-Found g fuel ks seen (omega (arith, fits)) (again-IsClosed g.edges k ks seen old c) in
      rw old (record { closed = f.closed; keeps = λ t h. f.keeps t (popped k t ks seen old h) })
  | inr new ↦
      let stack = push (k ∷ seen) (outgoing g k) ks in
      let f = visit-Found g fuel stack (k ∷ seen) (expand_fits g k ks seen fuel new fits) (
        expand-IsClosed g.edges k ks stack seen (push-mem (k ∷ seen) (outgoing g k) ks)
          (outgoing-Targets g k ks seen) c) in
      rw new (record {
        closed = f.closed;
        keeps = λ t h. f.keeps t (ground (arith, h, push-mem (k ∷ seen) (outgoing g k) ks t));
      })
]

-- Before the visit no edge was expanded.
pub pending_start : (es : List EdgeDef) → 1 + pending es [] ≤ suc (length es)
pending_start [] = omega arith
pending_start (e ∷ es) = omega (arith, pending_start es)

pub start-IsClosed : (es : List EdgeDef) (frontier : List String) → IsClosed es frontier []
start-IsClosed [] frontier = tt
start-IsClosed (e ∷ es) frontier = (λ h. absurd (cc), start-IsClosed es frontier)
