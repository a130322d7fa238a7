-- ===== src/Graph/Reach/Laws.antt =====
-- graph/model.py: `reachable_nodes` finds exactly the nodes that a path from the entry leads to.
use mathlib.Core.List.{Memᴰ}
use tecnosor_sas_migration_d.Common.{
  ℕ, zero, suc, String, Bool, true, List, [], ◌∷◌, ◌==◌, ◌||◌, ◌≡◌, refl, ◌∙◌, ◌↔◌, inl, inr, arith,
  eq_iff, eq_refl, Bool-cases, mem, any, filter, length, All, if◌then◌else◌,
}
use tecnosor_sas_migration_d.Common.Sorting
use tecnosor_sas_migration_d.Graph.Model.{EdgeDef, GraphDef, by_priority, outgoing}
use tecnosor_sas_migration_d.Graph.Reach.{push, visit, text_before, reachable_nodes}
use tecnosor_sas_migration_d.Graph.Reach.Search.{Found, visit-Found, pending_start, start-IsClosed}

-- A path along the edges of the graph.
pub data Reachable (g : GraphDef) : String → Type 0 where
  at_entry : Reachable g g.entry
  along : (e : EdgeDef) → Memᴰ e g.edges → Reachable g e.source → Reachable g e.target

All-at : (es : List EdgeDef) (P : EdgeDef → Type 0) (e : EdgeDef) → Memᴰ e es → All P es → P e
All-at [] P e m h = elim m [ ]
All-at (x ∷ es) P e (Memᴰ.head p) h = rw p h.0
All-at (x ∷ es) P e (Memᴰ.tail m) h = All-at es P e m h.1

push-Reachable :
    (g : GraphDef) (seen : List String) (es : List EdgeDef) (st : List String)
    → All (λ e. Reachable g e.target) es
    → All (Reachable g) st
    → All (Reachable g) (push seen es st)
unfolding push
push-Reachable g seen [] st he hs = hs
push-Reachable g seen (e ∷ es) st he hs =
    push-Reachable g seen es (if mem e.target seen then st else e.target ∷ st) he.1
      (elim (Bool-cases (mem e.target seen)) [ inl old ↦ rw old hs | inr new ↦ rw new (he.0, hs) ])

-- the edges of a list that leave a reachable node lead to reachable nodes
filter-Reachable :
    (g : GraphDef) (k : String) (es : List EdgeDef)
    → ((e : EdgeDef) → Memᴰ e es → Memᴰ e g.edges)
    → Reachable g k
    → All (λ e. Reachable g e.target) (filter (λ e. e.source == k) es)
filter-Reachable g k [] sub r = tt
filter-Reachable g k (e ∷ es) sub r =
    let rest = filter-Reachable g k es (λ q m. sub q (Memᴰ.tail m)) r in
    elim (Bool-cases (e.source == k)) [
      | inl same ↦
          rw same (along e (sub e (Memᴰ.head refl)) (rw ((eq_iff e.source k).0 same) r), rest)
      | inr other ↦ rw other rest
    ]

outgoing-Reachable :
    (g : GraphDef) (k : String) → Reachable g k → All (λ e. Reachable g e.target) (outgoing g k)
unfolding outgoing
outgoing-Reachable g k r =
    Sorting.All-sort by_priority (λ e. Reachable g e.target) (filter (λ e. e.source == k) g.edges)
      (filter-Reachable g k g.edges (λ e m. m) r)

any-insert :
    (before : String → String → Bool) (p : String → Bool) (x : String) (ys : List String)
    → any p (Sorting.insert before x ys) ≡ (p x || any p ys)
unfolding Sorting.insert
any-insert before p x [] = refl
any-insert before p x (y ∷ ys) = ground (arith, any-insert before p x ys)

pub any-sort :
    (before : String → String → Bool) (p : String → Bool) (xs : List String)
    → any p (Sorting.sort before xs) ≡ any p xs
unfolding Sorting.sort
any-sort before p [] = refl
any-sort before p (x ∷ xs) =
    any-insert before p x (Sorting.sort before xs) ∙ ground (arith, any-sort before p xs)

-- what the visit finds is on a path
visit-Reachable :
    (g : GraphDef) (fuel : ℕ) (frontier seen : List String)
    → All (Reachable g) frontier
    → All (Reachable g) seen
    → All (Reachable g) (visit g fuel frontier seen)
unfolding visit
visit-Reachable g zero frontier seen hf hs = hs
visit-Reachable g (suc fuel) [] seen hf hs = hs
visit-Reachable g (suc fuel) (k ∷ ks) seen hf hs = elim (Bool-cases (mem k seen)) [
  | inl old ↦ rw old (visit-Reachable g fuel ks seen hf.1 hs)
  | inr new ↦ rw new (
      visit-Reachable g fuel (push (k ∷ seen) (outgoing g k) ks) (k ∷ seen)
        (push-Reachable g (k ∷ seen) (outgoing g k) ks (outgoing-Reachable g k hf.0) hf.1)
        (hf.0, hs))
]

pub mem-All :
    (P : String → Type 0) (k : String) (xs : List String) → All P xs → mem k xs ≡ true → P k
mem-All P k [] h m = absurd (cc)
mem-All P k (x ∷ xs) h m = elim (Bool-cases (x == k)) [
  | inl same ↦ rw (← (eq_iff x k).0 same) h.0
  | inr other ↦ mem-All P k xs h.1 (rw other at m)
]

closed-mem :
    (g : GraphDef) (ks : List String) (k : String)
    → Found g (g.entry ∷ []) [] ks
    → Reachable g k
    → mem k ks ≡ true
closed-mem g ks k f at_entry = f.keeps g.entry (ground (arith, eq_refl g.entry))
closed-mem g ks k f (along e m r) =
    ground (arith, All-at g.edges _ e m f.closed (closed-mem g ks e.source f r))

-- `reachable_nodes` lists a node exactly when a path from the entry leads to it.
pub reachable_nodes-Reachable :
    (g : GraphDef) (k : String) → (mem k (reachable_nodes g) ≡ true) ↔ Reachable g k
unfolding reachable_nodes
reachable_nodes-Reachable g k = (
  mem-All (Reachable g) k (reachable_nodes g) (
      Sorting.All-sort text_before (Reachable g) found
        (visit-Reachable g (suc (length g.edges)) (g.entry ∷ []) [] (at_entry, tt) tt)),
  λ r. any-sort text_before (λ y. y == k) found ∙ closed-mem g found k all_found r,
)
  where
    found : List String
    found = visit g (suc (length g.edges)) (g.entry ∷ []) []

    all_found : Found g (g.entry ∷ []) [] found
    all_found =
        visit-Found g (suc (length g.edges)) (g.entry ∷ []) [] (pending_start g.edges)
          (start-IsClosed g.edges (g.entry ∷ []))
