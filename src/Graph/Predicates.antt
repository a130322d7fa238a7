-- ===== src/Graph/Predicates.antt =====
-- sassessment/graph/predicates.py: the registry of named predicates and the built-in ones.
use tecnosor_sas_migration_d.Common.{
  ℕ, String, Bool, true, false, Option, none, some, List, [], ◌∷◌, ◌++◌, ◌==◌, ◌||◌, not, mem, get,
  ltb, leb, if◌then◌else◌,
}
use tecnosor_sas_migration_d.Errors.{
  Result, ok, err, unknown_predicate, predicate_raised, duplicate_predicate,
}
use tecnosor_sas_migration_d.Graph.Model.{text, texts, Args, Condition}
use tecnosor_sas_migration_d.State.Status.{Status, is_waiting, is_succeeded, is_failed}
use tecnosor_sas_migration_d.State.Snapshot.{Snapshot, node_status}
use tecnosor_sas_migration_d.State.Tables.{ConditionOutcome}

-- A predicate answers, or raises (`none`).
abbrev pub Predicate : Type 0
Predicate = Snapshot → Args → Option Bool

abbrev pub Registry : Type 0
Registry = List (String × Predicate)

-- `str(args.get(key, ""))`; no built-in predicate reads a list by it
abbrev pub arg_text : String → Args → String
arg_text k args = elim (get k args) [ none ↦ "" | some (text s) ↦ s | some (texts l) ↦ "" ]

abbrev pub phase_order : List String
phase_order =
    "phase0" ∷ "phase1" ∷ "phase2" ∷ "phase3" ∷ "phase4" ∷ "phase5" ∷ "phase6" ∷ "phase7" ∷ "phase8"
    ∷ []

-- `list(args.get("order", [...]))`; a text there would be a list of its characters
abbrev pub arg_order : Args → List String
arg_order args = elim (get "order" args) [ some (texts l) ↦ l | _ ↦ phase_order ]

abbrev pub status_is : (Status → Bool) → Option Status → Bool
status_is p none = false
status_is p (some s) = p s

-- `l.index(x)`; the length where `x` is not in `l`
unfoldable pub index : String → List String → ℕ
index x [] = 0
index x (y ∷ ys) = let rest = index x ys in if y == x then 0 else ℕ.suc rest

abbrev or_empty : Option String → String
or_empty none = ""
or_empty (some s) = s

unfoldable pub always : Snapshot → Args → Bool
always s args = true

unfoldable pub never : Snapshot → Args → Bool
never s args = false

unfoldable pub node_succeeded : Snapshot → Args → Bool
node_succeeded s args = status_is is_succeeded (node_status s (arg_text "node" args))

unfoldable pub node_failed : Snapshot → Args → Bool
node_failed s args = status_is is_failed (node_status s (arg_text "node" args))

unfoldable pub node_waiting : Snapshot → Args → Bool
node_waiting s args = status_is is_waiting (node_status s (arg_text "node" args))

unfoldable pub has_batches : Snapshot → Args → Bool
has_batches s args = ltb 0 s.batch_count

unfoldable pub phase_at_least : Snapshot → Args → Bool
unfolding index
phase_at_least s args =
    let target = arg_text "phase" args in
    let current = or_empty s.current_phase in
    let order = arg_order args in
    if not (mem target order) || not (mem current order)
    then current == target
    else leb (index target order) (index current order)

unfoldable pub has_open_requests : Snapshot → Args → Bool
has_open_requests s args = ltb 0 s.open_request_count

unfoldable pub request_resolved : Snapshot → Args → Bool
request_resolved s args = mem (arg_text "request" args) s.resolved_requests

-- the value of a flag is a text: it is true unless it is empty
abbrev pub truthy : Option String → Bool
truthy none = false
truthy (some v) = not (v == "")

unfoldable pub flag_enabled : Snapshot → Args → Bool
flag_enabled s args = truthy (get (arg_text "flag" args) s.flags)

abbrev total : (Snapshot → Args → Bool) → Predicate
total p s args = some (p s args)

-- _BUILTIN_PREDICATES
abbrev pub builtin_predicates : Registry
builtin_predicates =
    ("always", total always)
    ∷ ("never", total never)
    ∷ ("node_succeeded", total node_succeeded)
    ∷ ("node_failed", total node_failed)
    ∷ ("node_waiting", total node_waiting)
    ∷ ("has_batches", total has_batches)
    ∷ ("phase_at_least", total phase_at_least)
    ∷ ("has_open_requests", total has_open_requests)
    ∷ ("request_resolved", total request_resolved)
    ∷ ("flag_enabled", total flag_enabled)
    ∷ []

unfoldable pub register : Registry → String → Predicate → Result Registry
register reg name p = elim (get name reg) [
  | none ↦ ok (reg ++ (name, p) ∷ [])
  | some q ↦ err (duplicate_predicate name)
]

abbrev answer : String → Args → Option Bool → Result ConditionOutcome
answer name args none = err (predicate_raised name)
answer name args (some b) = ok (record { name = name; args = args; result = b })

unfoldable pub evaluate : Registry → Option Condition → Snapshot → Result ConditionOutcome
evaluate reg none s = ok (record { name = "always"; args = []; result = true })
evaluate reg (some c) s = elim (get c.name reg) [
  | none ↦ err (unknown_predicate c.name)
  | some p ↦ answer c.name c.args (p s c.args)
]
