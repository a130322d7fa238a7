-- ===== src/Operator/Laws.antt =====
-- cli/main.py: what the command `unblock` does to the nodes.
use tecnosor_sas_migration_d.Common.{
  String, true, Option, none, some, ◌≡◌, ◌≢◌, refl, ◌⊎◌, inl, inr, arith, eq_iff, Bool-cases,
}
use tecnosor_sas_migration_d.Errors.{ok}
use tecnosor_sas_migration_d.Operator.{Desk, can_unblock, keep_attempts, unblock}
use tecnosor_sas_migration_d.State.Nodes.{put_row, put_node, get_node_state}
use tecnosor_sas_migration_d.State.Nodes.Laws.{find-put_row_self, find-put_row_ne, merged}
use tecnosor_sas_migration_d.State.Records.{emit}
use tecnosor_sas_migration_d.State.Status.{ready}
use tecnosor_sas_migration_d.State.Tables.{Db, NodeRow}

-- What `unblock` did: it refused and changed nothing, or the node is READY with its attempts as they
-- were and every other node reads as before.
pub record Released (desk : Desk) (n : String) (db final : Db) : Type 0 where
  pub before : NodeRow
  pub found : get_node_state db desk.assessment_id n ≡ some before
  pub allowed : can_unblock before.status ≡ true
  pub after : NodeRow
  pub reads : get_node_state final desk.assessment_id n ≡ some after
  pub status : after.status ≡ ready
  pub attempts : after.attempts ≡ before.attempts
  pub others :
      (k : String)
      → n ≢ k
      → get_node_state final desk.assessment_id k ≡ get_node_state db desk.assessment_id k

release_Released :
    (desk : Desk) (n : String) (db final : Db) (r : NodeRow)
    → get_node_state db desk.assessment_id n ≡ some r
    → can_unblock r.status ≡ true
    → final.node_states
      ≡ put_row desk.assessment_id n (keep_attempts ready r.attempts) db.node_states
    → Released desk n db final
unfolding get_node_state
release_Released desk n db final r p allowed same =
    let u = keep_attempts ready r.attempts in
    record {
      before = r;
      found = p;
      allowed = allowed;
      after = merged desk.assessment_id n u (some r);
      reads = rw (same, find-put_row_self desk.assessment_id n u db.node_states, p) refl;
      status = refl;
      attempts = refl;
      others = λ k ne.
          rw same
            (find-put_row_ne desk.assessment_id n k u db.node_states (ground (arith, eq_iff n k)));
    }

-- `unblock` answers 1 and changes nothing, or answers 0, releases the node and nothing else.
pub unblock_cases :
    (desk : Desk) (n : String) (db : Db)
    → (unblock desk n db ≡ (ok 1, db))
      ⊎ ((unblock desk n db).0 ≡ ok 0) × Released desk n db (unblock desk n db).1
unfolding unblock emit put_node
unblock_cases desk n db = on_row (get_node_state db desk.assessment_id n) refl
  where
    on_row :
        (o : Option NodeRow)
        → get_node_state db desk.assessment_id n ≡ o
        → (unblock desk n db ≡ (ok 1, db))
          ⊎ ((unblock desk n db).0 ≡ ok 0) × Released desk n db (unblock desk n db).1
    on_row none p = inl (rw (p, unblock) refl)
    on_row (some r) p = elim (Bool-cases (can_unblock r.status)) [
      | inl allowed ↦ inr (
        rw (p, unblock, allowed) refl,
        release_Released desk n db (unblock desk n db).1 r p allowed
            (rw (p, unblock, allowed) refl),
      )
      | inr refused ↦ inl (rw (p, unblock, refused) refl)
    ]
