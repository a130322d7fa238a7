-- ===== src/State/Ledger.antt =====
-- sassessment/state/repository.py: sessions, gaps, assumptions, risks and checkpoint rows. No
-- other module reads these tables here. Times are left out: what the source orders by them stands in
-- insertion order, and `list_sessions` answers the latest first.
pub mod Laws
use tecnosor_sas_migration_d.Common.{
  ℕ, zero, suc, String, Bool, true, false, Option, none, some, List, [], ◌∷◌, ◌++◌, ◌==◌, ◌&&◌,
  find, filter, map, if◌then◌else◌,
}

pub record Session : Type 0 where
  pub id : String
  pub assessment_id : String
  pub is_open : Bool

pub record Gap : Type 0 where
  pub id : String
  pub assessment_id : String
  pub description : String
  pub phase : String
  pub status : String

pub record Assumption : Type 0 where
  pub id : String
  pub assessment_id : String
  pub statement : String
  pub rationale : String
  pub status : String

pub record Risk : Type 0 where
  pub id : String
  pub assessment_id : String
  pub statement : String
  pub severity : String
  pub mitigation : String
  pub status : String

pub record CheckpointRow : Type 0 where
  pub id : String
  pub assessment_id : String
  pub label : String
  pub manifest_path : String
  pub db_snapshot_path : String
  pub manifest_sha256 : String

pub record Ledger : Type 0 where
  pub sessions : List Session
  pub gaps : List Gap
  pub assumptions : List Assumption
  pub risks : List Risk
  pub checkpoints : List CheckpointRow

unfoldable pub create_session : String → String → Ledger → Ledger
create_session id a l = record l {
  sessions = l.sessions ++ record { id = id; assessment_id = a; is_open = true } ∷ [];
}

unfoldable pub get_session : Ledger → String → Option Session
get_session l id = find (λ s. s.id == id) l.sessions

-- `LIMIT ?`
unfoldable pub limited : ℕ → List Session → List Session
limited zero ss = []
limited (suc n) [] = []
limited (suc n) (s ∷ ss) = s ∷ limited n ss

unfoldable pub latest_first : List Session → List Session
latest_first [] = []
latest_first (s ∷ ss) = latest_first ss ++ s ∷ []

-- An empty assessment lists all sessions.
unfoldable pub list_sessions : Ledger → String → ℕ → List Session
list_sessions l a limit =
    limited limit
      (latest_first (if a == "" then l.sessions else filter (λ s. s.assessment_id == a) l.sessions))

abbrev pub close_row : String → Session → Session
close_row id s = if s.id == id && s.is_open then record s { is_open = false } else s

unfoldable pub close_session : String → Ledger → Ledger
close_session id l = record l { sessions = map (close_row id) l.sessions }

unfoldable pub create_gap : Gap → Ledger → Ledger
create_gap g l = record l { gaps = l.gaps ++ record g { status = "OPEN" } ∷ [] }

unfoldable pub create_assumption : Assumption → Ledger → Ledger
create_assumption s l = record l {
  assumptions = l.assumptions ++ record s { status = "ACTIVE" } ∷ [];
}

unfoldable pub create_risk : Risk → Ledger → Ledger
create_risk r l = record l { risks = l.risks ++ record r { status = "OPEN" } ∷ [] }

unfoldable pub create_checkpoint_record : CheckpointRow → Ledger → Ledger
create_checkpoint_record c l = record l { checkpoints = l.checkpoints ++ c ∷ [] }

unfoldable pub get_checkpoint : Ledger → String → Option CheckpointRow
get_checkpoint l id = find (λ c. c.id == id) l.checkpoints

unfoldable pub list_checkpoints : Ledger → String → List CheckpointRow
list_checkpoints l a = filter (λ c. c.assessment_id == a) l.checkpoints
