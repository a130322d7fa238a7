-- ===== src/Common/Json.antt =====
-- A JSON value: what json.loads reads, and what the program keeps in nested dicts and lists.
use tecnosor_sas_migration_d.Common.{ℕ, String, Bool}

mutual
  pub data Json : Type 0 where
    null : Json
    text : String → Json
    number : ℕ → Json
    flag : Bool → Json
    items : Items → Json
    dict : Fields → Json

  pub data Items : Type 0 where
    no_items : Items
    item : Json → Items → Items

  pub data Fields : Type 0 where
    no_fields : Fields
    field : String → Json → Fields → Fields
