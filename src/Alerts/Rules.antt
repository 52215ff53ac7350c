-- ===== src/Alerts/Rules.antt =====
-- The alert types of backend/internal/monitoring/types.go.
use healthops.Prelude.{String, Bool, Option, List, ℤ}
use healthops.Types.{Time}

-- The four operators, and any other text.
pub data AlertOperator : Type 0 where
  equals not_equals greater_than less_than : AlertOperator
  other_operator : String → AlertOperator

-- A condition's `interface{}`: what its comparisons accept, and all else.
pub data Value (F : Type 0) : Type 0 where
  text : String → Value F
  boolean : Bool → Value F
  float : F → Value F
  int : ℤ → Value F
  int64 : ℤ → Value F
  other_value : Value F

pub record AlertCondition (F : Type 0) : Type 0 where
  pub field : String
  pub operator : AlertOperator
  pub value : Value F

-- The channel's `Config` is not read by the engine.
pub record AlertChannel : Type 0 where
  pub type : String

pub record AlertRule (F : Type 0) : Type 0 where
  pub id : String
  pub name : String
  pub enabled : Bool
  pub check_ids : List String
  pub conditions : List (AlertCondition F)
  pub severity : String
  pub channels : List AlertChannel
  pub cooldown_minutes : ℤ
  pub description : String
  pub consecutive_breaches : ℤ
  pub recovery_samples : ℤ
  pub threshold_num : F
  pub rule_code : String

pub record Alert : Type 0 where
  pub id : String
  pub rule_id : String
  pub rule_name : String
  pub check_id : String
  pub check_name : String
  pub severity : String
  pub status : String
  pub message : String
  pub triggered_at : Time
  pub resolved_at : Option Time
