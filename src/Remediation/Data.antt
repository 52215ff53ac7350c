-- ===== src/Remediation/Data.antt =====
-- backend/internal/monitoring/remediation/types.go, and the attempts that its repository keeps. The
-- repository's collection is a list; a query of CountAttempts with a blank field asks nothing of it.
use healthops.Prelude.{
  ℕ, String, Bool, true, false, Option, List, [], ◌∷◌, ◌&&◌, ◌||◌, is_blank, str_eq, positive_or, ℤ,
  if◌then◌else◌, count,
}
use healthops.Types.{Time}

-- Bytes, for the output of a command.
abbrev pub Bytes : Type 0
Bytes = List ℕ

pub data ActionType : Type 0 where
  command ssh_command http : ActionType
  other_action : String → ActionType

-- The statuses that the engine writes.
pub data AttemptStatus : Type 0 where
  running success failed dry_run : AttemptStatus

pub record GlobalConfig : Type 0 where
  pub enabled : Bool
  pub dry_run : Bool
  pub max_concurrent : ℤ
  pub output_limit_bytes : ℤ

unfoldable pub default_global_config : GlobalConfig
default_global_config = record {
  enabled = false;
  dry_run = true;
  max_concurrent = ℤ.pos 2;
  output_limit_bytes = ℤ.pos 8192;
}

-- What the engine reads of an action.
pub record AllowedAction : Type 0 where
  pub id : String
  pub name : String
  pub type : ActionType
  pub command : String
  pub timeout_seconds : ℤ

pub record RemediationRef : Type 0 where
  pub action_ref : String
  pub max_attempts : ℤ
  pub cooldown_seconds : ℤ
  pub verify_after_seconds : ℤ
  pub escalate_on_exhaustion : Bool

-- The numbers of a reference after Defaults, which all are positive.
pub record Policy : Type 0 where
  pub max_attempts : ℕ
  pub cooldown_seconds : ℕ
  pub verify_after_seconds : ℕ

unfoldable pub defaults : RemediationRef → Policy
defaults r = record {
  max_attempts = positive_or 3 r.max_attempts;
  cooldown_seconds = positive_or 300 r.cooldown_seconds;
  verify_after_seconds = positive_or 10 r.verify_after_seconds;
}

pub record CheckInfo : Type 0 where
  pub check_id : String
  pub ref : RemediationRef
  pub incident_id : String
  pub inline_action : Option AllowedAction

pub record Attempt : Type 0 where
  pub id : String
  pub check_id : String
  pub incident_id : String
  pub action_id : String
  pub action_name : String
  pub action_type : ActionType
  pub command : String
  pub attempt_number : ℕ
  pub status : AttemptStatus
  pub dry_run : Bool
  pub exit_code : ℤ
  pub output : Bytes
  pub error : String
  pub verified : Option Bool
  pub ai_analysis : String
  pub duration_ms : ℕ
  pub triggered_by : String
  pub created_at : Time

abbrev pub is_counted : String → String → Attempt → Bool
is_counted check_id incident_id a =
    (is_blank check_id || str_eq a.check_id check_id)
    && (is_blank incident_id || str_eq a.incident_id incident_id)

-- CountAttempts of the repository.
unfoldable pub count_attempts : String → String → List Attempt → ℕ
count_attempts check_id incident_id attempts = count (is_counted check_id incident_id) attempts

-- UpdateAttempt of the repository: the attempt with the identifier, if there is one.
unfoldable pub update_attempt : String → (Attempt → Attempt) → List Attempt → List Attempt
update_attempt id mutator [] = []
update_attempt id mutator (a ∷ as') =
    if str_eq a.id id then mutator a ∷ as' else a ∷ update_attempt id mutator as'
