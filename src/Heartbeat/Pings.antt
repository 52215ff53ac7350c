-- ===== src/Heartbeat/Pings.antt =====
-- HeartbeatStore and the execution of a heartbeat check, of
-- backend/internal/monitoring/check_heartbeat.go. A locked section is one step; the metrics of a
-- result and the texts of errors are left out.
use healthops.Prelude.{
  ℕ, suc, ◌+◌, ◌-◌, ◌*◌, String, Bool, true, false, Option, none, some, if◌then◌else◌, str_eq,
  is_some, ltb, ℤ, pos, negsuc, pos_part, neg_part,
}
use healthops.Prelude.Maps.{Map, lookup, insert}
use healthops.Blocks.{HeartbeatCheckConfig}
use healthops.Types.{Time, second}

pub record HeartbeatPing : Type 0 where
  pub token : String
  pub status : String
  pub message : String
  pub pinged_at : Time
  pub ip_address : String

pub data Current : Type 0 where
  missed healthy : Current

pub record HeartbeatState : Type 0 where
  pub token : String
  pub check_id : String
  pub last_ping : Option HeartbeatPing
  pub ping_count : ℕ
  pub missed_count : ℕ
  pub current_state : Current

abbrev pub new_state : String → String → HeartbeatState
new_state token check_id = record {
  token = token;
  check_id = check_id;
  last_ping = none;
  ping_count = 0;
  missed_count = 0;
  current_state = missed;
}

-- Register
unfoldable pub register : String → String → Map HeartbeatState → Map HeartbeatState
register token check_id states =
    if is_some (lookup token states) then states else insert token (new_state token check_id) states

-- RecordPing, with whether the token is known.
unfoldable pub record_ping : HeartbeatPing → Map HeartbeatState → Map HeartbeatState × Bool
record_ping ping states = elim (lookup ping.token states) [
  | none ↦ (states, false)
  | some s ↦ (
    insert ping.token
        (record s { last_ping = some ping; ping_count = suc s.ping_count; current_state = healthy })
        states,
    true,
  )
]

-- What Execute finds: no ping yet, a failure that was reported, or how late the last ping is.
pub data Verdict : Type 0 where
  no_ping reported_failure late in_grace on_time : Verdict

-- a > b * second, for the age between two times that may be in the other order.
abbrev pub is_older : Time → Time → ℤ → Bool
is_older now at seconds = ltb (at + pos_part seconds * second) (now + neg_part seconds * second)

-- The deadline's seconds: the interval and the grace.
abbrev pub add_ℤ : ℤ → ℤ → ℤ
add_ℤ a b =
    if ltb (pos_part a + pos_part b) (neg_part a + neg_part b)
    then negsuc (neg_part a + neg_part b - (pos_part a + pos_part b) - 1)
    else pos (pos_part a + pos_part b - (neg_part a + neg_part b))

abbrev pub miss : HeartbeatState → HeartbeatState
miss s = record s { missed_count = suc s.missed_count; current_state = missed }

-- The tests after the last ping is found, in order: it reported a failure, it is past the deadline,
-- it is past the interval.
abbrev pub judge :
    Bool → Bool → Bool → String → HeartbeatState → Map HeartbeatState → Map HeartbeatState × Verdict
judge true past_deadline past_interval token s states = (states, reported_failure)
judge false true past_interval token s states = (insert token (miss s) states, late)
judge false false true token s states = (states, in_grace)
judge false false false token s states = (states, on_time)

abbrev pub execute_ping :
    Time
    → HeartbeatCheckConfig
    → HeartbeatState
    → Option HeartbeatPing
    → Map HeartbeatState
    → Map HeartbeatState × Verdict
execute_ping now b s none states = (states, no_ping)
execute_ping now b s (some ping) states =
    judge (str_eq ping.status "fail")
      (is_older now ping.pinged_at (add_ℤ b.expected_interval_seconds b.grace_seconds))
      (is_older now ping.pinged_at b.expected_interval_seconds) b.token s states

abbrev pub execute_state :
    Time
    → HeartbeatCheckConfig
    → Option HeartbeatState
    → Map HeartbeatState
    → Map HeartbeatState × Verdict
execute_state now b none states = (states, no_ping)
execute_state now b (some s) states = execute_ping now b s s.last_ping states

-- Execute, at the time that it reads.
unfoldable pub execute :
    Time → HeartbeatCheckConfig → Map HeartbeatState → Map HeartbeatState × Verdict
execute now b states = execute_state now b (lookup b.token states) states
