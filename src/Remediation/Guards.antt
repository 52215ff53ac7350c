-- ===== src/Remediation/Guards.antt =====
-- The engine's state and the guards of its two entry points, of
-- backend/internal/monitoring/remediation/engine.go.
use healthops.Prelude.{
  ℕ, suc, ◌-◌, ◌%◌, ◌^◌, ℤ, pos, negsuc, ltb, String, Bool, false, not, Option, none, some, List,
  positive_or, leb, if◌then◌else◌,
}
use healthops.Prelude.Maps.{Map, lookup}
use healthops.Types.{Time, before}
use healthops.Remediation.Data.{
  GlobalConfig, AllowedAction, CheckInfo, defaults, Attempt, count_attempts,
}

-- `config` is what GetConfig answers, `none` for an error, and `attempts` the repository's.
pub record Engine : Type 0 where
  pub config : Option GlobalConfig
  pub actions : Map AllowedAction
  pub attempts : List Attempt
  pub in_progress : ℕ
  pub cooldowns : Map Time

pub data Skip : Type 0 where
  no_config disabled no_action too_many cooling_down exhausted : Skip

pub data Decision : Type 0 where
  skip : Skip → Decision
  go : AllowedAction → GlobalConfig → ℕ → Decision

abbrev is_enabled : Option GlobalConfig → Bool
is_enabled none = false
is_enabled (some c) = c.enabled

abbrev resolve : CheckInfo → Engine → Option AllowedAction
resolve info e = elim info.inline_action [
  | some a ↦ some a
  | none ↦ lookup info.ref.action_ref e.actions
]

abbrev pub is_cooling : Time → String → Map Time → Bool
is_cooling now check_id cooldowns = elim (lookup check_id cooldowns) [
  | none ↦ false
  | some earliest ↦ before now earliest
]

-- The guards from the cooldown on, which both entry points share.
abbrev limits : Time → CheckInfo → AllowedAction → GlobalConfig → Engine → Decision
limits now info action cfg e =
    if is_cooling now info.check_id e.cooldowns
    then skip cooling_down
    else let n = count_attempts "" info.incident_id e.attempts in
      if leb (defaults info.ref).max_attempts n then skip exhausted else go action cfg (suc n)

-- The conversion int32(x) of a Go int, which keeps the low 32 bits.
abbrev low_bits : ℤ → ℕ
low_bits (pos n) = n % 2 ^ 32
low_bits (negsuc n) = 2 ^ 32 - 1 - n % 2 ^ 32

unfoldable pub to_int32 : ℤ → ℤ
to_int32 x = let low = low_bits x in if ltb low (2 ^ 31) then pos low else negsuc (2 ^ 32 - 1 - low)

abbrev pub max_conc : GlobalConfig → ℕ
max_conc cfg = positive_or 2 (to_int32 cfg.max_concurrent)

-- tryRemediateAsync up to execute.
unfoldable pub decide : Time → CheckInfo → Engine → Decision
unfolding count_attempts defaults
decide now info e = elim e.config [
  | none ↦ skip no_config
  | some cfg ↦ if not cfg.enabled then skip disabled else elim (resolve info e) [
    | none ↦ skip no_action
    | some action ↦
        if leb (max_conc cfg) e.in_progress then skip too_many else limits now info action cfg e
  ]
]

-- ManualRemediate up to execute: it does not look at what runs.
unfoldable pub decide_manual : Time → CheckInfo → Engine → Decision
unfolding count_attempts defaults
decide_manual now info e = elim e.config [
  | none ↦ skip no_config
  | some cfg ↦ if not cfg.enabled then skip disabled else elim (resolve info e) [
    | none ↦ skip no_action
    | some action ↦ limits now info action cfg e
  ]
]
