-- ===== src/Remediation/Races.antt =====
-- Two remediations at once, in backend/internal/monitoring/remediation/engine.go: the guards read
-- what `execute` writes only later.
use healthops.Prelude.{ℕ, suc, true, [], ◌∷◌, ◌≡◌, arith, count-append, str_eq_refl}
use healthops.Types.{Time}
use healthops.Remediation.Data.{
  AllowedAction, GlobalConfig, CheckInfo, is_counted, count_attempts, defaults,
}
use healthops.Remediation.Guards.{Engine, go, max_conc, decide}
use healthops.Remediation.Engine.{World, new_attempt, begin_attempt}
use healthops.Remediation.Attempts.{tries}

begin_attempt-adds :
    (info : CheckInfo) (a : AllowedAction) (cfg : GlobalConfig) (n : ℕ) (w : World) (e : Engine)
    → w.is_stored ≡ true
    → let e' = (begin_attempt info a cfg n w e).0 in
      (e'.in_progress ≡ suc e.in_progress)
      × (tries info.incident_id e' ≡ suc (tries info.incident_id e))
unfolding begin_attempt count_attempts
begin_attempt-adds info a cfg n w e stored = ground (
  arith,
  stored,
  str_eq_refl info.incident_id,
  count-append (is_counted "" info.incident_id) e.attempts (new_attempt info a cfg n w ∷ []),
)

-- Where two automatic remediations for one incident pass the guards before either begins, both
-- run: with one attempt left the incident gets one too many, and with one place left one action
-- too many runs.
both_run :
    (now now' : Time) (info info' : CheckInfo) (a a' : AllowedAction) (cfg cfg' : GlobalConfig)
    (n n' : ℕ) (w w' : World) (e : Engine)
    → decide now info e ≡ go a cfg n
    → decide now' info' e ≡ go a' cfg' n'
    → info'.incident_id ≡ info.incident_id
    → w.is_stored ≡ true
    → w'.is_stored ≡ true
    → suc (tries info.incident_id e) ≡ (defaults info.ref).max_attempts
    → suc e.in_progress ≡ max_conc cfg
    → let e' = (begin_attempt info a cfg n w e).0 in
      let e'' = (begin_attempt info' a' cfg' n' w' e').0 in
      (tries info.incident_id e'' ≡ suc (defaults info.ref).max_attempts)
      × (e''.in_progress ≡ suc (max_conc cfg))
both_run now now' info info' a a' cfg cfg' n n' w w' e d d' same s s' left place =
    let e' = (begin_attempt info a cfg n w e).0 in
    let one = begin_attempt-adds info a cfg n w e s in
    let two = begin_attempt-adds info' a' cfg' n' w' e' s' in ground (arith, one, two, same)
