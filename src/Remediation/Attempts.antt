-- ===== src/Remediation/Attempts.antt =====
-- How many attempts an incident gets from the engine of
-- backend/internal/monitoring/remediation/engine.go, when its calls run one after the other.
use healthops.Prelude.{
  ℕ, suc, ◌+◌, ◌≤◌, ◌<◌, String, Bool, true, false, not, ◌||◌, Option, none, some, List, [], ◌∷◌,
  ◌≡◌, refl, arith, all, leb, count-append, str_eq, str_eq_iff, is_blank, if◌then◌else◌,
  Option-cases, inl, inr, ◌⊎◌,
}
use healthops.Types.{Time}
use healthops.Remediation.Data.{
  AllowedAction, GlobalConfig, CheckInfo, Attempt, is_counted, count_attempts, update_attempt,
  defaults,
}
use healthops.Remediation.Guards.{Engine, Skip, Decision, skip, go, decide, decide_manual}
use healthops.Remediation.Engine.{
  World, new_attempt, begin_attempt, finish_attempt, execute, try_remediate, manual_remediate,
  verify_after,
}

-- A mutator that leaves the attempt with its check and its incident.
abbrev Stays : (Attempt → Attempt) → Type 0
Stays f = (a : Attempt) → ((f a).check_id ≡ a.check_id) × ((f a).incident_id ≡ a.incident_id)

count-update_attempt :
    (check_id incident_id id : String) (f : Attempt → Attempt) (attempts : List Attempt)
    → Stays f
    → count_attempts check_id incident_id (update_attempt id f attempts)
      ≡ count_attempts check_id incident_id attempts
unfolding count_attempts update_attempt
count-update_attempt c i id f [] h = refl
count-update_attempt c i id f (a ∷ more) h =
    ground (arith, h a, count-update_attempt c i id f more h)

-- The attempts that the engine counts for an incident.
abbrev pub tries : String → Engine → ℕ
tries incident_id e = count_attempts "" incident_id e.attempts

abbrev IsNumbered : Decision → ℕ → ℕ → Type 0
IsNumbered (skip r) n max = Unit
IsNumbered (go a cfg number) n max = (number ≡ suc n) × (n < max)

pub Decision-cases :
    (d : Decision)
    → ((r : Skip) × (d ≡ skip r))
      ⊎ ((a : AllowedAction) × (cfg : GlobalConfig) × (n : ℕ) × (d ≡ go a cfg n))
Decision-cases (skip r) = inl (r, refl)
Decision-cases (go a cfg n) = inr (a, cfg, n, refl)

decide-tries :
    (now : Time) (info : CheckInfo) (e : Engine)
    → IsNumbered (decide now info e) (tries info.incident_id e) (defaults info.ref).max_attempts
unfolding decide
decide-tries now info e = ground arith

decide_manual-tries :
    (now : Time) (info : CheckInfo) (e : Engine)
    → IsNumbered
        (decide_manual now info e)
        (tries info.incident_id e)
        (defaults info.ref).max_attempts
unfolding decide_manual
decide_manual-tries now info e = ground arith

begin_attempt-tries :
    (info : CheckInfo) (a : AllowedAction) (cfg : GlobalConfig) (n : ℕ) (w : World) (e : Engine)
    (incident_id : String)
    → is_blank incident_id ≡ false
    → tries incident_id (begin_attempt info a cfg n w e).0
      ≤ tries incident_id e + (if str_eq info.incident_id incident_id then 1 else 0)
unfolding begin_attempt count_attempts
begin_attempt-tries info a cfg n w e incident_id named = ground (
  arith,
  named,
  count-append (is_counted "" incident_id) e.attempts (new_attempt info a cfg n w ∷ []),
)

finish_attempt-tries :
    (info : CheckInfo) (action : AllowedAction) (cfg : GlobalConfig) (w : World) (a : Attempt)
    (e : Engine) (incident_id : String)
    → tries incident_id (finish_attempt info action cfg w a e).0 ≡ tries incident_id e
unfolding finish_attempt
finish_attempt-tries info action cfg w a e incident_id = grind (arith, count-update_attempt)

execute-tries :
    (info : CheckInfo) (a : AllowedAction) (cfg : GlobalConfig) (n : ℕ) (w : World) (e : Engine)
    (incident_id : String)
    → is_blank incident_id ≡ false
    → tries incident_id (execute info a cfg n w e).0
      ≤ tries incident_id e + (if str_eq info.incident_id incident_id then 1 else 0)
unfolding execute
execute-tries info a cfg n w e incident_id named =
    elim (Option-cases (begin_attempt info a cfg n w e).1) [
      | inl none_stored ↦
          rw (none_stored, execute) (begin_attempt-tries info a cfg n w e incident_id named)
      | inr (x, stored) ↦
          rw (stored, execute)
            (rw (finish_attempt-tries info a cfg w x (begin_attempt info a cfg n w e).0 incident_id)
              (begin_attempt-tries info a cfg n w e incident_id named))
    ]

-- One call of the engine, with the clock and the world's answers.
pub data Call : Type 0 where
  automatic : Time → World → CheckInfo → Call
  manual : Time → World → String → CheckInfo → Call
  verify : CheckInfo → Attempt → Option (Bool × String) → Option String → Call

unfoldable pub perform : Call → Engine → Engine
perform (automatic now w info) e = (try_remediate now w info e).0
perform (manual now w actor info) e = (manual_remediate now w actor info e).0
perform (verify info a answer analysis) e = (verify_after info a answer analysis e).0

unfoldable pub run : List Call → Engine → Engine
run [] e = e
run (call ∷ calls) e = run calls (perform call e)

-- Where a call is for the incident, its check allows at most `most` attempts.
abbrev pub allows : String → ℕ → Call → Bool
allows incident_id most (automatic now w info) =
    not (str_eq info.incident_id incident_id) || leb (defaults info.ref).max_attempts most
allows incident_id most (manual now w actor info) =
    not (str_eq info.incident_id incident_id) || leb (defaults info.ref).max_attempts most
allows incident_id most (verify info a answer analysis) = true

module _ (incident_id : String) (most : ℕ) (named : is_blank incident_id ≡ false) where
  execute-bounded :
      (info : CheckInfo) (a : AllowedAction) (cfg : GlobalConfig) (n : ℕ) (w : World) (e : Engine)
      → tries info.incident_id e < (defaults info.ref).max_attempts
      → (not (str_eq info.incident_id incident_id) || leb (defaults info.ref).max_attempts most)
        ≡ true
      → tries incident_id e ≤ most
      → tries incident_id (execute info a cfg n w e).0 ≤ most
  execute-bounded info a cfg n w e below ok h = ground (
    arith,
    str_eq_iff info.incident_id incident_id,
    execute-tries info a cfg n w e incident_id named,
  )

  automatic-tries :
      (now : Time) (w : World) (info : CheckInfo) (e : Engine)
      → allows incident_id most (automatic now w info) ≡ true
      → tries incident_id e ≤ most
      → tries incident_id (try_remediate now w info e).0 ≤ most
  unfolding try_remediate
  automatic-tries now w info e ok h = elim (Decision-cases (decide now info e)) [
    | inl (r, skipped) ↦ rw (skipped, try_remediate) h
    | inr (a, cfg, n, gone) ↦
        let (number, below) = rw gone at (decide-tries now info e) in
        rw (gone, try_remediate) (execute-bounded info a cfg n w e below ok h)
  ]

  manual-tries :
      (now : Time) (w : World) (actor : String) (info : CheckInfo) (e : Engine)
      → allows incident_id most (manual now w actor info) ≡ true
      → tries incident_id e ≤ most
      → tries incident_id (manual_remediate now w actor info e).0 ≤ most
  unfolding manual_remediate
  manual-tries now w actor info e ok h = elim (Decision-cases (decide_manual now info e)) [
    | inl (r, skipped) ↦ rw (skipped, manual_remediate) h
    | inr (a, cfg, n, gone) ↦
        let (number, below) = rw gone at (decide_manual-tries now info e) in
        let done = execute info a cfg n w e in
        let bounded = execute-bounded info a cfg n w e below ok h in
        rw (gone, manual_remediate)
          (elim (Option-cases done.1) [
            | inl nothing ↦ rw (nothing, manual_remediate) bounded
            | inr (x, made) ↦
                rw (made, manual_remediate)
                  (rw
                    (count-update_attempt "" incident_id x.id
                      (λ y. record y { triggered_by = actor }) done.0.attempts (λ y. (refl, refl)))
                    bounded)
          ])
  ]

  verify-tries :
      (info : CheckInfo) (a : Attempt) (answer : Option (Bool × String)) (analysis : Option String)
      (e : Engine)
      → tries incident_id (verify_after info a answer analysis e).0 ≡ tries incident_id e
  unfolding verify_after
  verify-tries info a none analysis e = refl
  verify-tries info a (some (true, message)) analysis e = grind (arith, count-update_attempt)
  verify-tries info a (some (false, message)) none e = grind (arith, count-update_attempt)
  verify-tries info a (some (false, message)) (some text) e = grind (arith, count-update_attempt)

  perform-tries :
      (call : Call) (e : Engine)
      → allows incident_id most call ≡ true
      → tries incident_id e ≤ most
      → tries incident_id (perform call e) ≤ most
  unfolding perform
  perform-tries (automatic now w info) e ok h = automatic-tries now w info e ok h
  perform-tries (manual now w actor info) e ok h = manual-tries now w actor info e ok h
  perform-tries (verify info a answer analysis) e ok h =
      rw (verify-tries info a answer analysis e) h

  -- An incident with an identifier gets at most as many attempts as its checks allow, over every
  -- sequence of automatic and manual remediations and verifications of which each ends before the
  -- next begins, if it had at most so many before.
  pub run-bounded :
      (calls : List Call) (e : Engine)
      → all (allows incident_id most) calls ≡ true
      → tries incident_id e ≤ most
      → tries incident_id (run calls e) ≤ most
  unfolding run
  run-bounded [] e ok h = h
  run-bounded (call ∷ calls) e ok h =
      let now_ok : allows incident_id most call ≡ true = ground arith in
      let later_ok : all (allows incident_id most) calls ≡ true = ground arith in
      run-bounded calls (perform call e) later_ok (perform-tries call e now_ok h)
