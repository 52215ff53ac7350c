-- ===== src/MysqlRules/Alternation.antt =====
-- The order of a rule's actions in mysql_rules.go.
use healthops.Prelude.{Bool, true, false, List, [], ◌∷◌, ◌≡◌, refl, ◌∙◌, ◌⊎◌, arith}
use healthops.Alerts.Rules.{AlertRule}
use healthops.MysqlRules.Engine.{
  AlertState, status_ok, status_open, Action, no_action, open_action, close_action, is_ok,
  transition,
}
use healthops.MysqlRules.Streaks.{samples}

-- The actions open and close in turn; `closed` says that an opening is due.
abbrev pub alternates : Bool → List Action → Bool
alternates closed [] = true
alternates closed (no_action ∷ more) = alternates closed more
alternates true (open_action ∷ more) = alternates false more
alternates true (close_action ∷ more) = false
alternates false (open_action ∷ more) = false
alternates false (close_action ∷ more) = alternates true more

module _ {F : Type 0} (rule : AlertRule F) where
  abbrev Known : AlertState → Type 0
  Known s = (s.status ≡ status_ok) ⊎ (s.status ≡ status_open)

  transition-Known : (s : AlertState) (b : Bool) → Known s → Known (transition s rule b).0
  unfolding transition
  transition-Known s b h = ground arith

  transition-alternates :
      (s : AlertState) (b : Bool) (more : List Action)
      → Known s
      → alternates (is_ok s.status) ((transition s rule b).1.action ∷ more)
        ≡ alternates (is_ok (transition s rule b).0.status) more
  unfolding transition
  transition-alternates s true more h = ground arith
  transition-alternates s false more h = ground arith

  -- From a state that is OK or OPEN, over every run of samples, the rule opens and closes in turn,
  -- and begins with an opening if it was OK and with a closing if it was OPEN. It never opens twice
  -- in a row, nor closes what is not open.
  pub samples-alternates :
      (bs : List Bool) (s : AlertState)
      → (s.status ≡ status_ok) ⊎ (s.status ≡ status_open)
      → alternates (is_ok s.status) (samples rule bs s).1 ≡ true
  unfolding samples
  samples-alternates [] s h = refl
  samples-alternates (b ∷ bs) s h =
      let (s', result) = transition s rule b in
      transition-alternates s b (samples rule bs s').1 h
      ∙ samples-alternates bs s' (transition-Known s b h)
