-- ===== src/Floats.antt =====
-- float64 and its operations are not modelled: they are parameters of what uses them.
use healthops.Prelude.{Bool, ◌||◌, ℤ}

pub record Floats : Type 1 where
  pub F : Type 0
  pub feq : F → F → Bool
  pub flt : F → F → Bool
  pub fdiv : F → F → F
  pub fmul : F → F → F
  -- float64(n)
  pub of_int : ℤ → F
  -- int64(x)
  pub to_int : F → ℤ
  -- d.Seconds(), of a duration in nanoseconds
  pub seconds : ℤ → F

-- a <= b
abbrev pub fle : (fl : Floats) → fl.F → fl.F → Bool
fle fl a b = fl.flt a b || fl.feq a b
