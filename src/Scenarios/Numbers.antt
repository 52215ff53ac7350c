-- ===== src/Scenarios/Numbers.antt =====
-- Whole numbers in the place of float64, for the runs on concrete data.
use healthops.Prelude.{ℤ, pos, pos_part, ◌/◌, ◌*◌, ltb_ℤ, eqb_ℤ}
use healthops.Floats.{Floats}

abbrev pub whole : Floats
whole = record {
  F = ℤ;
  feq = eqb_ℤ;
  flt = ltb_ℤ;
  fdiv = λ a b. pos (pos_part a / pos_part b);
  fmul = λ a b. pos (pos_part a * pos_part b);
  of_int = λ z. z;
  to_int = λ z. z;
  seconds = λ z. pos (pos_part z / 1_000_000_000);
}
