-- ===== src/Remediation/Redaction.antt =====
-- What redactAndCap of backend/internal/monitoring/remediation/engine.go leaves of a secret, and
-- that its loop ends.
use healthops.Prelude.{
  ℕ, zero, suc, ◌+◌, ◌<◌, Bool, true, false, not, ◌&&◌, some, ◌++◌, ◌≡◌, refl, arith, ◌==◌, length,
  drop, all, map, inl, inr, Option-cases,
}
use healthops.Remediation.Data.{Bytes}
use healthops.Remediation.Redact.{after_value, mark, redact, equal_signs, patterns}
use healthops.Remediation.Lowered.{lower, is_ascii, index_lowered, redact_lowered, redact-lowered}
use healthops.Remediation.Occurrences.{
  fits_nowhere, has_no_star, is_usable, equal_signs-index, equal_signs-after_value,
}

all_three : (a b c : Bool) → (a && b && not c) ≡ true → (a ≡ true) × (b ≡ true) × (c ≡ false)
all_three a b c h = ground (arith, h)

usable_parts :
    (p : Bytes)
    → is_usable p ≡ true
    → (has_no_star p ≡ true) × (fits_nowhere p mark ≡ true) × (equal_signs p == 0 ≡ false)
usable_parts p usable = all_three (has_no_star p) (fits_nowhere p mark) (equal_signs p == 0) usable

-- What the loop looks at next has a sign less.
equal_signs-next :
    (p s : Bytes) (i : ℕ)
    → is_usable p ≡ true
    → index_lowered p s ≡ some i
    → equal_signs (mark ++ after_value (drop (i + length p) s)) < equal_signs s
equal_signs-next p s i usable found = ground (
  arith,
  (usable_parts p usable).2,
  equal_signs-index p s i (i + length p) found refl,
  equal_signs-after_value (drop (i + length p) s),
)

redact_lowered-ends :
    (fuel fuel' : ℕ) (p s : Bytes)
    → is_usable p ≡ true
    → equal_signs s < fuel
    → equal_signs s < fuel'
    → redact_lowered fuel p s ≡ redact_lowered fuel' p s
unfolding redact_lowered
redact_lowered-ends zero fuel' p s usable enough enough' = absurd (omega (arith, enough))
redact_lowered-ends (suc fuel) zero p s usable enough enough' = absurd (omega (arith, enough'))
redact_lowered-ends (suc fuel) (suc fuel') p s usable enough enough' =
    elim (Option-cases (index_lowered p s)) [
      | inl nowhere ↦ rw (nowhere, redact_lowered) refl
      | inr (i, found) ↦
          let v = after_value (drop (i + length p) s) in
          let fewer = equal_signs-next p s i usable found in
          let same =
            redact_lowered-ends fuel fuel' p (mark ++ v) usable (omega (arith, fewer))
              (omega (arith, fewer)) in
          rw (found, redact_lowered, same) refl
    ]

-- The six patterns can be used.
patterns-usable : all is_usable patterns ≡ true
patterns-usable = refl

-- strings.ToLower lowers a text of ASCII byte by byte.
module _ (to_lower : Bytes → Bytes)
    (lowers : (t : Bytes) → is_ascii t ≡ true → to_lower t ≡ map lower t) where
  -- The loop of redactAndCap for a pattern ends on a text of ASCII: every fuel that is more than the
  -- number of `=` in the text gives the same, if ToLower lowers ASCII byte by byte.
  pub redact-ends :
      (fuel fuel' : ℕ) (p s : Bytes)
      → is_usable p ≡ true
      → is_ascii s ≡ true
      → equal_signs s < fuel
      → equal_signs s < fuel'
      → redact to_lower fuel p s ≡ redact to_lower fuel' p s
  redact-ends fuel fuel' p s usable ascii enough enough' =
      rw
        (
          redact-lowered to_lower fuel p s lowers ascii,
          redact-lowered to_lower fuel' p s lowers ascii,
        )
        (redact_lowered-ends fuel fuel' p s usable enough enough')
