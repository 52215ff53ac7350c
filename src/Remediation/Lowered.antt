-- ===== src/Remediation/Lowered.antt =====
-- The loop of redactAndCap of backend/internal/monitoring/remediation/engine.go where each byte is
-- lowered by itself, as strings.ToLower does with ASCII.
use healthops.Prelude.{
  ℕ, zero, suc, ◌+◌, Bool, true, false, ◌&&◌, Option, none, some, [], ◌∷◌, ◌++◌, ◌≡◌, refl, arith,
  leb, ltb, ◌==◌, if◌then◌else◌, length, take, drop, map, all, inl, inr, Option-cases, ◌∙◌, ap,
}
use healthops.Remediation.Data.{Bytes}
use healthops.Remediation.Redact.{has_prefix, index, after_value, mark, redact}

abbrev pub lower : ℕ → ℕ
lower b = if leb b'A' b && leb b b'Z' then b + 32 else b

abbrev pub is_ascii : Bytes → Bool
is_ascii s = all (λ b. ltb b 128) s

abbrev pub has_prefix_lowered : Bytes → Bytes → Bool
has_prefix_lowered [] s = true
has_prefix_lowered (p ∷ ps) [] = false
has_prefix_lowered (p ∷ ps) (c ∷ s) = lower c == p && has_prefix_lowered ps s

unfoldable pub index_lowered : Bytes → Bytes → Option ℕ
index_lowered p [] = if has_prefix_lowered p [] then some 0 else none
index_lowered p (c ∷ s) =
    if has_prefix_lowered p (c ∷ s)
    then some 0
    else elim (index_lowered p s) [ none ↦ none | some i ↦ some (suc i) ]

unfoldable pub redact_lowered : ℕ → Bytes → Bytes → Bytes
redact_lowered zero p s = s
redact_lowered (suc fuel) p s = elim (index_lowered p s) [
  | none ↦ s
  | some i ↦
      let end = i + length p in
      take end s ++ redact_lowered fuel p (mark ++ after_value (drop end s))
]

has_prefix-lower : (p s : Bytes) → has_prefix p (map lower s) ≡ has_prefix_lowered p s
has_prefix-lower [] s = refl
has_prefix-lower (p ∷ ps) [] = refl
has_prefix-lower (p ∷ ps) (c ∷ s) = ap (λ b. lower c == p && b) (has_prefix-lower ps s)

index-lower : (p s : Bytes) → index p (map lower s) ≡ index_lowered p s
unfolding index index_lowered
index-lower [] [] = refl
index-lower (p ∷ ps) [] = refl
index-lower p (c ∷ s) = rw (has_prefix-lower p (c ∷ s), index-lower p s) refl

is_ascii-drop : (n : ℕ) (s : Bytes) → is_ascii s ≡ true → is_ascii (drop n s) ≡ true
is_ascii-drop zero s h = h
is_ascii-drop (suc n) [] h = refl
is_ascii-drop (suc n) (c ∷ s) h = is_ascii-drop n s (ground (arith, h))

is_ascii-after_value : (s : Bytes) → is_ascii s ≡ true → is_ascii (after_value s) ≡ true
is_ascii-after_value [] h = refl
is_ascii-after_value (c ∷ s) h = ground (arith, h, is_ascii-after_value s)

is_ascii-mark : (s : Bytes) → is_ascii s ≡ true → is_ascii (mark ++ s) ≡ true
is_ascii-mark s h = h

-- On ASCII the loop is the one with bytes lowered.
pub redact-lowered :
    (to_lower : Bytes → Bytes) (fuel : ℕ) (p s : Bytes)
    → ((t : Bytes) → is_ascii t ≡ true → to_lower t ≡ map lower t)
    → is_ascii s ≡ true
    → redact to_lower fuel p s ≡ redact_lowered fuel p s
unfolding redact redact_lowered
redact-lowered to_lower zero p s lowers h = refl
redact-lowered to_lower (suc fuel) p s lowers h =
    let found = ap (index p) (lowers s h) ∙ index-lower p s in
    elim (Option-cases (index_lowered p s)) [
      | inl nowhere ↦ rw (found ∙ nowhere, nowhere, redact, redact_lowered) refl
      | inr (i, at) ↦
          let end = i + length p in
          let rest =
            is_ascii-mark (after_value (drop end s))
              (is_ascii-after_value (drop end s) (is_ascii-drop end s h)) in
          rw (found ∙ at, at, redact, redact_lowered)
            (ap (λ r. take end s ++ r)
              (redact-lowered to_lower fuel p (mark ++ after_value (drop end s)) lowers rest))
    ]
