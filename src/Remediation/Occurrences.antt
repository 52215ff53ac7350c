-- ===== src/Remediation/Occurrences.antt =====
-- Where a pattern stands in a text, for the loop of redactAndCap in
-- backend/internal/monitoring/remediation/engine.go.
use healthops.Prelude.{
  ℕ, zero, suc, ◌+◌, ◌≤◌, ◌<◌, Bool, true, false, not, ◌&&◌, none, some, [], ◌∷◌, ◌++◌, ◌≡◌, refl,
  arith, ◌==◌, if◌then◌else◌, length, take, drop, all, inl, inr, ◌⊎◌, Option-cases,
}
use healthops.Remediation.Data.{Bytes}
use healthops.Remediation.Redact.{after_value, mark, equal_signs}
use healthops.Remediation.Lowered.{lower, has_prefix_lowered, index_lowered, redact_lowered}

-- Every value after a place where the pattern stands begins with the mark.
abbrev pub starts_with : Bytes → Bytes → Bool
starts_with [] s = true
starts_with (p ∷ ps) [] = false
starts_with (p ∷ ps) (c ∷ s) = c == p && starts_with ps s

abbrev pub follows : Bytes → Bytes → Bool
follows p s = if has_prefix_lowered p s then starts_with mark (drop (length p) s) else true

abbrev pub is_clean : Bytes → Bytes → Bool
is_clean p [] = true
is_clean p (c ∷ s) = follows p (c ∷ s) && is_clean p s

-- The pattern may stand where the text, as far as it goes, stands.
abbrev pub fits : Bytes → Bytes → Bool
fits [] s = true
fits (p ∷ ps) [] = true
fits (p ∷ ps) (c ∷ s) = lower c == p && fits ps s

abbrev pub fits_nowhere : Bytes → Bytes → Bool
fits_nowhere p [] = true
fits_nowhere p (c ∷ s) = not (fits p (c ∷ s)) && fits_nowhere p s

abbrev pub has_no_star : Bytes → Bool
has_no_star p = all (λ c. not (c == 42)) p

-- What the loop needs of a pattern.
abbrev pub is_usable : Bytes → Bool
is_usable p = has_no_star p && fits_nowhere p mark && not (equal_signs p == 0)

has_prefix-fits : (p t v : Bytes) → fits p t ≡ false → has_prefix_lowered p (t ++ v) ≡ false
has_prefix-fits [] t v h = ground arith
has_prefix-fits (p ∷ ps) [] v h = ground arith
has_prefix-fits (p ∷ ps) (c ∷ t) v h = ground (arith, has_prefix-fits ps t v)

has_prefix-star :
    (p t r : Bytes)
    → has_no_star p ≡ true
    → length t < length p
    → has_prefix_lowered p (t ++ 42 ∷ r) ≡ false
has_prefix-star [] t r h short = ground arith
has_prefix-star (p ∷ ps) [] r h short = ground arith
has_prefix-star (p ∷ ps) (c ∷ t) r h short = ground (arith, has_prefix-star ps t r)

has_prefix-take :
    (p s r : Bytes) (n : ℕ)
    → has_no_star p ≡ true
    → has_prefix_lowered p s ≡ false
    → has_prefix_lowered p (take n s ++ 42 ∷ r) ≡ false
has_prefix-take [] s r n h differs = ground arith
has_prefix-take (p ∷ ps) s r zero h differs = ground arith
has_prefix-take (p ∷ ps) [] r (suc n) h differs = ground arith
has_prefix-take (p ∷ ps) (c ∷ s) r (suc n) h differs = ground (arith, has_prefix-take ps s r n)

is_clean-cons :
    (p : Bytes) (c : ℕ) (s : Bytes)
    → has_prefix_lowered p (c ∷ s) ≡ false
    → is_clean p s ≡ true
    → is_clean p (c ∷ s) ≡ true
is_clean-cons p c s h clean = ground (arith, h, clean)

is_clean-marked :
    (p : Bytes) (c : ℕ) (s : Bytes)
    → starts_with mark (drop (length p) (c ∷ s)) ≡ true
    → is_clean p s ≡ true
    → is_clean p (c ∷ s) ≡ true
is_clean-marked p c s h clean = ground (arith, h, clean)

-- Short of the pattern's length before a mark, the pattern stands nowhere.
is_clean-before :
    (p t w : Bytes)
    → has_no_star p ≡ true
    → length t < length p
    → is_clean p (mark ++ w) ≡ true
    → is_clean p (t ++ (mark ++ w)) ≡ true
is_clean-before p [] w h short clean = clean
is_clean-before p (c ∷ t) w h short clean =
    is_clean-cons p c (t ++ (mark ++ w)) (has_prefix-star p (c ∷ t) (drop 1 mark ++ w) h short)
      (is_clean-before p t w h (omega arith) clean)

drop-take : (n : ℕ) (s r : Bytes) → length (take n s) ≡ n → drop n (take n s ++ r) ≡ r
drop-take zero s r h = refl
drop-take (suc n) [] r h = ground arith
drop-take (suc n) (c ∷ s) r h = drop-take n s r (omega arith)

has_prefix-length :
    (p s : Bytes) → has_prefix_lowered p s ≡ true → length (take (length p) s) ≡ length p
has_prefix-length [] s h = refl
has_prefix-length (p ∷ ps) [] h = ground arith
has_prefix-length (p ∷ ps) (c ∷ s) h = ground (arith, has_prefix-length ps s)

starts_with-mark : (w : Bytes) → starts_with mark (mark ++ w) ≡ true
starts_with-mark w = refl

-- A first occurrence at the very beginning, cut after the pattern.
is_clean-at :
    (p s w : Bytes)
    → has_no_star p ≡ true
    → has_prefix_lowered p s ≡ true
    → is_clean p (mark ++ w) ≡ true
    → is_clean p (take (length p) s ++ (mark ++ w)) ≡ true
is_clean-at [] s w h at clean = clean
is_clean-at (q ∷ p) [] w h at clean = ground arith
is_clean-at (q ∷ p) (c ∷ s) w h at clean =
    let long = has_prefix-length (q ∷ p) (c ∷ s) at in
    let rest : is_clean (q ∷ p) (take (length p) s ++ (mark ++ w)) ≡ true =
      is_clean-before (q ∷ p) (take (length p) s) w h (omega (arith, long)) clean in
    let followed : starts_with mark (drop (length p) (take (length p) s ++ (mark ++ w))) ≡ true =
      rw (drop-take (length p) s (mark ++ w) (omega (arith, long))) (starts_with-mark w) in
    is_clean-marked (q ∷ p) c (take (length p) s ++ (mark ++ w)) followed rest

is_clean-cut :
    (p s w : Bytes) (n : ℕ)
    → has_no_star p ≡ true
    → has_prefix_lowered p s ≡ true
    → n ≡ length p
    → is_clean p (mark ++ w) ≡ true
    → is_clean p (take n s ++ (mark ++ w)) ≡ true
is_clean-cut p s w n h at same clean = rw same (is_clean-at p s w h at clean)

take-nil : (n : ℕ) → take {A = ℕ} n [] ≡ []
take-nil zero = refl
take-nil (suc n) = refl

index-cons :
    (p : Bytes) (c : ℕ) (s : Bytes) (i : ℕ)
    → index_lowered p (c ∷ s) ≡ some i
    → ((has_prefix_lowered p (c ∷ s) ≡ true) × (i ≡ 0))
      ⊎ ((j : ℕ) × (has_prefix_lowered p (c ∷ s) ≡ false)
          × (index_lowered p s ≡ some j)
          × (i ≡ suc j))
unfolding index_lowered
index-cons p c s i found = ground (arith, found)

-- The text up to the first occurrence and the mark behind it.
pub is_clean-index :
    (p s w : Bytes) (i n : ℕ)
    → has_no_star p ≡ true
    → index_lowered p s ≡ some i
    → n ≡ i + length p
    → is_clean p (mark ++ w) ≡ true
    → is_clean p (take n s ++ (mark ++ w)) ≡ true
is_clean-index p [] w i n h found eq clean = rw (take-nil n) clean
is_clean-index p (c ∷ s) w i zero h found eq clean = clean
is_clean-index p (c ∷ s) w i (suc n) h found eq clean = elim (index-cons p c s i found) [
  | inl (at, first) ↦ is_clean-cut p (c ∷ s) w (suc n) h at (omega arith) clean
  | inr (j, differs, later, next) ↦
      is_clean-cons p c (take n s ++ (mark ++ w))
        (has_prefix-take p (c ∷ s) (drop 1 mark ++ w) (suc n) h differs)
        (is_clean-index p s w j n h later (omega arith) clean)
]

pub is_clean-none : (p s : Bytes) → index_lowered p s ≡ none → is_clean p s ≡ true
unfolding index_lowered
is_clean-none p [] h = refl
is_clean-none p (c ∷ s) h = ground (arith, is_clean-none p s)

-- Before a text in which the pattern fits nowhere ends, the pattern does not occur.
index-fits :
    (p t v : Bytes) (i : ℕ)
    → fits_nowhere p t ≡ true
    → index_lowered p (t ++ v) ≡ some i
    → length t ≤ i
index-fits p [] v i h found = omega arith
index-fits p (c ∷ t) v i h found = elim (index-cons p c (t ++ v) i found) [
  | inl (at, first) ↦ ground (arith, has_prefix-fits p (c ∷ t) v, at, h)
  | inr (j, differs, later, next) ↦
      ground (arith, index-fits p t v j (ground (arith, h)) later, next)
]

take-append : (t v : Bytes) (n : ℕ) → length t ≤ n → (w : Bytes) × (take n (t ++ v) ≡ t ++ w)
take-append [] v n h = (take n v, refl)
take-append (c ∷ t) v zero h = absurd (omega (arith, h))
take-append (c ∷ t) v (suc n) h =
    let (w, e) = take-append t v n (omega (arith, h)) in (w, rw e refl)

-- The loop keeps a mark at its beginning.
pub redact-mark :
    (fuel : ℕ) (p v : Bytes)
    → fits_nowhere p mark ≡ true
    → (w : Bytes) × (redact_lowered fuel p (mark ++ v) ≡ mark ++ w)
unfolding redact_lowered
redact-mark zero p v h = (v, refl)
redact-mark (suc fuel) p v h = elim (Option-cases (index_lowered p (mark ++ v))) [
  | inl nowhere ↦ (v, rw (nowhere, redact_lowered) refl)
  | inr (i, found) ↦
      let late = index-fits p mark v i h found in
      let end = i + length p in
      let (w, cut) = take-append mark v end (omega (arith, late)) in
      let rest = redact_lowered fuel p (mark ++ after_value (drop end (mark ++ v))) in
      (w ++ rest, rw (found, redact_lowered, cut) refl)
]

equal_signs-prefix :
    (p s : Bytes)
    → has_prefix_lowered p s ≡ true
    → equal_signs (drop (length p) s) + equal_signs p ≡ equal_signs s
equal_signs-prefix [] s h = omega arith
equal_signs-prefix (q ∷ p) [] h = ground (arith, h)
equal_signs-prefix (q ∷ p) (c ∷ s) h = ground (arith, h, equal_signs-prefix p s)

equal_signs-cut :
    (p s : Bytes) (n : ℕ)
    → has_prefix_lowered p s ≡ true
    → n ≡ length p
    → equal_signs (drop n s) + equal_signs p ≤ equal_signs s
equal_signs-cut p s n at same = rw same (omega (arith, equal_signs-prefix p s at))

equal_signs-short : (p : Bytes) → length p ≡ 0 → equal_signs p ≡ 0
equal_signs-short [] h = refl
equal_signs-short (q ∷ p) h = absurd (omega (arith, h))

drop-nil : (n : ℕ) → drop {A = ℕ} n [] ≡ []
drop-nil zero = refl
drop-nil (suc n) = refl

pub equal_signs-index :
    (p s : Bytes) (i n : ℕ)
    → index_lowered p s ≡ some i
    → n ≡ i + length p
    → equal_signs (drop n s) + equal_signs p ≤ equal_signs s
unfolding index_lowered
equal_signs-index [] [] i n found eq = rw (drop-nil n) (omega arith)
equal_signs-index (q ∷ p) [] i n found eq = ground (arith, found)
equal_signs-index p (c ∷ s) i zero found eq = omega (arith, equal_signs-short p (omega (arith, eq)))
equal_signs-index p (c ∷ s) i (suc n) found eq = elim (index-cons p c s i found) [
  | inl (at, first) ↦ equal_signs-cut p (c ∷ s) (suc n) at (omega arith)
  | inr (j, differs, later, next) ↦ ground (arith, equal_signs-index p s j n later (omega arith))
]

pub equal_signs-after_value : (s : Bytes) → equal_signs (after_value s) ≤ equal_signs s
equal_signs-after_value [] = omega arith
equal_signs-after_value (c ∷ s) = ground (arith, equal_signs-after_value s)
