-- ===== src/FileStore/Tally.antt =====
-- Counts of statuses, as addGroupCount of backend/internal/monitoring/service.go adds to them.
use healthops.Prelude.{
  ◌+◌, String, Bool, false, not, ◌&&◌, some, List, [], ◌∷◌, ◌++◌, ◌≡◌, refl, arith, map,
  if◌then◌else◌, length, count, count-append, length-append, str_eq, str_eq_iff, text_or, inl, inr,
  Bool-cases,
}
use healthops.Prelude.Maps.{Map, lookup, lookup-insert}
use healthops.FileStore.Summary.{StatusCount, no_count, add_status, count_or_none, add_group_count}

abbrev pub is_unknown : String → Bool
is_unknown s = not (str_eq s "healthy") && not (str_eq s "warning") && not (str_eq s "critical")

-- The statuses of a list, counted.
abbrev pub tally : List String → StatusCount
tally ss = record {
  total = length ss;
  healthy = count (λ s. str_eq s "healthy") ss;
  warning = count (λ s. str_eq s "warning") ss;
  critical = count (λ s. str_eq s "critical") ss;
  unknown = count is_unknown ss;
}

-- One count is another with the statuses of a list besides.
abbrev pub Adds : StatusCount → List String → StatusCount → Type 0
Adds a ss b =
    (b.total ≡ a.total + (tally ss).total)
    × (b.healthy ≡ a.healthy + (tally ss).healthy)
    × (b.warning ≡ a.warning + (tally ss).warning)
    × (b.critical ≡ a.critical + (tally ss).critical)
    × (b.unknown ≡ a.unknown + (tally ss).unknown)

apart : (s a b : String) → str_eq a b ≡ false → str_eq s a && str_eq s b ≡ false
apart s a b h = ground (arith, h, str_eq_iff s a, str_eq_iff s b, str_eq_iff a b)

pub statuses_apart :
    (s : String)
    → (str_eq s "healthy" && str_eq s "warning" ≡ false)
      × (str_eq s "healthy" && str_eq s "critical" ≡ false)
      × (str_eq s "warning" && str_eq s "critical" ≡ false)
statuses_apart s = (
  apart s "healthy" "warning" refl,
  apart s "healthy" "critical" refl,
  apart s "warning" "critical" refl,
)

add_status-Adds : (s : String) (c : StatusCount) → Adds c (s ∷ []) (add_status s c)
add_status-Adds s c = ground (arith, statuses_apart s)

-- The sum of the four kinds is the total.
tally-sum :
    (ss : List String)
    → (tally ss).healthy + (tally ss).warning + (tally ss).critical + (tally ss).unknown ≡ length ss
tally-sum [] = refl
tally-sum (s ∷ ss) = ground (arith, statuses_apart s, tally-sum ss)

pub Adds-refl : (a : StatusCount) → Adds a [] a
Adds-refl a = ground arith

pub Adds-trans :
    (a b c : StatusCount) (ss ss' : List String) → Adds a ss b → Adds b ss' c → Adds a (ss ++ ss') c
Adds-trans a b c ss ss' h h' = ground (
  arith,
  h,
  h',
  length-append ss ss',
  count-append (λ s. str_eq s "healthy") ss ss',
  count-append (λ s. str_eq s "warning") ss ss',
  count-append (λ s. str_eq s "critical") ss ss',
  count-append is_unknown ss ss',
)

pub of_Adds : (ss : List String) (b : StatusCount) → Adds no_count ss b → b ≡ tally ss
of_Adds ss b h = ground (arith, h)

Adds-insert :
    (j k status : String) (groups : Map StatusCount)
    → Adds (count_or_none (lookup k groups)) (if str_eq j k then status ∷ [] else []) (
        count_or_none (
          if str_eq j k
          then some (add_status status (count_or_none (lookup j groups)))
          else lookup k groups))
Adds-insert j k status groups = elim (Bool-cases (str_eq j k)) [
  | inl same ↦
      rw (same, (str_eq_iff j k).0 same) (add_status-Adds status (count_or_none (lookup k groups)))
  | inr differs ↦ rw differs (Adds-refl (count_or_none (lookup k groups)))
]

pub add_group_count-Adds :
    (key status k : String) (groups : Map StatusCount)
    → Adds
        (count_or_none (lookup k groups))
        (if str_eq (text_or key "default") k then status ∷ [] else [])
        (count_or_none (lookup k (add_group_count key status groups)))
unfolding add_group_count
add_group_count-Adds key status k groups =
    let j = text_or key "default" in
    rw (lookup-insert j k (add_status status (count_or_none (lookup j groups))) groups)
      (Adds-insert j k status groups)

pub sum_of :
    (c : StatusCount) (ss : List String)
    → c ≡ tally ss
    → c.healthy + c.warning + c.critical + c.unknown ≡ length ss
sum_of c ss h = rw h (tally-sum ss)

pub length-map {ℓ ℓ'} :
    {A : Type ℓ} {B : Type ℓ'} (f : A → B) (xs : List A) → length (map f xs) ≡ length xs
length-map f [] = refl
length-map f (x ∷ xs) = omega (arith, length-map f xs)
