-- ===== src/FileStore/Retention.antt =====
-- Which results AppendResults of backend/internal/monitoring/store.go keeps, and their order.
use healthops.Prelude.{
  ℕ, suc, ◌-◌, ◌*◌, ◌≤◌, Bool, List, [], ◌∷◌, ◌++◌, ◌≡◌, refl, arith, select, ◌==◌, pos,
}
use healthops.Types.{Time, CheckResult, day}
use healthops.FileStore.Operations.{
  State, is_retained, place, sort_by_end, prune_results, append_results,
}

module _ {F : Type 0} where
  -- Each result ended no later than the next.
  abbrev pub IsSorted : List (CheckResult F) → Type 0
  IsSorted [] = Unit
  IsSorted (x ∷ []) = Unit
  IsSorted (x ∷ y ∷ ys) = (x.finished_at ≤ y.finished_at) × IsSorted (y ∷ ys)

  place-IsSorted :
      (r : CheckResult F) (xs : List (CheckResult F)) → IsSorted xs → IsSorted (place r xs)
  place-IsSorted r [] h = tt
  place-IsSorted r (x ∷ []) h = ground arith
  place-IsSorted r (x ∷ y ∷ ys) h = ground (arith, place-IsSorted r (y ∷ ys) h.1)

  sort_by_end-IsSorted : (xs : List (CheckResult F)) → IsSorted (sort_by_end xs)
  sort_by_end-IsSorted [] = tt
  sort_by_end-IsSorted (x ∷ xs) = place-IsSorted x (sort_by_end xs) (sort_by_end-IsSorted xs)

  abbrev pub ended_at : Time → CheckResult F → Bool
  ended_at t r = r.finished_at == t

  select-place :
      (t : Time) (r : CheckResult F) (xs : List (CheckResult F))
      → select (ended_at t) (place r xs) ≡ select (ended_at t) (r ∷ xs)
  select-place t r [] = refl
  select-place t r (x ∷ xs) = ground (arith, select-place t r xs)

  select-sort_by_end :
      (t : Time) (xs : List (CheckResult F))
      → select (ended_at t) (sort_by_end xs) ≡ select (ended_at t) xs
  select-sort_by_end t [] = refl
  select-sort_by_end t (x ∷ xs) =
      rw (select-place t x (sort_by_end xs)) (ground (arith, select-sort_by_end t xs))

  -- With a positive number of days, the results after AppendResults are in the order of their ends;
  -- and those with one and the same end are, in the order in which they were appended, the old and
  -- the new ones that ended, or where that is not known started, after the cutoff or have neither
  -- time.
  append_results-retained :
      (now t : Time) (rs : List (CheckResult F)) (days : ℕ) (s : State F)
      → let s' = append_results now rs (pos (suc days)) s in
        IsSorted s'.results
        × (select (ended_at t) s'.results
            ≡ select (ended_at t) (select (is_retained (now - suc days * day)) (s.results ++ rs)))
  unfolding append_results prune_results
  append_results-retained now t rs days s =
      let kept = select (is_retained (now - suc days * day)) (s.results ++ rs) in
      (sort_by_end-IsSorted kept, select-sort_by_end t kept)
