-- ===== src/Service/Trackers.antt =====
-- The counts of consecutive failures and successes of service.go.
use healthops.Prelude.{
  suc, String, Bool, true, false, List, [], ◌∷◌, ◌≡◌, refl, ◌∙◌, arith, str_eq, str_eq_iff,
  if◌then◌else◌,
}
use healthops.Prelude.Maps.{Map, insert, lookup-insert}
use healthops.Types.{CheckResult}
use healthops.Service.Handler.{ConsecutiveCount, track, tracked, update_consecutive_trackers}

-- The counts after some runs: of the failures, or of the successes, since the last run that was
-- not one.
abbrev pub follow : ConsecutiveCount → List Bool → ConsecutiveCount
follow c [] = c
follow c (true ∷ bs) = follow (record { failures = 0; successes = suc c.successes }) bs
follow c (false ∷ bs) = follow (record { failures = suc c.failures; successes = 0 }) bs

module _ {F : Type 0} where
  -- The healths of a check's results, oldest first.
  abbrev pub healths : String → List (CheckResult F) → List Bool
  healths check_id [] = []
  healths check_id (r ∷ rs) =
      if str_eq r.check_id check_id then r.healthy ∷ healths check_id rs else healths check_id rs

  tracked-insert :
      (check_id : String) (r : CheckResult F) (t : Map ConsecutiveCount)
      → tracked check_id (insert r.check_id (track r.healthy (tracked r.check_id t)) t) ≡ (
          if str_eq r.check_id check_id
          then track r.healthy (tracked check_id t)
          else tracked check_id t)
  unfolding tracked
  tracked-insert check_id r t = ground (
    arith,
    lookup-insert r.check_id check_id (track r.healthy (tracked r.check_id t)) t,
    str_eq_iff r.check_id check_id,
  )

  -- Each check's counts follow the healths of its own results alone, in their order, whatever
  -- results of other checks stand between them.
  pub tracked-update :
      (check_id : String) (rs : List (CheckResult F)) (t : Map ConsecutiveCount)
      → tracked check_id (update_consecutive_trackers rs t)
        ≡ follow (tracked check_id t) (healths check_id rs)
  unfolding update_consecutive_trackers
  tracked-update check_id [] t = refl
  tracked-update check_id (r ∷ rs) t =
      let next = insert r.check_id (track r.healthy (tracked r.check_id t)) t in
      tracked-update check_id rs next ∙ ground (arith, tracked-insert check_id r t)
