-- ===== src/FileStore/Checks.antt =====
-- The checks of the FileStore of backend/internal/monitoring/store.go, in a list, as a map from their
-- identifiers.
use healthops.Prelude.{
  String, Bool, true, false, not, List, [], ◌∷◌, ◌≡◌, refl, arith, select, str_eq, str_eq_iff,
  if◌then◌else◌, All,
}
use healthops.Prelude.Maps.{Map, insert, delete, IsDistinct, insert-IsDistinct, lookup-delete}
use healthops.Types.{Time, CheckConfig}
use healthops.FileStore.Operations.{State, FileStore, put_check, update}
use healthops.FileStore.Reopen.{
  Change, replacing, upserting, deleting, appending, setting_run, Call, apply, run,
}

abbrev pub by_id : List CheckConfig → Map CheckConfig
by_id [] = []
by_id (c ∷ cs) = (c.id, c) ∷ by_id cs

pub by_id-put_check :
    (c : CheckConfig) (cs : List CheckConfig) → by_id (put_check c cs) ≡ insert c.id c (by_id cs)
unfolding insert
by_id-put_check c [] = refl
by_id-put_check c (d ∷ ds) = ground (arith, by_id-put_check c ds, str_eq_iff d.id c.id)

by_id-select :
    (id : String) (cs : List CheckConfig)
    → by_id (select (λ c. not (str_eq c.id id)) cs) ≡ delete id (by_id cs)
unfolding delete
by_id-select id [] = refl
by_id-select id (c ∷ cs) = ground (arith, by_id-select id cs)

delete-IsDistinct : (k : String) (m : Map CheckConfig) → IsDistinct m → IsDistinct (delete k m)
unfolding delete IsDistinct
delete-IsDistinct k [] h = h
delete-IsDistinct k ((j, c) ∷ m) h =
    ground (arith, delete-IsDistinct k m h.1, lookup-delete k j m, h.0)

module _ {F : Type 0} where
  -- What a change does to a map of the checks.
  unfoldable pub change_map : Change F → Map CheckConfig → Map CheckConfig
  change_map (replacing checks) m = by_id checks
  change_map (upserting c) m = insert c.id c m
  change_map (deleting id) m = delete id m
  change_map (appending now rs days) m = m
  change_map (setting_run at) m = m

  unfoldable pub change_maps : List (Call F) → Map CheckConfig → Map CheckConfig
  unfolding change_map
  change_maps [] m = m
  change_maps (c ∷ cs) m = change_maps cs (change_map c.change m)

  by_id-apply :
      (change : Change F) (s : State F)
      → by_id (apply change s).checks ≡ change_map change (by_id s.checks)
  unfolding change_map apply
  by_id-apply (replacing checks) s = refl
  by_id-apply (upserting c) s = by_id-put_check c s.checks
  by_id-apply (deleting id) s = by_id-select id s.checks
  by_id-apply (appending now rs days) s = refl
  by_id-apply (setting_run at) s = refl

  by_id-update :
      (ok : Bool) (now : Time) (change : Change F) (f : FileStore F)
      → by_id (update ok now (apply change) f).0.state.checks
        ≡ (if ok then change_map change (by_id f.state.checks) else by_id f.state.checks)
  unfolding update
  by_id-update true now change f = by_id-apply change f.state
  by_id-update false now change f = refl

  -- Over any calls, the checks of the store, as a map from their identifiers, are what a map becomes
  -- by inserting, deleting or replacing checks in the calls whose write succeeds.
  pub run-by_id :
      (calls : List (Call F)) (f : FileStore F)
      → by_id (run calls f).state.checks
        ≡ change_maps (select (λ c. c.is_written) calls) (by_id f.state.checks)
  unfolding run change_maps
  run-by_id [] f = refl
  run-by_id (c ∷ cs) f =
      let f' = (update c.is_written c.now (apply c.change) f).0 in
      ground (arith, run-by_id cs f', by_id-update c.is_written c.now c.change f)

  -- A replacement has checks of distinct identifiers.
  abbrev pub IsProper : Change F → Type 0
  IsProper (replacing checks) = IsDistinct (by_id checks)
  IsProper (upserting c) = Unit
  IsProper (deleting id) = Unit
  IsProper (appending now rs days) = Unit
  IsProper (setting_run at) = Unit

  change_map-IsDistinct :
      (change : Change F) (m : Map CheckConfig)
      → IsProper change
      → IsDistinct m
      → IsDistinct (change_map change m)
  unfolding change_map
  change_map-IsDistinct (replacing checks) m p h = p
  change_map-IsDistinct (upserting c) m p h = insert-IsDistinct c.id c m h
  change_map-IsDistinct (deleting id) m p h = delete-IsDistinct id m h
  change_map-IsDistinct (appending now rs days) m p h = h
  change_map-IsDistinct (setting_run at) m p h = h

  update-IsDistinct :
      (ok : Bool) (now : Time) (change : Change F) (f : FileStore F)
      → IsProper change
      → IsDistinct (by_id f.state.checks)
      → IsDistinct (by_id (update ok now (apply change) f).0.state.checks)
  unfolding update
  update-IsDistinct true now change f p h =
      rw (by_id-apply change f.state) (change_map-IsDistinct change (by_id f.state.checks) p h)
  update-IsDistinct false now change f p h = h

  -- The checks of a store keep distinct identifiers over any calls, of which some writes fail, where
  -- each replacement of all checks has distinct ones.
  run-IsDistinct :
      (calls : List (Call F)) (f : FileStore F)
      → All (λ c. IsProper c.change) calls
      → IsDistinct (by_id f.state.checks)
      → IsDistinct (by_id (run calls f).state.checks)
  unfolding run
  run-IsDistinct [] f p h = h
  run-IsDistinct (c ∷ cs) f p h =
      run-IsDistinct cs (update c.is_written c.now (apply c.change) f).0 p.1
        (update-IsDistinct c.is_written c.now c.change f p.0 h)
