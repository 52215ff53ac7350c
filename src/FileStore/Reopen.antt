-- ===== src/FileStore/Reopen.antt =====
-- Sequences of calls of the FileStore of backend/internal/monitoring/store.go, each with the outcome
-- of its write, and the file that they leave.
use healthops.Prelude.{
  String, Bool, true, false, List, [], ◌∷◌, ◌≡◌, refl, arith, select, is_blank, ℤ, Bool-cases, inl,
  inr,
}
use healthops.Types.{Time, CheckConfig, CheckResult}
use healthops.FileStore.Operations.{
  State, Disk, holds, FileStore, opened, new_file_store, stored, update, replace_checks,
  upsert_check, delete_check, append_results, set_last_run,
}

-- The calls that change a state.
pub data Change (F : Type 0) : Type 0 where
  replacing : List CheckConfig → Change F
  upserting : CheckConfig → Change F
  deleting : String → Change F
  appending : Time → List (CheckResult F) → ℤ → Change F
  setting_run : Time → Change F

-- A change, with the time that Update reads and whether its write succeeds.
pub record Call (F : Type 0) : Type 0 where
  pub change : Change F
  pub now : Time
  pub is_written : Bool

module _ {F : Type 0} where
  unfoldable pub apply : Change F → State F → State F
  unfolding replace_checks upsert_check delete_check append_results set_last_run
  apply (replacing checks) s = replace_checks checks s
  apply (upserting c) s = upsert_check c s
  apply (deleting id) s = delete_check id s
  apply (appending now rs days) s = append_results now rs days s
  apply (setting_run at) s = set_last_run at s

  unfoldable pub run : List (Call F) → FileStore F → FileStore F
  unfolding update apply
  run [] f = f
  run (c ∷ cs) f = run cs (update c.is_written c.now (apply c.change) f).0

  update-holds :
      (ok : Bool) (now : Time) (mutator : State F → State F) (f : FileStore F)
      → f.disk ≡ holds (stored f.state)
      → let g = (update ok now mutator f).0 in g.disk ≡ holds (stored g.state)
  unfolding update
  update-holds true now mutator f h = refl
  update-holds false now mutator f h = h

  run-holds :
      (calls : List (Call F)) (f : FileStore F)
      → f.disk ≡ holds (stored f.state)
      → (run calls f).disk ≡ holds (stored (run calls f).state)
  unfolding run
  run-holds [] f h = h
  run-holds (c ∷ cs) f h =
      run-holds cs (update c.is_written c.now (apply c.change) f).0
        (update-holds c.is_written c.now (apply c.change) f h)

  new_file_store-holds :
      (has_directory ok : Bool) (now : Time) (path : String) (checks : List CheckConfig)
      (disk : Disk F) {f : FileStore F} {disk' : Disk F}
      → new_file_store has_directory ok now path checks disk ≡ (opened f, disk')
      → f.disk ≡ holds (stored f.state)
  unfolding new_file_store
  new_file_store-holds has_directory ok now path checks disk h = ground (arith, h)

  new_file_store-named :
      (has_directory ok : Bool) (now : Time) (path : String) (checks : List CheckConfig)
      (disk : Disk F) {f : FileStore F} {disk' : Disk F}
      → new_file_store has_directory ok now path checks disk ≡ (opened f, disk')
      → is_blank path ≡ false
  unfolding new_file_store
  new_file_store-named has_directory ok now path checks disk h = ground (arith, h)

  -- After NewFileStore and any calls, of which the writes of some fail, NewFileStore on the file
  -- that is left, for whatever checks the configuration has then, has the state that was in memory,
  -- with the new time, but for the encrypted passwords: those of all checks are blank.
  pub run-reopen :
      (has_directory ok : Bool) (now later : Time) (path : String)
      (checks checks' : List CheckConfig) (disk disk' : Disk F) (f : FileStore F)
      (calls : List (Call F))
      → new_file_store has_directory ok now path checks disk ≡ (opened f, disk')
      → let s = record (stored (run calls f).state) { updated_at = later } in
        new_file_store true true later path checks' (run calls f).disk
        ≡ (opened (record { state = s; disk = holds (stored s) }), holds (stored s))
  unfolding new_file_store
  run-reopen has_directory ok now later path checks checks' disk disk' f calls h =
      let on_disk =
        run-holds calls f
          (new_file_store-holds has_directory ok now path checks disk {f = f} {disk' = disk'} h) in
      let named =
        new_file_store-named has_directory ok now path checks disk {f = f} {disk' = disk'} h in
      rw (named, on_disk, new_file_store) refl

  -- Calls whose writes fail change neither the memory nor the file: the others alone leave the
  -- same.
  run-written :
      (calls : List (Call F)) (f : FileStore F)
      → run calls f ≡ run (select (λ c. c.is_written) calls) f
  unfolding run update
  run-written [] f = refl
  run-written (c ∷ cs) f =
      let f' = (update true c.now (apply c.change) f).0 in
      elim (Bool-cases c.is_written) [
        | inl written ↦ rw (written, run) (run-written cs f')
        | inr lost ↦ rw (lost, run) (run-written cs f)
      ]
