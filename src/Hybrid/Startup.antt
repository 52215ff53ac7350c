-- ===== src/Hybrid/Startup.antt =====
-- The start of the HybridStore of backend/internal/monitoring/hybrid_store.go.
use healthops.Prelude.{Bool, true, false, String, some, List, ◌≡◌, refl, arith}
use healthops.Types.{Time, is_zero, CheckConfig}
use healthops.FileStore.Operations.{
  State, Disk, missing, unreadable, garbled, holds, FileStore, opened, new_file_store,
}
use healthops.Hybrid.Operations.{
  Mirror, HybridStore, connected, started, is_empty_state, sync_to_mongo, new_hybrid_store,
}

module _ {F : Type 0} where
  -- The store of the file has the time of its start in its state.
  opened-updated_at :
      (has_directory ok : Bool) (now : Time) (path : String) (checks : List CheckConfig)
      (disk : Disk F) {f : FileStore F}
      → (new_file_store has_directory ok now path checks disk).0 ≡ opened f
      → f.state.updated_at ≡ now
  unfolding new_file_store
  opened-updated_at has_directory true now path checks missing h = ground (arith, h)
  opened-updated_at has_directory true now path checks unreadable h = ground (arith, h)
  opened-updated_at has_directory true now path checks garbled h = ground (arith, h)
  opened-updated_at has_directory true now path checks (holds s) h = ground (arith, h)
  opened-updated_at has_directory false now path checks missing h = ground (arith, h)
  opened-updated_at has_directory false now path checks unreadable h = ground (arith, h)
  opened-updated_at has_directory false now path checks garbled h = ground (arith, h)
  opened-updated_at has_directory false now path checks (holds s) h = ground (arith, h)

  opened-not_empty :
      (has_directory ok : Bool) (now : Time) (path : String) (checks : List CheckConfig)
      (disk : Disk F) {f : FileStore F}
      → (new_file_store has_directory ok now path checks disk).0 ≡ opened f
      → is_zero now ≡ false
      → is_empty_state f.state ≡ false
  unfolding is_empty_state
  opened-not_empty has_directory ok now path checks disk {f} h late =
      ground (arith, late, opened-updated_at has_directory ok now path checks disk {f = f} h)

  module _ (db : Mirror F) where
    open db use {D, sync_state, read_state}

    -- NewHybridStore never takes the database's state over: with any state in a database that can be
    -- read, its state is that of the file store, also where that was just made without a file, and
    -- the goroutine that it starts writes that state to the database.
    pub new_hybrid_store-not_seeded :
        (has_directory ok seeded : Bool) (now later : Time) (path : String)
        (checks : List CheckConfig) (disk : Disk F) (d : D) (t : State F) (f : FileStore F)
        → (new_file_store has_directory ok now path checks disk).0 ≡ opened f
        → is_zero now ≡ false
        → read_state d ≡ some t
        → let h : HybridStore F D = record { local = f; mirror = some d; mongo_down = false } in
          (new_hybrid_store db has_directory ok seeded now later path checks disk (connected d)
            ≡ started h true)
          × ((sync_to_mongo db h).0.mirror ≡ some (sync_state f.state d).0)
    unfolding new_hybrid_store sync_to_mongo
    new_hybrid_store-not_seeded has_directory ok seeded now later path checks disk d t f h late
          found =
        let full = opened-not_empty has_directory ok now path checks disk {f = f} h late in
        (ground (arith, h, found, full), refl)
