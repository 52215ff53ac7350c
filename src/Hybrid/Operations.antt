-- ===== src/Hybrid/Operations.antt =====
-- HybridStore of backend/internal/monitoring/hybrid_store.go. The interface Mirror, which Mongo fills,
-- is a parameter with a state of its own; `none` is an error to read it. The log is left
-- out, and DashboardSnapshot, which reads as Snapshot does and adds a summary.
use healthops.Prelude.{
  String, Bool, true, false, not, ◌&&◌, Option, none, some, List, is_nil, if◌then◌else◌,
}
use healthops.Types.{Time, is_zero, CheckConfig}
use healthops.FileStore.Operations.{
  State, Disk, FileStore, Failure, Opening, opened, refused, new_file_store, update,
}
use healthops.FileStore.Reopen.{Call, apply}

pub record Mirror (F : Type 0) : Type 1 where
  pub D : Type 0
  pub sync_state : State F → D → D × Bool
  pub read_state : D → Option (State F)

pub record HybridStore (F : Type 0) (D : Type 0) : Type 0 where
  pub local : FileStore F
  pub mirror : Option D
  pub mongo_down : Bool

-- What is configured: no URI, one that cannot be reached, or a mirror.
pub data Configured (D : Type 0) : Type 0 where
  no_uri unavailable : Configured D
  connected : D → Configured D

pub data Start (F : Type 0) (D : Type 0) : Type 0 where
  failed : Failure → Start F D
  started : HybridStore F D → Bool → Start F D

module _ {F : Type 0} where
  unfoldable pub is_empty_state : State F → Bool
  is_empty_state s =
      is_nil s.checks && is_nil s.results && is_zero s.last_run_at && is_zero s.updated_at

  module _ (db : Mirror F) where
    open db use {D, sync_state, read_state}

    abbrev pub or_local : State F → Option (State F) → State F
    or_local s none = s
    or_local s (some t) = if is_empty_state t then s else t

    abbrev pub read_of : State F → Option D → Bool → State F
    read_of s none down = s
    read_of s (some d) true = s
    read_of s (some d) false = or_local s (read_state d)

    unfoldable pub snapshot : HybridStore F D → State F
    snapshot h = read_of h.local.state h.mirror h.mongo_down

    -- syncToMongo, with whether it returned nil.
    abbrev pub synced : HybridStore F D → Option D → HybridStore F D × Bool
    synced h none = (h, true)
    synced h (some d) =
        let (d', ok) = sync_state h.local.state d in
        (record h { mirror = some d'; mongo_down = not ok }, ok)

    unfoldable pub sync_to_mongo : HybridStore F D → HybridStore F D × Bool
    sync_to_mongo h = synced h h.mirror

    -- Update and the operations that end in it, with whether it returned nil.
    abbrev pub finish : FileStore F × Bool → HybridStore F D → HybridStore F D × Bool
    finish (f, true) h = ((sync_to_mongo (record h { local = f })).0, true)
    finish (f, false) h = (h, false)

    unfoldable pub call : Call F → HybridStore F D → HybridStore F D × Bool
    call c h = finish (update c.is_written c.now (apply c.change) h.local) h

    -- What NewHybridStore does with the answer of the first read: it takes the mirror's state over,
    -- or starts a goroutine that synchronises, or neither.
    abbrev first_read : Bool → Time → FileStore F → D → Option (State F) → Start F D
    first_read ok now f d none =
        started (record { local = f; mirror = some d; mongo_down = false }) false
    first_read ok now f d (some t) =
        if not (is_empty_state t) && is_empty_state f.state
        then started
            (record { local = (update ok now (λ s. t) f).0; mirror = some d; mongo_down = false })
            false
        else started (record { local = f; mirror = some d; mongo_down = false }) true

    abbrev with_mirror : Bool → Time → Configured D → FileStore F → Start F D
    with_mirror ok now no_uri f =
        started (record { local = f; mirror = none; mongo_down = false }) false
    with_mirror ok now unavailable f =
        started (record { local = f; mirror = none; mongo_down = true }) false
    with_mirror ok now (connected d) f = first_read ok now f d (read_state d)

    abbrev from_opening : Bool → Time → Configured D → Opening F → Start F D
    from_opening ok now c (refused e) = failed e
    from_opening ok now c (opened f) = with_mirror ok now c f

    -- NewHybridStore, with whether its goroutine was started. `seeded` says whether the write of the
    -- mirror's state to the file succeeds.
    unfoldable pub new_hybrid_store :
        Bool
        → Bool
        → Bool
        → Time
        → Time
        → String
        → List CheckConfig
        → Disk F
        → Configured D
        → Start F D
    new_hybrid_store has_directory ok seeded now later path checks disk c =
        from_opening seeded later c (new_file_store has_directory ok now path checks disk).0
