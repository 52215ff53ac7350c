-- ===== src/AiQueue/Items.antt =====
-- AIQueueItem and AIAnalysisResult of backend/internal/monitoring/types.go, and the loops of
-- backend/internal/monitoring/ai/queue.go over them.
use healthops.Prelude.{
  ℕ, zero, suc, String, Bool, true, false, ◌&&◌, Option, some, List, [], ◌∷◌, if◌then◌else◌, str_eq,
}
use healthops.Types.{Time}

pub data ItemStatus : Type 0 where
  pending processing completed failed : ItemStatus
  other_status : String → ItemStatus

abbrev pub is_pending : ItemStatus → Bool
is_pending pending = true
is_pending processing = false
is_pending completed = false
is_pending failed = false
is_pending (other_status s) = false

-- item.Status == "pending" || item.Status == "processing"
abbrev pub is_active : ItemStatus → Bool
is_active pending = true
is_active processing = true
is_active completed = false
is_active failed = false
is_active (other_status s) = false

pub record QueueItem : Type 0 where
  pub incident_id : String
  pub prompt_version : String
  pub status : ItemStatus
  pub created_at : Time
  pub claimed_at : Option Time
  pub completed_at : Option Time
  pub last_error : String

pub record AnalysisResult : Type 0 where
  pub incident_id : String
  pub summary : String
  pub analysis : String
  pub suggestions : List String
  pub severity : String
  pub confidence : String
  pub created_at : Time

-- The test of Enqueue, Complete and Fail.
abbrev pub is_active_for : String → QueueItem → Bool
is_active_for id item = str_eq item.incident_id id && is_active item.status

abbrev pub claimed : Time → QueueItem → QueueItem
claimed now item = record item { status = processing; claimed_at = some now }

abbrev pub completed_item : Time → QueueItem → QueueItem
completed_item now item = record item { status = completed; completed_at = some now }

abbrev pub failed_item : String → QueueItem → QueueItem
failed_item reason item = record item { status = failed; last_error = reason }

-- ClaimPending's loop, where `n` more items may be claimed: the queue after it and what it claimed.
unfoldable pub claim : Time → ℕ → List QueueItem → List QueueItem × List QueueItem
claim now zero items = (items, [])
claim now (suc n) [] = ([], [])
claim now (suc n) (item ∷ items) = elim (is_pending item.status) [
  | true ↦ let rest = claim now n items in (claimed now item ∷ rest.0, claimed now item ∷ rest.1)
  | false ↦ let rest = claim now (suc n) items in (item ∷ rest.0, rest.1)
]

-- The loop of Complete and Fail: the first active item of the incident is written and the loop
-- breaks.
unfoldable pub finish : (QueueItem → QueueItem) → String → List QueueItem → List QueueItem
finish f id [] = []
finish f id (item ∷ items) =
    if is_active_for id item then f item ∷ items else item ∷ finish f id items
