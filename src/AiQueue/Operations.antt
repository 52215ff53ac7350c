-- ===== src/AiQueue/Operations.antt =====
-- FileAIQueue of backend/internal/monitoring/ai/queue.go: the queue and the results in memory, and
-- their files. Each operation takes the time it reads and, for each write, whether it succeeds.
use healthops.Prelude.{
  String, Bool, true, false, not, none, List, [], ◌∷◌, ◌++◌, if◌then◌else◌, str_eq, ℤ, positive_or,
  any, select, take, is_nil,
}
use mathlib.Core.List.{reverse}
use healthops.Types.{Time, before, is_zero}
use healthops.Storage.{append, rewrite}
use healthops.AiQueue.Items.{
  pending, is_pending, QueueItem, AnalysisResult, is_active_for, claim, finish, completed_item,
  failed_item,
}

pub record Queue : Type 0 where
  pub queue : List QueueItem
  pub results : List AnalysisResult
  pub queue_file : List QueueItem
  pub results_file : List AnalysisResult

-- Why an operation did not return nil: the incident has no active item, or a write failed.
pub data Outcome : Type 0 where
  done no_item write_failed : Outcome

abbrev outcome : Bool → Outcome
outcome true = done
outcome false = write_failed

-- NewFileAIQueue, on files that can be read.
unfoldable pub new_queue : List QueueItem → List AnalysisResult → Queue
new_queue queue_file results_file = record {
  queue = queue_file;
  results = results_file;
  queue_file = queue_file;
  results_file = results_file;
}

abbrev pub new_item : String → String → Time → QueueItem
new_item id version now = record {
  incident_id = id;
  prompt_version = version;
  status = pending;
  created_at = now;
  claimed_at = none;
  completed_at = none;
  last_error = "";
}

unfoldable pub enqueue : Bool → Time → String → String → Queue → Queue × Outcome
enqueue ok now id version q =
    if any (is_active_for id) q.queue
    then (q, done)
    else let item = new_item id version now in
      let written = append ok item q.queue_file in
      (record q { queue = q.queue ++ item ∷ []; queue_file = written.0 }, outcome written.1)

-- ClaimPending, with what it returns: no items where the queue could not be written.
unfoldable pub claim_pending : Bool → Time → ℤ → Queue → Queue × (List QueueItem × Outcome)
claim_pending ok now limit q =
    let taken = claim now (positive_or 10 limit) q.queue in
    let written = rewrite ok taken.0 q.queue_file in
    if is_nil taken.1
    then (record q { queue = taken.0 }, ([], done))
    else if written.1
    then (record q { queue = taken.0; queue_file = written.0 }, (taken.1, done))
    else (record q { queue = taken.0; queue_file = written.0 }, ([], write_failed))

abbrev stamped : String → Time → AnalysisResult → AnalysisResult
stamped id now result = record result {
  incident_id = id;
  created_at = if is_zero result.created_at then now else result.created_at;
}

-- Complete. The results' file is written only where the queue's could be.
unfoldable pub complete : Bool → Bool → Time → String → AnalysisResult → Queue → Queue × Outcome
complete ok_queue ok_results now id result q =
    if not (any (is_active_for id) q.queue)
    then (q, no_item)
    else let queue = finish (completed_item now) id q.queue in
      let results = q.results ++ stamped id now result ∷ [] in
      let written = rewrite ok_queue queue q.queue_file in
      let appended = append ok_results (stamped id now result) q.results_file in
      if written.1
      then (
        record {
          queue = queue;
          results = results;
          queue_file = written.0;
          results_file = appended.0;
        },
        outcome appended.1,
      )
      else (record q { queue = queue; results = results; queue_file = written.0 }, write_failed)

unfoldable pub fail : Bool → String → String → Queue → Queue × Outcome
fail ok id reason q =
    if not (any (is_active_for id) q.queue)
    then (q, no_item)
    else let queue = finish (failed_item reason) id q.queue in
      let written = rewrite ok queue q.queue_file in
      (record q { queue = queue; queue_file = written.0 }, outcome written.1)

unfoldable pub prune_before : Bool → Bool → Time → Queue → Queue × Outcome
prune_before ok_queue ok_results cutoff q =
    let queue = select (λ item. not (before item.created_at cutoff)) q.queue in
    let results = select (λ r. not (before r.created_at cutoff)) q.results in
    let written = rewrite ok_queue queue q.queue_file in
    let rewritten = rewrite ok_results results q.results_file in
    if written.1
    then (
      record {
        queue = queue;
        results = results;
        queue_file = written.0;
        results_file = rewritten.0;
      },
      outcome rewritten.1,
    )
    else (record q { queue = queue; results = results; queue_file = written.0 }, write_failed)

unfoldable pub get_results : String → Queue → List AnalysisResult
get_results id q = select (λ r. str_eq r.incident_id id) q.results

-- AllResults, the newest first.
unfoldable pub all_results : ℤ → Queue → List AnalysisResult
all_results limit q = take (positive_or 100 limit) (reverse q.results)

unfoldable pub list_pending_items : ℤ → Queue → List QueueItem
list_pending_items limit q =
    take (positive_or 100 limit) (select (λ item. is_pending item.status) q.queue)
