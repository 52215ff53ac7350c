-- ===== src/AiQueue/Traces.antt =====
-- Sequences of the operations of backend/internal/monitoring/ai/queue.go on one queue: an incident
-- has at most one active item, and the files hold what memory holds.
use healthops.Prelude.{
  ◌≤◌, String, Bool, true, false, not, List, [], ◌∷◌, ◌≡◌, refl, ℤ, arith, count, all, count-append,
  count-none, count-select_le, ◌&&◌, positive_or, str_eq_iff,
}
use healthops.Types.{Time, before}
use healthops.AiQueue.Items.{
  QueueItem, AnalysisResult, is_active_for, finish, is_active, completed_item, failed_item,
}
use healthops.AiQueue.Operations.{
  Queue, new_item, new_queue, enqueue, claim_pending, complete, fail, prune_before,
}
use healthops.AiQueue.Claims.{count-claim, claim-is_nil}

-- A call, with its clock reading, its arguments and, for each write, whether it succeeds.
pub data Call : Type 0 where
  call_enqueue : Bool → Time → String → String → Call
  call_claim : Bool → Time → ℤ → Call
  call_complete : Bool → Bool → Time → String → AnalysisResult → Call
  call_fail : Bool → String → String → Call
  call_prune : Bool → Bool → Time → Call

unfoldable pub perform : Call → Queue → Queue
perform (call_enqueue ok now id version) q = (enqueue ok now id version q).0
perform (call_claim ok now limit) q = (claim_pending ok now limit q).0
perform (call_complete a b now id result) q = (complete a b now id result q).0
perform (call_fail ok id reason) q = (fail ok id reason q).0
perform (call_prune a b cutoff) q = (prune_before a b cutoff q).0

unfoldable pub run : List Call → Queue → Queue
run [] q = q
run (call ∷ calls) q = run calls (perform call q)

-- Whether every write of a call succeeds.
abbrev pub is_written : Call → Bool
is_written (call_enqueue ok now id version) = ok
is_written (call_claim ok now limit) = ok
is_written (call_complete a b now id result) = a && b
is_written (call_fail ok id reason) = ok
is_written (call_prune a b cutoff) = a && b

count-finish_le :
    (f : QueueItem → QueueItem)
    → ((item : QueueItem) → is_active (f item).status ≡ false)
    → (id other : String) (items : List QueueItem)
    → count (is_active_for id) (finish f other items) ≤ count (is_active_for id) items
unfolding finish
count-finish_le f k id other [] = omega arith
count-finish_le f k id other (item ∷ items) =
    ground (arith, k item, count-finish_le f k id other items)

-- An incident has at most one item that is pending or processing.
abbrev pub HasOneActive : Queue → Type 0
HasOneActive q = (id : String) → count (is_active_for id) q.queue ≤ 1

enqueue-HasOneActive :
    (ok : Bool) (now : Time) (id version : String) (q : Queue)
    → HasOneActive q
    → HasOneActive (enqueue ok now id version q).0
unfolding enqueue
enqueue-HasOneActive ok now id version q h other = ground (
  arith,
  h other,
  count-append (is_active_for other) q.queue (new_item id version now ∷ []),
  count-none (is_active_for id) q.queue,
  str_eq_iff id other,
)

claim_pending-HasOneActive :
    (ok : Bool) (now : Time) (limit : ℤ) (q : Queue)
    → HasOneActive q
    → HasOneActive (claim_pending ok now limit q).0
unfolding claim_pending
claim_pending-HasOneActive ok now limit q h id =
    ground (arith, h id, count-claim id now (positive_or 10 limit) q.queue)

perform-HasOneActive : (call : Call) (q : Queue) → HasOneActive q → HasOneActive (perform call q)
unfolding perform complete fail prune_before
perform-HasOneActive (call_enqueue ok now id version) q h other =
    enqueue-HasOneActive ok now id version q h other
perform-HasOneActive (call_claim ok now limit) q h other =
    claim_pending-HasOneActive ok now limit q h other
perform-HasOneActive (call_complete a b now id result) q h other =
    ground (arith, h other, count-finish_le (completed_item now) (λ item. refl) other id q.queue)
perform-HasOneActive (call_fail ok id reason) q h other =
    ground (arith, h other, count-finish_le (failed_item reason) (λ item. refl) other id q.queue)
perform-HasOneActive (call_prune a b cutoff) q h other = ground (
  arith,
  h other,
  count-select_le (is_active_for other) (λ item. not (before item.created_at cutoff)) q.queue,
)

-- Whatever the operations and whether or not their writes succeed, an incident has at most one
-- pending or processing item if that held before them.
pub run-HasOneActive : (calls : List Call) (q : Queue) → HasOneActive q → HasOneActive (run calls q)
unfolding run
run-HasOneActive [] q h = h
run-HasOneActive (call ∷ calls) q h =
    run-HasOneActive calls (perform call q) (perform-HasOneActive call q h)

perform-reload :
    (call : Call) (q : Queue)
    → is_written call ≡ true
    → new_queue q.queue_file q.results_file ≡ q
    → new_queue (perform call q).queue_file (perform call q).results_file ≡ perform call q
unfolding perform new_queue enqueue claim_pending complete fail prune_before
perform-reload (call_enqueue false now id version) q w h = cc
perform-reload (call_enqueue true now id version) q w h = ground arith
perform-reload (call_claim false now limit) q w h = cc
perform-reload (call_claim true now limit) q w h =
    ground (arith, claim-is_nil now (positive_or 10 limit) q.queue)
perform-reload (call_complete true true now id result) q w h = ground arith
perform-reload (call_complete true false now id result) q w h = cc
perform-reload (call_complete false b now id result) q w h = cc
perform-reload (call_fail true id reason) q w h = ground arith
perform-reload (call_fail false id reason) q w h = cc
perform-reload (call_prune a b cutoff) q w h = ground arith

-- Where every write of a sequence of operations succeeds, the queue that is loaded from the files
-- after them is the queue in memory, if that held before them.
run-reload :
    (calls : List Call) (q : Queue)
    → all is_written calls ≡ true
    → new_queue q.queue_file q.results_file ≡ q
    → new_queue (run calls q).queue_file (run calls q).results_file ≡ run calls q
unfolding run
run-reload [] q w h = h
run-reload (call ∷ calls) q w h =
    let e : is_written call ≡ true = ground arith in
    let f : all is_written calls ≡ true = ground arith in
    run-reload calls (perform call q) f (perform-reload call q e h)
