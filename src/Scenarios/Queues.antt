-- ===== src/Scenarios/Queues.antt =====
-- The analysis queue and the rate limiter: ai/queue.go and httpx/ratelimit.go.
use healthops.Prelude.{◌+◌, ◌≤◌, true, List, [], ◌∷◌, refl, arith, pos, count}
use healthops.Prelude.Maps.{lookup, insert, IsDistinct}
use healthops.AiQueue.Items.{is_active_for}
use healthops.AiQueue.Operations.{new_queue}
use healthops.AiQueue.Traces.{
  Call, call_enqueue, call_claim, call_fail, run, HasOneActive, run-HasOneActive,
}
use healthops.RateLimit.Limiter.{Limiter, new_rate_limiter, allow}
use healthops.RateLimit.Quota.{request, allowed, allowed-le}

abbrev calls : List Call
calls =
    call_enqueue true 5 "a" "v1"
    ∷ call_enqueue true 6 "a" "v2"
    ∷ call_claim true 7 (pos 0)
    ∷ call_fail true "a" "no provider"
    ∷ []

empty-HasOneActive : HasOneActive (new_queue [] [])
unfolding new_queue
empty-HasOneActive id = omega arith

run-HasOneActive_example : count (is_active_for "a") (run calls (new_queue [] [])).queue ≤ 1
run-HasOneActive_example = run-HasOneActive calls (new_queue [] []) empty-HasOneActive "a"

abbrev limiter : Limiter
limiter = new_rate_limiter (pos 2) 60

abbrev used : Limiter
used = (allow 10 "ip" limiter).0

allowed-le_example : allowed "ip" (request 69 "ip" ∷ request 71 "ip" ∷ []) used ≤ 1 + 2
unfolding new_rate_limiter IsDistinct lookup insert allow
allowed-le_example =
    allowed-le "ip" 60 60 1 (request 69 "ip" ∷ request 71 "ip" ∷ []) used
      (record { tokens = pos 1; last_reset = 10 }) (refl, tt) refl refl refl refl
