-- ===== src/RateLimit/Limiter.antt =====
-- rateLimiter of backend/internal/httpx/ratelimit.go. `now.Sub(t) >= w` is written `t + w <= now`.
use text.Mathlib.Text.{starts_with}
use healthops.Prelude.{
  ℕ, ◌+◌, ◌*◌, String, Bool, true, false, not, ◌&&◌, ◌||◌, none, some, if◌then◌else◌, ltb, leb,
  str_eq, ℤ, pos_part, neg_part, sub_ℕ, is_positive, ends_with, [],
}
use healthops.Prelude.Maps.{Map, lookup, insert, delete_values}
use healthops.Types.{Time}

pub record Visitor : Type 0 where
  pub tokens : ℤ
  pub last_reset : Time

pub record Limiter : Type 0 where
  pub visitors : Map Visitor
  pub rate : ℤ
  pub window : ℕ

-- newRateLimiter
unfoldable pub new_rate_limiter : ℤ → ℕ → Limiter
new_rate_limiter rate window = record { visitors = []; rate = rate; window = window }

-- z - 1
abbrev pub pred : ℤ → ℤ
pred z = sub_ℕ (pos_part z) (neg_part z + 1)

unfoldable pub allow : Time → String → Limiter → Limiter × Bool
unfolding lookup
allow now ip rl = elim (lookup ip rl.visitors) [
  | none ↦ (
    record rl {
      visitors = insert ip (record { tokens = pred rl.rate; last_reset = now }) rl.visitors;
    },
    true,
  )
  | some v ↦
      if leb (v.last_reset + rl.window) now
      then (
        record rl {
          visitors = insert ip (record { tokens = pred rl.rate; last_reset = now }) rl.visitors;
        },
        true,
      )
      else if is_positive v.tokens
      then (
        record rl { visitors = insert ip (record v { tokens = pred v.tokens }) rl.visitors },
        true,
      )
      else (rl, false)
]

-- One tick of cleanup.
unfoldable pub sweep : Time → Limiter → Limiter
sweep now rl = record rl {
  visitors = delete_values (λ v. ltb (v.last_reset + 2 * rl.window) now) rl.visitors;
}

unfoldable pub is_rate_limit_exempt : String → Bool
is_rate_limit_exempt path =
    if str_eq path "/healthz"
      || str_eq path "/readyz"
      || str_eq path "/"
      || str_eq path "/favicon.ico"
    then true
    else if starts_with path "/assets/"
    then true
    else if str_eq path "/api/v1/events" || str_eq path "/api/v1/mysql/live"
    then true
    else if starts_with path "/api/v1/servers/" && ends_with path "/live"
    then true
    else not (starts_with path "/api/")

-- What a handler does with a request: pass it on, or answer 429.
pub data Verdict : Type 0 where
  passed_on too_many_requests : Verdict

unfoldable pub rate_limit : Time → String → String → Limiter → Limiter × Verdict
rate_limit now path ip rl =
    if is_rate_limit_exempt path
    then (rl, passed_on)
    else let r = allow now ip rl in (r.0, if not r.1 then too_many_requests else passed_on)

unfoldable pub login_rate_limit : Time → String → String → String → Limiter → Limiter × Verdict
login_rate_limit now path method ip rl =
    if not (str_eq path "/api/v1/auth/login") || not (str_eq method "POST")
    then (rl, passed_on)
    else let r = allow now ip rl in (r.0, if not r.1 then too_many_requests else passed_on)
