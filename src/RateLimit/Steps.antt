-- ===== src/RateLimit/Steps.antt =====
-- One call of the limiter of backend/internal/httpx/ratelimit.go, or one tick of its cleanup: what it
-- makes of one client's entry.
use healthops.Prelude.{
  ◌+◌, ◌*◌, String, true, false, none, some, ◌≡◌, refl, arith, if◌then◌else◌, ltb, leb, str_eq,
  str_eq_refl, is_positive, Option-cases, Bool-cases, ◌⊎◌, inl, inr,
}
use healthops.Prelude.Maps.{
  lookup, lookup-insert, lookup-delete_values, IsDistinct, insert-IsDistinct,
  delete_values-IsDistinct,
}
use healthops.Types.{Time}
use healthops.RateLimit.Limiter.{Visitor, Limiter, allow, sweep, pred}

abbrev pub IsWith : String → Visitor → Limiter → Type 0
IsWith ip v rl = lookup ip rl.visitors ≡ some v

pub allow-constants :
    (t : Time) (j : String) (rl : Limiter)
    → ((allow t j rl).0.window ≡ rl.window) × ((allow t j rl).0.rate ≡ rl.rate)
unfolding allow
allow-constants t j rl = ground arith

pub allow-IsDistinct :
    (t : Time) (j : String) (rl : Limiter)
    → IsDistinct rl.visitors
    → IsDistinct (allow t j rl).0.visitors
unfolding allow
allow-IsDistinct t j rl d = elim (Option-cases (lookup j rl.visitors)) [
  | inl e ↦
      rw (e, allow)
        (insert-IsDistinct j (record { tokens = pred rl.rate; last_reset = t }) rl.visitors d)
  | inr (v, e) ↦
      rw (e, allow)
        (ground (
          arith,
          insert-IsDistinct j (record { tokens = pred rl.rate; last_reset = t }) rl.visitors d,
          insert-IsDistinct j (record v { tokens = pred v.tokens }) rl.visitors d,
        ))
]

pub allow-other :
    (t : Time) (j ip : String) (rl : Limiter)
    → str_eq j ip ≡ false
    → lookup ip (allow t j rl).0.visitors ≡ lookup ip rl.visitors
unfolding allow
allow-other t j ip rl h = elim (Option-cases (lookup j rl.visitors)) [
  | inl e ↦
      rw (e, allow)
        (ground (
          arith,
          h,
          lookup-insert j ip (record { tokens = pred rl.rate; last_reset = t }) rl.visitors,
        ))
  | inr (v, e) ↦
      rw (e, allow)
        (ground (
          arith,
          h,
          lookup-insert j ip (record { tokens = pred rl.rate; last_reset = t }) rl.visitors,
          lookup-insert j ip (record v { tokens = pred v.tokens }) rl.visitors,
        ))
]

pub allow-new :
    (t : Time) {j : String} (ip : String) (rl : Limiter)
    → lookup ip rl.visitors ≡ none
    → j ≡ ip
    → ((allow t j rl).1 ≡ true)
      × IsWith ip (record { tokens = pred rl.rate; last_reset = t }) (allow t j rl).0
unfolding allow
allow-new t ip rl e p =
    rw p rw (e, allow)
      (ground (
        arith,
        str_eq_refl ip,
        lookup-insert ip ip (record { tokens = pred rl.rate; last_reset = t }) rl.visitors,
      ))

pub allow-live :
    (t : Time) {j : String} (ip : String) (rl : Limiter) (v : Visitor)
    → IsWith ip v rl
    → leb (v.last_reset + rl.window) t ≡ false
    → j ≡ ip
    → ((allow t j rl).1 ≡ is_positive v.tokens)
      × IsWith ip
          (if is_positive v.tokens then record v { tokens = pred v.tokens } else v)
          (allow t j rl).0
unfolding allow
allow-live t ip rl v e h p =
    rw p rw (e, allow)
      (ground (
        arith,
        e,
        h,
        str_eq_refl ip,
        lookup-insert ip ip (record v { tokens = pred v.tokens }) rl.visitors,
      ))

pub allow-expired :
    (t : Time) {j : String} (ip : String) (rl : Limiter) (v : Visitor)
    → IsWith ip v rl
    → leb (v.last_reset + rl.window) t ≡ true
    → j ≡ ip
    → ((allow t j rl).1 ≡ true)
      × IsWith ip (record { tokens = pred rl.rate; last_reset = t }) (allow t j rl).0
unfolding allow
allow-expired t ip rl v e h p =
    rw p rw (e, allow)
      (ground (
        arith,
        h,
        str_eq_refl ip,
        lookup-insert ip ip (record { tokens = pred rl.rate; last_reset = t }) rl.visitors,
      ))

pub sweep-IsDistinct :
    (t : Time) (rl : Limiter) → IsDistinct rl.visitors → IsDistinct (sweep t rl).visitors
unfolding sweep
sweep-IsDistinct t rl d =
    delete_values-IsDistinct (λ v. ltb (v.last_reset + 2 * rl.window) t) rl.visitors d

pub sweep-window : (t : Time) (rl : Limiter) → (sweep t rl).window ≡ rl.window
unfolding sweep
sweep-window t rl = refl

pub sweep-none :
    (t : Time) (ip : String) (rl : Limiter)
    → IsDistinct rl.visitors
    → lookup ip rl.visitors ≡ none
    → lookup ip (sweep t rl).visitors ≡ none
unfolding sweep
sweep-none t ip rl d e =
    ground
      (arith, e, lookup-delete_values (λ v. ltb (v.last_reset + 2 * rl.window) t) ip rl.visitors d)

pub sweep-live :
    (t : Time) (ip : String) (rl : Limiter) (v : Visitor)
    → IsDistinct rl.visitors
    → IsWith ip v rl
    → leb (v.last_reset + rl.window) t ≡ false
    → IsWith ip v (sweep t rl)
unfolding sweep
sweep-live t ip rl v d e h =
    ground (
      arith,
      e,
      h,
      lookup-delete_values (λ v. ltb (v.last_reset + 2 * rl.window) t) ip rl.visitors d,
    )

pub sweep-rate : (t : Time) (rl : Limiter) → (sweep t rl).rate ≡ rl.rate
unfolding sweep
sweep-rate t rl = refl

pub sweep-cases :
    (t : Time) (ip : String) (rl : Limiter) (v : Visitor)
    → IsDistinct rl.visitors
    → IsWith ip v rl
    → (lookup ip (sweep t rl).visitors ≡ none) ⊎ IsWith ip v (sweep t rl)
unfolding sweep
sweep-cases t ip rl v d e =
    let l = lookup-delete_values (λ v. ltb (v.last_reset + 2 * rl.window) t) ip rl.visitors d in
    elim (Bool-cases (ltb (v.last_reset + 2 * rl.window) t)) [
      | inl y ↦ inl (ground (arith, l, e, y))
      | inr n ↦ inr (ground (arith, l, e, n))
    ]
