-- ===== src/RateLimit/Quota.antt =====
-- How many of a client's requests the limiter of backend/internal/httpx/ratelimit.go allows, while
-- other clients send theirs and the cleanup runs.
use healthops.Prelude.{
  ℕ, suc, ◌+◌, ◌≤◌, String, Bool, true, false, ◌&&◌, none, List, [], ◌∷◌, ◌≡◌, arith, if◌then◌else◌,
  ltb, leb, str_eq, str_eq_iff, Bool-cases, is_positive, ◌∙◌, pos, pos_part, is_positive, all, inl,
  inr,
}
use healthops.Prelude.Maps.{lookup, IsDistinct}
use healthops.Types.{Time}
use healthops.RateLimit.Limiter.{Visitor, Limiter, allow, sweep, pred}
use healthops.RateLimit.Steps.{
  IsWith, allow-constants, allow-IsDistinct, allow-other, allow-new, allow-live, allow-expired,
  sweep-IsDistinct, sweep-none, sweep-window, sweep-rate, sweep-cases, sweep-live,
}

pub data Event : Type 0 where
  request : Time → String → Event
  tick : Time → Event

abbrev pub is_in : Time → ℕ → Event → Bool
is_in a w (request t ip) = leb a t && ltb t (a + w)
is_in a w (tick t) = leb a t && ltb t (a + w)

-- The requests of a client, and those of them that are allowed.
unfoldable pub requests : String → List Event → ℕ
requests ip [] = 0
requests ip (request t j ∷ es) = if str_eq j ip then suc (requests ip es) else requests ip es
requests ip (tick t ∷ es) = requests ip es

abbrev step : Event → Limiter → Limiter
step (request t j) rl = (allow t j rl).0
step (tick t) rl = sweep t rl

unfoldable pub allowed : String → List Event → Limiter → ℕ
allowed ip [] rl = 0
allowed ip (request t j ∷ es) rl =
    let rest = allowed ip es (allow t j rl).0 in
    if str_eq j ip && (allow t j rl).1 then suc rest else rest
allowed ip (tick t ∷ es) rl = allowed ip es (sweep t rl)

abbrev pub least : ℕ → ℕ → ℕ
least a b = if leb a b then a else b

-- The entry that a request which is not refused by age leaves.
abbrev spent : Visitor → Visitor
spent v = if is_positive v.tokens then record v { tokens = pred v.tokens } else v

module _ (ip : String) (a : Time) (w : ℕ) where
  -- From a client's entry that is reset within the window that the events lie in, as many of its
  -- requests are allowed as the entry has tokens.
  allowed-live :
      (es : List Event) (rl : Limiter) (v : Visitor)
      → IsDistinct rl.visitors
      → IsWith ip v rl
      → rl.window ≡ w
      → a ≤ v.last_reset
      → all (is_in a w) es ≡ true
      → allowed ip es rl ≡ least (requests ip es) (pos_part v.tokens)
  unfolding requests allowed
  allowed-live [] rl v d e x h all_in = ground arith
  allowed-live (tick t ∷ es) rl v d e x h all_in =
      let fresh : leb (v.last_reset + rl.window) t ≡ false = ground arith in
      let rest : all (is_in a w) es ≡ true = ground arith in
      allowed-live es (sweep t rl) v (sweep-IsDistinct t rl d) (sweep-live t ip rl v d e fresh)
        (sweep-window t rl ∙ x) h rest
  allowed-live (request t j ∷ es) rl v d e x h all_in =
      let fresh : leb (v.last_reset + rl.window) t ≡ false = ground arith in
      let rest : all (is_in a w) es ≡ true = ground arith in
      let d' = allow-IsDistinct t j rl d in
      let x' = (allow-constants t j rl).0 ∙ x in
      elim (Bool-cases (str_eq j ip)) [
        | inr n ↦
            let ih =
              allowed-live es (allow t j rl).0 v d' (allow-other t j ip rl n ∙ e) x' h rest in
            ground (arith, n, ih)
        | inl y ↦
            let step = allow-live t ip rl v e fresh ((str_eq_iff j ip).0 y) in
            let h' : a ≤ (spent v).last_reset = ground arith in
            let ih = allowed-live es (allow t j rl).0 (spent v) d' step.1 x' h' rest in
            ground (arith, y, ih, step.0)
      ]

  module _ (r : ℕ) where
    -- A limiter that does not know a client, and whose rate is positive, allows exactly the first
    -- `rate` requests of the client among calls that lie within one window, whatever other clients
    -- send between them and whenever the cleanup runs.
    allowed-new :
        (es : List Event) (rl : Limiter)
        → IsDistinct rl.visitors
        → lookup ip rl.visitors ≡ none
        → rl.window ≡ w
        → rl.rate ≡ pos (suc r)
        → all (is_in a w) es ≡ true
        → allowed ip es rl ≡ least (requests ip es) (suc r)
    unfolding requests allowed
    allowed-new [] rl d e x k all_in = ground arith
    allowed-new (tick t ∷ es) rl d e x k all_in =
        let rest : all (is_in a w) es ≡ true = ground arith in
        allowed-new es (sweep t rl) (sweep-IsDistinct t rl d) (sweep-none t ip rl d e)
          (sweep-window t rl ∙ x) (sweep-rate t rl ∙ k) rest
    allowed-new (request t j ∷ es) rl d e x k all_in =
        let rest : all (is_in a w) es ≡ true = ground arith in
        let d' = allow-IsDistinct t j rl d in
        let constants = allow-constants t j rl in
        elim (Bool-cases (str_eq j ip)) [
          | inr n ↦
              let ih =
                allowed-new es (allow t j rl).0 d' (allow-other t j ip rl n ∙ e) (constants.0 ∙ x)
                  (constants.1 ∙ k) rest in
              ground (arith, n, ih)
          | inl y ↦
              let step = allow-new t ip rl e ((str_eq_iff j ip).0 y) in
              let v : Visitor = record { tokens = pred rl.rate; last_reset = t } in
              let h : a ≤ t = ground arith in
              let ih = allowed-live es (allow t j rl).0 v d' step.1 (constants.0 ∙ x) h rest in
              ground (arith, y, ih, step.0, k)
        ]

    -- Among calls that lie within any stretch of time as long as the window, a limiter with a
    -- positive rate allows a client that it knows no more requests than the tokens that were left
    -- to the client and the rate together.
    pub allowed-le :
        (es : List Event) (rl : Limiter) (v : Visitor)
        → IsDistinct rl.visitors
        → IsWith ip v rl
        → rl.window ≡ w
        → rl.rate ≡ pos (suc r)
        → all (is_in a w) es ≡ true
        → allowed ip es rl ≤ pos_part v.tokens + suc r
    unfolding requests allowed
    allowed-le [] rl v d e x k all_in = omega arith
    allowed-le (tick t ∷ es) rl v d e x k all_in =
        let rest : all (is_in a w) es ≡ true = ground arith in
        let d' = sweep-IsDistinct t rl d in
        elim (sweep-cases t ip rl v d e) [
          | inl gone ↦
              let ih =
                allowed-new es (sweep t rl) d' gone (sweep-window t rl ∙ x) (sweep-rate t rl ∙ k)
                  rest in
              ground (arith, ih)
          | inr stays ↦
              allowed-le es (sweep t rl) v d' stays (sweep-window t rl ∙ x) (sweep-rate t rl ∙ k)
                rest
        ]
    allowed-le (request t j ∷ es) rl v d e x k all_in =
        let rest : all (is_in a w) es ≡ true = ground arith in
        let d' = allow-IsDistinct t j rl d in
        let constants = allow-constants t j rl in
        let x' = constants.0 ∙ x in
        let k' = constants.1 ∙ k in
        elim (Bool-cases (str_eq j ip)) [
          | inr n ↦
              let ih =
                allowed-le es (allow t j rl).0 v d' (allow-other t j ip rl n ∙ e) x' k' rest in
              ground (arith, n, ih)
          | inl y ↦ elim (Bool-cases (leb (v.last_reset + rl.window) t)) [
            | inr fresh ↦
                let step = allow-live t ip rl v e fresh ((str_eq_iff j ip).0 y) in
                let ih = allowed-le es (allow t j rl).0 (spent v) d' step.1 x' k' rest in
                ground (arith, y, ih, step.0)
            | inl expired ↦
                let step = allow-expired t ip rl v e expired ((str_eq_iff j ip).0 y) in
                let new : Visitor = record { tokens = pred rl.rate; last_reset = t } in
                let h : a ≤ t = ground arith in
                let ih = allowed-live es (allow t j rl).0 new d' step.1 x' h rest in
                ground (arith, y, ih, step.0, k)
          ]
        ]
