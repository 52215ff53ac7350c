-- ===== src/Heartbeat/Counts.antt =====
-- What HeartbeatStore of backend/internal/monitoring/check_heartbeat.go holds after any operations.
use healthops.Prelude.{
  suc, ◌+◌, String, Bool, true, false, Option, none, some, List, [], ◌∷◌, ◌≡◌, refl, arith,
  if◌then◌else◌, count, str_eq, str_eq_iff, Option-cases, Bool-cases, ap, sym, ◌∙◌, inl, inr, ◌⊎◌,
}
use healthops.Prelude.Maps.{Map, lookup, insert, lookup-insert}
use healthops.Blocks.{HeartbeatCheckConfig}
use healthops.Types.{Time}
use healthops.Heartbeat.Pings.{
  HeartbeatPing, HeartbeatState, healthy, new_state, register, record_ping, execute, miss, judge,
  execute_ping, execute_state, is_older, add_ℤ,
}

pub data Op : Type 0 where
  registering : String → String → Op
  pinging : HeartbeatPing → Op
  running : Time → HeartbeatCheckConfig → Op

unfoldable pub perform : Op → Map HeartbeatState → Map HeartbeatState
unfolding register record_ping execute
perform (registering token id) states = register token id states
perform (pinging ping) states = (record_ping ping states).0
perform (running now b) states = (execute now b states).0

unfoldable pub run : List Op → Map HeartbeatState → Map HeartbeatState
unfolding perform
run [] states = states
run (op ∷ ops) states = run ops (perform op states)

abbrev registers : String → Op → Bool
registers t (registering token id) = str_eq token t
registers t (pinging ping) = false
registers t (running now b) = false

abbrev pub pings : String → Op → Bool
pings t (registering token id) = false
pings t (pinging ping) = str_eq ping.token t
pings t (running now b) = false

-- A run of the check leaves the states or counts a miss.
Missed : String → Option HeartbeatState → Map HeartbeatState → Map HeartbeatState → Type 0
Missed token o states states' =
    (states' ≡ states)
    ⊎ ((s : HeartbeatState) × (o ≡ some s) × (states' ≡ insert token (miss s) states))

judge-Missed :
    (failed past_deadline past_interval : Bool) (token : String) (s : HeartbeatState)
    (states : Map HeartbeatState)
    → Missed token (some s) states (judge failed past_deadline past_interval token s states).0
unfolding Missed
judge-Missed true d i token s states = inl refl
judge-Missed false true i token s states = inr (s, refl, refl)
judge-Missed false false true token s states = inl refl
judge-Missed false false false token s states = inl refl

execute_ping-Missed :
    (now : Time) (b : HeartbeatCheckConfig) (s : HeartbeatState) (o : Option HeartbeatPing)
    (states : Map HeartbeatState)
    → Missed b.token (some s) states (execute_ping now b s o states).0
unfolding Missed
execute_ping-Missed now b s none states = inl refl
execute_ping-Missed now b s (some ping) states =
    judge-Missed (str_eq ping.status "fail")
      (is_older now ping.pinged_at (add_ℤ b.expected_interval_seconds b.grace_seconds))
      (is_older now ping.pinged_at b.expected_interval_seconds) b.token s states

execute_state-Missed :
    (now : Time) (b : HeartbeatCheckConfig) (o : Option HeartbeatState)
    (states : Map HeartbeatState)
    → Missed b.token o states (execute_state now b o states).0
unfolding Missed
execute_state-Missed now b none states = inl refl
execute_state-Missed now b (some s) states = execute_ping-Missed now b s s.last_ping states

-- The last ping for a token.
abbrev last_ping_of : String → Option HeartbeatPing → Op → Option HeartbeatPing
last_ping_of t old (registering token id) = old
last_ping_of t old (pinging ping) = if str_eq ping.token t then some ping else old
last_ping_of t old (running now b) = old

abbrev pub last_ping_in : String → Option HeartbeatPing → List Op → Option HeartbeatPing
last_ping_in t old [] = old
last_ping_in t old (op ∷ ops) = last_ping_in t (last_ping_of t old op) ops

-- What an operation leaves of the state of a token, and what it adds to it.
abbrev Follows : String → HeartbeatState → Op → HeartbeatState → Type 0
Follows t s op s' =
    (s'.check_id ≡ s.check_id)
    × (s'.ping_count ≡ s.ping_count + (if pings t op then 1 else 0))
    × (s'.last_ping ≡ last_ping_of t s.last_ping op)

module _ (k t : String) (v : HeartbeatState) (m : Map HeartbeatState) where
  insert_same : str_eq k t ≡ true → lookup t (insert k v m) ≡ some v
  insert_same e = rw (lookup-insert k t v m, e) refl

  insert_other : str_eq k t ≡ false → lookup t (insert k v m) ≡ lookup t m
  insert_other e = rw (lookup-insert k t v m, e) refl

perform-registering :
    (t token id : String) (states : Map HeartbeatState) (s : HeartbeatState)
    → lookup t states ≡ some s
    → lookup t (register token id states) ≡ some s
unfolding register
perform-registering t token id states s h =
    ground (arith, h, lookup-insert token t (new_state token id) states, str_eq_iff token t)

perform-pinging :
    (t : String) (ping : HeartbeatPing) (states : Map HeartbeatState) (s : HeartbeatState)
    → lookup t states ≡ some s
    → (s' : HeartbeatState) × (lookup t (record_ping ping states).0 ≡ some s')
      × Follows t s (pinging ping) s'
unfolding record_ping
perform-pinging t ping states s h = elim (Bool-cases (str_eq ping.token t)) [
  | inl same ↦
      let pinged = record s {
        last_ping = some ping;
        ping_count = suc s.ping_count;
        current_state = healthy;
      } in
      let found : lookup ping.token states ≡ some s = rw ((str_eq_iff ping.token t).0 same) h in
      (
        pinged,
        rw (found, record_ping) (insert_same ping.token t pinged states same),
        (refl, rw same (omega arith), rw same refl),
      )
  | inr other ↦ elim (Option-cases (lookup ping.token states)) [
    | inl unknown ↦ (s, rw (unknown, record_ping) h, (refl, rw other (omega arith), rw other refl))
    | inr (x, found) ↦
        let pinged = record x {
          last_ping = some ping;
          ping_count = suc x.ping_count;
          current_state = healthy;
        } in
        (
          s,
          rw (found, record_ping) (insert_other ping.token t pinged states other ∙ h),
          (refl, rw other (omega arith), rw other refl),
        )
  ]
]

abbrev state_or : HeartbeatState → Option HeartbeatState → HeartbeatState
state_or d none = d
state_or d (some s) = s

perform-running :
    (t : String) (now : Time) (b : HeartbeatCheckConfig) (states : Map HeartbeatState)
    (s : HeartbeatState)
    → lookup t states ≡ some s
    → (s' : HeartbeatState) × (lookup t (execute now b states).0 ≡ some s')
      × Follows t s (running now b) s'
unfolding execute Missed
perform-running t now b states s h =
    elim (execute_state-Missed now b (lookup b.token states) states) [
      | inl same ↦ (s, rw same h, (refl, omega arith, refl))
      | inr (x, found, missed) ↦ elim (Bool-cases (str_eq b.token t)) [
        | inl own ↦
            let found' : lookup b.token states ≡ some s = rw ((str_eq_iff b.token t).0 own) h in
            let same : x ≡ s = ap (state_or s) (sym found ∙ found') in
            let counted : x.ping_count ≡ s.ping_count = ap (λ y. y.ping_count) same in
            (
              miss x,
              rw missed (insert_same b.token t (miss x) states own),
              (ap (λ y. y.check_id) same, omega (arith, counted), ap (λ y. y.last_ping) same),
            )
        | inr other ↦ (
          s,
          rw missed (insert_other b.token t (miss x) states other ∙ h),
          (refl, omega arith, refl),
        )
      ]
    ]

perform-Follows :
    (t : String) (op : Op) (states : Map HeartbeatState) (s : HeartbeatState)
    → lookup t states ≡ some s
    → (s' : HeartbeatState) × (lookup t (perform op states) ≡ some s') × Follows t s op s'
unfolding perform
perform-Follows t (registering token id) states s h =
    (s, perform-registering t token id states s h, (refl, omega arith, refl))
perform-Follows t (pinging ping) states s h = perform-pinging t ping states s h
perform-Follows t (running now b) states s h = perform-running t now b states s h

-- Once a token is registered, over all later operations it stays known, with the check that it was
-- registered for first; its pings are counted, and the last one is kept.
run-counts :
    (t : String) (ops : List Op) (states : Map HeartbeatState) (s : HeartbeatState)
    → lookup t states ≡ some s
    → (s' : HeartbeatState) × (lookup t (run ops states) ≡ some s')
      × (s'.check_id ≡ s.check_id)
      × (s'.ping_count ≡ s.ping_count + count (pings t) ops)
      × (s'.last_ping ≡ last_ping_in t s.last_ping ops)
unfolding run
run-counts t [] states s h = (s, h, refl, omega arith, refl)
run-counts t (op ∷ ops) states s h =
    let (s1, h1, f) = perform-Follows t op states s h in
    let (s', h', id, pinged, last) = run-counts t ops (perform op states) s1 h1 in
    (s', h', id ∙ f.0, ground (arith, pinged, f.1), last ∙ ap (λ o. last_ping_in t o ops) f.2)
