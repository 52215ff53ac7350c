-- ===== src/Automation/Late.antt =====
-- Approvals that come too late: backend/internal/monitoring/automation/engine.go.
use healthops.Prelude.{◌<◌, String, true, false, some, List, [], ◌∷◌, ◌≡◌, arith}
use healthops.Types.{Time}
use healthops.Automation.Engine.{
  Action, Engine, Library, done, not_pending, is_pending, get_action, list_actions, approve,
  approve_action, decide, expire, expire_pending,
}

decide-found :
    (f : Action → Action) (id : String) (actions : List Action) {a : Action}
    → get_action id actions ≡ some a
    → (is_pending a.status ≡ true → (decide f id actions).1 ≡ done)
      × (is_pending a.status ≡ false → (decide f id actions).1 ≡ not_pending)
unfolding get_action
decide-found f id [] h = cc
decide-found f id (b ∷ more) {a} h = ground (arith, decide-found f id more {a = a})

expired-found :
    (now : Time) (id : String) (actions : List Action) {a : Action}
    → get_action id actions ≡ some a
    → get_action id (expire_pending now actions) ≡ some (expire now a)
unfolding get_action
expired-found now id [] h = cc
expired-found now id (b ∷ more) {a} h = ground (arith, expired-found now id more {a = a})

-- Approve does not look at the time: an action that waits past its expiry is approved, unless a list
-- of the actions was asked for in between, after which it is refused.
approve-late :
    (lib : Library) (now : Time) (id actor status : String) (e : Engine) (a : Action)
    → get_action id e.actions ≡ some a
    → is_pending a.status ≡ true
    → a.expires_at < now
    → ((approve lib now id actor e).1 ≡ done)
      × ((approve lib now id actor (list_actions now status e).0).1 ≡ not_pending)
unfolding approve list_actions
approve-late lib now id actor status e a found waits late =
    let f = approve_action now actor in
    let (first, other) = decide-found f id e.actions {a = a} found in
    let (unused, then_refused) =
      decide-found f id (expire_pending now e.actions) {a = expire now a}
        (expired-found now id e.actions {a = a} found) in
    ground (arith, first waits, then_refused (ground arith))
