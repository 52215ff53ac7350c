-- ===== src/Automation/Pending.antt =====
-- How often an action waits for a decision in the engine of
-- backend/internal/monitoring/automation/engine.go.
use healthops.Prelude.{
  ◌≤◌, ℕ, String, Bool, false, ◌&&◌, Option, none, some, List, [], ◌∷◌, ◌≡◌, refl, arith, ap, count,
  str_eq, str_eq_iff, is_some, inl, inr, Bool-cases, count-append,
}
use healthops.Prelude.Maps.{Map, lookup, insert, lookup-insert}
use healthops.Types.{Time}
use healthops.Automation.Calls.{Call, suggesting, listing, approving, rejecting, perform, run}
use healthops.Automation.Engine.{
  Action, Engine, Library, not_configured, call_failed, answered, is_pending, parse_ai_response,
  expire_pending, dedup_key, pending_by_key, queued, store_new, suggest, list_actions, decide,
  approve_action, reject_action, approve, reject,
}

-- An action with the key that waits.
abbrev pub waits : Library → String → Action → Bool
waits lib k a = is_pending a.status && str_eq (dedup_key lib a) k

abbrev pub waiting : Library → String → List Action → ℕ
waiting lib k actions = count (waits lib k) actions

expire_pending-waiting :
    (lib : Library) (k : String) (now : Time) (actions : List Action)
    → waiting lib k (expire_pending now actions) ≤ waiting lib k actions
expire_pending-waiting lib k now [] = omega arith
expire_pending-waiting lib k now (a ∷ more) = ground (arith, expire_pending-waiting lib k now more)

-- A key that the map lacks does not wait.
pending_by_key-lookup :
    (lib : Library) (k : String) (actions : List Action) (m : Map Action)
    → is_some (lookup k (pending_by_key lib actions m)) ≡ false
    → (waiting lib k actions ≡ 0) × (is_some (lookup k m) ≡ false)
pending_by_key-lookup lib k [] m h = (refl, h)
pending_by_key-lookup lib k (a ∷ more) m h = elim (Bool-cases (is_pending a.status)) [
  | inl p ↦
      let (rest, missing) =
        pending_by_key-lookup lib k more (insert (dedup_key lib a) a m) (rw p at h) in
      ground (arith, p, rest, missing, lookup-insert (dedup_key lib a) k a m)
  | inr p ↦
      let (rest, missing) = pending_by_key-lookup lib k more m (rw p at h) in
      ground (arith, p, rest, missing)
]

module _ (lib : Library) where
  -- Whatever key the map lacks does not wait, and no key waits twice.
  pub record IsQueue (known : Map Action) (actions : List Action) : Type 0 where
    pub covers : (k : String) → is_some (lookup k known) ≡ false → waiting lib k actions ≡ 0
    pub once : (k : String) → waiting lib k actions ≤ 1

  queued-IsQueue :
      (now : Time) (a : Action) (o : Option Action) (known : Map Action) (e : Engine)
      → lookup (dedup_key lib a) known ≡ o
      → IsQueue known e.actions
      → IsQueue (queued lib now a o known e).0 (queued lib now a o known e).1.actions
  queued-IsQueue now a (some b) known e found q = q
  queued-IsQueue now a none known e found q = record {
    covers = λ k h. ground (
      arith,
      h,
      q.covers k,
      lookup-insert (dedup_key lib a) k a known,
      count-append (waits lib k) e.actions (a ∷ []),
    );
    once = λ k. elim (Bool-cases (str_eq (dedup_key lib a) k)) [
      | inl same ↦
          let zero : waiting lib k e.actions ≡ 0 =
            q.covers k (rw (← (str_eq_iff (dedup_key lib a) k).0 same) (ap is_some found)) in
          ground (arith, zero, count-append (waits lib k) e.actions (a ∷ []))
      | inr differs ↦
          ground (arith, differs, q.once k, count-append (waits lib k) e.actions (a ∷ []))
    ];
  }

  store_new-once :
      (now : Time) (new : List Action) (known : Map Action) (e : Engine) (k : String)
      → IsQueue known e.actions
      → waiting lib k (store_new lib now new known e).0.actions ≤ 1
  unfolding store_new
  store_new-once now [] known e k q = q.once k
  store_new-once now (a ∷ more) known e k q =
      let r = queued lib now a (lookup (dedup_key lib a) known) known e in
      store_new-once now more r.0 r.1 k
        (queued-IsQueue now a (lookup (dedup_key lib a) known) known e refl q)

  decide-waiting :
      (f : Action → Action) (id : String) (actions : List Action) (k : String)
      → ((a : Action) → is_pending (f a).status ≡ false)
      → waiting lib k (decide f id actions).0 ≤ waiting lib k actions
  decide-waiting f id [] k settles = omega arith
  decide-waiting f id (a ∷ more) k settles =
      ground (arith, settles a, decide-waiting f id more k settles)

  perform-once :
      (c : Call) (e : Engine)
      → ((k : String) → waiting lib k e.actions ≤ 1)
      → (k : String) → waiting lib k (perform lib c e).actions ≤ 1
  unfolding suggest list_actions approve reject
  perform-once (suggesting now not_configured req) e once k = once k
  perform-once (suggesting now call_failed req) e once k = once k
  perform-once (suggesting now (answered response) req) e once k =
      let actions = expire_pending now e.actions in
      store_new-once now (parse_ai_response lib now response req) (pending_by_key lib actions [])
        (record e { actions = actions }) k
        (record {
          covers = λ j h. (pending_by_key-lookup lib j actions [] h).0;
          once = λ j. omega (arith, once j, expire_pending-waiting lib j now e.actions);
        })
  perform-once (listing now status) e once k =
      omega (arith, once k, expire_pending-waiting lib k now e.actions)
  perform-once (approving now id actor) e once k =
      ground (arith, once k, decide-waiting (approve_action now actor) id e.actions k (λ a. refl))
  perform-once (rejecting now id actor reason) e once k =
      ground (arith, once k, decide-waiting (reject_action now actor) id e.actions k (λ a. refl))

  -- After any calls at most one action with a type and a title, but for its letters' case and the
  -- blanks around it, waits for a decision, if this was so before; repeated suggestions do not add
  -- to it.
  pub run-once :
      (cs : List Call) (e : Engine) (k : String)
      → ((j : String) → waiting lib j e.actions ≤ 1)
      → waiting lib k (run lib cs e).actions ≤ 1
  run-once [] e k once = once k
  run-once (c ∷ cs) e k once = run-once cs (perform lib c e) k (perform-once c e once)
