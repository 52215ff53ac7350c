-- ===== src/Automation/Audited.antt =====
-- The audit log of the engine of backend/internal/monitoring/automation/engine.go.
use healthops.Prelude.{
  ℕ, ◌+◌, String, Bool, true, false, Option, none, some, List, [], ◌∷◌, ◌++◌, ◌≡◌, refl, arith, map,
  take, count, inl, inr, Option-cases, ◌∙◌, length, length-append, str_eq, if◌then◌else◌,
  count-append, ◌&&◌, str_eq_iff,
}
use healthops.Prelude.Maps.{Map, lookup}
use healthops.Types.{Time}
use healthops.Remediation.Data.{Bytes}
use healthops.Automation.Calls.{Call, suggesting, listing, approving, rejecting, perform, run}
use healthops.Automation.Engine.{
  Action, AiAction, AuditEntry, extract_json, decision, Engine, Library, SuggestRequest, Outcome,
  not_configured, call_failed, answered, pending, approved, rejected, expired, done, not_pending,
  not_found, is_pending, expire, suggested_entry, new_action, parse_ai_response, expire_pending,
  dedup_key, pending_by_key, queued, store_new, suggest, list_actions, decide, approve_action,
  reject_action, approve, reject,
}

abbrev pub is_approved : Action → Bool
is_approved a = elim a.status [
  | pending ↦ false
  | approved ↦ true
  | rejected ↦ false
  | expired ↦ false
]

abbrev pub is_rejected : Action → Bool
is_rejected a = elim a.status [
  | pending ↦ false
  | approved ↦ false
  | rejected ↦ true
  | expired ↦ false
]

-- The entries of the log with the event for the action.
abbrev pub is_entry : String → String → AuditEntry → Bool
is_entry event id x = str_eq x.event event && str_eq x.action_id id

abbrev with_id : String → Action → Bool
with_id id a = str_eq a.id id

abbrev approved_with : String → Action → Bool
approved_with id a = str_eq a.id id && is_approved a

abbrev rejected_with : String → Action → Bool
rejected_with id a = str_eq a.id id && is_rejected a

-- The log has as many entries on an identifier as actions in the queue have it, are approved and
-- are rejected.
abbrev pub IsLogged : String → Engine → Type 0
IsLogged id e =
    (count (with_id id) e.actions ≡ count (is_entry "suggested" id) e.audit)
    × (count (approved_with id) e.actions ≡ count (is_entry "approved" id) e.audit)
    × (count (rejected_with id) e.actions ≡ count (is_entry "rejected" id) e.audit)

-- The log's length is what the queue accounts for.
abbrev pub IsFull : Engine → Type 0
IsFull e =
    length e.audit ≡ length e.actions + (count is_approved e.actions + count is_rejected e.actions)

abbrev pub IsAudited : Engine → Type 0
IsAudited e = ((id : String) → IsLogged id e) × IsFull e

expire_pending-length :
    (now : Time) (actions : List Action) → length (expire_pending now actions) ≡ length actions
expire_pending-length now [] = refl
expire_pending-length now (a ∷ more) = ground (arith, expire_pending-length now more)

-- A test that no change of a pending action's status passes or fails by expiring.
expire_pending-count :
    (q : Action → Bool) (now : Time) (actions : List Action)
    → ((a : Action) → q (expire now a) ≡ q a)
    → count q (expire_pending now actions) ≡ count q actions
expire_pending-count q now [] same = refl
expire_pending-count q now (a ∷ more) same =
    ground (arith, same a, expire_pending-count q now more same)

expire_pending-IsAudited :
    (now : Time) (e : Engine)
    → IsAudited e
    → IsAudited (record e { actions = expire_pending now e.actions })
expire_pending-IsAudited now e h = (
  λ id. (
    expire_pending-count (with_id id) now e.actions (λ a. ground arith) ∙ (h.0 id).0,
    expire_pending-count (approved_with id) now e.actions (λ a. ground arith) ∙ (h.0 id).1,
    expire_pending-count (rejected_with id) now e.actions (λ a. ground arith) ∙ (h.0 id).2,
  ),
  omega (
    arith,
    h.1,
    expire_pending-length now e.actions,
    expire_pending-count is_approved now e.actions (λ a. ground arith),
    expire_pending-count is_rejected now e.actions (λ a. ground arith),
  ),
)

-- An action that is neither approved nor rejected goes into the queue with an entry.
queued-IsAudited :
    (lib : Library) (now : Time) (a : Action) (o : Option Action) (known : Map Action) (e : Engine)
    → is_pending a.status ≡ true
    → IsAudited e
    → IsAudited (queued lib now a o known e).1
queued-IsAudited lib now a (some b) known e p h = h
queued-IsAudited lib now a none known e p h =
    let entry = suggested_entry lib now a ∷ [] in
    (
      λ id. ground (
        arith,
        p,
        h.0 id,
        count-append (with_id id) e.actions (a ∷ []),
        count-append (approved_with id) e.actions (a ∷ []),
        count-append (rejected_with id) e.actions (a ∷ []),
        count-append (is_entry "suggested" id) e.audit entry,
        count-append (is_entry "approved" id) e.audit entry,
        count-append (is_entry "rejected" id) e.audit entry,
      ),
      ground (
        arith,
        p,
        h.1,
        length-append e.actions (a ∷ []),
        length-append e.audit entry,
        count-append is_approved e.actions (a ∷ []),
        count-append is_rejected e.actions (a ∷ []),
      ),
    )

abbrev AllPending : List Action → Type 0
AllPending [] = Unit
AllPending (a ∷ more) = (is_pending a.status ≡ true) × AllPending more

store_new-IsAudited :
    (lib : Library) (now : Time) (new : List Action) (known : Map Action) (e : Engine)
    → AllPending new
    → IsAudited e
    → IsAudited (store_new lib now new known e).0
unfolding store_new
store_new-IsAudited lib now [] known e p h = h
store_new-IsAudited lib now (a ∷ more) known e p h =
    let r = queued lib now a (lookup (dedup_key lib a) known) known e in
    store_new-IsAudited lib now more r.0 r.1 p.1
      (queued-IsAudited lib now a (lookup (dedup_key lib a) known) known e p.0 h)

new_actions-pending :
    (lib : Library) (now : Time) (req : SuggestRequest) (ps : List AiAction)
    → AllPending (map (new_action lib now req) ps)
new_actions-pending lib now req [] = tt
new_actions-pending lib now req (p ∷ ps) = (refl, new_actions-pending lib now req ps)

parse_ai_response-pending :
    (lib : Library) (now : Time) (response : Bytes) (req : SuggestRequest)
    → AllPending (parse_ai_response lib now response req)
unfolding parse_ai_response
parse_ai_response-pending lib now response req =
    elim (Option-cases (lib.unmarshal (extract_json response))) [
      | inl failed ↦ rw (failed, parse_ai_response) tt
      | inr (ps, decoded) ↦
          rw (decoded, parse_ai_response) (new_actions-pending lib now req (take 3 ps))
    ]

abbrev is_done : Outcome → ℕ
is_done done = 1
is_done not_pending = 0
is_done not_found = 0

decide-length :
    (f : Action → Action) (id : String) (actions : List Action)
    → length (decide f id actions).0 ≡ length actions
decide-length f id [] = refl
decide-length f id (a ∷ more) = ground (arith, decide-length f id more)

-- A decision adds one action that passes a test which no pending action passes, or none.
decide-count :
    (q : Action → Bool) (b : Bool) (f : Action → Action) (id : String) (actions : List Action)
    → ((a : Action) → is_pending a.status ≡ true → q a ≡ false)
    → ((a : Action) → str_eq a.id id ≡ true → q (f a) ≡ b)
    → count q (decide f id actions).0
      ≡ count q actions + (if b then is_done (decide f id actions).1 else 0)
decide-count q b f id [] apart becomes = ground arith
decide-count q b f id (a ∷ more) apart becomes =
    ground (arith, apart a, becomes a, decide-count q b f id more apart becomes)

decide-count_same :
    (q : Action → Bool) (f : Action → Action) (id : String) (actions : List Action)
    → ((a : Action) → q (f a) ≡ q a)
    → count q (decide f id actions).0 ≡ count q actions
decide-count_same q f id [] same = refl
decide-count_same q f id (a ∷ more) same =
    ground (arith, same a, decide-count_same q f id more same)

-- What an approval or a rejection, an entry for it included, does to the counts.
module _ (lib : Library) (now : Time) (id actor : String) (e : Engine) where
  same_id :
      (a : Action) (other : String) → str_eq a.id id ≡ true → str_eq a.id other ≡ str_eq id other
  same_id a other h = rw ((str_eq_iff a.id id).0 h) refl

  counted :
      (event details other : String) (i : String)
      → count (is_entry other i) (e.audit ++ decision lib now id actor event details ∷ [])
        ≡ count (is_entry other i) e.audit + (if str_eq event other && str_eq id i then 1 else 0)
  counted event details other i =
      count-append (is_entry other i) e.audit (decision lib now id actor event details ∷ [])
      ∙ ground arith

  approve-IsAudited : IsAudited e → IsAudited (approve lib now id actor e).0
  unfolding approve
  approve-IsAudited h =
      let f = approve_action now actor in
      (
        λ i. ground (
          arith,
          h.0 i,
          decide-count_same (with_id i) f id e.actions (λ a. refl),
          decide-count (approved_with i) (str_eq id i) f id e.actions (λ a p. ground (arith, p))
              (λ a s. rw (same_id a i s) ground arith),
          decide-count (rejected_with i) false f id e.actions (λ a p. ground (arith, p))
              (λ a s. ground arith),
          counted "approved" "" "suggested" i,
          counted "approved" "" "approved" i,
          counted "approved" "" "rejected" i,
        ),
        ground (
          arith,
          h.1,
          decide-length f id e.actions,
          decide-count is_approved true f id e.actions (λ a p. ground (arith, p)) (λ a s. refl),
          decide-count is_rejected false f id e.actions (λ a p. ground (arith, p)) (λ a s. refl),
          length-append e.audit (decision lib now id actor "approved" "" ∷ []),
        ),
      )

  reject-IsAudited :
      (reason : String) → IsAudited e → IsAudited (reject lib now id actor reason e).0
  unfolding reject
  reject-IsAudited reason h =
      let f = reject_action now actor in
      (
        λ i. ground (
          arith,
          h.0 i,
          decide-count_same (with_id i) f id e.actions (λ a. refl),
          decide-count (approved_with i) false f id e.actions (λ a p. ground (arith, p))
              (λ a s. ground arith),
          decide-count (rejected_with i) (str_eq id i) f id e.actions (λ a p. ground (arith, p))
              (λ a s. rw (same_id a i s) ground arith),
          counted "rejected" reason "suggested" i,
          counted "rejected" reason "approved" i,
          counted "rejected" reason "rejected" i,
        ),
        ground (
          arith,
          h.1,
          decide-length f id e.actions,
          decide-count is_approved false f id e.actions (λ a p. ground (arith, p)) (λ a s. refl),
          decide-count is_rejected true f id e.actions (λ a p. ground (arith, p)) (λ a s. refl),
          length-append e.audit (decision lib now id actor "rejected" reason ∷ []),
        ),
      )

perform-IsAudited :
    (lib : Library) (c : Call) (e : Engine) → IsAudited e → IsAudited (perform lib c e)
unfolding suggest list_actions
perform-IsAudited lib (suggesting now not_configured req) e h = h
perform-IsAudited lib (suggesting now call_failed req) e h = h
perform-IsAudited lib (suggesting now (answered response) req) e h =
    let actions = expire_pending now e.actions in
    store_new-IsAudited lib now (parse_ai_response lib now response req)
      (pending_by_key lib actions []) (record e { actions = actions })
      (parse_ai_response-pending lib now response req) (expire_pending-IsAudited now e h)
perform-IsAudited lib (listing now status) e h = expire_pending-IsAudited now e h
perform-IsAudited lib (approving now id actor) e h = approve-IsAudited lib now id actor e h
perform-IsAudited lib (rejecting now id actor reason) e h =
    reject-IsAudited lib now id actor e reason h

-- If this was so before, then after any calls, for each identifier, the audit log has as many
-- suggestions of it as actions in the queue have it, as many approvals of it as of those actions are
-- approved, and as many rejections as are rejected; and the log has no other entry: its length is
-- the sum of the actions, the approved ones and the rejected ones.
pub run-IsAudited :
    (lib : Library) (cs : List Call) (e : Engine) → IsAudited e → IsAudited (run lib cs e)
run-IsAudited lib [] e h = h
run-IsAudited lib (c ∷ cs) e h =
    run-IsAudited lib cs (perform lib c e) (perform-IsAudited lib c e h)
