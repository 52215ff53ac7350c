-- ===== src/Automation/Engine.antt =====
-- backend/internal/monitoring/automation/engine.go. The answer of the AI, the decoding of JSON, the
-- hashes for identifiers, and ToLower of TrimSpace are parameters. The prompt that buildContext
-- writes is left out, and with it the request's Context, and the fields Params and ExecutedAt, which
-- nothing sets.
use Prim.Native.String.{◌++◌}
use healthops.Prelude.{
  ◌+◌, String, Bool, true, false, ◌&&◌, Option, none, some, List, [], ◌∷◌, ◌++◌ as append, map,
  take, select, str_eq, is_blank, ◌==◌, if◌then◌else◌,
}
use healthops.Prelude.Maps.{Map, lookup, insert}
use healthops.Types.{Time, before, day}
use healthops.Remediation.Data.{Bytes}

pub data ApprovalStatus : Type 0 where
  pending approved rejected expired : ApprovalStatus

abbrev pub status_text : ApprovalStatus → String
status_text pending = "pending"
status_text approved = "approved"
status_text rejected = "rejected"
status_text expired = "expired"

abbrev pub is_pending : ApprovalStatus → Bool
is_pending pending = true
is_pending approved = false
is_pending rejected = false
is_pending expired = false

pub record Action : Type 0 where
  pub id : String
  pub type : String
  pub title : String
  pub description : String
  pub risk : String
  pub check_id : String
  pub server : String
  pub incident_id : String
  pub command : String
  pub reason : String
  pub status : ApprovalStatus
  pub created_at : Time
  pub expires_at : Time
  pub approved_by : String
  pub approved_at : Option Time
  pub rejected_by : String
  pub rejected_at : Option Time
  pub result : String

pub record AuditEntry : Type 0 where
  pub id : String
  pub action_id : String
  pub actor : String
  pub event : String
  pub details : String
  pub timestamp : Time

pub record SuggestRequest : Type 0 where
  pub incident_id : String
  pub check_id : String

-- What the AI writes for an action.
pub record AiAction : Type 0 where
  pub type : String
  pub title : String
  pub description : String
  pub risk : String
  pub command : String
  pub reason : String

pub record Engine : Type 0 where
  pub actions : List Action
  pub audit : List AuditEntry

pub record Library : Type 0 where
  pub action_id : String → String → Time → String
  pub audit_id : Time → String
  pub fold : String → String
  pub separator : String
  pub unmarshal : Bytes → Option (List AiAction)

-- From the first `[` to the last `]`, if that comes later, or all of the text.
abbrev after_open : Bytes → Option Bytes
after_open [] = none
after_open (c ∷ s) = if c == b'[' then some (c ∷ s) else after_open s

abbrev up_to_close : Bytes → Option Bytes
up_to_close [] = none
up_to_close (c ∷ s) = elim (up_to_close s) [
  | some r ↦ some (c ∷ r)
  | none ↦ if c == b']' then some (c ∷ []) else none
]

abbrev or_whole : Bytes → Option Bytes → Bytes
or_whole s none = s
or_whole s (some t) = t

unfoldable pub extract_json : Bytes → Bytes
extract_json s = elim (after_open s) [ none ↦ s | some t ↦ or_whole s (up_to_close t) ]

abbrev pub new_action : Library → Time → SuggestRequest → AiAction → Action
new_action lib now req p = record {
  id = lib.action_id p.type p.title now;
  type = p.type;
  title = p.title;
  description = p.description;
  risk = p.risk;
  check_id = req.check_id;
  server = "";
  incident_id = req.incident_id;
  command = p.command;
  reason = p.reason;
  status = pending;
  created_at = now;
  expires_at = now + day;
  approved_by = "";
  approved_at = none;
  rejected_by = "";
  rejected_at = none;
  result = "";
}

abbrev parsed_actions : Library → Time → SuggestRequest → Option (List AiAction) → List Action
parsed_actions lib now req none = []
parsed_actions lib now req (some ps) = map (new_action lib now req) (take 3 ps)

unfoldable pub parse_ai_response : Library → Time → Bytes → SuggestRequest → List Action
unfolding extract_json
parse_ai_response lib now response req =
    parsed_actions lib now req (lib.unmarshal (extract_json response))

abbrev pub expire : Time → Action → Action
expire now a =
    if is_pending a.status && before a.expires_at now then record a { status = expired } else a

abbrev pub expire_pending : Time → List Action → List Action
expire_pending now actions = map (expire now) actions

abbrev pub dedup_key : Library → Action → String
dedup_key lib a = a.type ++ lib.separator ++ lib.fold a.title

-- The pending actions by their keys.
abbrev pub pending_by_key : Library → List Action → Map Action → Map Action
pending_by_key lib [] m = m
pending_by_key lib (a ∷ more) m =
    pending_by_key lib more (if is_pending a.status then insert (dedup_key lib a) a m else m)

abbrev pub suggested_entry : Library → Time → Action → AuditEntry
suggested_entry lib now a = record {
  id = lib.audit_id now;
  action_id = a.id;
  actor = "ai";
  event = "suggested";
  details = a.reason;
  timestamp = now;
}

-- A new action goes into the queue, unless an action with its key waits there.
abbrev pub queued :
    Library → Time → Action → Option Action → Map Action → Engine → Map Action × Engine × Action
queued lib now a (some b) known e = (known, e, b)
queued lib now a none known e = (
  insert (dedup_key lib a) a known,
  record {
    actions = append e.actions (a ∷ []);
    audit = append e.audit (suggested_entry lib now a ∷ []);
  },
  a,
)

-- The loop of Suggest: the engine and the actions that are returned.
unfoldable pub store_new : Library → Time → List Action → Map Action → Engine → Engine × List Action
store_new lib now [] known e = (e, [])
store_new lib now (a ∷ more) known e =
    let (known', e', stored) = queued lib now a (lookup (dedup_key lib a) known) known e in
    let (last, rest) = store_new lib now more known' e' in (last, stored ∷ rest)

-- What the AI answered: it is not configured, it failed, or a text.
pub data AiAnswer : Type 0 where
  not_configured call_failed : AiAnswer
  answered : Bytes → AiAnswer

unfoldable pub suggest :
    Library → Time → AiAnswer → SuggestRequest → Engine → Engine × Option (List Action)
unfolding parse_ai_response store_new
suggest lib now not_configured req e = (e, none)
suggest lib now call_failed req e = (e, none)
suggest lib now (answered response) req e =
    let actions = expire_pending now e.actions in
    let (e', stored) =
      store_new lib now (parse_ai_response lib now response req) (pending_by_key lib actions [])
        (record e { actions = actions }) in
    (e', some stored)

unfoldable pub list_actions : Time → String → Engine → Engine × List Action
list_actions now status e =
    let actions = expire_pending now e.actions in
    (
      record e { actions = actions },
      (if is_blank status
          then actions
          else select (λ a. str_eq (status_text a.status) status) actions),
    )

unfoldable pub get_action : String → List Action → Option Action
get_action id [] = none
get_action id (a ∷ more) = if str_eq a.id id then some a else get_action id more

pub data Outcome : Type 0 where
  done not_pending not_found : Outcome

-- The loop of Approve and of Reject, over what each does to a pending action.
abbrev pub decide : (Action → Action) → String → List Action → List Action × Outcome
decide f id [] = ([], not_found)
decide f id (a ∷ more) =
    let (rest, outcome) = decide f id more in
    if str_eq a.id id
    then (if is_pending a.status then (f a ∷ more, done) else (a ∷ more, not_pending))
    else (a ∷ rest, outcome)

abbrev pub approve_action : Time → String → Action → Action
approve_action now actor a = record a {
  status = approved;
  approved_by = actor;
  approved_at = some now;
  result = "approved in audit log; command not executed";
}

abbrev pub reject_action : Time → String → Action → Action
reject_action now actor a = record a {
  status = rejected;
  rejected_by = actor;
  rejected_at = some now;
}

abbrev pub decision : Library → Time → String → String → String → String → AuditEntry
decision lib now id actor event details = record {
  id = lib.audit_id now;
  action_id = id;
  actor = actor;
  event = event;
  details = details;
  timestamp = now;
}

abbrev decided : AuditEntry → Engine → List Action × Outcome → Engine × Outcome
decided entry e (actions, done) =
    (record { actions = actions; audit = append e.audit (entry ∷ []) }, done)
decided entry e (actions, not_pending) = (e, not_pending)
decided entry e (actions, not_found) = (e, not_found)

unfoldable pub approve : Library → Time → String → String → Engine → Engine × Outcome
approve lib now id actor e =
    decided (decision lib now id actor "approved" "") e
      (decide (approve_action now actor) id e.actions)

unfoldable pub reject : Library → Time → String → String → String → Engine → Engine × Outcome
reject lib now id actor reason e =
    decided (decision lib now id actor "rejected" reason) e
      (decide (reject_action now actor) id e.actions)
