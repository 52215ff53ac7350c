-- ===== src/Notify/Sending.antt =====
-- sendToChannel of backend/internal/monitoring/notify/dispatcher.go and what it writes down in the
-- outbox of backend/internal/monitoring/notify/outbox.go. The sending itself, json.Marshal and the
-- clock, whose readings in a call are one time, are parameters: a sending answers the body that it sent and its error, if any. What the
-- outbox keeps of the HTTP delivery is left out.
use Prim.Native.String
use Prim.Native.String.{◌++◌}
use healthops.Prelude.{
  ◌*◌, String, Bool, true, false, ◌||◌, Option, none, some, List, [], ◌∷◌, ◌++◌ as append, ◌≡◌,
  refl, sym, ap, subst, ◌∙◌, arith, str_eq, str_eq_refl, is_blank, text_or, print_ℤ, sub_ℕ, suc,
  if◌then◌else◌,
}
use healthops.Types.{Time, second}
use healthops.Outbox.Operations.{
  NotificationEvent, Outbox, Outcome, pending, other_status, sent, failed, is_pending, done,
  not_found, not_pending, write_failed, completed, enqueue, mark_sent, mark_failed,
}
use healthops.Outbox.Delivery.{
  find, sent_loop-sends, failed_loop-fails, mark_sent-events, mark_failed-events,
}
use healthops.Notify.Dispatcher.{NotificationChannelConfig, NotificationPayload}

pub record Trace : Type 0 where
  pub request_body : String
  pub err : Option String

pub record Sender : Type 0 where
  pub send : NotificationChannelConfig → NotificationPayload → Trace
  pub marshal : NotificationPayload → String

abbrev pub is_supported : String → Bool
is_supported type =
    str_eq type "slack"
    || str_eq type "discord"
    || str_eq type "webhook"
    || str_eq type "email"
    || str_eq type "telegram"
    || str_eq type "pagerduty"

unfoldable pub trace_of : Sender → NotificationChannelConfig → NotificationPayload → Trace
trace_of s ch p =
    if is_supported ch.type
    then s.send ch p
    else record { request_body = ""; err = some ("unsupported channel type: " ++ ch.type) }

abbrev pub or_blank : Option String → String
or_blank none = ""
or_blank (some s) = s

unfoldable pub notification_id : Time → String → String
unfolding print_ℤ
notification_id now incident_id =
    "notif-" ++ incident_id ++ "-" ++ print_ℤ (sub_ℕ now (62_135_596_800 * second))

-- What is given to the outbox, whose Enqueue sets the status and the time.
abbrev pub event_of :
    Sender
    → Time
    → NotificationChannelConfig
    → NotificationPayload
    → String
    → Trace
    → NotificationEvent
event_of s now ch p incident_id t = record {
  notification_id = notification_id now incident_id;
  incident_id = incident_id;
  channel = ch.type ++ ":" ++ ch.name;
  payload_json = text_or t.request_body (s.marshal p);
  status = other_status "";
  retry_count = 0;
  last_error = or_blank t.err;
  created_at = 0;
  sent_at = none;
}

abbrev pub settle : Bool → Time → String → Option String → Outbox → Outbox
settle ok now id none o = (mark_sent ok now id o).0
settle ok now id (some reason) o = (mark_failed ok id reason o).0

abbrev pub recorded : Bool → Time → String → Option String → Outbox × Outcome → Outbox
recorded ok now id err (o, done) = settle ok now id err o
recorded ok now id err (o, not_found) = o
recorded ok now id err (o, not_pending) = o
recorded ok now id err (o, write_failed) = o

-- With an outbox. `first` and `second_write` say whether its two writes succeed.
unfoldable pub send_to_channel :
    Sender
    → Bool
    → Bool
    → Time
    → NotificationChannelConfig
    → NotificationPayload
    → String
    → Outbox
    → Outbox
send_to_channel s first second_write now ch p incident_id o =
    let t = trace_of s ch p in
    recorded second_write now (notification_id now incident_id) t.err
      (enqueue first now (event_of s now ch p incident_id t) o)

abbrev pub settled : Time → Option String → NotificationEvent → NotificationEvent
settled now none e = record e { status = sent; sent_at = some now }
settled now (some reason) e = record e {
  status = failed;
  last_error = reason;
  retry_count = suc e.retry_count;
}

find-append :
    (id : String) (es : List NotificationEvent) (e : NotificationEvent)
    → find id es ≡ none
    → str_eq e.notification_id id ≡ true
    → find id (append es (e ∷ [])) ≡ some e
unfolding find
find-append id [] e h same = ground (arith, same)
find-append id (x ∷ es) e h same = ground (arith, same, find-append id es e)

settle-find :
    (ok : Bool) (now : Time) (id : String) (err : Option String) (o : Outbox)
    {e : NotificationEvent}
    → find id o.events ≡ some e
    → is_pending e.status ≡ true
    → find id (settle ok now id err o).events ≡ some (settled now err e)
settle-find ok now id none o {e} h p =
    let (finished, found) = sent_loop-sends now id o.events {e = e} h p in
    ap (find id) (mark_sent-events ok now id o finished) ∙ found
settle-find ok now id (some reason) o {e} h p =
    let (finished, found) = failed_loop-fails id reason o.events {e = e} h in
    ap (find id) (mark_failed-events ok id reason o finished) ∙ found

notification_id-named :
    (now : Time) (incident_id : String) → is_blank (notification_id now incident_id) ≡ false
unfolding notification_id
notification_id-named now incident_id = ap is_blank (
    String.append.cons "n" "otif-"
      (incident_id ++ "-" ++ print_ℤ (sub_ℕ now (62_135_596_800 * second))))

abbrev pub waiting_event :
    Sender → Time → NotificationChannelConfig → NotificationPayload → String → NotificationEvent
waiting_event s now ch p incident_id = record (event_of s now ch p incident_id (trace_of s ch p)) {
  status = pending;
  created_at = now;
}

completed-event_of :
    (s : Sender) (now : Time) (ch : NotificationChannelConfig) (p : NotificationPayload)
    (incident_id : String)
    → completed now (event_of s now ch p incident_id (trace_of s ch p))
      ≡ waiting_event s now ch p incident_id
completed-event_of s now ch p incident_id = ground (arith, notification_id-named now incident_id)

find-waiting :
    (s : Sender) (now : Time) (ch : NotificationChannelConfig) (p : NotificationPayload)
    (incident_id : String) (o : Outbox)
    → find (notification_id now incident_id) o.events ≡ none
    → find
        (notification_id now incident_id)
        (append o.events (completed now (event_of s now ch p incident_id (trace_of s ch p)) ∷ []))
      ≡ some (waiting_event s now ch p incident_id)
find-waiting s now ch p incident_id o new =
    let id = notification_id now incident_id in
    let w = waiting_event s now ch p incident_id in
    subst (λ e. find id (append o.events (e ∷ [])) ≡ some w)
      (sym (completed-event_of s now ch p incident_id))
      (find-append id o.events w new (str_eq_refl id))

-- Where the outbox has no event with the identifier, it has one after the sending. If its first write
-- succeeded, the event says sent exactly if the sending went well, and failed with the error
-- otherwise, whether or not the second write succeeds. If the first write failed, the event waits as
-- pending, also where the notification was sent.
pub send_to_channel-find :
    (s : Sender) (first second_write : Bool) (now : Time) (ch : NotificationChannelConfig)
    (p : NotificationPayload) (incident_id : String) (o : Outbox)
    → find (notification_id now incident_id) o.events ≡ none
    → find
        (notification_id now incident_id)
        (send_to_channel s first second_write now ch p incident_id o).events
      ≡ some (
          let waiting = waiting_event s now ch p incident_id in
          if first then settled now (trace_of s ch p).err waiting else waiting)
unfolding send_to_channel enqueue
send_to_channel-find s true second_write now ch p incident_id o new =
    let e = completed now (event_of s now ch p incident_id (trace_of s ch p)) in
    settle-find second_write now (notification_id now incident_id) (trace_of s ch p).err
      (enqueue true now (event_of s now ch p incident_id (trace_of s ch p)) o).0
      {e = waiting_event s now ch p incident_id} (find-waiting s now ch p incident_id o new) refl
send_to_channel-find s false second_write now ch p incident_id o new =
    find-waiting s now ch p incident_id o new
