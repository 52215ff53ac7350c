-- ===== src/Scenarios/Notices.antt =====
-- Two notifications of one incident, and a batch with one incident twice: notify/outbox.go and
-- notify/dispatcher.go.
use healthops.Prelude.{not, str_eq, true, false, none, some, [], ◌∷◌, ◌≡◌, refl, String, ℤ, pos}
use healthops.Types.{Time}
use healthops.Notify.Dispatcher.{
  Texts, NotificationChannelConfig, Tracking, PendingNotification, build_payload, flush_batch,
}
use healthops.Notify.Rounds.{Dispatcher}
use healthops.Outbox.Operations.{Outbox}
use healthops.Outbox.Delivery.{find}
use healthops.Notify.Sending.{
  Sender, trace_of, notification_id, send_to_channel, waiting_event, settled, send_to_channel-find,
}
use healthops.Notify.Digest.{DigestSender, Writing, deliver_all}
use healthops.Notify.Trail.{named, trail, flush_batch-deliver_all}
use healthops.Scenarios.Incidents.{incident, epoch}

abbrev pager : NotificationChannelConfig
pager = record {
  id = "pager";
  name = "Pager";
  type = "slack";
  enabled = true;
  severities = "critical" ∷ "warning" ∷ [];
  check_ids = [];
  check_types = [];
  servers = [];
  tags = [];
  cooldown_minutes = pos 0;
  notify_on_resolve = false;
}

abbrev waiting : PendingNotification ℤ
waiting = record { incident = incident; check_result = none; check_channel_ids = [] }

abbrev fresh : Tracking
fresh = record { cooldowns = []; notified = ("web-0:email", true) ∷ [] }

abbrev show_time : Time → String
show_time t = "1970-01-01T00:00:00Z"

abbrev idle : Dispatcher ℤ
idle = record { tracking = fresh; pending_batch = []; timer_is_set = false }

abbrev chat : NotificationChannelConfig
chat = record pager { id = "chat"; name = "Chat" }

abbrev gateway : Sender
gateway = record {
  send = λ ch p. record { request_body = "{}"; err = none };
  marshal = λ p. p.incident_id;
}

abbrev digests : DigestSender
digests = record { send = λ ch ps. record { request_body = ""; err = none }; marshal = λ ps. "[]" }

abbrev empty : Outbox
empty = record { events = []; file = [] }

abbrev texts : Texts
texts = record { equal_fold = str_eq; format_time = show_time }

-- The second write of the pager fails.
abbrev writing : String → Writing
writing id = record { first = true; second_write = not (str_eq id "pager"); now = epoch }

send_to_channel-find_example :
    find
      (notification_id epoch "inc-1")
      (send_to_channel gateway true false epoch pager
        (build_payload show_time incident "open")
        "inc-1"
        empty).events
    ≡ some (
        let w =
          waiting_event gateway epoch pager (build_payload show_time incident "open") "inc-1" in
        settled epoch (trace_of gateway pager (build_payload show_time incident "open")).err w)
unfolding find
send_to_channel-find_example =
    send_to_channel-find gateway true false epoch pager (build_payload show_time incident "open")
      "inc-1" empty refl

flush_batch-deliver_all_example :
    let f = flush_batch texts epoch (waiting ∷ waiting ∷ []) (chat ∷ pager ∷ []) fresh in
    let batches = f.channel_batches in
    named (deliver_all gateway digests writing batches empty).events ≡ trail batches
flush_batch-deliver_all_example =
    flush_batch-deliver_all gateway digests writing texts epoch (waiting ∷ waiting ∷ [])
      (chat ∷ pager ∷ []) fresh empty
