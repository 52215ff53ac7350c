-- ===== src/Notify/Digest.antt =====
-- sendDigest of backend/internal/monitoring/notify/dispatcher.go, and how flushBatch gives each
-- channel its batch. The goroutines of the batches run one after the other, in the order of the
-- map. What is sent to PagerDuty for a digest is not followed, since nothing is done with it.
use Prim.Native.String.{◌++◌}
use healthops.Prelude.{
  ◌*◌, String, Bool, Option, none, some, List, [], ◌∷◌, map, str_eq, text_or, print_ℤ, sub_ℕ,
  if◌then◌else◌,
}
use healthops.Prelude.Maps.{Map}
use healthops.Types.{Time, second, Incident}
use healthops.Outbox.Operations.{DeliveryStatus, sent, failed, NotificationEvent, Outbox, enqueue}
use healthops.Notify.Dispatcher.{NotificationChannelConfig, NotificationPayload, ChannelBatch}
use healthops.Notify.Sending.{Trace, Sender, is_supported, or_blank, send_to_channel}

pub record DigestSender : Type 0 where
  pub send : NotificationChannelConfig → List NotificationPayload → Trace
  pub marshal : List NotificationPayload → String

-- strings.Join(ids, ",")
unfoldable pub join : List String → String
join [] = ""
join (s ∷ []) = s
join (s ∷ t ∷ ss) = s ++ "," ++ join (t ∷ ss)

unfoldable pub digest_trace_of :
    DigestSender → NotificationChannelConfig → List NotificationPayload → Trace
digest_trace_of s ch ps =
    if is_supported ch.type
    then s.send ch ps
    else record { request_body = ""; err = some ("unsupported channel type: " ++ ch.type) }

abbrev digest_status : Option String → DeliveryStatus
digest_status none = sent
digest_status (some reason) = failed

abbrev digest_sent_at : Time → Option String → Option Time
digest_sent_at now none = some now
digest_sent_at now (some reason) = none

unfoldable pub digest_event_of :
    DigestSender
    → Time
    → NotificationChannelConfig
    → List NotificationPayload
    → Trace
    → NotificationEvent
unfolding print_ℤ
digest_event_of s now ch ps t = record {
  notification_id = "notif-digest-" ++ print_ℤ (sub_ℕ now (62_135_596_800 * second));
  incident_id = join (map (λ p. p.incident_id) ps);
  channel = ch.type ++ ":" ++ ch.name;
  payload_json = text_or t.request_body (s.marshal ps);
  status = digest_status t.err;
  retry_count = 0;
  last_error = or_blank t.err;
  created_at = now;
  sent_at = digest_sent_at now t.err;
}

unfoldable pub send_digest :
    DigestSender
    → Bool
    → Time
    → NotificationChannelConfig
    → List NotificationPayload
    → Outbox
    → Outbox
send_digest s ok now ch ps o =
    if str_eq ch.type "pagerduty"
    then o
    else (enqueue ok now (digest_event_of s now ch ps (digest_trace_of s ch ps)) o).0

-- What a goroutine meets: the outcomes of its two writes and its clock.
pub record Writing : Type 0 where
  pub first : Bool
  pub second_write : Bool
  pub now : Time

module _ (s : Sender) (digests : DigestSender) where
  -- A single payload without an incident is the panic that the goroutine recovers.
  abbrev pub deliver_to :
      Writing
      → NotificationChannelConfig
      → List NotificationPayload
      → List Incident
      → Outbox
      → Outbox
  deliver_to w ch (p ∷ []) (i ∷ is) o = send_to_channel s w.first w.second_write w.now ch p i.id o
  deliver_to w ch (p ∷ []) [] o = o
  deliver_to w ch [] is o = send_digest digests w.first w.now ch [] o
  deliver_to w ch (p ∷ q ∷ ps) is o = send_digest digests w.first w.now ch (p ∷ q ∷ ps) o

  -- Each channel's goroutine has its own outcomes and its own clock.
  unfoldable pub deliver_all : (String → Writing) → Map ChannelBatch → Outbox → Outbox
  deliver_all w [] o = o
  deliver_all w ((channel_id, cb) ∷ more) o =
      deliver_all w more (deliver_to (w channel_id) cb.channel cb.payloads cb.incidents o)
