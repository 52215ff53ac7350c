-- ===== src/Notify/Dispatcher.antt =====
-- backend/internal/monitoring/notify/dispatcher.go: the filters, the cooldowns and flushBatch. The
-- clock is read once in a flush. The goroutine of each
-- channel and the sending are left out: a batch is what its goroutine gets.
use Prim.Native.String.{◌++◌}
use healthops.Prelude.{
  String, Bool, true, false, not, ◌&&◌, ◌||◌, Option, none, some, List, [], ◌∷◌, ◌++◌ as append, ℤ,
  if◌then◌else◌, any, is_nil, is_positive, mem_str, scale, sub_ℕ, ltb_ℤ,
}
use healthops.Prelude.Maps.{Map, lookup, insert}
use healthops.Types.{Time, minute, Metadata, Incident, CheckResult}

-- The fields of a channel that routing reads, and what sending writes down.
pub record NotificationChannelConfig : Type 0 where
  pub id : String
  pub name : String
  pub type : String
  pub enabled : Bool
  pub severities : List String
  pub check_ids : List String
  pub check_types : List String
  pub servers : List String
  pub tags : List String
  pub cooldown_minutes : ℤ
  pub notify_on_resolve : Bool

pub record NotificationPayload : Type 0 where
  pub incident_id : String
  pub check_id : String
  pub check_name : String
  pub check_type : String
  pub server : String
  pub severity : String
  pub status : String
  pub message : String
  pub started_at : String
  pub resolved_at : String

-- strings.EqualFold, and time.Format with RFC 3339.
pub record Texts : Type 0 where
  pub equal_fold : String → String → Bool
  pub format_time : Time → String

-- m["server"] of a map that may be nil.
abbrev pub server_entry : Metadata → Option String
server_entry none = none
server_entry (some m) = lookup "server" m

module _ (texts : Texts) where
  abbrev pub contains_str : List String → String → Bool
  contains_str xs s = any (λ item. texts.equal_fold item s) xs

  -- len(xs) > 0 && !containsStr(xs, s) refuses.
  abbrev pub admits : List String → String → Bool
  admits xs s = is_nil xs || contains_str xs s

  -- The incident's own server, for a check without a result or with another server.
  abbrev metadata_admits : Bool → List String → Option String → Bool
  metadata_admits has_result servers (some server) = contains_str servers server
  metadata_admits has_result servers none = has_result

  module _ {F : Type 0} where
    abbrev pub admits_server : List String → Metadata → Option (CheckResult F) → Bool
    admits_server servers metadata none = metadata_admits false servers (server_entry metadata)
    admits_server servers metadata (some r) =
        contains_str servers r.server || metadata_admits true servers (server_entry metadata)

    abbrev pub admits_tag : List String → Option (CheckResult F) → Bool
    admits_tag tags none = false
    admits_tag tags (some r) = any (λ tag. contains_str r.tags tag) tags

    unfoldable pub matches_filters :
        NotificationChannelConfig → Incident → Option (CheckResult F) → Bool
    matches_filters ch incident result =
        admits ch.severities incident.severity
        && admits ch.check_ids incident.check_id
        && admits ch.check_types incident.type
        && (is_nil ch.servers || admits_server ch.servers incident.metadata result)
        && (is_nil ch.tags || admits_tag ch.tags result)

-- What the dispatcher remembers.
pub record Tracking : Type 0 where
  pub cooldowns : Map Time
  pub notified : Map Bool

abbrev pub key : String → String → String
key a b = (a ++ ":") ++ b

abbrev since : Time → ℤ → Option Time → Bool
since now minutes none = false
since now minutes (some last) = ltb_ℤ (sub_ℕ now last) (scale minute minutes)

unfoldable pub in_cooldown : Time → NotificationChannelConfig → String → Tracking → Bool
in_cooldown now ch check_id t =
    is_positive ch.cooldown_minutes
    && since now ch.cooldown_minutes (lookup (key ch.id check_id) t.cooldowns)

unfoldable pub record_cooldown : Time → NotificationChannelConfig → String → Tracking → Tracking
record_cooldown now ch check_id t =
    if is_positive ch.cooldown_minutes
    then record t { cooldowns = insert (key ch.id check_id) now t.cooldowns }
    else t

abbrev pub or_false : Option Bool → Bool
or_false none = false
or_false (some b) = b

abbrev pub already_notified : String → String → Tracking → Bool
already_notified incident_id channel_id t =
    or_false (lookup (key incident_id channel_id) t.notified)

abbrev pub mark_notified : String → String → Tracking → Tracking
mark_notified incident_id channel_id t = record t {
  notified = insert (key incident_id channel_id) true t.notified;
}

-- An incident that waits for the batch.
pub record PendingNotification (F : Type 0) : Type 0 where
  pub incident : Incident
  pub check_result : Option (CheckResult F)
  pub check_channel_ids : List String

pub record ChannelBatch : Type 0 where
  pub channel : NotificationChannelConfig
  pub payloads : List NotificationPayload
  pub incidents : List Incident

-- The variables of a flush.
pub record Flush : Type 0 where
  pub tracking : Tracking
  pub channel_batches : Map ChannelBatch

abbrev or_blank : Option String → String
or_blank none = ""
or_blank (some s) = s

unfoldable pub build_payload : (Time → String) → Incident → String → NotificationPayload
build_payload format incident status = record {
  incident_id = incident.id;
  check_id = incident.check_id;
  check_name = incident.check_name;
  check_type = incident.type;
  server = or_blank (server_entry incident.metadata);
  severity = incident.severity;
  status = status;
  message = incident.message;
  started_at = format incident.started_at;
  resolved_at = "";
}

abbrev pub batch_or_new : NotificationChannelConfig → Option ChannelBatch → ChannelBatch
batch_or_new ch none = record { channel = ch; payloads = []; incidents = [] }
batch_or_new ch (some cb) = cb

abbrev pub add_to_batch : NotificationPayload → Incident → ChannelBatch → ChannelBatch
add_to_batch p incident cb = record cb {
  payloads = append cb.payloads (p ∷ []);
  incidents = append cb.incidents (incident ∷ []);
}

module _ (texts : Texts) {F : Type 0} where
  abbrev pub is_wanted : NotificationChannelConfig → PendingNotification F → Bool
  is_wanted ch pn =
      ch.enabled
      && (mem_str ch.id pn.check_channel_ids
          || matches_filters texts ch pn.incident pn.check_result)

module _ {F : Type 0} (texts : Texts) (now : Time) where
  -- The body of the loops: a channel for a pending notification.
  unfoldable pub visit_channel : PendingNotification F → NotificationChannelConfig → Flush → Flush
  unfolding in_cooldown
  visit_channel pn ch f =
      let i = pn.incident in
      if not (is_wanted texts ch pn)
        || in_cooldown now ch i.check_id f.tracking
        || already_notified i.id ch.id f.tracking
      then f
      else record {
        tracking = mark_notified i.id ch.id (record_cooldown now ch i.check_id f.tracking);
        channel_batches =
            insert ch.id
              (add_to_batch (build_payload texts.format_time i "open") i
                (batch_or_new ch (lookup ch.id f.channel_batches)))
              f.channel_batches;
      }

  unfoldable pub visit_channels :
      PendingNotification F → List NotificationChannelConfig → Flush → Flush
  visit_channels pn [] f = f
  visit_channels pn (ch ∷ chs) f = visit_channels pn chs (visit_channel pn ch f)

  unfoldable pub visit_batch :
      List (PendingNotification F) → List NotificationChannelConfig → Flush → Flush
  visit_batch [] chs f = f
  visit_batch (pn ∷ pns) chs f = visit_batch pns chs (visit_channels pn chs f)

  unfoldable pub flush_batch :
      List (PendingNotification F) → List NotificationChannelConfig → Tracking → Flush
  flush_batch batch chs t = visit_batch batch chs (record { tracking = t; channel_batches = [] })
