-- ===== src/Outbox/Operations.antt =====
-- FileNotificationOutbox of backend/internal/monitoring/notify/outbox.go. Each operation takes the
-- time it reads and, if it writes the file, whether the write succeeds. `contains` stands for
-- strings.Contains.
use Prim.Native.String.{◌++◌}
use healthops.Prelude.{
  ℕ, suc, ◌*◌, String, Bool, true, false, not, ◌&&◌, Option, some, List, [], ◌∷◌,
  ◌++◌ as append_list, if◌then◌else◌, str_eq, is_blank, ℤ, sub_ℕ, print_ℤ, positive_or, select,
  take,
}
use mathlib.Core.List.{reverse}
use healthops.Types.{Time, second, before, is_zero}
use healthops.Storage.{append, rewrite}

-- The three texts that the code writes, and any other.
pub data DeliveryStatus : Type 0 where
  pending sent failed : DeliveryStatus
  other_status : String → DeliveryStatus

abbrev pub is_pending : DeliveryStatus → Bool
is_pending pending = true
is_pending sent = false
is_pending failed = false
is_pending (other_status s) = false

abbrev status_text : DeliveryStatus → String
status_text pending = "pending"
status_text sent = "sent"
status_text failed = "failed"
status_text (other_status s) = s

abbrev status_or_pending : DeliveryStatus → DeliveryStatus
status_or_pending (other_status s) = if is_blank s then pending else other_status s
status_or_pending pending = pending
status_or_pending sent = sent
status_or_pending failed = failed

-- The details of the HTTP delivery are written elsewhere.
pub record NotificationEvent : Type 0 where
  pub notification_id : String
  pub incident_id : String
  pub channel : String
  pub payload_json : String
  pub status : DeliveryStatus
  pub retry_count : ℕ
  pub last_error : String
  pub created_at : Time
  pub sent_at : Option Time

pub record Outbox : Type 0 where
  pub events : List NotificationEvent
  pub file : List NotificationEvent

pub data Outcome : Type 0 where
  done not_found not_pending write_failed : Outcome

abbrev outcome : Bool → Outcome
outcome true = done
outcome false = write_failed

-- What Enqueue stores: an identifier, a status and a time where they are missing.
abbrev pub completed : Time → NotificationEvent → NotificationEvent
completed now e = record e {
  notification_id =
      if is_blank e.notification_id
      then "notif-" ++ e.incident_id ++ "-" ++ print_ℤ (sub_ℕ now (62_135_596_800 * second))
      else e.notification_id;
  status = status_or_pending e.status;
  created_at = if is_zero e.created_at then now else e.created_at;
}

unfoldable pub enqueue : Bool → Time → NotificationEvent → Outbox → Outbox × Outcome
unfolding print_ℤ
enqueue ok now e o =
    let written = append ok (completed now e) o.file in
    (
      record { events = append_list o.events (completed now e ∷ []); file = written.0 },
      outcome written.1,
    )

unfoldable pub list_pending : ℤ → Outbox → List NotificationEvent
list_pending limit o = take (positive_or 100 limit) (select (λ e. is_pending e.status) o.events)

abbrev is_listed : (String → String → Bool) → String → String → NotificationEvent → Bool
is_listed contains status channel e =
    (if is_blank status then true else str_eq (status_text e.status) status)
    && (if is_blank channel then true else contains e.channel channel)

-- The newest first.
unfoldable pub list_all :
    (String → String → Bool) → ℤ → String → String → Outbox → List NotificationEvent
list_all contains limit status channel o =
    take (positive_or 100 limit) (select (is_listed contains status channel) (reverse o.events))

-- MarkSent's loop: the first event with the identifier is written if it is pending.
unfoldable pub mark_sent_loop :
    Time → String → List NotificationEvent → List NotificationEvent × Outcome
mark_sent_loop now id [] = ([], not_found)
mark_sent_loop now id (e ∷ es) =
    let rest = mark_sent_loop now id es in
    if str_eq e.notification_id id
    then (if is_pending e.status
        then (record e { status = sent; sent_at = some now } ∷ es, done)
        else (e ∷ es, not_pending))
    else (e ∷ rest.0, rest.1)

-- MarkFailed's loop, which asks for no status.
unfoldable pub mark_failed_loop :
    String → String → List NotificationEvent → List NotificationEvent × Outcome
mark_failed_loop reason id [] = ([], not_found)
mark_failed_loop reason id (e ∷ es) =
    let rest = mark_failed_loop reason id es in
    if str_eq e.notification_id id
    then (
      record e { status = failed; last_error = reason; retry_count = suc e.retry_count } ∷ es,
      done,
    )
    else (e ∷ rest.0, rest.1)

-- The file is rewritten where the loop has found its event.
abbrev saved : Bool → List NotificationEvent × Outcome → Outbox → Outbox × Outcome
saved ok (es, done) o =
    let written = rewrite ok es o.file in
    (record { events = es; file = written.0 }, outcome written.1)
saved ok (es, not_found) o = (o, not_found)
saved ok (es, not_pending) o = (o, not_pending)
saved ok (es, write_failed) o = (o, write_failed)

unfoldable pub mark_sent : Bool → Time → String → Outbox → Outbox × Outcome
unfolding mark_sent_loop
mark_sent ok now id o = saved ok (mark_sent_loop now id o.events) o

unfoldable pub mark_failed : Bool → String → String → Outbox → Outbox × Outcome
unfolding mark_failed_loop
mark_failed ok id reason o = saved ok (mark_failed_loop reason id o.events) o

unfoldable pub prune_before : Bool → Time → Outbox → Outbox × Outcome
prune_before ok cutoff o =
    let kept = select (λ e. not (before e.created_at cutoff)) o.events in
    let written = rewrite ok kept o.file in
    (record { events = kept; file = written.0 }, outcome written.1)
