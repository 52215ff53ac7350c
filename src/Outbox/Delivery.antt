-- ===== src/Outbox/Delivery.antt =====
-- The life of one notification in backend/internal/monitoring/notify/outbox.go.
use healthops.Prelude.{
  suc, String, Bool, true, false, Option, none, some, List, [], ◌∷◌, ◌≡◌, refl, arith, str_eq,
  str_eq_iff, if◌then◌else◌,
}
use healthops.Types.{Time}
use healthops.Outbox.Operations.{
  NotificationEvent, Outbox, sent, failed, is_pending, done, not_pending, mark_sent_loop,
  mark_failed_loop, mark_sent, mark_failed,
}

-- The event that the operations on an identifier see.
unfoldable pub find : String → List NotificationEvent → Option NotificationEvent
find id [] = none
find id (e ∷ es) = if str_eq e.notification_id id then some e else find id es

sent_loop-refuses :
    (now : Time) (id : String) (es : List NotificationEvent) {e : NotificationEvent}
    → find id es ≡ some e
    → is_pending e.status ≡ false
    → (mark_sent_loop now id es).1 ≡ not_pending
unfolding mark_sent_loop find
sent_loop-refuses now id [] h k = cc
sent_loop-refuses now id (x ∷ es) {e} h k = ground (arith, sent_loop-refuses now id es {e = e})

pub sent_loop-sends :
    (now : Time) (id : String) (es : List NotificationEvent) {e : NotificationEvent}
    → find id es ≡ some e
    → is_pending e.status ≡ true
    → ((mark_sent_loop now id es).1 ≡ done)
      × (find id (mark_sent_loop now id es).0
          ≡ some (record e { status = sent; sent_at = some now }))
unfolding mark_sent_loop find
sent_loop-sends now id [] h k = cc
sent_loop-sends now id (x ∷ es) {e} h k = ground (arith, sent_loop-sends now id es {e = e})

pub failed_loop-fails :
    (id reason : String) (es : List NotificationEvent) {e : NotificationEvent}
    → find id es ≡ some e
    → ((mark_failed_loop reason id es).1 ≡ done)
      × (find id (mark_failed_loop reason id es).0
          ≡ some
              (record e { status = failed; last_error = reason; retry_count = suc e.retry_count }))
unfolding mark_failed_loop find
failed_loop-fails id reason [] h = cc
failed_loop-fails id reason (x ∷ es) {e} h = ground (arith, failed_loop-fails id reason es {e = e})

mark_sent-refuses :
    (ok : Bool) (now : Time) (id : String) (o : Outbox) {e : NotificationEvent}
    → find id o.events ≡ some e
    → is_pending e.status ≡ false
    → mark_sent ok now id o ≡ (o, not_pending)
unfolding mark_sent
mark_sent-refuses ok now id o {e} h k =
    ground (arith, sent_loop-refuses now id o.events {e = e} h k)

pub mark_sent-events :
    (ok : Bool) (now : Time) (id : String) (o : Outbox)
    → (mark_sent_loop now id o.events).1 ≡ done
    → (mark_sent ok now id o).0.events ≡ (mark_sent_loop now id o.events).0
unfolding mark_sent
mark_sent-events ok now id o h = ground (arith, h)

pub mark_failed-events :
    (ok : Bool) (id reason : String) (o : Outbox)
    → (mark_failed_loop reason id o.events).1 ≡ done
    → (mark_failed ok id reason o).0.events ≡ (mark_failed_loop reason id o.events).0
unfolding mark_failed
mark_failed-events ok id reason o h = ground (arith, h)

-- A pending notification that is marked as sent, or as failed, is not marked as sent again: that
-- is an error and changes nothing, whether or not the file could be written.
mark_sent-once :
    (a b c : Bool) (now later : Time) (id reason : String) (o : Outbox) {e : NotificationEvent}
    → find id o.events ≡ some e
    → is_pending e.status ≡ true
    → let after_sent = (mark_sent a now id o).0 in
      let after_failed = (mark_failed b id reason o).0 in
      (mark_sent c later id after_sent ≡ (after_sent, not_pending))
      × (mark_sent c later id after_failed ≡ (after_failed, not_pending))
mark_sent-once a b c now later id reason o {e} h k =
    let s = sent_loop-sends now id o.events h k in
    let f = failed_loop-fails id reason o.events h in
    (
      mark_sent-refuses c later id (mark_sent a now id o).0
          {e = record e { status = sent; sent_at = some now }}
          (rw (mark_sent-events a now id o s.0) s.1) refl,
      mark_sent-refuses c later id (mark_failed b id reason o).0
          {e = record e { status = failed; last_error = reason; retry_count = suc e.retry_count }}
          (rw (mark_failed-events b id reason o f.0) f.1) refl,
    )

sent_loop-other :
    (now : Time) (id other : String) (es : List NotificationEvent)
    → str_eq id other ≡ false
    → find other (mark_sent_loop now id es).0 ≡ find other es
unfolding mark_sent_loop find
sent_loop-other now id other [] h = refl
sent_loop-other now id other (x ∷ es) h = ground (
  arith,
  sent_loop-other now id other es h,
  str_eq_iff x.notification_id id,
  str_eq_iff x.notification_id other,
)

failed_loop-other :
    (id other reason : String) (es : List NotificationEvent)
    → str_eq id other ≡ false
    → find other (mark_failed_loop reason id es).0 ≡ find other es
unfolding mark_failed_loop find
failed_loop-other id other reason [] h = refl
failed_loop-other id other reason (x ∷ es) h = ground (
  arith,
  failed_loop-other id other reason es h,
  str_eq_iff x.notification_id id,
  str_eq_iff x.notification_id other,
)

-- To mark a notification as sent or as failed changes no notification with another identifier.
mark-other :
    (ok : Bool) (now : Time) (id other reason : String) (o : Outbox)
    → str_eq id other ≡ false
    → (find other (mark_sent ok now id o).0.events ≡ find other o.events)
      × (find other (mark_failed ok id reason o).0.events ≡ find other o.events)
unfolding mark_sent mark_failed
mark-other ok now id other reason o h =
    ground
      (arith, sent_loop-other now id other o.events h, failed_loop-other id other reason o.events h)
