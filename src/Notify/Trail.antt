-- ===== src/Notify/Trail.antt =====
-- The trail that a flush of backend/internal/monitoring/notify/dispatcher.go leaves in the outbox.
use mathlib.Core.List.{map-append, append-nil, append_assoc}
use healthops.Prelude.{
  String, Bool, true, false, not, Option, none, some, List, [], ◌∷◌, ◌++◌, ◌≡◌, refl, sym, ap, ◌∙◌,
  map, arith, str_eq, is_nil, length, ◌==◌, All, ◌&&◌, inl, inr, Bool-cases, if◌then◌else◌,
}
use healthops.Prelude.Maps.{Map, lookup, insert}
use healthops.Types.{Time, Incident}
use healthops.Outbox.Operations.{
  NotificationEvent, Outbox, completed, enqueue, mark_sent, mark_failed, mark_sent_loop,
  mark_failed_loop,
}
use healthops.Notify.Dispatcher.{
  NotificationChannelConfig, NotificationPayload, PendingNotification, ChannelBatch, Flush,
  Tracking, build_payload, batch_or_new, add_to_batch, visit_channel, visit_channels, visit_batch,
  flush_batch, Texts,
}
use healthops.Notify.Sending.{Sender, event_of, settle, send_to_channel, trace_of, notification_id}
use healthops.Notify.Digest.{
  DigestSender, Writing, join, digest_trace_of, digest_event_of, send_digest, deliver_to,
  deliver_all,
}

-- The incidents that the events of an outbox name.
abbrev pub named : List NotificationEvent → List String
named es = map (λ e. e.incident_id) es

abbrev pub is_pagerduty_digest : ChannelBatch → Bool
is_pagerduty_digest cb = not (length cb.incidents == 1) && str_eq cb.channel.type "pagerduty"

-- One entry for each channel, but for a digest to PagerDuty.
abbrev pub trail : Map ChannelBatch → List String
trail [] = []
trail ((k, cb) ∷ more) =
    if is_pagerduty_digest cb then trail more else join (map (λ i. i.id) cb.incidents) ∷ trail more

mark_sent_loop-named :
    (now : Time) (id : String) (es : List NotificationEvent)
    → named (mark_sent_loop now id es).0 ≡ named es
unfolding mark_sent_loop
mark_sent_loop-named now id [] = refl
mark_sent_loop-named now id (e ∷ es) = ground (arith, mark_sent_loop-named now id es)

mark_failed_loop-named :
    (id reason : String) (es : List NotificationEvent)
    → named (mark_failed_loop reason id es).0 ≡ named es
unfolding mark_failed_loop
mark_failed_loop-named id reason [] = refl
mark_failed_loop-named id reason (e ∷ es) = ground (arith, mark_failed_loop-named id reason es)

settle-named :
    (ok : Bool) (now : Time) (id : String) (err : Option String) (o : Outbox)
    → named (settle ok now id err o).events ≡ named o.events
unfolding mark_sent mark_failed
settle-named ok now id none o = ground (arith, mark_sent_loop-named now id o.events)
settle-named ok now id (some reason) o = ground (arith, mark_failed_loop-named id reason o.events)

-- What a flush keeps for each channel: one payload for each incident, and at least one.
IsBatch : (Time → String) → String × ChannelBatch → Type 0
IsBatch format (k, cb) =
    (cb.payloads ≡ map (λ i. build_payload format i "open") cb.incidents)
    × (is_nil cb.incidents ≡ false)

is_nil-snoc : (is : List Incident) (i : Incident) → is_nil (is ++ i ∷ []) ≡ false
is_nil-snoc [] i = refl
is_nil-snoc (j ∷ is) i = refl

batch_or_new-parallel :
    (format : Time → String) (ch : NotificationChannelConfig) (k : String) (m : Map ChannelBatch)
    → All (IsBatch format) m
    → (batch_or_new ch (lookup k m)).payloads
      ≡ map (λ i. build_payload format i "open") (batch_or_new ch (lookup k m)).incidents
unfolding IsBatch lookup
batch_or_new-parallel format ch k [] h = refl
batch_or_new-parallel format ch k ((j, cb) ∷ m) ((parallel, _), more) =
    elim (Bool-cases (str_eq j k)) [
      | inl same ↦ rw same parallel
      | inr other ↦ rw other (batch_or_new-parallel format ch k m more)
    ]

add_to_batch-IsBatch :
    (format : Time → String) (k : String) (i : Incident) (cb : ChannelBatch)
    → cb.payloads ≡ map (λ x. build_payload format x "open") cb.incidents
    → IsBatch format (k, add_to_batch (build_payload format i "open") i cb)
unfolding IsBatch
add_to_batch-IsBatch format k i cb parallel =
    let payload : Incident → NotificationPayload = λ x. build_payload format x "open" in
    (
      ap (λ ps. ps ++ payload i ∷ []) parallel ∙ sym (map-append payload cb.incidents (i ∷ [])),
      is_nil-snoc cb.incidents i,
    )

insert-IsBatch :
    (format : Time → String) (k : String) (new : ChannelBatch) (m : Map ChannelBatch)
    → IsBatch format (k, new)
    → All (IsBatch format) m
    → All (IsBatch format) (insert k new m)
unfolding IsBatch insert
insert-IsBatch format k new [] h hs = (h, tt)
insert-IsBatch format k new ((j, cb) ∷ m) h (old, more) = elim (Bool-cases (str_eq j k)) [
  | inl same ↦ rw same (h, more)
  | inr other ↦ rw other (old, insert-IsBatch format k new m h more)
]

module _ {F : Type 0} (texts : Texts) where
  visit_channel-IsBatch :
      (now : Time) (pn : PendingNotification F) (ch : NotificationChannelConfig) (f : Flush)
      → All (IsBatch texts.format_time) f.channel_batches
      → All (IsBatch texts.format_time) (visit_channel texts now pn ch f).channel_batches
  unfolding visit_channel
  visit_channel-IsBatch now pn ch f h =
      let old = batch_or_new ch (lookup ch.id f.channel_batches) in
      let new = add_to_batch (build_payload texts.format_time pn.incident "open") pn.incident old in
      ground (
        arith,
        h,
        insert-IsBatch texts.format_time ch.id new f.channel_batches
            (add_to_batch-IsBatch texts.format_time ch.id pn.incident old
              (batch_or_new-parallel texts.format_time ch ch.id f.channel_batches h))
            h,
      )

  visit_channels-IsBatch :
      (now : Time) (pn : PendingNotification F) (chs : List NotificationChannelConfig) (f : Flush)
      → All (IsBatch texts.format_time) f.channel_batches
      → All (IsBatch texts.format_time) (visit_channels texts now pn chs f).channel_batches
  unfolding visit_channels
  visit_channels-IsBatch now pn [] f h = h
  visit_channels-IsBatch now pn (ch ∷ chs) f h =
      visit_channels-IsBatch now pn chs (visit_channel texts now pn ch f)
        (visit_channel-IsBatch now pn ch f h)

  visit_batch-IsBatch :
      (now : Time) (pns : List (PendingNotification F)) (chs : List NotificationChannelConfig)
      (f : Flush)
      → All (IsBatch texts.format_time) f.channel_batches
      → All (IsBatch texts.format_time) (visit_batch texts now pns chs f).channel_batches
  unfolding visit_batch
  visit_batch-IsBatch now [] chs f h = h
  visit_batch-IsBatch now (pn ∷ pns) chs f h =
      visit_batch-IsBatch now pns chs (visit_channels texts now pn chs f)
        (visit_channels-IsBatch now pn chs f h)

payloads-ids :
    (format : Time → String) (is : List Incident)
    → map (λ p. p.incident_id) (map (λ i. build_payload format i "open") is) ≡ map (λ i. i.id) is
unfolding build_payload
payloads-ids format [] = refl
payloads-ids format (i ∷ is) = ap (λ ids. i.id ∷ ids) (payloads-ids format is)

enqueue-named :
    (ok : Bool) (now : Time) (e : NotificationEvent) (o : Outbox)
    → named (enqueue ok now e o).0.events ≡ named o.events ++ e.incident_id ∷ []
unfolding enqueue
enqueue-named ok now e o = map-append (λ x. x.incident_id) o.events (completed now e ∷ [])

module _ (s : Sender) (digests : DigestSender) (first second_write : Bool) (now : Time) where
  send_to_channel-named :
      (ok : Bool) (ch : NotificationChannelConfig) (p : NotificationPayload) (id : String)
      (o : Outbox)
      → named (send_to_channel s ok second_write now ch p id o).events ≡ named o.events ++ id ∷ []
  unfolding send_to_channel enqueue
  send_to_channel-named true ch p id o =
      let e = event_of s now ch p id (trace_of s ch p) in
      settle-named second_write now (notification_id now id) (trace_of s ch p).err
        (enqueue true now e o).0
      ∙ enqueue-named true now e o
  send_to_channel-named false ch p id o =
      enqueue-named false now (event_of s now ch p id (trace_of s ch p)) o

  send_digest-named :
      (ch : NotificationChannelConfig) (ps : List NotificationPayload) (o : Outbox)
      → named (send_digest digests first now ch ps o).events ≡ (
          if str_eq ch.type "pagerduty"
          then named o.events
          else named o.events ++ join (map (λ p. p.incident_id) ps) ∷ [])
  unfolding send_digest digest_event_of
  send_digest-named ch ps o =
      let e = digest_event_of digests now ch ps (digest_trace_of digests ch ps) in
      elim (Bool-cases (str_eq ch.type "pagerduty")) [
        | inl skipped ↦ rw skipped refl
        | inr kept ↦ rw kept (enqueue-named first now e o)
      ]

module _ (s : Sender) (digests : DigestSender) where
  deliver_to-named :
      (w : Writing) (format : Time → String) (k : String) (ch : NotificationChannelConfig)
      (ps : List NotificationPayload) (is : List Incident) (o : Outbox)
      → IsBatch format (k, record { channel = ch; payloads = ps; incidents = is })
      → named (deliver_to s digests w ch ps is o).events
        ≡ named o.events ++ trail ((k, record { channel = ch; payloads = ps; incidents = is }) ∷ [])
  unfolding IsBatch join
  deliver_to-named w format k ch ps [] o (e, f) = cc
  deliver_to-named w format k ch ps (i ∷ []) o (e, f) = rw e (
      send_to_channel-named s digests w.first w.second_write w.now w.first ch
        (build_payload format i "open") i.id o)
  deliver_to-named w format k ch ps (i ∷ j ∷ is) o (e, f) =
      let ps' = map (λ x. build_payload format x "open") (i ∷ j ∷ is) in
      rw e (
        send_digest-named s digests w.first w.second_write w.now ch ps' o
        ∙ rw (ap join (payloads-ids format (i ∷ j ∷ is)))
            (ground (arith, append-nil (named o.events))))

  deliver_all-named :
      (w : String → Writing) (format : Time → String) (m : Map ChannelBatch) (o : Outbox)
      → All (IsBatch format) m
      → named (deliver_all s digests w m o).events ≡ named o.events ++ trail m
  unfolding deliver_all
  deliver_all-named w format [] o h = sym (append-nil (named o.events))
  deliver_all-named w format ((k, cb) ∷ more) o (h, hs) =
      deliver_all-named w format more
        (deliver_to s digests (w k) cb.channel cb.payloads cb.incidents o) hs
      ∙ ap (λ ids. ids ++ trail more)
          (deliver_to-named (w k) format k cb.channel cb.payloads cb.incidents o h)
      ∙ append_assoc (named o.events) (trail ((k, cb) ∷ [])) (trail more)
      ∙ ap (λ ids. named o.events ++ ids) (ground arith)

  -- Whatever is sent, and whichever writes of whichever channel fail, a flush adds to the outbox one
  -- event for each channel that it tells of incidents, and the event names all of them, but nothing
  -- for a channel of PagerDuty that it tells of several.
  pub flush_batch-deliver_all :
      {F : Type 0} (w : String → Writing) (texts : Texts) (at : Time)
      (batch : List (PendingNotification F)) (chs : List NotificationChannelConfig) (t : Tracking)
      (o : Outbox)
      → let batches = (flush_batch texts at batch chs t).channel_batches in
        named (deliver_all s digests w batches o).events ≡ named o.events ++ trail batches
  unfolding flush_batch
  flush_batch-deliver_all w texts at batch chs t o =
      deliver_all-named w texts.format_time (flush_batch texts at batch chs t).channel_batches o
        (visit_batch-IsBatch texts at batch chs (record { tracking = t; channel_batches = [] }) tt)
