-- ===== src/Notify/Once.antt =====
-- How often flushBatch of backend/internal/monitoring/notify/dispatcher.go tells a channel of an
-- incident.
use healthops.Prelude.{
  ℕ, ◌+◌, ◌≤◌, String, Bool, true, false, List, [], ◌∷◌, ◌++◌, ◌≡◌, refl, sym, arith, if◌then◌else◌,
  str_eq, str_eq_iff, str_eq_refl, count, is_positive,
}
use healthops.Prelude.Maps.{Map, lookup, insert, lookup-insert}
use healthops.Types.{Time, Incident}
use healthops.Notify.Dispatcher.{
  NotificationChannelConfig, NotificationPayload, Tracking, PendingNotification, ChannelBatch,
  Flush, mark_notified, key, or_false, batch_or_new, add_to_batch, is_wanted, in_cooldown,
  record_cooldown, already_notified, build_payload, visit_channel, visit_channels, visit_batch,
  flush_batch, Texts,
}

-- The incidents of a channel's batch that have the key.
abbrev in_batch : String → String → ChannelBatch → ℕ
in_batch k channel_id cb = count (λ i. str_eq (key i.id channel_id) k) cb.incidents

-- How often the batches tell a channel of an incident, by the key of both.
abbrev pub told : String → Map ChannelBatch → ℕ
told k [] = 0
told k ((channel_id, cb) ∷ more) = in_batch k channel_id cb + told k more

-- Whether the key is remembered.
abbrev pub noted : String → Tracking → ℕ
noted k t = if or_false (lookup k t.notified) then 1 else 0

count-snoc :
    (p : Incident → Bool) (xs : List Incident) (x : Incident)
    → count p (xs ++ x ∷ []) ≡ count p xs + (if p x then 1 else 0)
count-snoc p [] x = ground arith
count-snoc p (y ∷ ys) x = ground (arith, count-snoc p ys x)

told-insert :
    (k : String) (ch : NotificationChannelConfig) (p : NotificationPayload) (i : Incident)
    (m : Map ChannelBatch)
    → told k (insert ch.id (add_to_batch p i (batch_or_new ch (lookup ch.id m))) m)
      ≡ told k m + (if str_eq (key i.id ch.id) k then 1 else 0)
unfolding lookup insert
told-insert k ch p i [] = ground arith
told-insert k ch p i ((j, cb) ∷ more) = ground (
  arith,
  str_eq_iff j ch.id,
  count-snoc (λ x. str_eq (key x.id ch.id) k) cb.incidents i,
  told-insert k ch p i more,
)

record_cooldown-noted :
    (now : Time) (ch : NotificationChannelConfig) (check_id k : String) (t : Tracking)
    → noted k (record_cooldown now ch check_id t) ≡ noted k t
unfolding record_cooldown
record_cooldown-noted now ch check_id k t = ground arith

noted-mark :
    (k incident_id channel_id : String) (t : Tracking)
    → noted k (mark_notified incident_id channel_id t)
      ≡ (if str_eq (key incident_id channel_id) k then 1 else noted k t)
noted-mark k incident_id channel_id t =
    ground (arith, lookup-insert (key incident_id channel_id) k true t.notified)

unnoted :
    (k incident_id channel_id : String) (t : Tracking)
    → already_notified incident_id channel_id t ≡ false
    → str_eq (key incident_id channel_id) k ≡ true
    → noted k t ≡ 0
unnoted k incident_id channel_id t h same =
    rw (sym ((str_eq_iff (key incident_id channel_id) k).0 same), h) refl

-- A key is told as often as it becomes remembered, and what is remembered stays.
Kept : String → Flush → Flush → Type 0
Kept k f f' =
    (told k f'.channel_batches + noted k f.tracking
      ≡ told k f.channel_batches + noted k f'.tracking)
    × (noted k f.tracking ≤ noted k f'.tracking)

Kept-trans : (k : String) (a b c : Flush) → Kept k a b → Kept k b c → Kept k a c
unfolding Kept
Kept-trans k a b c h h' = (omega (arith, h.0, h'.0), omega (arith, h.1, h'.1))

noted-le : (k : String) (t : Tracking) → noted k t ≤ 1
noted-le k t = ground arith

module _ {F : Type 0} (texts : Texts) where
  visit_channel-Kept :
      (now : Time) (k : String) (pn : PendingNotification F) (ch : NotificationChannelConfig)
      (f : Flush)
      → Kept k f (visit_channel texts now pn ch f)
  unfolding visit_channel Kept
  visit_channel-Kept now k pn ch f =
      let i = pn.incident in
      let cooled = record_cooldown now ch i.check_id f.tracking in
      ground (
        arith,
        told-insert k ch (build_payload texts.format_time i "open") i f.channel_batches,
        noted-mark k i.id ch.id cooled,
        record_cooldown-noted now ch i.check_id k f.tracking,
        unnoted k i.id ch.id f.tracking,
      )

  visit_channels-Kept :
      (now : Time) (k : String) (pn : PendingNotification F) (chs : List NotificationChannelConfig)
      (f : Flush)
      → Kept k f (visit_channels texts now pn chs f)
  unfolding visit_channels Kept
  visit_channels-Kept now k pn [] f = (refl, omega arith)
  visit_channels-Kept now k pn (ch ∷ chs) f =
      Kept-trans k f (visit_channel texts now pn ch f) (visit_channels texts now pn (ch ∷ chs) f)
        (visit_channel-Kept now k pn ch f)
        (visit_channels-Kept now k pn chs (visit_channel texts now pn ch f))

  visit_batch-Kept :
      (now : Time) (k : String) (pns : List (PendingNotification F))
      (chs : List NotificationChannelConfig) (f : Flush)
      → Kept k f (visit_batch texts now pns chs f)
  unfolding visit_batch Kept
  visit_batch-Kept now k [] chs f = (refl, omega arith)
  visit_batch-Kept now k (pn ∷ pns) chs f =
      Kept-trans k f (visit_channels texts now pn chs f) (visit_batch texts now (pn ∷ pns) chs f)
        (visit_channels-Kept now k pn chs f)
        (visit_batch-Kept now k pns chs (visit_channels texts now pn chs f))

  -- A channel that wants the incident and has no cooldown remembers it.
  visit_channel-noted :
      (now : Time) (pn : PendingNotification F) (ch : NotificationChannelConfig) (f : Flush)
      → is_wanted texts ch pn ≡ true
      → is_positive ch.cooldown_minutes ≡ false
      → noted (key pn.incident.id ch.id) (visit_channel texts now pn ch f).tracking ≡ 1
  unfolding visit_channel in_cooldown record_cooldown
  visit_channel-noted now pn ch f wanted uncooled = ground (
    arith,
    wanted,
    uncooled,
    str_eq_refl (key pn.incident.id ch.id),
    noted-mark (key pn.incident.id ch.id) pn.incident.id ch.id f.tracking,
  )

  visit_channels-noted :
      (now : Time) (pn : PendingNotification F) (chs chs' : List NotificationChannelConfig)
      (ch : NotificationChannelConfig) (f : Flush)
      → is_wanted texts ch pn ≡ true
      → is_positive ch.cooldown_minutes ≡ false
      → 1
        ≤ noted
            (key pn.incident.id ch.id)
            (visit_channels texts now pn (chs ++ ch ∷ chs') f).tracking
  unfolding visit_channels Kept
  visit_channels-noted now pn [] chs' ch f wanted uncooled = omega (
    arith,
    visit_channel-noted now pn ch f wanted uncooled,
    (visit_channels-Kept now (key pn.incident.id ch.id) pn chs'
        (visit_channel texts now pn ch f)).1,
  )
  visit_channels-noted now pn (c ∷ chs) chs' ch f wanted uncooled =
      visit_channels-noted now pn chs chs' ch (visit_channel texts now pn c f) wanted uncooled

  visit_batch-noted :
      (now : Time) (pns pns' : List (PendingNotification F)) (pn : PendingNotification F)
      (chs chs' : List NotificationChannelConfig) (ch : NotificationChannelConfig) (f : Flush)
      → is_wanted texts ch pn ≡ true
      → is_positive ch.cooldown_minutes ≡ false
      → 1
        ≤ noted
            (key pn.incident.id ch.id)
            (visit_batch texts now (pns ++ pn ∷ pns') (chs ++ ch ∷ chs') f).tracking
  unfolding visit_batch Kept
  visit_batch-noted now [] pns' pn chs chs' ch f wanted uncooled = omega (
    arith,
    visit_channels-noted now pn chs chs' ch f wanted uncooled,
    (visit_batch-Kept now (key pn.incident.id ch.id) pns' (chs ++ ch ∷ chs')
        (visit_channels texts now pn (chs ++ ch ∷ chs') f)).1,
  )
  visit_batch-noted now (p ∷ pns) pns' pn chs chs' ch f wanted uncooled =
      visit_batch-noted now pns pns' pn chs chs' ch
        (visit_channels texts now p (chs ++ ch ∷ chs') f) wanted uncooled

  -- A flush tells a channel of an incident exactly once, however often the batch holds the incident
  -- and wherever it and the channel stand, if the channel is enabled, is assigned to the check or
  -- has filters that match, has no cooldown, and was not told before.
  pub flush_batch-once :
      (now : Time) (pns pns' : List (PendingNotification F)) (pn : PendingNotification F)
      (chs chs' : List NotificationChannelConfig) (ch : NotificationChannelConfig) (t : Tracking)
      → is_wanted texts ch pn ≡ true
      → is_positive ch.cooldown_minutes ≡ false
      → already_notified pn.incident.id ch.id t ≡ false
      → told
          (key pn.incident.id ch.id)
          (flush_batch texts now (pns ++ pn ∷ pns') (chs ++ ch ∷ chs') t).channel_batches
        ≡ 1
  unfolding flush_batch Kept
  flush_batch-once now pns pns' pn chs chs' ch t wanted uncooled new =
      let k = key pn.incident.id ch.id in
      let f : Flush = record { tracking = t; channel_batches = [] } in
      let f' = visit_batch texts now (pns ++ pn ∷ pns') (chs ++ ch ∷ chs') f in
      omega (
        arith,
        (visit_batch-Kept now k (pns ++ pn ∷ pns') (chs ++ ch ∷ chs') f).0,
        visit_batch-noted now pns pns' pn chs chs' ch f wanted uncooled,
        noted-le k f'.tracking,
        unnoted k pn.incident.id ch.id t new (str_eq_refl k),
      )
