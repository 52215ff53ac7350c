-- ===== src/Notify/Rounds.antt =====
-- The dispatcher's calls of backend/internal/monitoring/notify/dispatcher.go around a flush: the
-- batch and its timer, ClearIncident, NotifyResolved and CleanupStaleTracking. The store of channels
-- is its list, which each call reads. NotifyResolved answers what its goroutines send.
use Prim.Native.String.{◌++◌}
use text.Mathlib.Text.{starts_with}
use text.Mathlib.TextPositions.{starts_with-append}
use mathlib.Core.List.{append-nil, append_assoc}
use healthops.Prelude.{
  ◌-◌, String, Bool, true, false, ◌&&◌, ◌||◌, Option, none, some, List, [], ◌∷◌, ◌++◌ as append,
  ◌≡◌, refl, sym, ap, subst, ◌∙◌, arith, inl, inr, Bool-cases, str_eq, str_eq_iff, is_nil, length,
  ltb, is_positive, if◌then◌else◌,
}
use healthops.Prelude.Maps.{Map, lookup, delete_values}
use healthops.Types.{Time, before, day, Incident}
use healthops.Notify.Dispatcher.{
  NotificationChannelConfig, NotificationPayload, Tracking, PendingNotification, Flush, key,
  or_false, already_notified, is_wanted, build_payload, flush_batch, Texts,
}
use healthops.Notify.Once.{told, flush_batch-once}

pub record Dispatcher (F : Type 0) : Type 0 where
  pub tracking : Tracking
  pub pending_batch : List (PendingNotification F)
  pub timer_is_set : Bool

-- The entries of the map whose key begins so go.
abbrev delete_keys : String → Map Bool → Map Bool
delete_keys prefix [] = []
delete_keys prefix ((k, b) ∷ m) =
    if starts_with k prefix then delete_keys prefix m else (k, b) ∷ delete_keys prefix m

unfoldable pub clear_incident : String → Tracking → Tracking
clear_incident id t = record t { notified = delete_keys (id ++ ":") t.notified }

unfoldable pub cleanup_stale_tracking : Time → Tracking → Tracking
cleanup_stale_tracking now t = record {
  cooldowns = delete_values (λ last. before last (now - day)) t.cooldowns;
  notified = if ltb 10_000 (length t.notified) then [] else t.notified;
}

abbrev resolved_time : (Time → String) → Option Time → String
resolved_time format none = ""
resolved_time format (some t) = format t

abbrev resolved_payload : (Time → String) → Incident → NotificationPayload
resolved_payload format i = record (build_payload format i "resolved") {
  resolved_at = resolved_time format i.resolved_at;
}

module _ {F : Type 0} (texts : Texts) where
  unfoldable pub notify_incident :
      List NotificationChannelConfig → PendingNotification F → Dispatcher F → Dispatcher F
  notify_incident chs pn d =
      if is_nil chs
      then d
      else record d { pending_batch = append d.pending_batch (pn ∷ []); timer_is_set = true }

  -- flushBatch, when the timer fires or Stop calls it. Without channels the batch is dropped.
  unfoldable pub flush_pending :
      Time → List NotificationChannelConfig → Dispatcher F → Dispatcher F × Flush
  flush_pending now chs d =
      let emptied : Tracking → Dispatcher F =
        λ t. record { tracking = t; pending_batch = []; timer_is_set = false } in
      if is_nil d.pending_batch || is_nil chs
      then (emptied d.tracking, record { tracking = d.tracking; channel_batches = [] })
      else let f = flush_batch texts now d.pending_batch chs d.tracking in (emptied f.tracking, f)

  abbrev resolved_to :
      PendingNotification F
      → List NotificationChannelConfig
      → List (NotificationChannelConfig × NotificationPayload)
  resolved_to pn [] = []
  resolved_to pn (ch ∷ chs) =
      if is_wanted texts ch pn && ch.notify_on_resolve
      then (ch, resolved_payload texts.format_time pn.incident) ∷ resolved_to pn chs
      else resolved_to pn chs

  unfoldable pub notify_resolved :
      List NotificationChannelConfig
      → PendingNotification F
      → Dispatcher F
      → Dispatcher F × List (NotificationChannelConfig × NotificationPayload)
  notify_resolved chs pn d =
      (record d { tracking = clear_incident pn.incident.id d.tracking }, resolved_to pn chs)

  -- The calls of NotifyIncident between two flushes.
  abbrev pub notify_all :
      List NotificationChannelConfig → List (PendingNotification F) → Dispatcher F → Dispatcher F
  notify_all chs [] d = d
  notify_all chs (pn ∷ pns) d = notify_all chs pns (notify_incident chs pn d)

cleared_lem :
    (id channel_id : String) (m : Map Bool)
    → or_false (lookup (key id channel_id) (delete_keys (id ++ ":") m)) ≡ false
unfolding lookup
cleared_lem id channel_id [] = refl
cleared_lem id channel_id ((k, b) ∷ m) =
    let prefix : starts_with (key id channel_id) (id ++ ":") ≡ true =
      starts_with-append (id ++ ":") channel_id in
    elim (Bool-cases (starts_with k (id ++ ":"))) [
      | inl yes_it_does ↦ rw yes_it_does (cleared_lem id channel_id m)
      | inr it_does_not ↦
          let other : str_eq k (key id channel_id) ≡ false =
            elim (Bool-cases (str_eq k (key id channel_id))) [
              | inl same ↦
                  let p = (str_eq_iff k (key id channel_id)).0 same in
                  let clash : true ≡ false =
                    sym prefix ∙ ap (λ x. starts_with x (id ++ ":")) (sym p) ∙ it_does_not in
                  cc
              | inr differs ↦ differs
            ] in
          rw (it_does_not, other, lookup) (cleared_lem id channel_id m)
    ]

is_nil-append :
    {A : Type 0} (xs : List A) (y : A) (ys : List A) → is_nil (append xs (y ∷ ys)) ≡ false
is_nil-append [] y ys = refl
is_nil-append (x ∷ xs) y ys = refl

-- Once an incident is resolved, no channel counts as told of it.
clear_incident-already_notified :
    (id channel_id : String) (t : Tracking)
    → already_notified id channel_id (clear_incident id t) ≡ false
unfolding clear_incident
clear_incident-already_notified id channel_id t = cleared_lem id channel_id t.notified

module _ {F : Type 0} (texts : Texts) where
  notify_all-batch :
      (c : NotificationChannelConfig) (chs : List NotificationChannelConfig)
      (pns : List (PendingNotification F)) (d : Dispatcher F)
      → ((notify_all texts (c ∷ chs) pns d).pending_batch ≡ append d.pending_batch pns)
        × ((notify_all texts (c ∷ chs) pns d).tracking ≡ d.tracking)
  unfolding notify_incident
  notify_all-batch c chs [] d = (sym (append-nil d.pending_batch), refl)
  notify_all-batch c chs (pn ∷ pns) d =
      let d' = notify_incident texts (c ∷ chs) pn d in
      let (batch, tracking) = notify_all-batch c chs pns d' in
      (batch ∙ append_assoc d.pending_batch (pn ∷ []) pns, tracking)

  flush_pending-told :
      (now : Time) (pns pns' : List (PendingNotification F)) (pn : PendingNotification F)
      (chs chs' : List NotificationChannelConfig) (ch : NotificationChannelConfig)
      (d : Dispatcher F)
      → d.pending_batch ≡ append pns (pn ∷ pns')
      → is_wanted texts ch pn ≡ true
      → is_positive ch.cooldown_minutes ≡ false
      → already_notified pn.incident.id ch.id d.tracking ≡ false
      → told
          (key pn.incident.id ch.id)
          (flush_pending texts now (append chs (ch ∷ chs')) d).1.channel_batches
        ≡ 1
  unfolding flush_pending
  flush_pending-told now pns pns' pn chs chs' ch d batch wanted uncooled new = ground (
    arith,
    batch,
    is_nil-append pns pn pns',
    is_nil-append chs ch chs',
    flush_batch-once texts now pns pns' pn chs chs' ch d.tracking wanted uncooled new,
  )

  pub notify_all-flush :
      (now : Time) (pns pns' : List (PendingNotification F)) (pn : PendingNotification F)
      (c : NotificationChannelConfig) (chs chs' rest : List NotificationChannelConfig)
      (ch : NotificationChannelConfig) (d : Dispatcher F)
      → c ∷ rest ≡ append chs (ch ∷ chs')
      → is_wanted texts ch pn ≡ true
      → is_positive ch.cooldown_minutes ≡ false
      → already_notified pn.incident.id ch.id d.tracking ≡ false
      → let waiting = notify_all texts (c ∷ rest) (append pns (pn ∷ pns')) d in
        told
          (key pn.incident.id ch.id)
          (flush_pending texts now (c ∷ rest) waiting).1.channel_batches
        ≡ 1
  notify_all-flush now pns pns' pn c chs chs' rest ch d e wanted uncooled new =
      let w = notify_all texts (c ∷ rest) (append pns (pn ∷ pns')) d in
      let (batch, tracking) = notify_all-batch c rest (append pns (pn ∷ pns')) d in
      let batched : w.pending_batch ≡ append (append d.pending_batch pns) (pn ∷ pns') =
        batch ∙ sym (append_assoc d.pending_batch pns (pn ∷ pns')) in
      let fresh : already_notified pn.incident.id ch.id w.tracking ≡ false =
        ap (already_notified pn.incident.id ch.id) tracking ∙ new in
      subst
        (λ all.
          told (key pn.incident.id ch.id) (flush_pending texts now all w).1.channel_batches ≡ 1)
        (sym e)
        (flush_pending-told now (append d.pending_batch pns) pns' pn chs chs' ch w batched wanted
          uncooled fresh)

  -- An incident that was resolved and opens again reaches such a channel once more at the next flush,
  -- also if the channel was told of it before.
  notify_resolved-flush :
      (now : Time) (old pn : PendingNotification F) (c : NotificationChannelConfig)
      (chs chs' rest : List NotificationChannelConfig) (ch : NotificationChannelConfig)
      (d : Dispatcher F)
      → c ∷ rest ≡ append chs (ch ∷ chs')
      → is_wanted texts ch pn ≡ true
      → is_positive ch.cooldown_minutes ≡ false
      → old.incident.id ≡ pn.incident.id
      → let reopened =
          notify_incident texts (c ∷ rest) pn (notify_resolved texts (c ∷ rest) old d).0 in
        told
          (key pn.incident.id ch.id)
          (flush_pending texts now (c ∷ rest) reopened).1.channel_batches
        ≡ 1
  unfolding notify_resolved
  notify_resolved-flush now old pn c chs chs' rest ch d e wanted uncooled same =
      notify_all-flush now [] [] pn c chs chs' rest ch (notify_resolved texts (c ∷ rest) old d).0 e
        wanted uncooled
        (subst (λ id. already_notified id ch.id (clear_incident old.incident.id d.tracking) ≡ false)
          same (clear_incident-already_notified old.incident.id ch.id d.tracking))
