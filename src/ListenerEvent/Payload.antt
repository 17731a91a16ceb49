-- ===== src/ListenerEvent/Payload.antt =====
-- The listener's events keep the laws that the queue relies on.
use cubby_clipboard.Prelude.{refl, ◌≡◌, true, ◌&&◌}
use cubby_clipboard.SnapshotQueue.Totals.{ClearLaws}
use cubby_clipboard.ListenerEvent.{
  ClipboardListenerEvent, content, cleared, event_replaces_queued, event_retain_on_flood,
  event_payload_bytes, ListenerEventSizedPayload,
}

replaces_iff :
    (newer older : ClipboardListenerEvent)
    → event_replaces_queued newer older
      ≡ (event_retain_on_flood newer && event_retain_on_flood older)
replaces_iff (cleared m) (cleared n) = refl
replaces_iff (cleared m) (content s) = refl
replaces_iff (content s) (cleared n) = refl
replaces_iff (content s) (content t) = refl

retained : (e : ClipboardListenerEvent) → event_retain_on_flood e ≡ true → event_payload_bytes e ≡ 0
retained (cleared m) h = refl
retained (content s) h = cc

pub ListenerEvent-ClearLaws : ClearLaws ClipboardListenerEvent
ListenerEvent-ClearLaws = record { replaces_iff_retained = replaces_iff; retained_bytes = retained }
