-- ===== src/Tests/Queue.antt =====
-- Examples for the snapshot queue, its channel and the listener's events,
-- src-tauri/src/clipboard/snapshot_queue.rs, src-tauri/src/clipboard/snapshot_channel.rs and
-- src-tauri/src/clipboard.rs.
use mathlib.Core.List.{Perm, Sublist, append_assoc}
use cubby_clipboard.Prelude.{
  ℕ, ◌+◌, ◌≡◌, refl, ◌⊎◌, true, false, List, [], ◌∷◌, ◌++◌, none, some, length, arith, All,
}
use cubby_clipboard.SnapshotQueue.{
  Backlog, EnqueueOutcome, enqueue, snapshot_queue_capacity, snapshot_queue_max_bytes,
}
use cubby_clipboard.SnapshotQueue.Coalescing.{droppables}
use cubby_clipboard.SnapshotQueue.Bounds.{IsBounded, enqueue-IsBounded}
use cubby_clipboard.SnapshotQueue.Survivors.{evicted_items, enqueue_partition}
use cubby_clipboard.SnapshotQueue.Burst.{enqueue_all, dequeue_all, dequeue_all-enqueue_all}
use cubby_clipboard.IgnoreHash.{IgnoreState}
use cubby_clipboard.ListenerEvent.{
  Hasher, CapturedFormat, ClipboardListenerEvent, text, content, cleared, ListenerEventSizedPayload,
  event_retain_on_flood, release_ignore_for_dropped_events,
}
use cubby_clipboard.ListenerEvent.Payload.{ListenerEvent-ClearLaws}
use cubby_clipboard.ListenerEvent.Hashing.{StreamLaws}
use cubby_clipboard.SnapshotChannel.{Inner, send}
use cubby_clipboard.SnapshotChannel.History.{
  Action, sends, receives, channel_after, channel_after-IsBounded,
}
use cubby_clipboard.SnapshotChannel.Handover.{process_events, timed, send_like_processing}

abbrev snapshot_of : List ℕ → ClipboardListenerEvent
snapshot_of bytes = content (record {
  sequence = 7;
  content = text bytes [] [];
  formats = [];
  ignore = some (record { hash = "aa"; generation = 4 });
})

abbrev copy_a : ClipboardListenerEvent
copy_a = snapshot_of (1 ∷ 2 ∷ [])

abbrev copy_b : ClipboardListenerEvent
copy_b = snapshot_of (3 ∷ 4 ∷ 5 ∷ [])

abbrev full_queue : Backlog ClipboardListenerEvent
full_queue = record { items = cleared 1 ∷ copy_a ∷ cleared 2 ∷ []; queued_bytes = 2 }

full_queue-IsBounded : IsBounded 3 4 full_queue
full_queue-IsBounded = record {
  count_bound = omega arith;
  byte_bound = omega arith;
  apart = (refl, (refl, tt));
  exact = refl;
}

enqueue-IsBounded_example : IsBounded 3 4 (enqueue full_queue copy_b 3 4).0
enqueue-IsBounded_example =
    enqueue-IsBounded ListenerEvent-ClearLaws 3 4 full_queue copy_b (omega arith) (omega arith)
      (omega arith) full_queue-IsBounded

enqueue_partition_example :
    let (r, o) = enqueue full_queue copy_b 3 4 in
    (kept : List ClipboardListenerEvent) × (r.items ≡ kept ++ copy_b ∷ [])
    × Sublist kept full_queue.items
    × Perm (droppables full_queue.items) (evicted_items o ++ droppables kept)
    × All (λ x. event_retain_on_flood x ≡ false) (evicted_items o)
enqueue_partition_example =
    enqueue_partition ListenerEvent-ClearLaws 3 4 full_queue copy_b (omega arith)

dequeue_all-enqueue_all_example :
    dequeue_all 2 (enqueue_all 3 8 (record { items = []; queued_bytes = 0 }) (copy_a ∷ copy_b ∷ []))
    ≡ copy_a ∷ copy_b ∷ []
dequeue_all-enqueue_all_example =
    dequeue_all-enqueue_all ListenerEvent-ClearLaws 3 8 (copy_a ∷ copy_b ∷ []) (refl, (refl, tt))
      (omega arith) (omega arith) (omega arith)

abbrev history : List (Action ClipboardListenerEvent)
history = sends (cleared 3) ∷ receives ∷ sends copy_b ∷ sends copy_a ∷ []

abbrev count_evicted : List ClipboardListenerEvent → ℕ → ℕ
count_evicted evicted n = length evicted + n

channel_after-IsBounded_example :
    IsBounded snapshot_queue_capacity snapshot_queue_max_bytes
      (channel_after count_evicted 0 history).0.backlog
channel_after-IsBounded_example =
    channel_after-IsBounded ListenerEvent-ClearLaws count_evicted 0 history
      (omega arith, (omega arith, (omega arith, tt)))

-- A digest that keeps its input.
abbrev keeping : Hasher
keeping = record { State = List ℕ; new = []; update = λ s xs. s ++ xs; finalize = λ s. "digest" }

keeping-StreamLaws : StreamLaws keeping
keeping-StreamLaws = record { update_update = λ s xs ys. append_assoc s xs ys }

abbrev html : List CapturedFormat
html = record { name = b'H' ∷ []; content = 9 ∷ [] } ∷ []

abbrev full_channel : Inner ClipboardListenerEvent
full_channel = record {
  backlog = full_queue;
  receiver_gone = false;
  senders_gone = false;
  wakes = 2;
}

abbrev idle : IgnoreState
idle = record { marker = none; consumed_generation = none }

send_like_processing_example :
    let (s', w', o) = send (release_ignore_for_dropped_events keeping) full_channel idle copy_b in
    ((false ≡ true) × (s' ≡ full_channel) × (w' ≡ idle) × (o ≡ none))
    ⊎ ((e : EnqueueOutcome ClipboardListenerEvent) × (o ≡ some e)
        × (w' ≡ process_events keeping 5 (timed 100 (evicted_items e)) idle)
        × (s'.wakes ≡ 3))
send_like_processing_example = send_like_processing keeping full_channel idle copy_b 5 100 refl
