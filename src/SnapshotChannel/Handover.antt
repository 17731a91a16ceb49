-- ===== src/SnapshotChannel/Handover.antt =====
-- What a send of src-tauri/src/clipboard/snapshot_channel.rs does with the items it evicts, and what
-- the listener's handler of src-tauri/src/clipboard.rs makes of them.
use Prim.Native.String.{String}
use cubby_clipboard.Prelude.{
  ℕ, suc, ◌≡◌, refl, sym, ap, ◌∙◌, ◌⊎◌, inl, inr, true, List, [], ◌∷◌, Option, none, some, arith,
  Bool-cases,
}
use cubby_clipboard.SnapshotQueue.{
  EnqueueOutcome, queued, queued_after_drop, enqueue, snapshot_queue_capacity,
  snapshot_queue_max_bytes,
}
use cubby_clipboard.SnapshotQueue.Survivors.{evicted_items}
use cubby_clipboard.IgnoreHash.{
  IgnoreState, QueuedIgnore, release_dropped_queued_work, ignore_and_consume_self_paste,
}
use cubby_clipboard.ListenerEvent.{
  Hasher, ClipboardListenerEvent, content, cleared, captured_clip_hash,
  release_ignore_for_dropped_events, ListenerEventSizedPayload,
}
use cubby_clipboard.SnapshotChannel.{Inner, send, handle}

events_of : List (ClipboardListenerEvent × ℕ) → List ClipboardListenerEvent
events_of [] = []
events_of ((e, now) ∷ es) = e ∷ events_of es

pub timed : ℕ → List ClipboardListenerEvent → List (ClipboardListenerEvent × ℕ)
timed now [] = []
timed now (e ∷ es) = (e, now) ∷ timed now es

events_of-timed : (now : ℕ) (es : List ClipboardListenerEvent) → events_of (timed now es) ≡ es
unfolding events_of timed
events_of-timed now [] = refl
events_of-timed now (e ∷ es) = ap (◌∷◌ e) (events_of-timed now es)

module _ (h : Hasher) where
  -- The worker processes these events in turn, each at its time, for the ignore state alone.
  pub process_events : ℕ → List (ClipboardListenerEvent × ℕ) → IgnoreState → IgnoreState
  process_events ttl [] s = s
  process_events ttl ((cleared n, now) ∷ es) s = process_events ttl es s
  process_events ttl ((content c, now) ∷ es) s =
      process_events ttl es
        (ignore_and_consume_self_paste s c.ignore (captured_clip_hash h c.content c.formats) now
          ttl).1

  release_step :
      (s : IgnoreState) (q : Option QueuedIgnore) (hash : String) (now ttl : ℕ)
      → s.marker ≡ none
      → ((release_dropped_queued_work s q hash).1
          ≡ (ignore_and_consume_self_paste s q hash now ttl).1)
        × ((release_dropped_queued_work s q hash).1.marker ≡ none)
  unfolding release_dropped_queued_work ignore_and_consume_self_paste
  release_step s none hash now ttl e = (ground arith, ground arith)
  release_step s (some b) hash now ttl e = (ground arith, ground arith)

  release-process :
      (ttl : ℕ) (es : List (ClipboardListenerEvent × ℕ)) (s : IgnoreState)
      → s.marker ≡ none
      → release_ignore_for_dropped_events h (events_of es) s ≡ process_events ttl es s
  unfolding release_ignore_for_dropped_events process_events events_of
  release-process ttl [] s e = refl
  release-process ttl ((cleared n, now) ∷ es) s e = release-process ttl es s e
  release-process ttl ((content c, now) ∷ es) s e =
      let (same, free) =
        release_step s c.ignore (captured_clip_hash h c.content c.formats) now ttl e in
      release-process ttl es _ free ∙ ap (process_events ttl es) same

  handle_lem :
      (o : EnqueueOutcome ClipboardListenerEvent) (w : IgnoreState) (ttl now : ℕ)
      → w.marker ≡ none
      → handle (release_ignore_for_dropped_events h) o w
        ≡ process_events ttl (timed now (evicted_items o)) w
  handle_lem queued w ttl now e = unfold process_events in unfold timed in refl
  handle_lem (queued_after_drop d b es) w ttl now e =
      rw (ap (λ xs. release_ignore_for_dropped_events h xs w) (sym (events_of-timed now es)))
        (release-process ttl (timed now es) w e)

  -- While no marker is live, a send either finds the receiver gone and changes nothing, or leaves
  -- the ignore state as the worker would, had it processed the evicted items in their order at any
  -- time, and wakes the receiver once.
  pub send_like_processing :
      (s : Inner ClipboardListenerEvent) (w : IgnoreState) (x : ClipboardListenerEvent)
      (ttl now : ℕ)
      → w.marker ≡ none
      → let (s', w', o) = send (release_ignore_for_dropped_events h) s w x in
        ((s.receiver_gone ≡ true) × (s' ≡ s) × (w' ≡ w) × (o ≡ none))
        ⊎ ((e : EnqueueOutcome ClipboardListenerEvent) × (o ≡ some e)
            × (w' ≡ process_events ttl (timed now (evicted_items e)) w)
            × (s'.wakes ≡ suc s.wakes))
  unfolding send
  send_like_processing s w x ttl now e = elim (Bool-cases s.receiver_gone) [
    | inl gone ↦ inl (gone, ground arith, ground arith, ground arith)
    | inr live ↦
        let o = (enqueue s.backlog x snapshot_queue_capacity snapshot_queue_max_bytes).1 in
        inr (o, ground arith, ground (arith, handle_lem o w ttl now e), ground arith)
  ]
