-- ===== src/SnapshotChannel.antt =====
-- The channel around the snapshot queue, src-tauri/src/clipboard/snapshot_channel.rs.
-- `Inner` is what the mutex guards, so each operation is one step on it. `wakes` counts the calls of
-- `notify_one`. The handler of evicted items runs under the lock, on a state `S` of its own. `recv`
-- is one round of its loop: `wait` is the await of the next notification.
pub mod History
pub mod Handover
use cubby_clipboard.Prelude.{ℕ, suc, Bool, true, false, List, [], Option, none, some, if◌then◌else◌}
use cubby_clipboard.SnapshotQueue.{
  SizedPayload, Backlog, EnqueueOutcome, queued, queued_after_drop, enqueue, dequeue,
  snapshot_queue_capacity, snapshot_queue_max_bytes,
}

pub record Inner {ℓ} (T : Type ℓ) : Type ℓ where
  pub backlog : Backlog T
  pub receiver_gone : Bool
  pub senders_gone : Bool
  pub wakes : ℕ

pub data Received {ℓ} (T : Type ℓ) : Type ℓ where
  item : T → Received T
  closed : Received T
  wait : Received T

unfoldable pub channel {ℓ} : {T : Type ℓ} → Inner T
channel = record {
  backlog = record { items = []; queued_bytes = 0 };
  receiver_gone = false;
  senders_gone = false;
  wakes = 0;
}

unfoldable pub drop_sender {ℓ} : {T : Type ℓ} → Inner T → Inner T
drop_sender s = record s { senders_gone = true; wakes = suc s.wakes }

unfoldable pub drop_receiver {ℓ} : {T : Type ℓ} → Inner T → Inner T
drop_receiver s = record s { receiver_gone = true }

module _ {ℓ} {T : Type ℓ} ⦃p : SizedPayload T⦄ where
  abbrev pub push : Inner T → T → Inner T × EnqueueOutcome T
  push s x =
      let (b, o) = enqueue s.backlog x snapshot_queue_capacity snapshot_queue_max_bytes in
      (record s { backlog = b }, o)

  abbrev pub pop : Inner T → Option T × Inner T
  pop s = let (x, b) = dequeue s.backlog in (x, record s { backlog = b })

  abbrev pub handle {κ} : {S : Type κ} → (List T → S → S) → EnqueueOutcome T → S → S
  handle on_evicted queued w = w
  handle on_evicted (queued_after_drop dropped bytes evicted) w = on_evicted evicted w

  -- `none` is `Err(())`.
  unfoldable pub send {κ} :
      {S : Type κ} → (List T → S → S) → Inner T → S → T → Inner T × S × Option (EnqueueOutcome T)
  send on_evicted s w x =
      if s.receiver_gone
      then (s, w, none)
      else let (s', o) = push s x in
        (record s' { wakes = suc s'.wakes }, handle on_evicted o w, some o)

  unfoldable pub recv : Inner T → Received T × Inner T
  recv s =
      let (front, s') = pop s in
      elim front [ some x ↦ (item x, s') | none ↦ (if s'.senders_gone then closed else wait, s') ]
