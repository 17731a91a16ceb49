-- ===== src/SnapshotChannel/History.antt =====
-- The bounds of the queue over every history of the production channel of
-- src-tauri/src/clipboard/snapshot_channel.rs.
use mathlib.Core.List.{Sublist, Sublistᴰ}
use mathlib.Core.Logic.{∥∥₁_elim}
use mathlib.Core.Bool.{Bool-set}
use cubby_clipboard.Prelude.{
  ℕ, ◌*◌, ◌≤◌, ◌<◌, ◌≡◌, refl, ◌⊎◌, inl, inr, Bool, true, ◌&&◌, List, [], ◌∷◌, ◌++◌, length, arith,
  ltb, Bool-cases,
}
use cubby_clipboard.SnapshotQueue.{
  SizedPayload, Backlog, enqueue, dequeue, snapshot_queue_capacity, snapshot_queue_max_bytes,
}
use cubby_clipboard.SnapshotQueue.Totals.{ClearLaws, total}
use cubby_clipboard.SnapshotQueue.Coalescing.{IsApart}
use cubby_clipboard.SnapshotQueue.Bounds.{IsBounded, enqueue-IsBounded}
use cubby_clipboard.SnapshotQueue.Survivors.{enqueue_partition}
use cubby_clipboard.SnapshotChannel.{Inner, channel, drop_sender, drop_receiver, send, recv}

-- A byte count that no payload reaches, so that a full queue of payloads fits in a `usize`.
abbrev pub payload_limit : ℕ
payload_limit = 72057594037927936

List-cases {ℓ} : {A : Type ℓ} (xs : List A) → (xs ≡ []) ⊎ ((x : A) × (ys : List A) × (xs ≡ x ∷ ys))
List-cases [] = inl refl
List-cases (x ∷ xs) = inr (x, xs, refl)

-- What the two ends of the channel do.
pub data Action {ℓ} (T : Type ℓ) : Type ℓ where
  sends : T → Action T
  receives : Action T
  sender_drops : Action T
  receiver_drops : Action T

module _ {ℓ} {T : Type ℓ} ⦃p : SizedPayload T⦄ where
  open p use {payload_bytes}

  -- Each payload that is sent is below the limit.
  abbrev pub AreSendable : List (Action T) → Type 0
  AreSendable [] = Unit {0}
  AreSendable (sends x ∷ actions) = (payload_bytes x < payload_limit) × AreSendable actions
  AreSendable (receives ∷ actions) = AreSendable actions
  AreSendable (sender_drops ∷ actions) = AreSendable actions
  AreSendable (receiver_drops ∷ actions) = AreSendable actions

  module _ {κ} {S : Type κ} (on_evicted : List T → S → S) where
    abbrev pub after : Inner T × S → Action T → Inner T × S
    after (s, w) (sends x) = let (s', w', o) = send on_evicted s w x in (s', w')
    after (s, w) receives = ((recv s).1, w)
    after (s, w) sender_drops = (drop_sender s, w)
    after (s, w) receiver_drops = (drop_receiver s, w)

    -- The channel after a history, whose newest action comes first.
    pub channel_after : S → List (Action T) → Inner T × S
    channel_after w [] = (channel, w)
    channel_after w (a ∷ actions) = after (channel_after w actions) a

  are_light : List T → Bool
  are_light [] = true
  are_light (x ∷ xs) = ltb (payload_bytes x) payload_limit && are_light xs

  total-le : (xs : List T) → are_light xs ≡ true → total xs ≤ length xs * payload_limit
  unfolding are_light
  total-le [] h = omega arith
  total-le (x ∷ xs) h =
      let light : payload_bytes x < payload_limit = ground arith in
      omega (arith, total-le xs (ground arith), light)

  are_light-append :
      (xs : List T) (x : T)
      → are_light xs ≡ true
      → payload_bytes x < payload_limit
      → are_light (xs ++ x ∷ []) ≡ true
  unfolding are_light
  are_light-append [] x h l = ground arith
  are_light-append (y ∷ ys) x h l = ground (arith, are_light-append ys x)

  are_light-Sublistᴰ : {xs ys : List T} → Sublistᴰ xs ys → are_light ys ≡ true → are_light xs ≡ true
  unfolding are_light
  are_light-Sublistᴰ Sublistᴰ.slnil h = refl
  are_light-Sublistᴰ (Sublistᴰ.cons s) h = are_light-Sublistᴰ s (ground arith)
  are_light-Sublistᴰ (Sublistᴰ.cons-cons e s) h = rw e (ground (arith, are_light-Sublistᴰ s))

  are_light-Sublist : {xs ys : List T} → Sublist xs ys → are_light ys ≡ true → are_light xs ≡ true
  are_light-Sublist s h = ∥∥₁_elim s (Bool-set _ _) (λ d. are_light-Sublistᴰ d h)

  -- The state of every history.
  record IsSound (q : Backlog T) : Type ℓ where
    light : are_light q.items ≡ true
    bounded : IsBounded snapshot_queue_capacity snapshot_queue_max_bytes q

  enqueue-IsSound :
      (laws : ClearLaws T) (q : Backlog T) (x : T)
      → payload_bytes x < payload_limit
      → IsSound q
      → IsSound (enqueue q x snapshot_queue_capacity snapshot_queue_max_bytes).0
  enqueue-IsSound laws q x l h =
      let b = h.bounded in
      let t = total-le q.items h.light in
      let count : length q.items ≤ 128 = b.count_bound in
      let (kept, same, sub, _, _) =
        enqueue_partition laws snapshot_queue_capacity snapshot_queue_max_bytes q x (omega arith) in
      record {
        light = rw same (are_light-append kept x (are_light-Sublist sub h.light) l);
        bounded =
            enqueue-IsBounded laws snapshot_queue_capacity snapshot_queue_max_bytes q x
              (omega arith) (omega arith) (omega arith) b;
      }

  IsApart-tail : (x : T) (xs : List T) → IsApart (x ∷ xs) → IsApart xs
  IsApart-tail x [] h = tt
  IsApart-tail x (y ∷ ys) h = h.1

  dequeue-IsSound : (q : Backlog T) → IsSound q → IsSound (dequeue q).1
  unfolding dequeue are_light
  dequeue-IsSound q h = elim (List-cases q.items) [
    | inl e ↦ rw (e, dequeue) h
    | inr (x, xs, e) ↦
        let b = h.bounded in
        rw (e, dequeue)
          (record {
            light = ground (arith, h.light);
            bounded = record {
              count_bound = ground (arith, b.count_bound);
              byte_bound = ground (arith, b.byte_bound);
              apart = IsApart-tail x xs (rw e at b.apart);
              exact = ground (arith, b.exact);
            };
          })
  ]

  module _ {κ} {S : Type κ} (laws : ClearLaws T) (on_evicted : List T → S → S) where
    send-IsSound :
        (s : Inner T) (w : S) (x : T)
        → payload_bytes x < payload_limit
        → IsSound s.backlog
        → IsSound (send on_evicted s w x).0.backlog
    unfolding send
    send-IsSound s w x l h = elim (Bool-cases s.receiver_gone) [
      | inl e ↦ rw (e, send) h
      | inr e ↦ rw (e, send) (enqueue-IsSound laws s.backlog x l h)
    ]

    recv_backlog : (s : Inner T) → (recv s).1.backlog ≡ (dequeue s.backlog).1
    unfolding recv
    recv_backlog s = ground arith

    channel_after-IsSound :
        (w : S) (actions : List (Action T))
        → AreSendable actions
        → IsSound (channel_after on_evicted w actions).0.backlog
    unfolding channel_after channel drop_sender drop_receiver are_light
    channel_after-IsSound w [] h = record {
      light = refl;
      bounded = record {
        count_bound = omega arith;
        byte_bound = omega arith;
        apart = tt;
        exact = refl;
      };
    }
    channel_after-IsSound w (sends x ∷ actions) h =
        let (s, v) = channel_after on_evicted w actions in
        send-IsSound s v x h.0 (channel_after-IsSound w actions h.1)
    channel_after-IsSound w (receives ∷ actions) h =
        let s = (channel_after on_evicted w actions).0 in
        rw (recv_backlog s) (dequeue-IsSound s.backlog (channel_after-IsSound w actions h))
    channel_after-IsSound w (sender_drops ∷ actions) h = channel_after-IsSound w actions h
    channel_after-IsSound w (receiver_drops ∷ actions) h = channel_after-IsSound w actions h

    -- After every history of sends, receives and drops from a new channel, the queue is bounded: at
    -- most `snapshot_queue_capacity` items, at most `snapshot_queue_max_bytes` bytes in the items
    -- that are not oversized, no retained item right behind another, and `queued_bytes` the exact
    -- sum. The payload keeps the laws of a clear and each payload sent is below `payload_limit`.
    pub channel_after-IsBounded :
        (w : S) (actions : List (Action T))
        → AreSendable actions
        → IsBounded snapshot_queue_capacity snapshot_queue_max_bytes
            (channel_after on_evicted w actions).0.backlog
    channel_after-IsBounded w actions h = (channel_after-IsSound w actions h).bounded
