-- ===== src/SnapshotQueue.antt =====
-- The bounded snapshot queue, src-tauri/src/clipboard/snapshot_queue.rs.
-- A `VecDeque` is a list with its front first; `usize` has 64 bits. `position` followed by `remove`
-- is `take_first`, and the index loop of `coalesce_adjacent_replacements` is a recursion on the list.
pub mod Totals
pub mod Coalescing
pub mod Eviction
pub mod Back
pub mod Budget
pub mod Oversize
pub mod Bounds
pub mod Removal
pub mod Survivors
pub mod Burst
use cubby_clipboard.Prelude.{
  ℕ, zero, suc, ◌+◌, ◌-◌, ◌%◌, min, Bool, true, false, not, ◌&&◌, List, [], ◌∷◌, ◌++◌, Option, none,
  some, length, get_elem?, ltb, leb, if◌then◌else◌,
}

-- The trait. `replaces_queued newer older` has the receiver of the method first.
pub record SizedPayload {ℓ} (T : Type ℓ) : Type ℓ where
  pub payload_bytes : T → ℕ
  pub retain_on_flood : T → Bool
  pub replaces_queued : T → T → Bool

abbrev pub snapshot_queue_capacity : ℕ
snapshot_queue_capacity = 128

abbrev pub snapshot_queue_max_bytes : ℕ
snapshot_queue_max_bytes = 67108864

abbrev pub usize_mod : ℕ
usize_mod = 18446744073709551616

unfoldable pub saturating_add : ℕ → ℕ → ℕ
saturating_add a b = min (a + b) (usize_mod - 1)

-- `+=` in a release build.
unfoldable pub wrapping_add : ℕ → ℕ → ℕ
wrapping_add a b = (a + b) % usize_mod

pub data EnqueueOutcome {ℓ} (T : Type ℓ) : Type ℓ where
  queued : EnqueueOutcome T
  queued_after_drop : ℕ → ℕ → List T → EnqueueOutcome T

-- What `&mut queue` and `&mut queued_bytes` hold.
pub record Backlog {ℓ} (T : Type ℓ) : Type ℓ where
  pub items : List T
  pub queued_bytes : ℕ

-- The variables that the eviction loops of `enqueue` change.
pub record Flood {ℓ} (T : Type ℓ) : Type ℓ where
  pub items : List T
  pub queued_bytes : ℕ
  pub counted_bytes : ℕ
  pub dropped : ℕ
  pub dropped_bytes : ℕ
  pub evicted : List T

module _ {ℓ} {T : Type ℓ} where
  -- The oldest item that passes the test, and the queue without it.
  pub take_first : (T → Bool) → List T → Option (T × List T)
  take_first test [] = none
  take_first test (x ∷ xs) = elim (test x) [
    | true ↦ some (x, xs)
    | false ↦ elim (take_first test xs) [ none ↦ none | some (y, ys) ↦ some (y, x ∷ ys) ]
  ]

  pub remove_at : List T → ℕ → List T
  remove_at [] i = []
  remove_at (x ∷ xs) zero = xs
  remove_at (x ∷ xs) (suc i) = x ∷ remove_at xs i

  pub last : List T → Option T
  last [] = none
  last (x ∷ []) = some x
  last (x ∷ y ∷ ys) = last (y ∷ ys)

  pub drop_last : List T → List T
  drop_last [] = []
  drop_last (x ∷ []) = []
  drop_last (x ∷ y ∷ ys) = x ∷ drop_last (y ∷ ys)

  pub outcome : Flood T → EnqueueOutcome T
  outcome s = elim s.dropped [
    | zero ↦ queued
    | suc d ↦ queued_after_drop (suc d) s.dropped_bytes s.evicted
  ]

module _ {ℓ} {T : Type ℓ} ⦃p : SizedPayload T⦄ where
  open p use {payload_bytes, retain_on_flood, replaces_queued}

  -- `x` is the item at the index. The result is the items, `queued_bytes` and `removed_bytes`.
  pub coalesce_from : T → List T → ℕ → ℕ → List T × ℕ × ℕ
  coalesce_from x [] queued_bytes removed = (x ∷ [], queued_bytes, removed)
  coalesce_from x (y ∷ ys) queued_bytes removed = elim (replaces_queued y x) [
    | true ↦
        coalesce_from y ys (queued_bytes - payload_bytes x)
          (saturating_add removed (payload_bytes x))
    | false ↦ let (zs, q, r) = coalesce_from y ys queued_bytes removed in (x ∷ zs, q, r)
  ]

  pub coalesce_adjacent_replacements : List T → ℕ → List T × ℕ × ℕ
  coalesce_adjacent_replacements [] queued_bytes = ([], queued_bytes, 0)
  coalesce_adjacent_replacements (x ∷ xs) queued_bytes = coalesce_from x xs queued_bytes 0

  pub counted_non_oversize_bytes : List T → ℕ → ℕ → ℕ
  counted_non_oversize_bytes [] max_bytes sum = sum
  counted_non_oversize_bytes (x ∷ xs) max_bytes sum =
      counted_non_oversize_bytes xs max_bytes
        (if leb (payload_bytes x) max_bytes then saturating_add sum (payload_bytes x) else sum)

  -- The common part of the three evictions: `old` leaves the queue, `rest` is coalesced.
  -- The flag says whether the eviction lowers `counted_bytes` by the bytes of `old`.
  pub evict : T → List T → Bool → Flood T → Flood T
  evict old rest counts s =
      let old_bytes = payload_bytes old in
      let (items, queued_bytes, coalesced_bytes) =
        coalesce_adjacent_replacements rest (s.queued_bytes - old_bytes) in
      record s {
        items = items;
        queued_bytes = queued_bytes;
        counted_bytes =
            (if counts then s.counted_bytes - old_bytes else s.counted_bytes) - coalesced_bytes;
        dropped = wrapping_add s.dropped 1;
        dropped_bytes = wrapping_add s.dropped_bytes old_bytes;
        evicted = s.evicted ++ old ∷ [];
      }

  -- `while index < queue.len()` of the oversized branch, on fuel.
  pub oversize_loop : ℕ → ℕ → Flood T → Flood T
  oversize_loop zero index s = s
  oversize_loop (suc fuel) index s = elim (get_elem? s.items index) [
    | none ↦ s
    | some x ↦ elim (retain_on_flood x) [
      | true ↦ oversize_loop fuel (index + 1) s
      | false ↦ oversize_loop fuel index (evict x (remove_at s.items index) false s)
    ]
  ]

  abbrev pub is_droppable : T → Bool
  is_droppable x = not (retain_on_flood x)

  abbrev pub is_small : ℕ → T → Bool
  is_small max_bytes x = not (retain_on_flood x) && leb (payload_bytes x) max_bytes

  -- One round of the `loop` of the other branch; `none` is a `break`.
  pub budget_step : ℕ → ℕ → ℕ → Flood T → Option (Flood T)
  budget_step item_bytes capacity max_bytes s =
      if ltb (length s.items) capacity
      then if leb (saturating_add s.counted_bytes item_bytes) max_bytes
        then none
        else elim (take_first (is_small max_bytes) s.items) [
          | none ↦ none
          | some (old, rest) ↦ some (evict old rest true s)
        ]
      else elim (take_first is_droppable s.items) [
        | none ↦ none
        | some (old, rest) ↦ some (evict old rest (leb (payload_bytes old) max_bytes) s)
      ]

  pub budget_loop : ℕ → ℕ → ℕ → ℕ → Flood T → Flood T
  budget_loop zero item_bytes capacity max_bytes s = s
  budget_loop (suc fuel) item_bytes capacity max_bytes s =
      elim (budget_step item_bytes capacity max_bytes s) [
        | none ↦ s
        | some t ↦ budget_loop fuel item_bytes capacity max_bytes t
      ]

  -- The item that the new one replaces at the back is popped first.
  pub pop_replaced : Backlog T → T → Backlog T
  pop_replaced q item = elim (last q.items) [
    | none ↦ q
    | some older ↦
        if replaces_queued item older
        then record {
          items = drop_last q.items;
          queued_bytes = q.queued_bytes - payload_bytes older;
        }
        else q
  ]

  pub start : Backlog T → ℕ → Flood T
  start q counted_bytes = record {
    items = q.items;
    queued_bytes = q.queued_bytes;
    counted_bytes = counted_bytes;
    dropped = 0;
    dropped_bytes = 0;
    evicted = [];
  }

  -- The eviction of either branch. The fuel is the length, plus one for the test that ends the loop.
  pub make_room : Backlog T → ℕ → ℕ → ℕ → Flood T
  make_room q item_bytes capacity max_bytes =
      let fuel = suc (length q.items) in
      if ltb max_bytes item_bytes
      then oversize_loop fuel 0 (start q 0)
      else budget_loop fuel item_bytes capacity max_bytes
          (start q (counted_non_oversize_bytes q.items max_bytes 0))

  pub push_back : Flood T → T → Backlog T
  push_back s item = record {
    items = s.items ++ item ∷ [];
    queued_bytes = saturating_add s.queued_bytes (payload_bytes item);
  }

  unfoldable pub enqueue : Backlog T → T → ℕ → ℕ → Backlog T × EnqueueOutcome T
  enqueue q item capacity max_bytes =
      let s = make_room (pop_replaced q item) (payload_bytes item) capacity max_bytes in
      (push_back s item, outcome s)

  unfoldable pub dequeue : Backlog T → Option T × Backlog T
  dequeue q = elim q.items [
    | [] ↦ (none, q)
    | item ∷ rest ↦
        (some item, record { items = rest; queued_bytes = q.queued_bytes - payload_bytes item })
  ]
