-- ===== src/SnapshotQueue/Bounds.antt =====
-- The bounds that `enqueue` of src-tauri/src/clipboard/snapshot_queue.rs keeps.
use cubby_clipboard.Prelude.{
  ℕ, suc, ◌+◌, ◌-◌, ◌≤◌, ◌<◌, ◌≡◌, inl, inr, [], ◌∷◌, Option, none, some, length, length-append,
  arith, leb, ltb, if◌then◌else◌, Bool-cases, Option-cases,
}
use cubby_clipboard.SnapshotQueue.{
  SizedPayload, Flood, Backlog, last, budget_loop, usize_mod, oversize_loop, saturating_add,
  pop_replaced, start, counted_non_oversize_bytes, make_room, push_back, enqueue,
}
use cubby_clipboard.SnapshotQueue.Totals.{
  ClearLaws, total, small_total, total-append, small_total-append, counted-small_total,
}
use cubby_clipboard.SnapshotQueue.Coalescing.{IsApart, droppables}
use cubby_clipboard.SnapshotQueue.Back.{
  IsFreeBack, drop_last_sums, drop_last-IsApart, drop_last-IsFreeBack, append-IsApart,
}
use cubby_clipboard.SnapshotQueue.Budget.{IsKept, budget_loop-IsKept}
use cubby_clipboard.SnapshotQueue.Oversize.{IsSwept, oversize_loop-IsSwept, no_droppables}

module _ {ℓ} {T : Type ℓ} ⦃p : SizedPayload T⦄ where
  open p use {payload_bytes, retain_on_flood}

  -- What `enqueue` keeps: the count, the bytes that are not oversized, one slot for adjacent
  -- retained items, and the exact sum of the payload bytes.
  pub record IsBounded (capacity m : ℕ) (q : Backlog T) : Type ℓ where
    pub count_bound : length q.items ≤ capacity
    pub byte_bound : small_total m q.items ≤ m
    pub apart : IsApart q.items
    pub exact : q.queued_bytes ≡ total q.items

  module _ (laws : ClearLaws T) (item : T) (m : ℕ) where
    -- Popping the replaced item leaves a back that the new item may follow.
    pop_replaced-IsBounded :
        (capacity : ℕ) (q : Backlog T)
        → IsBounded capacity m q
        → let r = pop_replaced q item in
          IsBounded capacity m r × IsFreeBack item (last r.items) × (total r.items ≤ total q.items)
    unfolding pop_replaced
    pop_replaced-IsBounded capacity q b = elim (Option-cases (last q.items)) [
      | inl e ↦ rw (e, pop_replaced) (b, rw e tt, omega arith)
      | inr (x, e) ↦ elim (Bool-cases (p.replaces_queued item x)) [
        | inl r ↦
            let sums = drop_last_sums m q.items e in
            let bare : payload_bytes x ≡ 0 =
              ground (arith, laws.replaces_iff_retained item x, laws.retained_bytes x) in
            rw (e, pop_replaced)
              (rw (r, pop_replaced)
                (
                  record {
                    count_bound = omega (arith, sums, b);
                    byte_bound = omega (arith, sums, b);
                    apart = drop_last-IsApart q.items b.apart;
                    exact = omega (arith, sums, b);
                  },
                  drop_last-IsFreeBack item q.items b.apart e
                      (ground (arith, laws.replaces_iff_retained item x)),
                  omega (arith, sums),
                ))
        | inr r ↦
            rw (e, pop_replaced)
              (rw (r, pop_replaced)
                (b, rw e (ground (arith, laws.replaces_iff_retained item x)), omega arith))
      ]
    ]

    -- A flood that left room takes the item.
    push_back-IsBounded :
        (capacity : ℕ) (s : Flood T)
        → length s.items < capacity
        → small_total m s.items + (if leb (payload_bytes item) m then payload_bytes item else 0) ≤ m
        → IsApart s.items
        → IsFreeBack item (last s.items)
        → s.queued_bytes ≡ total s.items
        → total s.items + payload_bytes item < usize_mod
        → IsBounded capacity m (push_back s item)
    unfolding push_back saturating_add
    push_back-IsBounded capacity s l b a f q w = record {
      count_bound = omega (arith, length-append s.items (item ∷ []));
      byte_bound = omega (arith, small_total-append m s.items (item ∷ []));
      apart = append-IsApart item s.items a f;
      exact = omega (arith, total-append s.items (item ∷ []));
    }

    -- An oversized item has bytes, so it is not retained.
    oversize_free : (o : Option T) → m < payload_bytes item → IsFreeBack item o
    oversize_free none h = tt
    oversize_free (some x) h = ground (arith, laws.retained_bytes item)

    oversize-IsBounded :
        (capacity : ℕ) (q : Backlog T)
        → 3 ≤ capacity
        → total q.items + payload_bytes item < usize_mod
        → m < payload_bytes item
        → IsBounded capacity m q
        → let t = oversize_loop (suc (length q.items)) 0 (start q 0) in
          IsBounded capacity m (push_back t item) × (droppables t.items ≡ [])
    unfolding start
    oversize-IsBounded capacity q h r over b =
        let bound = total q.items in
        let s : IsSwept bound (start q 0) = record {
          exact = b.exact;
          within = omega arith;
          apart = b.apart;
        } in
        let (k, d) =
          oversize_loop-IsSwept laws bound (suc (length q.items)) 0 (start q 0) tt (omega arith)
            s in
        let t = oversize_loop (suc (length q.items)) 0 (start q 0) in
        let bare = no_droppables laws bound m t.items d k.apart in
        (
          push_back-IsBounded capacity t (omega (arith, bare)) (ground (arith, bare)) k.apart
              (oversize_free (last t.items) over) k.exact (omega (arith, k)),
          d,
        )

    within-IsBounded :
        (capacity : ℕ) (q : Backlog T)
        → 3 ≤ capacity
        → m < usize_mod - 1
        → total q.items + payload_bytes item < usize_mod
        → payload_bytes item ≤ m
        → IsFreeBack item (last q.items)
        → IsBounded capacity m q
        → IsBounded capacity m (
            push_back
              (budget_loop
                (suc (length q.items))
                (payload_bytes item)
                capacity
                m
                (start q (counted_non_oversize_bytes q.items m 0)))
              item)
    unfolding start
    within-IsBounded capacity q h w r i f b =
        let counted = counted-small_total q.items m 0 (omega arith) in
        let s : Flood T = start q (counted_non_oversize_bytes q.items m 0) in
        let k : IsKept item capacity m s = record {
          count_bound = b.count_bound;
          byte_bound = omega (arith, counted, b);
          counted_exact = omega (arith, counted);
          queued_exact = b.exact;
          room = r;
          apart = b.apart;
          free_back = f;
        } in
        let (k', l, c) =
          budget_loop-IsKept laws item capacity m (suc (length q.items)) s h w i (omega arith) k in
        let t = budget_loop (suc (length q.items)) (payload_bytes item) capacity m s in
        push_back-IsBounded capacity t l (ground (arith, k'.counted_exact)) k'.apart k'.free_back
          k'.queued_exact k'.room

    make_room-IsBounded :
        (capacity : ℕ) (q : Backlog T)
        → 3 ≤ capacity
        → m < usize_mod - 1
        → total q.items + payload_bytes item < usize_mod
        → IsFreeBack item (last q.items)
        → IsBounded capacity m q
        → IsBounded capacity m (push_back (make_room q (payload_bytes item) capacity m) item)
    unfolding make_room
    make_room-IsBounded capacity q h w r f b = elim (Bool-cases (ltb m (payload_bytes item))) [
      | inl over ↦ rw over (oversize-IsBounded capacity q h r (ground arith) b).0
      | inr within ↦ rw within (within-IsBounded capacity q h w r (ground arith) f b)
    ]

  -- From a bounded queue with at least three slots, `enqueue` makes a bounded queue: at most
  -- `capacity` items, at most `m` bytes in the items that are not oversized, no retained item right
  -- behind another, and `queued_bytes` the exact sum. The payload keeps the laws of a clear, `m` is
  -- below the largest `usize`, and the bytes at hand fit in a `usize`.
  pub enqueue-IsBounded :
      (laws : ClearLaws T) (capacity m : ℕ) (q : Backlog T) (item : T)
      → 3 ≤ capacity
      → m < usize_mod - 1
      → total q.items + payload_bytes item < usize_mod
      → IsBounded capacity m q
      → IsBounded capacity m (enqueue q item capacity m).0
  unfolding enqueue
  enqueue-IsBounded laws capacity m q item h w r b =
      let (b', f, le) = pop_replaced-IsBounded laws item m capacity q b in
      make_room-IsBounded laws item m capacity (pop_replaced q item) h w (omega (arith, le)) f b'
