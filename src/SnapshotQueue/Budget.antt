-- ===== src/SnapshotQueue/Budget.antt =====
-- The eviction loop of src-tauri/src/clipboard/snapshot_queue.rs for an item within the budget.
use cubby_clipboard.Prelude.{
  ℕ, zero, suc, ◌+◌, ◌-◌, ◌≤◌, ◌<◌, ◌≡◌, refl, inl, inr, Bool, true, false, List, Option, none,
  some, length, arith, leb, Option-cases,
}
use cubby_clipboard.SnapshotQueue.{
  SizedPayload, Flood, take_first, last, is_droppable, is_small, evict, budget_step, budget_loop,
  usize_mod, saturating_add,
}
use cubby_clipboard.SnapshotQueue.Totals.{ClearLaws, total, small_total, small_total-le-total}
use cubby_clipboard.SnapshotQueue.Coalescing.{
  IsApart, collapse-IsApart, length-collapse, last-collapse, total-collapse, small_total-collapse,
}
use cubby_clipboard.SnapshotQueue.Eviction.{
  Taken, take_first-Taken, last-take_first, take_first-none, take_first-none_small, evict_lem,
}
use cubby_clipboard.SnapshotQueue.Back.{IsFreeBack}

module _ {ℓ} {T : Type ℓ} ⦃p : SizedPayload T⦄ where
  open p use {payload_bytes, retain_on_flood}

  -- What the eviction loop keeps.
  pub record IsKept (item : T) (capacity m : ℕ) (s : Flood T) : Type ℓ where
    pub count_bound : length s.items ≤ capacity
    pub byte_bound : s.counted_bytes ≤ m
    pub counted_exact : s.counted_bytes ≡ small_total m s.items
    pub queued_exact : s.queued_bytes ≡ total s.items
    pub room : total s.items + payload_bytes item < usize_mod
    pub apart : IsApart s.items
    pub free_back : IsFreeBack item (last s.items)

  module _ (laws : ClearLaws T) (item : T) (capacity m : ℕ) where
    evict-IsKept :
        (test : T → Bool) (counts : Bool) (s : Flood T) (old : T) (rest : List T)
        → Taken test m s.items old rest
        → counts ≡ leb (payload_bytes old) m
        → IsFreeBack item (last rest)
        → IsKept item capacity m s
        → IsKept item capacity m (evict old rest counts s)
          × (length (evict old rest counts s).items < length s.items)
    evict-IsKept test counts s old rest taken c back k = rw (evict_lem laws old rest counts s) (
      record {
        count_bound = omega (arith, length-collapse rest, taken, k);
        byte_bound = ground (arith, k.byte_bound);
        counted_exact =
            ground (arith, k.counted_exact, taken.small_taken, small_total-collapse laws m rest);
        queued_exact = omega (arith, taken, k, total-collapse laws rest);
        room = omega (arith, taken, k, total-collapse laws rest);
        apart = collapse-IsApart rest;
        free_back = rw (last-collapse rest) back;
      },
      omega (arith, length-collapse rest, taken),
    )

    -- An item that must wait for bytes has some, so it is not retained.
    waiting_free :
        (s : Flood T) (o : Option T)
        → s.counted_bytes ≤ m
        → m < usize_mod - 1
        → leb (saturating_add s.counted_bytes (payload_bytes item)) m ≡ false
        → IsFreeBack item o
    unfolding saturating_add
    waiting_free s none h w e = tt
    waiting_free s (some x) h w e = ground (arith, laws.retained_bytes item)

    small_evict-IsKept :
        (s : Flood T) (old : T) (rest : List T)
        → take_first (is_small m) s.items ≡ some (old, rest)
        → m < usize_mod - 1
        → leb (saturating_add s.counted_bytes (payload_bytes item)) m ≡ false
        → IsKept item capacity m s
        → IsKept item capacity m (evict old rest true s)
          × (length (evict old rest true s).items < length s.items)
    small_evict-IsKept s old rest e w b k =
        let taken = take_first-Taken (is_small m) m s.items e in
        evict-IsKept (is_small m) true s old rest taken (ground (arith, taken.passes))
          (waiting_free s (last rest) k.byte_bound w b) k

    oldest_evict-IsKept :
        (s : Flood T) (old : T) (rest : List T)
        → take_first is_droppable s.items ≡ some (old, rest)
        → 3 ≤ length s.items
        → IsKept item capacity m s
        → let t = evict old rest (leb (payload_bytes old) m) s in
          IsKept item capacity m t × (length t.items < length s.items)
    oldest_evict-IsKept s old rest e l k =
        evict-IsKept is_droppable (leb (payload_bytes old) m) s old rest
          (take_first-Taken is_droppable m s.items e) refl
          (rw (last-take_first s.items k.apart l e) k.free_back) k

    budget_step-IsKept :
        (s t : Flood T)
        → 3 ≤ capacity
        → m < usize_mod - 1
        → budget_step (payload_bytes item) capacity m s ≡ some t
        → IsKept item capacity m s
        → IsKept item capacity m t × (length t.items < length s.items)
    unfolding budget_step
    budget_step-IsKept s t h w e k = elim (Option-cases (take_first is_droppable s.items)) [
      | inl n ↦ elim (Option-cases (take_first (is_small m) s.items)) [
        | inl n' ↦ absurd (ground arith)
        | inr ((old, rest), f) ↦ ground (arith, small_evict-IsKept s old rest f w)
      ]
      | inr ((old, rest), f) ↦ elim (Option-cases (take_first (is_small m) s.items)) [
        | inl n' ↦ ground (arith, oldest_evict-IsKept s old rest f)
        | inr ((old', rest'), f') ↦
            ground (arith, oldest_evict-IsKept s old rest f, small_evict-IsKept s old' rest' f' w)
      ]
    ]

    -- The loop breaks only when there is room.
    budget_step-none :
        (s : Flood T)
        → 3 ≤ capacity
        → payload_bytes item ≤ m
        → budget_step (payload_bytes item) capacity m s ≡ none
        → IsKept item capacity m s
        → (length s.items < capacity) × (s.counted_bytes + payload_bytes item ≤ m)
    unfolding budget_step saturating_add
    budget_step-none s h b e k =
        let sums = small_total-le-total m s.items in
        let bare = take_first-none_small laws m s.items in
        elim (Option-cases (take_first is_droppable s.items)) [
          | inl n ↦ ground (arith, take_first-none s.items k.apart n, bare, sums)
          | inr ((old, rest), f) ↦ ground (arith, bare, sums)
        ]

    -- With more fuel than items, the loop ends by its break.
    pub budget_loop-IsKept :
        (fuel : ℕ) (s : Flood T)
        → 3 ≤ capacity
        → m < usize_mod - 1
        → payload_bytes item ≤ m
        → length s.items < fuel
        → IsKept item capacity m s
        → let t = budget_loop fuel (payload_bytes item) capacity m s in
          IsKept item capacity m t
          × (length t.items < capacity)
          × (t.counted_bytes + payload_bytes item ≤ m)
    unfolding budget_loop
    budget_loop-IsKept zero s h w b l k = absurd (omega arith)
    budget_loop-IsKept (suc fuel) s h w b l k =
        elim (Option-cases (budget_step (payload_bytes item) capacity m s)) [
          | inl e ↦ let room = budget_step-none s h b e k in rw (e, budget_loop) (k, room.0, room.1)
          | inr (t, e) ↦
              let next = budget_step-IsKept s t h w e k in
              rw (e, budget_loop) (budget_loop-IsKept fuel t h w b (omega (arith, next.1)) next.0)
        ]
