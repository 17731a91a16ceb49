-- ===== src/SnapshotQueue/Survivors.antt =====
-- Which items an `enqueue` of src-tauri/src/clipboard/snapshot_queue.rs evicts, and which it keeps.
use mathlib.Core.List.{Perm, Sublist, append_assoc, perm-append_left_iff}
use mathlib.Core.List.Perm
use mathlib.Core.List.Sublist
use cubby_clipboard.Prelude.{
  ℕ, zero, suc, ◌+◌, ◌≤◌, ◌<◌, ◌≡◌, refl, inl, inr, Bool, true, false, List, [], ◌∷◌, ◌++◌, some,
  length, get_elem?, length-append, arith, leb, ltb, Bool-cases, Option-cases, All, All-append,
}
use cubby_clipboard.SnapshotQueue.{
  SizedPayload, Flood, Backlog, EnqueueOutcome, queued, queued_after_drop, take_first, last,
  drop_last, is_droppable, is_small, evict, budget_step, budget_loop, usize_mod, oversize_loop,
  remove_at, wrapping_add, pop_replaced, start, make_room, push_back, enqueue, outcome,
}
use cubby_clipboard.SnapshotQueue.Totals.{ClearLaws}
use cubby_clipboard.SnapshotQueue.Coalescing.{droppables, droppables-collapse, length-collapse}
use cubby_clipboard.SnapshotQueue.Eviction.{evict_lem}
use cubby_clipboard.SnapshotQueue.Removal.{
  IsRemoval, collapse-sublist, drop_last-sublist, take_first-IsRemoval, remove_at-IsRemoval,
}

module _ {ℓ} {T : Type ℓ} ⦃p : SizedPayload T⦄ where
  open p use {payload_bytes, retain_on_flood}

  -- How a flood has split the items that the queue had at first.
  record HasSplit (orig : List T) (s : Flood T) : Type ℓ where
    kept : Sublist s.items orig
    split : Perm (droppables orig) (s.evicted ++ droppables s.items)
    droppable : All (λ x. retain_on_flood x ≡ false) s.evicted
    count : s.dropped ≡ length s.evicted
    fits : length s.evicted + length s.items < usize_mod

  module _ (laws : ClearLaws T) (orig : List T) where
    evict-HasSplit :
        (counts : Bool) (s : Flood T) {x : T} {rest : List T}
        → IsRemoval s.items x rest
        → HasSplit orig s
        → HasSplit orig (evict x rest counts s)
    unfolding wrapping_add
    evict-HasSplit counts s {x} {rest} r h = rw (evict_lem laws x rest counts s) record {
      kept = Sublist.trans (collapse-sublist rest) (Sublist.trans r.rest_sublist h.kept);
      split = Perm.trans h.split (
          rw (droppables-collapse rest, append_assoc s.evicted (x ∷ []) (droppables rest))
            ((perm-append_left_iff s.evicted).1 r.rest_perm));
      droppable = All-append _ s.evicted (x ∷ []) h.droppable (r.gone, tt);
      count = omega (arith, h, r.rest_length, length-append s.evicted (x ∷ []));
      fits =
          omega (arith, h, r.rest_length, length-append s.evicted (x ∷ []), length-collapse rest);
    }

    budget_step-HasSplit :
        (item_bytes capacity m : ℕ) (s t : Flood T)
        → budget_step item_bytes capacity m s ≡ some t
        → HasSplit orig s
        → HasSplit orig t
    unfolding budget_step
    budget_step-HasSplit item_bytes capacity m s t e h =
        elim (Option-cases (take_first is_droppable s.items)) [
          | inl n ↦ elim (Option-cases (take_first (is_small m) s.items)) [
            | inl n' ↦ absurd (ground arith)
            | inr ((x, xs), f) ↦
                let small = take_first-IsRemoval (is_small m) s.items f (λ q. ground arith) in
                ground (arith, evict-HasSplit true s small h)
          ]
          | inr ((y, ys), g) ↦
              let oldest = take_first-IsRemoval is_droppable s.items g (λ q. ground arith) in
              elim (Option-cases (take_first (is_small m) s.items)) [
                | inl n' ↦ ground (arith, evict-HasSplit (leb (payload_bytes y) m) s oldest h)
                | inr ((x, xs), f) ↦
                    let small = take_first-IsRemoval (is_small m) s.items f (λ q. ground arith) in
                    ground (
                      arith,
                      evict-HasSplit true s small h,
                      evict-HasSplit (leb (payload_bytes y) m) s oldest h,
                    )
              ]
        ]

    budget_loop-HasSplit :
        (fuel item_bytes capacity m : ℕ) (s : Flood T)
        → HasSplit orig s
        → HasSplit orig (budget_loop fuel item_bytes capacity m s)
    unfolding budget_loop
    budget_loop-HasSplit zero item_bytes capacity m s h = h
    budget_loop-HasSplit (suc fuel) item_bytes capacity m s h =
        elim (Option-cases (budget_step item_bytes capacity m s)) [
          | inl e ↦ rw (e, budget_loop) h
          | inr (t, e) ↦
              rw (e, budget_loop)
                (budget_loop-HasSplit fuel item_bytes capacity m t
                  (budget_step-HasSplit item_bytes capacity m s t e h))
        ]

    oversize_loop-HasSplit :
        (fuel index : ℕ) (s : Flood T)
        → HasSplit orig s
        → HasSplit orig (oversize_loop fuel index s)
    unfolding oversize_loop
    oversize_loop-HasSplit zero index s h = h
    oversize_loop-HasSplit (suc fuel) index s h = elim (Option-cases (get_elem? s.items index)) [
      | inl e ↦ rw (e, oversize_loop) h
      | inr (x, e) ↦ elim (Bool-cases (retain_on_flood x)) [
        | inl r ↦
            rw (e, oversize_loop)
              (rw (r, oversize_loop) (oversize_loop-HasSplit fuel (index + 1) s h))
        | inr r ↦
            rw (e, oversize_loop)
              (rw (r, oversize_loop)
                (oversize_loop-HasSplit fuel index (evict x (remove_at s.items index) false s)
                  (evict-HasSplit false s (remove_at-IsRemoval s.items index e r) h)))
      ]
    ]

  length-drop_last : (xs : List T) → length (drop_last xs) ≤ length xs
  unfolding drop_last
  length-drop_last [] = omega arith
  length-drop_last (x ∷ []) = omega arith
  length-drop_last (x ∷ y ∷ ys) = omega (arith, length-drop_last (y ∷ ys))

  length_zero : (xs : List T) → length xs ≡ 0 → xs ≡ []
  length_zero [] h = refl
  length_zero (x ∷ xs) h = absurd (omega arith)

  start-HasSplit :
      (q : Backlog T) (c : ℕ) → length q.items < usize_mod → HasSplit q.items (start q c)
  unfolding start
  start-HasSplit q c l = record {
    kept = Sublist.refl q.items;
    split = Perm.refl (droppables q.items);
    droppable = tt;
    count = refl;
    fits = omega arith;
  }

  make_room-HasSplit :
      (laws : ClearLaws T) (q : Backlog T) (item_bytes capacity m : ℕ)
      → length q.items < usize_mod
      → HasSplit q.items (make_room q item_bytes capacity m)
  unfolding make_room
  make_room-HasSplit laws q item_bytes capacity m l = elim (Bool-cases (ltb m item_bytes)) [
    | inl e ↦ rw e (
        oversize_loop-HasSplit laws q.items (suc (length q.items)) 0 (start q 0)
          (start-HasSplit q 0 l))
    | inr e ↦ rw e (
        budget_loop-HasSplit laws q.items (suc (length q.items)) item_bytes capacity m _
          (start-HasSplit q _ l))
  ]

  droppables-drop_last :
      (xs : List T) {x : T}
      → last xs ≡ some x
      → retain_on_flood x ≡ true
      → droppables (drop_last xs) ≡ droppables xs
  unfolding last drop_last
  droppables-drop_last [] e r = cc
  droppables-drop_last (x ∷ []) e r = ground arith
  droppables-drop_last (x ∷ y ∷ ys) e r = ground (arith, droppables-drop_last (y ∷ ys) e r)

  pop_replaced_items :
      (laws : ClearLaws T) (q : Backlog T) (item : T)
      → Sublist (pop_replaced q item).items q.items
        × (droppables (pop_replaced q item).items ≡ droppables q.items)
  unfolding pop_replaced
  pop_replaced_items laws q item = elim (Option-cases (last q.items)) [
    | inl e ↦ rw (e, pop_replaced) (Sublist.refl q.items, refl)
    | inr (x, e) ↦ elim (Bool-cases (p.replaces_queued item x)) [
      | inl r ↦
          rw (e, pop_replaced)
            (rw (r, pop_replaced)
              (
                drop_last-sublist q.items,
                droppables-drop_last q.items e (ground (arith, laws.replaces_iff_retained item x)),
              ))
      | inr r ↦ rw (e, pop_replaced) (rw (r, pop_replaced) (Sublist.refl q.items, refl))
    ]
  ]

  length-pop_replaced :
      (q : Backlog T) (item : T) → length (pop_replaced q item).items ≤ length q.items
  unfolding pop_replaced
  length-pop_replaced q item = ground (arith, length-drop_last q.items)

  -- The items that an outcome hands back.
  abbrev pub evicted_items : EnqueueOutcome T → List T
  evicted_items queued = []
  evicted_items (queued_after_drop dropped bytes items) = items

  evicted_items-outcome :
      (orig : List T) (s : Flood T) → HasSplit orig s → evicted_items (outcome s) ≡ s.evicted
  unfolding outcome
  evicted_items-outcome orig s h = ground (arith, h.count, length_zero s.evicted)

  -- `enqueue` puts the new item at the back. Before it stand items of the old queue in their old
  -- order. The droppable items of the old queue are those still there and those handed back, each as
  -- often as it was, and what is handed back is droppable. The payload keeps the laws of a clear,
  -- and the queue has fewer items than a `usize` can count.
  pub enqueue_partition :
      (laws : ClearLaws T) (capacity m : ℕ) (q : Backlog T) (item : T)
      → length q.items < usize_mod
      → let (r, o) = enqueue q item capacity m in
        (kept : List T) × (r.items ≡ kept ++ item ∷ [])
        × Sublist kept q.items
        × Perm (droppables q.items) (evicted_items o ++ droppables kept)
        × All (λ x. retain_on_flood x ≡ false) (evicted_items o)
  unfolding enqueue push_back
  enqueue_partition laws capacity m q item l =
      let (sub, same) = pop_replaced_items laws q item in
      let h =
        make_room-HasSplit laws (pop_replaced q item) (payload_bytes item) capacity m
          (omega (arith, length-pop_replaced q item)) in
      let s : Flood T = make_room (pop_replaced q item) (payload_bytes item) capacity m in
      let back = evicted_items-outcome (pop_replaced q item).items s h in
      (s.items, refl, Sublist.trans h.kept sub, rw (back, ← same) h.split, rw back h.droppable)
