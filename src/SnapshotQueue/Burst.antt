-- ===== src/SnapshotQueue/Burst.antt =====
-- A burst within both budgets passes through the queue of
-- src-tauri/src/clipboard/snapshot_queue.rs whole and in order.
use mathlib.Core.List.{append_assoc, append-nil}
use cubby_clipboard.Prelude.{
  ℕ, zero, suc, ◌+◌, ◌-◌, ◌≤◌, ◌<◌, ◌≡◌, refl, sym, ap, ◌∙◌, inl, inr, false, List, [], ◌∷◌, ◌++◌,
  none, some, length, length-append, arith, Option-cases, All,
}
use cubby_clipboard.SnapshotQueue.{
  SizedPayload, Flood, Backlog, queued, last, budget_step, budget_loop, usize_mod, saturating_add,
  pop_replaced, start, make_room, push_back, enqueue, dequeue, outcome, counted_non_oversize_bytes,
}
use cubby_clipboard.SnapshotQueue.Totals.{
  ClearLaws, total, total-append, counted-small_total, small_total-le-total,
}

module _ {ℓ} {T : Type ℓ} ⦃p : SizedPayload T⦄ where
  open p use {payload_bytes, retain_on_flood}

  budget_loop_fits :
      (fuel bytes capacity m : ℕ) (s : Flood T)
      → length s.items < capacity
      → s.counted_bytes + bytes ≤ m
      → m < usize_mod
      → budget_loop (suc fuel) bytes capacity m s ≡ s
  unfolding budget_loop budget_step saturating_add
  budget_loop_fits fuel bytes capacity m s l b w = ground arith

  pop_replaced_free :
      (laws : ClearLaws T) (q : Backlog T) (item : T)
      → retain_on_flood item ≡ false
      → pop_replaced q item ≡ q
  unfolding pop_replaced
  pop_replaced_free laws q item r = elim (Option-cases (last q.items)) [
    | inl e ↦ rw (e, pop_replaced)
    | inr (x, e) ↦ ground (arith, laws.replaces_iff_retained item x)
  ]

  make_room_fits :
      (q : Backlog T) (bytes capacity m : ℕ)
      → length q.items < capacity
      → total q.items + bytes ≤ m
      → m < usize_mod
      → make_room q bytes capacity m ≡ start q (counted_non_oversize_bytes q.items m 0)
  unfolding make_room start
  make_room_fits q bytes capacity m l b w =
      let sums = small_total-le-total m q.items in
      let counted = counted-small_total q.items m 0 (omega arith) in
      ground (
        arith,
        budget_loop_fits (length q.items) bytes capacity m
            (start q (counted_non_oversize_bytes q.items m 0)) l (omega (arith, counted, sums)) w,
      )

  -- An item that is not retained and fits both budgets joins the back, and nothing is evicted. The
  -- payload keeps the laws of a clear and `queued_bytes` is the sum of the payload bytes.
  pub enqueue_fits :
      (laws : ClearLaws T) (capacity m : ℕ) (q : Backlog T) (item : T)
      → retain_on_flood item ≡ false
      → length q.items < capacity
      → total q.items + payload_bytes item ≤ m
      → m < usize_mod
      → q.queued_bytes ≡ total q.items
      → enqueue q item capacity m ≡ (
        record { items = q.items ++ item ∷ []; queued_bytes = q.queued_bytes + payload_bytes item },
        queued,
      )
  unfolding enqueue push_back outcome start saturating_add
  enqueue_fits laws capacity m q item r l b w e =
      rw (pop_replaced_free laws q item r)
        (rw (make_room_fits q (payload_bytes item) capacity m l b w) (ground arith))

  -- Each item of a list is queued in turn.
  pub enqueue_all : ℕ → ℕ → Backlog T → List T → Backlog T
  enqueue_all capacity m q [] = q
  enqueue_all capacity m q (x ∷ xs) = enqueue_all capacity m (enqueue q x capacity m).0 xs

  -- What at most so many calls of `dequeue` return.
  pub dequeue_all : ℕ → Backlog T → List T
  dequeue_all zero q = []
  dequeue_all (suc n) q =
      let (front, rest) = dequeue q in elim front [ none ↦ [] | some x ↦ x ∷ dequeue_all n rest ]

  enqueue_all_items :
      (laws : ClearLaws T) (capacity m : ℕ) (q : Backlog T) (xs : List T)
      → All (λ x. retain_on_flood x ≡ false) xs
      → length q.items + length xs ≤ capacity
      → total q.items + total xs ≤ m
      → m < usize_mod
      → q.queued_bytes ≡ total q.items
      → (enqueue_all capacity m q xs).items ≡ q.items ++ xs
  unfolding enqueue_all
  enqueue_all_items laws capacity m q [] a l b w e = sym (append-nil q.items)
  enqueue_all_items laws capacity m q (x ∷ xs) a l b w e =
      let r : Backlog T = record {
        items = q.items ++ x ∷ [];
        queued_bytes = q.queued_bytes + payload_bytes x;
      } in
      let len = length-append q.items (x ∷ []) in
      let sum = total-append q.items (x ∷ []) in
      rw (enqueue_fits laws capacity m q x a.0 (omega arith) (omega arith) w e, enqueue_all)
        (enqueue_all_items laws capacity m r xs a.1 (omega (arith, len)) (omega (arith, sum)) w
            (omega (arith, sum))
          ∙ append_assoc q.items (x ∷ []) xs)

  dequeue_all_items :
      (xs : List T) (b : ℕ) → dequeue_all (length xs) (record { items = xs; queued_bytes = b }) ≡ xs
  unfolding dequeue_all dequeue
  dequeue_all_items [] b = refl
  dequeue_all_items (x ∷ xs) b = ap (◌∷◌ x) (dequeue_all_items xs (b - payload_bytes x))

  -- Items that are not retained, at most `capacity` of them and with at most `m` bytes in all, come
  -- out of an empty queue as they went in: none is lost and the order is kept. The payload keeps
  -- the laws of a clear.
  pub dequeue_all-enqueue_all :
      (laws : ClearLaws T) (capacity m : ℕ) (xs : List T)
      → All (λ x. retain_on_flood x ≡ false) xs
      → length xs ≤ capacity
      → total xs ≤ m
      → m < usize_mod
      → dequeue_all
          (length xs)
          (enqueue_all capacity m (record { items = []; queued_bytes = 0 }) xs)
        ≡ xs
  dequeue_all-enqueue_all laws capacity m xs a l b w =
      let q : Backlog T = enqueue_all capacity m (record { items = []; queued_bytes = 0 }) xs in
      let same : q.items ≡ xs =
        enqueue_all_items laws capacity m (record { items = []; queued_bytes = 0 }) xs a
          (omega arith) (omega arith) w refl in
      rw (ap length (sym same)) (dequeue_all_items q.items q.queued_bytes) ∙ same
