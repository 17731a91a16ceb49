-- ===== src/SnapshotQueue/Back.antt =====
-- The item at the back of the queue of src-tauri/src/clipboard/snapshot_queue.rs.
use cubby_clipboard.Prelude.{
  ℕ, suc, ◌+◌, ◌≤◌, ◌≡◌, true, false, ◌&&◌, List, [], ◌∷◌, ◌++◌, Option, none, some, length, arith,
}
use cubby_clipboard.SnapshotQueue.{SizedPayload, last, drop_last}
use cubby_clipboard.SnapshotQueue.Totals.{total, small_total}
use cubby_clipboard.SnapshotQueue.Coalescing.{IsApart, IsApartFrom}

module _ {ℓ} {T : Type ℓ} ⦃p : SizedPayload T⦄ where
  open p use {payload_bytes, retain_on_flood}

  -- The item at the back, if there is one, is not retained together with `item`.
  abbrev pub IsFreeBack : T → Option T → Type 0
  IsFreeBack item none = Unit {0}
  IsFreeBack item (some back) = (retain_on_flood item && retain_on_flood back) ≡ false

  drop_last-IsApartFrom : (x : T) (xs : List T) → IsApartFrom x xs → IsApart (drop_last (x ∷ xs))
  unfolding drop_last
  drop_last-IsApartFrom x [] h = tt
  drop_last-IsApartFrom x (y ∷ []) h = tt
  drop_last-IsApartFrom x (y ∷ z ∷ zs) h = (h.0, drop_last-IsApartFrom y (z ∷ zs) h.1)

  pub drop_last-IsApart : (xs : List T) → IsApart xs → IsApart (drop_last xs)
  unfolding drop_last
  drop_last-IsApart [] h = tt
  drop_last-IsApart (x ∷ xs) h = drop_last-IsApartFrom x xs h

  pub drop_last_sums :
      (m : ℕ) (xs : List T) {x : T}
      → last xs ≡ some x
      → (length xs ≡ suc (length (drop_last xs)))
        × (total xs ≡ total (drop_last xs) + payload_bytes x)
        × (small_total m (drop_last xs) ≤ small_total m xs)
  unfolding last drop_last
  drop_last_sums m [] e = cc
  drop_last_sums m (x ∷ []) e = ground arith
  drop_last_sums m (x ∷ y ∷ ys) e = ground (arith, drop_last_sums m (y ∷ ys) e)

  -- The item under a retained back is not retained.
  pub drop_last-IsFreeBack :
      (item : T) (xs : List T) {x : T}
      → IsApart xs
      → last xs ≡ some x
      → retain_on_flood x ≡ true
      → IsFreeBack item (last (drop_last xs))
  unfolding drop_last last
  drop_last-IsFreeBack item [] a e r = tt
  drop_last-IsFreeBack item (x ∷ []) a e r = tt
  drop_last-IsFreeBack item (x ∷ y ∷ []) a e r = ground arith
  drop_last-IsFreeBack item (x ∷ y ∷ z ∷ zs) a e r = drop_last-IsFreeBack item (y ∷ z ∷ zs) a.1 e r

  pub append-IsApart :
      (item : T) (xs : List T) → IsApart xs → IsFreeBack item (last xs) → IsApart (xs ++ item ∷ [])
  unfolding last
  append-IsApart item [] a f = tt
  append-IsApart item (x ∷ []) a f = (f, tt)
  append-IsApart item (x ∷ y ∷ ys) a f = (a.0, append-IsApart item (y ∷ ys) a.1 f)
