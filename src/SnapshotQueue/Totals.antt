-- ===== src/SnapshotQueue/Totals.antt =====
-- Sums of payload bytes over the queue of src-tauri/src/clipboard/snapshot_queue.rs, without
-- saturation, and the laws of the production payload that the queue relies on.
use cubby_clipboard.Prelude.{
  ℕ, ◌+◌, ◌≤◌, ◌<◌, ◌≡◌, true, ◌&&◌, List, [], ◌∷◌, ◌++◌, arith, leb, if◌then◌else◌,
}
use cubby_clipboard.SnapshotQueue.{
  SizedPayload, usize_mod, saturating_add, counted_non_oversize_bytes,
}

-- An item replaces an older one exactly if both are retained, and a retained item has no bytes.
pub record ClearLaws {ℓ} (T : Type ℓ) ⦃p : SizedPayload T⦄ : Type ℓ where
  pub replaces_iff_retained :
      (newer older : T)
      → p.replaces_queued newer older ≡ (p.retain_on_flood newer && p.retain_on_flood older)
  pub retained_bytes : (x : T) → p.retain_on_flood x ≡ true → p.payload_bytes x ≡ 0

module _ {ℓ} {T : Type ℓ} ⦃p : SizedPayload T⦄ where
  open p use {payload_bytes}

  abbrev pub total : List T → ℕ
  total [] = 0
  total (x ∷ xs) = payload_bytes x + total xs

  -- The bytes of the items that are not oversized.
  abbrev pub small_total : ℕ → List T → ℕ
  small_total max_bytes [] = 0
  small_total max_bytes (x ∷ xs) =
      (if leb (payload_bytes x) max_bytes then payload_bytes x else 0) + small_total max_bytes xs

  pub total-append : (xs ys : List T) → total (xs ++ ys) ≡ total xs + total ys
  total-append [] ys = omega arith
  total-append (x ∷ xs) ys = omega (arith, total-append xs ys)

  pub small_total-append :
      (max_bytes : ℕ) (xs ys : List T)
      → small_total max_bytes (xs ++ ys) ≡ small_total max_bytes xs + small_total max_bytes ys
  small_total-append max_bytes [] ys = omega arith
  small_total-append max_bytes (x ∷ xs) ys = omega (arith, small_total-append max_bytes xs ys)

  pub small_total-le-total : (max_bytes : ℕ) (xs : List T) → small_total max_bytes xs ≤ total xs
  small_total-le-total max_bytes [] = omega arith
  small_total-le-total max_bytes (x ∷ xs) = ground (arith, small_total-le-total max_bytes xs)

  pub counted-small_total :
      (xs : List T) (max_bytes sum : ℕ)
      → sum + total xs < usize_mod
      → counted_non_oversize_bytes xs max_bytes sum ≡ sum + small_total max_bytes xs
  unfolding counted_non_oversize_bytes saturating_add
  counted-small_total [] max_bytes sum h = omega arith
  counted-small_total (x ∷ xs) max_bytes sum h = ground (
    arith,
    counted-small_total xs max_bytes sum,
    counted-small_total xs max_bytes (sum + payload_bytes x),
    counted-small_total xs max_bytes (saturating_add sum (payload_bytes x)),
  )
