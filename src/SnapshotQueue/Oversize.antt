-- ===== src/SnapshotQueue/Oversize.antt =====
-- The eviction loop of src-tauri/src/clipboard/snapshot_queue.rs for an oversized item: every
-- droppable item goes, and at most one retained item is left.
use native.Mathlib.Numerals.{add-one}
use cubby_clipboard.Prelude.{
  ℕ, zero, suc, ◌+◌, ◌-◌, ◌≤◌, ◌<◌, ◌≡◌, refl, inl, inr, true, false, List, [], ◌∷◌, none, some,
  length, get_elem?, arith, Bool-cases, Option-cases,
}
use cubby_clipboard.SnapshotQueue.{SizedPayload, Flood, evict, oversize_loop, remove_at}
use cubby_clipboard.SnapshotQueue.Totals.{ClearLaws, total, small_total}
use cubby_clipboard.SnapshotQueue.Coalescing.{
  IsApart, collapse, collapse-IsApart, length-collapse, total-collapse,
}
use cubby_clipboard.SnapshotQueue.Eviction.{evict_lem}
use cubby_clipboard.SnapshotQueue.Coalescing.{droppables, collapse_from}

module _ {ℓ} {T : Type ℓ} ⦃p : SizedPayload T⦄ where
  open p use {payload_bytes, retain_on_flood}

  -- The items before the index, one at most, are retained.
  abbrev HasPassed : ℕ → List T → Type 0
  HasPassed zero xs = Unit {0}
  HasPassed (suc zero) [] = ⊥
  HasPassed (suc zero) (x ∷ xs) = retain_on_flood x ≡ true
  HasPassed (suc (suc i)) xs = ⊥

  collapse_from-HasPassed :
      (x : T) (ys : List T) → retain_on_flood x ≡ true → HasPassed 1 (collapse_from x ys)
  unfolding collapse_from
  collapse_from-HasPassed x [] h = h
  collapse_from-HasPassed x (y ∷ ys) h = ground (arith, collapse_from-HasPassed y ys)

  pub record IsSwept (bound : ℕ) (s : Flood T) : Type ℓ where
    pub exact : s.queued_bytes ≡ total s.items
    pub within : total s.items ≤ bound
    pub apart : IsApart s.items

  -- Where the loop stops.
  stop_none :
      (index : ℕ) (xs : List T)
      → HasPassed index xs
      → get_elem? xs index ≡ none
      → droppables xs ≡ []
  stop_none zero [] h e = refl
  stop_none zero (x ∷ xs) h e = cc
  stop_none (suc zero) (x ∷ []) h e = ground arith
  stop_none (suc zero) (x ∷ y ∷ ys) h e = cc
  stop_none (suc zero) [] h e = absurd h
  stop_none (suc (suc i)) xs h e = absurd h

  -- A retained item at the index can only be the first.
  step_retained :
      (index : ℕ) (xs : List T) {x : T}
      → HasPassed index xs
      → IsApart xs
      → get_elem? xs index ≡ some x
      → retain_on_flood x ≡ true
      → HasPassed (suc index) xs
  step_retained zero [] h a e r = cc
  step_retained zero (x ∷ xs) h a e r = ground arith
  step_retained (suc zero) [] h a e r = absurd h
  step_retained (suc zero) (x ∷ []) h a e r = cc
  step_retained (suc zero) (x ∷ y ∷ ys) h a e r = ground arith
  step_retained (suc (suc i)) xs h a e r = absurd h

  step_evicted :
      (index : ℕ) (xs : List T) {x : T}
      → HasPassed index xs
      → get_elem? xs index ≡ some x
      → HasPassed index (collapse (remove_at xs index))
  unfolding remove_at collapse
  step_evicted zero xs h e = tt
  step_evicted (suc zero) [] h e = absurd h
  step_evicted (suc zero) (x ∷ []) h e = cc
  step_evicted (suc zero) (x ∷ y ∷ ys) h e = collapse_from-HasPassed x ys h
  step_evicted (suc (suc i)) xs h e = absurd h

  get_elem?-lt : (xs : List T) (i : ℕ) {x : T} → get_elem? xs i ≡ some x → i < length xs
  get_elem?-lt [] i e = cc
  get_elem?-lt (x ∷ xs) zero e = omega arith
  get_elem?-lt (x ∷ xs) (suc i) e = omega (arith, get_elem?-lt xs i e)

  total-remove_at :
      (xs : List T) (i : ℕ) {x : T}
      → get_elem? xs i ≡ some x
      → (total xs ≡ payload_bytes x + total (remove_at xs i))
        × (length xs ≡ suc (length (remove_at xs i)))
  unfolding remove_at
  total-remove_at [] i e = cc
  total-remove_at (x ∷ xs) zero e = ground arith
  total-remove_at (x ∷ xs) (suc i) e = ground (arith, total-remove_at xs i e)

  module _ (laws : ClearLaws T) (bound : ℕ) where
    evict-IsSwept :
        (s : Flood T) (i : ℕ) {x : T}
        → get_elem? s.items i ≡ some x
        → IsSwept bound s
        → let t = evict x (remove_at s.items i) false s in
          IsSwept bound t × (length t.items < length s.items)
    evict-IsSwept s i {x} e k =
        let rest = remove_at s.items i in
        let sums = total-remove_at s.items i e in
        rw (evict_lem laws x rest false s) (
          record {
            exact = omega (arith, sums, k, total-collapse laws rest);
            within = omega (arith, sums, k, total-collapse laws rest);
            apart = collapse-IsApart rest;
          },
          omega (arith, length-collapse rest, sums),
        )

    pub oversize_loop-IsSwept :
        (fuel index : ℕ) (s : Flood T)
        → HasPassed index s.items
        → length s.items - index < fuel
        → IsSwept bound s
        → let t = oversize_loop fuel index s in IsSwept bound t × (droppables t.items ≡ [])
    unfolding oversize_loop
    oversize_loop-IsSwept zero index s h l k = absurd (omega arith)
    oversize_loop-IsSwept (suc fuel) index s h l k = elim (Option-cases (get_elem? s.items index)) [
      | inl e ↦ rw (e, oversize_loop) (k, stop_none index s.items h e)
      | inr (x, e) ↦ elim (Bool-cases (retain_on_flood x)) [
        | inl r ↦
            rw (e, oversize_loop)
              (rw (r, oversize_loop)
                (oversize_loop-IsSwept fuel (index + 1) s
                  (rw add-one (step_retained index s.items h k.apart e r))
                  (omega (arith, get_elem?-lt s.items index e)) k))
        | inr r ↦
            let next = evict-IsSwept s index e k in
            rw (e, oversize_loop)
              (rw (r, oversize_loop)
                (oversize_loop-IsSwept fuel index (evict x (remove_at s.items index) false s)
                  (rw (evict_lem laws x (remove_at s.items index) false s)
                    (step_evicted index s.items h e))
                  (omega (arith, next.1, get_elem?-lt s.items index e)) next.0))
      ]
    ]

    -- Without droppable items, one item at most is left, and it has no bytes.
    pub no_droppables :
        (m : ℕ) (xs : List T)
        → droppables xs ≡ []
        → IsApart xs
        → (length xs ≤ 1) × (small_total m xs ≡ 0)
    no_droppables m [] d a = omega arith
    no_droppables m (x ∷ []) d a = ground (arith, laws.retained_bytes x)
    no_droppables m (x ∷ y ∷ ys) d a = ground arith
