-- ===== src/SnapshotQueue/Eviction.antt =====
-- One eviction of src-tauri/src/clipboard/snapshot_queue.rs: what `take_first` and `evict` change.
use mathlib.Core.List.{Perm}
use mathlib.Core.List.Perm
use cubby_clipboard.Prelude.{
  ℕ, suc, ◌+◌, ◌-◌, ◌≤◌, ◌≡◌, refl, inl, inr, Bool, true, false, List, [], ◌∷◌, ◌++◌, none, some,
  length, arith, leb, if◌then◌else◌, Bool-cases, Option-cases,
}
use cubby_clipboard.SnapshotQueue.{
  SizedPayload, Flood, take_first, last, is_droppable, is_small, evict, wrapping_add,
}
use cubby_clipboard.SnapshotQueue.Totals.{ClearLaws, total, small_total}
use cubby_clipboard.SnapshotQueue.Coalescing.{IsApart, droppables, collapse, coalesce-collapse}

module _ {ℓ} {T : Type ℓ} ⦃p : SizedPayload T⦄ where
  open p use {payload_bytes, retain_on_flood}

  -- What a successful `take_first` says of the item and of the rest.
  pub record Taken (test : T → Bool) (m : ℕ) (xs : List T) (x : T) (ys : List T) : Type ℓ where
    pub passes : test x ≡ true
    pub length_taken : length xs ≡ suc (length ys)
    pub total_taken : total xs ≡ payload_bytes x + total ys
    pub small_taken :
        small_total m xs
        ≡ (if leb (payload_bytes x) m then payload_bytes x else 0) + small_total m ys

  pub take_first-Taken :
      (test : T → Bool) (m : ℕ) (xs : List T) {x : T} {ys : List T}
      → take_first test xs ≡ some (x, ys)
      → Taken test m xs x ys
  unfolding take_first
  take_first-Taken test m [] h = cc
  take_first-Taken test m (z ∷ zs) h = elim (Option-cases (take_first test zs)) [
    | inl e ↦ ground arith
    | inr ((y, ws), e) ↦ ground (arith, take_first-Taken test m zs {x = y} {ys = ws} e)
  ]

  -- The droppable items are those taken and those left.
  pub take_first-perm :
      (test : T → Bool) (xs : List T) {x : T} {ys : List T}
      → take_first test xs ≡ some (x, ys)
      → retain_on_flood x ≡ false
      → Perm (droppables xs) (x ∷ droppables ys)
  unfolding take_first
  take_first-perm test [] h d = cc
  take_first-perm test (z ∷ zs) {x} {ys} h d = elim (Option-cases (take_first test zs)) [
    | inl e ↦ ground (arith, Perm.refl (z ∷ droppables zs))
    | inr ((y, ws), e) ↦ elim (Bool-cases (test z)) [
      | inl t ↦ ground (arith, Perm.refl (z ∷ droppables zs))
      | inr t ↦
          let d' : retain_on_flood y ≡ false = ground arith in
          let rest = take_first-perm test zs {x = y} {ys = ws} e d' in
          ground (arith, rest, Perm.trans (Perm.cons z rest) (Perm.swap y z (droppables ws)))
    ]
  ]

  -- Of items that are apart, the first droppable one is at most the second, so the last one stays.
  pub last-take_first :
      (xs : List T) {x : T} {ys : List T}
      → IsApart xs
      → 3 ≤ length xs
      → take_first is_droppable xs ≡ some (x, ys)
      → last ys ≡ last xs
  unfolding take_first last
  last-take_first [] a l h = cc
  last-take_first (x ∷ []) a l h = absurd (omega arith)
  last-take_first (x ∷ y ∷ []) a l h = absurd (omega arith)
  last-take_first (x ∷ y ∷ z ∷ zs) a l h = ground arith

  -- Items that are apart and all retained are one at most.
  pub take_first-none :
      (xs : List T) → IsApart xs → take_first is_droppable xs ≡ none → length xs ≤ 1
  unfolding take_first
  take_first-none [] a h = omega arith
  take_first-none (x ∷ []) a h = omega arith
  take_first-none (x ∷ y ∷ ys) a h = ground arith

  module _ (laws : ClearLaws T) where
    -- If no small item can be dropped, the small items are retained and have no bytes.
    pub take_first-none_small :
        (m : ℕ) (xs : List T) → take_first (is_small m) xs ≡ none → small_total m xs ≡ 0
    unfolding take_first
    take_first-none_small m [] h = refl
    take_first-none_small m (x ∷ xs) h = elim (Option-cases (take_first (is_small m) xs)) [
      | inl e ↦ ground (arith, take_first-none_small m xs e, laws.retained_bytes x)
      | inr ((y, ws), e) ↦ ground arith
    ]

    pub evict_lem :
        (old : T) (rest : List T) (counts : Bool) (s : Flood T)
        → evict old rest counts s ≡ record {
          items = collapse rest;
          queued_bytes = s.queued_bytes - payload_bytes old;
          counted_bytes = (if counts then s.counted_bytes - payload_bytes old else s.counted_bytes);
          dropped = wrapping_add s.dropped 1;
          dropped_bytes = wrapping_add s.dropped_bytes (payload_bytes old);
          evicted = s.evicted ++ old ∷ [];
        }
    unfolding evict
    evict_lem old rest counts s =
        ground (arith, coalesce-collapse laws rest (s.queued_bytes - payload_bytes old))
