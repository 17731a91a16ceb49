-- ===== src/SnapshotQueue/Coalescing.antt =====
-- What `coalesce_adjacent_replacements` of src-tauri/src/clipboard/snapshot_queue.rs leaves, under
-- the laws of the payload: each run of retained items is reduced to its newest item.
use cubby_clipboard.Prelude.{
  ℕ, suc, ◌≤◌, ◌≡◌, refl, false, ◌&&◌, List, [], ◌∷◌, length, arith, if◌then◌else◌,
}
use cubby_clipboard.SnapshotQueue.{
  SizedPayload, saturating_add, coalesce_from, coalesce_adjacent_replacements, last,
}
use cubby_clipboard.SnapshotQueue.Totals.{ClearLaws, total, small_total}

module _ {ℓ} {T : Type ℓ} ⦃p : SizedPayload T⦄ where
  open p use {payload_bytes, retain_on_flood}

  unfoldable pub collapse_from : T → List T → List T
  collapse_from x [] = x ∷ []
  collapse_from x (y ∷ ys) =
      let rest = collapse_from y ys in
      if retain_on_flood y && retain_on_flood x then rest else x ∷ rest

  unfoldable pub collapse : List T → List T
  collapse [] = []
  collapse (x ∷ xs) = collapse_from x xs

  -- No retained item directly follows another.
  abbrev pub IsApartFrom : T → List T → Type 0
  IsApartFrom x [] = Unit {0}
  IsApartFrom x (y ∷ ys) = ((retain_on_flood y && retain_on_flood x) ≡ false) × IsApartFrom y ys

  abbrev pub IsApart : List T → Type 0
  IsApart [] = Unit {0}
  IsApart (x ∷ xs) = IsApartFrom x xs

  collapse_from-IsApartFrom :
      (z x : T) (ys : List T)
      → (retain_on_flood x && retain_on_flood z) ≡ false
      → IsApartFrom z (collapse_from x ys)
  unfolding collapse_from
  collapse_from-IsApartFrom z x [] h = (h, tt)
  collapse_from-IsApartFrom z x (y ∷ ys) h =
      ground (arith, collapse_from-IsApartFrom z y ys, collapse_from-IsApartFrom x y ys)

  collapse_from-IsApart : (x : T) (ys : List T) → IsApart (collapse_from x ys)
  unfolding collapse_from
  collapse_from-IsApart x [] = tt
  collapse_from-IsApart x (y ∷ ys) =
      ground (arith, collapse_from-IsApartFrom x y ys, collapse_from-IsApart y ys)

  pub collapse-IsApart : (xs : List T) → IsApart (collapse xs)
  unfolding collapse
  collapse-IsApart [] = tt
  collapse-IsApart (x ∷ xs) = collapse_from-IsApart x xs

  collapse_from_of_IsApart : (x : T) (ys : List T) → IsApartFrom x ys → collapse_from x ys ≡ x ∷ ys
  unfolding collapse_from
  collapse_from_of_IsApart x [] h = refl
  collapse_from_of_IsApart x (y ∷ ys) h = ground (arith, collapse_from_of_IsApart y ys)

  length-collapse_from : (x : T) (ys : List T) → length (collapse_from x ys) ≤ suc (length ys)
  unfolding collapse_from
  length-collapse_from x [] = omega arith
  length-collapse_from x (y ∷ ys) = ground (arith, length-collapse_from y ys)

  pub length-collapse : (xs : List T) → length (collapse xs) ≤ length xs
  unfolding collapse
  length-collapse [] = omega arith
  length-collapse (x ∷ xs) = length-collapse_from x xs

  last-collapse_from-cons : (z x : T) (ys : List T) → last (z ∷ collapse_from x ys) ≡ last (x ∷ ys)
  unfolding collapse_from last
  last-collapse_from-cons z x [] = refl
  last-collapse_from-cons z x (y ∷ ys) =
      ground (arith, last-collapse_from-cons z y ys, last-collapse_from-cons x y ys)

  last-collapse_from : (x : T) (ys : List T) → last (collapse_from x ys) ≡ last (x ∷ ys)
  unfolding collapse_from last
  last-collapse_from x [] = refl
  last-collapse_from x (y ∷ ys) =
      ground (arith, last-collapse_from y ys, last-collapse_from-cons x y ys)

  pub last-collapse : (xs : List T) → last (collapse xs) ≡ last xs
  unfolding collapse
  last-collapse [] = refl
  last-collapse (x ∷ xs) = last-collapse_from x xs

  -- The droppable items, oldest first.
  abbrev pub droppables : List T → List T
  droppables [] = []
  droppables (x ∷ xs) = if retain_on_flood x then droppables xs else x ∷ droppables xs

  droppables-collapse_from :
      (x : T) (ys : List T) → droppables (collapse_from x ys) ≡ droppables (x ∷ ys)
  unfolding collapse_from
  droppables-collapse_from x [] = refl
  droppables-collapse_from x (y ∷ ys) = ground (arith, droppables-collapse_from y ys)

  pub droppables-collapse : (xs : List T) → droppables (collapse xs) ≡ droppables xs
  unfolding collapse
  droppables-collapse [] = refl
  droppables-collapse (x ∷ xs) = droppables-collapse_from x xs

  module _ (laws : ClearLaws T) where
    open laws use {replaces_iff_retained, retained_bytes}

    total-collapse_from : (x : T) (ys : List T) → total (collapse_from x ys) ≡ total (x ∷ ys)
    unfolding collapse_from
    total-collapse_from x [] = refl
    total-collapse_from x (y ∷ ys) = ground (arith, total-collapse_from y ys, retained_bytes x)

    pub total-collapse : (xs : List T) → total (collapse xs) ≡ total xs
    unfolding collapse
    total-collapse [] = refl
    total-collapse (x ∷ xs) = total-collapse_from x xs

    small_total-collapse_from :
        (m : ℕ) (x : T) (ys : List T) → small_total m (collapse_from x ys) ≡ small_total m (x ∷ ys)
    unfolding collapse_from
    small_total-collapse_from m x [] = refl
    small_total-collapse_from m x (y ∷ ys) =
        ground (arith, small_total-collapse_from m y ys, retained_bytes x)

    pub small_total-collapse :
        (m : ℕ) (xs : List T) → small_total m (collapse xs) ≡ small_total m xs
    unfolding collapse
    small_total-collapse m [] = refl
    small_total-collapse m (x ∷ xs) = small_total-collapse_from m x xs

    coalesce_from-collapse_from :
        (x : T) (ys : List T) (q : ℕ) → coalesce_from x ys q 0 ≡ (collapse_from x ys, q, 0)
    unfolding collapse_from coalesce_from saturating_add
    coalesce_from-collapse_from x [] q = refl
    coalesce_from-collapse_from x (y ∷ ys) q =
        ground
          (arith, replaces_iff_retained y x, retained_bytes x, coalesce_from-collapse_from y ys q)

    pub coalesce-collapse :
        (xs : List T) (q : ℕ) → coalesce_adjacent_replacements xs q ≡ (collapse xs, q, 0)
    unfolding collapse coalesce_adjacent_replacements
    coalesce-collapse [] q = refl
    coalesce-collapse (x ∷ xs) q = coalesce_from-collapse_from x xs q
