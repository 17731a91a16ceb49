-- ===== src/SnapshotQueue/Removal.antt =====
-- What the removal of one item changes in the queue of src-tauri/src/clipboard/snapshot_queue.rs.
use mathlib.Core.List.{Perm, Sublist}
use mathlib.Core.List.Perm
use mathlib.Core.List.Sublist
use cubby_clipboard.Prelude.{
  ℕ, zero, suc, ◌≡◌, refl, ap, inl, inr, Bool, true, false, List, [], ◌∷◌, some, length, get_elem?,
  arith, Option-cases,
}
use cubby_clipboard.SnapshotQueue.{SizedPayload, take_first, drop_last, remove_at}
use cubby_clipboard.SnapshotQueue.Coalescing.{droppables, collapse, collapse_from}
use cubby_clipboard.SnapshotQueue.Eviction.{take_first-Taken, take_first-perm}

module _ {ℓ} {T : Type ℓ} ⦃p : SizedPayload T⦄ where
  open p use {payload_bytes, retain_on_flood}

  collapse_from-sublist : (x : T) (ys : List T) → Sublist (collapse_from x ys) (x ∷ ys)
  unfolding collapse_from
  collapse_from-sublist x [] = Sublist.refl (x ∷ [])
  collapse_from-sublist x (y ∷ ys) = ground (
    arith,
    Sublist.cons x (collapse_from-sublist y ys),
    Sublist.cons-cons x (collapse_from-sublist y ys),
  )

  pub collapse-sublist : (xs : List T) → Sublist (collapse xs) xs
  unfolding collapse
  collapse-sublist [] = Sublist.refl []
  collapse-sublist (x ∷ xs) = collapse_from-sublist x xs

  take_first-sublist :
      (test : T → Bool) (xs : List T) {x : T} {ys : List T}
      → take_first test xs ≡ some (x, ys)
      → Sublist ys xs
  unfolding take_first
  take_first-sublist test [] e = cc
  take_first-sublist test (z ∷ zs) {x} {ys} e = elim (Option-cases (take_first test zs)) [
    | inl n ↦ ground (arith, Sublist.cons z (Sublist.refl zs))
    | inr ((y, ws), n) ↦ ground (
      arith,
      Sublist.cons z (Sublist.refl zs),
      Sublist.cons-cons z (take_first-sublist test zs {x = y} {ys = ws} n),
    )
  ]

  pub drop_last-sublist : (xs : List T) → Sublist (drop_last xs) xs
  unfolding drop_last
  drop_last-sublist [] = Sublist.refl []
  drop_last-sublist (x ∷ []) = Sublist.cons x (Sublist.refl [])
  drop_last-sublist (x ∷ y ∷ ys) = Sublist.cons-cons x (drop_last-sublist (y ∷ ys))

  -- What removing one droppable item leaves.
  pub record IsRemoval (xs : List T) (x : T) (ys : List T) : Type ℓ where
    pub gone : retain_on_flood x ≡ false
    pub rest_sublist : Sublist ys xs
    pub rest_perm : Perm (droppables xs) (x ∷ droppables ys)
    pub rest_length : length xs ≡ suc (length ys)

  pub take_first-IsRemoval :
      (test : T → Bool) (xs : List T) {x : T} {ys : List T}
      → take_first test xs ≡ some (x, ys)
      → (test x ≡ true → retain_on_flood x ≡ false)
      → IsRemoval xs x ys
  take_first-IsRemoval test xs {x} {ys} e h =
      let taken = take_first-Taken test 0 xs e in
      let gone : retain_on_flood x ≡ false = h taken.passes in
      record {
        gone = gone;
        rest_sublist = take_first-sublist test xs e;
        rest_perm = take_first-perm test xs e gone;
        rest_length = taken.length_taken;
      }

  pub remove_at-IsRemoval :
      (xs : List T) (i : ℕ) {x : T}
      → get_elem? xs i ≡ some x
      → retain_on_flood x ≡ false
      → IsRemoval xs x (remove_at xs i)
  unfolding remove_at
  remove_at-IsRemoval [] i e r = cc
  remove_at-IsRemoval (y ∷ ys) zero e r = record {
    gone = r;
    rest_sublist = Sublist.cons y (Sublist.refl ys);
    rest_perm = ground (arith, Perm.refl (y ∷ droppables ys));
    rest_length = refl;
  }
  remove_at-IsRemoval (y ∷ ys) (suc i) {x} e r =
      let ih = remove_at-IsRemoval ys i e r in
      record {
        gone = r;
        rest_sublist = Sublist.cons-cons y ih.rest_sublist;
        rest_perm = ground (
          arith,
          ih.rest_perm,
          Perm.trans (Perm.cons y ih.rest_perm) (Perm.swap x y (droppables (remove_at ys i))),
        );
        rest_length = ap suc ih.rest_length;
      }
