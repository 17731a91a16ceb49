-- ===== src/SearchIndex/Remap.antt =====
-- The remap of the slots that a compaction in src-tauri/src/search_index.rs computes.
use cubby_clipboard.Prelude.{
  ℕ, zero, suc, ◌+◌, ◌≤◌, ◌<◌, ◌≡◌, ◌≢◌, refl, ap, ◌∙◌, inl, inr, false, List, [], ◌∷◌, Option,
  none, some, length, arith, Option-cases, ==_iff,
}
use cubby_clipboard.SearchIndex.Slots.{has}
use cubby_clipboard.SearchIndex.{IndexedDocument, entry_at, compacted, remap_slot, retain_slots}
use cubby_clipboard.SearchIndex.SlotLists.{IsAbove, IsRising}

-- A live entry keeps a slot.
pub remap_slot-entry_at :
    (ds : List (Option IndexedDocument)) (k m : ℕ) (e : IndexedDocument)
    → entry_at ds m ≡ some e
    → (j : ℕ) × (remap_slot (compacted ds k).0 m ≡ some (k + j))
      × (entry_at (compacted ds k).1 j ≡ some e)
unfolding compacted
remap_slot-entry_at [] k m e h = absurd (cc)
remap_slot-entry_at (none ∷ ds) k zero e h = absurd (cc)
remap_slot-entry_at (none ∷ ds) k (suc m) e h = remap_slot-entry_at ds k m e h
remap_slot-entry_at (some d ∷ ds) k zero e h = (0, ap some (omega arith), h)
remap_slot-entry_at (some d ∷ ds) k (suc m) e h =
    let (j, l, p) = remap_slot-entry_at ds (suc k) m e h in (suc j, l ∙ ap some (omega arith), p)

-- Each packed entry was live.
pub entry_at-compacted :
    (ds : List (Option IndexedDocument)) (k j : ℕ) (e : IndexedDocument)
    → entry_at (compacted ds k).1 j ≡ some e
    → (m : ℕ) × (entry_at ds m ≡ some e) × (remap_slot (compacted ds k).0 m ≡ some (k + j))
unfolding compacted
entry_at-compacted [] k j e h = absurd (cc)
entry_at-compacted (none ∷ ds) k j e h =
    let (m, p, l) = entry_at-compacted ds k j e h in (suc m, p, l)
entry_at-compacted (some d ∷ ds) k zero e h = (0, h, ap some (omega arith))
entry_at-compacted (some d ∷ ds) k (suc j) e h =
    let (m, p, l) = entry_at-compacted ds (suc k) j e h in (suc m, p, l ∙ ap some (omega arith))

pub remap_slot-live :
    (ds : List (Option IndexedDocument)) (k m r : ℕ)
    → remap_slot (compacted ds k).0 m ≡ some r
    → (e : IndexedDocument) × (entry_at ds m ≡ some e)
unfolding compacted
remap_slot-live [] k m r h = absurd (cc)
remap_slot-live (none ∷ ds) k zero r h = absurd (cc)
remap_slot-live (none ∷ ds) k (suc m) r h = remap_slot-live ds k m r h
remap_slot-live (some d ∷ ds) k zero r h = (d, refl)
remap_slot-live (some d ∷ ds) k (suc m) r h = remap_slot-live ds (suc k) m r h

le_remap_slot :
    (ds : List (Option IndexedDocument)) (k m r : ℕ)
    → remap_slot (compacted ds k).0 m ≡ some r
    → k ≤ r
le_remap_slot ds k m r h =
    let (e, p) = remap_slot-live ds k m r h in
    let (j, l, q) = remap_slot-entry_at ds k m e p in ground (arith, h, l)

-- The remap is monotone.
pub remap_slot-lt :
    (ds : List (Option IndexedDocument)) (k m n r t : ℕ)
    → m < n
    → remap_slot (compacted ds k).0 m ≡ some r
    → remap_slot (compacted ds k).0 n ≡ some t
    → r < t
unfolding compacted
remap_slot-lt [] k m n r t h p q = absurd (cc)
remap_slot-lt (d ∷ ds) k m zero r t h p q = absurd (omega (arith, h))
remap_slot-lt (none ∷ ds) k zero (suc n) r t h p q = absurd (cc)
remap_slot-lt (none ∷ ds) k (suc m) (suc n) r t h p q =
    remap_slot-lt ds k m n r t (omega (arith, h)) p q
remap_slot-lt (some d ∷ ds) k zero (suc n) r t h p q =
    let above = le_remap_slot ds (suc k) n t q in ground (arith, p, above)
remap_slot-lt (some d ∷ ds) k (suc m) (suc n) r t h p q =
    remap_slot-lt ds (suc k) m n r t (omega (arith, h)) p q

pub length-compacted :
    (ds : List (Option IndexedDocument)) (k : ℕ) → length (compacted ds k).1 ≤ length ds
unfolding compacted
length-compacted [] k = omega arith
length-compacted (none ∷ ds) k = let rest = length-compacted ds k in omega (arith, rest)
length-compacted (some d ∷ ds) k = let rest = length-compacted ds (suc k) in omega (arith, rest)

-- A remap that keeps the order of the slots.
module _ (remap : List (Option ℕ))
    (mono : (m n r t : ℕ)
      → m < n
      → remap_slot remap m ≡ some r
      → remap_slot remap n ≡ some t
      → r < t) where
  pub has-retain_slots :
      (m r : ℕ) (xs : List ℕ)
      → remap_slot remap m ≡ some r
      → has r (retain_slots remap xs) ≡ has m xs
  unfolding has retain_slots
  has-retain_slots m r [] h = refl
  has-retain_slots m r (x ∷ xs) h = elim (Option-cases (remap_slot remap x)) [
    | inl e ↦ ground (arith, e, h, ==_iff m x, has-retain_slots m r xs h)
    | inr (t, e) ↦
        ground (arith, e, h, ==_iff m x, has-retain_slots m r xs h, mono m x r t, mono x m t r)
  ]

  IsAbove-retain_slots :
      (x r : ℕ) (xs : List ℕ)
      → remap_slot remap x ≡ some r
      → IsAbove x xs
      → IsAbove r (retain_slots remap xs)
  unfolding IsAbove retain_slots
  IsAbove-retain_slots x r [] h k = tt
  IsAbove-retain_slots x r (y ∷ ys) h k = elim (Option-cases (remap_slot remap y)) [
    | inl e ↦ ground (arith, e, IsAbove-retain_slots x r ys h k.1)
    | inr (t, e) ↦ ground (arith, e, mono x y r t k.0 h e, IsAbove-retain_slots x r ys h k.1)
  ]

  pub retain_slots-IsRising : (xs : List ℕ) → IsRising xs → IsRising (retain_slots remap xs)
  unfolding IsRising retain_slots
  retain_slots-IsRising [] h = tt
  retain_slots-IsRising (x ∷ xs) h = elim (Option-cases (remap_slot remap x)) [
    | inl e ↦ ground (arith, e, retain_slots-IsRising xs h.1)
    | inr (t, e) ↦
        ground (arith, e, retain_slots-IsRising xs h.1, IsAbove-retain_slots x t xs e h.0)
  ]

pub has-retain_slots_none :
    (remap : List (Option ℕ)) (r : ℕ) (xs : List ℕ)
    → ((m : ℕ) → remap_slot remap m ≢ some r)
    → has r (retain_slots remap xs) ≡ false
unfolding has retain_slots
has-retain_slots_none remap r [] h = refl
has-retain_slots_none remap r (x ∷ xs) h = elim (Option-cases (remap_slot remap x)) [
  | inl e ↦ ground (arith, e, has-retain_slots_none remap r xs h)
  | inr (t, e) ↦ ground (arith, e, h x, has-retain_slots_none remap r xs h)
]
