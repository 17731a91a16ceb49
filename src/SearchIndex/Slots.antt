-- ===== src/SearchIndex/Slots.antt =====
-- Sorted lists of slots, src-tauri/src/search_index.rs.
use Prim.Native.Nat.{compare, Ordering}
use cubby_clipboard.Prelude.{ℕ, Bool, true, false, ◌||◌, List, [], ◌∷◌, ◌==◌}

abbrev pub slot_mod : ℕ
slot_mod = 4294967296

unfoldable pub has : ℕ → List ℕ → Bool
has s [] = false
has s (x ∷ xs) = s == x || has s xs

-- `insert` at the position that `binary_search` reports for an absent slot.
unfoldable pub insert_slot : ℕ → List ℕ → List ℕ
insert_slot s [] = s ∷ []
insert_slot s (x ∷ xs) = elim (compare s x) [
  | Ordering.lt ↦ s ∷ x ∷ xs
  | Ordering.eq ↦ x ∷ xs
  | Ordering.gt ↦ x ∷ insert_slot s xs
]

-- `remove` at the position that `binary_search` reports for a present slot.
unfoldable pub remove_slot : ℕ → List ℕ → List ℕ
remove_slot s [] = []
remove_slot s (x ∷ xs) = elim (s == x) [ true ↦ xs | false ↦ x ∷ remove_slot s xs ]

unfoldable pub intersect_sorted : List ℕ → List ℕ → List ℕ
intersect_sorted [] right = []
intersect_sorted (x ∷ left) [] = []
intersect_sorted (x ∷ left) (y ∷ right) = elim (compare x y) [
  | Ordering.lt ↦ intersect_sorted left (y ∷ right)
  | Ordering.gt ↦ intersect_sorted (x ∷ left) right
  | Ordering.eq ↦ x ∷ intersect_sorted left right
]
