-- ===== src/SearchIndex/SlotLists.antt =====
-- The sorted lists of slots of src-tauri/src/search_index.rs as sets.
use cubby_clipboard.Prelude.{
  ℕ, ◌≤◌, ◌<◌, ◌≡◌, refl, false, not, ◌&&◌, ◌||◌, List, [], ◌∷◌, ◌==◌, arith,
}
use cubby_clipboard.SearchIndex.Slots.{has, insert_slot, remove_slot, intersect_sorted}

unfoldable pub IsAbove : ℕ → List ℕ → Type 0
IsAbove x [] = Unit {0}
IsAbove x (y ∷ ys) = (x < y) × IsAbove x ys

-- Sorted, without duplicates.
unfoldable pub IsRising : List ℕ → Type 0
unfolding IsAbove
IsRising [] = Unit {0}
IsRising (x ∷ xs) = IsAbove x xs × IsRising xs

IsAbove-mono : (x y : ℕ) (zs : List ℕ) → x < y → IsAbove y zs → IsAbove x zs
unfolding IsAbove
IsAbove-mono x y [] h k = tt
IsAbove-mono x y (z ∷ zs) h k = (omega (arith, k.0), IsAbove-mono x y zs h k.1)

pub has-IsAbove : (s : ℕ) (xs : List ℕ) → IsAbove s xs → has s xs ≡ false
unfolding IsAbove has
has-IsAbove s [] h = refl
has-IsAbove s (x ∷ xs) h = ground (arith, h.0, has-IsAbove s xs h.1)

has-le : (s y : ℕ) (xs : List ℕ) → s ≤ y → IsAbove y xs → has s xs ≡ false
unfolding IsAbove has
has-le s y [] l h = refl
has-le s y (x ∷ xs) l h = ground (arith, h.0, has-le s y xs l h.1)

pub has-insert_slot : (s n : ℕ) (xs : List ℕ) → has s (insert_slot n xs) ≡ (s == n || has s xs)
unfolding has insert_slot
has-insert_slot s n [] = refl
has-insert_slot s n (x ∷ xs) = ground (arith, has-insert_slot s n xs)

pub has-remove_slot :
    (s n : ℕ) (xs : List ℕ) → IsRising xs → has s (remove_slot n xs) ≡ (not (s == n) && has s xs)
unfolding has remove_slot IsRising
has-remove_slot s n [] h = ground arith
has-remove_slot s n (x ∷ xs) h = ground (arith, has-remove_slot s n xs h.1, has-IsAbove x xs h.0)

IsAbove-insert_slot : (y n : ℕ) (xs : List ℕ) → y < n → IsAbove y xs → IsAbove y (insert_slot n xs)
unfolding IsAbove insert_slot
IsAbove-insert_slot y n [] l h = (l, tt)
IsAbove-insert_slot y n (x ∷ xs) l h = ground (arith, h.0, h.1, IsAbove-insert_slot y n xs)

pub insert_slot-IsRising : (n : ℕ) (xs : List ℕ) → IsRising xs → IsRising (insert_slot n xs)
unfolding IsRising insert_slot
insert_slot-IsRising n [] h = (tt, tt)
insert_slot-IsRising n (x ∷ xs) h =
    ground
      (arith, h.0, h.1, insert_slot-IsRising n xs, IsAbove-insert_slot x n xs, IsAbove-mono n x xs)

IsAbove-remove_slot : (y n : ℕ) (xs : List ℕ) → IsAbove y xs → IsAbove y (remove_slot n xs)
unfolding IsAbove remove_slot
IsAbove-remove_slot y n [] h = tt
IsAbove-remove_slot y n (x ∷ xs) h = ground (arith, h.0, h.1, IsAbove-remove_slot y n xs)

pub remove_slot-IsRising : (n : ℕ) (xs : List ℕ) → IsRising xs → IsRising (remove_slot n xs)
unfolding IsRising remove_slot
remove_slot-IsRising n [] h = tt
remove_slot-IsRising n (x ∷ xs) h =
    ground (arith, h.0, h.1, remove_slot-IsRising n xs, IsAbove-remove_slot x n xs)

IsAbove-intersect : (z : ℕ) (xs ys : List ℕ) → IsAbove z xs → IsAbove z (intersect_sorted xs ys)
unfolding IsAbove intersect_sorted
IsAbove-intersect z [] ys h = tt
IsAbove-intersect z (x ∷ xs) [] h = tt
IsAbove-intersect z (x ∷ xs) (y ∷ ys) h = ground (
  arith,
  h.0,
  h.1,
  IsAbove-intersect z xs (y ∷ ys),
  IsAbove-intersect z (x ∷ xs) ys,
  IsAbove-intersect z xs ys,
)

pub intersect_sorted-IsRising : (xs ys : List ℕ) → IsRising xs → IsRising (intersect_sorted xs ys)
unfolding IsRising intersect_sorted
intersect_sorted-IsRising [] ys h = tt
intersect_sorted-IsRising (x ∷ xs) [] h = tt
intersect_sorted-IsRising (x ∷ xs) (y ∷ ys) h = ground (
  arith,
  h.0,
  h.1,
  intersect_sorted-IsRising xs (y ∷ ys),
  intersect_sorted-IsRising (x ∷ xs) ys h,
  intersect_sorted-IsRising xs ys,
  IsAbove-intersect x xs ys,
)

-- The merge of two sorted lists is their intersection.
pub has-intersect_sorted :
    (s : ℕ) (xs ys : List ℕ)
    → IsRising xs
    → IsRising ys
    → has s (intersect_sorted xs ys) ≡ (has s xs && has s ys)
unfolding has intersect_sorted IsRising
has-intersect_sorted s [] ys h k = refl
has-intersect_sorted s (x ∷ xs) [] h k = ground arith
has-intersect_sorted s (x ∷ xs) (y ∷ ys) h k = ground (
  arith,
  has-intersect_sorted s xs (y ∷ ys) h.1 k,
  has-intersect_sorted s (x ∷ xs) ys h k.1,
  has-intersect_sorted s xs ys h.1 k.1,
  has-IsAbove x xs h.0,
  has-le s x xs,
  has-le s y ys,
  h.0,
  k.0,
)
