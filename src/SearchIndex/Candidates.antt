-- ===== src/SearchIndex/Candidates.antt =====
-- The candidates of a query, src-tauri/src/search_index.rs: the slots in all its posting lists.
use cubby_clipboard.Prelude.{
  ℕ, ◌≡◌, refl, sym, ap, ◌∙◌, inl, inr, Bool, true, ◌&&◌, List, [], ◌∷◌, length, leb, arith,
  Bool-cases,
}
use cubby_clipboard.SearchIndex.Slots.{has, intersect_sorted}
use cubby_clipboard.SearchIndex.Query.{insert_by_len, sort_by_len, intersect_all, candidates_of}
use cubby_clipboard.SearchIndex.SlotLists.{
  IsRising, has-intersect_sorted, intersect_sorted-IsRising,
}

unfoldable pub all_have : ℕ → List (List ℕ) → Bool
all_have s [] = true
all_have s (p ∷ ps) = has s p && all_have s ps

unfoldable pub AreRising : List (List ℕ) → Type 0
AreRising [] = Unit {0}
AreRising (p ∷ ps) = IsRising p × AreRising ps

intersect_all-nil : (ps : List (List ℕ)) → intersect_all [] ps ≡ []
unfolding intersect_all intersect_sorted
intersect_all-nil [] = refl
intersect_all-nil (p ∷ ps) = refl

-- The early return changes nothing.
intersect_all-cons :
    (c p : List ℕ) (ps : List (List ℕ))
    → intersect_all c (p ∷ ps) ≡ intersect_all (intersect_sorted c p) ps
unfolding intersect_all
intersect_all-cons c p ps = go (intersect_sorted c p)
  where
    go :
        (r : List ℕ)
        → (elim r [ [] ↦ [] | s ∷ slots ↦ intersect_all (s ∷ slots) ps ]) ≡ intersect_all r ps
    go [] = sym (intersect_all-nil ps)
    go (s ∷ slots) = refl

has-intersect_all :
    (s : ℕ) (c : List ℕ) (ps : List (List ℕ))
    → IsRising c
    → AreRising ps
    → has s (intersect_all c ps) ≡ (has s c && all_have s ps)
unfolding all_have AreRising
has-intersect_all s c [] h k = unfold intersect_all in ground arith
has-intersect_all s c (p ∷ ps) h k =
    let one = has-intersect_sorted s c p h k.0 in
    let rest =
      has-intersect_all s (intersect_sorted c p) ps (intersect_sorted-IsRising c p h) k.1 in
    ap (has s) (intersect_all-cons c p ps) ∙ rest ∙ ground (arith, one)

all_have-insert_by_len :
    (s : ℕ) (p : List ℕ) (ps : List (List ℕ))
    → all_have s (insert_by_len p ps) ≡ (has s p && all_have s ps)
unfolding all_have insert_by_len
all_have-insert_by_len s p [] = refl
all_have-insert_by_len s p (q ∷ qs) = ground (arith, all_have-insert_by_len s p qs)

pub all_have-sort_by_len :
    (s : ℕ) (ps : List (List ℕ)) → all_have s (sort_by_len ps) ≡ all_have s ps
unfolding all_have sort_by_len
all_have-sort_by_len s [] = refl
all_have-sort_by_len s (p ∷ ps) =
    ground (arith, all_have-insert_by_len s p (sort_by_len ps), all_have-sort_by_len s ps)

insert_by_len-AreRising :
    (p : List ℕ) (ps : List (List ℕ)) → IsRising p → AreRising ps → AreRising (insert_by_len p ps)
unfolding AreRising insert_by_len
insert_by_len-AreRising p [] h k = (h, tt)
insert_by_len-AreRising p (q ∷ qs) h k = elim (Bool-cases (leb (length p) (length q))) [
  | inl e ↦ rw e (h, (k.0, k.1))
  | inr e ↦ rw e (k.0, insert_by_len-AreRising p qs h k.1)
]

pub sort_by_len-AreRising : (ps : List (List ℕ)) → AreRising ps → AreRising (sort_by_len ps)
unfolding AreRising sort_by_len
sort_by_len-AreRising [] h = tt
sort_by_len-AreRising (p ∷ ps) h =
    insert_by_len-AreRising p (sort_by_len ps) h.0 (sort_by_len-AreRising ps h.1)

pub has-candidates_of :
    (s : ℕ) (p : List ℕ) (ps : List (List ℕ))
    → AreRising (p ∷ ps)
    → has s (candidates_of (p ∷ ps)) ≡ all_have s (p ∷ ps)
unfolding AreRising all_have
has-candidates_of s p ps h = has-intersect_all s p ps h.0 h.1

insert_by_len-cons :
    (p : List ℕ) (ps : List (List ℕ))
    → (q : List ℕ) × (qs : List (List ℕ)) × (insert_by_len p ps ≡ q ∷ qs)
unfolding insert_by_len
insert_by_len-cons p [] = (p, [], refl)
insert_by_len-cons p (q ∷ qs) = elim (Bool-cases (leb (length p) (length q))) [
  | inl e ↦ (p, q ∷ qs, rw e refl)
  | inr e ↦ (q, insert_by_len p qs, rw e refl)
]

-- A sort keeps a list that is not empty so.
pub sort_by_len-cons :
    (p : List ℕ) (ps : List (List ℕ))
    → (q : List ℕ) × (qs : List (List ℕ)) × (sort_by_len (p ∷ ps) ≡ q ∷ qs)
unfolding sort_by_len
sort_by_len-cons p ps = insert_by_len-cons p (sort_by_len ps)
