-- ===== src/SearchIndex/Postings.antt =====
-- The posting lists of src-tauri/src/search_index.rs, as `insert` and `remove` change them.
use cubby_clipboard.Prelude.{
  ℕ, ◌≡◌, refl, inl, inr, not, ◌&&◌, ◌||◌, List, [], ◌∷◌, Option, none, some, ◌==◌, arith,
  Bool-cases,
}
use cubby_clipboard.Secrets.Text.{text_eq}
use cubby_clipboard.SearchIndex.Texts.{elem}
use cubby_clipboard.SearchIndex.Slots.{has, insert_slot, remove_slot}
use cubby_clipboard.SearchIndex.{slots_of, set_posting, post_all, unpost_all, without}
use cubby_clipboard.SearchIndex.SlotLists.{
  IsRising, has-insert_slot, has-remove_slot, insert_slot-IsRising, remove_slot-IsRising,
}
use cubby_clipboard.SearchIndex.Substrings.{text_eq→eq}

-- Every posting list is sorted.
abbrev pub AllRising : (List ℕ → Option (List ℕ)) → Type 0
AllRising p = (t : List ℕ) → IsRising (slots_of (p t))

slots_of-without :
    (n : ℕ) (o : Option (List ℕ)) → slots_of (without n o) ≡ remove_slot n (slots_of o)
unfolding remove_slot
slots_of-without n none = refl
slots_of-without n (some xs) = go (remove_slot n xs)
  where
    go : (ys : List ℕ) → slots_of (elim ys [ [] ↦ none | x ∷ zs ↦ some (x ∷ zs) ]) ≡ ys
    go [] = refl
    go (y ∷ ys) = refl

has-posted :
    (p : List ℕ → Option (List ℕ)) (n s : ℕ) (t u : List ℕ)
    → has s (slots_of (set_posting p t (some (insert_slot n (slots_of (p t)))) u))
      ≡ ((s == n && text_eq u t) || has s (slots_of (p u)))
has-posted p n s t u = elim (Bool-cases (text_eq u t)) [
  | inl e ↦
      let same : u ≡ t = text_eq→eq u t e in
      ground (arith, e, same, has-insert_slot s n (slots_of (p t)))
  | inr e ↦ ground (arith, e)
]

posted-AllRising :
    (p : List ℕ → Option (List ℕ)) (n : ℕ) (t : List ℕ)
    → AllRising p
    → AllRising (set_posting p t (some (insert_slot n (slots_of (p t)))))
posted-AllRising p n t h u = elim (Bool-cases (text_eq u t)) [
  | inl e ↦ rw e (insert_slot-IsRising n (slots_of (p t)) (h t))
  | inr e ↦ rw e (h u)
]

has-unposted :
    (p : List ℕ → Option (List ℕ)) (n s : ℕ) (t u : List ℕ)
    → AllRising p
    → has s (slots_of (set_posting p t (without n (p t)) u))
      ≡ (not (s == n && text_eq u t) && has s (slots_of (p u)))
has-unposted p n s t u h = elim (Bool-cases (text_eq u t)) [
  | inl e ↦
      let same : u ≡ t = text_eq→eq u t e in
      ground (arith, e, same, slots_of-without n (p t), has-remove_slot s n (slots_of (p t)) (h t))
  | inr e ↦ ground (arith, e)
]

unposted-AllRising :
    (p : List ℕ → Option (List ℕ)) (n : ℕ) (t : List ℕ)
    → AllRising p
    → AllRising (set_posting p t (without n (p t)))
unposted-AllRising p n t h u = elim (Bool-cases (text_eq u t)) [
  | inl e ↦ rw (e, slots_of-without n (p t)) (remove_slot-IsRising n (slots_of (p t)) (h t))
  | inr e ↦ rw e (h u)
]

-- After an insertion a slot is posted where it was, and the new slot under the new trigrams.
pub has-post_all :
    (p : List ℕ → Option (List ℕ)) (n : ℕ) (ts : List (List ℕ)) (s : ℕ) (u : List ℕ)
    → has s (slots_of (post_all p n ts u)) ≡ ((s == n && elem u ts) || has s (slots_of (p u)))
unfolding post_all elem
has-post_all p n [] s u = ground arith
has-post_all p n (t ∷ ts) s u = ground (
  arith,
  has-posted p n s t u,
  has-post_all (set_posting p t (some (insert_slot n (slots_of (p t))))) n ts s u,
)

pub post_all-AllRising :
    (p : List ℕ → Option (List ℕ)) (n : ℕ) (ts : List (List ℕ))
    → AllRising p
    → AllRising (post_all p n ts)
unfolding post_all
post_all-AllRising p n [] h = h
post_all-AllRising p n (t ∷ ts) h =
    post_all-AllRising (set_posting p t (some (insert_slot n (slots_of (p t))))) n ts
      (posted-AllRising p n t h)

-- After a removal the slot is posted under none of the trigrams; the rest is as before.
pub has-unpost_all :
    (p : List ℕ → Option (List ℕ)) (n : ℕ) (ts : List (List ℕ))
    → AllRising p
    → (s : ℕ) (u : List ℕ)
    → has s (slots_of (unpost_all p n ts u)) ≡ (not (s == n && elem u ts) && has s (slots_of (p u)))
unfolding unpost_all elem
has-unpost_all p n [] h s u = ground arith
has-unpost_all p n (t ∷ ts) h s u = ground (
  arith,
  has-unposted p n s t u h,
  has-unpost_all (set_posting p t (without n (p t))) n ts (unposted-AllRising p n t h) s u,
)

pub unpost_all-AllRising :
    (p : List ℕ → Option (List ℕ)) (n : ℕ) (ts : List (List ℕ))
    → AllRising p
    → AllRising (unpost_all p n ts)
unfolding unpost_all
unpost_all-AllRising p n [] h = h
unpost_all-AllRising p n (t ∷ ts) h =
    unpost_all-AllRising (set_posting p t (without n (p t))) n ts (unposted-AllRising p n t h)
