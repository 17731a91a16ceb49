-- ===== src/SearchIndex/Entries.antt =====
-- The slots of src-tauri/src/search_index.rs, as `documents[slot] = entry` and `push` change them.
use cubby_clipboard.Prelude.{
  ℕ, zero, suc, ◌≤◌, ◌<◌, ◌≡◌, refl, ap, ◌∙◌, List, [], ◌∷◌, ◌++◌, Option, none, some, length, ◌==◌,
  arith, if◌then◌else◌,
}
use cubby_clipboard.SearchIndex.{IndexedDocument, entry_at, set_entry}

pub entry_at-set_entry :
    (xs : List (Option IndexedDocument)) (n m : ℕ) (e : Option IndexedDocument)
    → n < length xs
    → entry_at (set_entry xs n e) m ≡ (if m == n then e else entry_at xs m)
unfolding set_entry
entry_at-set_entry [] n m e h = absurd (omega (arith, h))
entry_at-set_entry (x ∷ xs) zero zero e h = refl
entry_at-set_entry (x ∷ xs) zero (suc m) e h = ground arith
entry_at-set_entry (x ∷ xs) (suc n) zero e h = ground arith
entry_at-set_entry (x ∷ xs) (suc n) (suc m) e h =
    entry_at-set_entry xs n m e (omega (arith, h)) ∙ ground arith

pub length-set_entry :
    (xs : List (Option IndexedDocument)) (n : ℕ) (e : Option IndexedDocument)
    → length (set_entry xs n e) ≡ length xs
unfolding set_entry
length-set_entry [] n e = refl
length-set_entry (x ∷ xs) zero e = refl
length-set_entry (x ∷ xs) (suc n) e = ap suc (length-set_entry xs n e)

-- A new slot at the end is a hole.
pub entry_at-push :
    (xs : List (Option IndexedDocument)) (m : ℕ) → entry_at (xs ++ none ∷ []) m ≡ entry_at xs m
entry_at-push [] zero = refl
entry_at-push [] (suc m) = refl
entry_at-push (x ∷ xs) zero = refl
entry_at-push (x ∷ xs) (suc m) = entry_at-push xs m

pub length-push : (xs : List (Option IndexedDocument)) → length (xs ++ none ∷ []) ≡ suc (length xs)
length-push [] = refl
length-push (x ∷ xs) = ap suc (length-push xs)

pub entry_at-past :
    (xs : List (Option IndexedDocument)) (m : ℕ) → length xs ≤ m → entry_at xs m ≡ none
entry_at-past [] m h = refl
entry_at-past (x ∷ xs) zero h = absurd (omega (arith, h))
entry_at-past (x ∷ xs) (suc m) h = entry_at-past xs m (omega (arith, h))

-- A live entry stands inside the list.
pub lt_length-entry_at :
    (xs : List (Option IndexedDocument)) (m : ℕ) (e : IndexedDocument)
    → entry_at xs m ≡ some e
    → m < length xs
lt_length-entry_at [] m e h = cc
lt_length-entry_at (x ∷ xs) zero e h = omega arith
lt_length-entry_at (x ∷ xs) (suc m) e h =
    let rest = lt_length-entry_at xs m e h in omega (arith, rest)
