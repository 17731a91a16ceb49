-- ===== src/SearchIndex/Substrings.antt =====
-- Substrings and trigrams: what makes the index of src-tauri/src/search_index.rs sound.
use cubby_clipboard.Prelude.{ℕ, ◌≡◌, refl, true, ◌||◌, List, [], ◌∷◌, ◌++◌, arith}
use cubby_clipboard.Secrets.Text.{text_eq, starts_with, contains}
use cubby_clipboard.SearchIndex.Texts.{
  SearchDocument, document_contains, elem, dedup, windows, trigrams, document_trigrams,
}

pub text_eq→eq : (xs ys : List ℕ) → text_eq xs ys ≡ true → xs ≡ ys
unfolding text_eq
text_eq→eq [] [] h = refl
text_eq→eq [] (y ∷ ys) h = cc
text_eq→eq (x ∷ xs) [] h = cc
text_eq→eq (x ∷ xs) (y ∷ ys) h = ground (arith, text_eq→eq xs ys)

pub text_eq_refl : (xs : List ℕ) → text_eq xs xs ≡ true
unfolding text_eq
text_eq_refl [] = refl
text_eq_refl (x ∷ xs) = ground (arith, text_eq_refl xs)

elem-append : (t : List ℕ) (xs ys : List (List ℕ)) → elem t (xs ++ ys) ≡ (elem t xs || elem t ys)
unfolding elem
elem-append t [] ys = refl
elem-append t (x ∷ xs) ys = ground (arith, elem-append t xs ys)

pub elem-dedup : (t : List ℕ) (ts : List (List ℕ)) → elem t (dedup ts) ≡ elem t ts
unfolding elem dedup
elem-dedup t [] = refl
elem-dedup t (u ∷ us) = ground (arith, elem-dedup t us, text_eq→eq t u)

elem-windows_cons :
    (t : List ℕ) (x : ℕ) (xs : List ℕ)
    → elem t (windows xs) ≡ true
    → elem t (windows (x ∷ xs)) ≡ true
unfolding elem windows
elem-windows_cons t x [] h = cc
elem-windows_cons t x (a ∷ []) h = cc
elem-windows_cons t x (a ∷ b ∷ xs) h = ground (arith, h)

starts_with-windows :
    (t text q : List ℕ)
    → starts_with text q ≡ true
    → elem t (windows q) ≡ true
    → elem t (windows text) ≡ true
unfolding starts_with elem windows
starts_with-windows t text [] h e = cc
starts_with-windows t text (a ∷ []) h e = cc
starts_with-windows t text (a ∷ b ∷ []) h e = cc
starts_with-windows t [] (a ∷ b ∷ c ∷ cs) h e = cc
starts_with-windows t (x ∷ []) (a ∷ b ∷ c ∷ cs) h e = ground arith
starts_with-windows t (x ∷ y ∷ []) (a ∷ b ∷ c ∷ cs) h e = ground arith
starts_with-windows t (x ∷ y ∷ z ∷ zs) (a ∷ b ∷ c ∷ cs) h e =
    ground (arith, starts_with-windows t (y ∷ z ∷ zs) (b ∷ c ∷ cs))

contains-windows :
    (t text q : List ℕ)
    → contains text q ≡ true
    → elem t (windows q) ≡ true
    → elem t (windows text) ≡ true
unfolding contains
contains-windows t [] q h e = starts_with-windows t [] q h e
contains-windows t (x ∷ xs) q h e =
    ground
      (arith, starts_with-windows t (x ∷ xs) q, elem-windows_cons t x xs, contains-windows t xs q)

pub elem-trigrams : (t text : List ℕ) → elem t (trigrams text) ≡ elem t (windows text)
unfolding trigrams
elem-trigrams t text = elem-dedup t (windows text)

elem-document_trigrams :
    (t : List ℕ) (d : SearchDocument)
    → elem t (document_trigrams d) ≡ (
        elem t (windows d.content)
        || (elem t (windows d.preview) || (elem t (windows d.ocr) || elem t (windows d.notes))))
unfolding document_trigrams
elem-document_trigrams t d = rw (
  elem-dedup, elem-append, elem-append, elem-append, elem-trigrams, elem-trigrams, elem-trigrams,
  elem-trigrams,
)

-- A document that contains a query has all its trigrams.
pub document_contains-trigrams :
    (t : List ℕ) (d : SearchDocument) (q : List ℕ)
    → document_contains d q ≡ true
    → elem t (trigrams q) ≡ true
    → elem t (document_trigrams d) ≡ true
document_contains-trigrams t d q h e = ground (
  arith,
  elem-trigrams t q,
  elem-document_trigrams t d,
  contains-windows t d.content q,
  contains-windows t d.preview q,
  contains-windows t d.ocr q,
  contains-windows t d.notes q,
)

starts_with_trans :
    (a b c : List ℕ) → starts_with a b ≡ true → starts_with b c ≡ true → starts_with a c ≡ true
unfolding starts_with
starts_with_trans a b [] h k = refl
starts_with_trans a [] (z ∷ c) h k = cc
starts_with_trans [] (y ∷ b) (z ∷ c) h k = cc
starts_with_trans (x ∷ a) (y ∷ b) (z ∷ c) h k = ground (arith, starts_with_trans a b c)

contains-cons : (x : ℕ) (a c : List ℕ) → contains a c ≡ true → contains (x ∷ a) c ≡ true
unfolding contains
contains-cons x a c h = ground (arith, h)

starts_with-contains :
    (a b c : List ℕ) → starts_with a b ≡ true → contains b c ≡ true → contains a c ≡ true
unfolding starts_with contains
starts_with-contains [] [] c h k = k
starts_with-contains (x ∷ a) [] [] h k = refl
starts_with-contains (x ∷ a) [] (z ∷ c) h k = cc
starts_with-contains [] (y ∷ b) c h k = cc
starts_with-contains (x ∷ a) (y ∷ b) c h k =
    ground (arith, starts_with_trans (x ∷ a) (y ∷ b) c, starts_with-contains a b c)

pub contains_trans :
    (a b c : List ℕ) → contains a b ≡ true → contains b c ≡ true → contains a c ≡ true
unfolding contains
contains_trans [] b c h k = starts_with-contains [] b c h k
contains_trans (x ∷ a) b c h k =
    ground (arith, starts_with-contains (x ∷ a) b c, contains_trans a b c)
