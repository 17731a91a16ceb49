-- ===== src/SearchIndex/Notes.antt =====
-- What the changes of src-tauri/src/search_index.rs keep of a document.
use Prim.Native.String.{String}
use text.Mathlib.Text.{◌==◌ as str_eq}
use text.Mathlib.TextEquality.{eq_iff}
use cubby_clipboard.Prelude.{
  ℕ, ◌<◌, ◌≡◌, refl, sym, ap, ◌∙◌, inl, inr, true, ◌||◌, List, [], ◌∷◌, Option, none, some, length,
  arith, Bool-cases,
}
use cubby_clipboard.Secrets.Text.{contains, starts_with}
use cubby_clipboard.SearchIndex.Texts.{SearchDocument, redundant_preview, document_contains}
use cubby_clipboard.SearchIndex.Slots.{slot_mod}
use cubby_clipboard.SearchIndex.{IndexState, document, insert}
use cubby_clipboard.SearchIndex.Service.{
  SearchIndex, new_document, upserted, upsert, or_empty, or_default,
}
use cubby_clipboard.SearchIndex.Substrings.{contains_trans}
use cubby_clipboard.SearchIndex.Invariant.{IsIndex}
use cubby_clipboard.SearchIndex.Updates.{document-insert}

contains-nil : (c q : List ℕ) → contains [] q ≡ true → contains c q ≡ true
unfolding contains starts_with
contains-nil [] q h = h
contains-nil (x ∷ c) [] h = refl
contains-nil (x ∷ c) (y ∷ q) h = absurd (cc)

contains-redundant_preview :
    (content preview q : List ℕ)
    → (contains content q || contains (redundant_preview content preview) q)
      ≡ (contains content q || contains preview q)
unfolding redundant_preview
contains-redundant_preview content [] q = refl
contains-redundant_preview content (p ∷ preview) q =
    ground (arith, contains-nil content q, contains_trans content (p ∷ preview) q)

-- A new document contains a query exactly if one of the four texts does in lower case: that a
-- preview inside the content is dropped makes no query miss.
pub document_contains-new_document :
    (lowercase : List ℕ → List ℕ) (content preview : List ℕ)
    (ocr notes source_app : Option (List ℕ)) (q : List ℕ)
    → document_contains (new_document lowercase content preview ocr notes source_app) q ≡ (
        contains (lowercase content) q
        || (contains (lowercase preview) q
            || (contains (lowercase (or_empty ocr)) q || contains (lowercase (or_empty notes)) q)))
unfolding new_document
document_contains-new_document lowercase content preview ocr notes source_app q =
    ground (arith, contains-redundant_preview (lowercase content) (lowercase preview) q)

abbrev notes_of : Option SearchDocument → List ℕ
notes_of o = (or_default o).notes

-- The notes that the index holds for a clip.
unfoldable pub notes_at : SearchIndex → String → List ℕ
notes_at x id = elim x.state [ none ↦ [] | some s ↦ (or_default (document s id)).notes ]

notes-upserted :
    (lowercase lossy : List ℕ → List ℕ) (existing : SearchDocument) (clip_type : String)
    (content preview : List ℕ) (ocr source_app : Option (List ℕ))
    → (upserted lowercase lossy existing clip_type content preview ocr source_app).notes
      ≡ existing.notes
unfolding upserted
notes-upserted lowercase lossy existing clip_type content preview ocr none = refl
notes-upserted lowercase lossy existing clip_type content preview ocr (some app) = refl

-- Capturing a clip again, whatever is captured, changes the notes of no clip in a valid index with
-- a slot to spare.
pub notes_at-upsert :
    (lowercase lossy : List ℕ → List ℕ) (s : IndexState) (g : ℕ) (id clip_type : String)
    (content preview : List ℕ) (ocr source_app : Option (List ℕ))
    → IsIndex s
    → length s.documents < slot_mod
    → (j : String)
    → notes_at
        (upsert lowercase lossy
          (record { state = some s; generation = g })
          id
          clip_type
          content
          preview
          ocr
          source_app)
        j
      ≡ notes_at (record { state = some s; generation = g }) j
unfolding notes_at upsert
notes_at-upsert lowercase lossy s g id clip_type content preview ocr source_app inv room j =
    let old = or_default (document s id) in
    let d = upserted lowercase lossy old clip_type content preview ocr source_app in
    let kept = notes-upserted lowercase lossy old clip_type content preview ocr source_app in
    let now = document-insert s id inv d room j in
    elim (Bool-cases (str_eq j id)) [
      | inl q ↦
          let found : document (insert s id d) j ≡ some d = now ∙ ground (arith, q) in
          ap notes_of found ∙ kept ∙ ap (λ i. notes_of (document s i)) (sym ((eq_iff j id).0 q))
      | inr q ↦
          let found : document (insert s id d) j ≡ document s j = now ∙ ground (arith, q) in
          ap notes_of found
    ]
