-- ===== src/SearchIndex/Query.antt =====
-- The query of the search index, src-tauri/src/search_index.rs. `lowercase` is `normalize`.
use Prim.Native.String.{String}
use cubby_clipboard.Prelude.{ℕ, List, [], ◌∷◌, Option, none, some, length, leb, if◌then◌else◌}
use cubby_clipboard.SearchIndex.Texts.{document_contains, trigrams}
use cubby_clipboard.SearchIndex.Slots.{intersect_sorted}
use cubby_clipboard.SearchIndex.{IndexedDocument, IndexState, entry_at}

-- The identifiers of the documents that contain the query.
unfoldable pub scan : List (Option IndexedDocument) → List ℕ → List String
scan [] query = []
scan (none ∷ entries) query = scan entries query
scan (some entry ∷ entries) query =
    let rest = scan entries query in
    if document_contains entry.document query then entry.id ∷ rest else rest

unfoldable pub hits : List (Option IndexedDocument) → List ℕ → List ℕ → List String
hits documents query [] = []
hits documents query (slot ∷ slots) =
    let rest = hits documents query slots in
    elim (entry_at documents slot) [
      | none ↦ rest
      | some entry ↦ if document_contains entry.document query then entry.id ∷ rest else rest
    ]

unfoldable pub postings_of : (List ℕ → Option (List ℕ)) → List (List ℕ) → Option (List (List ℕ))
postings_of postings [] = some []
postings_of postings (t ∷ ts) =
    let rest = postings_of postings ts in
    elim (postings t) [
      | none ↦ none
      | some slots ↦ elim rest [ none ↦ none | some found ↦ some (slots ∷ found) ]
    ]

-- `sort_by_key` of the lengths.
unfoldable pub insert_by_len : List ℕ → List (List ℕ) → List (List ℕ)
insert_by_len p [] = p ∷ []
insert_by_len p (q ∷ qs) =
    let rest = insert_by_len p qs in if leb (length p) (length q) then p ∷ q ∷ qs else q ∷ rest

unfoldable pub sort_by_len : List (List ℕ) → List (List ℕ)
unfolding insert_by_len
sort_by_len [] = []
sort_by_len (p ∷ ps) = insert_by_len p (sort_by_len ps)

unfoldable pub intersect_all : List ℕ → List (List ℕ) → List ℕ
intersect_all candidates [] = candidates
intersect_all candidates (p ∷ ps) = elim (intersect_sorted candidates p) [
  | [] ↦ []
  | s ∷ slots ↦ intersect_all (s ∷ slots) ps
]

abbrev pub candidates_of : List (List ℕ) → List ℕ
candidates_of [] = []
candidates_of (p ∷ ps) = intersect_all p ps

-- The answer, from the query's trigrams.
unfoldable pub answer : IndexState → List ℕ → List (List ℕ) → List String
answer s query [] = scan s.documents query
answer s query (t ∷ ts) = elim (postings_of s.postings (t ∷ ts)) [
  | none ↦ []
  | some found ↦ hits s.documents query (candidates_of (sort_by_len found))
]

-- `normalize` is `lowercase`.
unfoldable pub matches : (List ℕ → List ℕ) → IndexState → List ℕ → List String
matches lowercase s text = let query = lowercase text in answer s query (trigrams query)
