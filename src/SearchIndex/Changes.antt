-- ===== src/SearchIndex/Changes.antt =====
-- The index of src-tauri/src/search_index.rs over its whole life, from `IndexState::default`.
use Prim.Native.String.{String}
use text.Mathlib.Text.{◌==◌ as str_eq}
use cubby_clipboard.Prelude.{
  ℕ, ◌+◌, ◌<◌, ◌≡◌, refl, ap, ◌∙◌, List, [], ◌∷◌, Option, none, some, length, arith, if◌then◌else◌,
}
use cubby_clipboard.SearchIndex.Texts.{SearchDocument}
use cubby_clipboard.SearchIndex.Slots.{slot_mod}
use cubby_clipboard.SearchIndex.{IndexState, empty_state, document, remove, insert}
use cubby_clipboard.SearchIndex.Query.{matches}
use cubby_clipboard.SearchIndex.Invariant.{IsIndex, empty_state-IsIndex}
use cubby_clipboard.SearchIndex.Matching.{has_id, found, has_id-matches}
use cubby_clipboard.SearchIndex.Updates.{
  insert-IsIndex, document-insert, length-insert, remove-IsIndex, document-remove, length-remove,
}

pub data Change : Type 0 where
  put : String → SearchDocument → Change
  drop : String → Change

-- The changes in their order.
unfoldable pub run : IndexState → List Change → IndexState
run s [] = s
run s (put id d ∷ changes) = run (insert s id d) changes
run s (drop id ∷ changes) = run (remove s id) changes

-- What the index stands for: each identifier with the document of its last change.
unfoldable pub latest :
    (String → Option SearchDocument) → List Change → String → Option SearchDocument
latest before [] j = before j
latest before (put id d ∷ changes) j =
    latest (λ i. if str_eq i id then some d else before i) changes j
latest before (drop id ∷ changes) j = latest (λ i. if str_eq i id then none else before i) changes j

-- The two maps agree.
latest-same :
    (f g : String → Option SearchDocument) (changes : List Change) (j : String)
    → ((i : String) → f i ≡ g i)
    → latest f changes j ≡ latest g changes j
unfolding latest
latest-same f g [] j h = h j
latest-same f g (put id d ∷ changes) j h =
    latest-same (λ i. if str_eq i id then some d else f i)
      (λ i. if str_eq i id then some d else g i) changes j (λ i. ground (arith, h i))
latest-same f g (drop id ∷ changes) j h =
    latest-same (λ i. if str_eq i id then none else f i) (λ i. if str_eq i id then none else g i)
      changes j (λ i. ground (arith, h i))

-- A valid index after changes is valid and holds the latest documents.
pub run-refines :
    (s : IndexState) (changes : List Change)
    → IsIndex s
    → length s.documents + length changes < slot_mod
    → IsIndex (run s changes)
      × ((j : String) → document (run s changes) j ≡ latest (document s) changes j)
unfolding run latest
run-refines s [] inv h = (inv, λ j. refl)
run-refines s (put id d ∷ changes) inv h =
    let room : length s.documents < slot_mod = omega (arith, h) in
    let grown = length-insert s id inv d room in
    let (valid, holds) =
      run-refines (insert s id d) changes (insert-IsIndex s id inv d room)
        (omega (arith, h, grown)) in
    (
      valid,
      λ j.
          holds j
          ∙ latest-same (document (insert s id d))
              (λ i. if str_eq i id then some d else document s i) changes j
              (document-insert s id inv d room),
    )
run-refines s (drop id ∷ changes) inv h =
    let shrunk = length-remove s id inv in
    let (valid, holds) =
      run-refines (remove s id) changes (remove-IsIndex s id inv) (omega (arith, h, shrunk)) in
    (
      valid,
      λ j.
          holds j
          ∙ latest-same (document (remove s id)) (λ i. if str_eq i id then none else document s i)
              changes j (document-remove s id inv),
    )

-- From an empty index and after fewer than 2^32 insertions and removals, however they reused slots
-- and compacted them, a query finds an identifier exactly if its last change inserted a document
-- one of whose texts contains the query in lower case.
pub has_id-run :
    (lowercase : List ℕ → List ℕ) (changes : List Change) (i : String) (text : List ℕ)
    → length changes < slot_mod
    → has_id i (matches lowercase (run empty_state changes) text)
      ≡ found (latest (λ j. none) changes i) (lowercase text)
unfolding empty_state
has_id-run lowercase changes i text h =
    let (valid, holds) = run-refines empty_state changes empty_state-IsIndex (omega (arith, h)) in
    has_id-matches lowercase (run empty_state changes) i text valid
    ∙ ap (λ o. found o (lowercase text))
        (holds i
          ∙ latest-same (document empty_state) (λ j. none) changes i (λ j. unfold document in refl))
