-- ===== src/SearchIndex/Rebuild.antt =====
-- The rebuild of the index from the database, `ensure_ready` of src-tauri/src/search_index.rs.
use Prim.Native.String.{String}
use text.Mathlib.Text.{◌==◌ as str_eq}
use text.Mathlib.TextEquality.{eq_iff}
use cubby_clipboard.Prelude.{
  ℕ, suc, ◌+◌, ◌≤◌, ◌<◌, ◌≡◌, refl, ap, ◌∙◌, Bool, false, ◌||◌, List, [], ◌∷◌, ◌++◌, Option, none,
  some, length, arith, ==_iff,
}
use cubby_clipboard.SearchIndex.Texts.{SearchDocument}
use cubby_clipboard.SearchIndex.Slots.{slot_mod}
use cubby_clipboard.SearchIndex.{IndexState, empty_state, document, insert}
use cubby_clipboard.SearchIndex.Service.{
  SearchIndex, ClipRow, indexed, add_row, build, publish, matches,
}
use cubby_clipboard.SearchIndex.Invariant.{IsIndex, empty_state-IsIndex}
use cubby_clipboard.SearchIndex.Matching.{has_id, found, has_id-matches}
use cubby_clipboard.SearchIndex.Updates.{insert-IsIndex, document-insert, length-insert}

-- Whether a row has the identifier.
unfoldable pub has_row : String → List ClipRow → Bool
has_row id [] = false
has_row id (r ∷ rows) = str_eq id r.id || has_row id rows

-- What one row does.
record IsAdded (s u : IndexState) (r : ClipRow) (d : Option SearchDocument) : Type 0 where
  valid : IsIndex u
  growth : length u.documents ≤ suc (length s.documents)
  other : (j : String) → str_eq j r.id ≡ false → document u j ≡ document s j
  own : document s r.id ≡ none → document u r.id ≡ d

module _ (lowercase lossy : List ℕ → List ℕ) (decrypt decrypt_text : List ℕ → Option (List ℕ)) where
  abbrev reading : ClipRow → Option SearchDocument
  reading = indexed lowercase lossy decrypt decrypt_text

  abbrev adding : IndexState → ClipRow → IndexState
  adding = add_row lowercase lossy decrypt decrypt_text

  abbrev building : IndexState → List ClipRow → IndexState
  building = build lowercase lossy decrypt decrypt_text

  insert-IsAdded :
      (s : IndexState) (r : ClipRow) (o : Option SearchDocument)
      → IsIndex s
      → length s.documents < slot_mod
      → IsAdded s (elim o [ none ↦ s | some d ↦ insert s r.id d ]) r o
  insert-IsAdded s r none inv room = record {
    valid = inv;
    growth = omega arith;
    other = λ j h. refl;
    own = λ h. h;
  }
  insert-IsAdded s r (some d) inv room = record {
    valid = insert-IsIndex s r.id inv d room;
    growth = length-insert s r.id inv d room;
    other = λ j h. document-insert s r.id inv d room j ∙ ground (arith, h);
    own = λ h. document-insert s r.id inv d room r.id ∙ ground (arith, eq_iff r.id r.id);
  }

  add_row-IsAdded :
      (s : IndexState) (r : ClipRow)
      → IsIndex s
      → length s.documents < slot_mod
      → IsAdded s (adding s r) r (reading r)
  unfolding add_row
  add_row-IsAdded s r = insert-IsAdded s r (reading r)

  build-same :
      (s : IndexState) (rows : List ClipRow) (j : String)
      → IsIndex s
      → length s.documents + length rows < slot_mod
      → has_row j rows ≡ false
      → document (building s rows) j ≡ document s j
  unfolding build has_row
  build-same s [] j inv room h = refl
  build-same s (r ∷ rows) j inv room h =
      let added = add_row-IsAdded s r inv (omega (arith, room)) in
      let growth = added.growth in
      build-same (adding s r) rows j added.valid (omega (arith, room, growth)) (ground (arith, h))
      ∙ added.other j (ground (arith, h))

  build-row :
      (s : IndexState) (xs : List ClipRow) (r : ClipRow) (ys : List ClipRow)
      → IsIndex s
      → length s.documents + length (xs ++ r ∷ ys) < slot_mod
      → has_row r.id xs ≡ false
      → has_row r.id ys ≡ false
      → document s r.id ≡ none
      → document (building s (xs ++ r ∷ ys)) r.id ≡ reading r
  unfolding build has_row
  build-row s [] r ys inv room h k fresh =
      let added = add_row-IsAdded s r inv (omega (arith, room)) in
      let growth = added.growth in
      build-same (adding s r) ys r.id added.valid (omega (arith, room, growth)) k ∙ added.own fresh
  build-row s (x ∷ xs) r ys inv room h k fresh =
      let added = add_row-IsAdded s x inv (omega (arith, room)) in
      let growth = added.growth in
      build-row (adding s x) xs r ys added.valid (omega (arith, room, growth)) (ground (arith, h)) k
        (added.other r.id (ground (arith, h)) ∙ fresh)

  build-IsIndex :
      (s : IndexState) (rows : List ClipRow)
      → IsIndex s
      → length s.documents + length rows < slot_mod
      → IsIndex (building s rows)
  unfolding build
  build-IsIndex s [] inv room = inv
  build-IsIndex s (r ∷ rows) inv room =
      let added = add_row-IsAdded s r inv (omega (arith, room)) in
      let growth = added.growth in
      build-IsIndex (adding s r) rows added.valid (omega (arith, room, growth))

  publish-now :
      (x : SearchIndex) (rows : List ClipRow)
      → (publish lowercase lossy decrypt decrypt_text x x.generation rows).0
        ≡ record x { state = some (building empty_state rows) }
  unfolding publish
  publish-now x rows = ground (arith, ==_iff x.generation x.generation)

  -- If no other row has the identifier of a row, fewer than 2^32 rows are read, and the
  -- generation is still the one the round began with, then the round publishes an index in which a
  -- query finds the row's clip exactly if the row is readable and its document contains the query
  -- in lower case: unreadable rows before or after it do not matter.
  pub matches-publish :
      (x : SearchIndex) (xs : List ClipRow) (r : ClipRow) (ys : List ClipRow) (text : List ℕ)
      → length (xs ++ r ∷ ys) < slot_mod
      → has_row r.id xs ≡ false
      → has_row r.id ys ≡ false
      → has_id r.id (
          matches lowercase
            (publish lowercase lossy decrypt decrypt_text x x.generation (xs ++ r ∷ ys)).0
            text)
        ≡ found (indexed lowercase lossy decrypt decrypt_text r) (lowercase text)
  unfolding matches empty_state document
  matches-publish x xs r ys text room h k =
      let rows = xs ++ r ∷ ys in
      let start : length empty_state.documents + length rows < slot_mod = omega (arith, room) in
      let state = building empty_state rows in
      let valid = build-IsIndex empty_state rows empty_state-IsIndex start in
      ap (λ y. has_id r.id (matches lowercase y text)) (publish-now x rows)
      ∙ has_id-matches lowercase state r.id text valid
      ∙ ap (λ o. found o (lowercase text))
          (build-row empty_state xs r ys empty_state-IsIndex start h k refl)
