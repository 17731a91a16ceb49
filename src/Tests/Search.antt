-- ===== src/Tests/Search.antt =====
-- Examples for the search index, src-tauri/src/search_index.rs.
use Prim.Native.String.{String}
use cubby_clipboard.Prelude.{
  ℕ, zero, suc, leb, ◌&&◌, ◌+◌, ◌<◌, ◌≡◌, refl, true, false, List, [], ◌∷◌, ◌++◌, Option, none,
  some, length, arith, if◌then◌else◌,
}
use cubby_clipboard.Secrets.Text.{text_eq, contains}
use cubby_clipboard.SearchIndex.Texts.{
  SearchDocument, trigrams, document_trigrams, dedup, windows, elem,
}
use cubby_clipboard.SearchIndex.{
  IndexState, empty_state, insert, remove, set_entry, post_all, unpost_all, compacted, retain_slots,
  compact, compact_if_sparse, freed, remove_slotted, take_slot, place, insert_fresh,
}
use cubby_clipboard.SearchIndex.Query.{
  matches as index_matches, answer, scan, hits, postings_of, sort_by_len, insert_by_len,
  intersect_all,
}
use cubby_clipboard.SearchIndex.Service.{
  SearchIndex, ClipRow, new_document, indexed, publish, matches,
}
use cubby_clipboard.SearchIndex.Matching.{has_id, found}
use cubby_clipboard.SearchIndex.Updates.{length-insert}
use cubby_clipboard.SearchIndex.Changes.{Change, put, drop, run, latest, run-refines, has_id-run}
use cubby_clipboard.SearchIndex.Publishing.{
  Method, updates_notes, removes, perform_all, publish-perform_all,
}
use cubby_clipboard.SearchIndex.Rebuild.{has_row, matches-publish}
use cubby_clipboard.SearchIndex.Invariant.{IsIndex, empty_state-IsIndex}
use cubby_clipboard.SearchIndex.Slots.{slot_mod, insert_slot, remove_slot, intersect_sorted}

-- Capital letters only.
abbrev to_lower : List ℕ → List ℕ
to_lower [] = []
to_lower (c ∷ cs) = (if leb 65 c && leb c 90 then c + 32 else c) ∷ to_lower cs

-- "Abcd", "abcx" and the query "ABC".
abbrev abcd : SearchDocument
abcd = new_document to_lower (65 ∷ 98 ∷ 99 ∷ 100 ∷ []) [] none none none

abbrev bcde : SearchDocument
bcde = new_document to_lower (98 ∷ 99 ∷ 100 ∷ 101 ∷ []) (98 ∷ 99 ∷ []) none none none

abbrev query : List ℕ
query = 65 ∷ 66 ∷ 67 ∷ []

-- "two" gets the slot that "one" gave up.
abbrev reuse : List Change
reuse = put "one" abcd ∷ drop "one" ∷ put "two" bcde ∷ put "three" abcd ∷ []

found_three : has_id "three" (index_matches to_lower (run empty_state reuse) query) ≡ true
unfolding run insert remove set_entry post_all unpost_all compacted retain_slots compact
    compact_if_sparse freed remove_slotted take_slot place insert_fresh empty_state index_matches
    has_id answer scan hits postings_of sort_by_len insert_by_len intersect_all new_document
    trigrams document_trigrams insert_slot remove_slot intersect_sorted dedup windows elem text_eq
    contains
found_three = refl

not_found_two : has_id "two" (index_matches to_lower (run empty_state reuse) query) ≡ false
unfolding run insert remove set_entry post_all unpost_all compacted retain_slots compact
    compact_if_sparse freed remove_slotted take_slot place insert_fresh empty_state index_matches
    has_id answer scan hits postings_of sort_by_len insert_by_len intersect_all new_document
    trigrams document_trigrams insert_slot remove_slot intersect_sorted dedup windows elem text_eq
    contains
not_found_two = refl

has_id-run_example :
    has_id "two" (index_matches to_lower (run empty_state reuse) query)
    ≡ found (latest (λ j. none) reuse "two") (to_lower query)
has_id-run_example = has_id-run to_lower reuse "two" query (omega arith)

-- Seventeen clips, of which eight are gone: one more removal compacts.
abbrev puts : List String → List Change
puts [] = []
puts (id ∷ ids) = put id abcd ∷ puts ids

abbrev drops : List String → List Change
drops [] = []
drops (id ∷ ids) = drop id ∷ drops ids

abbrev older : List String
older = "a" ∷ "b" ∷ "c" ∷ "d" ∷ "e" ∷ "f" ∷ "g" ∷ "h" ∷ []

abbrev newer : List String
newer = "i" ∷ "j" ∷ "k" ∷ "l" ∷ "m" ∷ "n" ∷ "o" ∷ "p" ∷ []

abbrev trimmed : IndexState
trimmed = run empty_state (puts older ++ (puts newer ++ drops older))

trimmed-IsIndex : IsIndex trimmed
unfolding empty_state
trimmed-IsIndex =
    (run-refines empty_state (puts older ++ (puts newer ++ drops older)) empty_state-IsIndex
      (omega arith)).0

compacts : length (remove trimmed "i").documents ≡ 7
unfolding run insert remove set_entry post_all unpost_all compacted retain_slots compact
    compact_if_sparse freed remove_slotted take_slot place insert_fresh empty_state
compacts = refl

-- A row whose content starts with 0 cannot be decrypted.
abbrev decrypt : List ℕ → Option (List ℕ)
decrypt [] = some []
decrypt (zero ∷ cs) = none
decrypt (suc c ∷ cs) = some (suc c ∷ cs)

abbrev row : String → List ℕ → ClipRow
row id content = record {
  id = id;
  clip_type = "text";
  content = content;
  preview = [];
  ocr = none;
  notes = none;
  source_app = some (0 ∷ []);
}

abbrev idle : SearchIndex
idle = record { state = none; generation = 5 }

abbrev unreadable : ClipRow
unreadable = row "bad" (0 ∷ 98 ∷ [])

abbrev readable : ClipRow
readable = row "good" (65 ∷ 98 ∷ 99 ∷ [])

matches-publish_example :
    has_id "good" (
      matches to_lower
        (publish to_lower
          (λ text. text)
          decrypt
          decrypt
          idle
          5
          (unreadable ∷ readable ∷ unreadable ∷ [])).0
        query)
    ≡ found (indexed to_lower (λ text. text) decrypt decrypt readable) (to_lower query)
unfolding has_row
matches-publish_example =
    matches-publish to_lower (λ text. text) decrypt decrypt idle (unreadable ∷ []) readable
      (unreadable ∷ []) query (omega arith) refl refl

abbrev noted : SearchDocument
noted = new_document to_lower query [] none (some (90 ∷ [])) none

abbrev one_note : IndexState
one_note = run empty_state (put "one" noted ∷ [])

one_note-IsIndex : IsIndex one_note
unfolding empty_state
one_note-IsIndex =
    (run-refines empty_state (put "one" noted ∷ []) empty_state-IsIndex (omega arith)).0

one_note_room : length one_note.documents < slot_mod
unfolding run empty_state
one_note_room =
    let grown = length-insert empty_state "one" empty_state-IsIndex noted (omega arith) in
    omega (arith, grown)

-- A note is written and a clip removed while the rows of an older state are read.
abbrev meanwhile : List Method
meanwhile = updates_notes "good" query ∷ removes "bad" ∷ []

publish-perform_all_example :
    publish to_lower
      (λ text. text)
      decrypt
      decrypt
      (perform_all to_lower (λ text. text) idle meanwhile)
      5
      (readable ∷ [])
    ≡ (perform_all to_lower (λ text. text) idle meanwhile, false)
publish-perform_all_example =
    publish-perform_all to_lower (λ text. text) decrypt decrypt idle meanwhile (readable ∷ [])
      (omega arith) (omega arith) (omega arith)
