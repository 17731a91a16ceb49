-- ===== src/SearchIndex/Invariant.antt =====
-- What ties the parts of the index of src-tauri/src/search_index.rs together.
use Prim.Native.String.{String}
use cubby_clipboard.Prelude.{
  ℕ, ◌<◌, ◌≡◌, refl, Bool, true, false, List, [], ◌∷◌, Option, none, some, length,
}
use cubby_clipboard.SearchIndex.Texts.{elem, document_trigrams}
use cubby_clipboard.SearchIndex.Slots.{has}
use cubby_clipboard.SearchIndex.{IndexedDocument, IndexState, entry_at, slots_of, empty_state}
use cubby_clipboard.SearchIndex.SlotLists.{IsRising}

abbrev pub entry_has : Option IndexedDocument → List ℕ → Bool
entry_has none t = false
entry_has (some e) t = elem t (document_trigrams e.document)

abbrev pub AreDistinct : List ℕ → Type 0
AreDistinct [] = Unit {0}
AreDistinct (x ∷ xs) = (has x xs ≡ false) × AreDistinct xs

-- An identifier's slot holds its document, a document's identifier has its slot, a slot is posted
-- under exactly the trigrams of its document, posting lists are sorted, and the free slots are
-- distinct holes.
pub record IsIndex (s : IndexState) : Type 0 where
  pub slot_entry :
      (id : String) (slot : ℕ)
      → s.slots id ≡ some slot
      → (e : IndexedDocument) × (entry_at s.documents slot ≡ some e) × (e.id ≡ id)
  pub entry_slot :
      (slot : ℕ) (e : IndexedDocument)
      → entry_at s.documents slot ≡ some e
      → s.slots e.id ≡ some slot
  pub posted :
      (t : List ℕ) (slot : ℕ)
      → has slot (slots_of (s.postings t)) ≡ entry_has (entry_at s.documents slot) t
  pub rising : (t : List ℕ) → IsRising (slots_of (s.postings t))
  pub free_hole :
      (slot : ℕ)
      → has slot s.free_slots ≡ true
      → (entry_at s.documents slot ≡ none) × (slot < length s.documents)
  pub free_distinct : AreDistinct s.free_slots

pub empty_state-IsIndex : IsIndex empty_state
unfolding empty_state has IsRising
empty_state-IsIndex = record {
  slot_entry = λ id slot h. cc;
  entry_slot = λ slot e h. cc;
  posted = λ t slot. refl;
  rising = λ t. tt;
  free_hole = λ slot h. cc;
  free_distinct = tt;
}
