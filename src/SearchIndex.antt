-- ===== src/SearchIndex.antt =====
-- The in-memory search index, src-tauri/src/search_index.rs.
-- A text is the list of its characters; `lowercase` stands for `str::to_lowercase`, whose tables are
-- not spelled out. A hash map is a function, a hash set a list without duplicates, whose order no
-- result depends on. Slots are `u32`; a `Vec` is a list, and the end of the stack `free_slots` comes
-- first. `binary_search` on a sorted list is a walk to the place.
-- An index past the end would panic; here it reads `none` and writes nothing, and the invariant
-- excludes it.
pub mod Texts
pub mod Slots
pub mod Query
pub mod Substrings
pub mod SlotLists
pub mod Invariant
pub mod Candidates
pub mod Matching
pub mod Postings
pub mod Entries
pub mod Insertion
pub mod Remap
pub mod Compaction
pub mod Removal
pub mod Updates
pub mod Changes
pub mod Service
pub mod Rebuild
pub mod Notes
pub mod Publishing
use Prim.Native.String.{String}
use text.Mathlib.Text.{◌==◌ as str_eq}
use cubby_clipboard.Prelude.{
  ℕ, zero, suc, ◌+◌, ◌-◌, ◌*◌, ◌%◌, Bool, true, false, not, ◌&&◌, ◌||◌, List, [], ◌∷◌, ◌++◌, Option,
  none, some, length, get_elem?, ltb, leb, ◌==◌, if◌then◌else◌,
}
use cubby_clipboard.Secrets.Text.{text_eq, contains, trim_matches, is_whitespace}
use cubby_clipboard.SearchIndex.Texts.{
  SearchDocument, redundant_preview, document_contains, trigrams, document_trigrams,
}
use cubby_clipboard.SearchIndex.Slots.{slot_mod, insert_slot, remove_slot, intersect_sorted}

pub record IndexedDocument : Type 0 where
  pub id : String
  pub document : SearchDocument

pub record IndexState : Type 0 where
  pub documents : List (Option IndexedDocument)
  pub slots : String → Option ℕ
  pub free_slots : List ℕ
  pub postings : List ℕ → Option (List ℕ)

unfoldable pub empty_state : IndexState
empty_state = record { documents = []; slots = λ id. none; free_slots = []; postings = λ t. none }

abbrev pub entry_at : List (Option IndexedDocument) → ℕ → Option IndexedDocument
entry_at documents slot = elim (get_elem? documents slot) [ none ↦ none | some entry ↦ entry ]

abbrev pub document_of : Option IndexedDocument → Option SearchDocument
document_of none = none
document_of (some entry) = some entry.document

unfoldable pub document : IndexState → String → Option SearchDocument
document s id = elim (s.slots id) [
  | none ↦ none
  | some slot ↦ document_of (entry_at s.documents slot)
]

-- `documents[slot] = entry`
unfoldable pub set_entry :
    List (Option IndexedDocument) → ℕ → Option IndexedDocument → List (Option IndexedDocument)
set_entry [] slot entry = []
set_entry (x ∷ xs) zero entry = entry ∷ xs
set_entry (x ∷ xs) (suc slot) entry = x ∷ set_entry xs slot entry

abbrev pub set_slot : (String → Option ℕ) → String → Option ℕ → String → Option ℕ
set_slot slots id slot j = if str_eq j id then slot else slots j

abbrev pub set_posting :
    (List ℕ → Option (List ℕ)) → List ℕ → Option (List ℕ) → List ℕ → Option (List ℕ)
set_posting postings t entry u = if text_eq u t then entry else postings u

abbrev pub slots_of : Option (List ℕ) → List ℕ
slots_of none = []
slots_of (some slots) = slots

-- The loops over the trigrams of `insert` and of `remove`.
unfoldable pub post_all : (List ℕ → Option (List ℕ)) → ℕ → List (List ℕ) → List ℕ → Option (List ℕ)
post_all postings slot [] = postings
post_all postings slot (t ∷ ts) =
    post_all (set_posting postings t (some (insert_slot slot (slots_of (postings t))))) slot ts

abbrev pub without : ℕ → Option (List ℕ) → Option (List ℕ)
without slot none = none
without slot (some slots) =
    let rest = remove_slot slot slots in elim rest [ [] ↦ none | x ∷ xs ↦ some (x ∷ xs) ]

unfoldable pub unpost_all :
    (List ℕ → Option (List ℕ)) → ℕ → List (List ℕ) → List ℕ → Option (List ℕ)
unpost_all postings slot [] = postings
unpost_all postings slot (t ∷ ts) =
    unpost_all (set_posting postings t (without slot (postings t))) slot ts

-- `None` and a live slot: the second component holds the live entries, packed.
unfoldable pub compacted :
    List (Option IndexedDocument) → ℕ → List (Option ℕ) × List (Option IndexedDocument)
compacted [] count = ([], [])
compacted (none ∷ entries) count =
    let (remap, packed) = compacted entries count in (none ∷ remap, packed)
compacted (some entry ∷ entries) count =
    let (remap, packed) = compacted entries (suc count) in (some count ∷ remap, some entry ∷ packed)

abbrev pub flat : Option (Option ℕ) → Option ℕ
flat none = none
flat (some o) = o

-- `remap[slot]`
abbrev pub remap_slot : List (Option ℕ) → ℕ → Option ℕ
remap_slot remap slot = flat (get_elem? remap slot)

-- `retain_mut` of a posting list.
unfoldable pub retain_slots : List (Option ℕ) → List ℕ → List ℕ
retain_slots remap [] = []
retain_slots remap (s ∷ slots) = elim (remap_slot remap s) [
  | none ↦ retain_slots remap slots
  | some new_slot ↦ new_slot ∷ retain_slots remap slots
]

abbrev pub map_option {ℓ κ} : {A : Type ℓ} {B : Type κ} → (A → B) → Option A → Option B
map_option f none = none
map_option f (some a) = some (f a)

abbrev pub then_remap : List (Option ℕ) → Option ℕ → Option ℕ
then_remap remap none = none
then_remap remap (some slot) = remap_slot remap slot

abbrev pub min_slots : ℕ
min_slots = 16

-- An identifier whose slot is not remapped would panic, `expect`; here it would lose its slot.
unfoldable pub compact : IndexState → IndexState
unfolding compacted retain_slots
compact s =
    let (remap, packed) = compacted s.documents 0 in
    record {
      documents = packed;
      slots = λ id. then_remap remap (s.slots id);
      free_slots = [];
      postings = λ t. map_option (retain_slots remap) (s.postings t);
    }

unfoldable pub compact_if_sparse : IndexState → IndexState
compact_if_sparse s =
    if ltb (length s.documents) min_slots || leb (length s.free_slots * 2) (length s.documents)
    then s
    else compact s

-- The identifier, its document and its postings gone, the slot free.
unfoldable pub freed : IndexState → String → ℕ → IndexedDocument → IndexState
unfolding set_entry unpost_all
freed s id slot entry = record {
  documents = set_entry s.documents slot none;
  slots = set_slot s.slots id none;
  free_slots = slot ∷ s.free_slots;
  postings = unpost_all s.postings slot (document_trigrams entry.document);
}

-- The second early return keeps the identifier removed.
unfoldable pub remove_slotted : IndexState → String → ℕ → IndexState
unfolding freed compact_if_sparse
remove_slotted s id slot = elim (entry_at s.documents slot) [
  | none ↦ record s { slots = set_slot s.slots id none }
  | some entry ↦ compact_if_sparse (freed s id slot entry)
]

unfoldable pub remove : IndexState → String → IndexState
remove s id = elim (s.slots id) [ none ↦ s | some slot ↦ remove_slotted s id slot ]

-- A free slot, or a new one at the end.
unfoldable pub take_slot :
    List (Option IndexedDocument) → List ℕ → ℕ × List (Option IndexedDocument) × List ℕ
take_slot documents (slot ∷ free) = (slot, documents, free)
take_slot documents [] = (length documents % slot_mod, documents ++ none ∷ [], [])

-- The document in its slot, posted and registered.
unfoldable pub place :
    IndexState → ℕ → List (Option IndexedDocument) → List ℕ → String → SearchDocument → IndexState
unfolding set_entry post_all
place s slot documents free id d = record {
  documents = set_entry documents slot (some (record { id = id; document = d }));
  slots = set_slot s.slots id (some slot);
  free_slots = free;
  postings = post_all s.postings slot (document_trigrams d);
}

unfoldable pub insert_fresh : IndexState → String → SearchDocument → IndexState
unfolding take_slot place
insert_fresh s id d =
    let (slot, documents, free) = take_slot s.documents s.free_slots in
    place s slot documents free id d

unfoldable pub insert : IndexState → String → SearchDocument → IndexState
insert s id d = insert_fresh (remove s id) id d
