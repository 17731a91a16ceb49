-- ===== src/SearchIndex/Updates.antt =====
-- `insert` and `remove` of src-tauri/src/search_index.rs as updates of a map from identifiers to
-- documents.
use Prim.Native.String.{String}
use mathlib.Core.Path.{subst}
use text.Mathlib.Text.{◌==◌ as str_eq}
use text.Mathlib.TextEquality.{eq_iff}
use cubby_clipboard.Prelude.{
  ℕ, suc, ◌≤◌, ◌<◌, ◌≡◌, sym, ap, ◌∙◌, inl, inr, none, some, length, arith, if◌then◌else◌,
  Bool-cases, Option-cases,
}
use cubby_clipboard.SearchIndex.Texts.{SearchDocument}
use cubby_clipboard.SearchIndex.Slots.{slot_mod}
use cubby_clipboard.SearchIndex.{
  IndexedDocument, IndexState, entry_at, document, freed, compact_if_sparse, remove_slotted, remove,
  insert,
}
use cubby_clipboard.SearchIndex.Invariant.{IsIndex}
use cubby_clipboard.SearchIndex.Insertion.{
  insert_fresh-IsIndex, document-insert_fresh, length-insert_fresh,
}
use cubby_clipboard.SearchIndex.Removal.{freed-IsIndex, document-freed, length-freed}
use cubby_clipboard.SearchIndex.Compaction.{
  compact_if_sparse-IsIndex, document-compact_if_sparse, length-compact_if_sparse,
}

document-absent : (s : IndexState) (id : String) → s.slots id ≡ none → document s id ≡ none
unfolding document
document-absent s id h = ground (arith, h)

-- An identifier without a document has no slot.
slots-absent : (s : IndexState) (id : String) → IsIndex s → document s id ≡ none → s.slots id ≡ none
unfolding document
slots-absent s id inv h = elim (Option-cases (s.slots id)) [
  | inl e ↦ e
  | inr (n, e) ↦ let (d, k, l) = inv.slot_entry id n e in absurd (ground (arith, h, e, k))
]

module _ (s : IndexState) (id : String) (inv : IsIndex s) where
  remove-absent : s.slots id ≡ none → remove s id ≡ s
  unfolding remove
  remove-absent h = ground (arith, h)

  remove-present :
      (n : ℕ) (e : IndexedDocument)
      → s.slots id ≡ some n
      → entry_at s.documents n ≡ some e
      → remove s id ≡ compact_if_sparse (freed s id n e)
  unfolding remove remove_slotted
  remove-present n e h k = ground (arith, h, k)

  -- Every state that `remove` can leave, and what holds of all of them.
  remove_cases :
      (P : IndexState → Type 0)
      → (s.slots id ≡ none → P s)
      → ((n : ℕ) (e : IndexedDocument)
          → s.slots id ≡ some n
          → entry_at s.documents n ≡ some e
          → e.id ≡ id
          → P (compact_if_sparse (freed s id n e)))
      → P (remove s id)
  remove_cases P absent present = elim (Option-cases (s.slots id)) [
    | inl h ↦ subst P (sym (remove-absent h)) (absent h)
    | inr (n, h) ↦
        let (e, k, l) = inv.slot_entry id n h in
        subst P (sym (remove-present n e h k)) (present n e h k l)
  ]

  -- Removal keeps the index's invariant.
  pub remove-IsIndex : IsIndex (remove s id)
  remove-IsIndex =
      remove_cases IsIndex (λ h. inv)
        (λ n e h k l. compact_if_sparse-IsIndex (freed s id n e) (freed-IsIndex s id n e inv h k l))

  -- After a removal from a valid index, with or without a compaction, the identifier has no document
  -- and every other one has the document it had.
  pub document-remove :
      (j : String) → document (remove s id) j ≡ (if str_eq j id then none else document s j)
  document-remove j =
      remove_cases (λ u. document u j ≡ (if str_eq j id then none else document s j))
        document-unchanged
        (λ n e h k l.
          document-compact_if_sparse (freed s id n e) (freed-IsIndex s id n e inv h k l) j
          ∙ document-freed s id n e inv h k l j)
    where
      document-unchanged :
          s.slots id ≡ none → document s j ≡ (if str_eq j id then none else document s j)
      document-unchanged h = elim (Bool-cases (str_eq j id)) [
        | inl q ↦ ap (document s) ((eq_iff j id).0 q) ∙ document-absent s id h ∙ ground (arith, q)
        | inr q ↦ ground (arith, q)
      ]

  pub length-remove : length (remove s id).documents ≤ length s.documents
  length-remove =
      remove_cases (λ u. length u.documents ≤ length s.documents) (λ h. omega arith)
        (λ n e h k l.
          let fewer =
            length-compact_if_sparse (freed s id n e) (freed-IsIndex s id n e inv h k l) in
          let same = length-freed s id n e inv h k l in omega (arith, fewer, same))

  slots-remove : (remove s id).slots id ≡ none
  slots-remove =
      slots-absent (remove s id) id remove-IsIndex
        (document-remove id ∙ ground (arith, eq_iff id id))

  module _ (d : SearchDocument) (room : length s.documents < slot_mod) where
    -- Insertion keeps the index's invariant.
    pub insert-IsIndex : IsIndex (insert s id d)
    unfolding insert
    insert-IsIndex =
        insert_fresh-IsIndex (remove s id) id d remove-IsIndex (omega (arith, room, length-remove))
          slots-remove

    -- Afterwards the identifier has the new document, and every other one the document it had.
    pub document-insert :
        (j : String) → document (insert s id d) j ≡ (if str_eq j id then some d else document s j)
    unfolding insert
    document-insert j =
        document-insert_fresh (remove s id) id d remove-IsIndex (omega (arith, room, length-remove))
          slots-remove j
        ∙ ground (arith, document-remove j)

    pub length-insert : length (insert s id d).documents ≤ suc (length s.documents)
    unfolding insert
    length-insert =
        let smaller = length-remove in
        let grown =
          length-insert_fresh (remove s id) id d remove-IsIndex (omega (arith, room, smaller))
            slots-remove in
        omega (arith, smaller, grown)
