-- ===== src/SearchIndex/Compaction.antt =====
-- `compact_if_sparse` of src-tauri/src/search_index.rs.
use Prim.Native.String.{String}
use mathlib.Core.Path.{subst}
use mathlib.Core.Option.{none-ne-some}
use cubby_clipboard.Prelude.{
  ℕ, ◌*◌, ◌≤◌, ◌≡◌, refl, sym, ap, ◌∙◌, ◌⊎◌, inl, inr, ◌||◌, List, [], Option, none, some, length,
  ltb, leb, arith, Bool-cases, Option-cases,
}
use cubby_clipboard.SearchIndex.Texts.{SearchDocument}
use cubby_clipboard.SearchIndex.Slots.{has}
use cubby_clipboard.SearchIndex.{
  IndexedDocument, IndexState, entry_at, slots_of, document, document_of, compacted, retain_slots,
  map_option, then_remap, compact, compact_if_sparse, min_slots,
}
use cubby_clipboard.SearchIndex.SlotLists.{IsRising}
use cubby_clipboard.SearchIndex.Invariant.{IsIndex, entry_has}
use cubby_clipboard.SearchIndex.Remap.{
  remap_slot-entry_at, entry_at-compacted, remap_slot-live, remap_slot-lt, length-compacted,
  has-retain_slots, retain_slots-IsRising, has-retain_slots_none,
}

slots_of-map_option :
    (f : List ℕ → List ℕ) (o : Option (List ℕ))
    → f [] ≡ []
    → slots_of (map_option f o) ≡ f (slots_of o)
slots_of-map_option f none h = sym h
slots_of-map_option f (some xs) h = refl

compact_if_sparse-or :
    (s : IndexState) → (compact_if_sparse s ≡ s) ⊎ (compact_if_sparse s ≡ compact s)
unfolding compact_if_sparse
compact_if_sparse-or s =
    elim (Bool-cases
      (ltb (length s.documents) min_slots || leb (length s.free_slots * 2) (length s.documents))) [
        | inl e ↦ inl (rw e refl)
        | inr e ↦ inr (rw e refl)
      ]

-- The document of an identifier's slot.
abbrev document_at : List (Option IndexedDocument) → Option ℕ → Option SearchDocument
document_at documents none = none
document_at documents (some slot) = document_of (entry_at documents slot)

document-at : (s : IndexState) (id : String) → document s id ≡ document_at s.documents (s.slots id)
unfolding document
document-at s id = go (s.slots id)
  where
    go :
        (o : Option ℕ)
        → elim o [ none ↦ none | some slot ↦ document_of (entry_at s.documents slot) ]
          ≡ document_at s.documents o
    go none = refl
    go (some slot) = refl

module _ (s : IndexState) (inv : IsIndex s) where
  -- Where an identifier's document goes.
  slots-compact :
      (id : String) (m : ℕ) (e : IndexedDocument)
      → s.slots id ≡ some m
      → entry_at s.documents m ≡ some e
      → (j : ℕ) × ((compact s).slots id ≡ some j) × (entry_at (compact s).documents j ≡ some e)
  unfolding compact
  slots-compact id m e h k =
      let (j, l, p) = remap_slot-entry_at s.documents 0 m e k in
      (j, ap (then_remap (compacted s.documents 0).0) h ∙ l ∙ ap some (omega arith), p)

  compact-slot_entry :
      (id : String) (r : ℕ)
      → (compact s).slots id ≡ some r
      → (e : IndexedDocument) × (entry_at (compact s).documents r ≡ some e) × (e.id ≡ id)
  unfolding compact
  compact-slot_entry id r h = elim (Option-cases (s.slots id)) [
    | inl q ↦ absurd (none-ne-some r (ap (then_remap (compacted s.documents 0).0) (sym q) ∙ h))
    | inr (m, q) ↦
        let (e, k, l) = inv.slot_entry id m q in
        let (j, p, at) = slots-compact id m e q k in
        let same : r ≡ j = ground (arith, h, p) in (e, ground (arith, at, same), l)
  ]

  compact-entry_slot :
      (r : ℕ) (e : IndexedDocument)
      → entry_at (compact s).documents r ≡ some e
      → (compact s).slots e.id ≡ some r
  unfolding compact
  compact-entry_slot r e h =
      let (m, k, l) = entry_at-compacted s.documents 0 r e h in
      ap (then_remap (compacted s.documents 0).0) (inv.entry_slot m e k) ∙ l ∙ ap some (omega arith)

  slots_of-retained :
      (t : List ℕ)
      → slots_of ((compact s).postings t)
        ≡ retain_slots (compacted s.documents 0).0 (slots_of (s.postings t))
  unfolding compact retain_slots
  slots_of-retained t =
      slots_of-map_option (retain_slots (compacted s.documents 0).0) (s.postings t) refl

  compact-posted :
      (t : List ℕ) (r : ℕ)
      → has r (slots_of ((compact s).postings t)) ≡ entry_has (entry_at (compact s).documents r) t
  unfolding compact
  compact-posted t r =
      ap (has r) (slots_of-retained t) ∙ elim (Option-cases (entry_at (compact s).documents r)) [
        | inl e ↦
            has-retain_slots_none (compacted s.documents 0).0 r (slots_of (s.postings t)) (λ m l.
              let (e', k) = remap_slot-live s.documents 0 m r l in
              let (j, p, at) = remap_slot-entry_at s.documents 0 m e' k in
              let same : r ≡ j = ground (arith, l, p) in
              none-ne-some e' (sym e ∙ ap (entry_at (compacted s.documents 0).1) same ∙ at))
            ∙ ap (λ o. entry_has o t) (sym e)
        | inr (e, h) ↦
            let (m, k, l) = entry_at-compacted s.documents 0 r e h in
            has-retain_slots (compacted s.documents 0).0 (remap_slot-lt s.documents 0) m r
              (slots_of (s.postings t)) (l ∙ ap some (omega arith))
            ∙ inv.posted t m
            ∙ ap (λ o. entry_has o t) (k ∙ sym h)
      ]

  pub compact-IsIndex : IsIndex (compact s)
  unfolding compact
  compact-IsIndex = record {
    slot_entry = compact-slot_entry;
    entry_slot = compact-entry_slot;
    posted = compact-posted;
    rising = λ t. subst IsRising (sym (slots_of-retained t)) (
        retain_slots-IsRising (compacted s.documents 0).0 (remap_slot-lt s.documents 0)
          (slots_of (s.postings t)) (inv.rising t));
    free_hole = λ m h. absurd (unfold has in cc);
    free_distinct = tt;
  }

  -- No document is lost or changed.
  pub document-compact : (id : String) → document (compact s) id ≡ document s id
  unfolding document compact
  document-compact id = elim (Option-cases (s.slots id)) [
    | inl q ↦ ground (arith, q)
    | inr (m, q) ↦
        let (e, k, l) = inv.slot_entry id m q in
        let (j, p, at) = slots-compact id m e q k in
        document-at (compact s) id
        ∙ ap (document_at (compact s).documents) p
        ∙ ap document_of (at ∙ sym k)
        ∙ ap (document_at s.documents) (sym q)
        ∙ sym (document-at s id)
  ]

  pub compact_if_sparse-IsIndex : IsIndex (compact_if_sparse s)
  compact_if_sparse-IsIndex = elim (compact_if_sparse-or s) [
    | inl e ↦ subst IsIndex (sym e) inv
    | inr e ↦ subst IsIndex (sym e) compact-IsIndex
  ]

  pub document-compact_if_sparse : (id : String) → document (compact_if_sparse s) id ≡ document s id
  document-compact_if_sparse id = elim (compact_if_sparse-or s) [
    | inl e ↦ ap (λ u. document u id) e
    | inr e ↦ ap (λ u. document u id) e ∙ document-compact id
  ]

  pub length-compact_if_sparse : length (compact_if_sparse s).documents ≤ length s.documents
  length-compact_if_sparse = elim (compact_if_sparse-or s) [
    | inl e ↦ subst (λ u. length u.documents ≤ length s.documents) (sym e) (omega arith)
    | inr e ↦
        subst (λ u. length u.documents ≤ length s.documents) (sym e)
          (unfold compact in length-compacted s.documents 0)
  ]
