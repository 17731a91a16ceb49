-- ===== src/SearchIndex/Removal.antt =====
-- `remove` of src-tauri/src/search_index.rs up to the compaction.
use Prim.Native.String.{String}
use text.Mathlib.Text.{◌==◌ as str_eq}
use text.Mathlib.TextEquality.{eq_iff}
use cubby_clipboard.Prelude.{
  ℕ, ◌<◌, ◌≡◌, ◌∙◌, inl, inr, true, false, ◌∷◌, none, some, length, ◌==◌, arith, if◌then◌else◌,
  Bool-cases, Option-cases, ==_iff,
}
use cubby_clipboard.SearchIndex.Texts.{document_trigrams}
use cubby_clipboard.SearchIndex.Slots.{has}
use cubby_clipboard.SearchIndex.{IndexedDocument, IndexState, entry_at, document, freed}
use cubby_clipboard.SearchIndex.Invariant.{IsIndex}
use cubby_clipboard.SearchIndex.Postings.{has-unpost_all, unpost_all-AllRising}
use cubby_clipboard.SearchIndex.Entries.{entry_at-set_entry, length-set_entry, lt_length-entry_at}

module _ (s : IndexState) (id : String) (n : ℕ) (d : IndexedDocument) (inv : IsIndex s)
    (at_id : s.slots id ≡ some n) (at_slot : entry_at s.documents n ≡ some d)
    (own : d.id ≡ id) where
  entry_at-freed :
      (m : ℕ)
      → entry_at (freed s id n d).documents m ≡ (if m == n then none else entry_at s.documents m)
  unfolding freed
  entry_at-freed m =
      entry_at-set_entry s.documents n m none (lt_length-entry_at s.documents n d at_slot)

  freed-slot_entry :
      (j : String) (m : ℕ)
      → (freed s id n d).slots j ≡ some m
      → (e : IndexedDocument) × (entry_at (freed s id n d).documents m ≡ some e) × (e.id ≡ j)
  unfolding freed
  freed-slot_entry j m h = elim (Bool-cases (str_eq j id)) [
    | inl q ↦ absurd (ground (arith, h, q))
    | inr q ↦
        let old : s.slots j ≡ some m = ground (arith, h, q) in
        let (e, k, l) = inv.slot_entry j m old in
        (e, entry_at-freed m ∙ ground (arith, ==_iff m n, at_slot, own, k, l, eq_iff j id, q), l)
  ]

  freed-entry_slot :
      (m : ℕ) (e : IndexedDocument)
      → entry_at (freed s id n d).documents m ≡ some e
      → (freed s id n d).slots e.id ≡ some m
  unfolding freed
  freed-entry_slot m e h = elim (Bool-cases (m == n)) [
    | inl q ↦ absurd (ground (arith, h, entry_at-freed m, q))
    | inr q ↦
        let old : entry_at s.documents m ≡ some e = ground (arith, h, entry_at-freed m, q) in
        ground (arith, inv.entry_slot m e old, eq_iff e.id id, at_id, ==_iff m n, q)
  ]

  taken_free : has n s.free_slots ≡ false
  taken_free = elim (Bool-cases (has n s.free_slots)) [
    | inl q ↦ absurd (ground (arith, (inv.free_hole n q).0, at_slot))
    | inr q ↦ q
  ]

  freed-free_hole :
      (m : ℕ)
      → has m (n ∷ s.free_slots) ≡ true
      → (entry_at (freed s id n d).documents m ≡ none) × (m < length (freed s id n d).documents)
  unfolding freed has
  freed-free_hole m h = elim (Bool-cases (m == n)) [
    | inl q ↦ (
      entry_at-freed m ∙ ground (arith, q),
      rw (length-set_entry s.documents n none)
          (ground (arith, lt_length-entry_at s.documents n d at_slot, ==_iff m n, q)),
    )
    | inr q ↦
        let (hole, inside) = inv.free_hole m (ground (arith, h, q)) in
        (
          entry_at-freed m ∙ ground (arith, q, hole),
          rw (length-set_entry s.documents n none) inside,
        )
  ]

  pub freed-IsIndex : IsIndex (freed s id n d)
  unfolding freed
  freed-IsIndex = record {
    slot_entry = freed-slot_entry;
    entry_slot = freed-entry_slot;
    posted = λ t m. ground (
      arith,
      has-unpost_all s.postings n (document_trigrams d.document) inv.rising m t,
      entry_at-freed m,
      inv.posted t m,
      ==_iff m n,
      at_slot,
    );
    rising = unpost_all-AllRising s.postings n (document_trigrams d.document) inv.rising;
    free_hole = freed-free_hole;
    free_distinct = (taken_free, inv.free_distinct);
  }

  pub document-freed :
      (j : String) → document (freed s id n d) j ≡ (if str_eq j id then none else document s j)
  unfolding freed document
  document-freed j = elim (Bool-cases (str_eq j id)) [
    | inl q ↦ ground (arith, q)
    | inr q ↦ elim (Option-cases (s.slots j)) [
      | inl e ↦ ground (arith, q, e)
      | inr (m, e) ↦
          let (f, k, l) = inv.slot_entry j m e in
          ground (arith, q, e, entry_at-freed m, ==_iff m n, at_slot, own, k, l, eq_iff j id)
    ]
  ]

  pub length-freed : length (freed s id n d).documents ≡ length s.documents
  unfolding freed
  length-freed = length-set_entry s.documents n none
