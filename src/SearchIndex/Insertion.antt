-- ===== src/SearchIndex/Insertion.antt =====
-- `insert` of src-tauri/src/search_index.rs, once the identifier is out of the index.
use Prim.Native.String.{String}
use text.Mathlib.Text.{◌==◌ as str_eq}
use text.Mathlib.TextEquality.{eq_iff}
use cubby_clipboard.Prelude.{
  ℕ, suc, ◌≤◌, ◌<◌, ◌%◌, ◌≡◌, refl, ◌∙◌, inl, inr, true, false, List, [], ◌∷◌, Option, none, some,
  length, ◌==◌, arith, if◌then◌else◌, Bool-cases, Option-cases, ==_iff,
}
use cubby_clipboard.SearchIndex.Texts.{SearchDocument, document_trigrams}
use cubby_clipboard.SearchIndex.Slots.{slot_mod, has}
use cubby_clipboard.SearchIndex.{
  IndexedDocument, IndexState, entry_at, document, take_slot, place, insert_fresh,
}
use cubby_clipboard.SearchIndex.Invariant.{IsIndex, AreDistinct}
use cubby_clipboard.SearchIndex.Postings.{has-post_all, post_all-AllRising}
use cubby_clipboard.SearchIndex.Entries.{
  entry_at-set_entry, length-set_entry, entry_at-push, length-push, entry_at-past,
}

-- What `take_slot` hands out: a hole inside the list; no entry moves, and the free slots stay holes.
record IsTaken (s : IndexState) (n : ℕ) (documents : List (Option IndexedDocument)) (free : List ℕ)
    : Type 0 where
  inside : n < length documents
  same_entry : (m : ℕ) → entry_at documents m ≡ entry_at s.documents m
  hole : entry_at s.documents n ≡ none
  other_free : has n free ≡ false
  still_free :
      (m : ℕ) → has m free ≡ true → (entry_at s.documents m ≡ none) × (m < length documents)
  still_distinct : AreDistinct free
  growth : length documents ≤ suc (length s.documents)

take_slot-IsTaken :
    (s : IndexState) (fs : List ℕ)
    → length s.documents < slot_mod
    → ((m : ℕ) → has m fs ≡ true → (entry_at s.documents m ≡ none) × (m < length s.documents))
    → AreDistinct fs
    → let t = take_slot s.documents fs in IsTaken s t.0 t.1 t.2
unfolding take_slot has
take_slot-IsTaken s [] h k d =
    let at_end : length s.documents % slot_mod ≡ length s.documents = omega (arith, h) in
    record {
      inside = rw at_end (omega (arith, length-push s.documents));
      same_entry = entry_at-push s.documents;
      hole = rw at_end (entry_at-past s.documents (length s.documents) (omega arith));
      other_free = refl;
      still_free = λ m e. absurd (cc);
      still_distinct = tt;
      growth = omega (arith, length-push s.documents);
    }
take_slot-IsTaken s (f ∷ fs) h k d =
    let (hole, inside) = k f (ground arith) in
    record {
      inside = inside;
      same_entry = λ m. refl;
      hole = hole;
      other_free = d.0;
      still_free = λ m e. k m (ground (arith, e));
      still_distinct = d.1;
      growth = omega arith;
    }

module _ (s : IndexState) (n : ℕ) (documents : List (Option IndexedDocument)) (free : List ℕ)
    (id : String) (d : SearchDocument) (inv : IsIndex s) (taken : IsTaken s n documents free)
    (absent : s.slots id ≡ none) where
  -- The new document in its slot, the old ones where they were.
  entry_at-place :
      (m : ℕ)
      → entry_at (place s n documents free id d).documents m
        ≡ (if m == n then some (record { id = id; document = d }) else entry_at s.documents m)
  unfolding place
  entry_at-place m =
      entry_at-set_entry documents n m (some (record { id = id; document = d })) taken.inside
      ∙ ground (arith, taken.same_entry m)

  place-slot_entry :
      (j : String) (m : ℕ)
      → (place s n documents free id d).slots j ≡ some m
      → (e : IndexedDocument) × (entry_at (place s n documents free id d).documents m ≡ some e)
        × (e.id ≡ j)
  unfolding place
  place-slot_entry j m h = elim (Bool-cases (str_eq j id)) [
    | inl q ↦
        let same : m ≡ n = ground (arith, h, q) in
        (
          record { id = id; document = d },
          entry_at-place m ∙ ground (arith, ==_iff m n, same),
          ground (arith, eq_iff j id, q),
        )
    | inr q ↦
        let old : s.slots j ≡ some m = ground (arith, h, q) in
        let (e, k, l) = inv.slot_entry j m old in
        (e, entry_at-place m ∙ ground (arith, ==_iff m n, taken.hole, k), l)
  ]

  place-entry_slot :
      (m : ℕ) (e : IndexedDocument)
      → entry_at (place s n documents free id d).documents m ≡ some e
      → (place s n documents free id d).slots e.id ≡ some m
  unfolding place
  place-entry_slot m e h = elim (Bool-cases (m == n)) [
    | inl q ↦
        let same : record { id = id; document = d } ≡ e = ground (arith, h, entry_at-place m, q) in
        ground (arith, same, eq_iff e.id id, ==_iff m n, q)
    | inr q ↦
        let old : entry_at s.documents m ≡ some e = ground (arith, h, entry_at-place m, q) in
        ground (arith, inv.entry_slot m e old, eq_iff e.id id, absent)
  ]

  place-IsIndex : IsIndex (place s n documents free id d)
  unfolding place
  place-IsIndex = record {
    slot_entry = place-slot_entry;
    entry_slot = place-entry_slot;
    posted = λ t m. ground (
      arith,
      has-post_all s.postings n (document_trigrams d) m t,
      entry_at-place m,
      inv.posted t m,
      ==_iff m n,
      taken.hole,
    );
    rising = post_all-AllRising s.postings n (document_trigrams d) inv.rising;
    free_hole = λ m e.
        let (hole, inside) = taken.still_free m e in
        (
          ground (arith, entry_at-place m, hole, e, ==_iff m n, taken.other_free),
          rw (length-set_entry documents n (some (record { id = id; document = d }))) inside,
        );
    free_distinct = taken.still_distinct;
  }

  document-place :
      (j : String)
      → document (place s n documents free id d) j ≡ (if str_eq j id then some d else document s j)
  unfolding place document
  document-place j = elim (Bool-cases (str_eq j id)) [
    | inl q ↦ ground (arith, q, entry_at-place n, ==_iff n n)
    | inr q ↦ elim (Option-cases (s.slots j)) [
      | inl e ↦ ground (arith, q, e)
      | inr (m, e) ↦
          let (f, k, l) = inv.slot_entry j m e in
          ground (arith, q, e, entry_at-place m, ==_iff m n, taken.hole, k)
    ]
  ]

module _ (s : IndexState) (id : String) (d : SearchDocument) (inv : IsIndex s)
    (room : length s.documents < slot_mod) (absent : s.slots id ≡ none) where
  pub insert_fresh-IsIndex : IsIndex (insert_fresh s id d)
  unfolding insert_fresh
  insert_fresh-IsIndex =
      let t = take_slot s.documents s.free_slots in
      let taken = take_slot-IsTaken s s.free_slots room inv.free_hole inv.free_distinct in
      place-IsIndex s t.0 t.1 t.2 id d inv taken absent

  pub document-insert_fresh :
      (j : String)
      → document (insert_fresh s id d) j ≡ (if str_eq j id then some d else document s j)
  unfolding insert_fresh
  document-insert_fresh =
      let t = take_slot s.documents s.free_slots in
      let taken = take_slot-IsTaken s s.free_slots room inv.free_hole inv.free_distinct in
      document-place s t.0 t.1 t.2 id d inv taken absent

  pub length-insert_fresh : length (insert_fresh s id d).documents ≤ suc (length s.documents)
  unfolding insert_fresh place
  length-insert_fresh =
      let t = take_slot s.documents s.free_slots in
      let taken = take_slot-IsTaken s s.free_slots room inv.free_hole inv.free_distinct in
      let growth = taken.growth in
      let same = length-set_entry t.1 t.0 (some (record { id = id; document = d })) in
      omega (arith, growth, same)
