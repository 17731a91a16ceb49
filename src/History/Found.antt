-- ===== src/History/Found.antt =====
-- A copy of a text that a clip was edited to, src-tauri/src/commands.rs and src-tauri/src/clipboard.rs.
use Prim.Native.String.{String}
use package.text.Mathlib.TextEquality.{eq_iff}
use cubby_clipboard.Prelude.{
  ℕ, ◌≡◌, refl, inl, inr, Bool, true, List, [], ◌∷◌, Option, none, some, arith, Bool-cases,
  Option-cases,
}
use cubby_clipboard.ListenerEvent.{ClipboardSnapshot, text}
use cubby_clipboard.ClipTable.{Clip, is_uuid, is_hash, select, update_where, count_where}
use cubby_clipboard.ClipTable.Rows.{count-unselected}
use cubby_clipboard.Capture.State.{Platform, CaptureState}
use cubby_clipboard.Capture.Storing.{storage_hash}
use cubby_clipboard.Capture.{reset_capture_dedup}
use cubby_clipboard.History.Editing.{is_rival, edit, edited_hash, edited_clips, update_clip_text}
use cubby_clipboard.History.Edited.{edited_clips-IsEdited}

module _ (id hash : String) (content preview : List ℕ) where
  -- The first row with the new hash is the edited one.
  select-edited :
      (cs : List Clip) (row : Clip)
      → select (is_uuid id) cs ≡ some row
      → count_where (is_rival id hash) cs ≡ 0
      → (c : Clip) × (select
            (is_hash hash)
            (update_where (is_uuid id) (edit hash content preview) cs)
          ≡ some c)
        × (c.columns.uuid ≡ id)
        × (c.formats ≡ [])
  unfolding select update_where count_where
  select-edited [] row there alone = absurd (cc)
  select-edited (d ∷ ds) row there alone = elim (Bool-cases (is_uuid id d)) [
    | inl h ↦ (
      edit hash content preview d,
      ground (arith, h, eq_iff hash hash),
      ground (arith, h, eq_iff d.columns.uuid id),
      refl,
    )
    | inr h ↦
        let (c, found, named, bare) =
          select-edited ds row (ground (arith, h, there)) (ground (arith, alone)) in
        (c, ground (arith, h, alone, found), named, bare)
  ]

-- Once a clip was edited to a text, a plain copy of that text is found to be this clip, without the
-- formats that described the old text, and it is not taken for a repeat.
pub edited_text_found :
    (p : Platform) (fails : Bool) (encrypt : List ℕ → Option (List ℕ)) (id : String) (body : List ℕ)
    (w : CaptureState) (copy : ClipboardSnapshot) (preview hash : List ℕ)
    → (update_clip_text p fails encrypt id body w).0 ≡ true
    → copy.content ≡ text (p.into_bytes body) preview hash
    → copy.formats ≡ []
    → (c : Clip) × (select
          (is_hash (storage_hash p copy))
          (update_clip_text p fails encrypt id body w).1.clips
        ≡ some c)
      × (c.columns.uuid ≡ id)
      × (c.formats ≡ [])
      × ((update_clip_text p fails encrypt id body w).1.last_stable_hash ≡ none)
unfolding update_clip_text reset_capture_dedup storage_hash edited_hash
edited_text_found p fails encrypt id body w copy preview hash done plain bare =
    elim (Option-cases (edited_clips p fails encrypt id body w.clips)) [
      | inl h ↦ absurd (ground (arith, done, h))
      | inr (cs, h) ↦
          let new = edited_hash p body in
          let edited = edited_clips-IsEdited p encrypt id body w.clips fails cs h in
          let alone = count-unselected (is_rival id new) w.clips edited.alone in
          let (c, found, named, stripped) =
            select-edited id new edited.content edited.preview w.clips edited.row edited.there
              alone in
          let same : storage_hash p copy ≡ new = rw (plain, bare) refl in
          (
            c,
            rw (update_clip_text, h) (rw (same, edited.written) found),
            named,
            stripped,
            rw (update_clip_text, h) refl,
          )
    ]
