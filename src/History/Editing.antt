-- ===== src/History/Editing.antt =====
-- Editing the text of a clip, `update_clip_text_in_database` of src-tauri/src/commands.rs. A text is
-- the list of its characters.
use Prim.Native.String.{String}
use cubby_clipboard.Prelude.{
  ℕ, zero, suc, Bool, true, false, not, ◌&&◌, ◌||◌, List, [], ◌∷◌, Option, none, some,
  if◌then◌else◌,
}
use cubby_clipboard.ListenerEvent.{text_type, build_clip_hash_material}
use cubby_clipboard.SearchIndex.Service.{upsert}
use cubby_clipboard.ClipTable.{Clip, is_uuid, is_hash, select, update_where}
use cubby_clipboard.Capture.State.{Platform, CaptureState}
use cubby_clipboard.Capture.{reset_capture_dedup}

abbrev pub text_preview_char_limit : ℕ
text_preview_char_limit = 200

-- `chars().take(limit)`
unfoldable pub truncate : ℕ → List ℕ → List ℕ
truncate limit [] = []
truncate zero (c ∷ cs) = []
truncate (suc limit) (c ∷ cs) = c ∷ truncate limit cs

-- A different clip with this hash.
abbrev pub is_rival : String → String → Clip → Bool
is_rival id hash c = is_hash hash c && not (is_uuid id c)

abbrev pub edit : String → List ℕ → List ℕ → Clip → Clip
edit hash content preview c = record c {
  content_hash = hash;
  content = content;
  text_preview = preview;
  formats = [];
}

module _ (p : Platform) where
  unfoldable pub edited_hash : List ℕ → String
  unfolding build_clip_hash_material
  edited_hash text = p.keyed_hash (build_clip_hash_material text_type false (p.into_bytes text) [])

  -- The table once the clip holds the encrypted text, or none for an error: the clip is missing or an
  -- image, the encryption fails, another clip has the text, or a statement fails.
  unfoldable pub edited_clips :
      Bool → (List ℕ → Option (List ℕ)) → String → List ℕ → List Clip → Option (List Clip)
  unfolding select update_where truncate edited_hash
  edited_clips fails encrypt id text clips = elim (select (is_uuid id) clips) [
    | none ↦ none
    | some row ↦
        if fails || row.columns.is_image then none else elim (encrypt (p.into_bytes text)) [
          | none ↦ none
          | some content ↦ elim (encrypt (p.into_bytes (truncate text_preview_char_limit text))) [
            | none ↦ none
            | some preview ↦ elim (select (is_rival id (edited_hash text)) clips) [
              | some rival ↦ none
              | none ↦
                  some (update_where (is_uuid id) (edit (edited_hash text) content preview) clips)
            ]
          ]
        ]
  ]

  -- The index is given the text as it is.
  unfoldable pub update_clip_text :
      Bool → (List ℕ → Option (List ℕ)) → String → List ℕ → CaptureState → Bool × CaptureState
  unfolding edited_clips upsert truncate reset_capture_dedup
  update_clip_text fails encrypt id text w = elim (edited_clips fails encrypt id text w.clips) [
    | none ↦ (false, w)
    | some clips ↦ (
      true,
      reset_capture_dedup (record w {
        clips = clips;
        index =
            upsert p.lowercase p.from_utf8_lossy w.index id "text" (p.into_bytes text)
              (truncate text_preview_char_limit text) none none;
      }),
    )
  ]
