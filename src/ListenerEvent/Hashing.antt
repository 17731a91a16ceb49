-- ===== src/ListenerEvent/Hashing.antt =====
-- The streamed hash of src-tauri/src/clipboard.rs and the hash of the material.
use mathlib.Core.List.{append_assoc, append-nil}
use cubby_clipboard.Prelude.{ℕ, ◌≡◌, refl, ap, ◌∙◌, true, false, List, [], ◌∷◌, ◌++◌}
use cubby_clipboard.ListenerEvent.{
  Hasher, CapturedFormat, CapturedContent, text, image, text_type, image_type, update_formats,
  captured_clip_hash, formats_material, build_clip_hash_material,
}

-- Documented of a streaming digest: two updates are one with the bytes joined.
pub record StreamLaws (h : Hasher) : Type 0 where
  pub update_update :
      (s : h.State) (xs ys : List ℕ) → h.update (h.update s xs) ys ≡ h.update s (xs ++ ys)

-- The primary content that a capture is hashed by, and its type.
unfoldable pub material_of : CapturedContent → List CapturedFormat → List ℕ
material_of (text bytes preview hash) fs = build_clip_hash_material text_type false bytes fs
material_of (image png_bytes hash) fs = build_clip_hash_material image_type true png_bytes fs

module _ (h : Hasher) (laws : StreamLaws h) where
  update_formats_lem :
      (s : h.State) (xs : List ℕ) (fs : List CapturedFormat)
      → update_formats h (h.update s xs) fs ≡ h.update s (xs ++ formats_material fs)
  unfolding update_formats formats_material
  update_formats_lem s xs [] = rw (append-nil xs)
  update_formats_lem s xs (f ∷ fs) =
      rw (laws.update_update, laws.update_update, laws.update_update, laws.update_update)
        (update_formats_lem s _ fs ∙ ap (h.update s) (simp append_assoc))

  -- The hash that a capture streams is the hash of `build_clip_hash_material` over the same content.
  pub captured_clip_hash-material :
      (c : CapturedContent) (fs : List CapturedFormat)
      → captured_clip_hash h c fs ≡ h.finalize (h.update h.new (material_of c fs))
  unfolding captured_clip_hash build_clip_hash_material material_of
  captured_clip_hash-material (text bytes preview hash) fs =
      ap h.finalize (rw (laws.update_update, laws.update_update) (update_formats_lem h.new _ fs))
  captured_clip_hash-material (image png_bytes hash) fs =
      ap h.finalize (rw (laws.update_update, laws.update_update, append-nil png_bytes) refl)
