-- ===== src/Tests/Listed.antt =====
-- Examples for the pages of a listing, src-tauri/src/commands.rs.
use Prim.Native.String.{String}
use text.Mathlib.Text.{◌==◌ as str_eq}
use cubby_clipboard.Prelude.{◌≡◌, refl, [], ◌∷◌, Option, none, some, arith, if◌then◌else◌}
use cubby_clipboard.Listing.{collect_readable_clips_by_id, drop, source_start_for_ids, take}
use cubby_clipboard.Listing.Pages.{visible, collect_readable_clips_by_id-page, page_after_cursor}

-- "gone" was deleted, and "torn" cannot be decrypted.
abbrev row : String → Option String
row id = if str_eq id "gone" then none else some id

abbrev readable : String → Option String
readable id = if str_eq id "torn" then none else some id

collect_readable_clips_by_id-page_example :
    collect_readable_clips_by_id row readable ("a" ∷ "torn" ∷ "gone" ∷ "b" ∷ "c" ∷ []) 0 2
    ≡ some (take 2 (visible row readable (drop 0 ("a" ∷ "torn" ∷ "gone" ∷ "b" ∷ "c" ∷ []))))
collect_readable_clips_by_id-page_example =
    collect_readable_clips_by_id-page row readable 2 ("a" ∷ "torn" ∷ "gone" ∷ "b" ∷ "c" ∷ []) 0
      (omega arith)

page_after_cursor_example :
    collect_readable_clips_by_id row readable
      ("a" ∷ "torn" ∷ "b" ∷ "c" ∷ [])
      (source_start_for_ids ("a" ∷ "torn" ∷ "b" ∷ "c" ∷ []) (some "a") 7)
      2
    ≡ some (take 2 (visible row readable ("torn" ∷ "b" ∷ "c" ∷ [])))
page_after_cursor_example =
    page_after_cursor row readable 2 7 "a" [] ("torn" ∷ "b" ∷ "c" ∷ []) refl (omega arith)
