-- ===== src/Tests/Commands.antt =====
-- Examples for the commands on the history, src-tauri/src/commands.rs.
use cubby_clipboard.Prelude.{ℕ, ◌+◌, ◌≡◌, refl, true, false, none, [], ◌∷◌, some, arith}
use cubby_clipboard.IgnoreHash.{ignore_and_consume_self_paste}
use cubby_clipboard.Secrets.Text.{text_eq}
use cubby_clipboard.ClipTable.{Clip, is_hash, select, count_where, delete_where}
use cubby_clipboard.Capture.State.{CaptureState}
use cubby_clipboard.Capture.Remote.{
  is_remote_client_owner, is_rdp_client_owner, is_remote_client_process, classify_remote_process,
  is_any, eq_ignore_ascii_case,
}
use cubby_clipboard.Capture.Gates.{
  is_refused, should_skip_sensitive_capture, likely_secret_decision, is_ignored,
}
use cubby_clipboard.Capture.Storing.{
  encrypt_fields, encrypt_formats, clip_content, metadata_of, storage_hash,
}
use cubby_clipboard.Capture.{process_clipboard_snapshot, refuses, reset_capture_dedup}
use cubby_clipboard.Capture.Kept.{IsCaptured}
use cubby_clipboard.History.{delete_clip, clear_unpinned_clips}
use cubby_clipboard.History.Editing.{update_clip_text, edited_clips}
use cubby_clipboard.History.Steps.{
  Action, captures, deletes, start, next, IsConsistent, perform, Reachable-IsConsistent,
}
use cubby_clipboard.History.Cleared.{clear_unpinned_clips_keeps, deleted_recopied}
use cubby_clipboard.History.Found.{edited_text_found}
use cubby_clipboard.Tests.Retained.{clip_of}
use cubby_clipboard.Tests.Capturing.{machine, settings, quiet, copied, idle, fine, plain, password}

abbrev note : Clip
note = clip_of "b" 2 false

abbrev one_clip : CaptureState
one_clip = idle (note ∷ [])

one_clip-IsConsistent : IsConsistent one_clip
unfolding count_where
one_clip-IsConsistent = record { ids = λ u. ground arith; hashes = λ hash. ground arith }

abbrev copying : Action
copying = captures settings quiet copied

abbrev deleting : Action
deleting = deletes (λ id. false) ("b" ∷ "x" ∷ []) true

Reachable-IsConsistent_example :
    IsConsistent (perform machine deleting (perform machine copying one_clip))
Reachable-IsConsistent_example =
    Reachable-IsConsistent machine one_clip _ one_clip-IsConsistent
      (next deleting _ (next copying _ start))

abbrev pinned_note : Clip
pinned_note = record note { is_pinned = true }

abbrev two_clips : CaptureState
two_clips = idle (clip_of "a" 1 true ∷ pinned_note ∷ [])

clear_unpinned_clips_keeps_example :
    ((clear_unpinned_clips false two_clips).1.clips ≡ pinned_note ∷ [])
    × ((clear_unpinned_clips false two_clips).1.last_stable_hash ≡ none)
    × ((n : ℕ) × ((clear_unpinned_clips false two_clips).0 ≡ some n) × (n + 1 ≡ 2))
    × (clear_unpinned_clips true two_clips ≡ (none, two_clips))
clear_unpinned_clips_keeps_example = clear_unpinned_clips_keeps two_clips

deleted_recopied_example :
    IsCaptured machine settings quiet copied (delete_clip false "b" true one_clip).1 [] (
      process_clipboard_snapshot machine settings quiet copied
        (delete_clip false "b" true one_clip).1)
unfolding delete_clip reset_capture_dedup delete_where select ignore_and_consume_self_paste refuses
    is_refused should_skip_sensitive_capture likely_secret_decision text_eq is_remote_client_owner
    is_rdp_client_owner is_remote_client_process classify_remote_process is_any eq_ignore_ascii_case
    is_ignored encrypt_fields encrypt_formats clip_content metadata_of
deleted_recopied_example =
    deleted_recopied machine settings quiet copied one_clip false "b" true plain []
      one_clip-IsConsistent refl fine refl refl refl refl refl refl refl

edited_text_found_example :
    (c : Clip) × (select
        (is_hash (storage_hash machine copied.event))
        (update_clip_text machine false (λ t. some t) "b" password one_clip).1.clips
      ≡ some c)
    × (c.columns.uuid ≡ "b")
    × (c.formats ≡ [])
    × ((update_clip_text machine false (λ t. some t) "b" password one_clip).1.last_stable_hash
        ≡ none)
unfolding update_clip_text edited_clips select
edited_text_found_example =
    edited_text_found machine false (λ t. some t) "b" password one_clip copied.event password []
      refl refl refl
