-- ===== src/Capture/Forgotten.antt =====
-- A credential that is copied and then cleared, src-tauri/src/clipboard.rs.
use cubby_clipboard.Prelude.{ℕ, ◌+◌, ◌≤◌, ◌≡◌, ap, true, false, ◌||◌, List, none, arith}
use cubby_clipboard.ListenerEvent.{CapturedFormat}
use cubby_clipboard.ForgetOnClear.{process_clipboard_clear, clipboard_clear_forget_window}
use cubby_clipboard.ForgetOnClear as Clear
use cubby_clipboard.ForgetOnClear.Safety.{marker_forgets}
use cubby_clipboard.ClipTable.{flags_of}
use cubby_clipboard.Capture.Gates.{Settings}
use cubby_clipboard.Capture.State.{Platform, Snapshot, Environment, CaptureState}
use cubby_clipboard.Capture.{recent_capture, is_credential, scanned, process_clipboard_snapshot}
use cubby_clipboard.Capture.Clearing.{clear_store}
use cubby_clipboard.Capture.Kept.{IsCaptured}

module _ (p : Platform) (settings : Settings) (env : Environment) (s : Snapshot)
    (w : CaptureState) where
  -- A captured clip whose content looks like a credential is deleted when the clipboard is cleared at
  -- most ninety seconds later, if the setting is on, no statement of the handler fails and the clip is
  -- not pinned.
  pub captured_credential_forgotten :
      (clearing : Clear.Environment) (n a : ℕ) (formats : List CapturedFormat)
      → (kept : IsCaptured p settings env s w formats
          (process_clipboard_snapshot p settings env s w))
      → is_credential (scanned p s.event.content) ≡ true
      → clearing.forget_on_clipboard_clear ≡ true
      → (clearing.lookup_fails
          || (clearing.begin_fails || (clearing.delete_fails || clearing.commit_fails)))
        ≡ false
      → env.captured_at ≤ clearing.now
      → clearing.now ≤ env.captured_at + clipboard_clear_forget_window
      → (kept.clip.is_pinned || clearing.pins kept.id) ≡ false
      → (process_clipboard_clear clearing
            (clear_store (process_clipboard_snapshot p settings env s w))
            n
            a
            none).clips
          kept.id
        ≡ none
  captured_credential_forgotten clearing n a formats kept like on fine after soon free =
      marker_forgets clearing (clear_store (process_clipboard_snapshot p settings env s w)) n a
        (recent_capture p env s kept.id)
        (record { is_pinned = kept.clip.is_pinned; is_deleted = kept.clip.columns.is_deleted }) on
        fine kept.target after soon like (ap flags_of kept.there)
        (ground (arith, kept.stored.live, free))
