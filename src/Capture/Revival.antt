-- ===== src/Capture/Revival.antt =====
-- An image that is copied again after its original expired, src-tauri/src/clipboard.rs and
-- src-tauri/src/commands.rs.
use Prim.Native.String.{String}
use mathlib.Core.Path.{subst}
use cubby_clipboard.Prelude.{◌≡◌, refl, sym, ap, ◌∙◌, true, false, List, none, some, arith}
use cubby_clipboard.OcrQueue.{has_text}
use cubby_clipboard.ListenerEvent.{CapturedFormat}
use cubby_clipboard.ClipTable.{Clip, is_uuid, is_hash, select}
use cubby_clipboard.ClipTable.Rows.{IsUniqueId}
use cubby_clipboard.Retention.{is_completed, is_aged, is_preserved, overflow, expire}
use cubby_clipboard.Capture.Gates.{Settings}
use cubby_clipboard.Capture.State.{Platform, Snapshot, Environment, CaptureState}
use cubby_clipboard.Capture.Relay.{is_image}
use cubby_clipboard.Capture.Storing.{Encrypted, storage_hash, encrypt_fields, encrypt_formats}
use cubby_clipboard.Capture.{
  consecutive_dedup_decision, lookup_stored_original, retention_policy, refuses, hash_of,
  self_paste, skips_consecutive, process_clipboard_snapshot,
}
use cubby_clipboard.Capture.Outcomes.{maybe_relay-clips, arrived, relayed, process-stored}
use cubby_clipboard.Capture.Stored.{IsFine, settled, rewritten, existing-IsReady}
use cubby_clipboard.Capture.Kept.{finish_expires}

module _ (p : Platform) (settings : Settings) (env : Environment) (s : Snapshot) where
  -- An expired original is never passed over as a repeat.
  expired_not_skipped :
      (hash : String) (c : Clip) (w : CaptureState)
      → is_image s.event.content ≡ true
      → c.full_image_expired ≡ true
      → select (is_hash (storage_hash p s.event)) w.clips ≡ some c
      → skips_consecutive p env s hash w ≡ false
  unfolding skips_consecutive lookup_stored_original consecutive_dedup_decision
  expired_not_skipped hash c w image expired found = ground (arith, image, expired, found)

  restored_is_preserved :
      (e : Encrypted) (formats : List CapturedFormat) (over : List String) (c : Clip)
      → is_image s.event.content ≡ true
      → c.columns.is_image ≡ true
      → c.is_pinned ≡ false
      → is_completed c.columns.ocr_status ≡ true
      → has_text c.columns ≡ true
      → is_aged (retention_policy p settings env) c.last_accessed ≡ true
      → is_preserved
          (retention_policy p settings env)
          over
          (settled env s formats c.columns.uuid (rewritten p settings env s e c))
        ≡ true
  unfolding is_preserved
  restored_is_preserved e formats over c pictured image free completed text aged =
      ground (arith, pictured, image, free, completed, text, aged)

  settled_facts :
      (e : Encrypted) (formats : List CapturedFormat) (c : Clip)
      → is_image s.event.content ≡ true
      → c.columns.is_image ≡ true
      → is_completed c.columns.ocr_status ≡ true
      → has_text c.columns ≡ true
      → let d = settled env s formats c.columns.uuid (rewritten p settings env s e c) in
        (d.columns.is_deleted ≡ false)
        × (d.columns.is_image ≡ true)
        × (is_completed d.columns.ocr_status ≡ true)
        × (has_text d.columns ≡ true)
  settled_facts e formats c pictured image completed text =
      ground (arith, pictured, image, completed, text)

module _ (p : Platform) (settings : Settings) (env : Environment) (s : Snapshot)
    (w : CaptureState) where
  -- If an image whose text is known is copied again after its original expired, and it was last
  -- accessed longer ago than the days of the settings, the capture restores the original and, though
  -- no statement fails, its own retention drops it again.
  pub revival_undone :
      (e : Encrypted) (formats : List CapturedFormat) (c : Clip)
      → IsFine env
      → env.retention_fails ≡ false
      → encrypt_fields p env s ≡ some e
      → encrypt_formats env.encrypt s.event.formats ≡ some formats
      → IsUniqueId c.columns.uuid w.clips
      → select (is_hash (storage_hash p s.event)) w.clips ≡ some c
      → is_image s.event.content ≡ true
      → c.columns.is_image ≡ true
      → c.is_pinned ≡ false
      → c.full_image_expired ≡ true
      → is_completed c.columns.ocr_status ≡ true
      → has_text c.columns ≡ true
      → is_aged (retention_policy p settings env) c.last_accessed ≡ true
      → (self_paste p env s w).0 ≡ false
      → refuses p settings s ≡ false
      → (d : Clip) × (select
            (is_uuid c.columns.uuid)
            (process_clipboard_snapshot p settings env s w).clips
          ≡ some d)
        × (d.full_image_expired ≡ true)
        × (d.columns.file_path ≡ none)
  revival_undone e formats c fine kept sealed coded one found pictured image free expired completed
        text aged own passed =
      let hash = hash_of p s in
      let came = record (relayed p settings env s w) { last_accepted = none } in
      let back : came.clips ≡ w.clips =
        maybe_relay-clips p settings env s hash (arrived p settings env s w) in
      let here = ap (select (is_hash (storage_hash p s.event))) back ∙ found in
      let new =
        expired_not_skipped p settings env s hash c (relayed p settings env s w) pictured expired
          here in
      let ready =
        existing-IsReady p settings env s hash e formats c came fine sealed coded
          (subst (IsUniqueId c.columns.uuid) (sym back) one) here in
      let d = settled env s formats c.columns.uuid (rewritten p settings env s e c) in
      let (live, pic, comp, txt) =
        settled_facts p settings env s e formats c pictured image completed text in
      let policy = retention_policy p settings env in
      (
        expire d,
        ap (λ w. select (is_uuid c.columns.uuid) w.clips)
              (process-stored p settings env s w own passed new ∙ ready.finishes)
            ∙ finish_expires p settings env s hash c.columns.uuid d ready.start kept ready.unique
                ready.row live pic comp txt
                (restored_is_preserved p settings env s e formats
                  (overflow policy ready.start.clips) c pictured image free completed text aged),
        refl,
        refl,
      )
