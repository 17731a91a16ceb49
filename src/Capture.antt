-- ===== src/Capture.antt =====
-- The capture worker, `process_clipboard_snapshot` of src-tauri/src/clipboard.rs: the gates, the relay
-- of a remote session, the dedup of one copy after another, the statements that store the clip and what
-- the statics hold at the end. It holds the lock `CLIPBOARD_SYNC`, so captures run one after another;
-- what a paste or a command does to the statics in between is another step.
pub mod Remote
pub mod Gates
pub mod State
pub mod Relay
pub mod Storing
pub mod Outcomes
pub mod Phases
pub mod Uniqueness
pub mod Exclusion
pub mod Target
pub mod Clearing
pub mod Echo
pub mod Stored
pub mod Kept
pub mod Revival
pub mod Forgotten
use Prim.Native.String.{String}
use package.text.Mathlib.Text.{◌==◌ as str_eq}
use cubby_clipboard.Prelude.{
  ℕ, ltb, Bool, true, false, not, ◌&&◌, ◌||◌, List, [], ◌∷◌, ◌++◌, Option, none, some,
  if◌then◌else◌,
}
use cubby_clipboard.ListenerEvent.{
  CapturedFormat, ClipboardSnapshot, CapturedContent, text, image, captured_clip_hash,
}
use cubby_clipboard.IgnoreHash.{IgnoreState, ignore_and_consume_self_paste, ignore_hash_ttl}
use cubby_clipboard.ForgetOnClear.{RecentCapture}
use cubby_clipboard.Secrets.{looks_like_credential}
use cubby_clipboard.SearchIndex.Service.{SearchIndex, upsert, invalidate}
use cubby_clipboard.ClipTable.{Clip, is_uuid, is_hash, select, delete_where}
use cubby_clipboard.Retention.{Policy, Outcome, enforce_retention_in_pool}
use cubby_clipboard.Capture.Remote.{is_remote_client_owner, should_relay_capture}
use cubby_clipboard.Capture.Gates.{Settings, is_refused}
use cubby_clipboard.Capture.State.{Platform, Snapshot, Environment, CaptureState}
use cubby_clipboard.Capture.Relay.{is_image, is_hash_of, primary, relay_remote_capture}
use cubby_clipboard.Capture.Storing.{
  Encrypted, row_error, clip_content, clip_preview, storage_hash, encrypt_fields, encrypt_formats,
  write_existing, write_new, enqueue_ocr, replace_clip_formats,
}

pub data ConsecutiveDedupDecision : Type 0 where
  skip capture : ConsecutiveDedupDecision

pub data StoredOriginalLookup : Type 0 where
  missing : StoredOriginalLookup
  found : Bool → StoredOriginalLookup
  unknown : StoredOriginalLookup

unfoldable pub consecutive_dedup_decision : StoredOriginalLookup → ConsecutiveDedupDecision
consecutive_dedup_decision missing = skip
consecutive_dedup_decision (found false) = skip
consecutive_dedup_decision (found true) = capture
consecutive_dedup_decision unknown = capture

abbrev pub is_skip : ConsecutiveDedupDecision → Bool
is_skip skip = true
is_skip capture = false

unfoldable pub lookup_stored_original : Bool → List Clip → String → StoredOriginalLookup
unfolding select
lookup_stored_original fails clips hash =
    if fails then unknown else elim (select (is_hash hash) clips) [
      | none ↦ missing
      | some row ↦ found row.full_image_expired
    ]

-- `*LAST_STABLE_HASH.lock() = None`
unfoldable pub reset_capture_dedup : CaptureState → CaptureState
reset_capture_dedup w = record w { last_stable_hash = none }

unfoldable pub discard_clear_target : CaptureState → CaptureState
discard_clear_target w = record w { last_accepted = none }

abbrev pub path_of : Option Clip → List String
path_of none = []
path_of (some row) = elim row.columns.file_path [ none ↦ [] | some path ↦ path ∷ [] ]

abbrev pub is_credential : Option (List ℕ) → Bool
is_credential none = false
is_credential (some decoded) = looks_like_credential decoded

-- b"image" and b"text" as the index reads them.
abbrev pub clip_type : CapturedContent → String
clip_type content = if is_image content then "image" else "text"

module _ (p : Platform) where
  abbrev pub retention_policy : Settings → Environment → Policy
  retention_policy settings env = record {
    max_items = settings.max_items;
    auto_delete_days = settings.auto_delete_days;
    now = env.current_time;
    newest_first = p.newest_first;
  }

  -- The content decoded, for the scans of a text.
  abbrev pub scanned : CapturedContent → Option (List ℕ)
  scanned (text bytes preview hash) = p.from_utf8 bytes
  scanned (image png_bytes hash) = none

  unfoldable pub refuses : Settings → Snapshot → Bool
  unfolding is_refused
  refuses settings s =
      is_refused p.lowercase settings s.sensitive s.source_app (not (is_image s.event.content))
        (scanned s.event.content)

  unfoldable pub relays : Settings → Snapshot → Bool
  unfolding should_relay_capture is_remote_client_owner
  relays settings s =
      let remote = is_remote_client_owner s.source_app.exe_name s.source_app.is_explicit_owner in
      should_relay_capture settings.remote_clipboard_relay remote false
      && (not s.sensitive.content_owner
          && (not s.sensitive.history_exclusion && not s.sensitive.cloud_exclusion))

  unfoldable pub maybe_relay :
      Settings → Environment → Snapshot → String → CaptureState → CaptureState
  unfolding relays relay_remote_capture
  maybe_relay settings env s clip_hash w =
      if relays settings s then relay_remote_capture p env s clip_hash w else w

  -- The same content as last time, and nothing to restore.
  unfoldable pub skips_consecutive : Environment → Snapshot → String → CaptureState → Bool
  unfolding lookup_stored_original consecutive_dedup_decision storage_hash
  skips_consecutive env s clip_hash w =
      let stored =
        lookup_stored_original env.stored_lookup_fails w.clips (storage_hash p s.event) in
      is_hash_of w.last_stable_hash clip_hash
      && (not (is_image s.event.content) || is_skip (consecutive_dedup_decision stored))

  -- The auxiliary formats of a new clip failed.
  unfoldable pub roll_back : Environment → String → CaptureState → CaptureState
  unfolding select delete_where
  roll_back env id w =
      let paths =
        if env.path_lookup_fails
        then p.original_path id ∷ []
        else path_of (select (is_uuid id) w.clips) in
      if env.rollback_fails
      then w
      else record w { clips = delete_where (is_uuid id) w.clips; unlinked = paths ++ w.unlinked }

  unfoldable pub indexed_capture : Snapshot → String → ℕ → SearchIndex → SearchIndex
  unfolding invalidate upsert clip_content
  indexed_capture s id deleted index =
      if ltb 0 deleted
      then invalidate index
      else upsert p.lowercase p.from_utf8_lossy index id (clip_type s.event.content)
          (clip_content p s.event.content) (p.from_utf8_lossy (clip_preview s.event.content)) none
          s.source_app.name

  -- A failing retention deletes nothing.
  unfoldable pub retain : Settings → Environment → Snapshot → String → CaptureState → CaptureState
  unfolding enforce_retention_in_pool indexed_capture
  retain settings env s id w =
      elim (enforce_retention_in_pool (retention_policy settings env) env.retention_fails w.clips) [
        | none ↦ record w { index = indexed_capture s id 0 w.index }
        | some out ↦ record w {
          clips = out.clips;
          unlinked = out.unlink ++ w.unlinked;
          index = indexed_capture s id out.deleted w.index;
        }
      ]

  abbrev pub recent_capture : Environment → Snapshot → String → RecentCapture
  recent_capture env s id = record {
    uuid = id;
    captured_at = env.captured_at;
    credential_like = is_credential (scanned s.event.content);
  }

  unfoldable pub finish :
      Settings → Environment → Snapshot → String → String → CaptureState → CaptureState
  unfolding retain
  finish settings env s clip_hash id w =
      let w' = retain settings env s id (record w { last_stable_hash = some clip_hash }) in
      record w' { last_accepted = some (recent_capture env s id); emitted = id ∷ w'.emitted }

  -- From the queue of recognition on.
  unfoldable pub complete :
      Settings
      → Environment
      → Snapshot
      → String
      → Bool
      → CaptureState × Option String
      → CaptureState
  unfolding enqueue_ocr encrypt_formats replace_clip_formats roll_back finish
  complete settings env s clip_hash inserted_new (w, none) = w
  complete settings env s clip_hash inserted_new (w, some id) =
      let queued = record w { clips = enqueue_ocr env s id w.clips } in
      let sealed = if env.formats_fail then none else encrypt_formats env.encrypt s.event.formats in
      elim sealed [
        | none ↦ if inserted_new then roll_back env id queued else queued
        | some formats ↦
            finish settings env s clip_hash id
              (record queued { clips = replace_clip_formats formats id queued.clips })
      ]

  unfoldable pub store_capture :
      Settings → Environment → Snapshot → String → CaptureState → CaptureState
  unfolding encrypt_fields storage_hash select write_existing write_new complete
  store_capture settings env s clip_hash w = elim (encrypt_fields p env s) [
    | none ↦ w
    | some e ↦
        if env.select_fails
        then row_error w s.event.sequence
        else elim (select (is_hash (storage_hash p s.event)) w.clips) [
          | some row ↦
              complete settings env s clip_hash false (write_existing p env s e row.columns.uuid w)
          | none ↦ complete settings env s clip_hash true (write_new p env s e w)
        ]
  ]

  -- A capture that passed the gates.
  unfoldable pub accept : Settings → Environment → Snapshot → String → CaptureState → CaptureState
  unfolding maybe_relay skips_consecutive store_capture discard_clear_target
  accept settings env s clip_hash w =
      let w' = maybe_relay settings env s clip_hash w in
      if skips_consecutive env s clip_hash w'
      then w'
      else store_capture settings env s clip_hash (discard_clear_target w')

  abbrev pub hash_of : Snapshot → String
  hash_of s = captured_clip_hash p.hasher s.event.content s.event.formats

  -- The content is Cubby's own write, and what the marker is then.
  abbrev pub self_paste : Environment → Snapshot → CaptureState → Bool × IgnoreState
  self_paste env s w =
      ignore_and_consume_self_paste w.ignore s.event.ignore (hash_of s) env.checked_at
        ignore_hash_ttl

  unfoldable pub process_clipboard_snapshot :
      Settings → Environment → Snapshot → CaptureState → CaptureState
  unfolding captured_clip_hash ignore_and_consume_self_paste refuses discard_clear_target accept
  process_clipboard_snapshot settings env s w =
      let arrived = record w { ignore = (self_paste env s w).1 } in
      if (self_paste env s w).0
      then arrived
      else if refuses settings s
      then discard_clear_target arrived
      else accept settings env s (hash_of s) arrived
