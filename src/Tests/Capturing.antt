-- ===== src/Tests/Capturing.antt =====
-- Examples for the capture worker, src-tauri/src/clipboard.rs.
use Prim.Native.String.{String}
use mathlib.Core.List.{append_assoc}
use cubby_clipboard.Prelude.{
  ℕ, ◌==◌, ◌≤◌, ◌≡◌, refl, ap, ◌⊎◌, true, false, List, [], ◌∷◌, ◌++◌, none, some, length, arith,
  if◌then◌else◌,
}
use cubby_clipboard.Secrets.Text.{text_eq, any, trim_matches, trim_start, trim_end, str_len}
use cubby_clipboard.ListenerEvent.{Hasher, CapturedContent, text, image, captured_clip_hash}
use cubby_clipboard.ListenerEvent.Hashing.{StreamLaws}
use cubby_clipboard.IgnoreHash.{ignore_and_consume_self_paste}
use cubby_clipboard.ForgetOnClear.{ClipFlags, process_clipboard_clear}
use cubby_clipboard.ForgetOnClear as Clear
use cubby_clipboard.Secrets.{looks_like_credential}
use cubby_clipboard.ClipTable.{
  Clip, is_uuid, is_hash, select, count_where, is_in, delete_where, update_where, uuids_where,
  flags_of,
}
use cubby_clipboard.Capture.Gates.{
  Settings, SourceApp, SensitiveMarkers, is_refused, should_skip_sensitive_capture,
  likely_secret_decision, is_ignored,
}
use cubby_clipboard.Capture.State.{Platform, Snapshot, Environment, CaptureState}
use cubby_clipboard.Capture.Relay.{relayed_auxiliary_formats, relay_remote_capture, set_ignore_hash}
use cubby_clipboard.Capture.Storing.{
  Encrypted, image_label, encrypt_fields, encrypt_formats, clip_content, metadata_of, storage_hash,
  write_new, enqueue_ocr, replace_clip_formats,
}
use cubby_clipboard.Capture.{
  self_paste, refuses, relays, scanned, is_credential, process_clipboard_snapshot, accept,
  store_capture, complete, finish, retain, indexed_capture, maybe_relay, skips_consecutive,
  lookup_stored_original, discard_clear_target,
}
use cubby_clipboard.Retention.{
  enforce_retention_in_pool, preserve, sweep, is_preserved, is_swept, overflow, offset, live_keys,
}
use cubby_clipboard.Capture.Remote.{
  is_remote_client_owner, is_rdp_client_owner, is_remote_client_process, classify_remote_process,
  is_any, eq_ignore_ascii_case, should_relay_capture,
}
use cubby_clipboard.Capture.Outcomes.{arrived}
use cubby_clipboard.Capture.Uniqueness.{process_clipboard_snapshot-IsUnique}
use cubby_clipboard.Capture.Exclusion.{unmonitored, excluded_untouched}
use cubby_clipboard.Capture.Clearing.{
  IsRemembered, clear_store, process_clipboard_snapshot-IsRemembered, clear_forgets_this_capture,
}
use cubby_clipboard.Capture.Echo.{relay_echo_ignored}
use cubby_clipboard.Capture.Stored.{IsFine}
use cubby_clipboard.Capture.Kept.{IsCaptured, process_clipboard_snapshot-IsCaptured}
use cubby_clipboard.Capture.Forgotten.{captured_credential_forgotten}
use cubby_clipboard.Capture.Revival.{revival_undone}
use cubby_clipboard.Tests.Retained.{by_time, clip_of}

-- A digest that keeps what it is given, and prints short texts apart.
abbrev printed : List ℕ → String
printed bytes = if length bytes == 0 then "empty" else "digest"

abbrev streaming : Hasher
streaming = record { State = List ℕ; new = []; update = λ s xs. s ++ xs; finalize = printed }

streaming-StreamLaws : StreamLaws streaming
streaming-StreamLaws = record { update_update = λ s xs ys. append_assoc s xs ys }

abbrev keyed : List ℕ → String
keyed bytes = "a"

abbrev pub machine : Platform
machine = record {
  hasher = streaming;
  keyed_hash = keyed;
  lowercase = λ t. t;
  from_utf8 = λ t. some t;
  from_utf8_lossy = λ t. t;
  into_bytes = λ t. t;
  create_image_preview = λ t. some t;
  formats_metadata = λ names. [];
  image_metadata = λ s. [];
  original_path = λ u. u;
  newest_first = by_time;
}

abbrev pub settings : Settings
settings = record {
  skip_sensitive = true;
  skip_likely_secrets = false;
  ignore_ghost_clips = false;
  remote_clipboard_relay = true;
  ignored_apps = [];
  max_items = 0;
  auto_delete_days = 0;
}

abbrev unmarked : SensitiveMarkers
unmarked = record {
  monitor_exclusion = false;
  content_owner = false;
  history_exclusion = false;
  cloud_exclusion = false;
}

-- mstsc.exe
abbrev viewer : List ℕ
viewer = b'm' ∷ b's' ∷ b't' ∷ b's' ∷ b'c' ∷ 46 ∷ b'e' ∷ b'x' ∷ b'e' ∷ []

abbrev viewer_app : SourceApp
viewer_app = record {
  name = none;
  icon = none;
  exe_name = some viewer;
  full_path = none;
  is_explicit_owner = true;
}

-- Abcdef1!
abbrev pub password : List ℕ
password = b'A' ∷ b'b' ∷ b'c' ∷ b'd' ∷ b'e' ∷ b'f' ∷ b'1' ∷ 33 ∷ []

abbrev snapshot_of : CapturedContent → SensitiveMarkers → Snapshot
snapshot_of content markers = record {
  event = record { sequence = 1; content = content; formats = []; ignore = none };
  source_app = viewer_app;
  sensitive = markers;
}

abbrev pub copied : Snapshot
copied = snapshot_of (text password password []) unmarked

-- A copy in a program that is not a remote client, out of the history and unmonitored.
abbrev marked : Snapshot
marked =
    record (snapshot_of (text password password []) (record unmarked {
      history_exclusion = true;
      monitor_exclusion = true;
      cloud_exclusion = true;
    })) { source_app = record viewer_app { exe_name = some (b'm' ∷ b's' ∷ []) } }

abbrev pub quiet : Environment
quiet = record {
  checked_at = 10;
  relayed_at = 11;
  captured_at = 12;
  current_time = 300000;
  new_uuid = "n";
  encrypt = λ t. some t;
  relay_fails = false;
  stored_lookup_fails = false;
  select_fails = false;
  recapture_fails = false;
  update_fails = false;
  insert_fails = false;
  persist_fails = false;
  index_fails = false;
  drop_fails = false;
  enqueue_fails = false;
  formats_fail = false;
  path_lookup_fails = false;
  rollback_fails = false;
  retention_fails = false;
}

abbrev pub idle : List Clip → CaptureState
idle clips = record {
  ignore = record { marker = none; consumed_generation = none };
  next_generation = 0;
  last_stable_hash = none;
  last_relayed_hash = none;
  last_accepted = none;
  last_error = none;
  clips = clips;
  next_id = 5;
  index = record { state = none; generation = 0 };
  unlinked = [];
  published = [];
  emitted = [];
}

process_clipboard_snapshot-IsUnique_example :
    count_where
      (is_hash "a")
      (process_clipboard_snapshot machine settings quiet copied
        (idle (clip_of "a" 1 false ∷ []))).clips
    ≤ 1
unfolding count_where
process_clipboard_snapshot-IsUnique_example =
    process_clipboard_snapshot-IsUnique machine settings quiet copied
      (idle (clip_of "a" 1 false ∷ [])) "a" (omega arith)

excluded_untouched_example :
    ((process_clipboard_snapshot machine settings quiet marked (idle [])).clips ≡ [])
    × ((process_clipboard_snapshot machine settings quiet marked (idle [])).index ≡ (idle []).index)
    × ((process_clipboard_snapshot machine settings quiet marked (idle [])).published ≡ [])
    × ((process_clipboard_snapshot machine settings quiet marked (idle [])).emitted ≡ [])
    × (((self_paste machine quiet marked (idle [])).0 ≡ true)
        ⊎ ((process_clipboard_snapshot machine settings quiet marked (idle [])).last_accepted
            ≡ none))
unfolding is_any eq_ignore_ascii_case text_eq
excluded_untouched_example =
    excluded_untouched machine settings quiet marked (idle []) (unmonitored refl refl refl)

process_clipboard_snapshot-IsRemembered_example :
    IsRemembered machine settings quiet copied
      (idle [])
      (process_clipboard_snapshot machine settings quiet copied (idle []))
process_clipboard_snapshot-IsRemembered_example =
    process_clipboard_snapshot-IsRemembered machine settings quiet copied (idle [])

abbrev after : CaptureState
after = process_clipboard_snapshot machine settings quiet copied (idle [])

abbrev echo : Snapshot
echo = copied

abbrev echo_time : Environment
echo_time = record quiet { checked_at = 20 }

relay_echo_ignored_example :
    process_clipboard_snapshot machine settings echo_time echo after
    ≡ arrived machine settings echo_time echo after
unfolding ignore_and_consume_self_paste refuses is_refused should_skip_sensitive_capture
    likely_secret_decision text_eq is_remote_client_owner is_rdp_client_owner
    is_remote_client_process classify_remote_process is_any eq_ignore_ascii_case is_ignored relays
    should_relay_capture captured_clip_hash relayed_auxiliary_formats
relay_echo_ignored_example =
    relay_echo_ignored machine settings quiet copied (idle []) streaming-StreamLaws settings
      echo_time echo refl refl refl refl refl refl refl (omega arith) (omega arith)

pub fine : IsFine quiet
fine = record {
  select_fine = refl;
  recapture_fine = refl;
  update_fine = refl;
  insert_fine = refl;
  persist_fine = refl;
  index_fine = refl;
  formats_fine = refl;
}

abbrev pub plain : Encrypted
plain = record {
  content = password;
  preview = password;
  source_app = none;
  source_icon = none;
  metadata = none;
}

process_clipboard_snapshot-IsCaptured_example :
    IsCaptured machine settings quiet copied (idle []) [] after
unfolding ignore_and_consume_self_paste refuses is_refused should_skip_sensitive_capture
    likely_secret_decision text_eq is_remote_client_owner is_rdp_client_owner
    is_remote_client_process classify_remote_process is_any eq_ignore_ascii_case is_ignored relays
    should_relay_capture captured_clip_hash encrypt_fields encrypt_formats clip_content metadata_of
    count_where select skips_consecutive maybe_relay relay_remote_capture set_ignore_hash
process_clipboard_snapshot-IsCaptured_example =
    process_clipboard_snapshot-IsCaptured machine settings quiet copied (idle []) plain [] fine refl
      refl refl refl (λ u. omega arith) refl refl refl refl

abbrev clearing : Clear.Environment
clearing = record {
  forget_on_clipboard_clear = true;
  now = 30;
  arrival = none;
  lookup_fails = false;
  begin_fails = false;
  pins = λ u. false;
  delete_fails = false;
  commit_fails = false;
}

abbrev row : ClipFlags
row = record { is_pinned = false; is_deleted = false }

-- The name of the clip is new, and the password is a credential by its characters.
credential : looks_like_credential password ≡ true
unfolding looks_like_credential any trim_matches trim_start trim_end str_len
credential = ground arith

abbrev stored_clip : Clip
stored_clip = record {
  columns = record {
    id = 5;
    uuid = "n";
    created_at = 300000;
    is_image = false;
    is_deleted = false;
    ocr_text = none;
    ocr_words = none;
    ocr_status = none;
    ocr_attempts = 0;
    ocr_next_retry_at = none;
    ocr_error_kind = none;
    file_path = none;
    full_content = none;
  };
  content_hash = "a";
  content = password;
  text_preview = password;
  source_app = none;
  source_icon = none;
  metadata = none;
  is_pinned = false;
  full_image_expired = false;
  last_accessed = 300000;
  formats = [];
}

unfoldable kept : IsCaptured machine settings quiet copied (idle []) [] after
unfolding ignore_and_consume_self_paste refuses is_refused should_skip_sensitive_capture
    likely_secret_decision text_eq is_remote_client_owner is_rdp_client_owner
    is_remote_client_process classify_remote_process is_any eq_ignore_ascii_case is_ignored relays
    should_relay_capture captured_clip_hash encrypt_fields encrypt_formats clip_content metadata_of
    count_where select skips_consecutive lookup_stored_original maybe_relay relay_remote_capture
    set_ignore_hash storage_hash process_clipboard_snapshot accept store_capture write_new complete
    enqueue_ocr replace_clip_formats finish retain enforce_retention_in_pool preserve sweep
    is_preserved is_swept overflow offset live_keys is_in delete_where update_where uuids_where
    indexed_capture discard_clear_target
kept = record {
  id = "n";
  clip = stored_clip;
  there = refl;
  stored = record { live = refl; hashed = refl; formatted = refl; backed = refl; restored = refl };
  target = refl;
}

captured_credential_forgotten_example :
    (process_clipboard_clear clearing (clear_store after) 1 3 none).clips "n" ≡ none
unfolding kept
captured_credential_forgotten_example =
    captured_credential_forgotten machine settings quiet copied (idle []) clearing 1 3 [] kept
      credential refl refl (omega arith) (omega arith) refl

gone : (process_clipboard_clear clearing (clear_store after) 1 3 none).clips "n" ≡ none
unfolding kept
gone =
    captured_credential_forgotten machine settings quiet copied (idle []) clearing 1 3 [] kept
      credential refl refl (omega arith) (omega arith) refl

there : (clear_store after).clips "n" ≡ some row
unfolding kept
there = ap flags_of kept.there

clear_forgets_this_capture_example :
    (after.emitted ≡ "n" ∷ []) × (is_credential (scanned machine copied.event.content) ≡ true)
unfolding ignore_and_consume_self_paste refuses is_refused should_skip_sensitive_capture
    likely_secret_decision text_eq is_remote_client_owner is_rdp_client_owner
    is_remote_client_process classify_remote_process is_any eq_ignore_ascii_case is_ignored relays
    should_relay_capture captured_clip_hash encrypt_fields encrypt_formats clip_content metadata_of
    count_where select skips_consecutive lookup_stored_original maybe_relay relay_remote_capture
    set_ignore_hash storage_hash
clear_forgets_this_capture_example =
    clear_forgets_this_capture machine settings quiet copied (idle []) clearing 1 3 "n" row refl
      refl there gone

-- A picture whose original expired long ago.
abbrev picture : Snapshot
picture = snapshot_of (image (7 ∷ []) []) unmarked

abbrev expired_clip : Clip
expired_clip = record (clip_of "a" 1 true) { full_image_expired = true }

abbrev one_day : Settings
one_day = record settings { auto_delete_days = 1 }

abbrev pictured : Encrypted
pictured = record {
  content = 7 ∷ [];
  preview = image_label;
  source_app = none;
  source_icon = none;
  metadata = some [];
}

revival_undone_example :
    (d : Clip) × (select
        (is_uuid "a")
        (process_clipboard_snapshot machine one_day quiet picture (idle (expired_clip ∷ []))).clips
      ≡ some d)
    × (d.full_image_expired ≡ true)
    × (d.columns.file_path ≡ none)
unfolding ignore_and_consume_self_paste refuses is_refused should_skip_sensitive_capture
    likely_secret_decision text_eq is_remote_client_owner is_rdp_client_owner
    is_remote_client_process classify_remote_process is_any eq_ignore_ascii_case is_ignored relays
    should_relay_capture captured_clip_hash encrypt_fields encrypt_formats clip_content metadata_of
    count_where select skips_consecutive lookup_stored_original maybe_relay relay_remote_capture
    set_ignore_hash storage_hash
revival_undone_example =
    revival_undone machine one_day quiet picture (idle (expired_clip ∷ [])) pictured [] expired_clip
      fine refl refl refl (omega arith) refl refl refl refl refl refl refl refl refl refl
